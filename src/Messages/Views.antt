-- ===== src/Messages/Views.antt =====
-- What a participant sees: the thread and the unread messages of packages/modules/messages/src/service.ts.
use campus_os.Common.{
  ℕ, ◌≡◌, refl, ap, ◌∙◌, Bool, true, false, ◌&&◌, some, List, [], ◌∷◌, ◌++◌, ◌==◌, leb, ltb, any,
  filter, filter_none, find, update_where, All, arith, Bool-cases, Option-cases, inl, inr,
  count_zero, map, find-some, find_holds, find-none, find-update_where, take, sort_by, filter-cong,
  take-nil, All-update_where,
}
use campus_os.Core.Result.{ok}
use campus_os.Tenancy.{Context}
use campus_os.Messages.{
  is_active, Conversation, Message, Messages, is_after_viewing, ParticipantState,
  conversation_by_id,
}
use campus_os.Messages.Sending.{state_of, new_state, read_now}
use campus_os.Messages.Reading.{
  cleared_until, read_until, in_view, unread_in, stands, or_epoch, past,
}
use campus_os.Messages.Thread.{
  thread_order, shown, thread_messages, upsert_state, cleared_now, clear_conversation, viewed_first,
  stamped, stamp_viewed, mark_read,
}

-- A change of a state row that keeps whose it is.
abbrev KeepsOwner : (ParticipantState → ParticipantState) → Type 0
KeepsOwner f = (k user : ℕ) (t : ParticipantState) → state_of k user (f t) ≡ state_of k user t

module _ (ctx : Context) (k : ℕ) (f : ParticipantState → ParticipantState)
    (keeps : KeepsOwner f) where
  appended :
      (states : List ParticipantState)
      → any (state_of k ctx.user_id) states ≡ false
      → find (state_of k ctx.user_id) (states ++ f (new_state ctx k) ∷ [])
        ≡ some (f (new_state ctx k))
  appended [] h = ground (arith, keeps k ctx.user_id (new_state ctx k))
  appended (t ∷ ts) h = ground (arith, appended ts)

  -- The row that an upsert leaves.
  upserted :
      (states : List ParticipantState)
      → (t : ParticipantState) × (find (state_of k ctx.user_id) (upsert_state ctx k f states)
          ≡ some (f t))
  unfolding upsert_state
  upserted states = elim (Option-cases (find (state_of k ctx.user_id) states)) [
    | inr (t, there) ↦ (
      t,
      ground (
        arith,
        find-some (state_of k ctx.user_id) states there,
        find_holds (state_of k ctx.user_id) states there,
        find-update_where (state_of k ctx.user_id) (state_of k ctx.user_id) f states t
            (keeps k ctx.user_id) there,
      ),
    )
    | inl missing ↦ (
      new_state ctx k,
      ground (arith, find-none (state_of k ctx.user_id) states missing, appended states),
    )
  ]

  module _ (user j : ℕ) (other : (user == ctx.user_id) ≡ false) where
    updated_others :
        (states : List ParticipantState)
        → find (state_of j user) (update_where (state_of k ctx.user_id) f states)
          ≡ find (state_of j user) states
    updated_others [] = refl
    updated_others (t ∷ ts) = elim (Bool-cases (state_of k ctx.user_id t)) [
      | inl mine ↦ ground (arith, mine, keeps j user t, updated_others ts)
      | inr theirs ↦ ground (arith, theirs, updated_others ts)
    ]

    appended_others :
        (states : List ParticipantState)
        → find (state_of j user) (states ++ f (new_state ctx k) ∷ [])
          ≡ find (state_of j user) states
    appended_others [] = ground (arith, keeps j user (new_state ctx k))
    appended_others (t ∷ ts) = ground (arith, appended_others ts)

    -- An upsert leaves the rows of everybody else.
    upserted_others :
        (states : List ParticipantState)
        → find (state_of j user) (upsert_state ctx k f states) ≡ find (state_of j user) states
    unfolding upsert_state
    upserted_others states = elim (Bool-cases (any (state_of k ctx.user_id) states)) [
      | inl has ↦ rw has (updated_others states)
      | inr lacks ↦ rw lacks (appended_others states)
    ]

clear_conversation_facts :
    (ctx : Context) (k : ℕ) (s s' : Messages)
    → clear_conversation ctx k s ≡ ok s'
    → s' ≡ record s { states = upsert_state ctx k (cleared_now ctx.now) s.states }
unfolding clear_conversation
clear_conversation_facts ctx k s s' e =
    elim (Option-cases (find (conversation_by_id ctx k) s.conversations)) [
      | inl missing ↦ ground arith
      | inr (c, there) ↦ ground arith
    ]

-- No message of the table is past the mark.
none_past :
    (p : Message → Bool) (mark : ℕ) (ms : List Message)
    → All (λ m. leb m.created_at mark ≡ true) ms
    → ((m : Message) → p m ≡ true → ltb mark m.created_at ≡ true)
    → any p ms ≡ false
none_past p mark [] h k = refl
none_past p mark (m ∷ ms) (a, h) k = ground (arith, k m, none_past p mark ms h k)

-- After a person clears a conversation, their thread of it is empty, and the thread that anybody else
-- reads at any time is what it was.
pub clear_conversation_hides :
    (ctx : Context) (k : ℕ) (s s' : Messages)
    → All (λ m. leb m.created_at ctx.now ≡ true) s.messages
    → clear_conversation ctx k s ≡ ok s'
    → ((limit : ℕ) → thread_messages ctx k limit s' ≡ [])
      × ((reader : Context) (j limit : ℕ)
          → (reader.user_id == ctx.user_id) ≡ false
          → thread_messages reader j limit s' ≡ thread_messages reader j limit s)
unfolding thread_messages
clear_conversation_hides ctx k s s' earlier e =
    let same = clear_conversation_facts ctx k s s' e in
    let (t, own) = upserted ctx k (cleared_now ctx.now) (λ j u x. refl) s.states in
    rw same (
      (λ limit.
          let empty : filter
                (in_view ctx k
                  (record s { states = upsert_state ctx k (cleared_now ctx.now) s.states }))
                s.messages
              ≡ [] =
            filter_none _ s.messages (
              none_past _ ctx.now s.messages earlier
                (λ m h. ground (arith, ap (λ o. or_epoch (cleared_until o)) own))) in
          ap (λ ms. map shown (take limit (sort_by thread_order ms))) empty
          ∙ ap (map shown) (take-nil limit)),
      (λ reader j limit h.
          ap (λ ms. map shown (take limit (sort_by thread_order ms)))
            (filter-cong _ _ s.messages (λ m.
              ap (λ o. stands reader j s m && ltb (or_epoch (cleared_until o)) m.created_at)
                (upserted_others ctx k (cleared_now ctx.now) (λ a u x. refl) reader.user_id j h
                  s.states)))),
    )

mark_read_facts :
    (ctx : Context) (k grace : ℕ) (s s' : Messages) (c : Conversation)
    → find (conversation_by_id ctx k) s.conversations ≡ some c
    → is_active c.status ≡ true
    → mark_read ctx k grace s ≡ ok s'
    → s' ≡ record s {
      states = upsert_state ctx k (read_now ctx.now) s.states;
      messages = stamp_viewed ctx k grace s;
    }
unfolding mark_read
mark_read_facts ctx k grace s s' c there live e = ground arith

stamped_past :
    (ctx : Context) (k grace : ℕ) (s : Messages)
    → All (λ m. leb m.created_at ctx.now ≡ true) s.messages
    → All (λ m. leb m.created_at ctx.now ≡ true) (stamp_viewed ctx k grace s)
unfolding stamp_viewed
stamped_past ctx k grace s earlier =
    elim (Bool-cases
      (any (λ d. conversation_by_id ctx k d && is_after_viewing d.ephemerality) s.conversations)) [
        | inr other ↦ rw other earlier
        | inl stamps ↦ rw stamps (
            All-update_where (λ m. leb m.created_at ctx.now ≡ true) (viewed_first ctx k)
              (stamped ctx.now grace) s.messages (λ m h a. a) earlier)
      ]

-- After a participant marks an open chat as read, no message that was there counts as unread for
-- them.
pub mark_read_clears :
    (ctx : Context) (k grace : ℕ) (s s' : Messages) (c : Conversation)
    → All (λ m. leb m.created_at ctx.now ≡ true) s.messages
    → find (conversation_by_id ctx k) s.conversations ≡ some c
    → is_active c.status ≡ true
    → mark_read ctx k grace s ≡ ok s'
    → unread_in ctx k s' ≡ 0
unfolding unread_in
mark_read_clears ctx k grace s s' c earlier there live e =
    let (t, own) = upserted ctx k (read_now ctx.now) (λ j u x. refl) s.states in
    rw (mark_read_facts ctx k grace s s' c there live e) (
      count_zero _ (stamp_viewed ctx k grace s) (
        none_past _ ctx.now (stamp_viewed ctx k grace s) (stamped_past ctx k grace s earlier)
          (λ m h. ground (arith, ap (λ o. past (read_until o)) own))))
