-- ===== src/Messages/Deciding.antt =====
-- What the two people of a pending request may do: sendMessage and acceptRequest of
-- packages/modules/messages/src/service.ts in any state that the module reaches.
use campus_os.Common.{
  Text, ℕ, ◌≤◌, ◌≡◌, ◌≢◌, refl, sym, ap, ◌∙◌, Bool, true, false, ◌&&◌, some, List, [], ◌∷◌, In,
  count, ◌==◌, any, find, update_where, arith, Option-cases, inl, inr, any_mono, count_pos, find-In,
  find_holds, find-none, find-update_where, any-In, All_In,
}
use campus_os.Core.Result.{Result-cases, ok, err, is_ok}
use campus_os.Tenancy.{Context}
use campus_os.Messages.{
  Ephemerality, active, is_pending, Conversation, sees_conversation, Messages, MessagesSettings,
  is_user, is_other, conversation_by_id, sees_message,
}
use campus_os.Messages.Sending.{in_request, set_status, SendInput, send_message}
use campus_os.Messages.Requests.{
  pair_of, order_pair, start_conversation, continue_conversation, accept_request, inbound,
  has_message, RequestRefusal,
}
use campus_os.Messages.Carrying.{carries, Carried}
use campus_os.Messages.Asking.{CarriesAll, pending_of}
use campus_os.Messages.History.{Reach, Reach-CarriesAll}

-- Two rows that a test picks are one row, where it picks at most one.
count_one :
    (p : Conversation → Bool) (xs : List Conversation) (a b : Conversation)
    → count p xs ≤ 1
    → In a xs
    → In b xs
    → p a ≡ true
    → p b ≡ true
    → a ≡ b
count_one p [] a b h i j e f = elim i [ ]
count_one p (x ∷ xs) a b h (inl u) (inl w) e f = u ∙ sym w
count_one p (x ∷ xs) a b h (inl u) (inr j) e f =
    absurd (ground (arith, ap p u, count_pos p xs (any-In p xs b j f)))
count_one p (x ∷ xs) a b h (inr i) (inl w) e f =
    absurd (ground (arith, ap p w, count_pos p xs (any-In p xs a i e)))
count_one p (x ∷ xs) a b h (inr i) (inr j) e f = count_one p xs a b (ground arith) i j e f

module _ (ctx : Context) (conversation : ℕ) (s : Messages) (c : Conversation) (v : CarriesAll s)
    (there : find (conversation_by_id ctx conversation) s.conversations ≡ some c)
    (waits : is_pending c.status ≡ true) where
  -- The message of the request stands in the acting user's view.
  request_seen : any (λ m. in_request c m && sees_message ctx s.conversations m) s.messages ≡ true
  request_seen =
      let k =
        All_In (Carried s.messages) s.conversations c v.carried (find-In _ s.conversations there) in
      let seen = find_holds (conversation_by_id ctx conversation) s.conversations there in
      any_mono (carries c) (λ m. in_request c m && sees_message ctx s.conversations m) s.messages
        (λ m h. ground (
          arith,
          any-In (conversation_by_id ctx m.conversation_id) s.conversations c
              (find-In _ s.conversations there) (ground (arith, seen)),
          seen,
        ))
        (ground (arith, k))

  refuses_requester :
      (fresh : ℕ) (input : SendInput) (settings : MessagesSettings)
      → is_user c.requested_by ctx.user_id ≡ true
      → is_ok (send_message ctx fresh conversation input settings s) ≡ false
  unfolding send_message
  refuses_requester fresh input settings mine = ground (
    arith,
    pending_of c.status waits,
    count_pos (λ m. in_request c m && sees_message ctx s.conversations m) s.messages request_seen,
  )

  -- The conversation that the pair has already is this one, and a request of one's own refuses.
  refuses_restart :
      (fresh note other : ℕ) (body : Text) (settings : MessagesSettings) (kept : Ephemerality)
      → pair_of ctx.tenant_id (order_pair ctx.user_id other) c ≡ true
      → is_user c.requested_by ctx.user_id ≡ true
      → is_ok (start_conversation ctx fresh note other body settings kept s) ≡ false
  unfolding start_conversation continue_conversation
  refuses_restart fresh note other body settings kept pair mine =
      let mine_too = find_holds (conversation_by_id ctx conversation) s.conversations there in
      let met = λ (d : Conversation).
        pair_of ctx.tenant_id (order_pair ctx.user_id other) d && sees_conversation ctx d in
      elim (Option-cases (find met s.conversations)) [
        | inl none_meets ↦
            let absent = find-none met s.conversations none_meets in
            let here : any met s.conversations ≡ true =
              any-In met s.conversations c (find-In _ s.conversations there)
                (ground (arith, pair, mine_too)) in
            cc
        | inr (d, meets) ↦
            let row : d ≡ c =
              count_one (pair_of ctx.tenant_id (order_pair ctx.user_id other)) s.conversations d c
                (v.pairs ctx.tenant_id (order_pair ctx.user_id other))
                (find-In met s.conversations meets) (find-In _ s.conversations there)
                (ground (arith, find_holds met s.conversations meets)) pair in
            let found_row : find met s.conversations ≡ some c = meets ∙ ap some row in
            ground (arith, found_row, pending_of c.status waits, mine)
      ]

  has_message_lem : has_message ctx conversation s ≡ true
  has_message_lem =
      let seen = find_holds (conversation_by_id ctx conversation) s.conversations there in
      any_mono (λ m. in_request c m && sees_message ctx s.conversations m)
        (λ m. (m.conversation_id == conversation) && sees_message ctx s.conversations m) s.messages
        (λ m h. ground (arith, seen)) request_seen

  met_row :
      is_other c.requested_by ctx.user_id ≡ true
      → (inbound ctx conversation c && has_message ctx conversation s) ≡ true
  met_row theirs = ground (
    arith,
    find_holds (conversation_by_id ctx conversation) s.conversations there,
    has_message_lem,
  )

  -- A request that the acting user did not open is met by the accept.
  met_lem :
      is_other c.requested_by ctx.user_id ≡ true
      → any (λ d. inbound ctx conversation d && has_message ctx conversation s) s.conversations
        ≡ true
  met_lem theirs =
      any-In (λ d. inbound ctx conversation d && has_message ctx conversation s) s.conversations c
        (find-In _ s.conversations there) (met_row theirs)

-- However a history goes on from well-formed tables, the person who opened a request that is still
-- pending can send nothing more into it: neither a message into the conversation, nor another start
-- of a conversation with the other person of its pair.
pub pending_speaks_once :
    (ctx : Context) (fresh note conversation other : ℕ) (input : SendInput) (body : Text)
    (settings : MessagesSettings) (kept : Ephemerality) (s s' : Messages) (c : Conversation)
    → CarriesAll s
    → Reach s s'
    → find (conversation_by_id ctx conversation) s'.conversations ≡ some c
    → is_pending c.status ≡ true
    → is_user c.requested_by ctx.user_id ≡ true
    → pair_of ctx.tenant_id (order_pair ctx.user_id other) c ≡ true
    → (is_ok (send_message ctx fresh conversation input settings s') ≡ false)
      × (is_ok (start_conversation ctx fresh note other body settings kept s') ≡ false)
pending_speaks_once ctx fresh note conversation other input body settings kept s s' c v r there
      waits mine pair =
    let w = Reach-CarriesAll s s' v r in
    (
      refuses_requester ctx conversation s' c w there waits fresh input settings mine,
      refuses_restart ctx conversation s' c w there waits fresh note other body settings kept pair
          mine,
    )

accepted_rows :
    (ctx : Context) (conversation : ℕ) (s s' : Messages)
    → accept_request ctx conversation s ≡ ok s'
    → s'.conversations
      ≡ update_where
          (λ d. inbound ctx conversation d && has_message ctx conversation s)
          (set_status active ctx.now)
          s.conversations
unfolding accept_request
accepted_rows ctx conversation s s' e =
    elim (Option-cases
      (find (λ d. inbound ctx conversation d && has_message ctx conversation s) s.conversations)) [
        | inl none_meets ↦ ground arith
        | inr (c, there) ↦ ground arith
      ]

accepts_met :
    (ctx : Context) (conversation : ℕ) (s : Messages) (e : RequestRefusal)
    → any (λ d. inbound ctx conversation d && has_message ctx conversation s) s.conversations ≡ true
    → accept_request ctx conversation s ≢ err e
unfolding accept_request
accepts_met ctx conversation s e met r =
    elim (Option-cases
      (find (λ d. inbound ctx conversation d && has_message ctx conversation s) s.conversations)) [
        | inl none_meets ↦
            let absent =
              find-none (λ d. inbound ctx conversation d && has_message ctx conversation s)
                s.conversations none_meets in
            cc
        | inr (c, there) ↦ ground arith
      ]

-- However a history goes on from well-formed tables, a person can accept every pending request that
-- somebody else opened with them, and the conversation is then an open chat.
pub accept_request_opens :
    (ctx : Context) (conversation : ℕ) (s s' : Messages) (c : Conversation)
    → CarriesAll s
    → Reach s s'
    → find (conversation_by_id ctx conversation) s'.conversations ≡ some c
    → is_pending c.status ≡ true
    → is_other c.requested_by ctx.user_id ≡ true
    → (t : Messages) × (accept_request ctx conversation s' ≡ ok t)
      × (find (conversation_by_id ctx conversation) t.conversations
          ≡ some (set_status active ctx.now c))
accept_request_opens ctx conversation s s' c v r there waits theirs =
    let w = Reach-CarriesAll s s' v r in
    let met = met_lem ctx conversation s' c w there waits theirs in
    elim (Result-cases (accept_request ctx conversation s')) [
      | inl (e, refused) ↦ absurd (accepts_met ctx conversation s' e met refused)
      | inr (t, done) ↦ (
        t,
        done,
        let meets =
              λ (d : Conversation). inbound ctx conversation d && has_message ctx conversation s' in
            let kept =
              find-update_where (conversation_by_id ctx conversation) meets
                (set_status active ctx.now) s'.conversations c (λ d. refl) there in
            rw (accepted_rows ctx conversation s' t done)
              (rw (met_row ctx conversation s' c w there waits theirs) at kept),
      )
    ]
