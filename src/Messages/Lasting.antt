-- ===== src/Messages/Lasting.antt =====
-- Edits, deletions, views and the expiry sweep of packages/modules/messages/src, and the invariant of
-- the requests.
use campus_os.Common.{
  Text, trim, ℕ, ◌≡◌, refl, sym, ap, subst, Bool, true, false, not, ◌&&◌, some, List, [], ◌∷◌, ◌==◌,
  any, find, filter, update_where, arith, Bool-cases, Option-cases, inl, inr, find_holds,
  any-update_where, any-update_same,
}
use campus_os.Core.Result.{ok}
use campus_os.Tenancy.{Context}
use campus_os.Messages.{
  Ephemerality, is_active, is_after_viewing, Conversation, Message, Messages, MessagesSettings,
  conversation_by_id,
}
use campus_os.Messages.Sending.{
  edited, tombstone, own_recent, edit_message, delete_for_everyone, expired, expire_messages,
}
use campus_os.Messages.Thread.{
  viewed_first, stamped, stamp_viewed, mark_read, kept_as, set_ephemerality,
}
use campus_os.Messages.Carrying.{
  expiring, carries, IsCarried, only_row, update-IsCarried, messages-IsCarried,
}
use campus_os.Messages.Asking.{CarriesAll, status-cases}

-- A change of messages that keeps where, when and until when they stand.
rewritten-IsCarried :
    (cs : List Conversation) (ms : List Message) (p : Message → Bool) (f : Message → Message)
    → ((m : Message)
        → f m ≡ record m {
          body = (f m).body;
          edited_at = (f m).edited_at;
          deleted_at = (f m).deleted_at;
        })
    → IsCarried cs ms
    → IsCarried cs (update_where p f ms)
rewritten-IsCarried cs ms p f same v = messages-IsCarried cs ms v (update_where p f ms) (λ c i k.
    rw
      (
        any-update_where (carries c) p f ms (λ m. ap (carries c) (same m)),
        any-update_where (expiring c.id) p f ms (λ m. ap (expiring c.id) (same m)),
      )
      k)

pub edit_message-CarriesAll :
    (ctx : Context) (message : ℕ) (body : Text) (settings : MessagesSettings) (s s' : Messages)
    → CarriesAll s
    → edit_message ctx message body settings s ≡ ok s'
    → CarriesAll s'
unfolding edit_message
edit_message-CarriesAll ctx message body settings s s' v e =
    let mine = own_recent ctx s.conversations message settings.edit_window_minutes in
    let t : Messages = record s {
      messages = update_where mine (edited (trim body) ctx.now) s.messages;
    } in
    let same : t ≡ s' = ground arith in
    subst CarriesAll same (
      rewritten-IsCarried s.conversations s.messages mine (edited (trim body) ctx.now) (λ m. refl)
        v)

pub delete_for_everyone-CarriesAll :
    (ctx : Context) (message : ℕ) (settings : MessagesSettings) (s s' : Messages)
    → CarriesAll s
    → delete_for_everyone ctx message settings s ≡ ok s'
    → CarriesAll s'
unfolding delete_for_everyone
delete_for_everyone-CarriesAll ctx message settings s s' v e =
    let mine = own_recent ctx s.conversations message settings.delete_everyone_window_minutes in
    let t : Messages = record s { messages = update_where mine (tombstone ctx.now) s.messages } in
    let same : t ≡ s' = ground arith in
    subst CarriesAll same
      (rewritten-IsCarried s.conversations s.messages mine (tombstone ctx.now) (λ m. refl) v)

module _ (tenant now : ℕ) where
  swept_carries :
      (c : Conversation) (ms : List Message)
      → any (expiring c.id) ms ≡ false
      → any (carries c) (filter (λ m. not (expired tenant now m)) ms) ≡ any (carries c) ms
  swept_carries c [] h = refl
  swept_carries c (m ∷ ms) h = ground (arith, swept_carries c ms)

  swept_quiet :
      (conversation : ℕ) (ms : List Message)
      → any (expiring conversation) ms ≡ false
      → any (expiring conversation) (filter (λ m. not (expired tenant now m)) ms) ≡ false
  swept_quiet conversation [] h = refl
  swept_quiet conversation (m ∷ ms) h = ground (arith, swept_quiet conversation ms)

  -- The sweep takes no message of a pending request.
  pub expire_messages-CarriesAll :
      (s : Messages) → CarriesAll s → CarriesAll (expire_messages tenant now s).1
  unfolding expire_messages
  expire_messages-CarriesAll s v =
      messages-IsCarried s.conversations s.messages v
        (filter (λ m. not (expired tenant now m)) s.messages)
        (λ c i k. elim (status-cases c.status) [
          | inl st ↦ ground arith
          | inr (inl st) ↦
              ground (arith, k, swept_carries c s.messages, swept_quiet c.id s.messages)
          | inr (inr st) ↦ ground (arith, k, swept_quiet c.id s.messages)
        ])

pub set_ephemerality-CarriesAll :
    (ctx : Context) (conversation : ℕ) (value : Ephemerality) (s s' : Messages)
    → CarriesAll s
    → set_ephemerality ctx conversation value s ≡ ok s'
    → CarriesAll s'
unfolding set_ephemerality
set_ephemerality-CarriesAll ctx conversation value s s' v e =
    let t : Messages = record s {
      conversations =
          update_where (conversation_by_id ctx conversation) (kept_as value) s.conversations;
    } in
    let same : t ≡ s' = ground arith in
    subst CarriesAll same (
      update-IsCarried s.conversations s.messages v (conversation_by_id ctx conversation)
        (kept_as value) (λ c. refl) (λ c i h k. k))

-- Views only set an expiry in an open chat.
stamped-IsCarried :
    (ctx : Context) (conversation grace : ℕ) (c : Conversation) (s : Messages)
    → CarriesAll s
    → find (conversation_by_id ctx conversation) s.conversations ≡ some c
    → is_active c.status ≡ true
    → IsCarried s.conversations (stamp_viewed ctx conversation grace s)
unfolding stamp_viewed
stamped-IsCarried ctx conversation grace c s v there live =
    elim (Bool-cases (
      any (λ d. conversation_by_id ctx conversation d && is_after_viewing d.ephemerality)
        s.conversations)) [
          | inr other ↦ rw other v
          | inl stamps ↦ rw stamps (
              messages-IsCarried s.conversations s.messages v
                (update_where (viewed_first ctx conversation) (stamped ctx.now grace) s.messages)
                (λ d i k.
                  let same_carries =
                    any-update_where (carries d) (viewed_first ctx conversation)
                      (stamped ctx.now grace) s.messages (λ m. refl) in
                  elim (Bool-cases (d.id == conversation)) [
                    | inl one ↦
                        let row : d ≡ c =
                          only_row s.conversations s.messages v
                            (conversation_by_id ctx conversation) c d there i
                            (ground (arith, find_holds _ s.conversations there)) in
                        ground (
                          arith,
                          k,
                          same_carries,
                          ap (λ (x : Conversation). is_active x.status) row,
                        )
                    | inr other ↦ ground (
                      arith,
                      k,
                      same_carries,
                      any-update_same (expiring d.id) (viewed_first ctx conversation)
                          (stamped ctx.now grace) s.messages (λ m h. ground arith),
                    )
                  ]))
        ]

pub mark_read-CarriesAll :
    (ctx : Context) (conversation grace : ℕ) (s s' : Messages)
    → CarriesAll s
    → mark_read ctx conversation grace s ≡ ok s'
    → CarriesAll s'
unfolding mark_read
mark_read-CarriesAll ctx conversation grace s s' v e =
    elim (Option-cases (find (conversation_by_id ctx conversation) s.conversations)) [
      | inl missing ↦ ground arith
      | inr (c, there) ↦ elim (Bool-cases (is_active c.status)) [
        | inr shut ↦ let same : s ≡ s' = ground arith in subst CarriesAll same v
        | inl live ↦
            let same : s' ≡ record s {
              states = s'.states;
              messages = stamp_viewed ctx conversation grace s;
            } =
              ground arith in
            subst CarriesAll (sym same) (stamped-IsCarried ctx conversation grace c s v there live)
      ]
    ]
