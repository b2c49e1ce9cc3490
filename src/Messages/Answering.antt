-- ===== src/Messages/Answering.antt =====
-- sendMessage, acceptRequest and declineRequest of packages/modules/messages/src/service.ts and the
-- invariant of the requests.
use campus_os.Common.{
  trim, ℕ, ◌≡◌, sym, subst, true, not, ◌&&◌, ◌||◌, [], ◌∷◌, ◌++◌, ◌==◌, find, update_where, All,
  arith, Bool-cases, Option-cases, inl, inr, find_holds, All_In, All-tabulate, All-map,
}
use campus_os.Core.Result.{ok}
use campus_os.Tenancy.{Context}
use campus_os.Messages.{
  active, declined, is_active, Conversation, Messages, MessagesSettings, is_user,
  conversation_by_id,
}
use campus_os.Messages.Sending.{
  new_message, set_status, touched, expiry, SendInput, send_message, reply_in, status_sent,
}
use campus_os.Messages.Requests.{
  accept_request, decline_request, inbound, has_message, accepted_note,
}
use campus_os.Messages.Carrying.{
  touched-IsCarried, opened-IsCarried, sent-IsCarried, opened_row, declined-IsCarried,
}
use campus_os.Messages.Asking.{CarriesAll, status-cases, active_rows}

module _ (ctx : Context) (fresh : ℕ) (conversation : ℕ) (input : SendInput)
    (settings : MessagesSettings) (i : ℕ) (s s' : Messages) (v : CarriesAll s) where
  sent_into :
      (c : Conversation) (t : Messages)
      → (c.id == conversation) ≡ true
      → CarriesAll t
      → All
          (λ d.
            (is_active d.status || not ((d.id == c.id) && is_active (status_sent ctx c))) ≡ true)
          t.conversations
      → s' ≡ record t {
        conversations =
            update_where (conversation_by_id ctx conversation) (touched ctx.now) t.conversations;
        messages =
            t.messages
            ++ new_message ctx fresh conversation
                (trim input.body)
                (reply_in ctx conversation input.reply_to_id t)
                (expiry ctx.now c.ephemerality (is_active (status_sent ctx c)))
              ∷ [];
      }
      → CarriesAll s'
  sent_into c t one w rows same =
      let m =
        new_message ctx fresh conversation (trim input.body)
          (reply_in ctx conversation input.reply_to_id t)
          (expiry ctx.now c.ephemerality (is_active (status_sent ctx c))) in
      subst CarriesAll (sym same) (
        touched-IsCarried t.conversations (t.messages ++ m ∷ [])
          (sent-IsCarried t.conversations t.messages w m (λ d i. ground (
            arith,
            All_In
                (λ d.
                  (is_active d.status || not ((d.id == c.id) && is_active (status_sent ctx c)))
                  ≡ true)
                t.conversations d rows i,
          )))
          (conversation_by_id ctx conversation) ctx.now)

  -- A message, also one that accepts a request, leaves every pending request its message.
  pub send_message-CarriesAll :
      send_message ctx fresh conversation input settings s ≡ ok (i, s') → CarriesAll s'
  unfolding send_message
  send_message-CarriesAll e =
      elim (Option-cases (find (conversation_by_id ctx conversation) s.conversations)) [
        | inl missing ↦ ground arith
        | inr (c, there) ↦ elim (status-cases c.status) [
          | inl st ↦
              sent_into c s (ground (arith, find_holds _ s.conversations there)) v
                (All-map (λ d. (is_active d.status || not (d.id == c.id)) ≡ true)
                  (λ d.
                    (is_active d.status || not ((d.id == c.id) && is_active (status_sent ctx c)))
                    ≡ true)
                  s.conversations (λ d h. ground arith)
                  (active_rows s c (conversation_by_id ctx conversation) v there st))
                (ground arith)
          | inr (inl st) ↦ elim (Bool-cases (is_user c.requested_by ctx.user_id)) [
            | inl mine ↦
                sent_into c s (ground (arith, find_holds _ s.conversations there)) v
                  (All-tabulate
                    (λ d.
                      (is_active d.status || not ((d.id == c.id) && is_active (status_sent ctx c)))
                      ≡ true)
                    s.conversations (λ d j. ground arith))
                  (ground arith)
            | inr theirs ↦
                let seen = find_holds (conversation_by_id ctx conversation) s.conversations there in
                sent_into c
                  (record s {
                    conversations =
                        update_where (conversation_by_id ctx c.id) (set_status active ctx.now)
                          s.conversations;
                  })
                  (ground (arith, seen))
                  (opened-IsCarried s.conversations s.messages v (conversation_by_id ctx c.id)
                    ctx.now)
                  (All-map (λ d. (is_active d.status || not (d.id == c.id)) ≡ true)
                    (λ d.
                      (is_active d.status || not ((d.id == c.id) && is_active (status_sent ctx c)))
                      ≡ true)
                    (update_where (conversation_by_id ctx c.id) (set_status active ctx.now)
                      s.conversations)
                    (λ d h. ground arith)
                    (opened_row s.conversations s.messages v ctx c ctx.now
                      (conversation_by_id ctx conversation) there (ground (arith, seen))))
                  (ground arith)
          ]
          | inr (inr st) ↦ ground arith
        ]
      ]

-- Accepting a request leaves every other pending request its message.
pub accept_request-CarriesAll :
    (ctx : Context) (conversation : ℕ) (s s' : Messages)
    → CarriesAll s
    → accept_request ctx conversation s ≡ ok s'
    → CarriesAll s'
unfolding accept_request
accept_request-CarriesAll ctx conversation s s' v e =
    let meets =
      λ (c : Conversation). inbound ctx conversation c && has_message ctx conversation s in
    elim (Option-cases (find meets s.conversations)) [
      | inl none_meets ↦ ground arith
      | inr (c, there) ↦
          let t : Messages = record s {
            conversations = update_where meets (set_status active ctx.now) s.conversations;
            inbox = accepted_note ctx c.requested_by s.inbox;
          } in
          let same : t ≡ s' = ground arith in
          subst CarriesAll same (opened-IsCarried s.conversations s.messages v meets ctx.now)
    ]

pub decline_request-CarriesAll :
    (ctx : Context) (conversation : ℕ) (s s' : Messages)
    → CarriesAll s
    → decline_request ctx conversation s ≡ ok s'
    → CarriesAll s'
unfolding decline_request
decline_request-CarriesAll ctx conversation s s' v e =
    let t : Messages = record s {
      conversations =
          update_where (inbound ctx conversation) (set_status declined ctx.now) s.conversations;
    } in
    let same : t ≡ s' = ground arith in
    subst CarriesAll same (declined-IsCarried s.conversations s.messages v ctx conversation ctx.now)
