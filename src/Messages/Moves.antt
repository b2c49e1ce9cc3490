-- ===== src/Messages/Moves.antt =====
-- The writes of packages/modules/messages/src as transactions, and the life cycle of a request that
-- they implement.
use campus_os.Common.{
  Text, trim, ℕ, ◌≡◌, refl, Bool, false, ◌&&◌, some, [], ◌∷◌, ◌++◌, find, update_where, arith,
  Bool-cases, Option-cases, inl, inr,
}
use campus_os.Core.Result.{ok}
use campus_os.Tenancy.{Context}
use campus_os.Messages.{
  Ephemerality, active, declined, Conversation, Messages, MessagesSettings, is_user,
  conversation_by_id, sees_conversation,
}
use campus_os.Messages.Sending.{set_status, touched, SendInput, send_message}
use campus_os.Messages.Requests.{
  pair_of, order_pair, reopened, new_conversation, Started, continue_conversation,
  open_conversation, start_conversation, accept_request, decline_request, inbound, has_message,
}
use campus_os.Messages.Asking.{CarriesAll, status-cases, pending_of, is_user_of-is_other}
use campus_os.Messages.LifeCycle.{
  Step, Follows, Follows-same, Follows-touched, Follows-update_where, Follows-snoc, Follows-one_row,
}

module _ (ctx : Context) (note other : ℕ) (text : Text) (settings : MessagesSettings)
    (kept : Ephemerality) (r : Started) (s s' : Messages) (v : CarriesAll s) where
  continue_conversation-Follows :
      (c : Conversation) (p : Conversation → Bool)
      → find p s.conversations ≡ some c
      → continue_conversation ctx note other text settings kept c s ≡ ok (r, s')
      → Follows ctx s.conversations s'.conversations
  unfolding continue_conversation
  continue_conversation-Follows c p there e =
      let by = conversation_by_id ctx c.id in
      elim (status-cases c.status) [
        | inl st ↦
            let same : update_where by (touched ctx.now) s.conversations ≡ s'.conversations =
              ground arith in
            rw (← same) (
              Follows-touched ctx by ctx.now s.conversations s.conversations
                (Follows-same ctx s.conversations))
        | inr (inl st) ↦
            let rows = update_where by (set_status active ctx.now) s.conversations in
            let same : update_where by (touched ctx.now) rows ≡ s'.conversations = ground arith in
            let theirs : is_user c.requested_by ctx.user_id ≡ false = ground arith in
            rw (← same) (
              Follows-touched ctx by ctx.now s.conversations rows (
                Follows-one_row ctx s v c p there by (set_status active ctx.now)
                  (λ d h. ground arith) (λ d. refl) (Step.opens st theirs refl refl)))
        | inr (inr st) ↦
            let rows = update_where by (reopened ctx kept) s.conversations in
            let same : update_where by (touched ctx.now) rows ≡ s'.conversations = ground arith in
            rw (← same) (
              Follows-touched ctx by ctx.now s.conversations rows (
                Follows-one_row ctx s v c p there by (reopened ctx kept) (λ d h. ground arith)
                  (λ d. refl) (Step.asks_again st (ground arith) refl refl)))
      ]

  open_conversation-Follows :
      (fresh : ℕ)
      → open_conversation ctx fresh note other text settings kept s ≡ ok (r, s')
      → Follows ctx s.conversations s'.conversations
  unfolding open_conversation
  open_conversation-Follows fresh e =
      let asked = new_conversation ctx fresh (order_pair ctx.user_id other) kept in
      let rows = s.conversations ++ asked ∷ [] in
      let same : update_where (conversation_by_id ctx fresh) (touched ctx.now) rows
          ≡ s'.conversations =
        ground arith in
      rw (← same) (
        Follows-touched ctx (conversation_by_id ctx fresh) ctx.now s.conversations rows
          (Follows-snoc ctx s.conversations asked (refl, refl)))

pub start_conversation-Follows :
    (ctx : Context) (fresh note other : ℕ) (body : Text) (settings : MessagesSettings)
    (kept : Ephemerality) (r : Started) (s s' : Messages)
    → CarriesAll s
    → start_conversation ctx fresh note other body settings kept s ≡ ok (r, s')
    → Follows ctx s.conversations s'.conversations
unfolding start_conversation
start_conversation-Follows ctx fresh note other body settings kept r s s' v e =
    let here = λ (c : Conversation).
      pair_of ctx.tenant_id (order_pair ctx.user_id other) c && sees_conversation ctx c in
    elim (Option-cases (find here s.conversations)) [
      | inr (c, there) ↦
          continue_conversation-Follows ctx note other (trim body) settings kept r s s' v c here
            there (ground arith)
      | inl absent ↦
          open_conversation-Follows ctx note other (trim body) settings kept r s s' v fresh
            (ground arith)
    ]

pub send_message-Follows :
    (ctx : Context) (fresh conversation : ℕ) (input : SendInput) (settings : MessagesSettings)
    (i : ℕ) (s s' : Messages)
    → CarriesAll s
    → send_message ctx fresh conversation input settings s ≡ ok (i, s')
    → Follows ctx s.conversations s'.conversations
unfolding send_message
send_message-Follows ctx fresh conversation input settings i s s' v e =
    let by = conversation_by_id ctx conversation in
    let kept =
      Follows-touched ctx by ctx.now s.conversations s.conversations
        (Follows-same ctx s.conversations) in
    elim (Option-cases (find by s.conversations)) [
      | inl missing ↦ ground arith
      | inr (c, there) ↦ elim (status-cases c.status) [
        | inl st ↦
            let same : update_where by (touched ctx.now) s.conversations ≡ s'.conversations =
              ground arith in
            rw (← same) kept
        | inr (inr st) ↦ ground arith
        | inr (inl st) ↦ elim (Bool-cases (is_user c.requested_by ctx.user_id)) [
          | inl mine ↦
              let same : update_where by (touched ctx.now) s.conversations ≡ s'.conversations =
                ground arith in
              rw (← same) kept
          | inr theirs ↦
              let rows =
                update_where (conversation_by_id ctx c.id) (set_status active ctx.now)
                  s.conversations in
              let same : update_where by (touched ctx.now) rows ≡ s'.conversations = ground arith in
              rw (← same) (
                Follows-touched ctx by ctx.now s.conversations rows (
                  Follows-one_row ctx s v c by there (conversation_by_id ctx c.id)
                    (set_status active ctx.now) (λ d h. ground arith) (λ d. refl)
                    (Step.opens st theirs refl refl)))
        ]
      ]
    ]

pub accept_request-Follows :
    (ctx : Context) (conversation : ℕ) (s s' : Messages)
    → accept_request ctx conversation s ≡ ok s'
    → Follows ctx s.conversations s'.conversations
unfolding accept_request
accept_request-Follows ctx conversation s s' e =
    let meets =
      λ (c : Conversation). inbound ctx conversation c && has_message ctx conversation s in
    elim (Option-cases (find meets s.conversations)) [
      | inl none_meets ↦ ground arith
      | inr (c, there) ↦
          let same : update_where meets (set_status active ctx.now) s.conversations
              ≡ s'.conversations =
            ground arith in
          rw (← same) (
            Follows-update_where ctx meets (set_status active ctx.now) s.conversations (λ d. refl)
              (λ d i h.
                Step.opens (pending_of d.status (ground arith))
                  (is_user_of-is_other d.requested_by ctx.user_id (ground arith)) refl refl))
    ]

pub decline_request-Follows :
    (ctx : Context) (conversation : ℕ) (s s' : Messages)
    → decline_request ctx conversation s ≡ ok s'
    → Follows ctx s.conversations s'.conversations
unfolding decline_request
decline_request-Follows ctx conversation s s' e =
    let same : update_where (inbound ctx conversation) (set_status declined ctx.now) s.conversations
        ≡ s'.conversations =
      ground arith in
    rw (← same) (
      Follows-update_where ctx (inbound ctx conversation) (set_status declined ctx.now)
        s.conversations (λ d. refl)
        (λ d i h. Step.declines (pending_of d.status (ground arith)) (ground arith) refl refl))
