-- ===== src/Messages/History.antt =====
-- Histories of the messages: any order of the writes of packages/modules/messages/src, one
-- transaction at a time, by any members.
use campus_os.Common.{
  Text, ℕ, ◌≡◌, refl, Bool, false, List, ◌==◌, map, includes, any, find, update_where, arith,
  Option-cases, inl, inr,
}
use campus_os.Core.Result.{ok}
use campus_os.Tenancy.{Context, Membership, Profile}
use campus_os.Messages.{Ephemerality, Messages, MessagesSettings, conversation_by_id}
use campus_os.Messages.Sending.{
  SendInput, send_message, edit_message, delete_for_everyone, expire_messages,
}
use campus_os.Messages.Requests.{Started, start_conversation, accept_request, decline_request}
use campus_os.Messages.Thread.{kept_as, set_ephemerality, mark_read, clear_conversation, set_typing}
use campus_os.Messages.Asking.{CarriesAll, start_conversation-CarriesAll}
use campus_os.Messages.Answering.{
  send_message-CarriesAll, accept_request-CarriesAll, decline_request-CarriesAll,
}
use campus_os.Messages.Lasting.{
  edit_message-CarriesAll, delete_for_everyone-CarriesAll, expire_messages-CarriesAll,
  set_ephemerality-CarriesAll, mark_read-CarriesAll,
}
use campus_os.Messages.LifeCycle.{Step, Follows, Follows-same, Follows-update_where}
use campus_os.Messages.Moves.{
  start_conversation-Follows, send_message-Follows, accept_request-Follows, decline_request-Follows,
}

-- One transaction that commits. The ids of new rows are fresh; members and profiles may change
-- between two transactions.
pub data Move (ctx : Context) : Messages → Messages → Type 0 where
  starts :
      (fresh note other : ℕ) (body : Text) (settings : MessagesSettings) (kept : Ephemerality)
      (r : Started) (s s' : Messages)
      → includes (map (λ c. c.id) s.conversations) fresh ≡ false
      → any (λ m. m.conversation_id == fresh) s.messages ≡ false
      → start_conversation ctx fresh note other body settings kept s ≡ ok (r, s')
      → Move ctx s s'
  sends :
      (fresh conversation : ℕ) (input : SendInput) (settings : MessagesSettings) (i : ℕ)
      (s s' : Messages)
      → send_message ctx fresh conversation input settings s ≡ ok (i, s')
      → Move ctx s s'
  accepts :
      (conversation : ℕ) (s s' : Messages)
      → accept_request ctx conversation s ≡ ok s'
      → Move ctx s s'
  declines :
      (conversation : ℕ) (s s' : Messages)
      → decline_request ctx conversation s ≡ ok s'
      → Move ctx s s'
  edits :
      (message : ℕ) (body : Text) (settings : MessagesSettings) (s s' : Messages)
      → edit_message ctx message body settings s ≡ ok s'
      → Move ctx s s'
  deletes :
      (message : ℕ) (settings : MessagesSettings) (s s' : Messages)
      → delete_for_everyone ctx message settings s ≡ ok s'
      → Move ctx s s'
  reads :
      (conversation grace : ℕ) (s s' : Messages)
      → mark_read ctx conversation grace s ≡ ok s'
      → Move ctx s s'
  keeps :
      (conversation : ℕ) (value : Ephemerality) (s s' : Messages)
      → set_ephemerality ctx conversation value s ≡ ok s'
      → Move ctx s s'
  clears :
      (conversation : ℕ) (s s' : Messages)
      → clear_conversation ctx conversation s ≡ ok s'
      → Move ctx s s'
  types :
      (conversation : ℕ) (on : Bool) (s s' : Messages)
      → set_typing ctx conversation on s ≡ ok s'
      → Move ctx s s'
  sweeps : (tenant : ℕ) (s : Messages) → Move ctx s (expire_messages tenant ctx.now s).1
  regroups :
      (s : Messages) (members : List Membership) (profiles : List Profile)
      → Move ctx s (record s { members = members; profiles = profiles })

pub data Reach : Messages → Messages → Type 0 where
  start : (s : Messages) → Reach s s
  then_move : (ctx : Context) (s t u : Messages) → Reach s t → Move ctx t u → Reach s u

-- What only states are written by leaves the conversations and messages.
module _ (ctx : Context) (conversation : ℕ) (s s' : Messages) where
  clear_conversation_same :
      clear_conversation ctx conversation s ≡ ok s'
      → (s.conversations ≡ s'.conversations) × (s.messages ≡ s'.messages)
  unfolding clear_conversation
  clear_conversation_same e =
      elim (Option-cases (find (conversation_by_id ctx conversation) s.conversations)) [
        | inl missing ↦ ground arith
        | inr (c, there) ↦ ground arith
      ]

  set_typing_same :
      (on : Bool)
      → set_typing ctx conversation on s ≡ ok s'
      → (s.conversations ≡ s'.conversations) × (s.messages ≡ s'.messages)
  unfolding set_typing
  set_typing_same on e =
      elim (Option-cases (find (conversation_by_id ctx conversation) s.conversations)) [
        | inl missing ↦ ground arith
        | inr (c, there) ↦ ground arith
      ]

  mark_read_same :
      (grace : ℕ) → mark_read ctx conversation grace s ≡ ok s' → s.conversations ≡ s'.conversations
  unfolding mark_read
  mark_read_same grace e =
      elim (Option-cases (find (conversation_by_id ctx conversation) s.conversations)) [
        | inl missing ↦ ground arith
        | inr (c, there) ↦ ground arith
      ]

  set_ephemerality-Follows :
      (value : Ephemerality)
      → set_ephemerality ctx conversation value s ≡ ok s'
      → Follows ctx s.conversations s'.conversations
  unfolding set_ephemerality
  set_ephemerality-Follows value e =
      let same : update_where (conversation_by_id ctx conversation) (kept_as value) s.conversations
          ≡ s'.conversations =
        ground arith in
      rw (← same) (
        Follows-update_where ctx (conversation_by_id ctx conversation) (kept_as value)
          s.conversations (λ d. refl) (λ d i h. Step.stays refl refl))

Move-CarriesAll : (ctx : Context) (s s' : Messages) → CarriesAll s → Move ctx s s' → CarriesAll s'
Move-CarriesAll ctx _ _ v (Move.starts fresh note other body settings kept r s s' new quiet e) =
    start_conversation-CarriesAll ctx fresh note other body settings kept r s s' v new quiet e
Move-CarriesAll ctx _ _ v (Move.sends fresh conversation input settings i s s' e) =
    send_message-CarriesAll ctx fresh conversation input settings i s s' v e
Move-CarriesAll ctx _ _ v (Move.accepts conversation s s' e) =
    accept_request-CarriesAll ctx conversation s s' v e
Move-CarriesAll ctx _ _ v (Move.declines conversation s s' e) =
    decline_request-CarriesAll ctx conversation s s' v e
Move-CarriesAll ctx _ _ v (Move.edits message body settings s s' e) =
    edit_message-CarriesAll ctx message body settings s s' v e
Move-CarriesAll ctx _ _ v (Move.deletes message settings s s' e) =
    delete_for_everyone-CarriesAll ctx message settings s s' v e
Move-CarriesAll ctx _ _ v (Move.reads conversation grace s s' e) =
    mark_read-CarriesAll ctx conversation grace s s' v e
Move-CarriesAll ctx _ _ v (Move.keeps conversation value s s' e) =
    set_ephemerality-CarriesAll ctx conversation value s s' v e
Move-CarriesAll ctx _ _ v (Move.clears conversation s s' e) =
    let (a, b) = clear_conversation_same ctx conversation s s' e in rw (← a, ← b) v
Move-CarriesAll ctx _ _ v (Move.types conversation on s s' e) =
    let (a, b) = set_typing_same ctx conversation s s' on e in rw (← a, ← b) v
Move-CarriesAll ctx _ _ v (Move.sweeps tenant s) = expire_messages-CarriesAll tenant ctx.now s v
Move-CarriesAll ctx _ _ v (Move.regroups s members profiles) = v

edit_message_same :
    (ctx : Context) (message : ℕ) (body : Text) (settings : MessagesSettings) (s s' : Messages)
    → edit_message ctx message body settings s ≡ ok s'
    → s.conversations ≡ s'.conversations
unfolding edit_message
edit_message_same ctx message body settings s s' e = ground arith

delete_for_everyone_same :
    (ctx : Context) (message : ℕ) (settings : MessagesSettings) (s s' : Messages)
    → delete_for_everyone ctx message settings s ≡ ok s'
    → s.conversations ≡ s'.conversations
unfolding delete_for_everyone
delete_for_everyone_same ctx message settings s s' e = ground arith

-- Whatever one transaction of a person writes, it moves every conversation along the life cycle of a
-- request or leaves its status, deletes none, and each conversation that it adds is a request of
-- that person.
pub Move-Follows :
    (ctx : Context) (s s' : Messages)
    → CarriesAll s
    → Move ctx s s'
    → Follows ctx s.conversations s'.conversations
unfolding expire_messages
Move-Follows ctx _ _ v (Move.starts fresh note other body settings kept r s s' new quiet e) =
    start_conversation-Follows ctx fresh note other body settings kept r s s' v e
Move-Follows ctx _ _ v (Move.sends fresh conversation input settings i s s' e) =
    send_message-Follows ctx fresh conversation input settings i s s' v e
Move-Follows ctx _ _ v (Move.accepts conversation s s' e) =
    accept_request-Follows ctx conversation s s' e
Move-Follows ctx _ _ v (Move.declines conversation s s' e) =
    decline_request-Follows ctx conversation s s' e
Move-Follows ctx _ _ v (Move.edits message body settings s s' e) =
    rw (← edit_message_same ctx message body settings s s' e) (Follows-same ctx s.conversations)
Move-Follows ctx _ _ v (Move.deletes message settings s s' e) =
    rw (← delete_for_everyone_same ctx message settings s s' e) (Follows-same ctx s.conversations)
Move-Follows ctx _ _ v (Move.reads conversation grace s s' e) =
    rw (← mark_read_same ctx conversation s s' grace e) (Follows-same ctx s.conversations)
Move-Follows ctx _ _ v (Move.keeps conversation value s s' e) =
    set_ephemerality-Follows ctx conversation s s' value e
Move-Follows ctx _ _ v (Move.clears conversation s s' e) =
    rw (← (clear_conversation_same ctx conversation s s' e).0) (Follows-same ctx s.conversations)
Move-Follows ctx _ _ v (Move.types conversation on s s' e) =
    rw (← (set_typing_same ctx conversation s s' on e).0) (Follows-same ctx s.conversations)
Move-Follows ctx _ _ v (Move.sweeps tenant s) = Follows-same ctx s.conversations
Move-Follows ctx _ _ v (Move.regroups s members profiles) = Follows-same ctx s.conversations

-- After any history of the messages from well-formed tables, the ids are distinct, every pair of members of
-- a tenant keeps at most one conversation, in order, every pending request has a message since it was
-- opened, and no message of a conversation that is not open expires.
pub Reach-CarriesAll : (s s' : Messages) → CarriesAll s → Reach s s' → CarriesAll s'
Reach-CarriesAll _ _ v (Reach.start s) = v
Reach-CarriesAll _ _ v (Reach.then_move ctx s t u r m) =
    Move-CarriesAll ctx t u (Reach-CarriesAll s t v r) m
