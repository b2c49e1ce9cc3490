-- ===== src/Messages/Requests.antt =====
-- packages/modules/messages/src/service.ts and access.ts: opening a conversation as a request, and
-- its decision by the recipient.
use campus_os.Common.{
  Text, trim, ℕ, ◌+◌, ◌*◌, Bool, true, false, not, ◌&&◌, Option, none, some, List, [], ◌∷◌, ◌++◌,
  ltb, leb, ◌==◌, if◌then◌else◌, any, find, count, length, update_where,
}
use campus_os.Core.Result.{Result, ok, err, ◌>>◌, require}
use campus_os.Tenancy.{
  Context, Membership, is_verified_member, NotifyArgs, message_request, message_accepted,
  notify_in_tx,
}
use campus_os.Messages.{
  Ephemerality, pending, active, declined, is_pending, Conversation, MessagesSettings, Messages,
  is_nobody, is_verified_only, is_user, is_other, sees_conversation, conversation_by_id,
  sees_message,
}
use campus_os.Messages.Sending.{
  SendRefusal, not_allowed, not_verified, recipient_unavailable, self, invalid, rate_limited,
  declined_recently, day, ensure_own_state, insert_message, set_status,
}

unfoldable pub is_member : List Membership → ℕ → ℕ → Bool
is_member members user tenant = any (λ m. (m.user_id == user) && (m.tenant_id == tenant)) members

unfoldable pub order_pair : ℕ → ℕ → ℕ × ℕ
order_pair x y = if ltb x y then (x, y) else (y, x)

-- `at > now - span`, where a null compares with nothing.
abbrev pub within : ℕ → ℕ → Option ℕ → Bool
within now span none = false
within now span (some at) = ltb now (at + span)

unfoldable pub recent_initiations : Context → List Conversation → ℕ
recent_initiations ctx cs =
    count
      (λ c.
        sees_conversation ctx c
        && (is_user c.requested_by ctx.user_id && within ctx.now day c.status_changed_at))
      cs

-- The key of the unique index of pairs.
abbrev pub pair_of : ℕ → ℕ × ℕ → Conversation → Bool
pair_of tenant pair c =
    (c.tenant_id == tenant) && ((c.participant_a == pair.0) && (c.participant_b == pair.1))

pub record Started : Type 0 where
  pub id : ℕ
  pub created : Bool

abbrev pub request_note : Context → ℕ → NotifyArgs
request_note ctx other = record {
  user_id = other;
  kind = message_request;
  payload = [];
  link = 0;
  actor_id = ctx.user_id;
}

-- A message into a chat that is open.
abbrev pub write_into : Context → ℕ → Text → Conversation → Messages → Messages
write_into ctx fresh text c s =
    insert_message ctx fresh c.id text c.ephemerality true
      (record s { states = ensure_own_state ctx c.id s.states })

-- A request with its first message, in a row that stands already.
abbrev pub ask : Context → ℕ → ℕ → ℕ → Text → Ephemerality → Messages → Messages
ask ctx fresh conversation other text kept s =
    let t =
      insert_message ctx fresh conversation text kept false
        (record s { states = ensure_own_state ctx conversation s.states }) in
    record t { inbox = notify_in_tx (request_note ctx other) t.inbox }

abbrev pub reopened : Context → Ephemerality → Conversation → Conversation
reopened ctx kept c = record c {
  status = pending;
  requested_by = some ctx.user_id;
  status_changed_at = some ctx.now;
  ephemerality = kept;
}

abbrev pub new_conversation : Context → ℕ → ℕ × ℕ → Ephemerality → Conversation
new_conversation ctx fresh pair kept = record {
  id = fresh;
  tenant_id = ctx.tenant_id;
  participant_a = pair.0;
  participant_b = pair.1;
  ephemerality = kept;
  status = pending;
  requested_by = some ctx.user_id;
  status_changed_at = some ctx.now;
  last_message_at = none;
  created_at = ctx.now;
}

-- How long a declined request bars its requester.
abbrev pub rerequest_block_days : ℕ
rerequest_block_days = 30

-- The pair has a conversation already.
unfoldable pub continue_conversation :
    Context
    → ℕ
    → ℕ
    → Text
    → MessagesSettings
    → Ephemerality
    → Conversation
    → Messages
    → Result (Started × Messages) SendRefusal
unfolding recent_initiations
continue_conversation ctx fresh other text settings kept c s = elim c.status [
  | active ↦ ok (record { id = c.id; created = false }, write_into ctx fresh text c s)
  | pending ↦ do
    require (not (is_user c.requested_by ctx.user_id)) not_allowed
    ok (
      record { id = c.id; created = false },
      write_into ctx fresh text c (record s {
        conversations =
            update_where (conversation_by_id ctx c.id) (set_status active ctx.now) s.conversations;
      }),
    )
  | declined ↦ do
    require
        (not (
          is_user c.requested_by ctx.user_id
          && within ctx.now (rerequest_block_days * day) c.status_changed_at))
        declined_recently
    require (not (leb settings.new_conversations_per_day (recent_initiations ctx s.conversations)))
        rate_limited
    ok (
      record { id = c.id; created = false },
      ask ctx fresh c.id other text kept (record s {
        conversations =
            update_where (conversation_by_id ctx c.id) (reopened ctx kept) s.conversations;
      }),
    )
]

-- The pair has none: a request under the fresh id, unless a row of the pair stands in the way.
unfoldable pub open_conversation :
    Context
    → ℕ
    → ℕ
    → ℕ
    → Text
    → MessagesSettings
    → Ephemerality
    → Messages
    → Result (Started × Messages) SendRefusal
unfolding recent_initiations order_pair
open_conversation ctx fresh note other text settings kept s = do
  require (not (leb settings.new_conversations_per_day (recent_initiations ctx s.conversations)))
      rate_limited
  let pair = order_pair ctx.user_id other
  require (not (any (pair_of ctx.tenant_id pair) s.conversations)) not_allowed
  ok (
    record { id = fresh; created = true },
    ask ctx note fresh other text kept
        (record s { conversations = s.conversations ++ new_conversation ctx fresh pair kept ∷ [] }),
  )

unfoldable pub start_conversation :
    Context
    → ℕ
    → ℕ
    → ℕ
    → Text
    → MessagesSettings
    → Ephemerality
    → Messages
    → Result (Started × Messages) SendRefusal
unfolding is_member order_pair
start_conversation ctx fresh note other body settings kept s = do
  require (not (other == ctx.user_id)) self
  require (not (is_nobody settings.who_can_message)) not_allowed
  require (leb 1 (length (trim body)) && not (ltb settings.max_body_length (length (trim body))))
      invalid
  require (is_verified_member s.members ctx.now ctx.user_id ctx.tenant_id) not_verified
  require (is_member s.members other ctx.tenant_id) SendRefusal.not_found
  require
      (not (
        is_verified_only settings.who_can_message
        && not (is_verified_member s.members ctx.now other ctx.tenant_id)))
      recipient_unavailable
  elim (find
      (λ c. pair_of ctx.tenant_id (order_pair ctx.user_id other) c && sees_conversation ctx c)
      s.conversations) [
        | some c ↦ continue_conversation ctx note other (trim body) settings kept c s
        | none ↦ open_conversation ctx fresh note other (trim body) settings kept s
      ]

pub data RequestRefusal : Type 0 where
  not_found not_pending not_recipient : RequestRefusal

unfoldable pub request_refusal : Context → ℕ → Messages → RequestRefusal
request_refusal ctx conversation s =
    elim (find (conversation_by_id ctx conversation) s.conversations) [
      | none ↦ RequestRefusal.not_found
      | some c ↦ if is_pending c.status then not_recipient else not_pending
    ]

-- A pending request that somebody else opened.
abbrev pub inbound : Context → ℕ → Conversation → Bool
inbound ctx conversation c =
    (c.id == conversation)
    && (is_pending c.status && (is_other c.requested_by ctx.user_id && sees_conversation ctx c))

-- Whether the conversation has a message at all.
abbrev pub has_message : Context → ℕ → Messages → Bool
has_message ctx conversation s =
    any (λ m. (m.conversation_id == conversation) && sees_message ctx s.conversations m) s.messages

abbrev pub accepted_note : Context → Option ℕ → List NotifyArgs → List NotifyArgs
accepted_note ctx none inbox = inbox
accepted_note ctx (some requester) inbox =
    notify_in_tx
      (record {
        user_id = requester;
        kind = message_accepted;
        payload = [];
        link = 0;
        actor_id = ctx.user_id;
      })
      inbox

unfoldable pub accept_request : Context → ℕ → Messages → Result Messages RequestRefusal
unfolding request_refusal
accept_request ctx conversation s =
    let meets =
      λ (c : Conversation). inbound ctx conversation c && has_message ctx conversation s in
    elim (find meets s.conversations) [
      | none ↦ err (request_refusal ctx conversation s)
      | some c ↦ ok (record s {
        conversations = update_where meets (set_status active ctx.now) s.conversations;
        inbox = accepted_note ctx c.requested_by s.inbox;
      })
    ]

unfoldable pub decline_request : Context → ℕ → Messages → Result Messages RequestRefusal
unfolding request_refusal
decline_request ctx conversation s =
    if any (inbound ctx conversation) s.conversations
    then ok (record s {
      conversations =
          update_where (inbound ctx conversation) (set_status declined ctx.now) s.conversations;
    })
    else err (request_refusal ctx conversation s)
