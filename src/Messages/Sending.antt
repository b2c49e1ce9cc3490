-- ===== src/Messages/Sending.antt =====
-- packages/modules/messages/src/service.ts and input.ts: a message into a conversation, its edit and
-- its deletion; src/expiry.ts with the definer of drizzle/0002_messages_ephemerality.sql.
use campus_os.Common.{
  Text, trim, ℕ, ◌+◌, ◌*◌, Bool, false, not, ◌&&◌, Option, none, some, List, [], ◌∷◌, ◌++◌, ltb,
  leb, ◌==◌, if◌then◌else◌, any, filter, find, count, length, update_where,
}
use campus_os.Core.Result.{Result, ok, err, ◌>>=◌, ◌>>◌, require, found}
use campus_os.Tenancy.{Context, is_present, has_passed}
use campus_os.Messages.{
  Ephemerality, is_after_24h, ConversationStatus, pending, active, declined, is_active,
  Conversation, ParticipantState, Message, MessagesSettings, Messages, is_user, conversation_by_id,
  sees_message,
}

pub data SendRefusal : Type 0 where
  not_allowed not_verified recipient_unavailable self not_found invalid : SendRefusal
  rate_limited declined_recently too_late : SendRefusal

abbrev pub minute : ℕ
minute = 60000

abbrev pub day : ℕ
day = 86400000

-- The key of msg_participant_state.
abbrev pub state_of : ℕ → ℕ → ParticipantState → Bool
state_of conversation user t = (t.conversation_id == conversation) && (t.participant_id == user)

abbrev pub new_state : Context → ℕ → ParticipantState
new_state ctx conversation = record {
  tenant_id = ctx.tenant_id;
  conversation_id = conversation;
  participant_id = ctx.user_id;
  last_read_at = none;
  cleared_at = none;
  typing_until = none;
}

abbrev pub read_now : ℕ → ParticipantState → ParticipantState
read_now now t = record t { last_read_at = some now }

unfoldable pub ensure_own_state : Context → ℕ → List ParticipantState → List ParticipantState
ensure_own_state ctx conversation states =
    if any (state_of conversation ctx.user_id) states
    then states
    else states ++ read_now ctx.now (new_state ctx conversation) ∷ []

-- When a message sent now into the conversation expires.
abbrev pub expiry : ℕ → Ephemerality → Bool → Option ℕ
expiry now kept is_live = if is_live && is_after_24h kept then some (now + day) else none

abbrev pub new_message : Context → ℕ → ℕ → Text → Option ℕ → Option ℕ → Message
new_message ctx fresh conversation text reply_to expires = record {
  id = fresh;
  tenant_id = ctx.tenant_id;
  conversation_id = conversation;
  sender_id = ctx.user_id;
  body = text;
  reply_to_id = reply_to;
  edited_at = none;
  deleted_at = none;
  expires_at = expires;
  first_viewed_at = none;
  created_at = ctx.now;
}

abbrev pub touched : ℕ → Conversation → Conversation
touched now c = record c { last_message_at = some now }

abbrev pub insert_message : Context → ℕ → ℕ → Text → Ephemerality → Bool → Messages → Messages
insert_message ctx fresh conversation text kept is_live s = record s {
  conversations =
      update_where (conversation_by_id ctx conversation) (touched ctx.now) s.conversations;
  messages =
      s.messages ++ new_message ctx fresh conversation text none (expiry ctx.now kept is_live) ∷ [];
}

abbrev pub set_status : ConversationStatus → ℕ → Conversation → Conversation
set_status status now c = record c { status = status; status_changed_at = some now }

pub record SendInput : Type 0 where
  pub body : Text
  pub reply_to_id : Option ℕ

-- `at >= since`, where a null compares with nothing.
abbrev pub not_before : ℕ → Option ℕ → Bool
not_before at none = false
not_before at (some since) = leb since at

-- The messages since the request of a conversation opened.
abbrev pub in_request : Conversation → Message → Bool
in_request c m = (m.conversation_id == c.id) && not_before m.created_at c.status_changed_at

abbrev pub id_of_message : Option Message → Option ℕ
id_of_message none = none
id_of_message (some m) = some m.id

-- The message replied to, if it stands in the conversation.
abbrev pub reply_in : Context → ℕ → Option ℕ → Messages → Option ℕ
reply_in ctx conversation none s = none
reply_in ctx conversation (some reply) s = id_of_message (
    find
      (λ m.
        (m.id == reply)
        && ((m.conversation_id == conversation) && sees_message ctx s.conversations m))
      s.messages)

-- The request rules: the state to go on with, or the refusal.
abbrev pub admit : Context → Conversation → Messages → Result Messages SendRefusal
admit ctx c s = elim c.status [
  | declined ↦ err not_allowed
  | active ↦ ok s
  | pending ↦
      if is_user c.requested_by ctx.user_id
      then require
          (not
            (leb 1 (count (λ m. in_request c m && sees_message ctx s.conversations m) s.messages)))
          not_allowed
        >> ok s
      else ok (record s {
        conversations =
            update_where (conversation_by_id ctx c.id) (set_status active ctx.now) s.conversations;
      })
]

-- The status that the message is sent under.
abbrev pub status_sent : Context → Conversation → ConversationStatus
status_sent ctx c = elim c.status [
  | declined ↦ declined
  | active ↦ active
  | pending ↦ if is_user c.requested_by ctx.user_id then pending else active
]

unfoldable pub send_message :
    Context → ℕ → ℕ → SendInput → MessagesSettings → Messages → Result (ℕ × Messages) SendRefusal
send_message ctx fresh conversation input settings s = do
  require (leb 1 (length (trim input.body))) invalid
  require (not (ltb settings.max_body_length (length (trim input.body)))) invalid
  conv ← found (find (conversation_by_id ctx conversation) s.conversations) not_found
  t ← admit ctx conv s
  ok (
    fresh,
    record t {
      conversations =
          update_where (conversation_by_id ctx conversation) (touched ctx.now) t.conversations;
      messages =
          t.messages
          ++ new_message ctx fresh conversation (trim input.body)
              (reply_in ctx conversation input.reply_to_id t)
              (expiry ctx.now conv.ephemerality (is_active (status_sent ctx conv)))
            ∷ [];
    },
  )

-- One's own message that stands, sent within the window.
abbrev pub own_recent : Context → List Conversation → ℕ → ℕ → Message → Bool
own_recent ctx cs message window m =
    (m.id == message)
    && ((m.sender_id == ctx.user_id)
        && (not (is_present m.deleted_at)
            && (ltb ctx.now (m.created_at + window * minute) && sees_message ctx cs m)))

abbrev pub edited : Text → ℕ → Message → Message
edited text now m = record m { body = text; edited_at = some now }

unfoldable pub edit_message :
    Context → ℕ → Text → MessagesSettings → Messages → Result Messages SendRefusal
edit_message ctx message body settings s = do
  require (leb 1 (length (trim body))) invalid
  require (not (ltb settings.max_body_length (length (trim body)))) invalid
  let mine = own_recent ctx s.conversations message settings.edit_window_minutes
  require (any mine s.messages) too_late
  ok (record s { messages = update_where mine (edited (trim body) ctx.now) s.messages })

abbrev pub tombstone : ℕ → Message → Message
tombstone now m = record m { deleted_at = some now; body = [] }

unfoldable pub delete_for_everyone :
    Context → ℕ → MessagesSettings → Messages → Result Messages SendRefusal
delete_for_everyone ctx message settings s = do
  let mine = own_recent ctx s.conversations message settings.delete_everyone_window_minutes
  require (any mine s.messages) too_late
  ok (record s { messages = update_where mine (tombstone ctx.now) s.messages })

-- The rows that the sweep removes.
abbrev pub expired : ℕ → ℕ → Message → Bool
expired tenant now m = (m.tenant_id == tenant) && has_passed now m.expires_at

-- The sweep of one tenant: how many rows went, and what is left.
unfoldable pub expire_messages : ℕ → ℕ → Messages → ℕ × Messages
expire_messages tenant now s = (
  count (expired tenant now) s.messages,
  record s { messages = filter (λ m. not (expired tenant now m)) s.messages },
)
