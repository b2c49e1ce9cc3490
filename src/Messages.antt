-- ===== src/Messages.antt =====
-- packages/modules/messages: the tables (src/schema/messages.ts) with the row-level security of
-- drizzle/0000_messages.sql, and the settings of src/manifest.ts.
pub mod Sending
pub mod Requests
pub mod Reading
pub mod Thread
pub mod Carrying
pub mod Asking
pub mod Answering
pub mod Lasting
pub mod LifeCycle
pub mod Moves
pub mod History
pub mod Deciding
pub mod Views
pub mod Limits
pub mod Samples
pub mod ViewSamples
use campus_os.Common.{
  Text, ℕ, Bool, true, false, ◌&&◌, ◌||◌, Option, none, some, List, ◌==◌, if◌then◌else◌, any,
}
use campus_os.Tenancy.{Context, Membership, Profile, NotifyArgs}

pub data Ephemerality : Type 0 where
  never after_24h after_viewing : Ephemerality

abbrev pub is_after_24h : Ephemerality → Bool
is_after_24h after_24h = true
is_after_24h _ = false

abbrev pub is_after_viewing : Ephemerality → Bool
is_after_viewing after_viewing = true
is_after_viewing _ = false

pub data ConversationStatus : Type 0 where
  pending active declined : ConversationStatus

abbrev pub is_pending : ConversationStatus → Bool
is_pending pending = true
is_pending _ = false

abbrev pub is_active : ConversationStatus → Bool
is_active active = true
is_active _ = false

pub record Conversation : Type 0 where
  pub id : ℕ
  pub tenant_id : ℕ
  pub participant_a : ℕ
  pub participant_b : ℕ
  pub ephemerality : Ephemerality
  pub status : ConversationStatus
  pub requested_by : Option ℕ
  pub status_changed_at : Option ℕ
  pub last_message_at : Option ℕ
  pub created_at : ℕ

pub record ParticipantState : Type 0 where
  pub tenant_id : ℕ
  pub conversation_id : ℕ
  pub participant_id : ℕ
  pub last_read_at : Option ℕ
  pub cleared_at : Option ℕ
  pub typing_until : Option ℕ

pub record Message : Type 0 where
  pub id : ℕ
  pub tenant_id : ℕ
  pub conversation_id : ℕ
  pub sender_id : ℕ
  pub body : Text
  pub reply_to_id : Option ℕ
  pub edited_at : Option ℕ
  pub deleted_at : Option ℕ
  pub expires_at : Option ℕ
  pub first_viewed_at : Option ℕ
  pub created_at : ℕ

pub data WhoCanMessage : Type 0 where
  verified anyone nobody : WhoCanMessage

abbrev pub is_nobody : WhoCanMessage → Bool
is_nobody nobody = true
is_nobody _ = false

abbrev pub is_verified_only : WhoCanMessage → Bool
is_verified_only verified = true
is_verified_only _ = false

pub record MessagesSettings : Type 0 where
  pub who_can_message : WhoCanMessage
  pub edit_window_minutes : ℕ
  pub delete_everyone_window_minutes : ℕ
  pub max_body_length : ℕ
  pub new_conversations_per_day : ℕ

-- The tables that the module reads and writes.
pub record Messages : Type 0 where
  pub conversations : List Conversation
  pub states : List ParticipantState
  pub messages : List Message
  pub members : List Membership
  pub profiles : List Profile
  pub inbox : List NotifyArgs

-- A null equals nothing.
abbrev pub is_user : Option ℕ → ℕ → Bool
is_user none user = false
is_user (some u) user = u == user

-- Nor does it differ from anything.
abbrev pub is_other : Option ℕ → ℕ → Bool
is_other none user = false
is_other (some u) user = if u == user then false else true

-- The policy msg_conversations_access: the tenant's conversations that the acting user is in.
abbrev pub sees_conversation : Context → Conversation → Bool
sees_conversation ctx c =
    (c.tenant_id == ctx.tenant_id)
    && ((c.participant_a == ctx.user_id) || (c.participant_b == ctx.user_id))

abbrev pub conversation_by_id : Context → ℕ → Conversation → Bool
conversation_by_id ctx id c = (c.id == id) && sees_conversation ctx c

-- The policy msg_messages_read.
abbrev pub sees_message : Context → List Conversation → Message → Bool
sees_message ctx cs m =
    (m.tenant_id == ctx.tenant_id) && any (conversation_by_id ctx m.conversation_id) cs
