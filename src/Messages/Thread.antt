-- ===== src/Messages/Thread.antt =====
-- packages/modules/messages/src/service.ts: the thread of one conversation, and what its reader sets:
-- read marks, the typing mark, clearing and how messages expire.
use campus_os.Common.{
  Text, ℕ, ◌+◌, ◌*◌, Bool, true, false, not, ◌&&◌, ◌||◌, Option, none, some, List, [], ◌∷◌, ◌++◌,
  map, ltb, leb, ◌==◌, if◌then◌else◌, any, filter, find, count, update_where, take, sort_by,
}
use campus_os.Core.Result.{Result, ok, ◌>>=◌, ◌>>◌, require, found}
use campus_os.Tenancy.{Context, handle_of, seed_of, is_present}
use campus_os.Messages.{
  Ephemerality, is_after_viewing, ConversationStatus, pending, active, declined, is_active,
  Conversation, ParticipantState, Message, Messages, is_user, conversation_by_id, sees_message,
}
use campus_os.Messages.Sending.{SendRefusal, not_found, state_of, new_state, read_now, in_request}
use campus_os.Messages.Reading.{other_of, read_until, in_view}

pub record ThreadMessage : Type 0 where
  pub id : ℕ
  pub sender_id : ℕ
  pub body : Text
  pub reply_to_id : Option ℕ
  pub created_at : ℕ
  pub edited_at : Option ℕ
  pub deleted : Bool

pub record ThreadView : Type 0 where
  pub id : ℕ
  pub other_user_id : ℕ
  pub other_handle : Option Text
  pub other_avatar_seed : Option Text
  pub other_last_read_at : Option ℕ
  pub ephemerality : Ephemerality
  pub status : ConversationStatus
  pub is_requester : Bool
  pub can_send : Bool
  pub other_typing : Bool
  pub messages : List ThreadMessage

abbrev pub shown : Message → ThreadMessage
shown m = record {
  id = m.id;
  sender_id = m.sender_id;
  body = if is_present m.deleted_at then [] else m.body;
  reply_to_id = m.reply_to_id;
  created_at = m.created_at;
  edited_at = m.edited_at;
  deleted = is_present m.deleted_at;
}

-- `created_at asc, id asc`.
abbrev pub thread_order : Message → Message → Bool
thread_order m n =
    ltb m.created_at n.created_at || ((m.created_at == n.created_at) && leb m.id n.id)

-- Whether the acting user may send now.
abbrev pub may_send : Context → Conversation → Messages → Bool
may_send ctx c s = elim c.status [
  | active ↦ true
  | declined ↦ false
  | pending ↦
      if is_user c.requested_by ctx.user_id
      then count (λ m. in_request c m && sees_message ctx s.conversations m) s.messages == 0
      else true
]

-- `mark > now`, where a null compares with nothing.
abbrev pub is_ahead : ℕ → Option ℕ → Bool
is_ahead now none = false
is_ahead now (some mark) = ltb now mark

abbrev pub typing_mark : Option ParticipantState → Option ℕ
typing_mark none = none
typing_mark (some t) = t.typing_until

-- The messages of a thread, as many as the limit.
unfoldable pub thread_messages : Context → ℕ → ℕ → Messages → List ThreadMessage
thread_messages ctx conversation limit s =
    map shown (take limit (sort_by thread_order (filter (in_view ctx conversation s) s.messages)))

unfoldable pub thread : Context → ℕ → ℕ → Messages → Option ThreadView
unfolding thread_messages
thread ctx conversation limit s =
    elim (find (conversation_by_id ctx conversation) s.conversations) [
      | none ↦ none
      | some c ↦
          let other = other_of ctx c in
          let profile = find (λ p. p.user_id == other) s.profiles in
          let other_state = find (state_of conversation other) s.states in
          some (record {
            id = c.id;
            other_user_id = other;
            other_handle = handle_of profile;
            other_avatar_seed = seed_of profile;
            other_last_read_at = read_until other_state;
            ephemerality = c.ephemerality;
            status = c.status;
            is_requester = is_user c.requested_by ctx.user_id;
            can_send = may_send ctx c s;
            other_typing = is_active c.status && is_ahead ctx.now (typing_mark other_state);
            messages = thread_messages ctx conversation limit s;
          })
    ]

-- `insert … on conflict (conversation_id, participant_id) do update`.
unfoldable pub upsert_state :
    Context
    → ℕ
    → (ParticipantState → ParticipantState)
    → List ParticipantState
    → List ParticipantState
upsert_state ctx conversation change states =
    if any (state_of conversation ctx.user_id) states
    then update_where (state_of conversation ctx.user_id) change states
    else states ++ change (new_state ctx conversation) ∷ []

abbrev pub cleared_now : ℕ → ParticipantState → ParticipantState
cleared_now now t = record t { cleared_at = some now }

unfoldable pub clear_conversation : Context → ℕ → Messages → Result Messages SendRefusal
unfolding upsert_state
clear_conversation ctx conversation s = do
  conv ← found (find (conversation_by_id ctx conversation) s.conversations) not_found
  ok (record s { states = upsert_state ctx conversation (cleared_now ctx.now) s.states })

-- The definer auth_msg_stamp_viewed: what the caller received and has not viewed before expires after
-- the grace, if the conversation is kept that way.
abbrev pub viewed_first : Context → ℕ → Message → Bool
viewed_first ctx conversation m =
    (m.conversation_id == conversation)
    && ((m.tenant_id == ctx.tenant_id)
        && (not (m.sender_id == ctx.user_id)
            && (not (is_present m.first_viewed_at) && not (is_present m.deleted_at))))

abbrev pub stamped : ℕ → ℕ → Message → Message
stamped now grace_seconds m = record m {
  first_viewed_at = some now;
  expires_at = some (now + grace_seconds * 1000);
}

unfoldable pub stamp_viewed : Context → ℕ → ℕ → Messages → List Message
stamp_viewed ctx conversation grace_seconds s =
    if any (λ c. conversation_by_id ctx conversation c && is_after_viewing c.ephemerality)
      s.conversations
    then update_where (viewed_first ctx conversation) (stamped ctx.now grace_seconds) s.messages
    else s.messages

unfoldable pub mark_read : Context → ℕ → ℕ → Messages → Result Messages SendRefusal
unfolding upsert_state stamp_viewed
mark_read ctx conversation grace_seconds s = do
  conv ← found (find (conversation_by_id ctx conversation) s.conversations) not_found
  if is_active conv.status
      then ok (record s {
        states = upsert_state ctx conversation (read_now ctx.now) s.states;
        messages = stamp_viewed ctx conversation grace_seconds s;
      })
      else ok s

-- Seconds a typing heartbeat keeps the mark alive.
abbrev pub typing_ttl_seconds : ℕ
typing_ttl_seconds = 5

abbrev pub typing_now : ℕ → Bool → ParticipantState → ParticipantState
typing_now now on t = record t {
  typing_until = if on then some (now + typing_ttl_seconds * 1000) else none;
}

unfoldable pub set_typing : Context → ℕ → Bool → Messages → Result Messages SendRefusal
unfolding upsert_state
set_typing ctx conversation on s = do
  conv ← found (find (conversation_by_id ctx conversation) s.conversations) not_found
  if is_active conv.status
      then ok (record s { states = upsert_state ctx conversation (typing_now ctx.now on) s.states })
      else ok s

abbrev pub kept_as : Ephemerality → Conversation → Conversation
kept_as value c = record c { ephemerality = value }

unfoldable pub set_ephemerality :
    Context → ℕ → Ephemerality → Messages → Result Messages SendRefusal
set_ephemerality ctx conversation value s = do
  require (any (conversation_by_id ctx conversation) s.conversations) not_found
  ok (record s {
    conversations =
        update_where (conversation_by_id ctx conversation) (kept_as value) s.conversations;
  })
