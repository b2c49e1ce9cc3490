-- ===== src/Messages/Reading.antt =====
-- packages/modules/messages/src/service.ts: the inbox, the requests and the thread as one participant
-- sees them, and that participant's read state.
use campus_os.Common.{
  Text, ℕ, ◌+◌, Bool, true, false, not, ◌&&◌, ◌||◌, Option, none, some, List, [], ◌∷◌, map, ltb,
  leb, ◌==◌, if◌then◌else◌, filter, find, count, sort_by,
}
use campus_os.Tenancy.{Context, handle_of, seed_of, is_present, has_passed}
use campus_os.Messages.{
  ConversationStatus, is_pending, is_active, Conversation, ParticipantState, Message, Messages,
  is_user, is_other, sees_conversation, conversation_by_id, sees_message,
}
use campus_os.Messages.Sending.{state_of, in_request}
use campus_os.Messages.Requests.{pair_of, order_pair}

-- The other participant of a conversation.
abbrev pub other_of : Context → Conversation → ℕ
other_of ctx c = if c.participant_a == ctx.user_id then c.participant_b else c.participant_a

unfoldable pub other_participant : Context → ℕ → Messages → Option ℕ
other_participant ctx conversation s =
    elim (find (conversation_by_id ctx conversation) s.conversations) [
      | none ↦ none
      | some c ↦ some (other_of ctx c)
    ]

pub record Between : Type 0 where
  pub id : ℕ
  pub status : ConversationStatus
  pub is_requester : Bool

unfoldable pub conversation_between : Context → ℕ → Messages → Option Between
unfolding order_pair
conversation_between ctx other s =
    if other == ctx.user_id
    then none
    else elim (find
        (λ c. pair_of ctx.tenant_id (order_pair ctx.user_id other) c && sees_conversation ctx c)
        s.conversations) [
          | none ↦ none
          | some c ↦ some (record {
            id = c.id;
            status = c.status;
            is_requester = is_user c.requested_by ctx.user_id;
          })
        ]

-- Until when the acting user has cleared, or has read, the conversation.
abbrev pub cleared_until : Option ParticipantState → Option ℕ
cleared_until none = none
cleared_until (some t) = t.cleared_at

abbrev pub read_until : Option ParticipantState → Option ℕ
read_until none = none
read_until (some t) = t.last_read_at

-- `mark is null or at > mark`.
abbrev pub past : Option ℕ → ℕ → Bool
past none at = true
past (some mark) at = ltb mark at

abbrev pub own_state : Context → ℕ → Messages → Option ParticipantState
own_state ctx conversation s = find (state_of conversation ctx.user_id) s.states

-- A message of the conversation that the acting user may read and that has not expired.
abbrev pub stands : Context → ℕ → Messages → Message → Bool
stands ctx conversation s m =
    (m.conversation_id == conversation)
    && (sees_message ctx s.conversations m && not (has_passed ctx.now m.expires_at))

-- `coalesce(mark, to_timestamp(0))`.
abbrev pub or_epoch : Option ℕ → ℕ
or_epoch none = 0
or_epoch (some mark) = mark

abbrev pub in_view : Context → ℕ → Messages → Message → Bool
in_view ctx conversation s m =
    stands ctx conversation s m
    && ltb (or_epoch (cleared_until (own_state ctx conversation s))) m.created_at

abbrev pub is_unread : Context → ℕ → Messages → Message → Bool
is_unread ctx conversation s m =
    stands ctx conversation s m
    && (not (m.sender_id == ctx.user_id)
        && (not (is_present m.deleted_at)
            && (past (cleared_until (own_state ctx conversation s)) m.created_at
                && past (read_until (own_state ctx conversation s)) m.created_at)))

unfoldable pub unread_in : Context → ℕ → Messages → ℕ
unread_in ctx conversation s = count (is_unread ctx conversation s) s.messages

abbrev pub first_of : List Message → Option Message
first_of [] = none
first_of (m ∷ ms) = some m

-- The text of a message that is not deleted.
abbrev pub preview_of : Option Message → Option Text
preview_of none = none
preview_of (some m) = if is_present m.deleted_at then none else some m.body

abbrev pub newest_first : Message → Message → Bool
newest_first m n = leb n.created_at m.created_at

pub record ConversationSummary : Type 0 where
  pub id : ℕ
  pub other_user_id : ℕ
  pub other_handle : Option Text
  pub other_avatar_seed : Option Text
  pub last_message_at : Option ℕ
  pub last_message_preview : Option Text
  pub unread : ℕ
  pub outbound : Bool

-- The conversations of the inbox: the open ones, and one's own requests, also the declined.
abbrev pub in_inbox : Context → Conversation → Bool
in_inbox ctx c =
    sees_conversation ctx c && (is_active c.status || is_user c.requested_by ctx.user_id)

-- `last_message_at desc nulls last, created_at desc`.
abbrev pub latest_first : Conversation → Conversation → Bool
latest_first c d = elim c.last_message_at [
  | none ↦ elim d.last_message_at [ none ↦ leb d.created_at c.created_at | some u ↦ false ]
  | some t ↦ elim d.last_message_at [
    | none ↦ true
    | some u ↦ ltb u t || ((u == t) && leb d.created_at c.created_at)
  ]
]

abbrev pub summary_of : Context → Messages → Conversation → ConversationSummary
unfolding unread_in
summary_of ctx s c =
    let profile = find (λ p. p.user_id == other_of ctx c) s.profiles in
    record {
      id = c.id;
      other_user_id = other_of ctx c;
      other_handle = handle_of profile;
      other_avatar_seed = seed_of profile;
      last_message_at = c.last_message_at;
      last_message_preview =
          preview_of (first_of (sort_by newest_first (filter (in_view ctx c.id s) s.messages)));
      unread = unread_in ctx c.id s;
      outbound = not (is_active c.status);
    }

unfoldable pub list_inbox : Context → Messages → List ConversationSummary
list_inbox ctx s =
    map (summary_of ctx s) (sort_by latest_first (filter (in_inbox ctx) s.conversations))

abbrev pub total_unread : List ConversationSummary → ℕ
total_unread [] = 0
total_unread (c ∷ cs) = c.unread + total_unread cs

unfoldable pub unread_count : Context → Messages → ℕ
unfolding list_inbox
unread_count ctx s = total_unread (list_inbox ctx s)

pub record RequestSummary : Type 0 where
  pub id : ℕ
  pub from_user_id : ℕ
  pub from_handle : Option Text
  pub from_avatar_seed : Option Text
  pub message : Option Text
  pub created_at : ℕ

-- The requests that wait for the acting user.
abbrev pub awaits : Context → Conversation → Bool
awaits ctx c =
    sees_conversation ctx c && (is_pending c.status && is_other c.requested_by ctx.user_id)

abbrev pub oldest_first : Message → Message → Bool
oldest_first m n = leb m.created_at n.created_at

abbrev pub body_of : Option Message → Option Text
body_of none = none
body_of (some m) = some m.body

abbrev pub request_of : Context → Messages → Conversation → RequestSummary
request_of ctx s c =
    let profile = find (λ p. p.user_id == other_of ctx c) s.profiles in
    record {
      id = c.id;
      from_user_id = other_of ctx c;
      from_handle = handle_of profile;
      from_avatar_seed = seed_of profile;
      message = body_of (
          first_of (
            sort_by oldest_first
              (filter (λ m. in_request c m && sees_message ctx s.conversations m) s.messages)));
      created_at = c.created_at;
    }

unfoldable pub list_requests : Context → Messages → List RequestSummary
list_requests ctx s =
    map (request_of ctx s)
      (sort_by (λ c d. leb d.created_at c.created_at) (filter (awaits ctx) s.conversations))

unfoldable pub request_count : Context → Messages → ℕ
request_count ctx s = count (awaits ctx) s.conversations
