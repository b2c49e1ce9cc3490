-- ===== src/Messages/Samples.antt =====
-- The messages at concrete states: person 1 writes to person 2 of tenant 5.
use campus_os.Common.{Text, ℕ, ◌≡◌, refl, true, false, none, some, [], ◌∷◌, find, arith}
use campus_os.Core.Result.{ok, is_ok}
use campus_os.Tenancy.{Context, Membership, MembershipStatus, is_verified_member, notify_in_tx}
use campus_os.Messages.{
  Ephemerality, WhoCanMessage, active, Conversation, Messages, MessagesSettings, conversation_by_id,
}
use campus_os.Messages.Sending.{
  SendInput, send_message, new_message, new_state, read_now, touched, set_status, ensure_own_state,
}
use campus_os.Messages.Requests.{
  start_conversation, open_conversation, new_conversation, request_note, order_pair, accept_request,
}
use campus_os.Messages.Asking.{CarriesAll}
use campus_os.Messages.LifeCycle.{Follows}
use campus_os.Messages.History.{Move, Reach, Move-Follows, Reach-CarriesAll}
use campus_os.Messages.Deciding.{pending_speaks_once, accept_request_opens}

abbrev pub sender : Context
sender = record { user_id = 1; tenant_id = 5; now = 100 }

abbrev pub reader : Context
reader = record { user_id = 2; tenant_id = 5; now = 200 }

abbrev pub member : ℕ → Membership
member user = record {
  user_id = user;
  tenant_id = 5;
  verified_at = some 1;
  status = MembershipStatus.active;
  standing_until = none;
}

abbrev pub usual : MessagesSettings
usual = record {
  who_can_message = WhoCanMessage.verified;
  edit_window_minutes = 5;
  delete_everyone_window_minutes = 60;
  max_body_length = 4000;
  new_conversations_per_day = 20;
}

abbrev pub hello : Text
hello = b'h' ∷ b'i' ∷ []

abbrev pub empty : Messages
empty = record {
  conversations = [];
  states = [];
  messages = [];
  members = member 1 ∷ member 2 ∷ [];
  profiles = [];
  inbox = [];
}

empty-CarriesAll : CarriesAll empty
empty-CarriesAll = record {
  ids = tt;
  pairs = λ tenant pair. omega arith;
  ordered = tt;
  carried = tt;
}

abbrev pub asked_row : Conversation
asked_row = touched 100 (new_conversation sender 10 (1, 2) Ephemerality.never)

abbrev pub asked : Messages
asked = record empty {
  conversations = asked_row ∷ [];
  states = read_now 100 (new_state sender 10) ∷ [];
  messages = new_message sender 20 10 hello none none ∷ [];
  inbox = request_note sender 2 ∷ [];
}

started :
    start_conversation sender 10 20 2 hello usual Ephemerality.never empty
    ≡ ok (record { id = 10; created = true }, asked)
unfolding start_conversation open_conversation ensure_own_state is_verified_member notify_in_tx
started = refl

begins : Move sender empty asked
begins =
    Move.starts 10 20 2 hello usual Ephemerality.never (record { id = 10; created = true }) empty
      asked refl refl started

Move-Follows_example : Follows sender [] (asked_row ∷ [])
Move-Follows_example = Move-Follows sender empty asked empty-CarriesAll begins

reached : Reach empty asked
reached = Reach.then_move sender empty empty asked (Reach.start empty) begins

abbrev pub again : SendInput
again = record { body = hello; reply_to_id = none }

pending_speaks_once_example :
    (is_ok (send_message sender 21 10 again usual asked) ≡ false)
    × (is_ok (start_conversation sender 21 22 2 hello usual Ephemerality.never asked) ≡ false)
unfolding order_pair
pending_speaks_once_example =
    pending_speaks_once sender 21 22 10 2 again hello usual Ephemerality.never empty asked asked_row
      empty-CarriesAll reached refl refl refl refl

accept_request_opens_example :
    (t : Messages) × (accept_request reader 10 asked ≡ ok t)
    × (find (conversation_by_id reader 10) t.conversations ≡ some (set_status active 200 asked_row))
accept_request_opens_example =
    accept_request_opens reader 10 empty asked asked_row empty-CarriesAll reached refl refl refl

Reach-CarriesAll_example : CarriesAll asked
Reach-CarriesAll_example = Reach-CarriesAll empty asked empty-CarriesAll reached
