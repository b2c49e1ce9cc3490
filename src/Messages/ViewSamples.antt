-- ===== src/Messages/ViewSamples.antt =====
-- The threads at a concrete state: an open chat of persons 1 and 2 with one message.
use campus_os.Common.{ℕ, ◌≡◌, refl, false, none, [], ◌∷◌, ◌==◌, arith}
use campus_os.Core.Result.{ok}
use campus_os.Tenancy.{Context}
use campus_os.Messages.{Conversation, Messages, active}
use campus_os.Messages.Sending.{send_message, new_message, new_state, read_now, touched, set_status}
use campus_os.Messages.Reading.{unread_in}
use campus_os.Messages.Thread.{thread_messages, cleared_now, clear_conversation, mark_read}
use campus_os.Messages.Views.{clear_conversation_hides, mark_read_clears}
use campus_os.Messages.Limits.{send_message_beyond_limit}
use campus_os.Messages.Samples.{sender, reader, usual, again, hello, asked_row, asked}

abbrev chat_row : Conversation
chat_row = set_status active 150 asked_row

abbrev chat : Messages
chat = record asked { conversations = chat_row ∷ [] }

abbrev cleared : Messages
cleared = record chat {
  states = read_now 100 (new_state sender 10) ∷ cleared_now 200 (new_state reader 10) ∷ [];
}

clears_chat : clear_conversation reader 10 chat ≡ ok cleared
unfolding clear_conversation
clears_chat = refl

clear_conversation_hides_example :
    ((limit : ℕ) → thread_messages reader 10 limit cleared ≡ [])
    × ((other : Context) (j limit : ℕ)
        → (other.user_id == 2) ≡ false
        → thread_messages other j limit cleared ≡ thread_messages other j limit chat)
clear_conversation_hides_example =
    clear_conversation_hides reader 10 chat cleared (refl, tt) clears_chat

abbrev read_chat : Messages
read_chat = record chat {
  states = read_now 100 (new_state sender 10) ∷ read_now 200 (new_state reader 10) ∷ [];
}

reads_chat : mark_read reader 10 60 chat ≡ ok read_chat
unfolding mark_read
reads_chat = refl

mark_read_clears_example : unread_in reader 10 read_chat ≡ 0
mark_read_clears_example =
    mark_read_clears reader 10 60 chat read_chat chat_row (refl, tt) refl refl reads_chat

abbrev answered : Messages
answered = record chat {
  conversations = touched 200 chat_row ∷ [];
  messages =
      new_message sender 20 10 hello none none ∷ new_message reader 22 10 hello none none ∷ [];
}

answers : send_message reader 22 10 again usual chat ≡ ok (22, answered)
unfolding send_message
answers = refl

-- With a limit of one message the answer is not shown.
send_message_beyond_limit_example :
    thread_messages sender 10 1 answered ≡ thread_messages sender 10 1 chat
send_message_beyond_limit_example =
    send_message_beyond_limit reader sender 22 10 1 22 again usual chat answered chat_row refl refl
      (refl, tt) (omega arith) answers
