-- ===== src/Messages/Limits.antt =====
-- What the limit of thread in packages/modules/messages/src/service.ts shows of a long conversation.
use mathlib.Core.List.{append-nil}
use campus_os.Common.{
  trim, ℕ, ◌≤◌, ◌≡◌, refl, ap, ◌∙◌, true, some, [], ◌∷◌, ◌++◌, ltb, filter, find, count,
  update_where, All, All-map, All-filter, arith, Bool-cases, inl, inr, map, any-update_where, take,
  sort_by, sort_by-snoc, take-append, length-sort_by, length-filter, filter-append, filter-cong,
}
use campus_os.Core.Result.{ok}
use campus_os.Tenancy.{Context}
use campus_os.Messages.{
  is_active, Conversation, Message, Messages, MessagesSettings, conversation_by_id,
}
use campus_os.Messages.Sending.{
  touched, new_message, expiry, reply_in, status_sent, SendInput, send_message,
}
use campus_os.Messages.Asking.{active_of}
use campus_os.Messages.Reading.{in_view}
use campus_os.Messages.Thread.{thread_order, shown, thread_messages}

-- The state after a message into an open chat.
abbrev after_message : Context → ℕ → Message → Messages → Messages
after_message ctx k m s = record s {
  conversations = update_where (conversation_by_id ctx k) (touched ctx.now) s.conversations;
  messages = s.messages ++ m ∷ [];
}

sent_facts :
    (ctx : Context) (fresh k : ℕ) (input : SendInput) (settings : MessagesSettings) (i : ℕ)
    (s s' : Messages) (c : Conversation)
    → find (conversation_by_id ctx k) s.conversations ≡ some c
    → is_active c.status ≡ true
    → send_message ctx fresh k input settings s ≡ ok (i, s')
    → (m : Message) × (m.created_at ≡ ctx.now) × (s' ≡ after_message ctx k m s)
unfolding send_message
sent_facts ctx fresh k input settings i s s' c there live e = (
  new_message ctx fresh k (trim input.body) (reply_in ctx k input.reply_to_id s)
      (expiry ctx.now c.ephemerality (is_active (status_sent ctx c))),
  refl,
  ground (arith, active_of c.status live),
)

module _ (ctx reader : Context) (k limit : ℕ) (m : Message) (s : Messages)
    (latest : m.created_at ≡ ctx.now)
    (earlier : All (λ x. ltb x.created_at ctx.now ≡ true) s.messages)
    (full : limit ≤ count (in_view reader k s) s.messages) where
  -- What stood in the view before stands in it, and the new message at most comes after it.
  viewed_before :
      filter (in_view reader k (after_message ctx k m s)) s.messages
      ≡ filter (in_view reader k s) s.messages
  viewed_before = filter-cong _ _ s.messages (λ x. ground (
    arith,
    any-update_where (conversation_by_id reader x.conversation_id) (conversation_by_id ctx k)
        (touched ctx.now) s.conversations (λ d. refl),
  ))

  full_thread :
      thread_messages reader k limit (after_message ctx k m s) ≡ thread_messages reader k limit s
  unfolding thread_messages
  full_thread =
      let now_in = in_view reader k (after_message ctx k m s) in
      let seen = filter (in_view reader k s) s.messages in
      let split : filter now_in (s.messages ++ m ∷ []) ≡ seen ++ filter now_in (m ∷ []) =
        filter-append now_in s.messages (m ∷ [])
        ∙ ap (λ xs. xs ++ filter now_in (m ∷ [])) viewed_before in
      ap (λ xs. map shown (take limit (sort_by thread_order xs))) split
      ∙ elim (Bool-cases (now_in m)) [
        | inr out ↦ rw (out, append-nil) refl
        | inl shows ↦ rw shows (
            ap (λ xs. map shown (take limit xs))
              (sort_by-snoc thread_order seen m (
                All-filter (λ x. thread_order x m ≡ true) (in_view reader k s) s.messages
                  (All-map (λ x. ltb x.created_at ctx.now ≡ true) (λ x. thread_order x m ≡ true)
                    s.messages (λ x h. ground arith) earlier)))
            ∙ ap (map shown) (
                take-append limit (sort_by thread_order seen) (m ∷ []) (
                  omega (
                    arith,
                    length-sort_by thread_order seen,
                    length-filter (in_view reader k s) s.messages,
                  ))))
      ]

-- Once the thread of an open chat shows as many messages as its limit, a message that is sent into it
-- is not shown: every reader sees the same messages as before.
pub send_message_beyond_limit :
    (ctx reader : Context) (fresh k limit i : ℕ) (input : SendInput) (settings : MessagesSettings)
    (s s' : Messages) (c : Conversation)
    → find (conversation_by_id ctx k) s.conversations ≡ some c
    → is_active c.status ≡ true
    → All (λ x. ltb x.created_at ctx.now ≡ true) s.messages
    → limit ≤ count (in_view reader k s) s.messages
    → send_message ctx fresh k input settings s ≡ ok (i, s')
    → thread_messages reader k limit s' ≡ thread_messages reader k limit s
send_message_beyond_limit ctx reader fresh k limit i input settings s s' c there live earlier full
      e =
    let (m, latest, same) = sent_facts ctx fresh k input settings i s s' c there live e in
    rw same (full_thread ctx reader k limit m s latest earlier full)
