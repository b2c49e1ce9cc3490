-- ===== src/Messages/Asking.antt =====
-- startConversation of packages/modules/messages/src/service.ts and the invariant of the requests.
use campus_os.Common.{
  Text, trim, ℕ, ◌<◌, ◌≡◌, refl, ap, subst, Bool, true, false, Option, not, ◌&&◌, ◌||◌, some, none,
  [], ◌∷◌, ◌++◌, map, ◌==◌, any, find, includes, update_where, All, arith, Bool-cases, Option-cases,
  inl, inr, ◌⊎◌, find-In, find_holds, All_In, All-tabulate,
}
use campus_os.Core.Result.{ok}
use campus_os.Tenancy.{Context}
use campus_os.Messages.{
  Ephemerality, ConversationStatus, pending, active, declined, is_pending, is_active, Conversation,
  Messages, MessagesSettings, conversation_by_id, sees_conversation, is_user, is_other,
}
use campus_os.Messages.Sending.{new_message, set_status, expiry}
use campus_os.Messages.Requests.{
  pair_of, order_pair, reopened, new_conversation, Started, write_into, ask, continue_conversation,
  open_conversation, start_conversation,
}
use campus_os.Messages.Carrying.{
  IsCarried, only_row, touched-IsCarried, opened-IsCarried, sent-IsCarried, opened_row,
  asked-IsCarried, reasked-IsCarried,
}

-- The tables of a state, well formed.
abbrev pub CarriesAll : Messages → Type 0
CarriesAll s = IsCarried s.conversations s.messages

pub status-cases : (x : ConversationStatus) → (x ≡ active) ⊎ ((x ≡ pending) ⊎ (x ≡ declined))
status-cases active = inl refl
status-cases pending = inr (inl refl)
status-cases declined = inr (inr refl)

pub pending_of : (x : ConversationStatus) → is_pending x ≡ true → x ≡ pending
pending_of pending h = refl
pending_of active h = cc
pending_of declined h = cc

pub active_of : (x : ConversationStatus) → is_active x ≡ true → x ≡ active
active_of active h = refl
active_of pending h = cc
active_of declined h = cc

pub is_user_of-is_other :
    (r : Option ℕ) (user : ℕ) → is_other r user ≡ true → is_user r user ≡ false
is_user_of-is_other none user h = refl
is_user_of-is_other (some u) user h = ground arith

order_pair-lt : (x y : ℕ) → (y == x) ≡ false → (order_pair x y).0 < (order_pair x y).1
unfolding order_pair
order_pair-lt x y h = ground arith

-- The rows with the id of an open conversation are open.
pub active_rows :
    (s : Messages) (c : Conversation) (p : Conversation → Bool)
    → CarriesAll s
    → find p s.conversations ≡ some c
    → c.status ≡ active
    → All (λ d. (is_active d.status || not (d.id == c.id)) ≡ true) s.conversations
active_rows s c p v there st =
    All-tabulate (λ d. (is_active d.status || not (d.id == c.id)) ≡ true) s.conversations
      (λ d i. elim (Bool-cases (d.id == c.id)) [
        | inr other ↦ ground arith
        | inl one ↦
            let row : d ≡ c = only_row s.conversations s.messages v p c d there i one in
            ground (arith, ap (λ (x : Conversation). is_active x.status) row)
      ])

-- A message into a chat that is open in the state.
written_lem :
    (ctx : Context) (fresh : ℕ) (text : Text) (c : Conversation) (s : Messages)
    → CarriesAll s
    → All (λ d. (is_active d.status || not (d.id == c.id)) ≡ true) s.conversations
    → CarriesAll (write_into ctx fresh text c s)
written_lem ctx fresh text c s v still =
    let m = new_message ctx fresh c.id text none (expiry ctx.now c.ephemerality true) in
    touched-IsCarried s.conversations (s.messages ++ m ∷ [])
      (sent-IsCarried s.conversations s.messages v m (λ d i. ground (
        arith,
        All_In (λ d. (is_active d.status || not (d.id == c.id)) ≡ true) s.conversations d still i,
      )))
      (conversation_by_id ctx c.id) ctx.now

module _ (ctx : Context) (note other : ℕ) (text : Text) (settings : MessagesSettings)
    (kept : Ephemerality) (r : Started) (s s' : Messages) (v : CarriesAll s) where
  continue_conversation-CarriesAll :
      (c : Conversation) (p : Conversation → Bool)
      → find p s.conversations ≡ some c
      → sees_conversation ctx c ≡ true
      → continue_conversation ctx note other text settings kept c s ≡ ok (r, s')
      → CarriesAll s'
  unfolding continue_conversation
  continue_conversation-CarriesAll c p there seen e = elim (status-cases c.status) [
    | inl st ↦
        let same : write_into ctx note text c s ≡ s' = ground arith in
        subst CarriesAll same (written_lem ctx note text c s v (active_rows s c p v there st))
    | inr (inl st) ↦
        let t : Messages = record s {
          conversations =
              update_where (conversation_by_id ctx c.id) (set_status active ctx.now)
                s.conversations;
        } in
        let same : write_into ctx note text c t ≡ s' = ground arith in
        subst CarriesAll same (
          written_lem ctx note text c t
            (opened-IsCarried s.conversations s.messages v (conversation_by_id ctx c.id) ctx.now)
            (opened_row s.conversations s.messages v ctx c ctx.now p there (ground arith)))
    | inr (inr st) ↦
        let t : Messages = record s {
          conversations =
              update_where (conversation_by_id ctx c.id) (reopened ctx kept) s.conversations;
        } in
        let same : ask ctx note c.id other text kept t ≡ s' = ground arith in
        let m = new_message ctx note c.id text none none in
        subst CarriesAll same (
          touched-IsCarried t.conversations (s.messages ++ m ∷ [])
            (reasked-IsCarried s.conversations s.messages v ctx c kept m
              (find-In p s.conversations there) (ground arith) (ground arith) refl)
            (conversation_by_id ctx c.id) ctx.now)
  ]

  open_conversation-CarriesAll :
      (fresh : ℕ)
      → (other == ctx.user_id) ≡ false
      → includes (map (λ c. c.id) s.conversations) fresh ≡ false
      → any (λ m. m.conversation_id == fresh) s.messages ≡ false
      → open_conversation ctx fresh note other text settings kept s ≡ ok (r, s')
      → CarriesAll s'
  unfolding open_conversation
  open_conversation-CarriesAll fresh distinct new quiet e =
      let pair = order_pair ctx.user_id other in
      let single : any (pair_of ctx.tenant_id pair) s.conversations ≡ false = ground arith in
      let t : Messages = record s {
        conversations = s.conversations ++ new_conversation ctx fresh pair kept ∷ [];
      } in
      let same : ask ctx note fresh other text kept t ≡ s' = ground arith in
      let m = new_message ctx note fresh text none none in
      subst CarriesAll same (
        touched-IsCarried t.conversations (s.messages ++ m ∷ [])
          (asked-IsCarried s.conversations s.messages v ctx fresh pair kept m new quiet single
            (order_pair-lt ctx.user_id other distinct) (ground arith) refl)
          (conversation_by_id ctx fresh) ctx.now)

-- Whatever startConversation writes, every pair keeps one conversation, and every pending request
-- its message, which does not expire.
pub start_conversation-CarriesAll :
    (ctx : Context) (fresh note other : ℕ) (body : Text) (settings : MessagesSettings)
    (kept : Ephemerality) (r : Started) (s s' : Messages)
    → CarriesAll s
    → includes (map (λ c. c.id) s.conversations) fresh ≡ false
    → any (λ m. m.conversation_id == fresh) s.messages ≡ false
    → start_conversation ctx fresh note other body settings kept s ≡ ok (r, s')
    → CarriesAll s'
unfolding start_conversation
start_conversation-CarriesAll ctx fresh note other body settings kept r s s' v new quiet e =
    let here = λ (c : Conversation).
      pair_of ctx.tenant_id (order_pair ctx.user_id other) c && sees_conversation ctx c in
    elim (Option-cases (find here s.conversations)) [
      | inr (c, there) ↦
          continue_conversation-CarriesAll ctx note other (trim body) settings kept r s s' v c here
            there (ground (arith, find_holds here s.conversations there)) (ground arith)
      | inl absent ↦
          open_conversation-CarriesAll ctx note other (trim body) settings kept r s s' v fresh
            (ground arith) new quiet (ground arith)
    ]
