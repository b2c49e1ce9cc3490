-- ===== src/Messages/LifeCycle.antt =====
-- The life cycle of a request, and that the writes of packages/modules/messages/src/service.ts move
-- every conversation along it.
use campus_os.Common.{
  ℕ, ◌*◌, ◌≡◌, refl, sym, subst, Bool, true, false, ◌&&◌, some, List, [], ◌∷◌, ◌++◌, ◌==◌, find,
  update_where, All, In, Bool-cases, inl, inr,
}
use campus_os.Tenancy.{Context}
use campus_os.Messages.{pending, active, declined, Conversation, Messages, is_user, is_other}
use campus_os.Messages.Sending.{touched, day}
use campus_os.Messages.Requests.{within, rerequest_block_days}
use campus_os.Messages.Carrying.{only_row}
use campus_os.Messages.Asking.{CarriesAll}

-- What one transaction of a person may do to a conversation. Only the other person opens or declines
-- a request, and its requester asks again only after the block.
pub data Step (ctx : Context) (c d : Conversation) : Type 0 where
  stays : d.status ≡ c.status → d.requested_by ≡ c.requested_by → Step ctx c d
  opens :
      c.status ≡ pending
      → is_user c.requested_by ctx.user_id ≡ false
      → d.status ≡ active
      → d.requested_by ≡ c.requested_by
      → Step ctx c d
  declines :
      c.status ≡ pending
      → is_other c.requested_by ctx.user_id ≡ true
      → d.status ≡ declined
      → d.requested_by ≡ c.requested_by
      → Step ctx c d
  asks_again :
      c.status ≡ declined
      → (is_user c.requested_by ctx.user_id
          && within ctx.now (rerequest_block_days * day) c.status_changed_at)
        ≡ false
      → d.status ≡ pending
      → d.requested_by ≡ some ctx.user_id
      → Step ctx c d

-- A new row is a request of the acting user.
abbrev pub IsAsked : Context → Conversation → Type 0
IsAsked ctx d = (d.status ≡ pending) × (d.requested_by ≡ some ctx.user_id)

-- Row by row, and new rows at the end.
abbrev pub Follows : Context → List Conversation → List Conversation → Type 0
Follows ctx [] ds = All (IsAsked ctx) ds
Follows ctx (c ∷ cs) [] = ⊥
Follows ctx (c ∷ cs) (d ∷ ds) = (d.id ≡ c.id) × Step ctx c d × Follows ctx cs ds

pub Follows-same : (ctx : Context) (cs : List Conversation) → Follows ctx cs cs
Follows-same ctx [] = tt
Follows-same ctx (c ∷ cs) = (refl, Step.stays refl refl, Follows-same ctx cs)

pub Step-touched :
    (ctx : Context) (c d : Conversation) (now : ℕ) → Step ctx c d → Step ctx c (touched now d)
Step-touched ctx c d now (Step.stays a b) = Step.stays a b
Step-touched ctx c d now (Step.opens a b e f) = Step.opens a b e f
Step-touched ctx c d now (Step.declines a b e f) = Step.declines a b e f
Step-touched ctx c d now (Step.asks_again a b e f) = Step.asks_again a b e f

module _ (ctx : Context) (p : Conversation → Bool) where
  IsAsked-touched :
      (now : ℕ) (ds : List Conversation)
      → All (IsAsked ctx) ds
      → All (IsAsked ctx) (update_where p (touched now) ds)
  IsAsked-touched now [] h = tt
  IsAsked-touched now (d ∷ ds) (a, h) = elim (Bool-cases (p d)) [
    | inl e ↦ rw e (a, IsAsked-touched now ds h)
    | inr e ↦ rw e (a, IsAsked-touched now ds h)
  ]

  pub Follows-touched :
      (now : ℕ) (cs ds : List Conversation)
      → Follows ctx cs ds
      → Follows ctx cs (update_where p (touched now) ds)
  Follows-touched now [] ds h = IsAsked-touched now ds h
  Follows-touched now (c ∷ cs) [] h = h
  Follows-touched now (c ∷ cs) (d ∷ ds) (i, a, h) = elim (Bool-cases (p d)) [
    | inl e ↦ rw e (i, Step-touched ctx c d now a, Follows-touched now cs ds h)
    | inr e ↦ rw e (i, a, Follows-touched now cs ds h)
  ]

  pub Follows-update_where :
      (f : Conversation → Conversation) (cs : List Conversation)
      → ((c : Conversation) → (f c).id ≡ c.id)
      → ((c : Conversation) → In c cs → p c ≡ true → Step ctx c (f c))
      → Follows ctx cs (update_where p f cs)
  Follows-update_where f [] i h = tt
  Follows-update_where f (c ∷ cs) i h = elim (Bool-cases (p c)) [
    | inl e ↦ rw e (i c, h c (inl refl) e, Follows-update_where f cs i (λ d m. h d (inr m)))
    | inr e ↦ rw e (refl, Step.stays refl refl, Follows-update_where f cs i (λ d m. h d (inr m)))
  ]

pub Follows-snoc :
    (ctx : Context) (cs : List Conversation) (d : Conversation)
    → IsAsked ctx d
    → Follows ctx cs (cs ++ d ∷ [])
Follows-snoc ctx [] d h = (h, tt)
Follows-snoc ctx (c ∷ cs) d h = (refl, Step.stays refl refl, Follows-snoc ctx cs d h)

-- The rows that an update by id meets are the row that was found.
module _ (ctx : Context) (s : Messages) (v : CarriesAll s) (c : Conversation)
    (q : Conversation → Bool) (there : find q s.conversations ≡ some c) where
  pub Follows-one_row :
      (p : Conversation → Bool) (f : Conversation → Conversation)
      → ((d : Conversation) → p d ≡ true → (d.id == c.id) ≡ true)
      → ((d : Conversation) → (f d).id ≡ d.id)
      → Step ctx c (f c)
      → Follows ctx s.conversations (update_where p f s.conversations)
  Follows-one_row p f by_id keeps step =
      Follows-update_where ctx p f s.conversations keeps (λ d i h.
        let row : d ≡ c = only_row s.conversations s.messages v q c d there i (by_id d h) in
        subst (λ x. Step ctx x (f x)) (sym row) step)
