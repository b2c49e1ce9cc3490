-- ===== src/Marketplace/Logs.antt =====
-- The log of an order, read from its start, and what the orders and their log keep.
use campus_os.Common.{
  ℕ, ◌≤◌, ◌≡◌, refl, ap, ◌∙◌, Bool, true, false, ◌&&◌, Option, none, some, List, [], ◌∷◌, ◌++◌, map,
  ◌==◌, if◌then◌else◌, any, filter, includes, All, In, Distinct, arith, Bool-cases, inl, inr,
  key_absent,
}
use campus_os.Marketplace.{
  PaymentMode, cash, online, OrderStatus, awaiting_payment, paid, delivered, completed, Order,
  OrderEvent, Market,
}
use campus_os.Marketplace.Transitions.{same_status, finish_event}

abbrev same_from : Option OrderStatus → Option OrderStatus → Bool
same_from none none = true
same_from (some a) (some b) = same_status a b
same_from _ _ = false

-- The log of one order, read from a status on: `none` if an event does not start where the one before
-- it ended, and else the status at its end.
abbrev pub log_end : ℕ → Option OrderStatus → List OrderEvent → Option (Option OrderStatus)
log_end order at [] = some at
log_end order at (e ∷ es) =
    let next = log_end order (some e.to_status) es in
    let same = log_end order at es in
    if e.order_id == order then (if same_from e.from_status at then next else none) else same

pub log_end-append :
    (order : ℕ) (at : Option OrderStatus) (es fs : List OrderEvent) (b : Option OrderStatus)
    → log_end order at es ≡ some b
    → log_end order at (es ++ fs) ≡ log_end order b fs
log_end-append order at [] fs b h = ap (λ x. log_end order x fs) (ground arith)
log_end-append order at (e ∷ es) fs b h = elim (Bool-cases (e.order_id == order)) [
  | inr other ↦ ground (arith, other, log_end-append order at es fs b)
  | inl mine ↦ ground (arith, mine, log_end-append order (some e.to_status) es fs b)
]

-- An order that no event is about.
pub log_end-absent :
    (order : ℕ) (at : Option OrderStatus) (es : List OrderEvent)
    → any (λ e. e.order_id == order) es ≡ false
    → log_end order at es ≡ some at
log_end-absent order at [] h = refl
log_end-absent order at (e ∷ es) h = ground (arith, log_end-absent order at es)

abbrev pub awaits_money : OrderStatus → Bool
awaits_money awaiting_payment = true
awaits_money paid = true
awaits_money _ = false

abbrev pub is_cash : PaymentMode → Bool
is_cash cash = true
is_cash online = false

-- An order as its log tells it: no more revisions than were agreed, and a cash order never waits for
-- a payment.
pub record OrderKept (events : List OrderEvent) (o : Order) : Type 0 where
  pub logged : log_end o.id none events ≡ some (some o.status)
  pub fits : o.revisions_used ≤ o.revisions_allowed
  pub unpaid : (is_cash o.payment_mode && awaits_money o.status) ≡ false

pub record IsLogged (s : Market) : Type 0 where
  pub ids : Distinct (map (λ o. o.id) s.orders)
  pub kept : All (OrderKept s.events) s.orders

module _ (tenant now : ℕ) (done : Order → Bool) where
  finishes_absent :
      (k : ℕ) (at : Option OrderStatus) (os : List Order)
      → includes (map (λ o. o.id) os) k ≡ false
      → log_end k at (map (finish_event tenant now) (filter done os)) ≡ some at
  finishes_absent k at [] h = refl
  finishes_absent k at (o ∷ os) h = elim (Bool-cases (done o)) [
    | inl d ↦ ground (arith, d, finishes_absent k at os)
    | inr n ↦ ground (arith, n, finishes_absent k at os)
  ]

  -- The log of an order that is finished, and of one that is not.
  pub finishes_lem :
      (os : List Order) (o : Order) (at : OrderStatus)
      → Distinct (map (λ o. o.id) os)
      → In o os
      → (done o ≡ true → at ≡ delivered)
      → log_end o.id (some at) (map (finish_event tenant now) (filter done os))
        ≡ some (some (if done o then completed else at))
  finishes_lem [] o at d i h = elim i [ ]
  finishes_lem (x ∷ xs) o at (a, d) (inl e) h = elim (Bool-cases (done x)) [
    | inl t ↦
        let at_end : at ≡ delivered = h (ap done e ∙ t) in
        rw (e, t, at_end) (ground (arith, finishes_absent x.id (some completed) xs a))
    | inr n ↦ rw (e, n) (finishes_absent x.id (some at) xs a)
  ]
  finishes_lem (x ∷ xs) o at (a, d) (inr i) h =
      let other = key_absent (λ y. y.id) xs o x.id a i in
      elim (Bool-cases (done x)) [
        | inl t ↦ ground (arith, t, other, finishes_lem xs o at d i h)
        | inr n ↦ ground (arith, n, finishes_lem xs o at d i h)
      ]
