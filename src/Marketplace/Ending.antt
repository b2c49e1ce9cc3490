-- ===== src/Marketplace/Ending.antt =====
-- Every order comes to an end: transitionOrder of packages/modules/marketplace/src/orders-write.ts moves
-- one order only so often.
use campus_os.Common.{
  Text, ℕ, ◌+◌, ◌*◌, ◌-◌, ◌≤◌, ◌<◌, ◌≡◌, refl, sym, ap, ◌∙◌, subst, Bool, true, false, some, List,
  [], ◌∷◌, ◌==◌, if◌then◌else◌, ltb, ltb→lt, ==_refl, find, find-update_where, find_holds, arith,
  Bool-cases, inl, inr, one_if,
}
use campus_os.Tenancy.{Context}
use campus_os.Marketplace.{
  PaymentMode, OrderStatus, requested, awaiting_payment, paid, in_progress, delivered, completed,
  cancelled, disputed, Order, Market,
}
use campus_os.Marketplace.Orders.{notify_order_party}
use campus_os.Marketplace.Transitions.{
  Role, buyer, edge, is_revision, TransitionOutcome, moved, not_found, not_party, illegal,
  tenant_order, moved_order, tell_moved, mkt_order_transition, transition_order,
}
use campus_os.Marketplace.Edges.{
  steps_left, steps_fall, revision_left, revision_steps, steps_left_most,
}
use campus_os.Marketplace.Moving.{
  MovedOrder, mkt_order_transition_facts, notify_order_party_same, is_moved, refused_same,
}

-- What somebody asks for an order.
pub record MoveRequest : Type 0 where
  pub person : ℕ
  pub now : ℕ
  pub to : OrderStatus
  pub note : Text

abbrev pub context_of : ℕ → MoveRequest → Context
context_of tenant r = record { user_id = r.person; tenant_id = tenant; now = r.now }

-- How many requests of a list move an order, one after the other.
abbrev pub moves_made : ℕ → ℕ → List MoveRequest → Market → ℕ
unfolding transition_order
moves_made tenant order [] s = 0
moves_made tenant order (r ∷ rs) s =
    let (out, t) = transition_order (context_of tenant r) order r.to r.note s in
    one_if (is_moved out) + moves_made tenant order rs t

-- A bound of the moves that an order has ahead.
abbrev pub budget : Order → ℕ
budget o =
    if steps_left o.status == 0
    then 0
    else steps_left o.status + 2 * (o.revisions_allowed - o.revisions_used)

budget_falls :
    (o : Order) (now : ℕ) (to : OrderStatus) (note : Text) (role : Role)
    → edge o.status to role o.payment_mode (ltb o.revisions_used o.revisions_allowed) ≡ true
    → budget (moved_order now to note o) < budget o
budget_falls o now to note role e = elim (Bool-cases (is_revision o.status to)) [
  | inl h ↦
      let left = ltb→lt _ _ (
        revision_left o.status to role o.payment_mode (ltb o.revisions_used o.revisions_allowed) e
          h) in
      rw h (ground (arith, left, revision_steps o.status to h))
  | inr h ↦ rw h (
      ground (
        arith,
        steps_fall o.status to role o.payment_mode (ltb o.revisions_used o.revisions_allowed) e h,
      ))
]

budget_most : (o : Order) → budget o ≤ 5 + 2 * o.revisions_allowed
budget_most o = ground (arith, steps_left_most o.status)

moved_row :
    (ctx : Context) (order : ℕ) (to : OrderStatus) (note : Text) (s t : Market) (o : Order)
    → find (tenant_order ctx.tenant_id order) s.orders ≡ some o
    → MovedOrder ctx order to note s t
    → (find (tenant_order ctx.tenant_id order) (notify_order_party ctx order t).orders
        ≡ some (moved_order ctx.now to note o))
      × (budget (moved_order ctx.now to note o) < budget o)
moved_row ctx order to note s t o there m =
    let q = tenant_order ctx.tenant_id order in
    let f = moved_order ctx.now to note in
    let row : m.row ≡ o = ground (arith, m.there, there) in
    let named : (o.id == order) ≡ true = ground (arith, find_holds q s.orders there) in
    (
      rw ((notify_order_party_same ctx order t).0, m.result)
          (find-update_where q (λ x. x.id == order) f s.orders o (λ x. refl) there
            ∙ ap (λ b. some (if b then f o else o)) named),
      subst (λ x. budget (f x) < budget x) row
          (budget_falls m.row ctx.now to note m.role m.allowed),
    )

module _ (tenant order : ℕ) where
  abbrev Bounded : List MoveRequest → Type 0
  Bounded rs =
      (s : Market) (o : Order)
      → find (tenant_order tenant order) s.orders ≡ some o
      → moves_made tenant order rs s ≤ budget o

  -- Every request that moves an order takes one from its bound.
  request_takes_one : (r : MoveRequest) (rs : List MoveRequest) → Bounded rs → Bounded (r ∷ rs)
  unfolding transition_order
  request_takes_one r rs ih s o there =
      outcome_cases (mkt_order_transition ctx order r.to r.note s).0
        (mkt_order_transition ctx order r.to r.note s).1 refl
    where
      ctx : Context
      ctx = context_of tenant r

      refused :
          (out : TransitionOutcome) (t : Market)
          → mkt_order_transition ctx order r.to r.note s ≡ (out, t)
          → is_moved out ≡ false
          → moves_made tenant order rs t ≤ budget o
      refused out t e h = ih t o (
          subst (λ u. find (tenant_order tenant order) u.orders ≡ some o)
            (refused_same ctx order r.to r.note s t out e h) there)

      outcome_cases :
          (out : TransitionOutcome) (t : Market)
          → mkt_order_transition ctx order r.to r.note s ≡ (out, t)
          → one_if (is_moved (tell_moved ctx order (out, t)).0)
              + moves_made tenant order rs (tell_moved ctx order (out, t)).1
            ≤ budget o
      outcome_cases moved t e =
          let (found_row, less) =
            moved_row ctx order r.to r.note s t o there
              (mkt_order_transition_facts ctx order r.to r.note s t e) in
          omega (
            arith,
            less,
            ih (notify_order_party ctx order t) (moved_order ctx.now r.to r.note o) found_row,
          )
      outcome_cases not_found t e = omega (arith, refused not_found t e refl)
      outcome_cases not_party t e = omega (arith, refused not_party t e refl)
      outcome_cases illegal t e = omega (arith, refused illegal t e refl)

  moves_made-budget : (rs : List MoveRequest) → Bounded rs
  unfolding moves_made
  moves_made-budget [] s o there = omega arith
  moves_made-budget (r ∷ rs) s o there = request_takes_one r rs (moves_made-budget rs) s o there

-- Of any list of requests for an order of the tenant, at most five and two for each revision that was
-- agreed on move it: after those the order stays as it is.
pub moves_end :
    (tenant order : ℕ) (rs : List MoveRequest) (s : Market) (o : Order)
    → find (tenant_order tenant order) s.orders ≡ some o
    → moves_made tenant order rs s ≤ 5 + 2 * o.revisions_allowed
moves_end tenant order rs s o there =
    omega (arith, moves_made-budget tenant order rs s o there, budget_most o)

-- How a buyer ends an order.
abbrev pub way_out : OrderStatus → OrderStatus
way_out requested = cancelled
way_out awaiting_payment = cancelled
way_out paid = disputed
way_out in_progress = disputed
way_out delivered = completed
way_out completed = completed
way_out cancelled = cancelled
way_out disputed = disputed

buyer_edge :
    (a : OrderStatus) (m : PaymentMode) (left : Bool)
    → 0 < steps_left a
    → edge a (way_out a) buyer m left ≡ true
buyer_edge a m left h = ground arith

ended : (a : OrderStatus) → steps_left (way_out a) ≡ 0
ended a = ground arith

buyer_moves :
    (ctx : Context) (order : ℕ) (note : Text) (s : Market) (o : Order)
    → find (tenant_order ctx.tenant_id order) s.orders ≡ some o
    → ctx.user_id ≡ o.buyer_id
    → 0 < steps_left o.status
    → (mkt_order_transition ctx order (way_out o.status) note s).0 ≡ moved
unfolding mkt_order_transition
buyer_moves ctx order note s o there mine live = ground (
  arith,
  there,
  mine,
  ==_refl o.buyer_id,
  buyer_edge o.status o.payment_mode (ltb o.revisions_used o.revisions_allowed) live,
)

budget_ended : (o : Order) → steps_left o.status ≡ 0 → budget o ≡ 0
budget_ended o h = rw h refl

-- The buyer of an order that is not completed, cancelled or disputed can end it with one request, whatever
-- its status: the request moves it, and no request in the tenant moves it after that.
pub buyer_can_end :
    (ctx : Context) (order : ℕ) (note : Text) (s : Market) (o : Order) (rs : List MoveRequest)
    → find (tenant_order ctx.tenant_id order) s.orders ≡ some o
    → ctx.user_id ≡ o.buyer_id
    → 0 < steps_left o.status
    → ((transition_order ctx order (way_out o.status) note s).0 ≡ moved)
      × (moves_made ctx.tenant_id order rs (transition_order ctx order (way_out o.status) note s).1
          ≡ 0)
unfolding transition_order
buyer_can_end ctx order note s o rs there mine live =
    outcome_cases (mkt_order_transition ctx order (way_out o.status) note s).0
      (mkt_order_transition ctx order (way_out o.status) note s).1 refl
  where
    outcome_cases :
        (out : TransitionOutcome) (t : Market)
        → mkt_order_transition ctx order (way_out o.status) note s ≡ (out, t)
        → ((tell_moved ctx order (out, t)).0 ≡ moved)
          × (moves_made ctx.tenant_id order rs (tell_moved ctx order (out, t)).1 ≡ 0)
    outcome_cases moved t e =
        let (row, less) =
          moved_row ctx order (way_out o.status) note s t o there
            (mkt_order_transition_facts ctx order (way_out o.status) note s t e) in
        (
          refl,
          omega (
            arith,
            moves_made-budget ctx.tenant_id order rs (notify_order_party ctx order t)
                (moved_order ctx.now (way_out o.status) note o) row,
            budget_ended (moved_order ctx.now (way_out o.status) note o) (ended o.status),
          ),
        )
    outcome_cases not_found t e =
        let impossible : not_found ≡ moved =
          sym (ap (λ x. x.0) e) ∙ buyer_moves ctx order note s o there mine live in
        cc
    outcome_cases not_party t e =
        let impossible : not_party ≡ moved =
          sym (ap (λ x. x.0) e) ∙ buyer_moves ctx order note s o there mine live in
        cc
    outcome_cases illegal t e =
        let impossible : illegal ≡ moved =
          sym (ap (λ x. x.0) e) ∙ buyer_moves ctx order note s o there mine live in
        cc
