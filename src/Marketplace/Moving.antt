-- ===== src/Marketplace/Moving.antt =====
-- placeOrder, transitionOrder and the completion of orders left alone keep every order as its log
-- tells it.
use campus_os.Common.{
  Text, ℕ, ◌≡◌, refl, sym, ◌∙◌, subst, Bool, true, false, none, some, [], ◌∷◌, ◌++◌, ltb, ◌==◌,
  ==_refl, find, update_where, arith, Option-cases, inl, inr, find-In, find_holds, All_In,
  All-update_where-In, map-update_where, row_unique,
}
use campus_os.Tenancy.{Context}
use campus_os.Marketplace.{OrderStatus, Order, Market}
use campus_os.Marketplace.Orders.{notify_order_party}
use campus_os.Marketplace.Transitions.{
  Role, edge, role_of, TransitionOutcome, moved, not_found, not_party, illegal, place, moved_order,
  move_event, tenant_order, mkt_order_transition, tell_moved, transition_order,
}
use campus_os.Marketplace.Logs.{log_end-append, OrderKept, IsLogged}
use campus_os.Marketplace.Edges.{revision_left, cash_unpaid}

-- What an accepted transition met.
pub record MovedOrder (ctx : Context) (order : ℕ) (to : OrderStatus) (note : Text) (s t : Market)
    : Type 0 where
  pub row : Order
  pub role : Role
  pub there : find (tenant_order ctx.tenant_id order) s.orders ≡ some row
  pub allowed :
      edge row.status to role row.payment_mode (ltb row.revisions_used row.revisions_allowed) ≡ true
  pub result : t ≡ record s {
    orders = update_where (λ x. x.id == order) (moved_order ctx.now to note) s.orders;
    events = s.events ++ move_event ctx row to note ∷ [];
  }

pub mkt_order_transition_facts :
    (ctx : Context) (order : ℕ) (to : OrderStatus) (note : Text) (s t : Market)
    → mkt_order_transition ctx order to note s ≡ (moved, t)
    → MovedOrder ctx order to note s t
unfolding mkt_order_transition
mkt_order_transition_facts ctx order to note s t e =
    elim (Option-cases (find (tenant_order ctx.tenant_id order) s.orders)) [
      | inl missing ↦ ground arith
      | inr (o, there) ↦ elim (Option-cases (role_of ctx o)) [
        | inl nobody ↦ ground arith
        | inr (role, is) ↦ record {
          row = o;
          role = role;
          there = there;
          allowed = ground arith;
          result = ground arith;
        }
      ]
    ]

pub notify_order_party_same :
    (ctx : Context) (order : ℕ) (s : Market)
    → ((notify_order_party ctx order s).orders ≡ s.orders)
      × ((notify_order_party ctx order s).events ≡ s.events)
      × ((notify_order_party ctx order s).reviews ≡ s.reviews)
unfolding notify_order_party
notify_order_party_same ctx order s = ground arith

pub IsLogged-notify :
    (ctx : Context) (order : ℕ) (s : Market)
    → IsLogged s
    → IsLogged (notify_order_party ctx order s)
IsLogged-notify ctx order s v =
    let (a, b, c) = notify_order_party_same ctx order s in
    record { ids = rw a v.ids; kept = rw (a, b) v.kept }

module _ (ctx : Context) (order : ℕ) (to : OrderStatus) (note : Text) (s t : Market)
    (v : IsLogged s) (m : MovedOrder ctx order to note s t) where
  moved_kept :
      OrderKept s.events m.row
      → OrderKept
          (s.events ++ move_event ctx m.row to note ∷ [])
          (moved_order ctx.now to note m.row)
  moved_kept k =
      let allowed = m.allowed in
      record {
        logged =
            log_end-append m.row.id none s.events (move_event ctx m.row to note ∷ [])
              (some m.row.status) k.logged
            ∙ ground (arith, ==_refl (place m.row.status));
        fits = ground (
          arith,
          revision_left m.row.status to m.role m.row.payment_mode
              (ltb m.row.revisions_used m.row.revisions_allowed) allowed,
          k.fits,
        );
        unpaid =
            cash_unpaid m.row.status to m.role m.row.payment_mode
              (ltb m.row.revisions_used m.row.revisions_allowed) allowed k.unpaid;
      }

  other_kept :
      (x : Order)
      → (x.id == order) ≡ false
      → OrderKept s.events x
      → OrderKept (s.events ++ move_event ctx m.row to note ∷ []) x
  other_kept x other k = record {
    logged =
        log_end-append x.id none s.events (move_event ctx m.row to note ∷ []) (some x.status)
          k.logged
        ∙ ground (arith, find_holds (tenant_order ctx.tenant_id order) s.orders m.there);
    fits = k.fits;
    unpaid = k.unpaid;
  }

  moved-IsLogged : IsLogged t
  moved-IsLogged =
      let es = s.events ++ move_event ctx m.row to note ∷ [] in
      let f = moved_order ctx.now to note in
      let listed = find-In (tenant_order ctx.tenant_id order) s.orders m.there in
      rw m.result (record {
        ids =
            rw (map-update_where (λ (o : Order). o.id) (λ x. x.id == order) f s.orders (λ o. refl))
              v.ids;
        kept =
            All-update_where-In (OrderKept es) (λ x. x.id == order) f s.orders
              (λ x i h.
                let row : x ≡ m.row =
                  row_unique (λ o. o.id) s.orders x m.row v.ids i listed
                    (ground
                      (arith, find_holds (tenant_order ctx.tenant_id order) s.orders m.there)) in
                subst (λ y. OrderKept es (f y)) (sym row)
                  (moved_kept (All_In (OrderKept s.events) s.orders m.row v.kept listed)))
              (λ x i h. other_kept x h (All_In (OrderKept s.events) s.orders x v.kept i));
      })

abbrev pub is_moved : TransitionOutcome → Bool
is_moved moved = true
is_moved not_found = false
is_moved not_party = false
is_moved illegal = false

-- A refusal leaves the tables as they were.
pub refused_same :
    (ctx : Context) (order : ℕ) (to : OrderStatus) (note : Text) (s t : Market)
    (out : TransitionOutcome)
    → mkt_order_transition ctx order to note s ≡ (out, t)
    → is_moved out ≡ false
    → s ≡ t
unfolding mkt_order_transition
refused_same ctx order to note s t out e h =
    elim (Option-cases (find (tenant_order ctx.tenant_id order) s.orders)) [
      | inl missing ↦ ground arith
      | inr (o, there) ↦ elim (Option-cases (role_of ctx o)) [
        | inl nobody ↦ ground arith
        | inr (role, is) ↦ ground arith
      ]
    ]

-- Moving an order, or being refused, leaves every order as its log tells it.
pub transition_order-IsLogged :
    (ctx : Context) (order : ℕ) (to : OrderStatus) (note : Text) (s : Market)
    → IsLogged s
    → IsLogged (transition_order ctx order to note s).1
unfolding transition_order
transition_order-IsLogged ctx order to note s v =
    outcome_cases (mkt_order_transition ctx order to note s).0
      (mkt_order_transition ctx order to note s).1 refl
  where
    refused :
        (out : TransitionOutcome) (t : Market)
        → mkt_order_transition ctx order to note s ≡ (out, t)
        → is_moved out ≡ false
        → IsLogged t
    refused out t e h = subst IsLogged (refused_same ctx order to note s t out e h) v

    outcome_cases :
        (out : TransitionOutcome) (t : Market)
        → mkt_order_transition ctx order to note s ≡ (out, t)
        → IsLogged (tell_moved ctx order (out, t)).1
    outcome_cases moved t e = IsLogged-notify ctx order t (
        moved-IsLogged ctx order to note s t v (mkt_order_transition_facts ctx order to note s t e))
    outcome_cases not_found t e = refused not_found t e refl
    outcome_cases not_party t e = refused not_party t e refl
    outcome_cases illegal t e = refused illegal t e refl
