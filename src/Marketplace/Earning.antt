-- ===== src/Marketplace/Earning.antt =====
-- What placing, moving and completing orders leaves of the reviews that stand on them.
use campus_os.Common.{
  Text, trim, ℕ, ◌≡◌, refl, sym, subst, false, Option, [], ◌∷◌, ◌++◌, max, any-append, All, arith,
  Option-cases, inl, inr, All-map,
}
use campus_os.Core.Result.{ok}
use campus_os.Tenancy.{Context}
use campus_os.Marketplace.{OrderStatus, completed, Market}
use campus_os.Marketplace.Orders.{
  PlaceOrderInput, place_order, mkt_place_order, offer_of, new_order, opening_event,
  notify_order_party,
}
use campus_os.Marketplace.Transitions.{
  TransitionOutcome, moved, not_found, not_party, illegal, same_status, tell_moved, left_alone,
  finished, or_seven, mkt_order_transition, transition_order, mkt_order_autocomplete,
}
use campus_os.Marketplace.Logs.{IsLogged}
use campus_os.Marketplace.Moving.{
  mkt_order_transition_facts, is_moved, refused_same, notify_order_party_same,
}
use campus_os.Marketplace.Placing.{left_alone_delivered}
use campus_os.Marketplace.Earned.{earns, Earned, IsEarned, keeps_completed, moved-Earned}

pub IsEarned-orders :
    (s s' : Market)
    → s.reviews ≡ s'.reviews
    → All (Earned s'.orders) s.reviews
    → IsEarned s
    → IsEarned s'
IsEarned-orders s s' e a w = record { once = rw (← e) w.once; each = rw (← e) a }

notify_order_party-IsEarned :
    (ctx : Context) (order : ℕ) (s : Market)
    → IsEarned s
    → IsEarned (notify_order_party ctx order s)
notify_order_party-IsEarned ctx order s w =
    let (a, b, c) = notify_order_party_same ctx order s in
    record { once = rw c w.once; each = rw (a, c) w.each }

pub place_order-IsEarned :
    (ctx : Context) (fresh i : ℕ) (input : PlaceOrderInput) (s s' : Market)
    → IsEarned s
    → place_order ctx fresh input s ≡ ok (i, s')
    → IsEarned s'
unfolding place_order mkt_place_order
place_order-IsEarned ctx fresh i input s s' w e =
    elim (Option-cases (offer_of ctx.tenant_id input.gig_id input.package_id s)) [
      | inl missing ↦ ground arith
      | inr (f, there) ↦
          let added = new_order ctx fresh f input.payment_mode (trim input.requirements) ∷ [] in
          let t : Market = record s {
            orders = s.orders ++ added;
            events = s.events ++ opening_event ctx fresh (trim input.requirements) ∷ [];
          } in
          let same : notify_order_party ctx fresh t ≡ s' = ground (arith, there) in
          subst IsEarned same (
            notify_order_party-IsEarned ctx fresh t (record {
              once = w.once;
              each =
                  All-map (Earned s.orders) (Earned t.orders) s.reviews
                    (λ r k. record {
                      earned = ground (arith, any-append (earns r) s.orders added, k.earned);
                      least = k.least;
                      most = k.most;
                    })
                    w.each;
            }))
    ]

pub transition_order-IsEarned :
    (ctx : Context) (order : ℕ) (to : OrderStatus) (note : Text) (s : Market)
    → IsLogged s
    → IsEarned s
    → IsEarned (transition_order ctx order to note s).1
unfolding transition_order
transition_order-IsEarned ctx order to note s v w =
    outcome_cases (mkt_order_transition ctx order to note s).0
      (mkt_order_transition ctx order to note s).1 refl
  where
    refused :
        (out : TransitionOutcome) (t : Market)
        → mkt_order_transition ctx order to note s ≡ (out, t)
        → is_moved out ≡ false
        → IsEarned t
    refused out t e h = subst IsEarned (refused_same ctx order to note s t out e h) w

    outcome_cases :
        (out : TransitionOutcome) (t : Market)
        → mkt_order_transition ctx order to note s ≡ (out, t)
        → IsEarned (tell_moved ctx order (out, t)).1
    outcome_cases moved t e = notify_order_party-IsEarned ctx order t (
        moved-Earned ctx order to note s t v w (mkt_order_transition_facts ctx order to note s t e))
    outcome_cases not_found t e = refused not_found t e refl
    outcome_cases not_party t e = refused not_party t e refl
    outcome_cases illegal t e = refused illegal t e refl

pub mkt_order_autocomplete-IsEarned :
    (tenant now : ℕ) (days : Option ℕ) (s : Market)
    → IsEarned s
    → IsEarned (mkt_order_autocomplete tenant now days s).1
unfolding mkt_order_autocomplete
mkt_order_autocomplete-IsEarned tenant now days s w =
    let n = max (or_seven days) 1 in
    record {
      once = w.once;
      each =
          keeps_completed s (left_alone tenant now n) (finished now)
            (λ x i h.
              subst (λ a. same_status a completed ≡ false)
                (sym (left_alone_delivered tenant now n x h)) refl)
            w.each;
    }
