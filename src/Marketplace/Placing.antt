-- ===== src/Marketplace/Placing.antt =====
-- placeOrder of packages/modules/marketplace/src/orders-write.ts, the completion of orders left alone,
-- and any sequence of them and of the moves.
use campus_os.Common.{
  Text, trim, ℕ, ◌≡◌, refl, ap, ◌∙◌, subst, Bool, true, false, ◌&&◌, Option, none, some, [], ◌∷◌,
  ◌++◌, map, max, ◌==◌, if◌then◌else◌, any, filter, includes, arith, Option-cases, inl, inr, All_In,
  All-append, All-map_In, All-update_where-In, map-update_where, Distinct-snoc, key_absent,
}
use campus_os.Core.Result.{ok}
use campus_os.Tenancy.{Context}
use campus_os.Marketplace.{PaymentMode, OrderStatus, delivered, completed, Order, Market}
use campus_os.Marketplace.Orders.{
  Offer, offer_of, new_order, opening_event, mkt_place_order, PlaceOrderInput, place_order,
  notify_order_party,
}
use campus_os.Marketplace.Transitions.{
  is_delivered, or_seven, left_alone, finished, finish_event, mkt_order_autocomplete,
}
use campus_os.Marketplace.Logs.{
  log_end-append, log_end-absent, OrderKept, IsLogged, finishes_lem, is_cash,
}
use campus_os.Marketplace.Moving.{IsLogged-notify}

and_false : (b : Bool) → (b && false) ≡ false
and_false true = refl
and_false false = refl

module _ (ctx : Context) (fresh : ℕ) (f : Offer) (mode : PaymentMode) (text : Text) (s : Market)
    (v : IsLogged s) (new : includes (map (λ o. o.id) s.orders) fresh ≡ false)
    (quiet : any (λ e. e.order_id == fresh) s.events ≡ false) where
  placed-IsLogged : IsLogged (record s {
    orders = s.orders ++ new_order ctx fresh f mode text ∷ [];
    events = s.events ++ opening_event ctx fresh text ∷ [];
  })
  placed-IsLogged =
      let es = s.events ++ opening_event ctx fresh text ∷ [] in
      record {
        ids = Distinct-snoc (λ o. o.id) s.orders (new_order ctx fresh f mode text) v.ids new;
        kept =
            All-append (OrderKept es) s.orders (new_order ctx fresh f mode text ∷ [])
              (All-map_In (OrderKept s.events) (OrderKept es) s.orders
                (λ x i k. record {
                  logged =
                      log_end-append x.id none s.events (opening_event ctx fresh text ∷ [])
                        (some x.status) k.logged
                      ∙ ground (arith, key_absent (λ o. o.id) s.orders x fresh new i);
                  fits = k.fits;
                  unpaid = k.unpaid;
                })
                v.kept)
              (
                record {
                  logged =
                      log_end-append fresh none s.events (opening_event ctx fresh text ∷ []) none
                        (log_end-absent fresh none s.events quiet)
                      ∙ ground arith;
                  fits = omega arith;
                  unpaid = ground (arith, and_false (is_cash mode));
                },
                tt,
              );
      }

-- Placing an order under a fresh id leaves every order as its log tells it.
pub place_order-IsLogged :
    (ctx : Context) (fresh i : ℕ) (input : PlaceOrderInput) (s s' : Market)
    → IsLogged s
    → includes (map (λ o. o.id) s.orders) fresh ≡ false
    → any (λ e. e.order_id == fresh) s.events ≡ false
    → place_order ctx fresh input s ≡ ok (i, s')
    → IsLogged s'
unfolding place_order mkt_place_order
place_order-IsLogged ctx fresh i input s s' v new quiet e =
    elim (Option-cases (offer_of ctx.tenant_id input.gig_id input.package_id s)) [
      | inl missing ↦ ground arith
      | inr (f, there) ↦
          let t : Market = record s {
            orders =
                s.orders ++ new_order ctx fresh f input.payment_mode (trim input.requirements) ∷ [];
            events = s.events ++ opening_event ctx fresh (trim input.requirements) ∷ [];
          } in
          let same : notify_order_party ctx fresh t ≡ s' = ground (arith, there) in
          subst IsLogged same (
            IsLogged-notify ctx fresh t (
              placed-IsLogged ctx fresh f input.payment_mode (trim input.requirements) s v new
                quiet))
    ]

pub left_alone_delivered :
    (tenant now days : ℕ) (o : Order) → left_alone tenant now days o ≡ true → o.status ≡ delivered
left_alone_delivered tenant now days o h = delivered_of o.status (ground (arith, h))
  where
    delivered_of : (a : OrderStatus) → is_delivered a ≡ true → a ≡ delivered
    delivered_of a e = ground arith

-- Completing the orders that were left alone leaves every order as its log tells it.
pub mkt_order_autocomplete-IsLogged :
    (tenant now : ℕ) (days : Option ℕ) (s : Market)
    → IsLogged s
    → IsLogged (mkt_order_autocomplete tenant now days s).1
unfolding mkt_order_autocomplete
mkt_order_autocomplete-IsLogged tenant now days s v =
    let done = left_alone tenant now (max (or_seven days) 1) in
    let more = map (finish_event tenant now) (filter done s.orders) in
    record {
      ids =
          rw (map-update_where (λ (o : Order). o.id) done (finished now) s.orders (λ o. refl))
            v.ids;
      kept =
          All-update_where-In (OrderKept (s.events ++ more)) done (finished now) s.orders
            (λ x i h. record {
              logged =
                  log_end-append x.id none s.events more (some x.status)
                    (All_In (OrderKept s.events) s.orders x v.kept i).logged
                  ∙ finishes_lem tenant now done s.orders x x.status v.ids i
                      (left_alone_delivered tenant now (max (or_seven days) 1) x)
                  ∙ ap (λ b. some (some (if b then completed else x.status))) h;
              fits = (All_In (OrderKept s.events) s.orders x v.kept i).fits;
              unpaid = ground (arith, and_false (is_cash x.payment_mode));
            })
            (λ x i h. record {
              logged =
                  log_end-append x.id none s.events more (some x.status)
                    (All_In (OrderKept s.events) s.orders x v.kept i).logged
                  ∙ finishes_lem tenant now done s.orders x x.status v.ids i
                      (left_alone_delivered tenant now (max (or_seven days) 1) x)
                  ∙ ap (λ b. some (some (if b then completed else x.status))) h;
              fits = (All_In (OrderKept s.events) s.orders x v.kept i).fits;
              unpaid = (All_In (OrderKept s.events) s.orders x v.kept i).unpaid;
            });
    }
