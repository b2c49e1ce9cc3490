-- ===== src/Marketplace/Earned.antt =====
-- Reviews stand on completed orders: writeReview of packages/modules/marketplace/src/orders-write.ts,
-- and what the moves of the orders leave of it.
use campus_os.Common.{
  any-update_In, Text, ℕ, ◌≤◌, ◌≡◌, refl, sym, subst, Bool, true, false, ◌&&◌, List, [], ◌∷◌, ◌++◌,
  map, ltb, ◌==◌, ==_refl, any, any-In, find, includes, update_where, All, In, Distinct, arith,
  Option-cases, inl, inr, find-In, find_holds, All-append, All-map, Distinct-snoc, row_unique,
}
use campus_os.Core.Result.{ok}
use campus_os.Tenancy.{Context}
use campus_os.Marketplace.{OrderStatus, completed, Order, Review, Market}
use campus_os.Marketplace.Orders.{party_order}
use campus_os.Marketplace.Transitions.{edge, same_status, moved_order, tenant_order}
use campus_os.Marketplace.Reviews.{ReviewInput, new_review, write_review}
use campus_os.Marketplace.Logs.{IsLogged}
use campus_os.Marketplace.Moving.{MovedOrder}

-- The order that a review is about: its reviewer bought it, and it is completed.
abbrev pub earns : Review → Order → Bool
earns r o =
    (o.id == r.order_id)
    && ((o.tenant_id == r.tenant_id)
        && ((o.buyer_id == r.reviewer_id)
            && ((o.gig_id == r.gig_id)
                && ((o.seller_id == r.seller_id) && same_status o.status completed))))

pub record Earned (orders : List Order) (r : Review) : Type 0 where
  pub earned : any (earns r) orders ≡ true
  pub least : 1 ≤ r.rating
  pub most : r.rating ≤ 5

-- At most one review of each order, each of one that earned it.
pub record IsEarned (s : Market) : Type 0 where
  pub once : Distinct (map (λ r. r.order_id) s.reviews)
  pub each : All (Earned s.orders) s.reviews

reviewed_absent :
    (rs : List Review) (k : ℕ)
    → any (λ r. r.order_id == k) rs ≡ false
    → includes (map (λ r. r.order_id) rs) k ≡ false
reviewed_absent [] k h = refl
reviewed_absent (r ∷ rs) k h = ground (arith, reviewed_absent rs k)

-- An update of the orders under which the completed ones stay as they are.
pub keeps_completed :
    (s : Market) (p : Order → Bool) (f : Order → Order)
    → ((x : Order) → In x s.orders → p x ≡ true → same_status x.status completed ≡ false)
    → All (Earned s.orders) s.reviews
    → All (Earned (update_where p f s.orders)) s.reviews
keeps_completed s p f h a =
    All-map (Earned s.orders) (Earned (update_where p f s.orders)) s.reviews
      (λ r k. record {
        earned = any-update_In (earns r) p f s.orders (λ x i t e. ground (arith, h x i t)) k.earned;
        least = k.least;
        most = k.most;
      })
      a

pub moved-Earned :
    (ctx : Context) (order : ℕ) (to : OrderStatus) (note : Text) (s t : Market)
    → IsLogged s
    → IsEarned s
    → MovedOrder ctx order to note s t
    → IsEarned t
moved-Earned ctx order to note s t v w m =
    let listed = find-In (tenant_order ctx.tenant_id order) s.orders m.there in
    rw m.result (record {
      once = w.once;
      each =
          keeps_completed s (λ x. x.id == order) (moved_order ctx.now to note)
            (λ x i h.
              let row : x ≡ m.row =
                row_unique (λ o. o.id) s.orders x m.row v.ids i listed
                  (ground
                    (arith, find_holds (tenant_order ctx.tenant_id order) s.orders m.there)) in
              subst (λ y. same_status y.status completed ≡ false) (sym row)
                (no_edge m.row.status m.allowed))
            w.each;
    })
  where
    no_edge :
        (a : OrderStatus)
        → edge a to m.role m.row.payment_mode (ltb m.row.revisions_used m.row.revisions_allowed)
          ≡ true
        → same_status a completed ≡ false
    no_edge a e = ground arith

-- A review that writeReview takes is the only one of its order, and is earned by it.
pub write_review-IsEarned :
    (ctx : Context) (fresh order i : ℕ) (input : ReviewInput) (s t : Market)
    → IsEarned s
    → write_review ctx fresh order input s ≡ ok (i, t)
    → IsEarned t
unfolding write_review
write_review-IsEarned ctx fresh order i input s t w e =
    elim (Option-cases (find (party_order ctx order) s.orders)) [
      | inl missing ↦ ground arith
      | inr (o, there) ↦
          let held = find_holds (party_order ctx order) s.orders there in
          let same : record s { reviews = s.reviews ++ new_review ctx fresh o input ∷ [] } ≡ t =
            ground arith in
          let new : any (λ r. r.order_id == order) s.reviews ≡ false = ground arith in
          let mine : (o.buyer_id == ctx.user_id) ≡ true = ground arith in
          let done : same_status o.status completed ≡ true = ground arith in
          let its : o.id ≡ order = ground arith in
          subst IsEarned same (record {
            once =
                Distinct-snoc (λ r. r.order_id) s.reviews (new_review ctx fresh o input) w.once
                  (rw its (reviewed_absent s.reviews order new));
            each =
                All-append (Earned s.orders) s.reviews (new_review ctx fresh o input ∷ []) w.each (
                  record {
                    earned =
                        any-In (earns (new_review ctx fresh o input)) s.orders o
                          (find-In (party_order ctx order) s.orders there)
                          (ground (
                            arith,
                            held,
                            mine,
                            done,
                            ==_refl o.id,
                            ==_refl o.gig_id,
                            ==_refl o.seller_id,
                          ));
                    least = ground arith;
                    most = ground arith;
                  },
                  tt,
                );
          })
    ]
