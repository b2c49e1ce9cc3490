-- ===== src/Marketplace/History.antt =====
-- Histories of the orders: any order of the writes of packages/modules/marketplace/src/orders-write.ts,
-- one transaction at a time, by any people.
use campus_os.Common.{
  Text, ℕ, ◌≡◌, false, Option, List, [], map, ◌==◌, any, find, includes, In, arith, Option-cases,
  inl, inr, All_In,
}
use campus_os.Core.Result.{ok}
use campus_os.Tenancy.{Context, Membership, Profile}
use campus_os.Marketplace.{Gig, GigPackage, OrderStatus, Order, Market}
use campus_os.Marketplace.Orders.{PlaceOrderInput, place_order, party_order}
use campus_os.Marketplace.Transitions.{transition_order, mkt_order_autocomplete}
use campus_os.Marketplace.Reviews.{
  ReviewInput, write_review, DeliveryFileInput, add_order_delivery_file,
}
use campus_os.Marketplace.Logs.{OrderKept, IsLogged}
use campus_os.Marketplace.Moving.{transition_order-IsLogged}
use campus_os.Marketplace.Placing.{place_order-IsLogged, mkt_order_autocomplete-IsLogged}
use campus_os.Marketplace.Earned.{IsEarned, write_review-IsEarned}
use campus_os.Marketplace.Earning.{
  IsEarned-orders, place_order-IsEarned, transition_order-IsEarned, mkt_order_autocomplete-IsEarned,
}

-- One transaction. The ids of new rows are fresh; members, profiles and what is offered may change
-- between two transactions.
pub data Move (ctx : Context) : Market → Market → Type 0 where
  places :
      (fresh i : ℕ) (input : PlaceOrderInput) (s s' : Market)
      → includes (map (λ o. o.id) s.orders) fresh ≡ false
      → any (λ e. e.order_id == fresh) s.events ≡ false
      → place_order ctx fresh input s ≡ ok (i, s')
      → Move ctx s s'
  transits :
      (order : ℕ) (to : OrderStatus) (note : Text) (s : Market)
      → Move ctx s (transition_order ctx order to note s).1
  delivers :
      (fresh order i : ℕ) (file : DeliveryFileInput) (s s' : Market)
      → add_order_delivery_file ctx fresh order file s ≡ ok (i, s')
      → Move ctx s s'
  reviews :
      (fresh order i : ℕ) (input : ReviewInput) (s s' : Market)
      → write_review ctx fresh order input s ≡ ok (i, s')
      → Move ctx s s'
  sweeps :
      (tenant : ℕ) (days : Option ℕ) (s : Market)
      → Move ctx s (mkt_order_autocomplete tenant ctx.now days s).1
  regroups :
      (s : Market) (gigs : List Gig) (packages : List GigPackage) (members : List Membership)
      (profiles : List Profile)
      → Move ctx s
          (record s { gigs = gigs; packages = packages; members = members; profiles = profiles })

pub data Reach : Market → Market → Type 0 where
  start : (s : Market) → Reach s s
  then_move : (ctx : Context) (s t u : Market) → Reach s t → Move ctx t u → Reach s u

add_order_delivery_file_same :
    (ctx : Context) (fresh order i : ℕ) (file : DeliveryFileInput) (s s' : Market)
    → add_order_delivery_file ctx fresh order file s ≡ ok (i, s')
    → (s.orders ≡ s'.orders) × (s.events ≡ s'.events) × (s.reviews ≡ s'.reviews)
unfolding add_order_delivery_file
add_order_delivery_file_same ctx fresh order i file s s' e = ground arith

write_review_same :
    (ctx : Context) (fresh order i : ℕ) (input : ReviewInput) (s s' : Market)
    → write_review ctx fresh order input s ≡ ok (i, s')
    → (s.orders ≡ s'.orders) × (s.events ≡ s'.events)
unfolding write_review
write_review_same ctx fresh order i input s s' e =
    elim (Option-cases (find (party_order ctx order) s.orders)) [
      | inl missing ↦ ground arith
      | inr (o, there) ↦ ground arith
    ]

Move-IsLogged : (ctx : Context) (s s' : Market) → IsLogged s → Move ctx s s' → IsLogged s'
Move-IsLogged ctx _ _ v (Move.places fresh i input s s' new quiet e) =
    place_order-IsLogged ctx fresh i input s s' v new quiet e
Move-IsLogged ctx _ _ v (Move.transits order to note s) =
    transition_order-IsLogged ctx order to note s v
Move-IsLogged ctx _ _ v (Move.delivers fresh order i file s s' e) =
    let (a, b, c) = add_order_delivery_file_same ctx fresh order i file s s' e in
    record { ids = rw (← a) v.ids; kept = rw (← a, ← b) v.kept }
Move-IsLogged ctx _ _ v (Move.reviews fresh order i input s s' e) =
    let (a, b) = write_review_same ctx fresh order i input s s' e in
    record { ids = rw (← a) v.ids; kept = rw (← a, ← b) v.kept }
Move-IsLogged ctx _ _ v (Move.sweeps tenant days s) =
    mkt_order_autocomplete-IsLogged tenant ctx.now days s v
Move-IsLogged ctx _ _ v (Move.regroups s gigs packages members profiles) = record {
  ids = v.ids;
  kept = v.kept;
}

pub Reach-IsLogged : (s s' : Market) → IsLogged s → Reach s s' → IsLogged s'
Reach-IsLogged _ _ v (Reach.start s) = v
Reach-IsLogged _ _ v (Reach.then_move ctx s t u r m) =
    Move-IsLogged ctx t u (Reach-IsLogged s t v r) m

Move-IsEarned :
    (ctx : Context) (s s' : Market) → IsLogged s → IsEarned s → Move ctx s s' → IsEarned s'
Move-IsEarned ctx _ _ v w (Move.places fresh i input s s' new quiet e) =
    place_order-IsEarned ctx fresh i input s s' w e
Move-IsEarned ctx _ _ v w (Move.transits order to note s) =
    transition_order-IsEarned ctx order to note s v w
Move-IsEarned ctx _ _ v w (Move.delivers fresh order i file s s' e) =
    let (a, b, c) = add_order_delivery_file_same ctx fresh order i file s s' e in
    IsEarned-orders s s' c (rw (← a) w.each) w
Move-IsEarned ctx _ _ v w (Move.reviews fresh order i input s s' e) =
    write_review-IsEarned ctx fresh order i input s s' w e
Move-IsEarned ctx _ _ v w (Move.sweeps tenant days s) =
    mkt_order_autocomplete-IsEarned tenant ctx.now days s w
Move-IsEarned ctx _ _ v w (Move.regroups s gigs packages members profiles) = record {
  once = w.once;
  each = w.each;
}

pub Reach-IsEarned : (s s' : Market) → IsLogged s → IsEarned s → Reach s s' → IsEarned s'
Reach-IsEarned _ _ v w (Reach.start s) = w
Reach-IsEarned _ _ v w (Reach.then_move ctx s t u r m) =
    Move-IsEarned ctx t u (Reach-IsLogged s t v r) (Reach-IsEarned s t v w r) m

-- From tables without an order, after any history, the events of every order are an unbroken chain from
-- its placing to the status it has, it has used no more revisions than were agreed, and an order in cash
-- does not wait for a payment.
pub log_tells_status :
    (s t : Market) → s.orders ≡ [] → Reach s t → (o : Order) → In o t.orders → OrderKept t.events o
log_tells_status s t none_yet r o i =
    let v : IsLogged s = record { ids = rw none_yet tt; kept = rw none_yet tt } in
    All_In (OrderKept t.events) t.orders o (Reach-IsLogged s t v r).kept i

-- From tables without an order or a review, after any history, no order has two reviews, and each review
-- rates from 1 to 5 and stands on a completed order that its reviewer bought, of the gig and the seller
-- that it names.
pub reviews-IsEarned : (s t : Market) → s.orders ≡ [] → s.reviews ≡ [] → Reach s t → IsEarned t
reviews-IsEarned s t no_order no_review r =
    Reach-IsEarned s t (record { ids = rw no_order tt; kept = rw no_order tt })
      (record { once = rw no_review tt; each = rw no_review tt }) r
