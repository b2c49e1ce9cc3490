-- ===== src/Marketplace/Samples.antt =====
-- The orders at concrete states: person 1 buys the gig of person 2 in tenant 5, for cash, with one
-- revision.
use campus_os.Common.{ℕ, ◌*◌, ◌≤◌, ◌≡◌, refl, true, none, some, [], ◌∷◌, inl, arith}
use campus_os.Core.Result.{ok}
use campus_os.Tenancy.{Context, MembershipStatus, is_verified_member, notify_in_tx}
use campus_os.Marketplace.{
  GigStatus, PackageTier, Gig, GigPackage, PaymentMode, in_progress, delivered, completed,
  cancelled, Order, Market,
}
use campus_os.Marketplace.Orders.{
  PlaceOrderInput, place_order, mkt_place_order, offer_of, new_order, opening_event,
  notify_order_party, order_note,
}
use campus_os.Marketplace.Transitions.{moved, moved_order, mkt_order_transition, transition_order}
use campus_os.Marketplace.Reviews.{ReviewInput, new_review, write_review, review_admitted}
use campus_os.Marketplace.Reading.{
  order_by_id, order_files, order_file_for_download, reviews_for_gig, reviews_for_seller,
}
use campus_os.Marketplace.Logs.{OrderKept}
use campus_os.Marketplace.Earned.{IsEarned}
use campus_os.Marketplace.History.{Move, Reach, log_tells_status, reviews-IsEarned}
use campus_os.Marketplace.Ending.{MoveRequest, moves_made, moves_end, buyer_can_end}
use campus_os.Marketplace.Parties.{parties_only, ratings_bounds, policy_admits_any_gig}

abbrev pub buyer_at : ℕ → Context
buyer_at now = record { user_id = 1; tenant_id = 5; now = now }

abbrev pub seller_at : ℕ → Context
seller_at now = record { user_id = 2; tenant_id = 5; now = now }

abbrev pub bystander : Context
bystander = record { user_id = 3; tenant_id = 5; now = 500 }

abbrev pub logo : Gig
logo = record {
  id = 30;
  tenant_id = 5;
  seller_id = 2;
  title = b'l' ∷ [];
  description = [];
  category = [];
  edited_at = none;
  created_at = 1;
  status = GigStatus.active;
  deleted_at = none;
}

abbrev pub basic : GigPackage
basic = record {
  id = 40;
  tenant_id = 5;
  gig_id = 30;
  tier = PackageTier.basic;
  description = [];
  position = 0;
  created_at = 1;
  title = b'b' ∷ [];
  price_paisa = 50000;
  delivery_days = 3;
  revisions = 1;
}

abbrev pub empty : Market
empty = record {
  gigs = logo ∷ [];
  packages = basic ∷ [];
  gig_photos = [];
  orders = [];
  events = [];
  reviews = [];
  files = [];
  members =
      record {
        user_id = 1;
        tenant_id = 5;
        verified_at = some 1;
        status = MembershipStatus.active;
        standing_until = none;
      }
      ∷ [];
  profiles = [];
  inbox = [];
}

abbrev pub wanted : PlaceOrderInput
wanted = record { gig_id = 30; package_id = 40; payment_mode = PaymentMode.cash; requirements = [] }

abbrev pub placed_row : Order
placed_row =
    new_order (buyer_at 100) 10 (record { gig = logo; package_row = basic }) PaymentMode.cash []

abbrev pub placed : Market
placed = record empty {
  orders = placed_row ∷ [];
  events = opening_event (buyer_at 100) 10 [] ∷ [];
  inbox = order_note (buyer_at 100) placed_row ∷ [];
}

is_placed : place_order (buyer_at 100) 10 wanted empty ≡ ok (10, placed)
unfolding place_order mkt_place_order offer_of notify_order_party is_verified_member notify_in_tx
is_placed = refl

abbrev pub started : Market
unfolding transition_order
started = (transition_order (seller_at 200) 10 in_progress [] placed).1

abbrev pub handed_over : Market
unfolding transition_order
handed_over = (transition_order (seller_at 300) 10 delivered [] started).1

abbrev pub accepted : Market
unfolding transition_order
accepted = (transition_order (buyer_at 400) 10 completed [] handed_over).1

done : Reach empty accepted
unfolding transition_order started
done =
    Reach.then_move (buyer_at 400) empty handed_over accepted
      (Reach.then_move (seller_at 300) empty started handed_over
        (Reach.then_move (seller_at 200) empty placed started
          (Reach.then_move (buyer_at 100) empty empty placed (Reach.start empty)
            (Move.places 10 10 wanted empty placed refl refl is_placed))
          (Move.transits 10 in_progress [] placed))
        (Move.transits 10 delivered [] started))
      (Move.transits 10 completed [] handed_over)

abbrev pub done_row : Order
done_row =
    moved_order 400 completed []
      (moved_order 300 delivered [] (moved_order 200 in_progress [] placed_row))

log_tells_status_example : OrderKept accepted.events done_row
unfolding transition_order mkt_order_transition notify_order_party notify_in_tx
log_tells_status_example = log_tells_status empty accepted refl done done_row (inl refl)

abbrev pub praise : ReviewInput
praise = record { rating = 5; body = [] }

abbrev pub praised : Market
unfolding transition_order mkt_order_transition notify_order_party notify_in_tx
praised = record accepted { reviews = new_review (buyer_at 450) 60 done_row praise ∷ [] }

is_praised : write_review (buyer_at 450) 60 10 praise accepted ≡ ok (60, praised)
unfolding write_review transition_order mkt_order_transition notify_order_party notify_in_tx
is_praised = refl

reviewed : Reach empty praised
reviewed =
    Reach.then_move (buyer_at 450) empty accepted praised done
      (Move.reviews 60 10 60 praise accepted praised is_praised)

reviews-IsEarned_example : IsEarned praised
reviews-IsEarned_example = reviews-IsEarned empty praised refl refl reviewed

ratings_bounds_example :
    ((reviews_for_gig 5 30 praised).count ≤ (reviews_for_gig 5 30 praised).sum)
    × ((reviews_for_gig 5 30 praised).sum ≤ 5 * (reviews_for_gig 5 30 praised).count)
    × ((reviews_for_seller 5 30 praised).count ≤ (reviews_for_seller 5 30 praised).sum)
    × ((reviews_for_seller 5 30 praised).sum ≤ 5 * (reviews_for_seller 5 30 praised).count)
ratings_bounds_example = ratings_bounds empty praised refl refl reviewed 5 30

policy_admits_any_gig_example :
    review_admitted
      (buyer_at 450)
      accepted.orders
      (record (new_review (buyer_at 450) 60 done_row praise) { gig_id = 31; seller_id = 9 })
    ≡ true
unfolding transition_order mkt_order_transition notify_order_party notify_in_tx
policy_admits_any_gig_example =
    policy_admits_any_gig (buyer_at 450) 60 10 60 praise accepted praised done_row refl is_praised
      31 9

abbrev pub asks_start : MoveRequest
asks_start = record { person = 2; now = 200; to = in_progress; note = [] }

abbrev pub asks_delivery : MoveRequest
asks_delivery = record { person = 2; now = 300; to = delivered; note = [] }

abbrev pub asks_revision : MoveRequest
asks_revision = record { person = 1; now = 350; to = in_progress; note = [] }

moves_end_example :
    moves_made 5 10
      (asks_start ∷ asks_delivery ∷ asks_revision ∷ asks_delivery ∷ asks_revision ∷ [])
      placed
    ≤ 7
moves_end_example =
    moves_end 5 10 (asks_start ∷ asks_delivery ∷ asks_revision ∷ asks_delivery ∷ asks_revision ∷ [])
      placed placed_row refl

buyer_can_end_example :
    ((transition_order (buyer_at 150) 10 cancelled [] placed).0 ≡ moved)
    × (moves_made 5 10 (asks_start ∷ []) (transition_order (buyer_at 150) 10 cancelled [] placed).1
        ≡ 0)
buyer_can_end_example =
    buyer_can_end (buyer_at 150) 10 [] placed placed_row (asks_start ∷ []) refl refl (omega arith)

parties_only_example :
    (order_by_id bystander 10 placed ≡ none)
    × (order_files bystander 10 placed ≡ [])
    × (order_file_for_download bystander 10 70 placed ≡ none)
parties_only_example = parties_only bystander 10 placed refl 70
