-- ===== src/Rides/Samples.antt =====
-- The rides at concrete states: one offer of driver 1 with two seats, and its riders.
use campus_os.Common.{
  Text, ℕ, ◌+◌, ◌≤◌, ◌≡◌, refl, true, false, none, some, List, [], ◌∷◌, any, find, count, In, inl,
  ◌==◌, arith,
}
use campus_os.Core.Result.{ok}
use campus_os.Tenancy.{Context, NotifyArgs, Kind, seat_accepted, blocked_between, notify_in_tx}
use campus_os.Rides.{RidePost, RideKind, RideStatus, SeatRequest, RequestStatus, Rides, is_full}
use campus_os.Rides.Seats.{
  Joined, ride_of, take_seat, return_seat, decide, joined_request, accept_request,
  cancel_seat_request,
}
use campus_os.Rides.Seats.Ledger.{on_ride, IsSeated}
use campus_os.Rides.Seats.Taking.{accept_request_takes}
use campus_os.Rides.Posts.{cancel_ride}
use campus_os.Rides.Posts.Closing.{live_in_tenant, told, cancel_ride_closes}
use campus_os.Rides.History.{Move, Reach, never_overbooked}

abbrev driver : Context
driver = record { user_id = 1; tenant_id = 5; now = 100 }

abbrev rider : Context
rider = record { user_id = 2; tenant_id = 5; now = 110 }

abbrev offer_post : RidePost
offer_post = record {
  id = 10;
  tenant_id = 5;
  author_id = 1;
  kind = RideKind.offer;
  origin_text = b'A' ∷ [];
  dest_text = b'B' ∷ [];
  seats_total = some 2;
  seats_available = some 2;
  status = RideStatus.active;
  cancelled_at = none;
  hidden_at = none;
  removed_at = none;
  removed_by = none;
  removal_reason = none;
  updated_at = 0;
}

abbrev asked : SeatRequest
asked = record {
  id = 20;
  tenant_id = 5;
  ride_post_id = 10;
  passenger_id = 2;
  status = RequestStatus.pending;
  created_at = 90;
  decided_at = none;
}

abbrev waiting : Rides
waiting = record {
  posts = offer_post ∷ [];
  requests = asked ∷ [];
  members = [];
  blocks = [];
  inbox = [];
}

waiting-IsSeated : IsSeated waiting
waiting-IsSeated = record {
  post_ids = (refl, tt);
  request_ids = (refl, tt);
  fits = (omega arith, tt);
  coherent = ((refl, refl), tt);
}

abbrev notice : Kind → ℕ → ℕ → List Text → NotifyArgs
notice kind actor user payload = record {
  user_id = user;
  kind = kind;
  payload = payload;
  link = 10;
  actor_id = actor;
}

abbrev seated : Rides
seated = record waiting {
  posts = take_seat 100 offer_post ∷ [];
  requests = decide RequestStatus.accepted 100 asked ∷ [];
  inbox = notice seat_accepted 1 2 ((b'A' ∷ []) ∷ (b'B' ∷ []) ∷ []) ∷ [];
}

accepted : accept_request driver 20 waiting ≡ ok (1, seated)
unfolding accept_request joined_request blocked_between notify_in_tx
accepted = refl

abbrev pair : Joined
pair = record { request = asked; ride = offer_post }

pair_joined : joined_request driver 20 waiting ≡ some pair
unfolding joined_request
pair_joined = refl

not_blocked : blocked_between waiting.blocks driver 2 ≡ false
unfolding blocked_between
not_blocked = refl

accept_request_takes_example :
    (n : ℕ) × (s' : Rides) × (p : RidePost) × (accept_request driver 20 waiting ≡ ok (n, s'))
    × (find (ride_of 5 10) s'.posts ≡ some p)
    × (p.seats_available ≡ some n)
    × (is_full p.status ≡ (n == 0))
    × (n + 1 ≡ 2)
    × (count (on_ride 10) s'.requests ≡ count (on_ride 10) waiting.requests + 1)
accept_request_takes_example =
    accept_request_takes driver 20 waiting pair waiting-IsSeated pair_joined refl refl not_blocked
      refl

abbrev gave_up : Rides
gave_up = record seated {
  posts = return_seat 110 (take_seat 100 offer_post) ∷ [];
  requests = decide RequestStatus.cancelled 110 (decide RequestStatus.accepted 100 asked) ∷ [];
}

cancelled_seat : cancel_seat_request rider 20 seated ≡ ok gave_up
unfolding cancel_seat_request
cancelled_seat = refl

called_off : (cancel_ride driver 10 waiting).0 ≡ true
unfolding cancel_ride
called_off = refl

cancel_ride_closes_example :
    (any (live_in_tenant driver 10) (cancel_ride driver 10 waiting).1.requests ≡ false)
    × ((r : SeatRequest)
        → In r waiting.requests
        → live_in_tenant driver 10 r ≡ true
        → (1 == r.passenger_id) ≡ false
        → In (told driver 10 r.passenger_id) (cancel_ride driver 10 waiting).1.inbox)
cancel_ride_closes_example = cancel_ride_closes driver 10 waiting called_off

never_overbooked_example : 1 + 1 ≤ 2
never_overbooked_example =
    never_overbooked waiting seated (take_seat 100 offer_post) waiting-IsSeated
      (Reach.then_move waiting waiting seated (Reach.start waiting)
        (Move.accepts driver 20 1 waiting seated accepted))
      (inl refl)
