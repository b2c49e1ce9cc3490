-- ===== src/Rides/Seats.antt =====
-- packages/modules/rides/src/seats.ts: asking for a seat, and the driver's decision.
pub mod Ledger
pub mod Accepting
pub mod Taking
pub mod Cancelling
use campus_os.Common.{
  ℕ, ◌+◌, ◌-◌, min, Bool, true, false, not, ◌&&◌, ◌||◌, Option, none, some, List, [], ◌∷◌, ◌++◌,
  ltb, leb, ◌==◌, if◌then◌else◌, any, find, update_where,
}
use campus_os.Core.Result.{Result, ok, err, ◌>>=◌, ◌>>◌, require, found}
use campus_os.Tenancy.{
  Context, is_verified_member, blocked_between, NotifyArgs, Kind, seat_requested, seat_accepted,
  seat_declined, notify_in_tx,
}
use campus_os.Rides.{
  RidePost, RideStatus, SeatRequest, RequestStatus, Rides, is_offer, is_active, is_open, is_full,
  is_pending, is_accepted, is_live, sees_request,
}

pub data SeatRequestRefusal : Type 0 where
  not_verified not_found not_available own_ride blocked exists : SeatRequestRefusal
  not_pending not_cancellable : SeatRequestRefusal

abbrev pub seats_or_zero : Option ℕ → ℕ
seats_or_zero none = 0
seats_or_zero (some n) = n

abbrev pub ride_of : ℕ → ℕ → RidePost → Bool
ride_of tenant ride p = (p.id == ride) && (p.tenant_id == tenant)

-- A live request of the acting passenger on the ride, among the rows they see.
abbrev pub has_live_request : Context → List RidePost → ℕ → SeatRequest → Bool
has_live_request ctx posts ride r =
    (r.ride_post_id == ride)
    && ((r.passenger_id == ctx.user_id) && (is_live r.status && sees_request ctx posts r))

abbrev pub new_request : Context → ℕ → ℕ → SeatRequest
new_request ctx fresh ride = record {
  id = fresh;
  tenant_id = ctx.tenant_id;
  ride_post_id = ride;
  passenger_id = ctx.user_id;
  status = RequestStatus.pending;
  created_at = ctx.now;
  decided_at = none;
}

unfoldable pub request_seat : Context → ℕ → ℕ → Rides → Result (ℕ × Rides) SeatRequestRefusal
request_seat ctx fresh ride_id s = do
  require (is_verified_member s.members ctx.now ctx.user_id ctx.tenant_id) not_verified
  ride ← found (find (ride_of ctx.tenant_id ride_id) s.posts) not_found
  require (is_offer ride.kind) not_found
  require (not (ride.author_id == ctx.user_id)) own_ride
  require (is_active ride.status && ltb 0 (seats_or_zero ride.seats_available)) not_available
  require (not (blocked_between s.blocks ctx ride.author_id)) blocked
  require (not (any (has_live_request ctx s.posts ride_id) s.requests)) exists
  ok (
    fresh,
    record s {
      requests = s.requests ++ new_request ctx fresh ride_id ∷ [];
      inbox =
          notify_in_tx
            (record {
              user_id = ride.author_id;
              kind = seat_requested;
              payload = ride.origin_text ∷ ride.dest_text ∷ [];
              link = ride_id;
              actor_id = ctx.user_id;
            })
            s.inbox;
    },
  )

-- The row of the join of a request and its ride.
pub record Joined : Type 0 where
  pub request : SeatRequest
  pub ride : RidePost

-- A request by id, as the acting user sees it, joined to its ride.
unfoldable pub joined_request : Context → ℕ → Rides → Option Joined
joined_request ctx request_id s =
    elim (find
      (λ r. (r.id == request_id) && ((r.tenant_id == ctx.tenant_id) && sees_request ctx s.posts r))
      s.requests) [
        | none ↦ none
        | some r ↦ elim (find (ride_of ctx.tenant_id r.ride_post_id) s.posts) [
          | none ↦ none
          | some p ↦ some (record { request = r; ride = p })
        ]
      ]

abbrev pub has_seat : Option ℕ → Bool
has_seat n = ltb 0 (seats_or_zero n)

-- The rows that the atomic decrement meets, and what it does to them.
abbrev pub decrements : Context → ℕ → RidePost → Bool
decrements ctx ride p =
    (p.tenant_id == ctx.tenant_id)
    && ((p.id == ride)
        && ((p.author_id == ctx.user_id) && (is_open p.status && has_seat p.seats_available)))

abbrev pub take_seat : ℕ → RidePost → RidePost
take_seat now p = record p {
  seats_available = some (seats_or_zero p.seats_available - 1);
  status = if leb (seats_or_zero p.seats_available - 1) 0 then RideStatus.full else p.status;
  updated_at = now;
}

abbrev pub decide : RequestStatus → ℕ → SeatRequest → SeatRequest
decide status now r = record r { status = status; decided_at = some now }

abbrev pub pending_by_id : Context → List RidePost → ℕ → SeatRequest → Bool
pending_by_id ctx posts request_id r =
    (r.id == request_id) && (is_pending r.status && sees_request ctx posts r)

unfoldable pub accept_request : Context → ℕ → Rides → Result (ℕ × Rides) SeatRequestRefusal
accept_request ctx request_id s = do
  req ← found (joined_request ctx request_id s) not_found
  require (req.ride.author_id == ctx.user_id) not_found
  require (is_pending req.request.status) not_pending
  require (not (blocked_between s.blocks ctx req.request.passenger_id)) blocked
  dec ← found (find (decrements ctx req.ride.id) s.posts) not_available
  ok (
    seats_or_zero dec.seats_available - 1,
    record s {
      posts = update_where (decrements ctx req.ride.id) (take_seat ctx.now) s.posts;
      requests =
          update_where (pending_by_id ctx s.posts request_id)
            (decide RequestStatus.accepted ctx.now) s.requests;
      inbox =
          notify_in_tx
            (record {
              user_id = req.request.passenger_id;
              kind = seat_accepted;
              payload = req.ride.origin_text ∷ req.ride.dest_text ∷ [];
              link = req.ride.id;
              actor_id = ctx.user_id;
            })
            s.inbox;
    },
  )

-- The rows that a decline meets: pending, and on a ride of the acting driver.
abbrev pub declines : Context → List RidePost → ℕ → SeatRequest → Bool
declines ctx posts request_id r =
    (r.id == request_id)
    && ((r.tenant_id == ctx.tenant_id)
        && (is_pending r.status
            && (any
                  (λ p.
                    (p.tenant_id == ctx.tenant_id)
                    && ((p.id == r.ride_post_id) && (p.author_id == ctx.user_id)))
                  posts
                && sees_request ctx posts r)))

-- The flag is `changed`.
unfoldable pub decline_request : Context → ℕ → Rides → Bool × Rides
decline_request ctx request_id s = elim (find (declines ctx s.posts request_id) s.requests) [
  | none ↦ (false, s)
  | some r ↦ (
    true,
    record s {
      requests =
          update_where (declines ctx s.posts request_id) (decide RequestStatus.declined ctx.now)
            s.requests;
      inbox =
          notify_in_tx
            (record {
              user_id = r.passenger_id;
              kind = seat_declined;
              payload = [];
              link = r.ride_post_id;
              actor_id = ctx.user_id;
            })
            s.inbox;
    },
  )
]

abbrev pub own_request : Context → ℕ → SeatRequest → Bool
own_request ctx request_id r =
    (r.id == request_id) && ((r.tenant_id == ctx.tenant_id) && (r.passenger_id == ctx.user_id))

abbrev pub cancels : Context → ℕ → SeatRequest → Bool
cancels ctx request_id r =
    (r.id == request_id)
    && ((r.tenant_id == ctx.tenant_id) && ((r.passenger_id == ctx.user_id) && is_live r.status))

-- `least(coalesce(seats_available, 0) + 1, seats_total)`, where `least` passes over a null.
abbrev pub returned_seats : Option ℕ → Option ℕ → ℕ
returned_seats available none = seats_or_zero available + 1
returned_seats available (some total) = min (seats_or_zero available + 1) total

abbrev pub return_seat : ℕ → RidePost → RidePost
return_seat now p = record p {
  seats_available = some (returned_seats p.seats_available p.seats_total);
  status = if is_full p.status then RideStatus.active else p.status;
  updated_at = now;
}

-- The rides after a cancel: an accepted request returns its seat.
abbrev pub seats_returned : Context → SeatRequest → List RidePost → List RidePost
seats_returned ctx r posts =
    if is_accepted r.status
    then update_where (ride_of ctx.tenant_id r.ride_post_id) (return_seat ctx.now) posts
    else posts

unfoldable pub cancel_seat_request : Context → ℕ → Rides → Result Rides SeatRequestRefusal
cancel_seat_request ctx request_id s = do
  req ← found (find (own_request ctx request_id) s.requests) not_found
  require (is_live req.status) not_cancellable
  ok (record s {
    requests =
        update_where (cancels ctx request_id) (decide RequestStatus.cancelled ctx.now) s.requests;
    posts = seats_returned ctx req s.posts;
  })
