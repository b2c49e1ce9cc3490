-- ===== src/Rides.antt =====
-- packages/modules/rides: ride posts with a seat ledger, and requests for seats.
-- The state is the tables that the module reads and writes. Row-level security shows a ride to its
-- tenant, and a seat request to its passenger and to the author of its ride.
pub mod Seats
pub mod Posts
pub mod History
mod Samples
use campus_os.Common.{
  Text, ℕ, Bool, true, false, not, ◌&&◌, ◌||◌, Option, none, some, List, [], ◌∷◌, ◌==◌, any,
}
use campus_os.Tenancy.{Context, Membership, Block, NotifyArgs}

pub data RideKind : Type 0 where
  offer request : RideKind

pub data RideStatus : Type 0 where
  active full completed cancelled expired : RideStatus

pub record RidePost : Type 0 where
  pub id : ℕ
  pub tenant_id : ℕ
  pub author_id : ℕ
  pub kind : RideKind
  pub origin_text : Text
  pub dest_text : Text
  pub seats_total : Option ℕ
  pub seats_available : Option ℕ
  pub status : RideStatus
  pub cancelled_at : Option ℕ
  pub hidden_at : Option ℕ
  pub removed_at : Option ℕ
  pub removed_by : Option ℕ
  pub removal_reason : Option Text
  pub updated_at : ℕ

pub data RequestStatus : Type 0 where
  pending accepted declined cancelled : RequestStatus

pub record SeatRequest : Type 0 where
  pub id : ℕ
  pub tenant_id : ℕ
  pub ride_post_id : ℕ
  pub passenger_id : ℕ
  pub status : RequestStatus
  pub created_at : ℕ
  pub decided_at : Option ℕ

pub record Rides : Type 0 where
  pub posts : List RidePost
  pub requests : List SeatRequest
  pub members : List Membership
  pub blocks : List Block
  pub inbox : List NotifyArgs

abbrev pub is_offer : RideKind → Bool
is_offer offer = true
is_offer request = false

abbrev pub is_active : RideStatus → Bool
is_active active = true
is_active _ = false

abbrev pub is_full : RideStatus → Bool
is_full full = true
is_full _ = false

abbrev pub is_open : RideStatus → Bool
is_open s = is_active s || is_full s

abbrev pub is_pending : RequestStatus → Bool
is_pending pending = true
is_pending _ = false

abbrev pub is_accepted : RequestStatus → Bool
is_accepted accepted = true
is_accepted _ = false

abbrev pub is_live : RequestStatus → Bool
is_live s = is_pending s || is_accepted s

-- The policy `ride_seat_requests_participants`.
abbrev pub sees_request : Context → List RidePost → SeatRequest → Bool
sees_request ctx posts r =
    (r.tenant_id == ctx.tenant_id)
    && ((r.passenger_id == ctx.user_id)
        || any (λ p. (p.id == r.ride_post_id) && (p.author_id == ctx.user_id)) posts)
