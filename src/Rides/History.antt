-- ===== src/Rides/History.antt =====
-- Histories of the rides: any order of requests, decisions and cancellations, one transaction at a
-- time, by any people of any tenant.
use campus_os.Common.{ℕ, ◌+◌, ◌≤◌, ◌≡◌, false, List, map, includes, count, In, All_In}
use campus_os.Core.Result.{ok}
use campus_os.Tenancy.{Context, Membership, Block}
use campus_os.Rides.{RidePost, Rides}
use campus_os.Rides.Seats.{
  seats_or_zero, request_seat, accept_request, decline_request, cancel_seat_request,
}
use campus_os.Rides.Seats.Ledger.{on_ride, Fits, IsSeated, request_seat-IsSeated}
use campus_os.Rides.Seats.Accepting.{accept_request-IsSeated}
use campus_os.Rides.Seats.Cancelling.{decline_request-IsSeated, cancel_seat_request-IsSeated}
use campus_os.Rides.Posts.{cancel_ride}
use campus_os.Rides.Posts.Closing.{cancel_ride-IsSeated}

-- One transaction that commits. The id of a new request is fresh; members and blocks may change
-- between two transactions.
pub data Move : Rides → Rides → Type 0 where
  asks :
      (ctx : Context) (fresh ride i : ℕ) (s s' : Rides)
      → includes (map (λ r. r.id) s.requests) fresh ≡ false
      → request_seat ctx fresh ride s ≡ ok (i, s')
      → Move s s'
  accepts :
      (ctx : Context) (q n : ℕ) (s s' : Rides) → accept_request ctx q s ≡ ok (n, s') → Move s s'
  declines : (ctx : Context) (q : ℕ) (s : Rides) → Move s (decline_request ctx q s).1
  cancels : (ctx : Context) (q : ℕ) (s s' : Rides) → cancel_seat_request ctx q s ≡ ok s' → Move s s'
  calls_off : (ctx : Context) (ride : ℕ) (s : Rides) → Move s (cancel_ride ctx ride s).1
  regroups :
      (s : Rides) (members : List Membership) (blocks : List Block)
      → Move s (record s { members = members; blocks = blocks })

pub data Reach : Rides → Rides → Type 0 where
  start : (s : Rides) → Reach s s
  then_move : (s t u : Rides) → Reach s t → Move t u → Reach s u

pub Move-IsSeated : (s s' : Rides) → IsSeated s → Move s s' → IsSeated s'
Move-IsSeated _ _ v (asks ctx fresh ride i s s' new e) =
    request_seat-IsSeated ctx fresh ride i s s' v new e
Move-IsSeated _ _ v (accepts ctx q n s s' e) = accept_request-IsSeated ctx q n s s' v e
Move-IsSeated _ _ v (declines ctx q s) = decline_request-IsSeated ctx q s v
Move-IsSeated _ _ v (cancels ctx q s s' e) = cancel_seat_request-IsSeated ctx q s s' v e
Move-IsSeated _ _ v (calls_off ctx ride s) = cancel_ride-IsSeated ctx ride s v
Move-IsSeated _ _ v (regroups s members blocks) = record {
  post_ids = v.post_ids;
  request_ids = v.request_ids;
  fits = v.fits;
  coherent = v.coherent;
}

Reach-IsSeated : (s s' : Rides) → IsSeated s → Reach s s' → IsSeated s'
Reach-IsSeated _ _ v (start s) = v
Reach-IsSeated _ _ v (then_move s t u r m) = Move-IsSeated t u (Reach-IsSeated s t v r) m

-- No ride is ever overbooked: however the history goes on from a well-formed state, the accepted
-- passengers of every ride and its free seats fit into the seats of the ride.
pub never_overbooked :
    (s s' : Rides) (p : RidePost)
    → IsSeated s
    → Reach s s'
    → In p s'.posts
    → seats_or_zero p.seats_available + count (on_ride p.id) s'.requests
      ≤ seats_or_zero p.seats_total
never_overbooked s s' p v r m =
    All_In (Fits s'.requests) s'.posts p (Reach-IsSeated s s' v r).fits m
