-- ===== src/Rides/Posts.antt =====
-- packages/modules/rides/src/write.ts: `cancelRide`. Posting and editing rides wait on the text
-- rules of input.ts, and are not modelled.
pub mod Closing
use campus_os.Common.{
  ℕ, Bool, true, false, ◌&&◌, ◌||◌, Option, none, some, List, [], ◌∷◌, ◌==◌, if◌then◌else◌, any,
  filter, update_where,
}
use campus_os.Tenancy.{Context, NotifyArgs, ride_cancelled, notify_in_tx}
use campus_os.Rides.{
  RidePost, RideStatus, SeatRequest, RequestStatus, Rides, is_open, is_live, sees_request,
}
use campus_os.Rides.Seats.{decide}

abbrev pub cancellable : Context → ℕ → RidePost → Bool
cancellable ctx ride p =
    (p.id == ride)
    && ((p.tenant_id == ctx.tenant_id) && ((p.author_id == ctx.user_id) && is_open p.status))

abbrev pub cancel_post : ℕ → RidePost → RidePost
cancel_post now p = record p {
  status = RideStatus.cancelled;
  cancelled_at = some now;
  updated_at = now;
}

abbrev pub live_on : Context → List RidePost → ℕ → SeatRequest → Bool
live_on ctx posts ride r =
    (r.ride_post_id == ride) && (is_live r.status && sees_request ctx posts r)

-- The loop that tells each rider.
unfoldable pub tell_riders : Context → ℕ → List SeatRequest → List NotifyArgs → List NotifyArgs
tell_riders ctx ride [] inbox = inbox
tell_riders ctx ride (r ∷ rs) inbox = tell_riders ctx ride rs (
    notify_in_tx
      (record {
        user_id = r.passenger_id;
        kind = ride_cancelled;
        payload = [];
        link = ride;
        actor_id = ctx.user_id;
      })
      inbox)

-- The flag is `changed`.
unfoldable pub cancel_ride : Context → ℕ → Rides → Bool × Rides
cancel_ride ctx ride s =
    let posts = update_where (cancellable ctx ride) (cancel_post ctx.now) s.posts in
    if any (cancellable ctx ride) s.posts
    then (
      true,
      record s {
        posts = posts;
        requests =
            update_where (live_on ctx posts ride) (decide RequestStatus.cancelled ctx.now)
              s.requests;
        inbox = tell_riders ctx ride (filter (live_on ctx posts ride) s.requests) s.inbox;
      },
    )
    else (false, s)
