-- ===== src/Rides/Posts/Closing.antt =====
-- A cancelled ride has no live request left, and every rider but the driver has been told.
use campus_os.Common.{
  ℕ, ◌≡◌, refl, Bool, true, false, ◌&&◌, List, [], ◌∷◌, ◌==◌, any, filter, update_where, In, arith,
  Bool-cases, inl, inr, All_In, All-update_where-In, map-update_where, any-update_where, any_mono,
  ==_iff,
}
use campus_os.Tenancy.{Context, NotifyArgs, ride_cancelled, notify_in_tx}
use campus_os.Tenancy.Notices.{notify_keeps, notified}
use campus_os.Rides.{RidePost, SeatRequest, RequestStatus, Rides, is_live, sees_request}
use campus_os.Rides.Seats.{decide}
use campus_os.Rides.Seats.Ledger.{Fits, IsCoherent, IsSeated}
use campus_os.Rides.Seats.Cancelling.{requests_fall-IsSeated}
use campus_os.Rides.Posts.{cancellable, cancel_post, live_on, tell_riders, cancel_ride}

posts_cancelled-IsSeated :
    (ctx : Context) (ride : ℕ) (s : Rides)
    → IsSeated s
    → IsSeated
        (record s { posts = update_where (cancellable ctx ride) (cancel_post ctx.now) s.posts })
posts_cancelled-IsSeated ctx ride s v = record {
  post_ids =
      rw
        (map-update_where (λ (p : RidePost). p.id) (cancellable ctx ride) (cancel_post ctx.now)
          s.posts (λ p. refl))
        v.post_ids;
  request_ids = v.request_ids;
  fits =
      All-update_where-In (Fits s.requests) (cancellable ctx ride) (cancel_post ctx.now) s.posts
        (λ x m h. All_In (Fits s.requests) s.posts x v.fits m)
        (λ x m h. All_In (Fits s.requests) s.posts x v.fits m);
  coherent =
      All-update_where-In IsCoherent (cancellable ctx ride) (cancel_post ctx.now) s.posts
        (λ x m h. ground arith) (λ x m h. All_In IsCoherent s.posts x v.coherent m);
}

-- Cancelling a ride keeps the ledger of every ride.
pub cancel_ride-IsSeated :
    (ctx : Context) (ride : ℕ) (s : Rides) → IsSeated s → IsSeated (cancel_ride ctx ride s).1
unfolding cancel_ride
cancel_ride-IsSeated ctx ride s v = elim (Bool-cases (any (cancellable ctx ride) s.posts)) [
  | inr f ↦ rw (f, cancel_ride) v
  | inl t ↦
      rw (t, cancel_ride)
        (let closed = record s {
          posts = update_where (cancellable ctx ride) (cancel_post ctx.now) s.posts;
        } in
          let kept =
            requests_fall-IsSeated closed (live_on ctx closed.posts ride) RequestStatus.cancelled
              ctx.now refl (posts_cancelled-IsSeated ctx ride s v) in
          record {
            post_ids = kept.post_ids;
            request_ids = kept.request_ids;
            fits = kept.fits;
            coherent = kept.coherent;
          })
]

-- The driver of a cancelled ride sees its requests.
abbrev authored : Context → ℕ → RidePost → Bool
authored ctx ride p = (p.id == ride) && (p.author_id == ctx.user_id)

driver_sees :
    (ctx : Context) (ride : ℕ) (posts : List RidePost) (r : SeatRequest)
    → any (cancellable ctx ride) posts ≡ true
    → (r.ride_post_id == ride) ≡ true
    → (r.tenant_id == ctx.tenant_id) ≡ true
    → sees_request ctx (update_where (cancellable ctx ride) (cancel_post ctx.now) posts) r ≡ true
driver_sees ctx ride posts r h e t =
    let mine : any (authored ctx ride) posts ≡ true =
      any_mono (cancellable ctx ride) (authored ctx ride) posts (λ p k. ground arith) h in
    rw ((==_iff r.ride_post_id ride).0 e) (
      ground (
        arith,
        t,
        any-update_where (authored ctx ride) (cancellable ctx ride) (cancel_post ctx.now) posts
            (λ p. refl),
        mine,
      ))

abbrev pub live_in_tenant : Context → ℕ → SeatRequest → Bool
live_in_tenant ctx ride r =
    (r.tenant_id == ctx.tenant_id) && ((r.ride_post_id == ride) && is_live r.status)

none_live :
    (ctx : Context) (ride : ℕ) (posts : List RidePost) (rs : List SeatRequest)
    → any (cancellable ctx ride) posts ≡ true
    → any (live_in_tenant ctx ride) (
        update_where
          (live_on ctx (update_where (cancellable ctx ride) (cancel_post ctx.now) posts) ride)
          (decide RequestStatus.cancelled ctx.now)
          rs)
      ≡ false
none_live ctx ride posts [] h = refl
none_live ctx ride posts (r ∷ rs) h =
    ground (arith, none_live ctx ride posts rs h, driver_sees ctx ride posts r h)

abbrev pub told : Context → ℕ → ℕ → NotifyArgs
told ctx ride user = record {
  user_id = user;
  kind = ride_cancelled;
  payload = [];
  link = ride;
  actor_id = ctx.user_id;
}

-- What the inbox holds already stays in it.
tell_riders_keeps :
    (ctx : Context) (ride : ℕ) (rs : List SeatRequest) (inbox : List NotifyArgs) (n : NotifyArgs)
    → In n inbox
    → In n (tell_riders ctx ride rs inbox)
unfolding tell_riders
tell_riders_keeps ctx ride [] inbox n h = h
tell_riders_keeps ctx ride (r ∷ rs) inbox n h =
    tell_riders_keeps ctx ride rs (notify_in_tx (told ctx ride r.passenger_id) inbox) n
      (notify_keeps (told ctx ride r.passenger_id) inbox n h)

riders_told :
    (ctx : Context) (ride : ℕ) (p : SeatRequest → Bool) (rs : List SeatRequest)
    (inbox : List NotifyArgs) (r : SeatRequest)
    → In r rs
    → p r ≡ true
    → (ctx.user_id == r.passenger_id) ≡ false
    → In (told ctx ride r.passenger_id) (tell_riders ctx ride (filter p rs) inbox)
unfolding tell_riders
riders_told ctx ride p [] inbox r m h f = elim m [ ]
riders_told ctx ride p (x ∷ rs) inbox r (inl e) h f =
    rw (← e, h)
      (tell_riders_keeps ctx ride (filter p rs) (notify_in_tx (told ctx ride r.passenger_id) inbox)
        (told ctx ride r.passenger_id) (notified (told ctx ride r.passenger_id) inbox f))
riders_told ctx ride p (x ∷ rs) inbox r (inr m) h f = elim (Bool-cases (p x)) [
  | inl t ↦
      rw t (riders_told ctx ride p rs (notify_in_tx (told ctx ride x.passenger_id) inbox) r m h f)
  | inr t ↦ rw t (riders_told ctx ride p rs inbox r m h f)
]

-- When a ride is cancelled, no request on it is live any more in its tenant, and every passenger
-- other than the driver who had a live one is told.
pub cancel_ride_closes :
    (ctx : Context) (ride : ℕ) (s : Rides)
    → (cancel_ride ctx ride s).0 ≡ true
    → (any (live_in_tenant ctx ride) (cancel_ride ctx ride s).1.requests ≡ false)
      × ((r : SeatRequest)
          → In r s.requests
          → live_in_tenant ctx ride r ≡ true
          → (ctx.user_id == r.passenger_id) ≡ false
          → In (told ctx ride r.passenger_id) (cancel_ride ctx ride s).1.inbox)
unfolding cancel_ride
cancel_ride_closes ctx ride s e = elim (Bool-cases (any (cancellable ctx ride) s.posts)) [
  | inr f ↦ ground arith
  | inl t ↦ (
    rw (t, cancel_ride) (none_live ctx ride s.posts s.requests t),
    λ r m l f.
        rw (t, cancel_ride)
          (riders_told ctx ride
            (live_on ctx (update_where (cancellable ctx ride) (cancel_post ctx.now) s.posts) ride)
            s.requests s.inbox r m (ground (arith, driver_sees ctx ride s.posts r t, l)) f),
  )
]
