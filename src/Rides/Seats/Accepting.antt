-- ===== src/Rides/Seats/Accepting.antt =====
-- An accepted request takes one free seat of its ride.
use mathlib.Core.Bool.{false≢true}
use campus_os.Common.{
  ℕ, ◌+◌, ◌≡◌, refl, ap, sym, ◌∙◌, true, false, some, List, ◌==◌, find, count, update_where, All,
  In, arith, Bool-cases, Option-cases, inl, inr, one_if, find-In, find_holds, All_In,
  count-update_where, row_unique, All-update_where-In, map-update_where,
}
use campus_os.Core.Result.{ok}
use campus_os.Tenancy.{Context}
use campus_os.Rides.{RidePost, SeatRequest, RequestStatus, Rides, is_pending}
use campus_os.Rides.Seats.{
  Joined, joined_request, decrements, take_seat, decide, pending_by_id, accept_request,
}
use campus_os.Rides.Seats.Ledger.{on_ride, Fits, IsCoherent, IsSeated, joined_facts}

-- What an accepted request met: the joined row, the ride with a free seat, and the new tables.
pub record Accepted (ctx : Context) (q : ℕ) (s s' : Rides) : Type 0 where
  pub join : Joined
  pub ride : RidePost
  pub joined : joined_request ctx q s ≡ some join
  pub free : find (decrements ctx join.ride.id) s.posts ≡ some ride
  pub driver : (join.ride.author_id == ctx.user_id) ≡ true
  pub waiting : is_pending join.request.status ≡ true
  pub posts : s'.posts ≡ update_where (decrements ctx join.ride.id) (take_seat ctx.now) s.posts
  pub requests :
      s'.requests
      ≡ update_where
          (pending_by_id ctx s.posts q)
          (decide RequestStatus.accepted ctx.now)
          s.requests

pub accept_request_facts :
    (ctx : Context) (q n : ℕ) (s s' : Rides)
    → accept_request ctx q s ≡ ok (n, s')
    → Accepted ctx q s s'
unfolding accept_request
accept_request_facts ctx q n s s' e = elim (Option-cases (joined_request ctx q s)) [
  | inl missing ↦ ground arith
  | inr (j, there) ↦ elim (Option-cases (find (decrements ctx j.ride.id) s.posts)) [
    | inl taken ↦ ground arith
    | inr (p, free) ↦ record {
      join = j;
      ride = p;
      joined = there;
      free = free;
      driver = ground arith;
      waiting = ground arith;
      posts = ground arith;
      requests = ground arith;
    }
  ]
]

pending_by_id-key :
    (ctx : Context) (posts : List RidePost) (q : ℕ) (x : SeatRequest)
    → pending_by_id ctx posts q x ≡ true
    → (x.id == q) ≡ true
pending_by_id-key ctx posts q x h = ground arith

module _ (ctx : Context) (q : ℕ) (s s' : Rides) (v : IsSeated s) (a : Accepted ctx q s s') where
  -- The accepted passengers of a ride grow by one, on the ride of the request only.
  pub accepted_grows :
      (ride : ℕ)
      → count (on_ride ride) s'.requests
        ≡ count (on_ride ride) s.requests + one_if (a.join.request.ride_post_id == ride)
  accepted_grows ride =
      let (there, seen, joined) = joined_facts ctx q s a.join a.joined in
      ap (count (on_ride ride)) a.requests
      ∙ ground (
        arith,
        count-update_where (λ x. x.id) (pending_by_id ctx s.posts q)
            (decide RequestStatus.accepted ctx.now) (on_ride ride) q s.requests a.join.request
            (pending_by_id-key ctx s.posts q) v.request_ids there,
        a.waiting,
        seen,
      )

  accepted_ride :
      (x : RidePost) → In x s.posts → (a.join.request.ride_post_id == x.id) ≡ true → x ≡ a.ride
  accepted_ride x m h =
      let (there, seen, joined) = joined_facts ctx q s a.join a.joined in
      row_unique (λ p. p.id) s.posts x a.ride v.post_ids m (find-In _ s.posts a.free)
        (ground (arith, find_holds (decrements ctx a.join.ride.id) s.posts a.free, joined))

  -- A ride that the decrement passes over is not the ride of the request.
  other_ride :
      (x : RidePost)
      → In x s.posts
      → decrements ctx a.join.ride.id x ≡ false
      → (a.join.request.ride_post_id == x.id) ≡ false
  other_ride x m h = elim (Bool-cases (a.join.request.ride_post_id == x.id)) [
    | inr f ↦ f
    | inl t ↦ absurd (
        false≢true (
          sym h
          ∙ ap (decrements ctx a.join.ride.id) (accepted_ride x m t)
          ∙ find_holds (decrements ctx a.join.ride.id) s.posts a.free))
  ]

  accepted-Fits : All (Fits s'.requests) s'.posts
  accepted-Fits = rw a.posts (
      All-update_where-In (Fits s'.requests) (decrements ctx a.join.ride.id) (take_seat ctx.now)
        s.posts
        (λ x m h. ground (arith, accepted_grows x.id, All_In (Fits s.requests) s.posts x v.fits m))
        (λ x m h. ground (
          arith,
          accepted_grows x.id,
          All_In (Fits s.requests) s.posts x v.fits m,
          other_ride x m h,
        )))

  accepted-IsCoherent : All IsCoherent s'.posts
  accepted-IsCoherent = rw a.posts (
      All-update_where-In IsCoherent (decrements ctx a.join.ride.id) (take_seat ctx.now) s.posts
        (λ x m h. ground (arith, All_In IsCoherent s.posts x v.coherent m))
        (λ x m h. All_In IsCoherent s.posts x v.coherent m))

  accepted-IsSeated : IsSeated s'
  accepted-IsSeated = record {
    post_ids =
        rw
          (
            a.posts,
            map-update_where (λ (p : RidePost). p.id) (decrements ctx a.join.ride.id)
                (take_seat ctx.now) s.posts (λ p. refl),
          )
          v.post_ids;
    request_ids =
        rw
          (
            a.requests,
            map-update_where (λ (r : SeatRequest). r.id) (pending_by_id ctx s.posts q)
                (decide RequestStatus.accepted ctx.now) s.requests (λ r. refl),
          )
          v.request_ids;
    fits = accepted-Fits;
    coherent = accepted-IsCoherent;
  }

-- Accepting a request keeps the ledger: the ride that gains a passenger is the one that loses a
-- free seat, and it becomes full exactly when none is left.
pub accept_request-IsSeated :
    (ctx : Context) (q n : ℕ) (s s' : Rides)
    → IsSeated s
    → accept_request ctx q s ≡ ok (n, s')
    → IsSeated s'
accept_request-IsSeated ctx q n s s' v e =
    accepted-IsSeated ctx q s s' v (accept_request_facts ctx q n s s' e)
