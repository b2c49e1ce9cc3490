-- ===== src/Rides/Seats/Taking.antt =====
-- acceptRequest of packages/modules/rides/src/seats.ts, on the branch where it succeeds.
use mathlib.Core.Bool.{false≢true}
use campus_os.Common.{
  ℕ, ◌+◌, ◌≡◌, ◌≢◌, refl, All_In, ap, sym, ◌∙◌, true, false, ◌&&◌, some, ◌==◌, any-In, find,
  find_holds, find-none, find-In, count, In, row_unique, find-update_where, if◌then◌else◌, arith,
  Option-cases, inl, inr, one_if,
}
use campus_os.Core.Result.{Result-cases, ok, err}
use campus_os.Tenancy.{Context, blocked_between}
use campus_os.Rides.{RidePost, Rides, is_open, is_full, is_pending, sees_request}
use campus_os.Rides.Seats.{
  SeatRequestRefusal, seats_or_zero, ride_of, Joined, joined_request, has_seat, take_seat,
  decrements, accept_request,
}
use campus_os.Rides.Seats.Ledger.{on_ride, IsCoherent, IsSeated, joined_facts}
use campus_os.Rides.Seats.Accepting.{Accepted, accept_request_facts, accepted_grows}

module _ (ctx : Context) (q : ℕ) (s : Rides) (j : Joined) (v : IsSeated s)
    (there : joined_request ctx q s ≡ some j) (driver : (j.ride.author_id == ctx.user_id) ≡ true)
    (seat : (is_open j.ride.status && has_seat j.ride.seats_available) ≡ true) where
  joined_ride_In : In j.ride s.posts
  unfolding joined_request
  joined_ride_In =
      elim (Option-cases (
        find (λ r. (r.id == q) && ((r.tenant_id == ctx.tenant_id) && sees_request ctx s.posts r))
          s.requests)) [
            | inl missing ↦ ground arith
            | inr (r, found_it) ↦
                elim (Option-cases (find (ride_of ctx.tenant_id r.ride_post_id) s.posts)) [
                  | inl missing ↦ ground arith
                  | inr (p, ride) ↦
                      let same : j ≡ record { request = r; ride = p } = ground arith in
                      rw same (find-In _ s.posts ride)
                ]
          ]

  -- The atomic decrement meets the ride of the request.
  free_ride : find (decrements ctx j.ride.id) s.posts ≡ some j.ride
  free_ride = elim (Option-cases (find (decrements ctx j.ride.id) s.posts)) [
    | inl taken ↦ absurd (
        false≢true (
          sym (find-none (decrements ctx j.ride.id) s.posts taken)
          ∙ any-In (decrements ctx j.ride.id) s.posts j.ride joined_ride_In meets))
    | inr (p, free) ↦
        free
        ∙ ap some (
            row_unique (λ x. x.id) s.posts p j.ride v.post_ids (find-In _ s.posts free)
              joined_ride_In (ground (arith, find_holds (decrements ctx j.ride.id) s.posts free)))
  ]
    where
      meets : decrements ctx j.ride.id j.ride ≡ true
      meets = let (a, b, c) = joined_facts ctx q s j there in ground (arith, driver, seat, c)

takes_one :
    (ctx : Context) (q n : ℕ) (s s' : Rides) (j : Joined)
    → joined_request ctx q s ≡ some j
    → find (decrements ctx j.ride.id) s.posts ≡ some j.ride
    → has_seat j.ride.seats_available ≡ true
    → accept_request ctx q s ≡ ok (n, s')
    → n + 1 ≡ seats_or_zero j.ride.seats_available
unfolding accept_request
takes_one ctx q n s s' j there free seat e = ground arith

no_refusal :
    (ctx : Context) (q : ℕ) (s : Rides) (j : Joined) (e : SeatRequestRefusal)
    → joined_request ctx q s ≡ some j
    → find (decrements ctx j.ride.id) s.posts ≡ some j.ride
    → (j.ride.author_id == ctx.user_id) ≡ true
    → is_pending j.request.status ≡ true
    → blocked_between s.blocks ctx j.request.passenger_id ≡ false
    → accept_request ctx q s ≢ err e
unfolding accept_request
no_refusal ctx q s j e there free driver waiting apart r = ground arith

-- The ride of the request as it stands after the accept.
taken_row :
    (ctx : Context) (q n : ℕ) (s s' : Rides) (j : Joined)
    → IsSeated s
    → joined_request ctx q s ≡ some j
    → find (decrements ctx j.ride.id) s.posts ≡ some j.ride
    → Accepted ctx q s s'
    → find (ride_of ctx.tenant_id j.ride.id) s'.posts ≡ some (take_seat ctx.now j.ride)
taken_row ctx q n s s' j v there free a =
    let same : a.join ≡ j = ground (arith, a.joined) in
    let held = find_holds (decrements ctx j.ride.id) s.posts free in
    let ride = ride_of ctx.tenant_id j.ride.id in
    let before : find ride s.posts ≡ some j.ride = elim (Option-cases (find ride s.posts)) [
      | inl missing ↦ absurd (
          false≢true (
            sym (find-none ride s.posts missing)
            ∙ any-In ride s.posts j.ride (find-In _ s.posts free) (ground (arith, held))))
      | inr (p, e) ↦
          e
          ∙ ap some (
              row_unique (λ x. x.id) s.posts p j.ride v.post_ids (find-In _ s.posts e)
                (find-In _ s.posts free) (ground (arith, find_holds ride s.posts e)))
    ] in
    rw (a.posts, same)
      (find-update_where ride (decrements ctx j.ride.id) (take_seat ctx.now) s.posts j.ride
          (λ x. refl) before
        ∙ ap (λ b. some (if b then take_seat ctx.now j.ride else j.ride)) held)

-- When the driver of an open ride with a free seat accepts a pending request on it, and no block
-- stands between them, the accept succeeds: the row of the ride then has one free seat fewer, the
-- number that is returned, and is full when that is none, and the ride has one accepted passenger
-- more.
pub accept_request_takes :
    (ctx : Context) (q : ℕ) (s : Rides) (j : Joined)
    → IsSeated s
    → joined_request ctx q s ≡ some j
    → (j.ride.author_id == ctx.user_id) ≡ true
    → is_pending j.request.status ≡ true
    → blocked_between s.blocks ctx j.request.passenger_id ≡ false
    → (is_open j.ride.status && has_seat j.ride.seats_available) ≡ true
    → (n : ℕ) × (s' : Rides) × (p : RidePost) × (accept_request ctx q s ≡ ok (n, s'))
      × (find (ride_of ctx.tenant_id j.ride.id) s'.posts ≡ some p)
      × (p.seats_available ≡ some n)
      × (is_full p.status ≡ (n == 0))
      × (n + 1 ≡ seats_or_zero j.ride.seats_available)
      × (count (on_ride j.ride.id) s'.requests ≡ count (on_ride j.ride.id) s.requests + 1)
accept_request_takes ctx q s j v there driver waiting apart seat =
    let free = free_ride ctx q s j v there driver seat in
    elim (Result-cases (accept_request ctx q s)) [
      | inl (e, r) ↦ absurd (no_refusal ctx q s j e there free driver waiting apart r)
      | inr ((n, s'), r) ↦
          let a = accept_request_facts ctx q n s s' r in
          let same : a.join ≡ j = ground (arith, a.joined) in
          let (stored, seen, rides) = joined_facts ctx q s j there in
          let here : (a.join.request.ride_post_id == j.ride.id) ≡ true =
            rw same (ground (arith, rides)) in
          (
            n,
            s',
            take_seat ctx.now j.ride,
            r,
            taken_row ctx q n s s' j v there free a,
            ground (arith, takes_one ctx q n s s' j there free (ground arith) r),
            ground (
              arith,
              takes_one ctx q n s s' j there free (ground arith) r,
              seat,
              All_In IsCoherent s.posts j.ride v.coherent (find-In _ s.posts free),
            ),
            takes_one ctx q n s s' j there free (ground arith) r,
            accepted_grows ctx q s s' v a j.ride.id
                ∙ ap (λ b. count (on_ride j.ride.id) s.requests + one_if b) here,
          )
    ]
