-- ===== src/Rides/Seats/Cancelling.antt =====
-- Declining and cancelling keep the seat ledger; a cancelled seat comes back.
use campus_os.Common.{
  ℕ, ◌+◌, ◌≡◌, refl, ap, ◌∙◌, Bool, true, false, none, some, map, ◌==◌, if◌then◌else◌, find, count,
  update_where, All, Distinct, arith, Bool-cases, Option-cases, ◌⊎◌, inl, inr, one_if, find-In,
  find_holds, All_In, count-update_where, All-update_where-In, All-map_In, map-update_where,
  count-update_le,
}
use campus_os.Core.Result.{ok}
use campus_os.Tenancy.{Context}
use campus_os.Rides.{RidePost, SeatRequest, RequestStatus, Rides, is_accepted, is_live}
use campus_os.Rides.Seats.{
  ride_of, decide, declines, decline_request, own_request, cancels, return_seat, seats_returned,
  cancel_seat_request,
}
use campus_os.Rides.Seats.Ledger.{on_ride, Fits, IsCoherent, IsSeated}

-- A ledger whose requests were decided away and whose rides stay as they were.
pub requests_fall-IsSeated :
    (s : Rides) (p : SeatRequest → Bool) (status : RequestStatus) (now : ℕ)
    → is_accepted status ≡ false
    → IsSeated s
    → IsSeated (record s { requests = update_where p (decide status now) s.requests })
requests_fall-IsSeated s p status now h v = record {
  post_ids = v.post_ids;
  request_ids =
      rw (map-update_where (λ (r : SeatRequest). r.id) p (decide status now) s.requests (λ r. refl))
        v.request_ids;
  fits =
      All-map_In (Fits s.requests) _ s.posts
        (λ x m k. ground (
          arith,
          count-update_le (on_ride x.id) p (decide status now) s.requests (λ r i t. (ground arith)),
        ))
        v.fits;
  coherent = v.coherent;
}

-- Declining a request keeps the ledger.
pub decline_request-IsSeated :
    (ctx : Context) (q : ℕ) (s : Rides) → IsSeated s → IsSeated (decline_request ctx q s).1
unfolding decline_request
decline_request-IsSeated ctx q s v =
    elim (Option-cases (find (declines ctx s.posts q) s.requests)) [
      | inl missing ↦ rw (missing, decline_request) v
      | inr (r, there) ↦
          rw (there, decline_request)
            (let kept =
                requests_fall-IsSeated s (declines ctx s.posts q) RequestStatus.declined ctx.now
                  refl v in
              record {
                post_ids = kept.post_ids;
                request_ids = kept.request_ids;
                fits = kept.fits;
                coherent = kept.coherent;
              })
    ]

-- What a cancelled request met: the passenger's own live row, and the new tables.
pub record Cancelled (ctx : Context) (q : ℕ) (s s' : Rides) : Type 0 where
  pub request : SeatRequest
  pub own : find (own_request ctx q) s.requests ≡ some request
  pub live : is_live request.status ≡ true
  pub posts : s'.posts ≡ seats_returned ctx request s.posts
  pub requests :
      s'.requests ≡ update_where (cancels ctx q) (decide RequestStatus.cancelled ctx.now) s.requests

cancel_seat_request_facts :
    (ctx : Context) (q : ℕ) (s s' : Rides)
    → cancel_seat_request ctx q s ≡ ok s'
    → Cancelled ctx q s s'
unfolding cancel_seat_request
cancel_seat_request_facts ctx q s s' e = elim (Option-cases (find (own_request ctx q) s.requests)) [
  | inl missing ↦ ground arith
  | inr (r, there) ↦ record {
    request = r;
    own = there;
    live = ground arith;
    posts = ground arith;
    requests = ground arith;
  }
]

cancels-key :
    (ctx : Context) (q : ℕ) (x : SeatRequest) → cancels ctx q x ≡ true → (x.id == q) ≡ true
cancels-key ctx q x h = ground arith

module _ (ctx : Context) (q : ℕ) (s s' : Rides) (v : IsSeated s) (c : Cancelled ctx q s s') where
  -- The accepted passengers of a ride fall by one, where the cancelled request was one of them.
  accepted_falls :
      (ride : ℕ)
      → count (on_ride ride) s'.requests + one_if (on_ride ride c.request)
        ≡ count (on_ride ride) s.requests
  accepted_falls ride =
      ap (λ rs. count (on_ride ride) rs + one_if (on_ride ride c.request)) c.requests
      ∙ ground (
        arith,
        count-update_where (λ x. x.id) (cancels ctx q) (decide RequestStatus.cancelled ctx.now)
            (on_ride ride) q s.requests c.request (cancels-key ctx q) v.request_ids
            (find-In (own_request ctx q) s.requests c.own),
        c.live,
        find_holds (own_request ctx q) s.requests c.own,
      )

  returned : RidePost → Bool
  returned = ride_of ctx.tenant_id c.request.ride_post_id

  cancelled-Fits : All (Fits s'.requests) s'.posts
  unfolding returned
  cancelled-Fits = elim (Bool-cases (is_accepted c.request.status)) [
    | inl t ↦ rw c.posts (
        rw t (
          All-update_where-In (Fits s'.requests) (ride_of ctx.tenant_id c.request.ride_post_id)
            (return_seat ctx.now) s.posts
            (λ x m h. ground (
              arith,
              t,
              accepted_falls x.id,
              All_In (Fits s.requests) s.posts x v.fits m,
              seats_cases x,
            ))
            (λ x m h.
              ground (arith, accepted_falls x.id, All_In (Fits s.requests) s.posts x v.fits m))))
    | inr f ↦ rw c.posts (
        rw f (
          All-map_In (Fits s.requests) (Fits s'.requests) s.posts
            (λ x m h. ground (arith, accepted_falls x.id)) v.fits))
  ]
    where
      seats_cases : (x : RidePost) → (x.seats_total ≡ none) ⊎ ((n : ℕ) × (x.seats_total ≡ some n))
      seats_cases x = Option-cases x.seats_total

  cancelled-IsCoherent : All IsCoherent s'.posts
  cancelled-IsCoherent = elim (Bool-cases (is_accepted c.request.status)) [
    | inl t ↦ rw c.posts (
        rw t (
          All-update_where-In IsCoherent (ride_of ctx.tenant_id c.request.ride_post_id)
            (return_seat ctx.now) s.posts
            (λ x m h. ground (
              arith,
              t,
              accepted_falls x.id,
              All_In (Fits s.requests) s.posts x v.fits m,
              All_In IsCoherent s.posts x v.coherent m,
            ))
            (λ x m h. All_In IsCoherent s.posts x v.coherent m)))
    | inr f ↦ rw c.posts (rw f v.coherent)
  ]

  cancelled-IsSeated : IsSeated s'
  cancelled-IsSeated = record {
    post_ids = rw c.posts (same_ids (is_accepted c.request.status));
    request_ids =
        rw
          (
            c.requests,
            map-update_where (λ (r : SeatRequest). r.id) (cancels ctx q)
                (decide RequestStatus.cancelled ctx.now) s.requests (λ r. refl),
          )
          v.request_ids;
    fits = cancelled-Fits;
    coherent = cancelled-IsCoherent;
  }
    where
      same_ids :
          (b : Bool)
          → Distinct (
              map
                (λ (p : RidePost). p.id)
                (if b
                  then update_where
                      (ride_of ctx.tenant_id c.request.ride_post_id)
                      (return_seat ctx.now)
                      s.posts
                  else s.posts))
      same_ids true =
          rw
            (map-update_where (λ (p : RidePost). p.id)
              (ride_of ctx.tenant_id c.request.ride_post_id) (return_seat ctx.now) s.posts
              (λ p. refl))
            v.post_ids
      same_ids false = v.post_ids

-- Cancelling one's own request keeps the ledger: the seat of an accepted one is free again, and a
-- full ride opens.
pub cancel_seat_request-IsSeated :
    (ctx : Context) (q : ℕ) (s s' : Rides)
    → IsSeated s
    → cancel_seat_request ctx q s ≡ ok s'
    → IsSeated s'
cancel_seat_request-IsSeated ctx q s s' v e =
    cancelled-IsSeated ctx q s s' v (cancel_seat_request_facts ctx q s s' e)
