-- ===== src/Rides/Seats/Ledger.antt =====
-- The seat ledger: whatever is asked, accepted, declined or cancelled, no ride is overbooked.
use campus_os.Common.{
  ℕ, ◌+◌, ◌≤◌, ◌≡◌, Bool, true, false, not, ◌&&◌, some, List, [], ◌∷◌, ◌++◌, map, ◌==◌, find, count,
  includes, All, In, Distinct, arith, Option-cases, inl, inr, find-In, find_holds, All-map_In,
  Distinct-snoc, count-append,
}
use campus_os.Core.Result.{ok}
use campus_os.Tenancy.{Context}
use campus_os.Rides.{
  RidePost, SeatRequest, Rides, is_offer, is_active, is_full, is_accepted, sees_request,
}
use campus_os.Rides.Seats.{
  seats_or_zero, ride_of, new_request, request_seat, Joined, joined_request, has_seat,
}

abbrev pub on_ride : ℕ → SeatRequest → Bool
on_ride ride r = (r.ride_post_id == ride) && is_accepted r.status

-- The free seats of a ride and its accepted passengers fit into its seats.
abbrev pub Fits : List SeatRequest → RidePost → Type 0
Fits rs p = seats_or_zero p.seats_available + count (on_ride p.id) rs ≤ seats_or_zero p.seats_total

-- A full ride has no free seat, and an active offer has one.
abbrev pub IsCoherent : RidePost → Type 0
IsCoherent p =
    ((is_full p.status && has_seat p.seats_available) ≡ false)
    × (((is_offer p.kind && is_active p.status) && not (has_seat p.seats_available)) ≡ false)

pub record IsSeated (s : Rides) : Type 0 where
  pub post_ids : Distinct (map (λ p. p.id) s.posts)
  pub request_ids : Distinct (map (λ r. r.id) s.requests)
  pub fits : All (Fits s.requests) s.posts
  pub coherent : All IsCoherent s.posts

-- What a successful join gives.
pub joined_facts :
    (ctx : Context) (q : ℕ) (s : Rides) (j : Joined)
    → joined_request ctx q s ≡ some j
    → In j.request s.requests
      × (((j.request.id == q)
            && ((j.request.tenant_id == ctx.tenant_id) && sees_request ctx s.posts j.request))
          ≡ true)
      × (ride_of ctx.tenant_id j.request.ride_post_id j.ride ≡ true)
unfolding joined_request
joined_facts ctx q s j e =
    elim (Option-cases (
      find (λ r. (r.id == q) && ((r.tenant_id == ctx.tenant_id) && sees_request ctx s.posts r))
        s.requests)) [
          | inl missing ↦ ground arith
          | inr (r, there) ↦
              elim (Option-cases (find (ride_of ctx.tenant_id r.ride_post_id) s.posts)) [
                | inl missing ↦ ground arith
                | inr (p, ride) ↦
                    let same : j ≡ record { request = r; ride = p } = ground arith in
                    rw same (
                      find-In _ s.requests there,
                      find_holds _ s.requests there,
                      find_holds _ s.posts ride,
                    )
              ]
        ]

-- A request that was refused nothing: one more pending row.
request_seat_requests :
    (ctx : Context) (fresh ride i : ℕ) (s s' : Rides)
    → request_seat ctx fresh ride s ≡ ok (i, s')
    → (s'.posts ≡ s.posts) × (s'.requests ≡ s.requests ++ new_request ctx fresh ride ∷ [])
unfolding request_seat
request_seat_requests ctx fresh ride i s s' e = ground arith

Fits-more_pending :
    (ctx : Context) (fresh ride : ℕ) (rs : List SeatRequest) (p : RidePost)
    → Fits rs p
    → Fits (rs ++ new_request ctx fresh ride ∷ []) p
Fits-more_pending ctx fresh ride rs p h =
    ground (arith, count-append (on_ride p.id) rs (new_request ctx fresh ride ∷ []))

-- Asking for a seat under a fresh id keeps the ledger.
pub request_seat-IsSeated :
    (ctx : Context) (fresh ride i : ℕ) (s s' : Rides)
    → IsSeated s
    → includes (map (λ r. r.id) s.requests) fresh ≡ false
    → request_seat ctx fresh ride s ≡ ok (i, s')
    → IsSeated s'
request_seat-IsSeated ctx fresh ride i s s' v new e =
    let (posts, requests) = request_seat_requests ctx fresh ride i s s' e in
    record {
      post_ids = rw posts v.post_ids;
      request_ids =
          rw requests
            (Distinct-snoc (λ r. r.id) s.requests (new_request ctx fresh ride) v.request_ids new);
      fits =
          rw (posts, requests)
            (All-map_In (Fits s.requests) (Fits (s.requests ++ new_request ctx fresh ride ∷ []))
              s.posts (λ p m h. Fits-more_pending ctx fresh ride s.requests p h) v.fits);
      coherent = rw posts v.coherent;
    }
