-- ===== src/LostFound/Claims/Closing.antt =====
-- What a decision leaves: a confirmed claim settles its item, and everybody who waited is told.
use campus_os.Common.{
  any-In, ℕ, ◌≡◌, refl, Bool, true, false, ◌&&◌, some, List, [], ◌∷◌, ◌==◌, if◌then◌else◌, any,
  filter, update_where, In, arith, Bool-cases, Option-cases, inl, inr, any-update_where, ==_iff,
}
use campus_os.Core.Result.{ok}
use campus_os.Tenancy.{Context, NotifyArgs, notify_in_tx, item_resolved, claim_approved}
use campus_os.Tenancy.Notices.{notify_keeps, notified}
use campus_os.LostFound.{
  LostFoundItem, LostFoundClaim, ClaimStatus, LostFound, is_pending, sees_claim,
}
use campus_os.LostFound.Claims.{
  Joined, joined_claim, decide, visible_id, resolved_item, resolves, loses, decision_note,
  tell_denied, confirm_claim, reject_claim, withdraws, withdraw_claim,
}
use campus_os.LostFound.Claims.Resolution.{IsSettled, claims_fall-IsSettled, joined_facts}
use campus_os.LostFound.Claims.Confirming.{Confirmed, confirm_claim_facts}

-- Rejecting a claim leaves at most one approved claim on each item, and none on an open one.
pub reject_claim-IsSettled :
    (ctx : Context) (k : ℕ) (s s' : LostFound)
    → IsSettled s
    → reject_claim ctx k s ≡ ok s'
    → IsSettled s'
unfolding reject_claim
reject_claim-IsSettled ctx k s s' v e = elim (Option-cases (joined_claim ctx k s)) [
  | inl missing ↦ ground arith
  | inr (j, there) ↦
      let kept =
        claims_fall-IsSettled s (visible_id ctx s.items k) ClaimStatus.denied ctx.now refl v in
      let claims : s'.claims
          ≡ update_where (visible_id ctx s.items k) (decide ClaimStatus.denied ctx.now) s.claims =
        ground arith in
      let items : s'.items ≡ s.items = ground arith in
      record {
        item_ids = rw items kept.item_ids;
        claim_ids = rw claims kept.claim_ids;
        settled = rw (items, claims) kept.settled;
      }
]

-- Withdrawing a claim leaves at most one approved claim on each item, and none on an open one.
pub withdraw_claim-IsSettled :
    (ctx : Context) (k : ℕ) (s s' : LostFound)
    → IsSettled s
    → withdraw_claim ctx k s ≡ ok s'
    → IsSettled s'
unfolding withdraw_claim
withdraw_claim-IsSettled ctx k s s' v e =
    let kept = claims_fall-IsSettled s (withdraws ctx k) ClaimStatus.withdrawn ctx.now refl v in
    let claims : s'.claims
        ≡ update_where (withdraws ctx k) (decide ClaimStatus.withdrawn ctx.now) s.claims =
      ground arith in
    let items : s'.items ≡ s.items = ground arith in
    record {
      item_ids = rw items kept.item_ids;
      claim_ids = rw claims kept.claim_ids;
      settled = rw (items, claims) kept.settled;
    }

abbrev pub pending_on : Context → ℕ → LostFoundClaim → Bool
pending_on ctx item c =
    (c.tenant_id == ctx.tenant_id) && ((c.item_id == item) && is_pending c.status)

abbrev reports : Context → ℕ → LostFoundItem → Bool
reports ctx item i = (i.id == item) && (i.reporter_id == ctx.user_id)

module _ (ctx : Context) (k : ℕ) (s s' : LostFound) (c : Confirmed ctx k s s') where
  -- The reporter of the item sees every claim on it in the tenant, before and after.
  reporter_sees :
      (x : LostFoundClaim)
      → pending_on ctx c.join.claim.item_id x ≡ true
      → (sees_claim ctx s.items x ≡ true) × (sees_claim ctx s'.items x ≡ true)
  reporter_sees x h =
      let (there, seen, listed, joined) = joined_facts ctx k s c.join c.joined in
      let mine : any (reports ctx c.join.claim.item_id) s.items ≡ true =
        any-In (reports ctx c.join.claim.item_id) s.items c.join.item listed
          (ground (arith, joined, c.reporter)) in
      let kept =
        any-update_where (reports ctx c.join.claim.item_id) (resolves ctx c.join.claim.item_id)
          (resolved_item k ctx.now) s.items (λ i. refl) in
      let same : x.item_id ≡ c.join.claim.item_id =
        (==_iff x.item_id c.join.claim.item_id).0 (ground arith) in
      (rw same (ground (arith, mine)), rw (same, c.items) (ground (arith, mine, kept)))

  none_pending :
      (cs : List LostFoundClaim)
      → any (pending_on ctx c.join.claim.item_id) (
          update_where
            (loses ctx s'.items c.join.claim.item_id k)
            (decide ClaimStatus.denied ctx.now)
            (update_where (visible_id ctx s.items k) (decide ClaimStatus.approved ctx.now) cs))
        ≡ false
  none_pending [] = refl
  none_pending (x ∷ xs) = ground (arith, none_pending xs, reporter_sees x)

tell_denied_keeps :
    (ctx : Context) (item : LostFoundItem) (ds : List LostFoundClaim) (inbox : List NotifyArgs)
    (n : NotifyArgs)
    → In n inbox
    → In n (tell_denied ctx item ds inbox)
unfolding tell_denied
tell_denied_keeps ctx item [] inbox n h = h
tell_denied_keeps ctx item (d ∷ ds) inbox n h =
    tell_denied_keeps ctx item ds
      (notify_in_tx (decision_note ctx item_resolved item d.claimant_id) inbox) n
      (notify_keeps (decision_note ctx item_resolved item d.claimant_id) inbox n h)

-- Every row that is kept for the loop is told.
everyone_told :
    (ctx : Context) (item : LostFoundItem) (p q : LostFoundClaim → Bool)
    (f : LostFoundClaim → LostFoundClaim) (cs : List LostFoundClaim) (inbox : List NotifyArgs)
    (x : LostFoundClaim)
    → In x cs
    → q x ≡ false
    → p x ≡ true
    → (ctx.user_id == x.claimant_id) ≡ false
    → In
        (decision_note ctx item_resolved item x.claimant_id)
        (tell_denied ctx item (filter p (update_where q f cs)) inbox)
unfolding tell_denied
everyone_told ctx item p q f [] inbox x m g h u = elim m [ ]
everyone_told ctx item p q f (y ∷ cs) inbox x (inl e) g h u =
    rw (← e, g, h)
      (tell_denied_keeps ctx item (filter p (update_where q f cs))
        (notify_in_tx (decision_note ctx item_resolved item x.claimant_id) inbox)
        (decision_note ctx item_resolved item x.claimant_id)
        (notified (decision_note ctx item_resolved item x.claimant_id) inbox u))
everyone_told ctx item p q f (y ∷ cs) inbox x (inr m) g h u =
    elim (Bool-cases (p (if q y then f y else y))) [
      | inl t ↦ rw t (
          everyone_told ctx item p q f cs
            (notify_in_tx
              (decision_note ctx item_resolved item (if q y then f y else y).claimant_id) inbox)
            x m g h u)
      | inr t ↦ rw t (everyone_told ctx item p q f cs inbox x m g h u)
    ]

confirm_claim_inbox :
    (ctx : Context) (k : ℕ) (s s' : LostFound) (j : Joined)
    → joined_claim ctx k s ≡ some j
    → confirm_claim ctx k s ≡ ok s'
    → (inbox : List NotifyArgs) × (s'.inbox
        ≡ tell_denied ctx j.item
            (filter (loses ctx s'.items j.claim.item_id k) (
              update_where
                (visible_id ctx s.items k)
                (decide ClaimStatus.approved ctx.now)
                s.claims))
            inbox)
unfolding confirm_claim
confirm_claim_inbox ctx k s s' j there e = (
  notify_in_tx (decision_note ctx claim_approved j.item j.claim.claimant_id) s.inbox,
  ground arith,
)

-- After a confirmed claim, its item has no pending claim left in the tenant, and everyone else who
-- had one, other than the reporter, is told that the item is resolved.
pub confirm_claim_closes :
    (ctx : Context) (k : ℕ) (s s' : LostFound) (j : Joined)
    → joined_claim ctx k s ≡ some j
    → confirm_claim ctx k s ≡ ok s'
    → (any (pending_on ctx j.claim.item_id) s'.claims ≡ false)
      × ((x : LostFoundClaim)
          → In x s.claims
          → pending_on ctx j.claim.item_id x ≡ true
          → (x.id == k) ≡ false
          → (ctx.user_id == x.claimant_id) ≡ false
          → In (decision_note ctx item_resolved j.item x.claimant_id) s'.inbox)
confirm_claim_closes ctx k s s' j there e =
    let c = confirm_claim_facts ctx k s s' e in
    let same : c.join ≡ j = ground (arith, c.joined) in
    let (inbox, told) = confirm_claim_inbox ctx k s s' j there e in
    (
      rw (← same, c.claims) (none_pending ctx k s s' c s.claims),
      λ x m h f u.
          let pending : pending_on ctx c.join.claim.item_id x ≡ true = rw same h in
          rw told (
            everyone_told ctx j.item (loses ctx s'.items j.claim.item_id k)
              (visible_id ctx s.items k) (decide ClaimStatus.approved ctx.now) s.claims inbox x m
              (ground arith) (ground (arith, reporter_sees ctx k s s' c x pending)) u),
    )
