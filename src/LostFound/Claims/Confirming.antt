-- ===== src/LostFound/Claims/Confirming.antt =====
-- A confirmed claim is the only approved one on its item.
use mathlib.Core.Bool.{false≢true}
use campus_os.Common.{
  ℕ, ◌+◌, ◌≤◌, ◌≡◌, refl, ap, sym, ◌∙◌, true, false, some, ◌==◌, count, update_where, In, arith,
  Bool-cases, Option-cases, inl, inr, one_if, All_In, count-update_where, row_unique,
  All-update_where-In, map-update_where, count-update_same,
}
use campus_os.Core.Result.{ok}
use campus_os.Tenancy.{Context}
use campus_os.LostFound.{LostFoundItem, LostFoundClaim, ClaimStatus, LostFound, is_open, is_pending}
use campus_os.LostFound.Claims.{
  Joined, joined_claim, decide, visible_id, resolved_item, resolves, loses, confirm_claim,
}
use campus_os.LostFound.Claims.Resolution.{approved_on, Settled, IsSettled, joined_facts}

-- What a confirmed claim met, and the tables that it leaves.
pub record Confirmed (ctx : Context) (k : ℕ) (s s' : LostFound) : Type 0 where
  pub join : Joined
  pub joined : joined_claim ctx k s ≡ some join
  pub reporter : (join.item.reporter_id == ctx.user_id) ≡ true
  pub waiting : is_pending join.claim.status ≡ true
  pub open_item : is_open join.item.status ≡ true
  pub items :
      s'.items ≡ update_where (resolves ctx join.claim.item_id) (resolved_item k ctx.now) s.items
  pub claims :
      s'.claims
      ≡ update_where
          (loses ctx s'.items join.claim.item_id k)
          (decide ClaimStatus.denied ctx.now)
          (update_where (visible_id ctx s.items k) (decide ClaimStatus.approved ctx.now) s.claims)

pub confirm_claim_facts :
    (ctx : Context) (k : ℕ) (s s' : LostFound)
    → confirm_claim ctx k s ≡ ok s'
    → Confirmed ctx k s s'
unfolding confirm_claim
confirm_claim_facts ctx k s s' e = elim (Option-cases (joined_claim ctx k s)) [
  | inl missing ↦ ground arith
  | inr (j, there) ↦ record {
    join = j;
    joined = there;
    reporter = ground arith;
    waiting = ground arith;
    open_item = ground arith;
    items = ground arith;
    claims = ground arith;
  }
]

module _ (ctx : Context) (k : ℕ) (s s' : LostFound) (v : IsSettled s)
    (c : Confirmed ctx k s s') where
  -- The approved claims of an item grow by one, on the item of the claim only.
  approved_grows :
      (item : ℕ)
      → count
          (approved_on item)
          (update_where (visible_id ctx s.items k) (decide ClaimStatus.approved ctx.now) s.claims)
        ≡ count (approved_on item) s.claims + one_if (c.join.claim.item_id == item)
  approved_grows item =
      let (there, seen, listed, joined) = joined_facts ctx k s c.join c.joined in
      ground (
        arith,
        count-update_where (λ x. x.id) (visible_id ctx s.items k)
            (decide ClaimStatus.approved ctx.now) (approved_on item) k s.claims c.join.claim
            (λ x h. (ground arith)) v.claim_ids there,
        c.waiting,
        seen,
      )

  -- Denying the other claims approves and unapproves nothing.
  pub approved_after :
      (item : ℕ)
      → count (approved_on item) s'.claims
        ≡ count (approved_on item) s.claims + one_if (c.join.claim.item_id == item)
  approved_after item =
      ap (count (approved_on item)) c.claims
      ∙ count-update_same (approved_on item) (loses ctx s'.items c.join.claim.item_id k)
          (decide ClaimStatus.denied ctx.now)
          (update_where (visible_id ctx s.items k) (decide ClaimStatus.approved ctx.now) s.claims)
          (λ x h. (ground (arith, h)))
      ∙ approved_grows item

  claimed_item :
      (x : LostFoundItem) → In x s.items → (c.join.claim.item_id == x.id) ≡ true → x ≡ c.join.item
  claimed_item x m h =
      let (there, seen, listed, joined) = joined_facts ctx k s c.join c.joined in
      row_unique (λ i. i.id) s.items x c.join.item v.item_ids m listed (ground (arith, joined))

  -- An item that is not resolved is not the item of the claim.
  other_item :
      (x : LostFoundItem)
      → In x s.items
      → resolves ctx c.join.claim.item_id x ≡ false
      → (c.join.claim.item_id == x.id) ≡ false
  other_item x m h = elim (Bool-cases (c.join.claim.item_id == x.id)) [
    | inr f ↦ f
    | inl t ↦
        let (there, seen, listed, joined) = joined_facts ctx k s c.join c.joined in
        absurd (
          false≢true (
            sym h
            ∙ ap (resolves ctx c.join.claim.item_id) (claimed_item x m t)
            ∙ ground (arith, joined, c.reporter)))
  ]

  settled_item :
      (x : LostFoundItem)
      → In x s.items
      → resolves ctx c.join.claim.item_id x ≡ true
      → count (approved_on x.id) s'.claims ≤ 1
  settled_item x m h =
      let same : x ≡ c.join.item = claimed_item x m (ground arith) in
      ground (
        arith,
        approved_after x.id,
        All_In (Settled s.claims) s.items x v.settled m,
        ap (λ (i : LostFoundItem). is_open i.status) same,
        c.open_item,
      )

  confirmed-IsSettled : IsSettled s'
  confirmed-IsSettled = record {
    item_ids =
        rw
          (
            c.items,
            map-update_where (λ (i : LostFoundItem). i.id) (resolves ctx c.join.claim.item_id)
                (resolved_item k ctx.now) s.items (λ i. refl),
          )
          v.item_ids;
    claim_ids =
        rw
          (
            c.claims,
            map-update_where (λ (r : LostFoundClaim). r.id)
                (loses ctx s'.items c.join.claim.item_id k) (decide ClaimStatus.denied ctx.now)
                (update_where (visible_id ctx s.items k) (decide ClaimStatus.approved ctx.now)
                  s.claims)
                (λ r. refl),
            map-update_where (λ (r : LostFoundClaim). r.id) (visible_id ctx s.items k)
                (decide ClaimStatus.approved ctx.now) s.claims (λ r. refl),
          )
          v.claim_ids;
    settled = rw c.items (
        All-update_where-In (Settled s'.claims) (resolves ctx c.join.claim.item_id)
          (resolved_item k ctx.now) s.items (λ x m h. ground (arith, settled_item x m h))
          (λ x m h. ground (
            arith,
            approved_after x.id,
            All_In (Settled s.claims) s.items x v.settled m,
            other_item x m h,
          )));
  }

-- Confirming a claim leaves at most one approved claim on each item, and none on an open one.
pub confirm_claim-IsSettled :
    (ctx : Context) (k : ℕ) (s s' : LostFound)
    → IsSettled s
    → confirm_claim ctx k s ≡ ok s'
    → IsSettled s'
confirm_claim-IsSettled ctx k s s' v e =
    confirmed-IsSettled ctx k s s' v (confirm_claim_facts ctx k s s' e)
