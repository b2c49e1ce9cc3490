-- ===== src/LostFound/Claims/Resolution.antt =====
-- One approved claim per item: an open item has none, and no decision ever leaves two.
use campus_os.Common.{
  Text, trim, ℕ, ◌+◌, ◌≤◌, ◌≡◌, refl, Bool, true, false, ◌&&◌, some, List, [], ◌∷◌, ◌++◌, map, ◌==◌,
  find, count, includes, update_where, All, In, Distinct, arith, Option-cases, inl, inr, one_if,
  find-In, find_holds, All-map_In, Distinct-snoc, map-update_where, count-append, count-update_le,
}
use campus_os.Core.Result.{ok}
use campus_os.Tenancy.{Context}
use campus_os.LostFound.{
  LostFoundItem, LostFoundClaim, ClaimStatus, LostFound, is_open, is_approved,
}
use campus_os.LostFound.Claims.{
  new_claim, open_claim, Joined, claim_by_id, item_of, joined_claim, decide,
}

abbrev pub approved_on : ℕ → LostFoundClaim → Bool
approved_on item c = (c.item_id == item) && is_approved c.status

-- At most one approved claim, and none while the item is open.
abbrev pub Settled : List LostFoundClaim → LostFoundItem → Type 0
Settled cs i = count (approved_on i.id) cs + one_if (is_open i.status) ≤ 1

pub record IsSettled (s : LostFound) : Type 0 where
  pub item_ids : Distinct (map (λ i. i.id) s.items)
  pub claim_ids : Distinct (map (λ c. c.id) s.claims)
  pub settled : All (Settled s.claims) s.items

-- What a successful join gives.
pub joined_facts :
    (ctx : Context) (k : ℕ) (s : LostFound) (j : Joined)
    → joined_claim ctx k s ≡ some j
    → In j.claim s.claims
      × (claim_by_id ctx s.items k j.claim ≡ true)
      × In j.item s.items
      × (item_of ctx.tenant_id j.claim.item_id j.item ≡ true)
unfolding joined_claim
joined_facts ctx k s j e = elim (Option-cases (find (claim_by_id ctx s.items k) s.claims)) [
  | inl missing ↦ ground arith
  | inr (c, there) ↦ elim (Option-cases (find (item_of ctx.tenant_id c.item_id) s.items)) [
    | inl missing ↦ ground arith
    | inr (i, item) ↦
        let same : j ≡ record { claim = c; item = i } = ground arith in
        rw same (
          find-In _ s.claims there,
          find_holds _ s.claims there,
          find-In _ s.items item,
          find_holds _ s.items item,
        )
  ]
]

open_claim_claims :
    (ctx : Context) (fresh item i : ℕ) (message : Text) (s s' : LostFound)
    → open_claim ctx fresh item message s ≡ ok (i, s')
    → (s'.items ≡ s.items) × (s'.claims ≡ s.claims ++ new_claim ctx fresh item (trim message) ∷ [])
unfolding open_claim
open_claim_claims ctx fresh item i message s s' e = ground arith

Settled-more_pending :
    (ctx : Context) (fresh item : ℕ) (text : Text) (cs : List LostFoundClaim) (i : LostFoundItem)
    → Settled cs i
    → Settled (cs ++ new_claim ctx fresh item text ∷ []) i
Settled-more_pending ctx fresh item text cs i h =
    ground (arith, count-append (approved_on i.id) cs (new_claim ctx fresh item text ∷ []))

-- Opening a claim under a fresh id leaves at most one approved claim on each item, and none on an
-- open one.
pub open_claim-IsSettled :
    (ctx : Context) (fresh item i : ℕ) (message : Text) (s s' : LostFound)
    → IsSettled s
    → includes (map (λ c. c.id) s.claims) fresh ≡ false
    → open_claim ctx fresh item message s ≡ ok (i, s')
    → IsSettled s'
open_claim-IsSettled ctx fresh item i message s s' v new e =
    let (items, claims) = open_claim_claims ctx fresh item i message s s' e in
    record {
      item_ids = rw items v.item_ids;
      claim_ids = rw claims (
          Distinct-snoc (λ c. c.id) s.claims (new_claim ctx fresh item (trim message)) v.claim_ids
            new);
      settled =
          rw (items, claims)
            (All-map_In (Settled s.claims)
              (Settled (s.claims ++ new_claim ctx fresh item (trim message) ∷ [])) s.items
              (λ x m h. Settled-more_pending ctx fresh item (trim message) s.claims x h) v.settled);
    }

-- Claims that are decided, and not approved, leave every item settled.
pub claims_fall-IsSettled :
    (s : LostFound) (p : LostFoundClaim → Bool) (status : ClaimStatus) (now : ℕ)
    → is_approved status ≡ false
    → IsSettled s
    → IsSettled (record s { claims = update_where p (decide status now) s.claims })
claims_fall-IsSettled s p status now h v = record {
  item_ids = v.item_ids;
  claim_ids =
      rw
        (map-update_where (λ (c : LostFoundClaim). c.id) p (decide status now) s.claims (λ c. refl))
        v.claim_ids;
  settled =
      All-map_In (Settled s.claims) _ s.items
        (λ x m k. ground (
          arith,
          count-update_le (approved_on x.id) p (decide status now) s.claims
              (λ r i t. (ground arith)),
        ))
        v.settled;
}
