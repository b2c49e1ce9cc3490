-- ===== src/LostFound/Claims/Settling.antt =====
-- confirmClaim of packages/modules/lost-found/src/claims.ts, on the branch where it succeeds.
use campus_os.Common.{ℕ, ◌≡◌, ◌≢◌, true, some, ◌==◌, count, arith, inl, inr, All_In}
use campus_os.Core.Result.{Result-cases, ok, err}
use campus_os.Tenancy.{Context}
use campus_os.LostFound.{LostFound, is_open, is_pending}
use campus_os.LostFound.Claims.{ClaimRefusal, Joined, joined_claim, confirm_claim}
use campus_os.LostFound.Claims.Resolution.{approved_on, Settled, IsSettled, joined_facts}
use campus_os.LostFound.Claims.Confirming.{confirm_claim_facts, approved_after}

no_refusal :
    (ctx : Context) (k : ℕ) (s : LostFound) (j : Joined) (e : ClaimRefusal)
    → joined_claim ctx k s ≡ some j
    → (j.item.reporter_id == ctx.user_id) ≡ true
    → is_pending j.claim.status ≡ true
    → is_open j.item.status ≡ true
    → confirm_claim ctx k s ≢ err e
unfolding confirm_claim
no_refusal ctx k s j e there reporter waiting still r = ground arith

-- When the reporter of an open item confirms a pending claim on it, the confirmation succeeds, and
-- the item then has exactly one approved claim.
pub confirm_claim_settles :
    (ctx : Context) (k : ℕ) (s : LostFound) (j : Joined)
    → IsSettled s
    → joined_claim ctx k s ≡ some j
    → (j.item.reporter_id == ctx.user_id) ≡ true
    → is_pending j.claim.status ≡ true
    → is_open j.item.status ≡ true
    → (s' : LostFound) × (confirm_claim ctx k s ≡ ok s')
      × (count (approved_on j.item.id) s'.claims ≡ 1)
confirm_claim_settles ctx k s j v there reporter waiting still =
    elim (Result-cases (confirm_claim ctx k s)) [
      | inl (e, r) ↦ absurd (no_refusal ctx k s j e there reporter waiting still r)
      | inr (s', r) ↦
          let c = confirm_claim_facts ctx k s s' r in
          let same : c.join ≡ j = ground (arith, c.joined) in
          let (stored, seen, listed, joined) = joined_facts ctx k s j there in
          let here : (c.join.claim.item_id == j.item.id) ≡ true =
            rw same (ground (arith, joined)) in
          (
            s',
            r,
            ground (
              arith,
              approved_after ctx k s s' v c j.item.id,
              All_In (Settled s.claims) s.items j.item v.settled listed,
              here,
              still,
            ),
          )
    ]
