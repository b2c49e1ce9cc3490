-- ===== src/Communities/Gates/Floors.antt =====
-- A community can only tighten what the tenant asks for.
use campus_os.Common.{
  ℕ, ◌≤◌, ◌<◌, max, ◌≡◌, refl, ◌↔◌, ◌⊎◌, inl, inr, Bool, true, false, ◌&&◌, ◌||◌, none, List, leb,
  if◌then◌else◌, arith, ℤ, pos, ltb_ℤ, Bool-cases,
}
use campus_os.Core.Rbac.{communities_moderate}
use campus_os.Tenancy.{Context}
use campus_os.Communities.{Grant}
use campus_os.Communities.Access.{can_in_community}
use campus_os.Communities.Gates.{
  GateAction, CommunityGates, GateFloor, asked, Account, KarmaRow, account_age_days,
  public_karma_of, failed_gate, check_gate,
}

-- A person has the karma that is asked for, where any is.
abbrev pub HasKarma : ℕ → ℤ → Type 0
HasKarma n karma = 0 < n → ltb_ℤ karma (pos n) ≡ false

failed_gate_iff :
    (c f a g : ℕ) (karma : ℤ) (age : ℕ) (v : Bool)
    → (failed_gate
          (record { min_karma = max c f; min_account_age_days = max a g; require_verified = v })
          karma
          age
        ≡ none)
      ↔ (HasKarma c karma × HasKarma f karma × a ≤ age × g ≤ age)
failed_gate_iff c f a g karma age v = ground arith

no_gate :
    (c f a g : ℕ) (karma : ℤ) (age : ℕ)
    → (leb (max c f) 0 && leb (max a g) 0) ≡ true
    → HasKarma c karma × HasKarma f karma × a ≤ age × g ≤ age
no_gate c f a g karma age h = (
  λ k. absurd (omega (arith, zeros)),
  λ k. absurd (omega (arith, zeros)),
  omega (arith, zeros),
  omega (arith, zeros),
)
  where
    zeros : (max c f ≤ 0) × (max a g ≤ 0)
    zeros = ground arith

gate_iff :
    (c f a g : ℕ) (karma : ℤ) (age : ℕ) (v m : Bool)
    → ((if leb (max c f) 0 && leb (max a g) 0
          then none
          else (if m
              then none
              else failed_gate
                  (record {
                    min_karma = max c f;
                    min_account_age_days = max a g;
                    require_verified = v;
                  })
                  karma
                  age))
        ≡ none)
      ↔ ((m ≡ true) ⊎ (HasKarma c karma × HasKarma f karma × a ≤ age × g ≤ age))
gate_iff c f a g karma age v m = elim (Bool-cases (leb (max c f) 0 && leb (max a g) 0)) [
  | inl t ↦ rw t (λ h. inr (no_gate c f a g karma age t), λ h. refl)
  | inr n ↦ rw n (stands m)
]
  where
    stands :
        (b : Bool)
        → ((if b
              then none
              else failed_gate
                  (record {
                    min_karma = max c f;
                    min_account_age_days = max a g;
                    require_verified = v;
                  })
                  karma
                  age)
            ≡ none)
          ↔ ((b ≡ true) ⊎ (HasKarma c karma × HasKarma f karma × a ≤ age × g ≤ age))
    stands true = (λ h. inl refl, λ h. refl)
    stands false =
        let (there, back) = failed_gate_iff c f a g karma age v in
        (λ h. inr (there h), λ h. elim h [ inl e ↦ cc | inr p ↦ back p ])

-- Nobody stops a person exactly when the person moderates the community, or meets what the
-- community asks and what the tenant asks, in karma and in the age of the account.
pub check_gate_iff :
    (ctx : Context) (community_id : ℕ) (community : CommunityGates) (floor : GateFloor)
    (action : GateAction) (grants : List Grant) (karma : List KarmaRow) (users : List Account)
    → (check_gate ctx community_id community floor action grants karma users ≡ none) ↔ (
        (can_in_community grants ctx community_id communities_moderate ≡ true)
        ⊎ (HasKarma (asked community action) (public_karma_of karma ctx)
            × HasKarma floor.floor_min_karma (public_karma_of karma ctx)
            × community.min_account_age_days ≤ account_age_days users ctx
            × floor.floor_account_age_days ≤ account_age_days users ctx))
unfolding check_gate
check_gate_iff ctx community_id community floor action grants karma users =
    gate_iff (asked community action) floor.floor_min_karma community.min_account_age_days
      floor.floor_account_age_days (public_karma_of karma ctx) (account_age_days users ctx)
      (community.require_verified || floor.floor_require_verified)
      (can_in_community grants ctx community_id communities_moderate)
