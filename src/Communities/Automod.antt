-- ===== src/Communities/Automod.antt =====
-- packages/modules/communities/src/automod.ts: `screen`, which matches an item against the filter
-- rules of a community. `toLowerCase` is a parameter: the result does not rest on what it folds.
pub mod Verdicts
use campus_os.Common.{
  Text, ends_with, includes_text, same_text, ℕ, Bool, true, false, not, ◌&&◌, ◌||◌, Option, none,
  some, List, [], ◌∷◌, ◌++◌, ◌==◌, if◌then◌else◌, filter,
}

pub data RuleKind : Type 0 where
  keyword domain : RuleKind

pub data RuleAction : Type 0 where
  queue remove : RuleAction

pub record AutomodRule : Type 0 where
  pub community_id : ℕ
  pub kind : RuleKind
  pub pattern : Text
  pub action : RuleAction

pub record Verdict : Type 0 where
  pub action : RuleAction
  pub kind : RuleKind
  pub pattern : Text

abbrev pub removes : RuleAction → Bool
removes queue = false
removes remove = true

-- The domain itself, or one below it.
abbrev of_domain : Option Text → Text → Bool
of_domain none pattern = false
of_domain (some d) pattern = same_text d pattern || ends_with d (b'.' ∷ pattern)

abbrev lower_option : (Text → Text) → Option Text → Option Text
lower_option lower none = none
lower_option lower (some d) = some (lower d)

module _ (lower : Text → Text) (text : Text) (link_domain : Option Text) where
  unfoldable pub hit : AutomodRule → Bool
  hit r = elim r.kind [
    | keyword ↦ includes_text (lower text) (lower r.pattern)
    | domain ↦ of_domain (lower_option lower link_domain) (lower r.pattern)
  ]

  abbrev pub verdict_of : AutomodRule → Verdict
  verdict_of r = record { action = r.action; kind = r.kind; pattern = r.pattern }

  -- `verdict ??= found`.
  abbrev pub first_of : Option Verdict → Verdict → Option Verdict
  first_of none v = some v
  first_of (some w) v = some w

  -- The loop, with the verdict so far.
  unfoldable pub screen_from : Option Verdict → List AutomodRule → Option Verdict
  screen_from verdict [] = verdict
  screen_from verdict (r ∷ rs) =
      let held = screen_from (first_of verdict (verdict_of r)) rs in
      let passed = screen_from verdict rs in
      if hit r then (if removes r.action then some (verdict_of r) else held) else passed

  unfoldable pub screen : ℕ → List AutomodRule → Option Verdict
  screen community_id rules = screen_from none (filter (λ r. r.community_id == community_id) rules)
