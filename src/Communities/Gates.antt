-- ===== src/Communities/Gates.antt =====
-- packages/modules/communities/src/gates.ts: what a community asks for before someone writes in it.
-- The numbers that a gate asks for are natural numbers; karma may be negative. The karma view and
-- the users table are lists.
pub mod Floors
use campus_os.Common.{
  ℕ, ◌-◌, ◌/◌, max, Bool, true, false, not, ◌&&◌, ◌||◌, Option, none, some, List, [], ◌∷◌, ltb, leb,
  ◌==◌, if◌then◌else◌, find, ℤ, pos, ltb_ℤ,
}
use campus_os.Core.Rbac.{communities_moderate}
use campus_os.Tenancy.{Context}
use campus_os.Communities.{Grant}
use campus_os.Communities.Access.{can_in_community}

pub data GateAction : Type 0 where
  write_post write_comment join : GateAction

pub data GateCode : Type 0 where
  gate_karma gate_account_age : GateCode

pub record CommunityGates : Type 0 where
  pub min_karma_to_post : ℕ
  pub min_karma_to_comment : ℕ
  pub min_karma_to_join : ℕ
  pub min_account_age_days : ℕ
  pub require_verified : Bool

pub record GateFloor : Type 0 where
  pub floor_min_karma : ℕ
  pub floor_account_age_days : ℕ
  pub floor_require_verified : Bool

pub record EffectiveGates : Type 0 where
  pub min_karma : ℕ
  pub min_account_age_days : ℕ
  pub require_verified : Bool

abbrev pub asked : CommunityGates → GateAction → ℕ
asked c write_post = c.min_karma_to_post
asked c write_comment = c.min_karma_to_comment
asked c join = c.min_karma_to_join

abbrev pub effective_gates : CommunityGates → GateFloor → GateAction → EffectiveGates
effective_gates community floor action = record {
  min_karma = max (asked community action) floor.floor_min_karma;
  min_account_age_days = max community.min_account_age_days floor.floor_account_age_days;
  require_verified = community.require_verified || floor.floor_require_verified;
}

pub record Account : Type 0 where
  pub id : ℕ
  pub created_at : ℕ

pub record KarmaRow : Type 0 where
  pub tenant_id : ℕ
  pub user_id : ℕ
  pub karma : ℤ

abbrev days_since : ℕ → Option Account → ℕ
days_since now none = 0
days_since now (some u) = (now - u.created_at) / 86400000

unfoldable pub account_age_days : List Account → Context → ℕ
account_age_days users ctx = days_since ctx.now (find (λ u. u.id == ctx.user_id) users)

abbrev karma_in : Option KarmaRow → ℤ
karma_in none = pos 0
karma_in (some r) = r.karma

unfoldable pub public_karma_of : List KarmaRow → Context → ℤ
public_karma_of rows ctx =
    karma_in (find (λ r. (r.tenant_id == ctx.tenant_id) && (r.user_id == ctx.user_id)) rows)

-- The two tests that follow once a gate is asked for.
abbrev pub failed_gate : EffectiveGates → ℤ → ℕ → Option GateCode
failed_gate gates karma age =
    if ltb 0 gates.min_karma && ltb_ℤ karma (pos gates.min_karma)
    then some gate_karma
    else (if ltb 0 gates.min_account_age_days && ltb age gates.min_account_age_days
        then some gate_account_age
        else none)

unfoldable pub check_gate :
    Context
    → ℕ
    → CommunityGates
    → GateFloor
    → GateAction
    → List Grant
    → List KarmaRow
    → List Account
    → Option GateCode
check_gate ctx community_id community floor action grants karma users =
    let gates = effective_gates community floor action in
    if leb gates.min_karma 0 && leb gates.min_account_age_days 0
    then none
    else (if can_in_community grants ctx community_id communities_moderate
        then none
        else failed_gate gates (public_karma_of karma ctx) (account_age_days users ctx))
