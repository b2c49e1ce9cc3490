-- ===== src/Communities/Access.antt =====
-- packages/modules/communities/src/access.ts: who may do what.
use campus_os.Common.{
  ℕ, Bool, true, not, ◌&&◌, Option, none, some, List, ltb, ◌==◌, any, filter, map,
}
use campus_os.Core.Rbac.{Permission, PermissionSet, permission_set, has}
use campus_os.Tenancy.{Context, is_present}
use campus_os.Communities.{Ban, Grant}

pub data Refusal : Type 0 where
  not_verified not_allowed banned not_found locked archived kind_not_allowed : Refusal
  anonymous_not_allowed rate_limited invalid exists depth self self_vote : Refusal
  last_owner muted pin_cap closed rules_not_accepted gate_karma gate_account_age : Refusal

abbrev granted : Context → ℕ → Grant → Bool
granted ctx community g =
    (g.user_id == ctx.user_id) && ((g.tenant_id == ctx.tenant_id) && (g.community_id == community))

unfoldable pub community_permissions : List Grant → Context → ℕ → PermissionSet
community_permissions grants ctx community =
    permission_set (map (λ g. g.permission) (filter (granted ctx community) grants))

unfoldable pub can_in_community : List Grant → Context → ℕ → Permission → Bool
can_in_community grants ctx community permission =
    has (community_permissions grants ctx community) permission

-- `until is null or until > now()`.
abbrev pub still_holds : ℕ → Option ℕ → Bool
still_holds now none = true
still_holds now (some t) = ltb now t

abbrev pub covers_community : ℕ → Option ℕ → Bool
covers_community community none = true
covers_community community (some c) = c == community

-- An unlifted, unexpired ban here or tenant wide.
unfoldable pub is_banned : List Ban → Context → ℕ → Bool
is_banned bans ctx community =
    any
      (λ b.
        (b.user_id == ctx.user_id)
        && ((b.tenant_id == ctx.tenant_id)
            && (covers_community community b.community_id
                && (not (is_present b.lifted_at) && still_holds ctx.now b.until))))
      bans

abbrev pub votes_per_hour : ℕ
votes_per_hour = 200

abbrev pub hour : ℕ
hour = 3600000
