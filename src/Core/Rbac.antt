-- ===== src/Core/Rbac.antt =====
-- packages/core/src/rbac/index.ts: the permission catalogue, the roles, and permission sets.
-- A stored permission is a text: a name of the catalogue, or some other text.
pub mod Laws
use campus_os.Common.{
  ℕ, ◌+◌, Bool, true, false, not, ◌&&◌, Option, none, some, List, [], ◌∷◌, ◌++◌, map, ◌==◌,
  if◌then◌else◌, any, all, filter, length,
}

pub data Permission : Type 0 where
  manage_timetable manage_rooms approve_verifications manage_members view_member_identity :
      Permission
  restrict_members manage_roles view_analytics post moderate : Permission
  communities_create communities_oversee communities_unmask : Permission
  communities_post communities_comment communities_vote communities_moderate : Permission
  communities_flairs communities_manage communities_transfer : Permission
  lostfound_moderate messages_moderate rides_moderate map_manage : Permission

abbrev pub permissions : List Permission
permissions =
    manage_timetable ∷ manage_rooms ∷ approve_verifications ∷ manage_members ∷ view_member_identity
    ∷ restrict_members ∷ manage_roles ∷ view_analytics ∷ post ∷ moderate ∷ communities_create
    ∷ communities_oversee ∷ communities_unmask ∷ communities_post ∷ communities_comment
    ∷ communities_vote ∷ communities_moderate ∷ communities_flairs ∷ communities_manage
    ∷ communities_transfer ∷ lostfound_moderate ∷ messages_moderate ∷ rides_moderate ∷ map_manage
    ∷ []

-- The place of a permission in the catalogue, by which two are compared.
abbrev pub place : Permission → ℕ
place manage_timetable = 0
place manage_rooms = 1
place approve_verifications = 2
place manage_members = 3
place view_member_identity = 4
place restrict_members = 5
place manage_roles = 6
place view_analytics = 7
place post = 8
place moderate = 9
place communities_create = 10
place communities_oversee = 11
place communities_unmask = 12
place communities_post = 13
place communities_comment = 14
place communities_vote = 15
place communities_moderate = 16
place communities_flairs = 17
place communities_manage = 18
place communities_transfer = 19
place lostfound_moderate = 20
place messages_moderate = 21
place rides_moderate = 22
place map_manage = 23

abbrev pub same_permission : Permission → Permission → Bool
same_permission p q = place p == place q

-- A text where a permission is expected; `unknown` names the texts outside of the catalogue.
pub data Name : Type 0 where
  known : Permission → Name
  unknown : ℕ → Name

abbrev pub same_name : Name → Name → Bool
same_name (known p) (known q) = same_permission p q
same_name (known p) (unknown t) = false
same_name (unknown t) (known q) = false
same_name (unknown t) (unknown u) = t == u

abbrev pub is_permission : Name → Bool
is_permission value = any (λ p. same_name (known p) value) permissions

pub data SystemRoleKey : Type 0 where
  student teacher tenant_admin : SystemRoleKey

abbrev pub system_role : SystemRoleKey → List Permission
system_role student = post ∷ communities_create ∷ []
system_role teacher = post ∷ communities_create ∷ []
system_role tenant_admin =
    filter (λ p. not (same_permission p communities_unmask) && not (same_permission p manage_roles))
      permissions

pub data CommunityRoleKey : Type 0 where
  community_member community_moderator community_owner : CommunityRoleKey

abbrev pub community_role : CommunityRoleKey → List Permission
community_role community_member = communities_post ∷ communities_comment ∷ communities_vote ∷ []
community_role community_moderator =
    communities_post ∷ communities_comment ∷ communities_vote ∷ communities_moderate
    ∷ communities_flairs ∷ []
community_role community_owner =
    communities_post ∷ communities_comment ∷ communities_vote ∷ communities_moderate
    ∷ communities_flairs ∷ communities_manage ∷ communities_transfer ∷ []

pub record PermissionSet : Type 0 where
  pub held : List Name

abbrev pub holds : List Name → Name → Bool
holds held n = any (same_name n) held

-- `new Set(permissions)`: a name that is there already is not added again.
unfoldable pub to_set : List Name → List Name → List Name
to_set held [] = held
to_set held (n ∷ ns) =
    let grown = to_set (held ++ n ∷ []) ns in
    let same = to_set held ns in if holds held n then same else grown

unfoldable pub permission_set : List Name → PermissionSet
permission_set names = record { held = to_set [] names }

abbrev pub has : PermissionSet → Permission → Bool
has s p = holds s.held (known p)

abbrev pub has_all : PermissionSet → List Permission → Bool
has_all s ps = all (λ p. holds s.held (known p)) ps

abbrev pub has_any : PermissionSet → List Permission → Bool
has_any s ps = any (λ p. holds s.held (known p)) ps

abbrev pub size : PermissionSet → ℕ
size s = length s.held

unfoldable pub to_array : PermissionSet → List Permission
to_array s = filter (λ p. holds s.held (known p)) permissions

abbrev pub no_permissions : PermissionSet
no_permissions = record { held = [] }
