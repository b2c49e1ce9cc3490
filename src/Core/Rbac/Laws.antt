-- ===== src/Core/Rbac/Laws.antt =====
-- What permission sets answer.
use campus_os.Common.{
  ◌≡◌, refl, ap, ◌∙◌, Bool, true, false, ◌&&◌, ◌||◌, List, [], ◌∷◌, ◌++◌, map, ==_iff, any, filter,
  any-append, arith, Bool-cases, inl, inr,
}
use campus_os.Core.Rbac.{
  Permission, manage_timetable, manage_rooms, approve_verifications, manage_members,
  view_member_identity, restrict_members, manage_roles, view_analytics, post, moderate,
  communities_create, communities_oversee, communities_unmask, communities_post,
  communities_comment, communities_vote, communities_moderate, communities_flairs,
  communities_manage, communities_transfer, lostfound_moderate, messages_moderate, rides_moderate,
  map_manage, permissions, place, same_permission, Name, known, unknown, same_name, PermissionSet,
  holds, to_set, permission_set, has, to_array,
}

-- Names that are the same as one name are held or not alike.
holds-to_set :
    (held names : List Name) (n : Name)
    → holds (to_set held names) n ≡ (holds held n || holds names n)
unfolding to_set
holds-to_set held [] n = ground arith
holds-to_set held (m ∷ names) n = elim (Bool-cases (holds held m)) [
  | inl t ↦ ground (arith, holds-to_set held names n, held_same held n m t)
  | inr f ↦
      ground (arith, holds-to_set (held ++ m ∷ []) names n, any-append (same_name n) held (m ∷ []))
]
  where
    same_name-trans :
        (a b c : Name) → same_name a b ≡ true → same_name b c ≡ true → same_name a c ≡ true
    same_name-trans (known p) (known q) (known r) h k = ground arith
    same_name-trans (known p) (known q) (unknown u) h k = k
    same_name-trans (known p) (unknown t) c h k = ground arith
    same_name-trans (unknown t) (known q) c h k = ground arith
    same_name-trans (unknown t) (unknown u) (known r) h k = k
    same_name-trans (unknown t) (unknown u) (unknown v) h k = ground arith

    held_same :
        (xs : List Name) (a b : Name) → holds xs b ≡ true → same_name a b ≡ true → holds xs a ≡ true
    held_same [] a b h k = h
    held_same (x ∷ xs) a b h k = ground (arith, held_same xs a b, same_name-trans a b x k)

in_catalogue : (p : Permission) → any (same_permission p) permissions ≡ true
in_catalogue manage_timetable = refl
in_catalogue manage_rooms = refl
in_catalogue approve_verifications = refl
in_catalogue manage_members = refl
in_catalogue view_member_identity = refl
in_catalogue restrict_members = refl
in_catalogue manage_roles = refl
in_catalogue view_analytics = refl
in_catalogue post = refl
in_catalogue moderate = refl
in_catalogue communities_create = refl
in_catalogue communities_oversee = refl
in_catalogue communities_unmask = refl
in_catalogue communities_post = refl
in_catalogue communities_comment = refl
in_catalogue communities_vote = refl
in_catalogue communities_moderate = refl
in_catalogue communities_flairs = refl
in_catalogue communities_manage = refl
in_catalogue communities_transfer = refl
in_catalogue lostfound_moderate = refl
in_catalogue messages_moderate = refl
in_catalogue rides_moderate = refl
in_catalogue map_manage = refl

taken :
    (e rest held r : Bool)
    → rest ≡ (held && r)
    → (e ≡ true → held ≡ true)
    → (e || rest) ≡ (held && (e || r))
taken e rest held r h k = ground arith

passed :
    (e rest held r : Bool)
    → rest ≡ (held && r)
    → (e ≡ true → held ≡ false)
    → rest ≡ (held && (e || r))
passed e rest held r h k = ground arith

-- The permissions that a set holds, found by a walk over any list.
holds-filter :
    (held : List Name) (p : Permission) (ps : List Permission)
    → holds (map known (filter (λ q. holds held (known q)) ps)) (known p)
      ≡ (holds held (known p) && any (same_permission p) ps)
holds-filter held p [] = absent (holds held (known p))
  where
    absent : (b : Bool) → false ≡ (b && false)
    absent true = refl
    absent false = refl
holds-filter held p (q ∷ ps) = elim (Bool-cases (holds held (known q))) [
  | inl t ↦ rw t (
      taken (same_permission p q) _ (holds held (known p)) (any (same_permission p) ps)
        (holds-filter held p ps) (λ e. same_held held e ∙ t))
  | inr f ↦ rw f (
      passed (same_permission p q) _ (holds held (known p)) (any (same_permission p) ps)
        (holds-filter held p ps) (λ e. same_held held e ∙ f))
]
  where
    same_held :
        (xs : List Name) → same_permission p q ≡ true → holds xs (known p) ≡ holds xs (known q)
    same_held [] h = refl
    same_held (known r ∷ xs) h = rw ((==_iff (place p) (place q)).0 h, same_held xs h) refl
    same_held (unknown t ∷ xs) h = same_held xs h

-- Reading a permission set back from its array gives the same answer for every permission of the
-- catalogue.
pub has-to_array :
    (s : PermissionSet) (p : Permission) → has (permission_set (map known (to_array s))) p ≡ has s p
unfolding permission_set to_array
has-to_array s p =
    holds-to_set [] (map known (to_array s)) (known p)
    ∙ holds-filter s.held p permissions
    ∙ ap (λ b. has s p && b) (in_catalogue p)
    ∙ kept (has s p)
  where
    kept : (b : Bool) → (b && true) ≡ b
    kept true = refl
    kept false = refl
