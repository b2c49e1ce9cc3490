-- ===== src/Communities/Automod/Verdicts.antt =====
-- Remove outranks queue, wherever the rules stand in the list.
use campus_os.Common.{
  Text, ℕ, ◌≡◌, refl, ap, ◌∙◌, inl, inr, Bool-cases, Bool, true, false, not, ◌&&◌, Option, none,
  some, List, [], ◌∷◌, ◌==◌, any, filter, arith, any-filter,
}
use campus_os.Communities.Automod.{
  AutomodRule, Verdict, removes, hit, verdict_of, first_of, screen_from, screen,
}

abbrev pub is_removal : Option Verdict → Bool
is_removal none = false
is_removal (some v) = removes v.action

abbrev pub passes : Option Verdict → Bool
passes none = true
passes (some v) = false

module _ (lower : Text → Text) (text : Text) (link_domain : Option Text) where
  screen_from_lem :
      (v : Option Verdict) (rs : List AutomodRule)
      → is_removal v ≡ false
      → (is_removal (screen_from lower text link_domain v rs)
          ≡ any (λ r. hit lower text link_domain r && removes r.action) rs)
        × (passes (screen_from lower text link_domain v rs)
            ≡ (passes v && not (any (hit lower text link_domain) rs)))
  unfolding screen_from
  screen_from_lem v [] h = ground arith
  screen_from_lem v (r ∷ rs) h = elim (Bool-cases (removes r.action)) [
    | inl t ↦ ground (arith, t, h, screen_from_lem v rs h, kept v)
    | inr f ↦ ground (
      arith,
      f,
      h,
      screen_from_lem v rs h,
      screen_from_lem (first_of lower text link_domain v (verdict_of lower text link_domain r)) rs
          (queued v h f),
      kept v,
    )
  ]
    where
      kept :
          (w : Option Verdict)
          → passes (first_of lower text link_domain w (verdict_of lower text link_domain r)) ≡ false
      kept none = refl
      kept (some w) = refl

      queued :
          (w : Option Verdict)
          → is_removal w ≡ false
          → removes r.action ≡ false
          → is_removal (first_of lower text link_domain w (verdict_of lower text link_domain r))
            ≡ false
      queued none g k = k
      queued (some w) g k = g

  -- An item is removed exactly when some rule of the community that it hits removes, and it passes
  -- exactly when it hits none; otherwise it is held. The order of the rules does not matter for this.
  pub screen_outranks :
      (community_id : ℕ) (rules : List AutomodRule)
      → (is_removal (screen lower text link_domain community_id rules)
          ≡ any
              (λ r.
                (r.community_id == community_id)
                && (hit lower text link_domain r && removes r.action))
              rules)
        × (passes (screen lower text link_domain community_id rules)
            ≡ not
                (any (λ r. (r.community_id == community_id) && hit lower text link_domain r) rules))
  unfolding screen
  screen_outranks community_id rules =
      let (a, b) = screen_from_lem none (filter (λ r. r.community_id == community_id) rules) refl in
      (
        a
            ∙ any-filter (λ r. r.community_id == community_id)
                (λ r. hit lower text link_domain r && removes r.action) rules,
        b
            ∙ ap not (
                any-filter (λ r. r.community_id == community_id) (hit lower text link_domain)
                  rules),
      )
