-- ===== src/Marketplace/Gigs/Withdrawing.antt =====
-- A gig that its seller pauses or deletes: setGigStatus and deleteGig of
-- packages/modules/marketplace/src/services-write.ts against placeOrder of orders-write.ts.
use campus_os.Common.{
  Text, ℕ, ◌≡◌, refl, ap, ◌∙◌, Bool, true, false, ◌&&◌, ◌⊎◌, none, List, [], ◌∷◌, map, ◌==◌, any,
  find, find-some, find-none, find-In, find_holds, update_where, In, Distinct, row_unique, arith,
  Bool-cases, Option-cases, inl, inr,
}
use campus_os.Core.Result.{ok, is_ok}
use campus_os.Tenancy.{Context}
use campus_os.Marketplace.{paused, Gig, GigPackage, Market}
use campus_os.Marketplace.Orders.{offered_gig, offer_of, PlaceOrderInput, place_order}
use campus_os.Marketplace.Gigs.{
  own_gig, settable, set_to, set_gig_status, delete_gig, delete_gig_photo_rows, deleted_now,
}

any-update_none :
    (q p : Gig → Bool) (f : Gig → Gig) (gs : List Gig)
    → ((g : Gig) → In g gs → p g ≡ true → q (f g) ≡ false)
    → ((g : Gig) → In g gs → p g ≡ false → q g ≡ false)
    → any q (update_where p f gs) ≡ false
any-update_none q p f [] h k = refl
any-update_none q p f (g ∷ gs) h k = elim (Bool-cases (p g)) [
  | inl e ↦
      rw (e, h g (inl refl) e) (any-update_none q p f gs (λ x i. h x (inr i)) (λ x i. k x (inr i)))
  | inr e ↦
      rw (e, k g (inl refl) e) (any-update_none q p f gs (λ x i. h x (inr i)) (λ x i. k x (inr i)))
]

-- The update of the one row with an id takes it from what is on offer.
none_offered :
    (tenant gig : ℕ) (p : Gig → Bool) (f : Gig → Gig) (gs : List Gig)
    → Distinct (map (λ g. g.id) gs)
    → ((g : Gig) → p g ≡ true → (g.id == gig) ≡ true)
    → ((g : Gig) → p g ≡ true → offered_gig tenant gig (f g) ≡ false)
    → any p gs ≡ true
    → any (offered_gig tenant gig) (update_where p f gs) ≡ false
none_offered tenant gig p f gs d its taken there = elim (Option-cases (find p gs)) [
  | inl e ↦ let no_row : any p gs ≡ false = find-none p gs e in cc
  | inr (r, e) ↦
      any-update_none (offered_gig tenant gig) p f gs (λ g i h. taken g h)
        (λ g i h. elim (Bool-cases (offered_gig tenant gig g)) [
          | inr n ↦ n
          | inl y ↦
              let held = find_holds p gs e in
              let row : g ≡ r =
                row_unique (λ x. x.id) gs g r d i (find-In p gs e)
                  (ground (arith, its r held, y)) in
              let also : p g ≡ true = ap p row ∙ held in cc
        ])
]

no_gig : (q : Gig → Bool) (gs : List Gig) → any q gs ≡ false → find q gs ≡ none
no_gig q gs h = elim (Option-cases (find q gs)) [
  | inl e ↦ e
  | inr (g, e) ↦ let one : any q gs ≡ true = find-some q gs e in cc
]

offer_of-none :
    (tenant gig package_id : ℕ) (t : Market)
    → any (offered_gig tenant gig) t.gigs ≡ false
    → offer_of tenant gig package_id t ≡ none
unfolding offer_of
offer_of-none tenant gig package_id t gone =
    let asked =
      λ (p : GigPackage). (p.id == package_id) && ((p.gig_id == gig) && (p.tenant_id == tenant)) in
    elim (Option-cases (find asked t.packages)) [
      | inl e ↦ ground (arith, e)
      | inr (p, e) ↦
          let same : p.gig_id ≡ gig = ground (arith, find_holds asked t.packages e) in
          let none_found : find (offered_gig tenant p.gig_id) t.gigs ≡ none =
            rw same (no_gig (offered_gig tenant gig) t.gigs gone) in
          ground (arith, e, none_found)
    ]

unlisted :
    (buyer : Context) (fresh gig : ℕ) (input : PlaceOrderInput) (t : Market)
    → input.gig_id ≡ gig
    → any (offered_gig buyer.tenant_id gig) t.gigs ≡ false
    → is_ok (place_order buyer fresh input t) ≡ false
unfolding place_order
unlisted buyer fresh gig input t its gone =
    ground (arith, its, offer_of-none buyer.tenant_id gig input.package_id t gone)

-- Where the ids of the gigs are distinct, once its seller paused or deleted a gig, nobody can place an
-- order for it in the tenant.
pub withdrawn_unordered :
    (ctx buyer : Context) (fresh gig : ℕ) (input : PlaceOrderInput) (keys : List Text)
    (s t : Market)
    → Distinct (map (λ g. g.id) s.gigs)
    → buyer.tenant_id ≡ ctx.tenant_id
    → input.gig_id ≡ gig
    → (set_gig_status ctx gig paused s ≡ ok (true, t)) ⊎ (delete_gig ctx gig s ≡ (true, keys, t))
    → is_ok (place_order buyer fresh input t) ≡ false
unfolding set_gig_status delete_gig delete_gig_photo_rows
withdrawn_unordered ctx buyer fresh gig input keys s t d same its (inl e) =
    let there : any (settable ctx gig paused) s.gigs ≡ true = ground arith in
    let gone : update_where (settable ctx gig paused) (set_to paused ctx.now) s.gigs ≡ t.gigs =
      ground arith in
    unlisted buyer fresh gig input t its (
      rw (← gone) (
        none_offered buyer.tenant_id gig (settable ctx gig paused) (set_to paused ctx.now) s.gigs d
          (λ g h. ground arith) (λ g h. ground arith) there))
withdrawn_unordered ctx buyer fresh gig input keys s t d same its (inr e) =
    let there : any (own_gig ctx gig) s.gigs ≡ true = ground arith in
    let gone : update_where (own_gig ctx gig) (deleted_now ctx.now) s.gigs ≡ t.gigs =
      ground arith in
    unlisted buyer fresh gig input t its (
      rw (← gone) (
        none_offered buyer.tenant_id gig (own_gig ctx gig) (deleted_now ctx.now) s.gigs d
          (λ g h. ground arith) (λ g h. ground arith) there))
