-- ===== src/Marketplace/Listings/Photos.antt =====
-- The positions of a listing's photos: addListingPhoto and deleteListingPhotoRows of
-- packages/modules/marketplace/src/write.ts.
use campus_os.Common.{
  ℕ, zero, suc, ◌≡◌, refl, ap, Bool, true, false, not, ◌&&◌, List, [], ◌∷◌, ◌++◌, map, filter,
  count, any, ◌==◌, if◌then◌else◌, arith, Bool-cases, inl, inr,
}
use campus_os.Tenancy.{Context}
use campus_os.Marketplace.Listings.{ListingPhoto, Goods}
use campus_os.Marketplace.Listings.Selling.{PhotoInput, photo_of, new_photo, own_listing}
use campus_os.Marketplace.Listings.Lifecycle.{
  delete_listing, delete_listing_photo_rows, extend_listing, unsave_listing, expire_active_listings,
}
use campus_os.Marketplace.Listings.Lives.{Move, Reach}
use campus_os.Marketplace.Listings.PhotoWrites.{
  create_listing_photos, add_listing_photo_adds, set_listing_status_photos, save_listing_photos,
  report_target_photos, dismiss_reports_photos, remove_listing_clears,
}

-- The numbers below a bound, in order.
abbrev pub below : ℕ → List ℕ
below zero = []
below (suc n) = below n ++ n ∷ []

-- The photos of a listing stand in the order of their positions, from 0 on without a gap.
abbrev pub Numbered : List ListingPhoto → Type 0
Numbered photos =
    (tenant listing : ℕ)
    → map (λ p. p.position) (filter (photo_of tenant listing) photos)
      ≡ below (count (photo_of tenant listing) photos)

module _ (q : ListingPhoto → Bool) where
  filter_snoc :
      (ps : List ListingPhoto) (p : ListingPhoto)
      → filter q (ps ++ p ∷ []) ≡ (if q p then filter q ps ++ p ∷ [] else filter q ps)
  filter_snoc [] p = ground arith
  filter_snoc (x ∷ ps) p = ground (arith, filter_snoc ps p)

  count_snoc :
      (ps : List ListingPhoto) (p : ListingPhoto)
      → count q (ps ++ p ∷ []) ≡ (if q p then suc (count q ps) else count q ps)
  count_snoc [] p = ground arith
  count_snoc (x ∷ ps) p = ground (arith, count_snoc ps p)

  map_snoc :
      (ps : List ListingPhoto) (p : ListingPhoto)
      → map (λ x. x.position) (ps ++ p ∷ []) ≡ map (λ x. x.position) ps ++ p.position ∷ []
  map_snoc [] p = refl
  map_snoc (x ∷ ps) p = ap (λ l. x.position ∷ l) (map_snoc ps p)

  numbered_snoc :
      (ps : List ListingPhoto) (p : ListingPhoto)
      → map (λ x. x.position) (filter q ps) ≡ below (count q ps)
      → (q p ≡ true → p.position ≡ count q ps)
      → map (λ x. x.position) (filter q (ps ++ p ∷ [])) ≡ below (count q (ps ++ p ∷ []))
  numbered_snoc ps p h k = elim (Bool-cases (q p)) [
    | inl e ↦ rw (filter_snoc ps p, count_snoc ps p, e, map_snoc (filter q ps) p, h, k e) refl
    | inr e ↦ rw (filter_snoc ps p, count_snoc ps p, e) h
  ]

added-Numbered :
    (ctx : Context) (listing : ℕ) (photo : PhotoInput) (ps : List ListingPhoto)
    → Numbered ps
    → Numbered (ps ++ new_photo ctx listing photo (count (photo_of ctx.tenant_id listing) ps) ∷ [])
added-Numbered ctx listing photo ps h tenant k =
    let p = new_photo ctx listing photo (count (photo_of ctx.tenant_id listing) ps) in
    numbered_snoc (photo_of tenant k) ps p (h tenant k) (λ e.
      let same_listing : listing ≡ k = ground arith in
      let same_tenant : ctx.tenant_id ≡ tenant = ground arith in
      rw (same_listing, same_tenant) refl)

cleared-Numbered :
    (tenant listing : ℕ) (ps : List ListingPhoto)
    → Numbered ps
    → Numbered (filter (λ p. not (photo_of tenant listing p)) ps)
cleared-Numbered tenant listing ps h t k = elim (Bool-cases ((k == listing) && (t == tenant))) [
  | inl e ↦ rw (none_left ps e) (rw (none_counted ps e) refl)
  | inr e ↦ rw (others_left ps e) (rw (others_counted ps e) (h t k))
]
  where
    none_left :
        (qs : List ListingPhoto)
        → ((k == listing) && (t == tenant)) ≡ true
        → filter (photo_of t k) (filter (λ p. not (photo_of tenant listing p)) qs) ≡ []
    none_left [] e = refl
    none_left (q ∷ qs) e = ground (arith, none_left qs e)

    none_counted :
        (qs : List ListingPhoto)
        → ((k == listing) && (t == tenant)) ≡ true
        → count (photo_of t k) (filter (λ p. not (photo_of tenant listing p)) qs) ≡ 0
    none_counted [] e = refl
    none_counted (q ∷ qs) e = ground (arith, none_counted qs e)

    others_left :
        (qs : List ListingPhoto)
        → ((k == listing) && (t == tenant)) ≡ false
        → filter (photo_of t k) (filter (λ p. not (photo_of tenant listing p)) qs)
          ≡ filter (photo_of t k) qs
    others_left [] e = refl
    others_left (q ∷ qs) e = ground (arith, others_left qs e)

    others_counted :
        (qs : List ListingPhoto)
        → ((k == listing) && (t == tenant)) ≡ false
        → count (photo_of t k) (filter (λ p. not (photo_of tenant listing p)) qs)
          ≡ count (photo_of t k) qs
    others_counted [] e = refl
    others_counted (q ∷ qs) e = ground (arith, others_counted qs e)

delete_listing-Numbered :
    (ctx : Context) (listing : ℕ) (s : Goods)
    → Numbered s.photos
    → Numbered (delete_listing ctx listing s).1.photos
unfolding delete_listing delete_listing_photo_rows
delete_listing-Numbered ctx listing s h =
    elim (Bool-cases (any (own_listing ctx listing) s.listings)) [
      | inl e ↦ rw e (cleared-Numbered ctx.tenant_id listing s.photos h)
      | inr e ↦ rw e h
    ]

Move-Numbered :
    (ctx : Context) (s s' : Goods) → Numbered s.photos → Move ctx s s' → Numbered s'.photos
unfolding extend_listing unsave_listing expire_active_listings
Move-Numbered ctx _ _ h (Move.creates fresh i input settings s s' e) =
    rw (← create_listing_photos ctx s s' fresh i input settings e) h
Move-Numbered ctx _ _ h (Move.adds_photo listing i photo most s s' e) =
    rw (← add_listing_photo_adds ctx s s' listing i photo most e)
      (added-Numbered ctx listing photo s.photos h)
Move-Numbered ctx _ _ h (Move.sets listing next changed s s' e) =
    rw (← set_listing_status_photos ctx s s' listing next changed e) h
Move-Numbered ctx _ _ h (Move.deletes listing s) = delete_listing-Numbered ctx listing s h
Move-Numbered ctx _ _ h (Move.extends listing settings s) = h
Move-Numbered ctx _ _ h (Move.saves listing s s' e) =
    rw (← save_listing_photos ctx s s' listing e) h
Move-Numbered ctx _ _ h (Move.unsaves listing s) = h
Move-Numbered ctx _ _ h (Move.sweeps tenant s) = h
Move-Numbered ctx _ _ h (Move.reports target reason note s s' e) =
    rw (← report_target_photos ctx s s' target reason note e) h
Move-Numbered ctx _ _ h (Move.dismisses target s s' e) =
    rw (← dismiss_reports_photos ctx s s' target e) h
Move-Numbered ctx _ _ h (Move.removes listing reason keys s s' e) =
    rw (← remove_listing_clears ctx s s' listing reason keys e)
      (cleared-Numbered ctx.tenant_id listing s.photos h)
Move-Numbered ctx _ _ h (Move.regroups s members moderators) = h

-- After any history of the goods from tables without a photo, the photos of every listing stand in the
-- order of their positions, which are 0, 1, 2 and so on without a gap.
pub photos-Numbered : (s t : Goods) → s.photos ≡ [] → Reach s t → Numbered t.photos
photos-Numbered _ _ none_yet (Reach.start s) = rw none_yet (λ tenant listing. refl)
photos-Numbered _ _ none_yet (Reach.then_move ctx s t u r m) =
    Move-Numbered ctx t u (photos-Numbered s t none_yet r) m
