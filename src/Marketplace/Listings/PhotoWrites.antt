-- ===== src/Marketplace/Listings/PhotoWrites.antt =====
-- What each write of the goods does to the table of the photos.
use campus_os.Common.{
  Text, trim, ℕ, ◌≡◌, sym, ap, ◌∙◌, Bool, not, some, List, [], ◌∷◌, ◌++◌, filter, count,
  update_where, arith,
}
use campus_os.Core.Result.{ok}
use campus_os.Tenancy.{Context}
use campus_os.Marketplace.Listings.{ListingStatus, Goods, MarketplaceSettings, Resolution}
use campus_os.Marketplace.Listings.Selling.{
  ListingInput, create_listing, PhotoInput, photo_of, new_photo, add_listing_photo,
}
use campus_os.Marketplace.Listings.Lifecycle.{
  set_listing_status, delete_listing_photo_rows, save_listing,
}
use campus_os.Marketplace.Listings.Moderation.{
  report_target, dismiss_reports, resolve_reports, remove_listing, standing_listing, removed_for,
}

resolve_reports_photos :
    (ctx : Context) (target : ℕ) (how : Resolution) (s : Goods)
    → (resolve_reports ctx target how s).photos ≡ s.photos
unfolding resolve_reports
resolve_reports_photos ctx target how s = ground arith

module _ (ctx : Context) (s s' : Goods) where
  pub create_listing_photos :
      (fresh i : ℕ) (input : ListingInput) (settings : MarketplaceSettings)
      → create_listing ctx fresh input settings s ≡ ok (i, s')
      → s.photos ≡ s'.photos
  unfolding create_listing
  create_listing_photos fresh i input settings e = ground arith

  pub add_listing_photo_adds :
      (listing i : ℕ) (photo : PhotoInput) (most : ℕ)
      → add_listing_photo ctx listing photo most s ≡ ok (i, s')
      → s.photos
          ++ new_photo ctx listing photo (count (photo_of ctx.tenant_id listing) s.photos) ∷ []
        ≡ s'.photos
  unfolding add_listing_photo
  add_listing_photo_adds listing i photo most e = ground arith

  pub set_listing_status_photos :
      (listing : ℕ) (next : ListingStatus) (changed : Bool)
      → set_listing_status ctx listing next s ≡ ok (changed, s')
      → s.photos ≡ s'.photos
  unfolding set_listing_status
  set_listing_status_photos listing next changed e = ground arith

  pub save_listing_photos :
      (listing : ℕ) → save_listing ctx listing s ≡ some s' → s.photos ≡ s'.photos
  unfolding save_listing
  save_listing_photos listing e = ground arith

  pub report_target_photos :
      (target : ℕ) (reason note : Text)
      → report_target ctx target reason note s ≡ ok s'
      → s.photos ≡ s'.photos
  unfolding report_target
  report_target_photos target reason note e = ground arith

  pub dismiss_reports_photos :
      (target : ℕ) → dismiss_reports ctx target s ≡ ok s' → s.photos ≡ s'.photos
  unfolding dismiss_reports resolve_reports
  dismiss_reports_photos target e = ground arith

  pub remove_listing_clears :
      (listing : ℕ) (reason : Text) (keys : List Text)
      → remove_listing ctx listing reason s ≡ ok (keys, s')
      → filter (λ p. not (photo_of ctx.tenant_id listing p)) s.photos ≡ s'.photos
  unfolding remove_listing delete_listing_photo_rows
  remove_listing_clears listing reason keys e =
      let t = record s {
        listings =
            update_where (standing_listing ctx listing) (removed_for ctx (trim reason)) s.listings;
      } in
      let rest = filter (λ p. not (photo_of ctx.tenant_id listing p)) in
      let cleared : rest (resolve_reports ctx listing Resolution.removed t).photos ≡ s'.photos =
        ground arith in
      sym (ap rest (resolve_reports_photos ctx listing Resolution.removed t)) ∙ cleared
