-- ===== src/Marketplace/Listings/Lifecycle.antt =====
-- packages/modules/marketplace/src/write.ts and expiry.ts: what a seller does with a listing afterwards,
-- what anybody saves, and the expiry sweep.
use campus_os.Common.{
  Text, ℕ, ◌+◌, ◌*◌, max, Bool, true, false, not, ◌&&◌, Option, none, some, List, [], ◌∷◌, ◌++◌,
  leb, ◌==◌, if◌then◌else◌, any, filter, count, length, update_where,
}
use campus_os.Core.Result.{Result, ok, ◌>>◌, require}
use campus_os.Tenancy.{Context, is_present}
use campus_os.Marketplace.Transitions.{day}
use campus_os.Marketplace.Listings.{
  ListingStatus, active, reserved, sold, expired, is_active, Listing, ListingPhoto, Goods,
  MarketplaceSettings,
}
use campus_os.Marketplace.Listings.Selling.{own_listing, photo_of}

pub data LifecycleRefusal : Type 0 where
  not_found not_allowed invalid : LifecycleRefusal

-- The seller's edges: the target first.
abbrev pub allowed_from : ListingStatus → ListingStatus → Bool
allowed_from reserved active = true
allowed_from sold active = true
allowed_from sold reserved = true
allowed_from active reserved = true
allowed_from active sold = true
allowed_from active expired = true
allowed_from _ _ = false

abbrev pub is_target : ListingStatus → Bool
is_target active = true
is_target reserved = true
is_target sold = true
is_target _ = false

abbrev pub reserved_stamp : ListingStatus → ℕ → Option ℕ → Option ℕ
reserved_stamp reserved now at = some now
reserved_stamp active now at = none
reserved_stamp _ now at = at

abbrev pub sold_stamp : ListingStatus → ℕ → Option ℕ → Option ℕ
sold_stamp sold now at = some now
sold_stamp active now at = none
sold_stamp _ now at = at

abbrev pub set_to : ListingStatus → ℕ → Listing → Listing
set_to next now l = record l {
  status = next;
  reserved_at = reserved_stamp next now l.reserved_at;
  sold_at = sold_stamp next now l.sold_at;
  edited_at = some now;
}

abbrev pub settable : Context → ℕ → ListingStatus → Listing → Bool
settable ctx listing next l = own_listing ctx listing l && allowed_from next l.status

unfoldable pub set_listing_status :
    Context → ℕ → ListingStatus → Goods → Result (Bool × Goods) LifecycleRefusal
set_listing_status ctx listing next s = do
  require (is_target next) LifecycleRefusal.invalid
  ok (
    any (settable ctx listing next) s.listings,
    record s {
      listings = update_where (settable ctx listing next) (set_to next ctx.now) s.listings;
    },
  )

abbrev pub keys_of : List ListingPhoto → List Text
keys_of [] = []
keys_of (p ∷ ps) =
    filter (λ k. not (length k == 0)) (p.storage_key ∷ p.thumb_key ∷ []) ++ keys_of ps

-- deleteListingPhotoRows: the storage keys of the photos, and the tables without them.
unfoldable pub delete_listing_photo_rows : ℕ → ℕ → Goods → List Text × Goods
delete_listing_photo_rows tenant listing s = (
  keys_of (filter (photo_of tenant listing) s.photos),
  record s { photos = filter (λ p. not (photo_of tenant listing p)) s.photos },
)

pub record Withdrawn : Type 0 where
  pub changed : Bool
  pub photo_keys : List Text

abbrev pub deleted_now : ℕ → Listing → Listing
deleted_now now l = record l { deleted_at = some now; edited_at = some now }

unfoldable pub delete_listing : Context → ℕ → Goods → Withdrawn × Goods
unfolding delete_listing_photo_rows
delete_listing ctx listing s =
    if any (own_listing ctx listing) s.listings
    then (
      record { changed = true; photo_keys = (delete_listing_photo_rows ctx.tenant_id listing s).0 },
      record (delete_listing_photo_rows ctx.tenant_id listing s).1 {
        listings = update_where (own_listing ctx listing) (deleted_now ctx.now) s.listings;
      },
    )
    else (record { changed = false; photo_keys = [] }, s)

abbrev pub extended : ℕ → ℕ → Listing → Listing
extended now days l = record l {
  expires_at = some (now + days * day);
  expiry_notified_at = none;
  edited_at = some now;
}

unfoldable pub extend_listing : Context → ℕ → MarketplaceSettings → Goods → Bool × Goods
extend_listing ctx listing settings s =
    let live = λ (l : Listing). own_listing ctx listing l && is_active l.status in
    (
      any live s.listings,
      record s {
        listings = update_where live (extended ctx.now (max 1 settings.expiry_days)) s.listings;
      },
    )

-- `none` when the database refuses the row: there is no such listing at all.
unfoldable pub save_listing : Context → ℕ → Goods → Option Goods
save_listing ctx listing s =
    if any (λ v. (v.user_id == ctx.user_id) && (v.listing_id == listing)) s.saved
    then some s
    else if any (λ l. l.id == listing) s.listings
    then some (record s {
      saved =
          s.saved
          ++ record {
            tenant_id = ctx.tenant_id;
            user_id = ctx.user_id;
            listing_id = listing;
            created_at = ctx.now;
          }
            ∷ [];
    })
    else none

unfoldable pub unsave_listing : Context → ℕ → Goods → Goods
unsave_listing ctx listing s = record s {
  saved =
      filter
        (λ v. not (
          (v.user_id == ctx.user_id)
          && ((v.listing_id == listing) && (v.tenant_id == ctx.tenant_id))))
        s.saved;
}

-- An active listing past its expiry.
abbrev pub past : Option ℕ → ℕ → Bool
past none now = false
past (some at) now = leb at now

abbrev pub is_over : ℕ → ℕ → Listing → Bool
is_over tenant now l =
    (l.tenant_id == tenant)
    && (is_active l.status && (not (is_present l.deleted_at) && past l.expires_at now))

abbrev pub expired_now : ℕ → Listing → Listing
expired_now now l = record l { status = expired; edited_at = some now }

unfoldable pub expire_active_listings : ℕ → ℕ → Goods → ℕ × Goods
expire_active_listings tenant now s = (
  count (is_over tenant now) s.listings,
  record s { listings = update_where (is_over tenant now) (expired_now now) s.listings },
)
