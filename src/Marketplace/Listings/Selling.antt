-- ===== src/Marketplace/Listings/Selling.antt =====
-- packages/modules/marketplace/src/write.ts: a new listing and its photos.
use campus_os.Common.{
  Text, trim, same_text, ℕ, ◌+◌, ◌*◌, Bool, not, ◌&&◌, ◌||◌, Option, none, some, [], ◌∷◌, ◌++◌, ltb,
  leb, ◌==◌, any, count, length,
}
use campus_os.Core.Result.{Result, ok, ◌>>◌, require}
use campus_os.Tenancy.{Context, is_present, is_verified_member}
use campus_os.Marketplace.Orders.{or_null}
use campus_os.Marketplace.Transitions.{day}
use campus_os.Marketplace.Listings.{
  PriceKind, Condition, active, Listing, ListingPhoto, Goods, MarketplaceSettings,
}
use campus_os.Marketplace.Listings.Contact.{has_contact_info}

pub record ListingInput : Type 0 where
  pub title : Text
  pub description : Text
  pub price_paisa : ℕ
  pub price_kind : PriceKind
  pub category : Text
  pub condition : Condition
  pub meetup_pref : Text

-- listingInputSchema; what is left out is the empty text.
abbrev pub parses : ListingInput → Bool
parses input =
    (leb 3 (length (trim input.title)) && leb (length (trim input.title)) 140)
    && (leb (length (trim input.description)) 4000
        && ((leb 1 (length input.category) && leb (length input.category) 40)
            && leb (length (trim input.meetup_pref)) 120))

pub data ListingRefusal : Type 0 where
  not_verified invalid rate_limited not_found contact_info : ListingRefusal

abbrev pub listings_per_hour : ℕ
listings_per_hour = 10

abbrev pub hour : ℕ
hour = 3600000

abbrev pub new_listing : Context → ℕ → ListingInput → MarketplaceSettings → Listing
new_listing ctx fresh input settings = record {
  id = fresh;
  tenant_id = ctx.tenant_id;
  seller_id = ctx.user_id;
  title = trim input.title;
  description = trim input.description;
  price_paisa = input.price_paisa;
  price_kind = input.price_kind;
  category = input.category;
  condition = input.condition;
  meetup_pref = or_null (trim input.meetup_pref);
  status = active;
  reserved_at = none;
  sold_at = none;
  removed_at = none;
  removed_by = none;
  removal_reason = none;
  expires_at = some (ctx.now + settings.expiry_days * day);
  expiry_notified_at = none;
  edited_at = none;
  deleted_at = none;
  created_at = ctx.now;
}

abbrev pub recent_own : Context → Listing → Bool
recent_own ctx l =
    (l.tenant_id == ctx.tenant_id)
    && ((l.seller_id == ctx.user_id) && ltb ctx.now (l.created_at + hour))

unfoldable pub create_listing :
    Context → ℕ → ListingInput → MarketplaceSettings → Goods → Result (ℕ × Goods) ListingRefusal
create_listing ctx fresh input settings s = do
  require (parses input) invalid
  require (any (same_text input.category) settings.categories) invalid
  require (leb input.price_paisa settings.max_price_paisa) invalid
  require (not (has_contact_info (trim input.title) || has_contact_info (trim input.description)))
      contact_info
  require (is_verified_member s.members ctx.now ctx.user_id ctx.tenant_id) not_verified
  require (not (leb listings_per_hour (count (recent_own ctx) s.listings))) rate_limited
  ok (fresh, record s { listings = s.listings ++ new_listing ctx fresh input settings ∷ [] })

-- The listing of the id, where the acting user sells it and has not deleted it.
abbrev pub own_listing : Context → ℕ → Listing → Bool
own_listing ctx listing l =
    (l.id == listing)
    && ((l.tenant_id == ctx.tenant_id)
        && ((l.seller_id == ctx.user_id) && not (is_present l.deleted_at)))

pub record PhotoInput : Type 0 where
  pub storage_key : Text
  pub thumb_key : Text
  pub content_type : Text
  pub width : Option ℕ
  pub height : Option ℕ
  pub byte_size : Option ℕ

pub data PhotoRefusal : Type 0 where
  not_found too_many_photos : PhotoRefusal

-- The photos of a listing that a tenant sees.
abbrev pub photo_of : ℕ → ℕ → ListingPhoto → Bool
photo_of tenant listing p = (p.listing_id == listing) && (p.tenant_id == tenant)

abbrev pub new_photo : Context → ℕ → PhotoInput → ℕ → ListingPhoto
new_photo ctx listing photo position = record {
  tenant_id = ctx.tenant_id;
  listing_id = listing;
  storage_key = photo.storage_key;
  thumb_key = photo.thumb_key;
  content_type = photo.content_type;
  width = photo.width;
  height = photo.height;
  byte_size = photo.byte_size;
  position = position;
  created_at = ctx.now;
}

unfoldable pub add_listing_photo :
    Context → ℕ → PhotoInput → ℕ → Goods → Result (ℕ × Goods) PhotoRefusal
add_listing_photo ctx listing photo max_photos s = do
  require (any (own_listing ctx listing) s.listings) PhotoRefusal.not_found
  let position = count (photo_of ctx.tenant_id listing) s.photos
  require (not (leb max_photos position)) too_many_photos
  ok (position, record s { photos = s.photos ++ new_photo ctx listing photo position ∷ [] })
