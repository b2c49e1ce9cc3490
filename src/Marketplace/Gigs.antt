-- ===== src/Marketplace/Gigs.antt =====
-- packages/modules/marketplace/src/services-write.ts and services-input.ts: the gigs that are ordered.
pub mod Withdrawing
pub mod Samples
use campus_os.Common.{
  Text, trim, same_text, ℕ, ◌+◌, Bool, true, false, not, ◌&&◌, ◌||◌, Option, none, some, List, [],
  ◌∷◌, ◌++◌, map, ltb, leb, ◌==◌, if◌then◌else◌, any, filter, count, length, update_where,
}
use campus_os.Core.Result.{Result, ok, err, ◌>>=◌, ◌>>◌, require}
use campus_os.Tenancy.{Context, is_present, is_verified_member}
use campus_os.Marketplace.{
  GigStatus, active, paused, removed, Gig, PackageTier, basic, standard, premium, GigPackage,
  GigPhoto, Market,
}
use campus_os.Marketplace.Listings.Contact.{has_contact_info}
use campus_os.Marketplace.Listings.Selling.{hour, PhotoInput}

pub record PackageInput : Type 0 where
  pub tier : PackageTier
  pub title : Text
  pub description : Text
  pub price_paisa : ℕ
  pub delivery_days : ℕ
  pub revisions : ℕ

pub record GigInput : Type 0 where
  pub title : Text
  pub description : Text
  pub category : Text
  pub packages : List PackageInput

-- The settings of a tenant that gigs read.
pub record ServiceSettings : Type 0 where
  pub service_categories : List Text
  pub max_packages_per_gig : ℕ
  pub max_package_price_paisa : ℕ
  pub max_delivery_days : ℕ
  pub max_revisions : ℕ

-- packageInputSchema and gigInputSchema; what is left out is the empty text.
abbrev pub parses_package : PackageInput → Bool
parses_package p =
    (leb 2 (length (trim p.title)) && leb (length (trim p.title)) 80)
    && (leb (length (trim p.description)) 2000 && (leb 1 p.price_paisa && leb 1 p.delivery_days))

abbrev pub all_of : (PackageInput → Bool) → List PackageInput → Bool
all_of ok_one [] = true
all_of ok_one (p ∷ ps) = ok_one p && all_of ok_one ps

abbrev pub parses_gig : GigInput → Bool
parses_gig input =
    (leb 5 (length (trim input.title)) && leb (length (trim input.title)) 140)
    && (leb (length (trim input.description)) 6000
        && ((leb 1 (length input.category) && leb (length input.category) 40)
            && ((leb 1 (length input.packages) && leb (length input.packages) 3)
                && all_of parses_package input.packages)))

abbrev pub same_tier : PackageTier → PackageTier → Bool
same_tier basic basic = true
same_tier standard standard = true
same_tier premium premium = true
same_tier _ _ = false

abbrev pub has_duplicate_tiers : List PackageInput → Bool
has_duplicate_tiers [] = false
has_duplicate_tiers (p ∷ ps) = any (λ q. same_tier p.tier q.tier) ps || has_duplicate_tiers ps

abbrev pub within : ServiceSettings → PackageInput → Bool
within settings p =
    leb p.price_paisa settings.max_package_price_paisa
    && (leb p.delivery_days settings.max_delivery_days && leb p.revisions settings.max_revisions)

abbrev pub package_contact : PackageInput → Bool
package_contact p = has_contact_info (trim p.title) || has_contact_info (trim p.description)

pub data GigRefusal : Type 0 where
  not_verified invalid rate_limited not_found contact_info : GigRefusal

abbrev pub gigs_per_hour : ℕ
gigs_per_hour = 10

abbrev pub recent_gig : Context → Gig → Bool
recent_gig ctx g =
    (g.tenant_id == ctx.tenant_id)
    && ((g.seller_id == ctx.user_id) && ltb ctx.now (g.created_at + hour))

abbrev pub new_gig : Context → ℕ → GigInput → Gig
new_gig ctx fresh input = record {
  id = fresh;
  tenant_id = ctx.tenant_id;
  seller_id = ctx.user_id;
  title = trim input.title;
  description = trim input.description;
  category = input.category;
  status = active;
  edited_at = none;
  deleted_at = none;
  created_at = ctx.now;
}

-- The rows of the packages, from a position on; an id comes from the position.
abbrev pub new_packages : Context → ℕ → (ℕ → ℕ) → ℕ → List PackageInput → List GigPackage
new_packages ctx gig package_id i [] = []
new_packages ctx gig package_id i (p ∷ ps) =
    record {
      id = package_id i;
      tenant_id = ctx.tenant_id;
      gig_id = gig;
      tier = p.tier;
      title = trim p.title;
      description = trim p.description;
      price_paisa = p.price_paisa;
      delivery_days = p.delivery_days;
      revisions = p.revisions;
      position = i;
      created_at = ctx.now;
    }
    ∷ new_packages ctx gig package_id (i + 1) ps

unfoldable pub create_gig :
    Context → ℕ → (ℕ → ℕ) → GigInput → ServiceSettings → Market → Result (ℕ × Market) GigRefusal
create_gig ctx fresh package_id input settings s = do
  require (parses_gig input) invalid
  require (any (same_text input.category) settings.service_categories) invalid
  require (leb (length input.packages) settings.max_packages_per_gig) invalid
  require (not (has_duplicate_tiers input.packages)) invalid
  require (all_of (within settings) input.packages) invalid
  require
      (not (
        has_contact_info (trim input.title)
        || (has_contact_info (trim input.description) || any package_contact input.packages)))
      contact_info
  require (is_verified_member s.members ctx.now ctx.user_id ctx.tenant_id) not_verified
  require (not (leb gigs_per_hour (count (recent_gig ctx) s.gigs))) rate_limited
  ok (
    fresh,
    record s {
      gigs = s.gigs ++ new_gig ctx fresh input ∷ [];
      packages = s.packages ++ new_packages ctx fresh package_id 0 input.packages;
    },
  )

-- The gig of the id, where the acting user sells it and has not deleted it.
abbrev pub own_gig : Context → ℕ → Gig → Bool
own_gig ctx gig g =
    (g.id == gig)
    && ((g.tenant_id == ctx.tenant_id)
        && ((g.seller_id == ctx.user_id) && not (is_present g.deleted_at)))

pub data GigLifecycleRefusal : Type 0 where
  not_found invalid : GigLifecycleRefusal

-- The seller's edges: the target first.
abbrev pub allowed_from : GigStatus → GigStatus → Bool
allowed_from paused active = true
allowed_from active paused = true
allowed_from _ _ = false

abbrev pub is_target : GigStatus → Bool
is_target active = true
is_target paused = true
is_target removed = false

abbrev pub settable : Context → ℕ → GigStatus → Gig → Bool
settable ctx gig next g = own_gig ctx gig g && allowed_from next g.status

abbrev pub set_to : GigStatus → ℕ → Gig → Gig
set_to next now g = record g { status = next; edited_at = some now }

unfoldable pub set_gig_status :
    Context → ℕ → GigStatus → Market → Result (Bool × Market) GigLifecycleRefusal
set_gig_status ctx gig next s = do
  require (is_target next) GigLifecycleRefusal.invalid
  ok (
    any (settable ctx gig next) s.gigs,
    record s { gigs = update_where (settable ctx gig next) (set_to next ctx.now) s.gigs },
  )

pub data GigPhotoRefusal : Type 0 where
  not_found too_many_photos : GigPhotoRefusal

abbrev pub photo_of : ℕ → ℕ → GigPhoto → Bool
photo_of tenant gig p = (p.gig_id == gig) && (p.tenant_id == tenant)

abbrev pub new_photo : Context → ℕ → PhotoInput → ℕ → GigPhoto
new_photo ctx gig photo position = record {
  tenant_id = ctx.tenant_id;
  gig_id = gig;
  storage_key = photo.storage_key;
  thumb_key = photo.thumb_key;
  content_type = photo.content_type;
  width = photo.width;
  height = photo.height;
  byte_size = photo.byte_size;
  position = position;
  created_at = ctx.now;
}

unfoldable pub add_gig_photo :
    Context → ℕ → PhotoInput → ℕ → Market → Result (ℕ × Market) GigPhotoRefusal
add_gig_photo ctx gig photo max_photos s = do
  require (any (own_gig ctx gig) s.gigs) GigPhotoRefusal.not_found
  let position = count (photo_of ctx.tenant_id gig) s.gig_photos
  require (not (leb max_photos position)) too_many_photos
  ok (position, record s { gig_photos = s.gig_photos ++ new_photo ctx gig photo position ∷ [] })

abbrev pub keys_of : List GigPhoto → List Text
keys_of [] = []
keys_of (p ∷ ps) =
    filter (λ k. not (length k == 0)) (p.storage_key ∷ p.thumb_key ∷ []) ++ keys_of ps

-- deleteGigPhotoRows: the storage keys of the photos, and the tables without them.
unfoldable pub delete_gig_photo_rows : ℕ → ℕ → Market → List Text × Market
delete_gig_photo_rows tenant gig s = (
  keys_of (filter (photo_of tenant gig) s.gig_photos),
  record s { gig_photos = filter (λ p. not (photo_of tenant gig p)) s.gig_photos },
)

abbrev pub deleted_now : ℕ → Gig → Gig
deleted_now now g = record g { deleted_at = some now; status = removed; edited_at = some now }

-- Whether the gig was there to delete, the storage keys to remove, and the tables.
unfoldable pub delete_gig : Context → ℕ → Market → Bool × List Text × Market
unfolding delete_gig_photo_rows
delete_gig ctx gig s =
    if any (own_gig ctx gig) s.gigs
    then (let t : Market = record s {
      gigs = update_where (own_gig ctx gig) (deleted_now ctx.now) s.gigs;
    } in
        (
          true,
          (delete_gig_photo_rows ctx.tenant_id gig t).0,
          (delete_gig_photo_rows ctx.tenant_id gig t).1,
        ))
    else (false, [], s)
