-- ===== src/Marketplace/Listings/Samples.antt =====
-- The goods at concrete states: person 1 of tenant 5 sells a book, and person 9 moderates.
use campus_os.Common.{
  Text, ℕ, ◌+◌, ◌*◌, ◌≡◌, refl, true, false, none, some, [], ◌∷◌, ◌==◌, any, find, arith,
}
use campus_os.Core.Result.{ok}
use campus_os.Tenancy.{Context, MembershipStatus, is_verified_member}
use campus_os.Marketplace.Transitions.{day}
use campus_os.Marketplace.Listings.{
  PriceKind, Condition, active, Listing, Goods, MarketplaceSettings,
}
use campus_os.Marketplace.Listings.Contact.{has_contact_info}
use campus_os.Marketplace.Listings.Selling.{
  ListingInput, create_listing, new_listing, PhotoInput, add_listing_photo, new_photo,
}
use campus_os.Marketplace.Listings.Lifecycle.{
  set_listing_status, set_to, expired_now, expire_active_listings,
}
use campus_os.Marketplace.Listings.Moderation.{removed_for}
use campus_os.Marketplace.Listings.Lives.{Move, Reach, removed_one, removed_stays}
use campus_os.Marketplace.Listings.Photos.{Numbered, photos-Numbered}
use campus_os.Marketplace.Listings.Relisting.{relist_expires_again}

-- A number of seven digits with a dash, an address of WhatsApp, and a word that only holds the letters.
finds_number : has_contact_info (b'0' ∷ b'3' ∷ b'0' ∷ b'0' ∷ b'-' ∷ b'1' ∷ b'2' ∷ b'3' ∷ []) ≡ true
unfolding has_contact_info
finds_number = refl

finds_handle : has_contact_info (b'W' ∷ b'A' ∷ b'p' ∷ b'p' ∷ []) ≡ true
unfolding has_contact_info
finds_handle = refl

passes_word : has_contact_info (b's' ∷ b'w' ∷ b'a' ∷ b'p' ∷ b'p' ∷ b'6' ∷ []) ≡ false
unfolding has_contact_info
passes_word = refl

abbrev pub seller_at : ℕ → Context
seller_at now = record { user_id = 1; tenant_id = 5; now = now }

abbrev pub moderator_at : ℕ → Context
moderator_at now = record { user_id = 9; tenant_id = 5; now = now }

abbrev pub empty : Goods
empty = record {
  listings = [];
  photos = [];
  saved = [];
  reports = [];
  members =
      record {
        user_id = 1;
        tenant_id = 5;
        verified_at = some 1;
        status = MembershipStatus.active;
        standing_until = none;
      }
      ∷ [];
  moderators = record { user_id = 9; tenant_id = 5 } ∷ [];
}

abbrev pub books : Text
books = b'b' ∷ b'o' ∷ b'o' ∷ b'k' ∷ []

abbrev pub usual : MarketplaceSettings
usual = record { categories = books ∷ []; max_price_paisa = 100000; expiry_days = 30 }

abbrev pub offer : ListingInput
offer = record {
  title = books;
  description = [];
  price_paisa = 5000;
  price_kind = PriceKind.fixed;
  category = books;
  condition = Condition.used;
  meetup_pref = [];
}

abbrev pub book : Listing
book = new_listing (seller_at 100) 10 offer usual

abbrev pub offered : Goods
offered = record empty { listings = book ∷ [] }

is_offered : create_listing (seller_at 100) 10 offer usual empty ≡ ok (10, offered)
unfolding create_listing has_contact_info is_verified_member
is_offered = refl

abbrev pub cover : PhotoInput
cover = record {
  storage_key = b'k' ∷ [];
  thumb_key = b't' ∷ [];
  content_type = [];
  width = none;
  height = none;
  byte_size = none;
}

abbrev pub pictured : Goods
pictured = record offered { photos = new_photo (seller_at 200) 10 cover 0 ∷ [] }

is_pictured : add_listing_photo (seller_at 200) 10 cover 6 offered ≡ ok (0, pictured)
unfolding add_listing_photo
is_pictured = refl

shown : Reach empty pictured
shown =
    Reach.then_move (seller_at 200) empty offered pictured
      (Reach.then_move (seller_at 100) empty empty offered (Reach.start empty)
        (Move.creates 10 10 offer usual empty offered is_offered))
      (Move.adds_photo 10 0 cover 6 offered pictured is_pictured)

photos-Numbered_example : Numbered pictured.photos
photos-Numbered_example = photos-Numbered empty pictured refl shown

abbrev pub spam : Text
spam = b's' ∷ b'p' ∷ b'a' ∷ b'm' ∷ []

abbrev pub taken_down : Goods
taken_down = record pictured {
  listings = removed_for (moderator_at 300) spam book ∷ [];
  photos = [];
}

abbrev pub tried : Goods
tried = taken_down

is_tried : set_listing_status (seller_at 400) 10 active taken_down ≡ ok (false, tried)
unfolding set_listing_status
is_tried = refl

removed_stays_example : any (removed_one 10) tried.listings ≡ true
removed_stays_example = removed_stays 10 taken_down tried refl (
    Reach.then_move (seller_at 400) taken_down taken_down tried (Reach.start taken_down)
      (Move.sets 10 active false taken_down tried is_tried))

abbrev pub lapsed_row : Listing
lapsed_row = expired_now (100 + 30 * day) book

abbrev pub lapsed : Goods
lapsed = record offered { listings = lapsed_row ∷ [] }

abbrev pub relisted : Goods
relisted = record offered { listings = set_to active (100 + 31 * day) lapsed_row ∷ [] }

is_relisted : set_listing_status (seller_at (100 + 31 * day)) 10 active lapsed ≡ ok (true, relisted)
unfolding set_listing_status
is_relisted = refl

relist_expires_again_example :
    (find (λ x. x.id == 10) relisted.listings ≡ some (set_to active (100 + 31 * day) lapsed_row))
    × (find (λ x. x.id == 10) (expire_active_listings 5 (100 + 32 * day) relisted).1.listings
        ≡ some (expired_now (100 + 32 * day) (set_to active (100 + 31 * day) lapsed_row)))
relist_expires_again_example =
    relist_expires_again (seller_at (100 + 31 * day)) 10 (100 + 32 * day) lapsed relisted lapsed_row
      refl refl refl refl (omega arith) is_relisted
