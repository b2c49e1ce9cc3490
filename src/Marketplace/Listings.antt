-- ===== src/Marketplace/Listings.antt =====
-- packages/modules/marketplace: the tables of the goods on sale (src/schema/marketplace.ts).
pub mod Contact
pub mod Selling
pub mod Lifecycle
pub mod Moderation
pub mod Lives
pub mod PhotoWrites
pub mod Photos
pub mod Relisting
pub mod Samples
use campus_os.Common.{Text, ℕ, Bool, true, false, Option, List}
use campus_os.Tenancy.{Membership}

pub data PriceKind : Type 0 where
  fixed negotiable : PriceKind

pub data Condition : Type 0 where
  brand_new like_new used for_parts : Condition

pub data ListingStatus : Type 0 where
  active reserved sold expired removed : ListingStatus

abbrev pub is_active : ListingStatus → Bool
is_active active = true
is_active _ = false

pub record Listing : Type 0 where
  pub id : ℕ
  pub tenant_id : ℕ
  pub seller_id : ℕ
  pub title : Text
  pub description : Text
  pub price_paisa : ℕ
  pub price_kind : PriceKind
  pub category : Text
  pub condition : Condition
  pub meetup_pref : Option Text
  pub status : ListingStatus
  pub reserved_at : Option ℕ
  pub sold_at : Option ℕ
  pub removed_at : Option ℕ
  pub removed_by : Option ℕ
  pub removal_reason : Option Text
  pub expires_at : Option ℕ
  pub expiry_notified_at : Option ℕ
  pub edited_at : Option ℕ
  pub deleted_at : Option ℕ
  pub created_at : ℕ

pub record ListingPhoto : Type 0 where
  pub tenant_id : ℕ
  pub listing_id : ℕ
  pub storage_key : Text
  pub thumb_key : Text
  pub content_type : Text
  pub width : Option ℕ
  pub height : Option ℕ
  pub byte_size : Option ℕ
  pub position : ℕ
  pub created_at : ℕ

pub record Saved : Type 0 where
  pub tenant_id : ℕ
  pub user_id : ℕ
  pub listing_id : ℕ
  pub created_at : ℕ

-- A report is unresolved where the column reads open.
pub data ReportStatus : Type 0 where
  unresolved resolved : ReportStatus

pub data Resolution : Type 0 where
  dismissed removed : Resolution

-- A report of a listing, the only kind of target.
pub record Report : Type 0 where
  pub tenant_id : ℕ
  pub target_id : ℕ
  pub reporter_id : ℕ
  pub reason : Text
  pub note : Option Text
  pub status : ReportStatus
  pub resolution : Option Resolution
  pub resolved_by : Option ℕ
  pub resolved_at : Option ℕ
  pub created_at : ℕ

-- Who holds marketplace.moderate in which tenant, as the database answers it.
pub record Moderator : Type 0 where
  pub user_id : ℕ
  pub tenant_id : ℕ

pub record Goods : Type 0 where
  pub listings : List Listing
  pub photos : List ListingPhoto
  pub saved : List Saved
  pub reports : List Report
  pub members : List Membership
  pub moderators : List Moderator

-- The settings of a tenant that the services read.
pub record MarketplaceSettings : Type 0 where
  pub categories : List Text
  pub max_price_paisa : ℕ
  pub expiry_days : ℕ
