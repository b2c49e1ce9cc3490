-- ===== src/Marketplace.antt =====
-- packages/modules/marketplace: the tables of the orders (src/schema/orders.ts, src/schema/services.ts).
pub mod Orders
pub mod Transitions
pub mod Reviews
pub mod Reading
pub mod Logs
pub mod Edges
pub mod Moving
pub mod Placing
pub mod Earned
pub mod Earning
pub mod History
pub mod Ending
pub mod Parties
pub mod Samples
pub mod Listings
pub mod Gigs
use campus_os.Common.{Text, ℕ, Bool, true, false, Option, List}
use campus_os.Tenancy.{Membership, Profile, NotifyArgs}

pub data GigStatus : Type 0 where
  active paused removed : GigStatus

abbrev pub is_listed : GigStatus → Bool
is_listed active = true
is_listed _ = false

pub record Gig : Type 0 where
  pub id : ℕ
  pub tenant_id : ℕ
  pub seller_id : ℕ
  pub title : Text
  pub description : Text
  pub category : Text
  pub status : GigStatus
  pub edited_at : Option ℕ
  pub deleted_at : Option ℕ
  pub created_at : ℕ

pub data PackageTier : Type 0 where
  basic standard premium : PackageTier

pub record GigPackage : Type 0 where
  pub id : ℕ
  pub tenant_id : ℕ
  pub gig_id : ℕ
  pub tier : PackageTier
  pub title : Text
  pub description : Text
  pub price_paisa : ℕ
  pub delivery_days : ℕ
  pub revisions : ℕ
  pub position : ℕ
  pub created_at : ℕ

pub record GigPhoto : Type 0 where
  pub tenant_id : ℕ
  pub gig_id : ℕ
  pub storage_key : Text
  pub thumb_key : Text
  pub content_type : Text
  pub width : Option ℕ
  pub height : Option ℕ
  pub byte_size : Option ℕ
  pub position : ℕ
  pub created_at : ℕ

pub data PaymentMode : Type 0 where
  cash online : PaymentMode

pub data OrderStatus : Type 0 where
  requested awaiting_payment paid in_progress delivered completed cancelled disputed : OrderStatus

pub record Order : Type 0 where
  pub id : ℕ
  pub tenant_id : ℕ
  pub gig_id : ℕ
  pub package_id : ℕ
  pub buyer_id : ℕ
  pub seller_id : ℕ
  pub title : Text
  pub price_paisa : ℕ
  pub delivery_days : ℕ
  pub revisions_allowed : ℕ
  pub revisions_used : ℕ
  pub payment_mode : PaymentMode
  pub status : OrderStatus
  pub requirements : Option Text
  pub accepted_at : Option ℕ
  pub paid_at : Option ℕ
  pub started_at : Option ℕ
  pub delivered_at : Option ℕ
  pub completed_at : Option ℕ
  pub cancelled_at : Option ℕ
  pub disputed_at : Option ℕ
  pub due_at : Option ℕ
  pub cancel_reason : Option Text
  pub created_at : ℕ

pub data EventKind : Type 0 where
  transition revision : EventKind

pub record OrderEvent : Type 0 where
  pub tenant_id : ℕ
  pub order_id : ℕ
  pub actor_id : Option ℕ
  pub from_status : Option OrderStatus
  pub to_status : OrderStatus
  pub kind : EventKind
  pub note : Option Text
  pub created_at : ℕ

pub record Review : Type 0 where
  pub id : ℕ
  pub tenant_id : ℕ
  pub order_id : ℕ
  pub gig_id : ℕ
  pub reviewer_id : ℕ
  pub seller_id : ℕ
  pub rating : ℕ
  pub body : Text
  pub created_at : ℕ

pub record OrderFile : Type 0 where
  pub id : ℕ
  pub tenant_id : ℕ
  pub order_id : ℕ
  pub storage_key : Text
  pub filename : Text
  pub content_type : Text
  pub byte_size : ℕ
  pub uploaded_by : ℕ
  pub created_at : ℕ

-- The tables that the orders read and write.
pub record Market : Type 0 where
  pub gigs : List Gig
  pub packages : List GigPackage
  pub gig_photos : List GigPhoto
  pub orders : List Order
  pub events : List OrderEvent
  pub reviews : List Review
  pub files : List OrderFile
  pub members : List Membership
  pub profiles : List Profile
  pub inbox : List NotifyArgs
