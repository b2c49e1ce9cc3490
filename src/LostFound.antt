-- ===== src/LostFound.antt =====
-- packages/modules/lost-found: items that people reported, and claims on them.
-- The state is the tables that the module reads and writes. Row-level security shows an item to its
-- tenant, and a claim to its claimant and to the reporter of its item.
pub mod Items
pub mod Claims
pub mod History
mod Samples
use campus_os.Common.{Text, ℕ, Bool, true, false, ◌&&◌, ◌||◌, Option, List, [], ◌∷◌, ◌==◌, any}
use campus_os.Tenancy.{Context, Membership, NotifyArgs}

pub data ItemKind : Type 0 where
  lost found_item : ItemKind

pub data ItemStatus : Type 0 where
  opened resolved withdrawn removed expired : ItemStatus

pub record LostFoundItem : Type 0 where
  pub id : ℕ
  pub tenant_id : ℕ
  pub reporter_id : ℕ
  pub kind : ItemKind
  pub title : Text
  pub status : ItemStatus
  pub resolved_via_claim_id : Option ℕ
  pub resolved_at : Option ℕ
  pub expires_at : Option ℕ
  pub expiry_notified_at : Option ℕ
  pub edited_at : Option ℕ
  pub deleted_at : Option ℕ
  pub created_at : ℕ

pub record LostFoundItemPhoto : Type 0 where
  pub tenant_id : ℕ
  pub item_id : ℕ
  pub storage_key : Text
  pub thumb_key : Text
  pub content_type : Text
  pub width : Option ℕ
  pub height : Option ℕ
  pub byte_size : Option ℕ
  pub position : ℕ
  pub removed_at : Option ℕ

pub data ClaimStatus : Type 0 where
  pending approved denied withdrawn : ClaimStatus

pub record LostFoundClaim : Type 0 where
  pub id : ℕ
  pub tenant_id : ℕ
  pub item_id : ℕ
  pub claimant_id : ℕ
  pub message : Text
  pub status : ClaimStatus
  pub decided_at : Option ℕ
  pub deleted_at : Option ℕ
  pub created_at : ℕ

pub record LostFoundClaimMessage : Type 0 where
  pub id : ℕ
  pub tenant_id : ℕ
  pub claim_id : ℕ
  pub sender_id : ℕ
  pub body : Text
  pub created_at : ℕ

pub record LostFound : Type 0 where
  pub items : List LostFoundItem
  pub photos : List LostFoundItemPhoto
  pub claims : List LostFoundClaim
  pub messages : List LostFoundClaimMessage
  pub members : List Membership
  pub inbox : List NotifyArgs

abbrev pub is_open : ItemStatus → Bool
is_open opened = true
is_open _ = false

abbrev pub is_pending : ClaimStatus → Bool
is_pending pending = true
is_pending _ = false

abbrev pub is_approved : ClaimStatus → Bool
is_approved approved = true
is_approved _ = false

-- The policy `lf_claims_participants`.
abbrev pub sees_claim : Context → List LostFoundItem → LostFoundClaim → Bool
sees_claim ctx items c =
    (c.tenant_id == ctx.tenant_id)
    && ((c.claimant_id == ctx.user_id)
        || any (λ i. (i.id == c.item_id) && (i.reporter_id == ctx.user_id)) items)
