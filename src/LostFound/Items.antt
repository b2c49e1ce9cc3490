-- ===== src/LostFound/Items.antt =====
-- packages/modules/lost-found/src/write.ts and expiry.ts: what a reporter does to an item, and the
-- sweep that expires items.
use campus_os.Common.{
  Text, ℕ, ◌+◌, ◌*◌, Bool, true, false, not, ◌&&◌, Option, none, some, List, [], ◌∷◌, ◌++◌, map,
  ltb, ◌==◌, if◌then◌else◌, any, filter, find, count, update_where,
}
use campus_os.Core.Result.{Result, ok, ◌>>=◌, ◌>>◌, require, found}
use campus_os.Tenancy.{Context, is_present, has_passed}
use campus_os.LostFound.{LostFoundItem, LostFoundItemPhoto, ItemStatus, LostFound, is_open}

pub data PhotoRefusal : Type 0 where
  not_found too_many_photos : PhotoRefusal

pub record PhotoInput : Type 0 where
  pub storage_key : Text
  pub thumb_key : Text
  pub content_type : Text
  pub width : Option ℕ
  pub height : Option ℕ
  pub byte_size : Option ℕ

abbrev pub own_item : Context → ℕ → LostFoundItem → Bool
own_item ctx item i =
    (i.id == item)
    && ((i.tenant_id == ctx.tenant_id)
        && ((i.reporter_id == ctx.user_id) && not (is_present i.deleted_at)))

abbrev pub shown_photo : ℕ → ℕ → LostFoundItemPhoto → Bool
shown_photo tenant item p =
    (p.tenant_id == tenant) && ((p.item_id == item) && not (is_present p.removed_at))

unfoldable pub add_item_photo :
    Context → ℕ → PhotoInput → ℕ → LostFound → Result (ℕ × LostFound) PhotoRefusal
add_item_photo ctx item photo max_photos s = do
  own ← found (find (own_item ctx item) s.items) not_found
  require (ltb (count (shown_photo ctx.tenant_id item) s.photos) max_photos) too_many_photos
  ok (
    count (shown_photo ctx.tenant_id item) s.photos,
    record s {
      photos =
          s.photos
          ++ record {
            tenant_id = ctx.tenant_id;
            item_id = item;
            storage_key = photo.storage_key;
            thumb_key = photo.thumb_key;
            content_type = photo.content_type;
            width = photo.width;
            height = photo.height;
            byte_size = photo.byte_size;
            position = count (shown_photo ctx.tenant_id item) s.photos;
            removed_at = none;
          }
            ∷ [];
    },
  )

-- The rows that a reporter's own update meets.
abbrev pub own_open : Context → ℕ → LostFoundItem → Bool
own_open ctx item i =
    (i.id == item)
    && ((i.tenant_id == ctx.tenant_id) && ((i.reporter_id == ctx.user_id) && is_open i.status))

abbrev pub withdrawn_item : ℕ → LostFoundItem → LostFoundItem
withdrawn_item now i = record i { status = ItemStatus.withdrawn; edited_at = some now }

abbrev is_empty : Text → Bool
is_empty [] = true
is_empty (c ∷ cs) = false

-- The keys of the photos, less the empty ones (`filter(Boolean)`).
abbrev pub storage_keys : List LostFoundItemPhoto → List Text
storage_keys [] = []
storage_keys (p ∷ ps) =
    filter (λ k. not (is_empty k)) (p.storage_key ∷ p.thumb_key ∷ []) ++ storage_keys ps

abbrev pub photo_of : ℕ → ℕ → LostFoundItemPhoto → Bool
photo_of tenant item p = (p.tenant_id == tenant) && (p.item_id == item)

unfoldable pub delete_item_photo_rows : Context → ℕ → LostFound → List Text × LostFound
delete_item_photo_rows ctx item s = (
  storage_keys (filter (photo_of ctx.tenant_id item) s.photos),
  record s { photos = filter (λ p. not (photo_of ctx.tenant_id item p)) s.photos },
)

-- `changed`, the keys of the photos, and the new state.
unfoldable pub withdraw_item : Context → ℕ → LostFound → Bool × List Text × LostFound
withdraw_item ctx item s =
    if any (own_open ctx item) s.items
    then (let (keys, left) = delete_item_photo_rows ctx item (record s {
      items = update_where (own_open ctx item) (withdrawn_item ctx.now) s.items;
    }) in
        (true, keys, left))
    else (false, [], s)

-- Milliseconds of a day.
abbrev pub day : ℕ
day = 86400000

-- `Math.max(1, Math.floor(settings.expiryDays))`, of a natural number.
abbrev pub window : ℕ → ℕ
window expiry_days = if ltb expiry_days 1 then 1 else expiry_days

abbrev pub extended : ℕ → ℕ → LostFoundItem → LostFoundItem
extended now expiry_days i = record i {
  expires_at = some (now + window expiry_days * day);
  expiry_notified_at = none;
  edited_at = some now;
}

unfoldable pub extend_item : Context → ℕ → ℕ → LostFound → Bool × LostFound
extend_item ctx item expiry_days s = (
  any (own_open ctx item) s.items,
  record s { items = update_where (own_open ctx item) (extended ctx.now expiry_days) s.items },
)

abbrev pub expires : ℕ → ℕ → LostFoundItem → Bool
expires tenant now i =
    (i.tenant_id == tenant)
    && (is_open i.status && (not (is_present i.deleted_at) && has_passed now i.expires_at))

abbrev pub expired_item : LostFoundItem → LostFoundItem
expired_item i = record i { status = ItemStatus.expired }

-- The ids of the items that expired, and the new state.
unfoldable pub expire_open_items : ℕ → ℕ → LostFound → List ℕ × LostFound
expire_open_items tenant now s = (
  map (λ i. i.id) (filter (expires tenant now) s.items),
  record s { items = update_where (expires tenant now) expired_item s.items },
)
