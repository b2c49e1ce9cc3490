-- ===== src/Marketplace/Listings/Lives.antt =====
-- Histories of the goods: any order of the writes of packages/modules/marketplace/src/write.ts, expiry.ts
-- and moderation.ts, by any people, and what they leave of a listing that a moderator removed.
use campus_os.Common.{
  Text, trim, ℕ, ◌≡◌, Bool, true, false, ◌&&◌, some, List, [], ◌∷◌, ◌++◌, ◌==◌, any, any-append,
  update_where, any-update_In, arith,
}
use campus_os.Core.Result.{ok}
use campus_os.Tenancy.{Context, Membership}
use campus_os.Marketplace.Listings.{
  ListingStatus, removed, Listing, Moderator, Goods, MarketplaceSettings, is_active,
}
use campus_os.Marketplace.Listings.Selling.{
  ListingInput, create_listing, new_listing, PhotoInput, add_listing_photo, own_listing,
}
use campus_os.Marketplace.Listings.Lifecycle.{
  set_listing_status, settable, set_to, allowed_from, delete_listing, deleted_now,
  delete_listing_photo_rows, extend_listing, save_listing, unsave_listing, is_over, expired_now,
  expire_active_listings,
}
use campus_os.Marketplace.Listings.Moderation.{
  report_target, dismiss_reports, resolve_reports, remove_listing, standing_listing, removed_for,
}

-- One transaction. Members and moderators may change between two transactions.
pub data Move (ctx : Context) : Goods → Goods → Type 0 where
  creates :
      (fresh i : ℕ) (input : ListingInput) (settings : MarketplaceSettings) (s s' : Goods)
      → create_listing ctx fresh input settings s ≡ ok (i, s')
      → Move ctx s s'
  adds_photo :
      (listing i : ℕ) (photo : PhotoInput) (most : ℕ) (s s' : Goods)
      → add_listing_photo ctx listing photo most s ≡ ok (i, s')
      → Move ctx s s'
  sets :
      (listing : ℕ) (next : ListingStatus) (changed : Bool) (s s' : Goods)
      → set_listing_status ctx listing next s ≡ ok (changed, s')
      → Move ctx s s'
  deletes : (listing : ℕ) (s : Goods) → Move ctx s (delete_listing ctx listing s).1
  extends :
      (listing : ℕ) (settings : MarketplaceSettings) (s : Goods)
      → Move ctx s (extend_listing ctx listing settings s).1
  saves : (listing : ℕ) (s s' : Goods) → save_listing ctx listing s ≡ some s' → Move ctx s s'
  unsaves : (listing : ℕ) (s : Goods) → Move ctx s (unsave_listing ctx listing s)
  sweeps : (tenant : ℕ) (s : Goods) → Move ctx s (expire_active_listings tenant ctx.now s).1
  reports :
      (target : ℕ) (reason note : Text) (s s' : Goods)
      → report_target ctx target reason note s ≡ ok s'
      → Move ctx s s'
  dismisses : (target : ℕ) (s s' : Goods) → dismiss_reports ctx target s ≡ ok s' → Move ctx s s'
  removes :
      (listing : ℕ) (reason : Text) (keys : List Text) (s s' : Goods)
      → remove_listing ctx listing reason s ≡ ok (keys, s')
      → Move ctx s s'
  regroups :
      (s : Goods) (members : List Membership) (moderators : List Moderator)
      → Move ctx s (record s { members = members; moderators = moderators })

pub data Reach : Goods → Goods → Type 0 where
  start : (s : Goods) → Reach s s
  then_move : (ctx : Context) (s t u : Goods) → Reach s t → Move ctx t u → Reach s u

abbrev pub is_removed : ListingStatus → Bool
is_removed removed = true
is_removed _ = false

-- The listing of the id is there and removed.
abbrev pub removed_one : ℕ → Listing → Bool
removed_one k l = (l.id == k) && is_removed l.status

module _ (ctx : Context) (s s' : Goods) where
  create_listing_adds :
      (fresh i : ℕ) (input : ListingInput) (settings : MarketplaceSettings)
      → create_listing ctx fresh input settings s ≡ ok (i, s')
      → s.listings ++ new_listing ctx fresh input settings ∷ [] ≡ s'.listings
  unfolding create_listing
  create_listing_adds fresh i input settings e = ground arith

  add_listing_photo_same :
      (listing i : ℕ) (photo : PhotoInput) (most : ℕ)
      → add_listing_photo ctx listing photo most s ≡ ok (i, s')
      → s.listings ≡ s'.listings
  unfolding add_listing_photo
  add_listing_photo_same listing i photo most e = ground arith

  set_listing_status_sets :
      (listing : ℕ) (next : ListingStatus) (changed : Bool)
      → set_listing_status ctx listing next s ≡ ok (changed, s')
      → update_where (settable ctx listing next) (set_to next ctx.now) s.listings ≡ s'.listings
  unfolding set_listing_status
  set_listing_status_sets listing next changed e = ground arith

  save_listing_same :
      (listing : ℕ) → save_listing ctx listing s ≡ some s' → s.listings ≡ s'.listings
  unfolding save_listing
  save_listing_same listing e = ground arith

  report_target_same :
      (target : ℕ) (reason note : Text)
      → report_target ctx target reason note s ≡ ok s'
      → s.listings ≡ s'.listings
  unfolding report_target
  report_target_same target reason note e = ground arith

  dismiss_reports_same :
      (target : ℕ) → dismiss_reports ctx target s ≡ ok s' → s.listings ≡ s'.listings
  unfolding dismiss_reports resolve_reports
  dismiss_reports_same target e = ground arith

  remove_listing_removes :
      (listing : ℕ) (reason : Text) (keys : List Text)
      → remove_listing ctx listing reason s ≡ ok (keys, s')
      → update_where (standing_listing ctx listing) (removed_for ctx (trim reason)) s.listings
        ≡ s'.listings
  unfolding remove_listing resolve_reports delete_listing_photo_rows
  remove_listing_removes listing reason keys e = ground arith

no_edge : (next a : ListingStatus) → allowed_from next a ≡ true → is_removed a ≡ false
no_edge next a h = ground arith

not_active : (a : ListingStatus) → is_active a ≡ true → is_removed a ≡ false
not_active a h = ground arith

Move_keeps_removed :
    (ctx : Context) (k : ℕ) (s s' : Goods)
    → any (removed_one k) s.listings ≡ true
    → Move ctx s s'
    → any (removed_one k) s'.listings ≡ true
unfolding delete_listing delete_listing_photo_rows extend_listing unsave_listing
    expire_active_listings
Move_keeps_removed ctx k _ _ h (Move.creates fresh i input settings s s' e) =
    rw (← create_listing_adds ctx s s' fresh i input settings e) (
      ground (
        arith,
        h,
        any-append (removed_one k) s.listings (new_listing ctx fresh input settings ∷ []),
      ))
Move_keeps_removed ctx k _ _ h (Move.adds_photo listing i photo most s s' e) =
    rw (← add_listing_photo_same ctx s s' listing i photo most e) h
Move_keeps_removed ctx k _ _ h (Move.sets listing next changed s s' e) =
    rw (← set_listing_status_sets ctx s s' listing next changed e) (
      any-update_In (removed_one k) (settable ctx listing next) (set_to next ctx.now) s.listings
        (λ x i p q. ground (arith, p, q, no_edge next x.status)) h)
Move_keeps_removed ctx k _ _ h (Move.deletes listing s) = ground (
  arith,
  h,
  any-update_In (removed_one k) (own_listing ctx listing) (deleted_now ctx.now) s.listings
      (λ x i p q. q) h,
)
Move_keeps_removed ctx k _ _ h (Move.extends listing settings s) =
    any-update_In (removed_one k) (λ l. own_listing ctx listing l && is_active l.status) _
      s.listings (λ x i p q. ground (arith, p, q, not_active x.status)) h
Move_keeps_removed ctx k _ _ h (Move.saves listing s s' e) =
    rw (← save_listing_same ctx s s' listing e) h
Move_keeps_removed ctx k _ _ h (Move.unsaves listing s) = h
Move_keeps_removed ctx k _ _ h (Move.sweeps tenant s) =
    any-update_In (removed_one k) (is_over tenant ctx.now) (expired_now ctx.now) s.listings
      (λ x i p q. ground (arith, p, q, not_active x.status)) h
Move_keeps_removed ctx k _ _ h (Move.reports target reason note s s' e) =
    rw (← report_target_same ctx s s' target reason note e) h
Move_keeps_removed ctx k _ _ h (Move.dismisses target s s' e) =
    rw (← dismiss_reports_same ctx s s' target e) h
Move_keeps_removed ctx k _ _ h (Move.removes listing reason keys s s' e) =
    rw (← remove_listing_removes ctx s s' listing reason keys e) (
      any-update_In (removed_one k) (standing_listing ctx listing) (removed_for ctx (trim reason))
        s.listings (λ x i p q. ground (arith, q)) h)
Move_keeps_removed ctx k _ _ h (Move.regroups s members moderators) = h

-- Once a listing is removed, it is removed after any history of the goods.
pub removed_stays :
    (k : ℕ) (s t : Goods)
    → any (removed_one k) s.listings ≡ true
    → Reach s t
    → any (removed_one k) t.listings ≡ true
removed_stays k _ _ h (Reach.start s) = h
removed_stays k _ _ h (Reach.then_move ctx s t u r m) =
    Move_keeps_removed ctx k t u (removed_stays k s t h r) m
