-- ===== src/Marketplace/Listings/Moderation.antt =====
-- packages/modules/marketplace/src/moderation.ts: reports of listings, their resolution and removals.
use campus_os.Common.{
  Text, trim, ℕ, Bool, true, false, not, ◌&&◌, ◌||◌, none, some, List, [], ◌∷◌, ◌++◌, ltb, ◌==◌,
  if◌then◌else◌, any, length, update_where,
}
use campus_os.Core.Result.{Result, ok, ◌>>◌, require}
use campus_os.Tenancy.{Context, is_present}
use campus_os.Marketplace.Orders.{or_null}
use campus_os.Marketplace.Listings.{
  ListingStatus, Listing, ReportStatus, unresolved, resolved, Resolution, dismissed, Report,
  Moderator, Goods,
}
use campus_os.Marketplace.Listings.Lifecycle.{delete_listing_photo_rows}

pub data ModerationRefusal : Type 0 where
  not_allowed not_found invalid : ModerationRefusal

abbrev pub can_moderate : Context → List Moderator → Bool
can_moderate ctx moderators =
    any (λ m. (m.user_id == ctx.user_id) && (m.tenant_id == ctx.tenant_id)) moderators

abbrev pub new_report : Context → ℕ → Text → Text → Report
new_report ctx target reason note = record {
  tenant_id = ctx.tenant_id;
  target_id = target;
  reporter_id = ctx.user_id;
  reason = trim reason;
  note = or_null (trim note);
  status = unresolved;
  resolution = none;
  resolved_by = none;
  resolved_at = none;
  created_at = ctx.now;
}

-- A note that is left out is the empty text.
unfoldable pub report_target : Context → ℕ → Text → Text → Goods → Result Goods ModerationRefusal
report_target ctx target reason note s = do
  require (not (ltb (length (trim reason)) 2 || ltb 60 (length (trim reason)))) invalid
  require (not (ltb 1000 (length note))) invalid
  ok (
      if any (λ r. (r.target_id == target) && (r.reporter_id == ctx.user_id)) s.reports
      then s
      else record s { reports = s.reports ++ new_report ctx target reason note ∷ [] })

abbrev pub is_unresolved : ReportStatus → Bool
is_unresolved unresolved = true
is_unresolved resolved = false

abbrev pub open_report : ℕ → ℕ → Report → Bool
open_report tenant target r =
    (r.tenant_id == tenant) && ((r.target_id == target) && is_unresolved r.status)

abbrev pub resolved_as : Context → Resolution → Report → Report
resolved_as ctx how r = record r {
  status = resolved;
  resolution = some how;
  resolved_by = some ctx.user_id;
  resolved_at = some ctx.now;
}

-- The definer auth_mkt_resolve_reports.
unfoldable pub resolve_reports : Context → ℕ → Resolution → Goods → Goods
resolve_reports ctx target how s =
    if can_moderate ctx s.moderators
    then record s {
      reports = update_where (open_report ctx.tenant_id target) (resolved_as ctx how) s.reports;
    }
    else s

unfoldable pub dismiss_reports : Context → ℕ → Goods → Result Goods ModerationRefusal
unfolding resolve_reports
dismiss_reports ctx target s = do
  require (can_moderate ctx s.moderators) not_allowed
  ok (resolve_reports ctx target dismissed s)

-- The listing of the id in the tenant, unless its seller deleted it.
abbrev pub standing_listing : Context → ℕ → Listing → Bool
standing_listing ctx listing l =
    (l.id == listing) && ((l.tenant_id == ctx.tenant_id) && not (is_present l.deleted_at))

abbrev pub removed_for : Context → Text → Listing → Listing
removed_for ctx reason l = record l {
  status = ListingStatus.removed;
  removed_at = some ctx.now;
  removed_by = some ctx.user_id;
  removal_reason = some reason;
  edited_at = some ctx.now;
}

unfoldable pub remove_listing :
    Context → ℕ → Text → Goods → Result (List Text × Goods) ModerationRefusal
unfolding resolve_reports delete_listing_photo_rows
remove_listing ctx listing reason s = do
  require (not (ltb (length (trim reason)) 2 || ltb 300 (length (trim reason))))
      ModerationRefusal.invalid
  require (can_moderate ctx s.moderators) not_allowed
  require (any (standing_listing ctx listing) s.listings) ModerationRefusal.not_found
  let t = record s {
    listings =
        update_where (standing_listing ctx listing) (removed_for ctx (trim reason)) s.listings;
  }
  ok (
      delete_listing_photo_rows ctx.tenant_id listing
        (resolve_reports ctx listing Resolution.removed t))
