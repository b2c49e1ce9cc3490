-- ===== src/LostFound/Claims.antt =====
-- packages/modules/lost-found/src/claims.ts: claims, their private thread, and the decision of the
-- reporter.
pub mod Resolution
pub mod Confirming
pub mod Settling
pub mod Closing
use campus_os.Common.{
  Text, trim, ℕ, Bool, true, false, not, ◌&&◌, ◌||◌, Option, none, some, List, [], ◌∷◌, ◌++◌, ltb,
  leb, ◌==◌, if◌then◌else◌, any, filter, find, length, update_where,
}
use campus_os.Core.Result.{Result, ok, err, ◌>>=◌, ◌>>◌, require, found}
use campus_os.Tenancy.{
  Context, is_present, is_verified_member, NotifyArgs, Kind, claim_opened, claim_message,
  claim_approved, claim_denied, item_resolved, notify_in_tx,
}
use campus_os.LostFound.{
  LostFoundItem, ItemStatus, LostFoundClaim, ClaimStatus, LostFoundClaimMessage, LostFound, is_open,
  is_pending, sees_claim,
}

pub data ClaimRefusal : Type 0 where
  not_verified not_found not_allowed own_item not_open exists invalid : ClaimRefusal

abbrev pub listed_item : Context → ℕ → LostFoundItem → Bool
listed_item ctx item i =
    (i.id == item) && ((i.tenant_id == ctx.tenant_id) && not (is_present i.deleted_at))

-- The key of the unique index of pending claims.
abbrev pub conflicts : ℕ → ℕ → LostFoundClaim → Bool
conflicts item claimant c =
    (c.item_id == item) && ((c.claimant_id == claimant) && is_pending c.status)

abbrev pub new_claim : Context → ℕ → ℕ → Text → LostFoundClaim
new_claim ctx fresh item text = record {
  id = fresh;
  tenant_id = ctx.tenant_id;
  item_id = item;
  claimant_id = ctx.user_id;
  message = text;
  status = ClaimStatus.pending;
  decided_at = none;
  deleted_at = none;
  created_at = ctx.now;
}

unfoldable pub open_claim : Context → ℕ → ℕ → Text → LostFound → Result (ℕ × LostFound) ClaimRefusal
open_claim ctx fresh item_id message s = do
  require (not (ltb (length (trim message)) 3 || ltb 2000 (length (trim message)))) invalid
  require (is_verified_member s.members ctx.now ctx.user_id ctx.tenant_id) not_verified
  item ← found (find (listed_item ctx item_id) s.items) not_found
  require (not (item.reporter_id == ctx.user_id)) own_item
  require (is_open item.status) not_open
  require (not (any (conflicts item_id ctx.user_id) s.claims)) exists
  ok (
    fresh,
    record s {
      claims = s.claims ++ new_claim ctx fresh item_id (trim message) ∷ [];
      inbox =
          notify_in_tx
            (record {
              user_id = item.reporter_id;
              kind = claim_opened;
              payload = item.title ∷ [];
              link = item_id;
              actor_id = ctx.user_id;
            })
            s.inbox;
    },
  )

-- The row of the join of a claim and its item.
pub record Joined : Type 0 where
  pub claim : LostFoundClaim
  pub item : LostFoundItem

abbrev pub claim_by_id : Context → List LostFoundItem → ℕ → LostFoundClaim → Bool
claim_by_id ctx items claim_id c =
    (c.id == claim_id) && ((c.tenant_id == ctx.tenant_id) && sees_claim ctx items c)

abbrev pub item_of : ℕ → ℕ → LostFoundItem → Bool
item_of tenant item i = (i.id == item) && (i.tenant_id == tenant)

-- A claim by id, as the acting user sees it, joined to its item.
unfoldable pub joined_claim : Context → ℕ → LostFound → Option Joined
joined_claim ctx claim_id s = elim (find (claim_by_id ctx s.items claim_id) s.claims) [
  | none ↦ none
  | some c ↦ elim (find (item_of ctx.tenant_id c.item_id) s.items) [
    | none ↦ none
    | some i ↦ some (record { claim = c; item = i })
  ]
]

unfoldable pub send_claim_message :
    Context → ℕ → ℕ → Text → LostFound → Result (ℕ × LostFound) ClaimRefusal
send_claim_message ctx fresh claim_id body s = do
  require (not (ltb (length (trim body)) 1 || ltb 2000 (length (trim body)))) invalid
  row ← found (joined_claim ctx claim_id s) not_found
  ok (
    fresh,
    record s {
      messages =
          s.messages
          ++ record {
            id = fresh;
            tenant_id = ctx.tenant_id;
            claim_id = claim_id;
            sender_id = ctx.user_id;
            body = trim body;
            created_at = ctx.now;
          }
            ∷ [];
      inbox =
          notify_in_tx
            (record {
              user_id =
                  if row.claim.claimant_id == ctx.user_id
                  then row.item.reporter_id
                  else row.claim.claimant_id;
              kind = claim_message;
              payload = row.item.title ∷ [];
              link = row.claim.item_id;
              actor_id = ctx.user_id;
            })
            s.inbox;
    },
  )

abbrev pub decide : ClaimStatus → ℕ → LostFoundClaim → LostFoundClaim
decide status now c = record c { status = status; decided_at = some now }

abbrev pub visible_id : Context → List LostFoundItem → ℕ → LostFoundClaim → Bool
visible_id ctx items claim_id c = (c.id == claim_id) && sees_claim ctx items c

abbrev pub resolved_item : ℕ → ℕ → LostFoundItem → LostFoundItem
resolved_item claim_id now i = record i {
  status = ItemStatus.resolved;
  resolved_via_claim_id = some claim_id;
  resolved_at = some now;
  edited_at = some now;
}

-- The items that the acting user may change: the tenant's, and their own.
abbrev pub resolves : Context → ℕ → LostFoundItem → Bool
resolves ctx item i =
    (i.id == item) && ((i.tenant_id == ctx.tenant_id) && (i.reporter_id == ctx.user_id))

-- The other pending claims on the item.
abbrev pub loses : Context → List LostFoundItem → ℕ → ℕ → LostFoundClaim → Bool
loses ctx items item claim_id c =
    (c.item_id == item)
    && (is_pending c.status && (not (c.id == claim_id) && sees_claim ctx items c))

abbrev pub decision_note : Context → Kind → LostFoundItem → ℕ → NotifyArgs
decision_note ctx kind item claimant = record {
  user_id = claimant;
  kind = kind;
  payload = item.title ∷ [];
  link = item.id;
  actor_id = ctx.user_id;
}

-- The loop that tells everyone else.
unfoldable pub tell_denied :
    Context → LostFoundItem → List LostFoundClaim → List NotifyArgs → List NotifyArgs
tell_denied ctx item [] inbox = inbox
tell_denied ctx item (d ∷ ds) inbox =
    tell_denied ctx item ds
      (notify_in_tx (decision_note ctx item_resolved item d.claimant_id) inbox)

unfoldable pub confirm_claim : Context → ℕ → LostFound → Result LostFound ClaimRefusal
confirm_claim ctx claim_id s = do
  row ← found (joined_claim ctx claim_id s) not_found
  require (row.item.reporter_id == ctx.user_id) not_allowed
  require (is_pending row.claim.status) not_found
  require (is_open row.item.status) not_open
  let approved =
      update_where (visible_id ctx s.items claim_id) (decide ClaimStatus.approved ctx.now) s.claims
  let items = update_where (resolves ctx row.claim.item_id) (resolved_item claim_id ctx.now) s.items
  ok (record s {
    items = items;
    claims =
        update_where (loses ctx items row.claim.item_id claim_id)
          (decide ClaimStatus.denied ctx.now) approved;
    inbox =
        tell_denied ctx row.item (filter (loses ctx items row.claim.item_id claim_id) approved)
          (notify_in_tx (decision_note ctx claim_approved row.item row.claim.claimant_id) s.inbox);
  })

unfoldable pub reject_claim : Context → ℕ → LostFound → Result LostFound ClaimRefusal
reject_claim ctx claim_id s = do
  row ← found (joined_claim ctx claim_id s) not_found
  require (row.item.reporter_id == ctx.user_id) not_allowed
  require (is_pending row.claim.status) not_found
  ok (record s {
    claims =
        update_where (visible_id ctx s.items claim_id) (decide ClaimStatus.denied ctx.now) s.claims;
    inbox = notify_in_tx (decision_note ctx claim_denied row.item row.claim.claimant_id) s.inbox;
  })

-- The rows that a withdrawal meets.
abbrev pub withdraws : Context → ℕ → LostFoundClaim → Bool
withdraws ctx claim_id c =
    (c.id == claim_id)
    && ((c.tenant_id == ctx.tenant_id) && ((c.claimant_id == ctx.user_id) && is_pending c.status))

unfoldable pub withdraw_claim : Context → ℕ → LostFound → Result LostFound ClaimRefusal
withdraw_claim ctx claim_id s = do
  require (any (withdraws ctx claim_id) s.claims) not_found
  ok (record s {
    claims = update_where (withdraws ctx claim_id) (decide ClaimStatus.withdrawn ctx.now) s.claims;
  })
