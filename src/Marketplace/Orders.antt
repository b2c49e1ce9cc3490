-- ===== src/Marketplace/Orders.antt =====
-- packages/modules/marketplace/src/orders-write.ts: placing an order, with the definer
-- mkt_place_order of drizzle/0004_marketplace_orders.sql, and telling the other party.
use campus_os.Common.{
  Text, trim, ℕ, Bool, not, ◌&&◌, ◌||◌, Option, none, some, [], ◌∷◌, ◌++◌, leb, ◌==◌, if◌then◌else◌,
  find, length,
}
use campus_os.Core.Result.{Result, ok, ◌>>=◌, ◌>>◌, require, found}
use campus_os.Tenancy.{
  Context, is_present, is_verified_member, NotifyArgs, order_update, notify_in_tx,
}
use campus_os.Marketplace.{
  Gig, is_listed, GigPackage, PaymentMode, requested, Order, transition, OrderEvent, Market,
}

-- `nullif(text, '')`.
abbrev pub or_null : Text → Option Text
or_null [] = none
or_null (c ∷ cs) = some (c ∷ cs)

-- The policy mkt_orders_party: an order is seen by its two parties.
abbrev pub sees_order : Context → Order → Bool
sees_order ctx o =
    (o.tenant_id == ctx.tenant_id) && ((o.buyer_id == ctx.user_id) || (o.seller_id == ctx.user_id))

abbrev pub party_order : Context → ℕ → Order → Bool
party_order ctx order o = (o.id == order) && sees_order ctx o

abbrev pub order_note : Context → Order → NotifyArgs
order_note ctx o = record {
  user_id = if o.buyer_id == ctx.user_id then o.seller_id else o.buyer_id;
  kind = order_update;
  payload = o.title ∷ [];
  link = o.id;
  actor_id = ctx.user_id;
}

unfoldable pub notify_order_party : Context → ℕ → Market → Market
notify_order_party ctx order s = elim (find (party_order ctx order) s.orders) [
  | none ↦ s
  | some o ↦ record s { inbox = notify_in_tx (order_note ctx o) s.inbox }
]

-- The package and its gig, as an order finds them.
pub record Offer : Type 0 where
  pub gig : Gig
  pub package_row : GigPackage

abbrev pub offered_gig : ℕ → ℕ → Gig → Bool
offered_gig tenant gig g =
    (g.id == gig)
    && ((g.tenant_id == tenant) && (is_listed g.status && not (is_present g.deleted_at)))

unfoldable pub offer_of : ℕ → ℕ → ℕ → Market → Option Offer
offer_of tenant gig package_id s =
    elim (find (λ p. (p.id == package_id) && ((p.gig_id == gig) && (p.tenant_id == tenant)))
      s.packages) [
        | none ↦ none
        | some p ↦ elim (find (offered_gig tenant p.gig_id) s.gigs) [
          | none ↦ none
          | some g ↦ some (record { gig = g; package_row = p })
        ]
      ]

-- `g.title || ' - ' || pk.title`.
abbrev pub offer_title : Offer → Text
offer_title f = f.gig.title ++ 32 ∷ 45 ∷ 32 ∷ f.package_row.title

abbrev pub new_order : Context → ℕ → Offer → PaymentMode → Text → Order
new_order ctx fresh f mode requirements = record {
  id = fresh;
  tenant_id = ctx.tenant_id;
  gig_id = f.package_row.gig_id;
  package_id = f.package_row.id;
  buyer_id = ctx.user_id;
  seller_id = f.gig.seller_id;
  title = offer_title f;
  price_paisa = f.package_row.price_paisa;
  delivery_days = f.package_row.delivery_days;
  revisions_allowed = f.package_row.revisions;
  revisions_used = 0;
  payment_mode = mode;
  status = requested;
  requirements = or_null requirements;
  accepted_at = none;
  paid_at = none;
  started_at = none;
  delivered_at = none;
  completed_at = none;
  cancelled_at = none;
  disputed_at = none;
  due_at = none;
  cancel_reason = none;
  created_at = ctx.now;
}

abbrev pub opening_event : Context → ℕ → Text → OrderEvent
opening_event ctx order requirements = record {
  tenant_id = ctx.tenant_id;
  order_id = order;
  actor_id = some ctx.user_id;
  from_status = none;
  to_status = requested;
  kind = transition;
  note = or_null requirements;
  created_at = ctx.now;
}

-- The definer mkt_place_order; `none` when it raises.
unfoldable pub mkt_place_order : Context → ℕ → ℕ → ℕ → PaymentMode → Text → Market → Option Market
unfolding offer_of
mkt_place_order ctx fresh gig package_id mode requirements s =
    if not (is_verified_member s.members ctx.now ctx.user_id ctx.tenant_id)
    then none
    else elim (offer_of ctx.tenant_id gig package_id s) [
      | none ↦ none
      | some f ↦
          if f.gig.seller_id == ctx.user_id
          then none
          else some (record s {
            orders = s.orders ++ new_order ctx fresh f mode requirements ∷ [];
            events = s.events ++ opening_event ctx fresh requirements ∷ [];
          })
    ]

pub data PlaceOrderRefusal : Type 0 where
  invalid not_verified not_found own_gig failed : PlaceOrderRefusal

pub record PlaceOrderInput : Type 0 where
  pub gig_id : ℕ
  pub package_id : ℕ
  pub payment_mode : PaymentMode
  pub requirements : Text

-- A raised error rolls the transaction back: the refusal `failed` has written nothing.
unfoldable pub place_order :
    Context → ℕ → PlaceOrderInput → Market → Result (ℕ × Market) PlaceOrderRefusal
unfolding mkt_place_order notify_order_party offer_of
place_order ctx fresh input s = do
  require (leb (length (trim input.requirements)) 4000) invalid
  require (is_verified_member s.members ctx.now ctx.user_id ctx.tenant_id) not_verified
  offer ← found (offer_of ctx.tenant_id input.gig_id input.package_id s) not_found
  require (not (offer.gig.seller_id == ctx.user_id)) own_gig
  t ←
      found
        (mkt_place_order ctx fresh input.gig_id input.package_id input.payment_mode
          (trim input.requirements) s)
        failed
  ok (fresh, notify_order_party ctx fresh t)
