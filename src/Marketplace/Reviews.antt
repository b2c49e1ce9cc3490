-- ===== src/Marketplace/Reviews.antt =====
-- packages/modules/marketplace/src/orders-write.ts: reviews and delivery files of an order, with the
-- policies of drizzle/0004_marketplace_orders.sql and
-- drizzle/0006_marketplace_order_files.sql.
use campus_os.Common.{
  Text, trim, ℕ, Bool, not, ◌&&◌, ◌||◌, List, [], ◌∷◌, ◌++◌, leb, ◌==◌, any, find, length,
}
use campus_os.Core.Result.{Result, ok, ◌>>=◌, ◌>>◌, require, found}
use campus_os.Tenancy.{Context}
use campus_os.Marketplace.{in_progress, delivered, completed, Order, Review, Market}
use campus_os.Marketplace.Orders.{party_order}
use campus_os.Marketplace.Transitions.{same_status}

pub record DeliveryFileInput : Type 0 where
  pub storage_key : Text
  pub filename : Text
  pub content_type : Text
  pub byte_size : ℕ

pub data FileRefusal : Type 0 where
  not_allowed : FileRefusal

-- The policy mkt_order_files_seller_insert, for a file of the acting user.
abbrev pub may_deliver : Context → ℕ → Order → Bool
may_deliver ctx order o =
    party_order ctx order o
    && ((o.seller_id == ctx.user_id)
        && (same_status o.status in_progress || same_status o.status delivered))

unfoldable pub add_order_delivery_file :
    Context → ℕ → ℕ → DeliveryFileInput → Market → Result (ℕ × Market) FileRefusal
add_order_delivery_file ctx fresh order file s = do
  require (any (may_deliver ctx order) s.orders) not_allowed
  ok (
    fresh,
    record s {
      files =
          s.files
          ++ record {
            id = fresh;
            tenant_id = ctx.tenant_id;
            order_id = order;
            storage_key = file.storage_key;
            filename = file.filename;
            content_type = file.content_type;
            byte_size = file.byte_size;
            uploaded_by = ctx.user_id;
            created_at = ctx.now;
          }
            ∷ [];
    },
  )

pub data ReviewRefusal : Type 0 where
  invalid not_found not_buyer not_completed exists : ReviewRefusal

pub record ReviewInput : Type 0 where
  pub rating : ℕ
  pub body : Text

abbrev pub new_review : Context → ℕ → Order → ReviewInput → Review
new_review ctx fresh o input = record {
  id = fresh;
  tenant_id = ctx.tenant_id;
  order_id = o.id;
  gig_id = o.gig_id;
  reviewer_id = ctx.user_id;
  seller_id = o.seller_id;
  rating = input.rating;
  body = trim input.body;
  created_at = ctx.now;
}

unfoldable pub write_review :
    Context → ℕ → ℕ → ReviewInput → Market → Result (ℕ × Market) ReviewRefusal
write_review ctx fresh order input s = do
  require (leb 1 input.rating && (leb input.rating 5 && leb (length (trim input.body)) 2000))
      invalid
  o ← found (find (party_order ctx order) s.orders) not_found
  require (o.buyer_id == ctx.user_id) not_buyer
  require (same_status o.status completed) not_completed
  require (not (any (λ r. (r.order_id == order) && (r.tenant_id == ctx.tenant_id)) s.reviews))
      exists
  require (not (any (λ r. r.order_id == order) s.reviews)) exists
  ok (fresh, record s { reviews = s.reviews ++ new_review ctx fresh o input ∷ [] })

-- The policies mkt_reviews_insert_self and mkt_reviews_insert_earned for a raw insert. The names
-- "gig_id" and "seller_id" inside the subquery are those of the order there.
abbrev pub review_admitted : Context → List Order → Review → Bool
review_admitted ctx orders r =
    ((r.tenant_id == ctx.tenant_id) && (r.reviewer_id == ctx.user_id))
    && any
        (λ o.
          (o.id == r.order_id)
          && ((o.tenant_id == ctx.tenant_id)
              && ((o.buyer_id == ctx.user_id)
                  && ((o.gig_id == o.gig_id)
                      && ((o.seller_id == o.seller_id) && same_status o.status completed)))))
        orders
