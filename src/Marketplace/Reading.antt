-- ===== src/Marketplace/Reading.antt =====
-- packages/modules/marketplace/src/orders-read.ts: what the parties of an order read, and the reviews
-- of a gig or a seller.
use campus_os.Common.{
  Text, ℕ, ◌+◌, Bool, ◌&&◌, ◌||◌, Option, none, some, List, [], ◌∷◌, map, ltb, leb, ◌==◌,
  if◌then◌else◌, any, filter, find, length, take, sort_by,
}
use campus_os.Tenancy.{Context, Profile, handle_of, seed_of}
use campus_os.Marketplace.{PaymentMode, OrderStatus, Order, OrderEvent, Review, OrderFile, Market}
use campus_os.Marketplace.Orders.{party_order}
use campus_os.Marketplace.Transitions.{Role, buyer, seller}

abbrev pub newest_order : Order → Order → Bool
newest_order o p =
    ltb p.created_at o.created_at || ((p.created_at == o.created_at) && leb p.id o.id)

pub record OrderSummary : Type 0 where
  pub id : ℕ
  pub title : Text
  pub price_paisa : ℕ
  pub status : OrderStatus
  pub payment_mode : PaymentMode
  pub buyer_id : ℕ
  pub seller_id : ℕ
  pub created_at : ℕ
  pub due_at : Option ℕ
  pub counterpart_handle : Option Text
  pub counterpart_avatar_seed : Option Text

abbrev pub profile_of : ℕ → Market → Option Profile
profile_of user s = find (λ p. p.user_id == user) s.profiles

abbrev pub summary_of : ℕ → Market → Order → OrderSummary
summary_of other s o = record {
  id = o.id;
  title = o.title;
  price_paisa = o.price_paisa;
  status = o.status;
  payment_mode = o.payment_mode;
  buyer_id = o.buyer_id;
  seller_id = o.seller_id;
  created_at = o.created_at;
  due_at = o.due_at;
  counterpart_handle = handle_of (profile_of other s);
  counterpart_avatar_seed = seed_of (profile_of other s);
}

-- A person's orders, as the buyer or as the seller.
unfoldable pub list_my_orders : Context → Role → Market → List OrderSummary
list_my_orders ctx buyer s =
    map (λ o. summary_of o.seller_id s o)
      (take 200 (
        sort_by newest_order
          (filter (λ o. (o.tenant_id == ctx.tenant_id) && (o.buyer_id == ctx.user_id)) s.orders)))
list_my_orders ctx seller s =
    map (λ o. summary_of o.buyer_id s o)
      (take 200 (
        sort_by newest_order
          (filter (λ o. (o.tenant_id == ctx.tenant_id) && (o.seller_id == ctx.user_id)) s.orders)))

pub record OrderDetail : Type 0 where
  pub summary : OrderSummary
  pub gig_id : ℕ
  pub package_id : ℕ
  pub delivery_days : ℕ
  pub revisions_allowed : ℕ
  pub revisions_used : ℕ
  pub requirements : Option Text
  pub buyer_handle : Option Text
  pub seller_handle : Option Text
  pub events : List OrderEvent

-- One order with its log, for a party of it.
unfoldable pub order_by_id : Context → ℕ → Market → Option OrderDetail
order_by_id ctx order s = elim (find (party_order ctx order) s.orders) [
  | none ↦ none
  | some o ↦ some (record {
    summary = summary_of (if o.buyer_id == ctx.user_id then o.seller_id else o.buyer_id) s o;
    gig_id = o.gig_id;
    package_id = o.package_id;
    delivery_days = o.delivery_days;
    revisions_allowed = o.revisions_allowed;
    revisions_used = o.revisions_used;
    requirements = o.requirements;
    buyer_handle = handle_of (profile_of o.buyer_id s);
    seller_handle = handle_of (profile_of o.seller_id s);
    events =
        sort_by (λ e f. leb e.created_at f.created_at)
          (filter (λ e. (e.order_id == order) && (e.tenant_id == ctx.tenant_id)) s.events);
  })
]

abbrev pub sees_file : Context → List Order → ℕ → OrderFile → Bool
sees_file ctx orders order f =
    (f.order_id == order) && ((f.tenant_id == ctx.tenant_id) && any (party_order ctx order) orders)

abbrev pub oldest_file : OrderFile → OrderFile → Bool
oldest_file f g = ltb f.created_at g.created_at || ((f.created_at == g.created_at) && leb f.id g.id)

unfoldable pub order_files : Context → ℕ → Market → List OrderFile
order_files ctx order s = sort_by oldest_file (filter (sees_file ctx s.orders order) s.files)

unfoldable pub order_file_for_download : Context → ℕ → ℕ → Market → Option OrderFile
order_file_for_download ctx order file s =
    find (λ f. (f.id == file) && sees_file ctx s.orders order f) s.files

pub record GigReview : Type 0 where
  pub id : ℕ
  pub rating : ℕ
  pub body : Text
  pub reviewer_handle : Option Text
  pub created_at : ℕ

abbrev pub shown_review : Market → Review → GigReview
shown_review s r = record {
  id = r.id;
  rating = r.rating;
  body = r.body;
  reviewer_handle = handle_of (profile_of r.reviewer_id s);
  created_at = r.created_at;
}

-- The average is left as the sum of the ratings and their number.
pub record Rated : Type 0 where
  pub reviews : List GigReview
  pub count : ℕ
  pub sum : ℕ

abbrev pub sum_ratings : List GigReview → ℕ
sum_ratings [] = 0
sum_ratings (r ∷ rs) = r.rating + sum_ratings rs

abbrev pub newest_review : Review → Review → Bool
newest_review r q =
    ltb q.created_at r.created_at || ((q.created_at == r.created_at) && leb q.id r.id)

abbrev pub rated : Market → List Review → Rated
rated s rows =
    let shown = map (shown_review s) (take 100 (sort_by newest_review rows)) in
    record { reviews = shown; count = length shown; sum = sum_ratings shown }

unfoldable pub reviews_for_gig : ℕ → ℕ → Market → Rated
reviews_for_gig tenant gig s =
    rated s (filter (λ r. (r.tenant_id == tenant) && (r.gig_id == gig)) s.reviews)

unfoldable pub reviews_for_seller : ℕ → ℕ → Market → Rated
reviews_for_seller tenant person s =
    rated s (filter (λ r. (r.tenant_id == tenant) && (r.seller_id == person)) s.reviews)

unfoldable pub order_review : Context → ℕ → Market → Option Review
order_review ctx order s =
    find
      (λ r.
        (r.order_id == order) && ((r.reviewer_id == ctx.user_id) && (r.tenant_id == ctx.tenant_id)))
      s.reviews
