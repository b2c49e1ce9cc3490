-- ===== src/Marketplace/Parties.antt =====
-- What the reads of packages/modules/marketplace/src/orders-read.ts show, and to whom, and what the
-- policies of the reviews in packages/modules/marketplace/drizzle/0004_marketplace_orders.sql admit.
use campus_os.Common.{
  Bool-cases, ◌||◌, any_mono, ℕ, ◌*◌, ◌≤◌, ◌≡◌, refl, Bool, true, false, ◌&&◌, none, some, List, [],
  ◌∷◌, map, filter, any, length, sort_by, take, ◌==◌, find, All, find_holds, find-In, find-some,
  All-take, All-sort_by, All-filter, ==_refl, any-In, arith, Option-cases, inl, inr,
}
use campus_os.Tenancy.{Context}
use campus_os.Core.Result.{ok}
use campus_os.Marketplace.{completed, Order, Review, OrderFile, Market}
use campus_os.Marketplace.Orders.{party_order}
use campus_os.Marketplace.Transitions.{same_status}
use campus_os.Marketplace.Reading.{
  order_by_id, order_files, sees_file, order_file_for_download, shown_review, newest_review, rated,
  sum_ratings, reviews_for_gig, reviews_for_seller,
}
use campus_os.Marketplace.Earned.{Earned}
use campus_os.Marketplace.Reviews.{ReviewInput, new_review, write_review, review_admitted}
use campus_os.Marketplace.History.{Reach, reviews-IsEarned}

-- Who reads is neither the buyer nor the seller of the order.
module _ (ctx : Context) (order : ℕ) (s : Market)
    (stranger : any
        (λ o. (o.id == order) && ((o.buyer_id == ctx.user_id) || (o.seller_id == ctx.user_id)))
        s.orders
      ≡ false) where
  apart : any (party_order ctx order) s.orders ≡ false
  apart = elim (Bool-cases (any (party_order ctx order) s.orders)) [
    | inr e ↦ e
    | inl e ↦ ground (
      arith,
      any_mono (party_order ctx order)
          (λ o. (o.id == order) && ((o.buyer_id == ctx.user_id) || (o.seller_id == ctx.user_id)))
          s.orders (λ o h. ground arith) e,
    )
  ]

  no_row : find (party_order ctx order) s.orders ≡ none
  no_row = elim (Option-cases (find (party_order ctx order) s.orders)) [
    | inl e ↦ e
    | inr (o, e) ↦ ground (arith, apart, find-some (party_order ctx order) s.orders e)
  ]

  no_file : (f : OrderFile) → sees_file ctx s.orders order f ≡ false
  no_file f = ground (arith, apart)

  files_none : (fs : List OrderFile) → filter (sees_file ctx s.orders order) fs ≡ []
  files_none [] = refl
  files_none (f ∷ fs) = ground (arith, no_file f, files_none fs)

  download_none :
      (file : ℕ) (fs : List OrderFile)
      → find (λ f. (f.id == file) && sees_file ctx s.orders order f) fs ≡ none
  download_none file [] = refl
  download_none file (f ∷ fs) = ground (arith, no_file f, download_none file fs)

  -- Whoever is neither the buyer nor the seller of an order reads nothing of it: not the order with its
  -- log, not the list of its files, and no file.
  pub parties_only :
      (file : ℕ)
      → (order_by_id ctx order s ≡ none)
        × (order_files ctx order s ≡ [])
        × (order_file_for_download ctx order file s ≡ none)
  unfolding order_by_id order_files order_file_for_download
  parties_only file =
      (ground (arith, no_row), rw (files_none s.files) refl, download_none file s.files)

sum_ratings_bounds :
    (s : Market) (rs : List Review)
    → All (Earned s.orders) rs
    → (length (map (shown_review s) rs) ≤ sum_ratings (map (shown_review s) rs))
      × (sum_ratings (map (shown_review s) rs) ≤ 5 * length (map (shown_review s) rs))
sum_ratings_bounds s [] h = (omega arith, omega arith)
sum_ratings_bounds s (r ∷ rs) (k, h) =
    let (c, d) = sum_ratings_bounds s rs h in (omega (arith, k.least, c), omega (arith, k.most, d))

-- After any history from tables without an order or a review, the ratings that are shown for a gig, and
-- for a seller, add up to at least their number and at most five times it.
pub ratings_bounds :
    (s t : Market)
    → s.orders ≡ []
    → s.reviews ≡ []
    → Reach s t
    → (tenant id : ℕ)
    → ((reviews_for_gig tenant id t).count ≤ (reviews_for_gig tenant id t).sum)
      × ((reviews_for_gig tenant id t).sum ≤ 5 * (reviews_for_gig tenant id t).count)
      × ((reviews_for_seller tenant id t).count ≤ (reviews_for_seller tenant id t).sum)
      × ((reviews_for_seller tenant id t).sum ≤ 5 * (reviews_for_seller tenant id t).count)
unfolding reviews_for_gig reviews_for_seller
ratings_bounds s t no_order no_review r tenant id =
    let (a, b) = shown_bounds (λ r. (r.tenant_id == tenant) && (r.gig_id == id)) in
    let (c, d) = shown_bounds (λ r. (r.tenant_id == tenant) && (r.seller_id == id)) in (a, b, c, d)
  where
    shown_bounds :
        (p : Review → Bool)
        → ((rated t (filter p t.reviews)).count ≤ (rated t (filter p t.reviews)).sum)
          × ((rated t (filter p t.reviews)).sum ≤ 5 * (rated t (filter p t.reviews)).count)
    shown_bounds p =
        let earned = (reviews-IsEarned s t no_order no_review r).each in
        sum_ratings_bounds t (take 100 (sort_by newest_review (filter p t.reviews))) (
          All-take (Earned t.orders) 100 (sort_by newest_review (filter p t.reviews)) (
            All-sort_by (Earned t.orders) newest_review (filter p t.reviews)
              (All-filter (Earned t.orders) p t.reviews earned)))

-- Where writeReview takes a review of an order, the policies admit the same review as a raw insert under
-- any gig and any seller.
pub policy_admits_any_gig :
    (ctx : Context) (fresh order i : ℕ) (input : ReviewInput) (s t : Market) (o : Order)
    → find (party_order ctx order) s.orders ≡ some o
    → write_review ctx fresh order input s ≡ ok (i, t)
    → (gig seller : ℕ)
    → review_admitted ctx s.orders
        (record (new_review ctx fresh o input) { gig_id = gig; seller_id = seller })
      ≡ true
unfolding write_review
policy_admits_any_gig ctx fresh order i input s t o there e gig seller =
    let held = find_holds (party_order ctx order) s.orders there in
    let mine : (o.buyer_id == ctx.user_id) ≡ true = ground arith in
    let done : same_status o.status completed ≡ true = ground arith in
    ground (
      arith,
      ==_refl ctx.tenant_id,
      ==_refl ctx.user_id,
      any-In
          (λ x.
            (x.id == o.id)
            && ((x.tenant_id == ctx.tenant_id)
                && ((x.buyer_id == ctx.user_id)
                    && ((x.gig_id == x.gig_id)
                        && ((x.seller_id == x.seller_id) && same_status x.status completed)))))
          s.orders o (find-In (party_order ctx order) s.orders there)
          (ground (arith, held, mine, done, ==_refl o.id, ==_refl o.gig_id, ==_refl o.seller_id)),
    )
