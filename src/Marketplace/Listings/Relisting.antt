-- ===== src/Marketplace/Listings/Relisting.antt =====
-- Relisting and the expiry sweep: setListingStatus of packages/modules/marketplace/src/write.ts against
-- expireActiveListings of packages/modules/marketplace/src/expiry.ts.
use campus_os.Common.{
  ℕ, ◌≡◌, ◌≤◌, refl, ap, ◌∙◌, true, Option, none, some, ◌==◌, if◌then◌else◌, find, update_where,
  find-update_where, arith,
}
use campus_os.Core.Result.{ok}
use campus_os.Tenancy.{Context}
use campus_os.Marketplace.Listings.{active, expired, Listing, Goods}
use campus_os.Marketplace.Listings.Selling.{own_listing}
use campus_os.Marketplace.Listings.Lifecycle.{
  settable, set_to, set_listing_status, past, is_over, expired_now, expire_active_listings,
}

past_later :
    (at : Option ℕ) (now later : ℕ) → past at now ≡ true → now ≤ later → past at later ≡ true
past_later none now later h after = h
past_later (some t) now later h after = ground arith

-- A seller who relists an expired listing whose expiry has passed gets it back as active, but under the
-- expiry that it had: a sweep of its tenant at that time or later sets it to expired again.
pub relist_expires_again :
    (ctx : Context) (k later : ℕ) (s t : Goods) (l : Listing)
    → find (λ x. x.id == k) s.listings ≡ some l
    → own_listing ctx k l ≡ true
    → l.status ≡ expired
    → past l.expires_at ctx.now ≡ true
    → ctx.now ≤ later
    → set_listing_status ctx k active s ≡ ok (true, t)
    → (find (λ x. x.id == k) t.listings ≡ some (set_to active ctx.now l))
      × (find (λ x. x.id == k) (expire_active_listings ctx.tenant_id later t).1.listings
          ≡ some (expired_now later (set_to active ctx.now l)))
unfolding set_listing_status expire_active_listings
relist_expires_again ctx k later s t l there mine was over after e =
    let listed : update_where (settable ctx k active) (set_to active ctx.now) s.listings
        ≡ t.listings =
      ground arith in
    let relisted : find (λ x. x.id == k) t.listings ≡ some (set_to active ctx.now l) =
      rw (← listed) (
        find-update_where (λ x. x.id == k) (settable ctx k active) (set_to active ctx.now)
          s.listings l (λ x. refl) there
        ∙ ground (arith, mine, was)) in
    let due : is_over ctx.tenant_id later (set_to active ctx.now l) ≡ true =
      ground (arith, mine, past_later l.expires_at ctx.now later over after) in
    (
      relisted,
      find-update_where (λ x. x.id == k) (is_over ctx.tenant_id later) (expired_now later)
            t.listings (set_to active ctx.now l) (λ x. refl) relisted
          ∙ ap
              (λ b. some (
                if b then expired_now later (set_to active ctx.now l) else set_to active ctx.now l))
              due,
    )
