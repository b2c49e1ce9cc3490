-- ===== src/Marketplace/Gigs/Samples.antt =====
-- A gig that is paused, at the concrete state of the orders' examples.
use campus_os.Common.{◌≡◌, refl, true, false, [], ◌∷◌, inl}
use campus_os.Core.Result.{ok, is_ok}
use campus_os.Marketplace.{paused, Market}
use campus_os.Marketplace.Orders.{place_order}
use campus_os.Marketplace.Samples.{buyer_at, seller_at, logo, empty, wanted}
use campus_os.Marketplace.Gigs.{set_to, set_gig_status}
use campus_os.Marketplace.Gigs.Withdrawing.{withdrawn_unordered}

abbrev pub on_hold : Market
on_hold = record empty { gigs = set_to paused 50 logo ∷ [] }

is_on_hold : set_gig_status (seller_at 50) 30 paused empty ≡ ok (true, on_hold)
unfolding set_gig_status
is_on_hold = refl

withdrawn_unordered_example : is_ok (place_order (buyer_at 100) 10 wanted on_hold) ≡ false
withdrawn_unordered_example =
    withdrawn_unordered (seller_at 50) (buyer_at 100) 10 30 wanted [] empty on_hold (refl, tt) refl
      refl (inl is_on_hold)
