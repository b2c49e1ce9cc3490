-- ===== src/Core/Payments/Fees.antt =====
-- The fee and what the seller keeps.
use campus_os.Common.{ℕ, zero, suc, ◌+◌, ◌-◌, ◌*◌, ◌/◌, ◌≤◌, ◌<◌, ◌≡◌, some, arith}
use campus_os.Core.Payments.{whole, exact, max_safe_integer, fee_paisa, gain, net_paisa}

product_le : (a b : ℕ) → b ≤ 10000 → a * b ≤ a * 10000
product_le zero b h = omega arith
product_le (suc a) b h = omega (arith, product_le a b h)

-- For a positive amount and a rate of at most 10000 basis points, where their product is at most
-- 2^53 - 1, the fee is the largest whole number of paisa that is at most the rate's share of the
-- amount, and the fee and what the seller receives add up to the amount.
pub fee_plus_net :
    (amount bps : ℕ)
    → 0 < amount
    → bps ≤ 10000
    → amount * bps ≤ max_safe_integer
    → (fee net : ℕ) × (fee_paisa (whole amount) bps ≡ some (exact fee))
      × (fee * 10000 ≤ amount * bps)
      × (amount * bps < (fee + 1) * 10000)
      × (net_paisa (whole amount) bps ≡ some (gain net))
      × (fee + net ≡ amount)
unfolding fee_paisa net_paisa
fee_plus_net amount bps h k safe = (
  amount * bps / 10000,
  amount - amount * bps / 10000,
  ground (arith, safe),
  omega arith,
  omega arith,
  ground (arith, safe, share),
  omega (arith, share),
)
  where
    share : amount * bps / 10000 ≤ amount
    share = omega (arith, product_le amount bps k)
