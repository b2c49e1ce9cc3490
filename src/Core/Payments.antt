-- ===== src/Core/Payments.antt =====
-- packages/core/src/payments/index.ts: money amounts, the platform fee, and the payment providers.
-- `none` stands for the RangeError of `assertPositiveAmountPaisa`. A rate is a natural number. A
-- product of amount and rate of at most 2^53 - 1 is exact in the source's numbers, and so is the whole
-- part of its quotient by 10000; above that bound the source rounds, or overflows to infinity, and the
-- fee is left open.
pub mod Fees
pub mod Providers
use campus_os.Common.{
  Text, same_text, ℕ, ◌+◌, ◌-◌, ◌*◌, ◌/◌, Bool, true, false, ◌&&◌, Option, none, some, List, [],
  ◌∷◌, ltb, leb, if◌then◌else◌, ◌>>=◌,
}

-- A number of the source: whole and at least 0, whole and below 0, or not whole (NaN and the
-- infinities too).
pub data Amount : Type 0 where
  whole : ℕ → Amount
  negative : ℕ → Amount
  fractional : Amount

pub data Currency : Type 0 where
  pkr : Currency

pub data SettlementMode : Type 0 where
  manual automatic : SettlementMode

pub data ChargeStatus : Type 0 where
  pending settled failed : ChargeStatus

pub record ChargeRequest : Type 0 where
  pub amount_paisa : Amount
  pub currency : Currency
  pub reference : Text

pub record Charge : Type 0 where
  pub provider_id : Text
  pub provider_ref : Text
  pub amount_paisa : Amount
  pub currency : Currency
  pub status : ChargeStatus
  pub instructions : Option Text

abbrev pub platform_fee_bps : ℕ
platform_fee_bps = 1000

-- `Number.MAX_SAFE_INTEGER`.
abbrev pub max_safe_integer : ℕ
max_safe_integer = 9007199254740991

abbrev pub is_valid_amount_paisa : Amount → Bool
is_valid_amount_paisa (whole n) = leb n max_safe_integer
is_valid_amount_paisa (negative n) = false
is_valid_amount_paisa fractional = false

-- The paisa of a positive amount; `none` is thrown.
abbrev pub assert_positive_amount_paisa : Amount → Option ℕ
assert_positive_amount_paisa (whole n) = if ltb 0 n then some n else none
assert_positive_amount_paisa (negative n) = none
assert_positive_amount_paisa fractional = none

-- A fee, or one that the source's numbers round.
pub data Fee : Type 0 where
  exact : ℕ → Fee
  inexact : Fee

unfoldable pub fee_paisa : Amount → ℕ → Option Fee
fee_paisa amount bps = do
  paisa ← assert_positive_amount_paisa amount
  some (if leb (paisa * bps) max_safe_integer then exact (paisa * bps / 10000) else inexact)

-- The difference is negative where the fee is above the amount, and left open where the fee is.
pub data Net : Type 0 where
  gain loss : ℕ → Net
  unknown : Net

abbrev pub minus : ℕ → ℕ → Net
minus a b = if leb b a then gain (a - b) else loss (b - a)

abbrev pub net_of : ℕ → Fee → Net
net_of paisa (exact fee) = minus paisa fee
net_of paisa inexact = unknown

unfoldable pub net_paisa : Amount → ℕ → Option Net
net_paisa amount bps = do
  fee ← fee_paisa amount bps
  paisa ← assert_positive_amount_paisa amount
  some (net_of paisa fee)

abbrev pub manual_id : Text
manual_id = b'm' ∷ b'a' ∷ b'n' ∷ b'u' ∷ b'a' ∷ b'l' ∷ []

abbrev pub fake_id : Text
fake_id = b'f' ∷ b'a' ∷ b'k' ∷ b'e' ∷ []

-- `PaymentProvider`, over the state that a provider keeps.
pub record PaymentProvider (S : Type 0) : Type 0 where
  pub id : Text
  pub display_name : Text
  pub settlement : SettlementMode
  pub create_charge : ChargeRequest → S → Option (Charge × S)
  pub get_charge : Text → S → Option Charge

unfoldable pub manual_transfer_provider : Text → PaymentProvider (Unit {0})
manual_transfer_provider instructions = record {
  id = manual_id;
  display_name =
      b'B' ∷ b'a' ∷ b'n' ∷ b'k' ∷ b' ' ∷ b't' ∷ b'r' ∷ b'a' ∷ b'n' ∷ b's' ∷ b'f' ∷ b'e' ∷ b'r' ∷ [];
  settlement = SettlementMode.manual;
  create_charge = λ req s. (do
    paisa ← assert_positive_amount_paisa req.amount_paisa
    some (
      record {
        provider_id = manual_id;
        provider_ref = req.reference;
        amount_paisa = req.amount_paisa;
        currency = req.currency;
        status = ChargeStatus.pending;
        instructions = some instructions;
      },
      s,
    ));
  get_charge = λ ref s. none;
}

-- `Map.get` and `Map.set`: the newest entry of a key comes first.
abbrev pub lookup : Text → List Charge → Option Charge
lookup ref [] = none
lookup ref (c ∷ cs) = if same_text c.provider_ref ref then some c else lookup ref cs

unfoldable pub fake_provider : PaymentProvider (List Charge)
fake_provider = record {
  id = fake_id;
  display_name =
      b'T' ∷ b'e' ∷ b's' ∷ b't' ∷ b' ' ∷ b'p' ∷ b'a' ∷ b'y' ∷ b'm' ∷ b'e' ∷ b'n' ∷ b't' ∷ b's' ∷ [];
  settlement = SettlementMode.automatic;
  create_charge = λ req charges. (do
    paisa ← assert_positive_amount_paisa req.amount_paisa
    let charge : Charge = record {
      provider_id = fake_id;
      provider_ref = req.reference;
      amount_paisa = req.amount_paisa;
      currency = req.currency;
      status = ChargeStatus.settled;
      instructions = none;
    }
    some (charge, charge ∷ charges));
  get_charge = λ ref charges. lookup ref charges;
}
