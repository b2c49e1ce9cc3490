-- ===== src/Timetable/Hash/Decimal.antt =====
-- The decimal text of a number: its value is the number, and it has digits only.
use campus_os.Common.{
  Text, ℕ, zero, suc, ◌+◌, ◌-◌, ◌*◌, ◌/◌, ◌%◌, ◌<◌, ◌≡◌, refl, sym, ap, ◌∙◌, false, [], ◌∷◌, ltb,
  arith, includes, Bool-cases, inl, inr,
}
use campus_os.Timetable.Number.{digit_zero}
use campus_os.Timetable.Hash.{decimal_from, decimal}

-- The value of decimal digits behind a value that stands already.
unfoldable pub digits_value : ℕ → Text → ℕ
digits_value acc [] = acc
digits_value acc (c ∷ cs) = digits_value (acc * 10 + (c - digit_zero)) cs

digits_value-decimal_from :
    (f n : ℕ) (acc : Text) → n < f → digits_value 0 (decimal_from f n acc) ≡ digits_value n acc
unfolding decimal_from digits_value
digits_value-decimal_from zero n acc h = elim h [ ]
digits_value-decimal_from (suc f) n acc h = elim (Bool-cases (ltb n 10)) [
  | inl small ↦ rw small (ap (λ v. digits_value v acc) (omega arith))
  | inr large ↦ rw large (
      digits_value-decimal_from f (n / 10) ((digit_zero + n % 10) ∷ acc) (ground arith)
      ∙ ap (λ v. digits_value v acc) (omega arith))
]

-- Printing a number and reading the digits gives the number back.
pub digits_value-decimal : (n : ℕ) → digits_value 0 (decimal n) ≡ n
unfolding decimal digits_value
digits_value-decimal n = digits_value-decimal_from (suc n) n [] (omega arith)

pub decimal-injective : (m n : ℕ) → decimal m ≡ decimal n → m ≡ n
decimal-injective m n e =
    sym (digits_value-decimal m) ∙ ap (digits_value 0) e ∙ digits_value-decimal n

decimal_from-below :
    (f n c : ℕ) (acc : Text)
    → 57 < c
    → includes acc c ≡ false
    → includes (decimal_from f n acc) c ≡ false
unfolding decimal_from
decimal_from-below zero n c acc h k = k
decimal_from-below (suc f) n c acc h k =
    ground (arith, decimal_from-below f (n / 10) c ((digit_zero + n % 10) ∷ acc) h)

pub decimal-avoids : (n c : ℕ) → 57 < c → includes (decimal n) c ≡ false
unfolding decimal
decimal-avoids n c h = decimal_from-below (suc n) n c [] h refl
