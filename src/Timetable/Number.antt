-- ===== src/Timetable/Number.antt =====
-- `Number` of a text, as packages/modules/timetable/src/domain/time.ts uses it: which whole number a text
-- reads as. `none` is every text that reads as no whole number, on which the source throws; and a text
-- that is left open: a whole number below 0 or above 10^14, or a value that only the rounding of a
-- double makes whole. Every number given is exact in the source, also as hours times 60 and minutes.
use campus_os.Common.{
  Text, trim, ℕ, ◌+◌, ◌-◌, ◌*◌, ◌/◌, ◌%◌, ◌^◌, Bool, true, false, ◌&&◌, ◌||◌, Option, none, some,
  [], ◌∷◌, ltb, leb, ◌==◌, if◌then◌else◌,
}

abbrev pub digit_zero : ℕ
digit_zero = b'0'

abbrev pub is_digit : ℕ → Bool
is_digit c = leb digit_zero c && leb c b'9'

-- The value of decimal digits behind a value that stands already; `none` at another character.
abbrev pub digits_from : ℕ → Text → Option ℕ
digits_from acc [] = some acc
digits_from acc (c ∷ cs) =
    let rest = digits_from (acc * 10 + (c - digit_zero)) cs in if is_digit c then rest else none

abbrev pub digits : Text → Option ℕ
digits [] = none
digits (c ∷ cs) = digits_from 0 (c ∷ cs)

-- A whole number times a power of ten, where that is whole.
abbrev pub scaled : ℕ → ℕ → ℕ → Option ℕ
scaled m up down =
    if leb down up
    then some (m * 10 ^ (up - down))
    else if m % 10 ^ (down - up) == 0
    then some (m / 10 ^ (down - up))
    else none

abbrev pub scaled_up : ℕ → ℕ → Option ℕ → Option ℕ
scaled_up m places none = none
scaled_up m places (some e) = scaled m e places

abbrev pub scaled_down : ℕ → ℕ → Option ℕ → Option ℕ
scaled_down m places none = none
scaled_down m places (some e) = scaled m 0 (places + e)

-- What stands behind the letter of an exponent.
abbrev pub exponent : ℕ → ℕ → Text → Option ℕ
exponent m places [] = none
exponent m places (c ∷ cs) =
    if c == b'+'
    then scaled_up m places (digits cs)
    else if c == b'-'
    then scaled_down m places (digits cs)
    else scaled_up m places (digits (c ∷ cs))

abbrev pub is_e : ℕ → Bool
is_e c = (c == b'e') || (c == b'E')

-- Behind the point: the digits so far, how many of them stand behind it, and whether there is any.
abbrev pub fraction_from : ℕ → ℕ → Bool → Text → Option ℕ
fraction_from m places seen [] = if seen then scaled m 0 places else none
fraction_from m places seen (c ∷ cs) =
    let longer = fraction_from (m * 10 + (c - digit_zero)) (places + 1) true cs in
    if is_digit c then longer else if is_e c && seen then exponent m places cs else none

-- In front of the point.
abbrev pub decimal_part : ℕ → Bool → Text → Option ℕ
decimal_part m seen [] = if seen then scaled m 0 0 else none
decimal_part m seen (c ∷ cs) =
    let longer = decimal_part (m * 10 + (c - digit_zero)) true cs in
    if is_digit c
    then longer
    else if c == b'.'
    then fraction_from m 0 seen cs
    else if is_e c && seen
    then exponent m 0 cs
    else none

-- A number below 0 is left open; minus zero is a zero.
abbrev pub negated : Option ℕ → Option ℕ
negated none = none
negated (some n) = if n == 0 then some 0 else none

abbrev pub signed : Text → Option ℕ
signed [] = none
signed (c ∷ cs) =
    if c == b'+'
    then decimal_part 0 false cs
    else if c == b'-'
    then negated (decimal_part 0 false cs)
    else decimal_part 0 false (c ∷ cs)

-- The value of a digit of the hexadecimal, octal and binary forms.
abbrev pub digit_value : ℕ → ℕ
digit_value c =
    if is_digit c
    then c - digit_zero
    else if leb b'a' c && leb c b'f'
    then c - b'a' + 10
    else if leb b'A' c && leb c b'F'
    then c - b'A' + 10
    else 99

abbrev pub radix_from : ℕ → ℕ → Text → Option ℕ
radix_from base acc [] = some acc
radix_from base acc (c ∷ cs) =
    let rest = radix_from base (acc * base + digit_value c) cs in
    if ltb (digit_value c) base then rest else none

abbrev pub radix_digits : ℕ → Text → Option ℕ
radix_digits base [] = none
radix_digits base (c ∷ cs) = radix_from base 0 (c ∷ cs)

-- The base that the letter behind a leading zero announces; 0 for none.
abbrev pub base_of : ℕ → ℕ
base_of c =
    if (c == b'x') || (c == b'X')
    then 16
    else if (c == b'o') || (c == b'O')
    then 8
    else if (c == b'b') || (c == b'B')
    then 2
    else 0

abbrev pub numeral : Text → Option ℕ
numeral [] = some 0
numeral (c ∷ []) = signed (c ∷ [])
numeral (c ∷ d ∷ cs) =
    if (c == digit_zero) && ltb 0 (base_of d)
    then radix_digits (base_of d) cs
    else signed (c ∷ d ∷ cs)

-- A number above 10^14 is left open.
abbrev pub bounded : Option ℕ → Option ℕ
bounded none = none
bounded (some n) = if leb n 100000000000000 then some n else none

unfoldable pub number : Text → Option ℕ
number text = bounded (numeral (trim text))
