-- ===== src/Timetable/Time.antt =====
-- packages/modules/timetable/src/domain/time.ts: wall-clock texts "HH:mm" and "HH:mm:ss".
-- A text is the list of its code units. `none` of toMinutes is a text on which it throws, or one that
-- `number` leaves open.
pub mod Laws
use campus_os.Common.{
  Text, ℕ, zero, suc, ◌+◌, ◌-◌, ◌*◌, ◌≡◌, Bool, true, false, ◌&&◌, Option, none, some, List, [],
  ◌∷◌, ◌++◌, ltb, leb, ◌==◌, if◌then◌else◌, all, ◌>>=◌,
}
use campus_os.Timetable.Number.{digit_zero, number}

abbrev pub colon : ℕ
colon = b':'

-- `time.split(':')`: the first part, and the parts behind each separator.
unfoldable pub split_from : Text → Text → List Text
split_from part [] = part ∷ []
split_from part (c ∷ cs) =
    let closed = part ∷ split_from [] cs in
    let longer = split_from (part ++ c ∷ []) cs in if c == colon then closed else longer

unfoldable pub split : Text → List Text
split time = split_from [] time

-- The part at a place, or the given text where there is none (`parts[1] ?? '0'`, `[h = '0', …]`).
abbrev pub part_or : List Text → ℕ → Text → Text
part_or [] i d = d
part_or (p ∷ ps) zero d = p
part_or (p ∷ ps) (suc i) d = part_or ps i d

abbrev pub zero_text : Text
zero_text = digit_zero ∷ []

unfoldable pub to_minutes : Text → Option ℕ
unfolding split number
to_minutes time = do
  let parts = split time
  h ← number (part_or parts 0 [])
  m ← number (part_or parts 1 zero_text)
  some (h * 60 + m)

-- `v.padStart(2, '0')`.
unfoldable pub pad : Text → Text
pad [] = digit_zero ∷ digit_zero ∷ []
pad (c ∷ []) = digit_zero ∷ c ∷ []
pad v = v

unfoldable pub normalize_time : Text → Text
unfolding split pad
normalize_time time =
    let parts = split time in
    pad (part_or parts 0 zero_text)
    ++ (colon ∷ (pad (part_or parts 1 zero_text) ++ (colon ∷ pad (part_or parts 2 zero_text))))

unfoldable pub overlaps : Text → Text → Text → Text → Option Bool
overlaps a_start a_end b_start b_end = do
  s ← to_minutes a_start
  e ← to_minutes b_end
  let later = do s' ← to_minutes b_start; e' ← to_minutes a_end; some (ltb s' e')
  if ltb s e then later else some false
