-- ===== src/Timetable/Time/Laws.antt =====
-- Normalising a wall-clock text keeps the minute that it names, and settles its form.
use mathlib.Core.List.{append_assoc, append-nil}
use campus_os.Common.{
  Text, is_space, some, none, Option-cases, ℕ, zero, suc, ◌+◌, ◌*◌, ◌>>=◌, Option, ◌≡◌, refl, sym,
  ap, ◌∙◌, true, false, List, [], ◌∷◌, ◌++◌, ◌==◌, includes, arith, All, Bool-cases, inl, inr,
}
use campus_os.Timetable.Number.{digit_zero, numeral, bounded, number}
use campus_os.Timetable.Time.{
  colon, split_from, split, part_or, zero_text, to_minutes, pad, normalize_time,
}

abbrev pub HasNoColon : Text → Type 0
HasNoColon t = includes t colon ≡ false

HasNoColon-snoc :
    (p : Text) (c : ℕ) → HasNoColon p → (c == colon) ≡ false → HasNoColon (p ++ c ∷ [])
HasNoColon-snoc [] c h f = ground arith
HasNoColon-snoc (d ∷ p) c h f = ground (arith, HasNoColon-snoc p c)

split_from-HasNoColon : (part t : Text) → HasNoColon part → All HasNoColon (split_from part t)
unfolding split_from
split_from-HasNoColon part [] h = (h, tt)
split_from-HasNoColon part (c ∷ cs) h = elim (Bool-cases (c == colon)) [
  | inl e ↦ rw e (h, split_from-HasNoColon [] cs refl)
  | inr f ↦ rw f (split_from-HasNoColon (part ++ c ∷ []) cs (HasNoColon-snoc part c h f))
]

part_or-HasNoColon :
    (ps : List Text) (i : ℕ) (d : Text)
    → All HasNoColon ps
    → HasNoColon d
    → HasNoColon (part_or ps i d)
part_or-HasNoColon [] i d h k = k
part_or-HasNoColon (p ∷ ps) zero d h k = h.0
part_or-HasNoColon (p ∷ ps) (suc i) d h k = part_or-HasNoColon ps i d h.1 k

pad-HasNoColon : (v : Text) → HasNoColon v → HasNoColon (pad v)
unfolding pad
pad-HasNoColon [] h = refl
pad-HasNoColon (c ∷ []) h = ground arith
pad-HasNoColon (c ∷ d ∷ v) h = h

-- A part without a colon, closed by one, is split off whole.
split_from_part :
    (part v rest : Text)
    → HasNoColon v
    → split_from part (v ++ (colon ∷ rest)) ≡ (part ++ v) ∷ split_from [] rest
unfolding split_from
split_from_part part [] rest h = rw append-nil
split_from_part part (c ∷ v) rest h = elim (Bool-cases (c == colon)) [
  | inl e ↦ ground arith
  | inr f ↦ rw f (
      split_from_part (part ++ c ∷ []) v rest (ground arith)
      ∙ ap (λ p. p ∷ split_from [] rest) (append_assoc part (c ∷ []) v))
]

split_from_last : (part v : Text) → HasNoColon v → split_from part v ≡ (part ++ v) ∷ []
unfolding split_from
split_from_last part [] h = rw append-nil
split_from_last part (c ∷ v) h = elim (Bool-cases (c == colon)) [
  | inl e ↦ ground arith
  | inr f ↦ rw f (
      split_from_last (part ++ c ∷ []) v (ground arith)
      ∙ ap (λ p. p ∷ []) (append_assoc part (c ∷ []) v))
]

split_three :
    (h m s : Text)
    → HasNoColon h
    → HasNoColon m
    → HasNoColon s
    → split (h ++ (colon ∷ (m ++ (colon ∷ s)))) ≡ h ∷ m ∷ s ∷ []
unfolding split
split_three h m s p q r =
    split_from_part [] h (m ++ (colon ∷ s)) p
    ∙ ap (λ ps. h ∷ ps) (split_from_part [] m s q ∙ ap (λ ps. m ∷ ps) (split_from_last [] s r))

numeral-digit : (c n : ℕ) → numeral (c ∷ []) ≡ some n → numeral (digit_zero ∷ c ∷ []) ≡ some n
numeral-digit c n h = ground arith

bounded-digit :
    (c n : ℕ)
    → bounded (numeral (c ∷ [])) ≡ some n
    → bounded (numeral (digit_zero ∷ c ∷ [])) ≡ some n
bounded-digit c n h = elim (Option-cases (numeral (c ∷ []))) [
  | inl refused ↦ ground arith
  | inr (m, e) ↦ rw (numeral-digit c m e) (sym (ap bounded e) ∙ h)
]

number_empty : number [] ≡ some 0
unfolding number
number_empty = refl

number_zeros : number (pad []) ≡ some 0
unfolding number pad
number_zeros = refl

number-space : (c : ℕ) → is_space c ≡ true → number (c ∷ []) ≡ some 0
unfolding number
number-space c e = rw e refl

number-space_pad : (c : ℕ) → is_space c ≡ true → number (digit_zero ∷ c ∷ []) ≡ some 0
unfolding number
number-space_pad c e = rw e refl

number-char : (c : ℕ) → is_space c ≡ false → number (c ∷ []) ≡ bounded (numeral (c ∷ []))
unfolding number
number-char c e = rw (e, e) refl

number-char_pad :
    (c : ℕ)
    → is_space c ≡ false
    → number (digit_zero ∷ c ∷ []) ≡ bounded (numeral (digit_zero ∷ c ∷ []))
unfolding number
number-char_pad c e = rw e refl

-- A part that reads as a number reads as the same one once it is padded.
number-pad : (v : Text) (n : ℕ) → number v ≡ some n → number (pad v) ≡ some n
unfolding pad
number-pad [] n h = number_zeros ∙ sym number_empty ∙ h
number-pad (c ∷ []) n h = elim (Bool-cases (is_space c)) [
  | inl e ↦ number-space_pad c e ∙ sym (number-space c e) ∙ h
  | inr e ↦ number-char_pad c e ∙ bounded-digit c n (sym (number-char c e) ∙ h)
]
number-pad (c ∷ d ∷ v) n h = h

pad_idempotent : (v : Text) → pad (pad v) ≡ pad v
unfolding pad
pad_idempotent [] = refl
pad_idempotent (c ∷ []) = refl
pad_idempotent (c ∷ d ∷ v) = refl

-- There is always a first part.
split_from_first :
    (part t d e : Text) → part_or (split_from part t) 0 d ≡ part_or (split_from part t) 0 e
unfolding split_from
split_from_first part [] d e = refl
split_from_first part (c ∷ cs) d e = ground (arith, split_from_first (part ++ c ∷ []) cs d e)

minutes_kept :
    (hour minute : Option ℕ) {hour' minute' : Option ℕ} (n : ℕ)
    → ((h : ℕ) → hour ≡ some h → hour' ≡ some h)
    → ((m : ℕ) → minute ≡ some m → minute' ≡ some m)
    → (do h ← hour; m ← minute; some (h * 60 + m)) ≡ some n
    → (do h ← hour'; m ← minute'; some (h * 60 + m)) ≡ some n
minutes_kept none minute n f g e = ground arith
minutes_kept (some h) none n f g e = ground arith
minutes_kept (some h) (some m) n f g e = rw (f h refl, g m refl) e

module _ (time : Text) where
  parts-HasNoColon : (i : ℕ) → HasNoColon (part_or (split time) i zero_text)
  unfolding split
  parts-HasNoColon i =
      part_or-HasNoColon (split time) i zero_text (split_from-HasNoColon [] time refl) refl

  -- What `normalizeTime` prints splits into its three padded parts.
  split-normalize_time :
      split (normalize_time time)
      ≡ pad (part_or (split time) 0 zero_text)
        ∷ pad (part_or (split time) 1 zero_text)
        ∷ pad (part_or (split time) 2 zero_text)
        ∷ []
  unfolding normalize_time
  split-normalize_time =
      split_three (pad (part 0)) (pad (part 1)) (pad (part 2))
        (pad-HasNoColon (part 0) (parts-HasNoColon 0))
        (pad-HasNoColon (part 1) (parts-HasNoColon 1))
        (pad-HasNoColon (part 2) (parts-HasNoColon 2))
    where
      part : ℕ → Text
      part i = part_or (split time) i zero_text

  first_part : part_or (split time) 0 zero_text ≡ part_or (split time) 0 []
  unfolding split
  first_part = split_from_first [] time zero_text []

  -- A wall-clock text that names a minute names the same one once it is normalised.
  pub to_minutes-normalize_time :
      (n : ℕ) → to_minutes time ≡ some n → to_minutes (normalize_time time) ≡ some n
  unfolding to_minutes
  to_minutes-normalize_time n h =
      rw (split-normalize_time, first_part)
        (minutes_kept (number (part 0 [])) (number (part 1 zero_text)) n (number-pad (part 0 []))
          (number-pad (part 1 zero_text)) h)
    where
      part : ℕ → Text → Text
      part i d = part_or (split time) i d

  normalize_parts :
      (t : Text)
      → split t
        ≡ pad (part_or (split time) 0 zero_text)
          ∷ pad (part_or (split time) 1 zero_text)
          ∷ pad (part_or (split time) 2 zero_text)
          ∷ []
      → normalize_time t ≡ normalize_time time
  unfolding normalize_time
  normalize_parts t e = simp (e, pad_idempotent)

  -- Normalising a second time changes nothing.
  pub normalize_time_idempotent : normalize_time (normalize_time time) ≡ normalize_time time
  normalize_time_idempotent = normalize_parts (normalize_time time) split-normalize_time
