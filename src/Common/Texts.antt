-- ===== src/Common/Texts.antt =====
-- Texts as lists of code units, and the operations of the source's strings on them.
use Prim.Native.Nat.{ℕ}
use mathlib.Core.Path.{◌≡◌, refl}
use mathlib.Core.Bool.{Bool, true, false, not, ◌&&◌, ◌||◌}
use mathlib.Core.List.{List, [], ◌∷◌}
use native.Mathlib.Omega.{arith}
use campus_os.Common.Tests.{◌==◌, leb, if◌then◌else◌}
use campus_os.Common.Lists.{any}

abbrev pub Text : Type 0
Text = List ℕ

-- `===` on texts.
abbrev pub same_text : Text → Text → Bool
same_text [] [] = true
same_text [] (d ∷ t) = false
same_text (c ∷ s) [] = false
same_text (c ∷ s) (d ∷ t) = (c == d) && same_text s t

pub same_text_refl : (t : Text) → same_text t t ≡ true
same_text_refl [] = refl
same_text_refl (c ∷ t) = ground (arith, same_text_refl t)

-- The white space and line ends that `trim` takes away.
abbrev pub is_space : ℕ → Bool
is_space c =
    (leb 9 c && leb c 13)
    || ((c == 32)
        || ((c == 160)
            || ((c == 5760)
                || ((leb 8192 c && leb c 8202)
                    || ((c == 8232)
                        || ((c == 8233)
                            || ((c == 8239)
                                || ((c == 8287) || ((c == 12288) || (c == 65279))))))))))

abbrev trim_start : Text → Text
trim_start [] = []
trim_start (c ∷ cs) = if is_space c then trim_start cs else c ∷ cs

abbrev trim_end : Text → Text
trim_end [] = []
trim_end (c ∷ cs) = if all_space (c ∷ cs) then [] else c ∷ trim_end cs
  where
    all_space : Text → Bool
    all_space ds = not (any (λ d. not (is_space d)) ds)

abbrev pub trim : Text → Text
trim text = trim_end (trim_start text)

abbrev pub starts_with : Text → Text → Bool
starts_with text [] = true
starts_with [] (c ∷ cs) = false
starts_with (t ∷ ts) (c ∷ cs) = (t == c) && starts_with ts cs

-- `text.includes(pattern)`.
abbrev pub includes_text : Text → Text → Bool
includes_text [] pattern = starts_with [] pattern
includes_text (t ∷ ts) pattern = starts_with (t ∷ ts) pattern || includes_text ts pattern

-- `text.endsWith(pattern)`.
abbrev pub ends_with : Text → Text → Bool
ends_with [] pattern = same_text [] pattern
ends_with (t ∷ ts) pattern = same_text (t ∷ ts) pattern || ends_with ts pattern
