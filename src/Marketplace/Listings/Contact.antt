-- ===== src/Marketplace/Listings/Contact.antt =====
-- hasContactInfo of packages/modules/marketplace/src/input.ts: its two regular expressions as functions.
use campus_os.Common.{
  Text, ℕ, zero, suc, ◌+◌, Bool, true, false, not, ◌&&◌, ◌||◌, [], ◌∷◌, map, leb, ◌==◌,
  if◌then◌else◌, is_space, starts_with,
}

abbrev pub is_numeral : ℕ → Bool
is_numeral c = leb 48 c && leb c 57

-- `[\s().-]`.
abbrev pub is_separator : ℕ → Bool
is_separator c = is_space c || ((c == 40) || ((c == 41) || ((c == 46) || (c == 45))))

-- Where a repetition of `\+?\d[\s().-]?` stands.
pub data Phase : Type 0 where
  at_start after_plus after_digit : Phase

abbrev pub is_after_plus : Phase → Bool
is_after_plus after_plus = true
is_after_plus _ = false

abbrev pub is_after_digit : Phase → Bool
is_after_digit after_digit = true
is_after_digit _ = false

-- Whether the text begins with so many more repetitions.
abbrev pub phone_here : Phase → ℕ → Text → Bool
phone_here phase zero text = true
phone_here phase (suc n) [] = false
phone_here phase (suc n) (c ∷ cs) =
    let counted = phone_here after_digit n cs in
    let signed = phone_here after_plus (suc n) cs in
    let parted = phone_here at_start (suc n) cs in
    if is_numeral c
    then counted
    else if (c == 43) && not (is_after_plus phase)
    then signed
    else if is_separator c && is_after_digit phase
    then parted
    else false

abbrev pub has_phone : Text → Bool
has_phone [] = false
has_phone (c ∷ cs) = phone_here at_start 7 (c ∷ cs) || has_phone cs

abbrev pub lower : ℕ → ℕ
lower c = if leb 65 c && leb c 90 then c + 32 else c

abbrev pub is_word : ℕ → Bool
is_word c = is_numeral c || ((leb 65 c && leb c 90) || ((leb 97 c && leb c 122) || (c == 95)))

abbrev pub starts_with_word : Text → Bool
starts_with_word [] = false
starts_with_word (c ∷ cs) = is_word c

abbrev pub after_space : Text → Text
after_space [] = []
after_space (c ∷ cs) = if is_space c then cs else c ∷ cs

-- `whats\s?app` at the front of a text in lower case.
abbrev pub whats_app : Text → Bool
whats_app (w ∷ h ∷ a ∷ t ∷ s ∷ cs) =
    starts_with (w ∷ h ∷ a ∷ t ∷ s ∷ []) (b'w' ∷ b'h' ∷ b'a' ∷ b't' ∷ b's' ∷ [])
    && starts_with (after_space cs) (b'a' ∷ b'p' ∷ b'p' ∷ [])
whats_app _ = false

-- `\bwapp\b`, where the character in front is a word's or not.
abbrev pub wapp : Bool → Text → Bool
wapp inside (w ∷ a ∷ p ∷ q ∷ cs) =
    not inside
    && (starts_with (w ∷ a ∷ p ∷ q ∷ []) (b'w' ∷ b'a' ∷ b'p' ∷ b'p' ∷ [])
        && not (starts_with_word cs))
wapp inside _ = false

abbrev pub whatsapp_from : Bool → Text → Bool
whatsapp_from inside [] = false
whatsapp_from inside (c ∷ cs) =
    whats_app (c ∷ cs)
    || (starts_with (c ∷ cs) (b'w' ∷ b'a' ∷ b'.' ∷ b'm' ∷ b'e' ∷ [])
        || (wapp inside (c ∷ cs) || whatsapp_from (is_word c) cs))

unfoldable pub has_contact_info : Text → Bool
has_contact_info text = has_phone text || whatsapp_from false (map lower text)
