-- ===== src/Text/Trim.antt =====
-- `strings.TrimSpace`, `strings.TrimLeft` and `strings.TrimRight`. White space is what
-- `unicode.IsSpace` says, in its UTF-8 encoding.
use agent_sets.Prelude.{Bool, List, [], if◌then◌else◌, leb, suc, zero, ℕ, ◌&&◌, ◌==◌, ◌||◌, ◌∷◌}
use mathlib.Core.List.{reverse}

abbrev is_space_byte : ℕ → Bool
is_space_byte c = (leb 9 c && leb c 13) || c == 32

-- U+0085 and U+00A0
abbrev is_space_2 : ℕ → ℕ → Bool
is_space_2 a b = a == 0xC2 && (b == 0x85 || b == 0xA0)

-- U+1680, U+2000 to U+200A, U+2028, U+2029, U+202F, U+205F and U+3000
abbrev is_space_3 : ℕ → ℕ → ℕ → Bool
is_space_3 a b c =
    (a == 0xE1 && b == 0x9A && c == 0x80)
    || (a == 0xE2
        && b == 0x80
        && ((leb 0x80 c && leb c 0x8A) || c == 0xA8 || c == 0xA9 || c == 0xAF))
    || (a == 0xE2 && b == 0x81 && c == 0x9F)
    || (a == 0xE3 && b == 0x80 && c == 0x80)

-- How many bytes the white space at the head of a text takes; 0 if there is none.
unfoldable pub space_width : List ℕ → ℕ
space_width [] = 0
space_width (a ∷ []) = if is_space_byte a then 1 else 0
space_width (a ∷ b ∷ []) = if is_space_byte a then 1 else if is_space_2 a b then 2 else 0
space_width (a ∷ b ∷ c ∷ s) =
    if is_space_byte a then 1 else if is_space_2 a b then 2 else if is_space_3 a b c then 3 else 0

-- The same at the end of a text that is read backwards.
unfoldable pub space_width_back : List ℕ → ℕ
space_width_back [] = 0
space_width_back (a ∷ []) = if is_space_byte a then 1 else 0
space_width_back (b ∷ a ∷ []) = if is_space_byte b then 1 else if is_space_2 a b then 2 else 0
space_width_back (c ∷ b ∷ a ∷ s) =
    if is_space_byte c then 1 else if is_space_2 b c then 2 else if is_space_3 a b c then 3 else 0

-- Drops white space from the head; the number counts the bytes of a character that is under way.
strip : (List ℕ → ℕ) → ℕ → List ℕ → List ℕ
strip width k [] = []
strip width (suc k) (c ∷ s) = strip width k s
strip width zero (c ∷ s) = elim (width (c ∷ s)) [ zero ↦ c ∷ s | suc k ↦ strip width k s ]

-- `strings.TrimSpace(s)`
unfoldable pub trim_space : List ℕ → List ℕ
unfolding strip space_width space_width_back
trim_space s = reverse (strip space_width_back 0 (reverse (strip space_width 0 s)))

-- `strings.TrimLeft(s, string(b))` for one byte.
unfoldable pub trim_left : List ℕ → ℕ → List ℕ
trim_left [] b = []
trim_left (c ∷ s) b = let rest = trim_left s b in if c == b then rest else c ∷ s

-- `strings.TrimRight(s, string(b))` for one byte.
unfoldable pub trim_right : List ℕ → ℕ → List ℕ
unfolding trim_left
trim_right s b = reverse (trim_left (reverse s) b)
