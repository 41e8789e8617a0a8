-- ===== src/Text.antt =====
-- Go's package strings over byte strings: what the program calls of it. A Go string is a sequence
-- of bytes, `len` counts bytes and a slice cuts between bytes, so a text is a list of bytes.
pub mod Trim
pub mod Scan
pub mod Search
pub mod Pieces
pub mod Number
use agent_sets.Prelude.{
  Bool, List, Option, [], drop, false, if◌then◌else◌, length, ltb, none, some, suc, take, true,
  zero, ℕ, ◌%◌, ◌&&◌, ◌++◌, ◌+◌, ◌-◌, ◌/◌, ◌==◌, ◌∷◌,
}
use agent_sets.Prelude.Int.{negsuc, pos, ℤ}
use Prim.Native.Char.{code}
use Prim.Native.String.{String}

abbrev pub Bytes : Type 0
Bytes = List ℕ

-- The UTF-8 encoding of a code point, before what follows it.
abbrev encode : ℕ → Bytes → Bytes
encode c rest =
    if ltb c 0x80
    then c ∷ rest
    else if ltb c 0x800
    then (0xC0 + c / 0x40) ∷ (0x80 + c % 0x40) ∷ rest
    else if ltb c 0x1_0000
    then (0xE0 + c / 0x1000) ∷ (0x80 + c / 0x40 % 0x40) ∷ (0x80 + c % 0x40) ∷ rest
    else (0xF0 + c / 0x4_0000)
      ∷ (0x80 + c / 0x1000 % 0x40)
      ∷ (0x80 + c / 0x40 % 0x40)
      ∷ (0x80 + c % 0x40)
      ∷ rest

-- The bytes of a literal of the source.
abbrev pub lit : String → Bytes
lit String.[] = []
lit (String.◌∷◌ c s) = encode (code c) (lit s)

-- `a == b`
unfoldable pub equal : Bytes → Bytes → Bool
equal [] [] = true
equal [] (d ∷ t) = false
equal (c ∷ s) [] = false
equal (c ∷ s) (d ∷ t) = c == d && equal s t

-- `strings.HasPrefix(s, p)`
unfoldable pub has_prefix : Bytes → Bytes → Bool
has_prefix s [] = true
has_prefix [] (y ∷ p) = false
has_prefix (x ∷ s) (y ∷ p) = x == y && has_prefix s p

-- `strings.HasSuffix(s, p)`
unfoldable pub has_suffix : Bytes → Bytes → Bool
unfolding equal
has_suffix s p = if ltb (length s) (length p) then false else equal (drop (length s - length p) s) p

-- `strings.TrimPrefix(s, p)`
unfoldable pub trim_prefix : Bytes → Bytes → Bytes
unfolding has_prefix
trim_prefix s p = if has_prefix s p then drop (length p) s else s

-- `strings.TrimSuffix(s, p)`
unfoldable pub trim_suffix : Bytes → Bytes → Bytes
unfolding has_suffix
trim_suffix s p = if has_suffix s p then take (length s - length p) s else s

-- `strings.Index(s, sub)`; -1 is `none`.
unfoldable pub index : Bytes → Bytes → Option ℕ
unfolding has_prefix
index [] sub = if has_prefix [] sub then some 0 else none
index (c ∷ s) sub =
    let rest = index s sub in
    if has_prefix (c ∷ s) sub then some 0 else elim rest [ none ↦ none | some i ↦ some (suc i) ]

unfoldable pub is_some {ℓ} : {A : Type ℓ} → Option A → Bool
is_some none = false
is_some (some a) = true

-- `strings.Contains(s, sub)`
unfoldable pub contains : Bytes → Bytes → Bool
unfolding index is_some
contains s sub = is_some (index s sub)

-- `strings.LastIndex(s, string(b))` for one byte.
unfoldable pub last_index : Bytes → ℕ → Option ℕ
last_index [] b = none
last_index (c ∷ s) b = elim (last_index s b) [
  | some i ↦ some (suc i)
  | none ↦ if c == b then some 0 else none
]

abbrev pub cons_head : ℕ → List Bytes → List Bytes
cons_head c [] = (c ∷ []) ∷ []
cons_head c (p ∷ ps) = (c ∷ p) ∷ ps

-- `strings.Split(s, string(b))` for one byte.
unfoldable pub split : Bytes → ℕ → List Bytes
split [] b = [] ∷ []
split (c ∷ s) b = let rest = split s b in if c == b then [] ∷ rest else cons_head c rest

-- `strings.Join(parts, sep)`
unfoldable pub join : List Bytes → Bytes → Bytes
join [] sep = []
join (p ∷ []) sep = p
join (p ∷ q ∷ ps) sep = p ++ (sep ++ join (q ∷ ps) sep)

-- The first argument counts the bytes that a match has already taken.
replace_from : ℕ → Bytes → Bytes → Bytes → Bytes
unfolding has_prefix
replace_from k old new [] = []
replace_from (suc k) old new (c ∷ s) = replace_from k old new s
replace_from zero old new (c ∷ s) =
    let hit = has_prefix (c ∷ s) old in
    (if hit then new else c ∷ []) ++ replace_from (if hit then length old - 1 else 0) old new s

-- `strings.ReplaceAll(s, old, new)` for an `old` that is not empty.
unfoldable pub replace_all : Bytes → Bytes → Bytes → Bytes
unfolding replace_from
replace_all s old new = replace_from 0 old new s

unfoldable pub decimal : ℕ → ℕ → Bytes → Bytes
decimal zero n acc = acc
decimal (suc fuel) n acc =
    let digits = (b'0' + n % 10) ∷ acc in
    let more = decimal fuel (n / 10) digits in if ltb n 10 then digits else more

-- The decimal digits of a number.
unfoldable pub digits : ℕ → Bytes
unfolding decimal
digits n = decimal (suc n) n []

-- `strconv.Itoa(n)` and `%d`
unfoldable pub itoa : ℤ → Bytes
unfolding digits
itoa (pos n) = digits n
itoa (negsuc n) = b'-' ∷ digits (suc n)

-- The warning sign of the source, with its variation selector.
abbrev pub warning_sign : Bytes
warning_sign = 0xE2 ∷ 0x9A ∷ 0xA0 ∷ 0xEF ∷ 0xB8 ∷ 0x8F ∷ []
