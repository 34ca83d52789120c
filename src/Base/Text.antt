-- ===== src/Base/Text.antt =====
-- The functions of package strings that the program calls, on strings as lists of byte values.
pub mod Trim
use Prim.Native.Char.{code}
use Prim.Native.String.{String}
use mathlib.Core.List.{reverse}
use game_server_go.Base.{
  ℕ, zero, suc, ◌≡◌, refl, Bool, true, false, List, [], ◌∷◌, ◌++◌, Option, none, some, arith, ◌==◌,
  leb, ltb, ◌+◌, ◌/◌, ◌%◌, if◌then◌else◌,
}
use game_server_go.Base.Equality.{bytes_beq}

abbrev pub Bytes : Type 0
Bytes = List ℕ

-- The UTF-8 bytes of a text, for the string literals of the source.
utf8_char : ℕ → Bytes → Bytes
utf8_char c rest =
    if ltb c 0x80
    then c ∷ rest
    else if ltb c 0x800
    then (0xc0 + c / 64) ∷ (0x80 + c % 64) ∷ rest
    else if ltb c 0x1_0000
    then (0xe0 + c / 4096) ∷ (0x80 + c / 64 % 64) ∷ (0x80 + c % 64) ∷ rest
    else (0xf0 + c / 262144)
      ∷ (0x80 + c / 4096 % 64)
      ∷ (0x80 + c / 64 % 64)
      ∷ (0x80 + c % 64)
      ∷ rest

unfoldable pub utf8 : String → Bytes
unfolding utf8_char
utf8 String.[] = []
utf8 (String.◌∷◌ c s) = utf8_char (code c) (utf8 s)

abbrev either : Bool → Bool → Bool
either a b = if a then true else b

-- Unicode's White_Space characters of one, two and three bytes in UTF-8.
space1 : ℕ → Bool
space1 a = either (a == 32) (if leb 9 a then leb a 13 else false)

space2 : ℕ → ℕ → Bool
space2 a b = if a == 0xc2 then either (b == 0x85) (b == 0xa0) else false

-- U+2000 to U+200A, U+2028, U+2029 and U+202F share two leading bytes.
general_space : ℕ → Bool
general_space c =
    either (if leb 0x80 c then leb c 0x8a else false)
      (either (c == 0xa8) (either (c == 0xa9) (c == 0xaf)))

space3 : ℕ → ℕ → ℕ → Bool
unfolding general_space
space3 a b c =
    if a == 0xe1
    then (if b == 0x9a then c == 0x80 else false)
    else if a == 0xe2
    then (if b == 0x80 then general_space c else if b == 0x81 then c == 0x9f else false)
    else if a == 0xe3
    then (if b == 0x80 then c == 0x80 else false)
    else false

-- How many bytes the white space character at the front of a text takes; 0 where there is none.
unfoldable pub front_space : Bytes → ℕ
unfolding space1 space2 space3
front_space [] = 0
front_space (a ∷ []) = if space1 a then 1 else 0
front_space (a ∷ b ∷ []) = if space1 a then 1 else if space2 a b then 2 else 0
front_space (a ∷ b ∷ c ∷ rest) =
    if space1 a then 1 else if space2 a b then 2 else if space3 a b c then 3 else 0

-- The same for a text that is read from its end: the bytes of the last character stand reversed.
unfoldable pub back_space : Bytes → ℕ
unfolding space1 space2 space3
back_space [] = 0
back_space (a ∷ []) = if space1 a then 1 else 0
back_space (b ∷ a ∷ []) = if space1 b then 1 else if space2 a b then 2 else 0
back_space (c ∷ b ∷ a ∷ rest) =
    if space1 c then 1 else if space2 b c then 2 else if space3 a b c then 3 else 0

-- Drops the bytes of a character that was recognised, then looks at what follows.
strip : (Bytes → ℕ) → ℕ → Bytes → Bytes
strip width skip [] = []
strip width (suc skip) (a ∷ s) = strip width skip s
strip width zero (a ∷ s) = elim (width (a ∷ s)) [ zero ↦ a ∷ s | suc more ↦ strip width more s ]

-- strings.TrimSpace
unfoldable pub trim_space : Bytes → Bytes
unfolding strip front_space back_space
trim_space s = reverse (strip back_space 0 (reverse (strip front_space 0 s)))

-- strings.TrimSpace(s) == ""
unfoldable pub is_blank : Bytes → Bool
unfolding trim_space bytes_beq
is_blank s = bytes_beq (trim_space s) []

-- strings.CutPrefix: what follows the prefix, if the text begins with it.
unfoldable pub cut_prefix : Bytes → Bytes → Option Bytes
cut_prefix [] s = some s
cut_prefix (p ∷ ps) [] = none
cut_prefix (p ∷ ps) (c ∷ s) = if p == c then cut_prefix ps s else none

pub cut_prefix-append : (p s : Bytes) → cut_prefix p (p ++ s) ≡ some s
unfolding cut_prefix
cut_prefix-append [] s = refl
cut_prefix-append (p ∷ ps) s = ground (arith, cut_prefix-append ps s)

-- strings.HasPrefix
unfoldable pub has_prefix : Bytes → Bytes → Bool
unfolding cut_prefix
has_prefix s p = elim (cut_prefix p s) [ none ↦ false | some rest ↦ true ]
