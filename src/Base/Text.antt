-- ===== src/Base/Text.antt =====
-- What the code does with texts: `trim`, `toLowerCase`, and whether a text is blank, as `!s.trim()` asks.
use Prim.Native.Nat.{ℕ, zero, suc, ◌-◌}
use Prim.Native.Char.{Char, code}
use Prim.Native.String.{String}
use mathlib.Core.Bool.{Bool, true, false, ◌&&◌, ◌||◌}
use content_intelligence_bac.Base.Tests.{◌==◌, leb, if◌then◌else◌}

-- ECMAScript's white space and line terminators.
pub is_space : ℕ → Bool
is_space c =
    (leb 9 c && leb c 13)
    || c == 32
    || c == 160
    || c == 0x1680
    || (leb 0x2000 c && leb c 0x200a)
    || c == 0x2028
    || c == 0x2029
    || c == 0x202f
    || c == 0x205f
    || c == 0x3000
    || c == 0xfeff

-- `!s.trim()`
unfoldable pub is_blank : String → Bool
unfolding is_space
is_blank String.[] = true
is_blank (String.◌∷◌ c s) = is_space (code c) && is_blank s

abbrev pub is_empty : String → Bool
is_empty String.[] = true
is_empty (String.◌∷◌ c s) = false

unfoldable pub trim_start : String → String
unfolding is_space
trim_start String.[] = String.[]
trim_start (String.◌∷◌ c s) =
    let rest = trim_start s in if is_space (code c) then rest else String.◌∷◌ c s

unfoldable pub trim_end : String → String
unfolding is_space
trim_end String.[] = String.[]
trim_end (String.◌∷◌ c s) =
    let rest = trim_end s in
    if is_space (code c) && is_empty rest then String.[] else String.◌∷◌ c rest

-- `s.trim()`
unfoldable pub trim : String → String
unfolding trim_start trim_end
trim s = trim_end (trim_start s)

-- The n-th character, or the other one where there is none.
unfoldable pub char_or : String → ℕ → Char → Char
char_or String.[] n d = d
char_or (String.◌∷◌ c s) zero d = c
char_or (String.◌∷◌ c s) (suc n) d = char_or s n d

-- `toLowerCase` on a text whose capital letters are A to Z.
unfoldable pub lower_char : Char → Char
unfolding char_or
lower_char c =
    if leb 65 (code c) && leb (code c) 90
    then char_or "abcdefghijklmnopqrstuvwxyz" (code c - 65) c
    else c

unfoldable pub to_lower : String → String
unfolding lower_char
to_lower String.[] = String.[]
to_lower (String.◌∷◌ c s) = String.◌∷◌ (lower_char c) (to_lower s)
