-- ===== src/Base/Text.antt =====
-- Text as JavaScript sees it: `trim`, and the UTF-16 code units by which `length` and `slice` count.
use Prim.Native.Nat.{ℕ, ◌+◌, ◌-◌, ◌/◌, ◌%◌}
use Prim.Native.Char.{code}
use Prim.Native.String
use Prim.Native.String.{String, [], ◌∷◌}
use mathlib.Core.Bool.{Bool, ◌&&◌, ◌||◌}
use mathlib.Core.List
use mathlib.Core.List.{List}
use text.Mathlib.Text.{◌==◌}
use chis.Base.Tests.{leb, ltb, nat_eq, if◌then◌else◌}

-- s + t
abbrev pub concat : String → String → String
concat s t = String.◌++◌ s t

-- White space and line terminators of ECMAScript.
unfoldable pub is_space : ℕ → Bool
is_space c =
    nat_eq c 32
    || leb 9 c && leb c 13
    || nat_eq c 0xa0
    || nat_eq c 0x1680
    || leb 0x2000 c && leb c 0x200a
    || nat_eq c 0x2028
    || nat_eq c 0x2029
    || nat_eq c 0x202f
    || nat_eq c 0x205f
    || nat_eq c 0x3000
    || nat_eq c 0xfeff

trim_start : String → String
trim_start [] = []
trim_start (c ∷ s) = let rest = trim_start s in if is_space (code c) then rest else c ∷ s

trim_end : String → String
trim_end [] = []
trim_end (c ∷ s) = let rest = trim_end s in if is_space (code c) && rest == "" then [] else c ∷ rest

-- s.trim()
unfoldable pub trim : String → String
unfolding trim_start trim_end is_space
trim s = trim_end (trim_start s)

units_of : ℕ → List ℕ
units_of c =
    if ltb c 0x10000
    then List.◌∷◌ c List.[]
    else List.◌∷◌ (0xd800 + (c - 0x10000) / 0x400)
        (List.◌∷◌ (0xdc00 + (c - 0x10000) % 0x400) List.[])

-- The code units of a text.
unfoldable pub units : String → List ℕ
unfolding units_of
units [] = List.[]
units (c ∷ s) = List.◌++◌ (units_of (code c)) (units s)
