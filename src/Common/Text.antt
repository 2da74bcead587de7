-- ===== src/Common/Text.antt =====
-- What the source uses of JavaScript's strings: code units, `trim`, and its character classes.
use Prim.Native.Nat.{ℕ, ◌+◌, ◌-◌, ◌/◌, ◌%◌}
use Prim.Native.Char.{code}
use Prim.Native.String.{String}
use mathlib.Core.Bool.{Bool, ◌&&◌, ◌||◌}
use mathlib.Core.List.{List, [], ◌∷◌}
use text.Mathlib.Text.{◌==◌}
use subagent.Common.Tests.{ltb, leb, nat_eq, if◌then◌else◌}
use subagent.Common.Lists.{length, all}

-- The code points of a text.
abbrev pub codes : String → List ℕ
codes String.[] = []
codes (String.◌∷◌ c s) = code c ∷ codes s

-- The UTF-16 code units, which `length` counts and `<` compares.
abbrev pub units_of : List ℕ → List ℕ
units_of [] = []
units_of (c ∷ s) =
    let rest = units_of s in
    if ltb c 0x10000
    then c ∷ rest
    else (0xd800 + (c - 0x10000) / 0x400) ∷ (0xdc00 + (c - 0x10000) % 0x400) ∷ rest

abbrev pub units : String → List ℕ
units s = units_of (codes s)

-- White space and line terminators, which `trim` removes.
abbrev pub is_space : ℕ → Bool
is_space c =
    (leb 9 c && leb c 13)
    || nat_eq c 32
    || nat_eq c 0xa0
    || nat_eq c 0x1680
    || (leb 0x2000 c && leb c 0x200a)
    || nat_eq c 0x2028
    || nat_eq c 0x2029
    || nat_eq c 0x202f
    || nat_eq c 0x205f
    || nat_eq c 0x3000
    || nat_eq c 0xfeff

abbrev pub trim_start : String → String
trim_start String.[] = String.[]
trim_start (String.◌∷◌ c s) =
    let rest = trim_start s in if is_space (code c) then rest else String.◌∷◌ c s

abbrev pub trim_end : String → String
trim_end String.[] = String.[]
trim_end (String.◌∷◌ c s) =
    let rest = trim_end s in
    if is_space (code c) && rest == "" then String.[] else String.◌∷◌ c rest

abbrev pub trim : String → String
trim s = trim_end (trim_start s)

-- `s.trim() === ""`.
unfoldable pub is_blank : String → Bool
is_blank s = trim s == ""

abbrev pub is_digit : ℕ → Bool
is_digit c = leb b'0' c && leb c b'9'

abbrev pub is_alnum : ℕ → Bool
is_alnum c = (leb b'A' c && leb c b'Z') || (leb b'a' c && leb c b'z') || is_digit c

-- `[A-Za-z0-9_.:-]`.
abbrev pub is_id_char : ℕ → Bool
is_id_char c = is_alnum c || nat_eq c b'_' || nat_eq c b'.' || nat_eq c b':' || nat_eq c b'-'

-- `[0-9a-f]`.
abbrev pub is_hex_char : ℕ → Bool
is_hex_char c = is_digit c || (leb b'a' c && leb c b'f')

-- `/^[0-9a-f]{n}$/`.
unfoldable pub is_hex : ℕ → String → Bool
is_hex n s = nat_eq (length (codes s)) n && all is_hex_char (codes s)
