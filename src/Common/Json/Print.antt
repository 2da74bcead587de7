-- ===== src/Common/Json/Print.antt =====
-- `JSON.stringify` without indentation, and the canonical form with sorted keys.
use Prim.Native.Nat.{ℕ, zero, suc, ◌+◌, ◌/◌, ◌%◌}
use Prim.Native.String.{String}
use mathlib.Core.Path.{◌≡◌, refl}
use mathlib.Core.Bool.{Bool, true, false, ◌||◌}
use mathlib.Core.List.{List, [], ◌∷◌, ◌++◌}
use subagent.Common.Tests.{ltb, nat_eq, if◌then◌else◌}
use subagent.Common.Text.{codes, units}
use subagent.Common.Json.Value.{
  Json, null, bool, num, frac, str, arr, obj, Items, nil, cons, Fields, end, field,
}

-- `left < right` on strings: the order of their code units.
unfoldable pub units_lt : List ℕ → List ℕ → Bool
units_lt [] [] = false
units_lt [] (y ∷ ys) = true
units_lt (x ∷ xs) [] = false
units_lt (x ∷ xs) (y ∷ ys) =
    let later = units_lt xs ys in if ltb x y then true else if ltb y x then false else later

-- One step of a stable sort of the entries by key.
unfoldable pub insert_field : String → Json → Fields → Fields
insert_field k v end = field k v end
insert_field k v (field j w rest) =
    let later = field j w (insert_field k v rest) in
    if units_lt (units j) (units k) then later else field k v (field j w rest)

unfoldable mutual
  -- `canonicalValue`: every object's entries in the order of their keys.
  pub canonical_value : Json → Json
  canonical_value (arr xs) = arr (canonical_items xs)
  canonical_value (obj fs) = obj (canonical_fields fs)
  canonical_value v = v

  pub canonical_items : Items → Items
  canonical_items nil = nil
  canonical_items (cons x xs) = cons (canonical_value x) (canonical_items xs)

  pub canonical_fields : Fields → Fields
  canonical_fields end = end
  canonical_fields (field k v rest) = insert_field k (canonical_value v) (canonical_fields rest)

-- The decimal digits of a number, with fuel above their count.
digits : ℕ → ℕ → List ℕ → List ℕ
digits zero n acc = acc
digits (suc f) n acc =
    let d = (48 + n % 10) ∷ acc in
    let more = digits f (n / 10) ((48 + n % 10) ∷ acc) in if ltb n 10 then d else more

hex_digit : ℕ → ℕ
hex_digit n = if ltb n 10 then 48 + n else 87 + n

-- The escapes of `JSON.stringify` in a string.
escape : ℕ → List ℕ
escape c =
    if nat_eq c 34 || nat_eq c 92
    then 92 ∷ c ∷ []
    else if nat_eq c 8
    then 92 ∷ b'b' ∷ []
    else if nat_eq c 9
    then 92 ∷ b't' ∷ []
    else if nat_eq c 10
    then 92 ∷ b'n' ∷ []
    else if nat_eq c 12
    then 92 ∷ b'f' ∷ []
    else if nat_eq c 13
    then 92 ∷ b'r' ∷ []
    else if ltb c 32
    then 92 ∷ b'u' ∷ 48 ∷ 48 ∷ hex_digit (c / 16) ∷ hex_digit (c % 16) ∷ []
    else c ∷ []

quoted_from : List ℕ → List ℕ
quoted_from [] = 34 ∷ []
quoted_from (c ∷ s) = escape c ++ quoted_from s

quoted : String → List ℕ
unfolding quoted_from escape hex_digit
quoted s = 34 ∷ quoted_from (codes s)

-- The code points of the printed value.
unfoldable mutual
  unfolding quoted digits

  pub stringify : Json → List ℕ
  stringify null = codes "null"
  stringify (bool true) = codes "true"
  stringify (bool false) = codes "false"
  stringify (num n) = digits (suc n) n []
  stringify (frac s) = codes s
  stringify (str s) = quoted s
  stringify (arr xs) = b'[' ∷ stringify_items xs
  stringify (obj fs) = b'{' ∷ stringify_fields fs

  pub stringify_items : Items → List ℕ
  stringify_items nil = b']' ∷ []
  stringify_items (cons x nil) = stringify x ++ b']' ∷ []
  stringify_items (cons x xs) = stringify x ++ b',' ∷ stringify_items xs

  pub stringify_fields : Fields → List ℕ
  stringify_fields end = b'}' ∷ []
  stringify_fields (field k v end) = quoted k ++ b':' ∷ (stringify v ++ b'}' ∷ [])
  stringify_fields (field k v rest) =
      quoted k ++ b':' ∷ (stringify v ++ b',' ∷ stringify_fields rest)

-- `canonicalJson`, by its code points.
unfoldable pub canonical_json : Json → List ℕ
unfolding stringify stringify_items stringify_fields canonical_value canonical_items
    canonical_fields insert_field units_lt
canonical_json v = stringify (canonical_value v)

sample : Json
sample = obj (field "b" (num 12) (field "a" (arr (cons null (cons (str "x\"") nil))) end))

canonical_sample : canonical_json sample ≡ codes "{\"a\":[null,\"x\\\"\"],\"b\":12}"
unfolding canonical_json canonical_value sample units_lt insert_field stringify
canonical_sample = refl
