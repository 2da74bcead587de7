-- ===== src/Common/Json/Value.antt =====
-- JSON values and property reads.
use Prim.Native.Nat.{ℕ}
use Prim.Native.String.{String}
use mathlib.Core.Bool.{Bool}
use mathlib.Core.List.{List, [], ◌∷◌}
use mathlib.Core.Option.{Option, none, some}
use text.Mathlib.Text.{◌==◌}
use subagent.Common.Tests.{if◌then◌else◌}

-- `num` is a number that is a natural number, `frac` any other by its literal.
mutual
  pub data Json : Type 0 where
    null : Json
    bool : Bool → Json
    num : ℕ → Json
    frac str : String → Json
    arr : Items → Json
    obj : Fields → Json

  pub data Items : Type 0 where
    nil : Items
    cons : Json → Items → Items

  pub data Fields : Type 0 where
    end : Fields
    field : String → Json → Fields → Fields

abbrev pub lookup : String → Fields → Option Json
lookup k end = none
lookup k (field j v rest) = let later = lookup k rest in if j == k then some v else later

-- `value[k]`, `none` for `undefined`.
abbrev pub get : String → Json → Option Json
get k (obj fs) = lookup k fs
get k _ = none

abbrev pub as_str : Option Json → Option String
as_str (some (str s)) = some s
as_str _ = none

abbrev pub as_num : Option Json → Option ℕ
as_num (some (num n)) = some n
as_num _ = none

abbrev pub keys : Fields → List String
keys end = []
keys (field k v rest) = k ∷ keys rest

abbrev pub remove : String → Fields → Fields
remove k end = end
remove k (field j v rest) = let later = remove k rest in if j == k then later else field j v later
