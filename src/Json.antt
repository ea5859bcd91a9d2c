-- ===== src/Json.antt =====
-- `encoding/json` for the values that the indexer uses: flat objects of strings, unsigned numbers
-- and Booleans. A marshalled struct is kept as its object, in the order of its fields; `Json.Text`
-- prints it. `Marshal` of these values cannot fail, and the objects that are read back are ones
-- that `Marshal` wrote, so duplicate and case-folded keys do not arise.
pub mod Text
use agro_diamond_compliance.Prelude.{
  ℕ, ◌^◌, Bool, false, Option, none, some, List, [], ◌∷◌, same_bytes, ltb, if◌then◌else◌,
}
use agro_diamond_compliance.Bytes.{Bytes}
use agro_diamond_compliance.Bytes.Utf8.{valid_utf8}

pub data Scalar : Type 0 where
  str : Bytes → Scalar
  num : ℕ → Scalar
  boolean : Bool → Scalar

abbrev pub Object : Type 0
Object = List (Bytes × Scalar)

-- A string as `Unmarshal` gives it back after `Marshal`.
abbrev pub quoted : Bytes → Scalar
quoted s = str (valid_utf8 s)

-- A field with `omitempty`.
abbrev pub str_or_omit : Bytes → Bytes → Object → Object
str_or_omit key [] rest = rest
str_or_omit key (c ∷ s) rest = (key, quoted (c ∷ s)) ∷ rest

abbrev pub num_or_omit : Bytes → ℕ → Object → Object
num_or_omit key n rest = if ltb 0 n then (key, num n) ∷ rest else rest

unfoldable pub member : Bytes → Object → Option Scalar
unfolding same_bytes
member key [] = none
member key ((k, x) ∷ o) = if same_bytes k key then some x else member key o

-- `Unmarshal` into a field: a missing member leaves the zero value, `none` is a type error.
abbrev pub as_str : Option Scalar → Option Bytes
as_str none = some []
as_str (some (str s)) = some s
as_str (some (num _)) = none
as_str (some (boolean _)) = none

abbrev pub as_uint : ℕ → Option Scalar → Option ℕ
as_uint bits none = some 0
as_uint bits (some (num n)) = if ltb n (2 ^ bits) then some n else none
as_uint bits (some (str _)) = none
as_uint bits (some (boolean _)) = none

abbrev pub as_bool : Option Scalar → Option Bool
as_bool none = some false
as_bool (some (boolean b)) = some b
as_bool (some (str _)) = none
as_bool (some (num _)) = none

-- An `Unmarshal` that fails at one field fails.
infixl 5 ◌>>=◌
abbrev pub ◌>>=◌ : {A B : Type 0} → Option A → (A → Option B) → Option B
none >>= f = none
some a >>= f = f a
