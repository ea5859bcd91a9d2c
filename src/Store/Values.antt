-- ===== src/Store/Values.antt =====
-- Reading stored values: `json.Unmarshal`, `string(data.Data())`, and the loops over the rows of a
-- prefix that skip what does not unmarshal. A raw value is an address, a number or a key, which no
-- struct unmarshals from.
use agro_diamond_compliance.Prelude.{
  Bool, Option, none, some, List, [], ◌∷◌, ◌++◌, ltb, length, if◌then◌else◌,
}
use agro_diamond_compliance.Prelude.Int.{ℤ, pos_part}
use agro_diamond_compliance.Bytes.{Bytes, has_prefix}
use agro_diamond_compliance.Json.{Object}
use agro_diamond_compliance.Json.Text.{text}
use agro_diamond_compliance.Action.{Action, unmarshal, pure, raise}
use agro_diamond_compliance.RocksDb.Entries.{Value, raw, object, Rows}

unfoldable pub as_string : Value → Bytes
as_string (raw b) = b
as_string (object o) = text o

unfoldable pub decoded : {A : Type 0} → (Object → Option A) → Value → Option A
decoded read (raw b) = none
decoded read (object o) = read o

-- `if err := json.Unmarshal(…); err != nil { return nil, err }`
unfoldable pub decode : {S A : Type 0} → (Object → Option A) → Value → Action S A
unfolding decoded
decode read v = elim (decoded read v) [ none ↦ raise unmarshal | some a ↦ pure a ]

-- `if !data.Exists() { return <missing>, nil }`, and `Unmarshal` otherwise.
unfoldable pub decode_or : {S A : Type 0} → A → (Object → Option A) → Option Value → Action S A
unfolding decode
decode_or missing read none = pure missing
decode_or missing read (some v) = decode read v

abbrev some_of : {A : Type 0} → (Object → Option A) → Object → Option (Option A)
some_of read o = elim (read o) [ none ↦ none | some a ↦ some (some a) ]

-- `if !data.Exists() { return nil, nil }`, and a pointer to the struct otherwise.
unfoldable pub decode_pointer :
    {S A : Type 0} → (Object → Option A) → Option Value → Action S (Option A)
unfolding decode_or
decode_pointer read = decode_or none (some_of read)

-- `len(xs) < limit` for an `int` limit.
unfoldable pub below_limit : {A : Type 0} → List A → ℤ → Bool
below_limit xs limit = ltb (length xs) (pos_part limit)

-- The structs of all rows, without those that do not unmarshal.
unfoldable pub decoded_rows : {A : Type 0} → (Object → Option A) → Rows → List A
unfolding decoded
decoded_rows read [] = []
decoded_rows read ((k, v) ∷ rows) =
    let rest = decoded_rows read rows in elim (decoded read v) [ none ↦ rest | some a ↦ a ∷ rest ]

-- `append`, after `continue` where there is nothing to append.
abbrev pub push : {A : Type 0} → List A → Option A → List A
push xs none = xs
push xs (some a) = xs ++ a ∷ []

-- The backward loops: until `limit` structs are found or the rows of the prefix end.
unfoldable pub collect_back : {A : Type 0} → Bytes → (Value → Option A) → ℤ → List A → Rows → List A
unfolding has_prefix below_limit
collect_back prefix read limit found [] = found
collect_back prefix read limit found ((k, v) ∷ rows) =
    let rest = collect_back prefix read limit (push found (read v)) rows in
    if below_limit found limit then (if has_prefix prefix k then rest else found) else found
