-- ===== src/RocksDb/Total.antt =====
-- The sum of a weight over all rows, and how a write changes it.
use agro_diamond_compliance.Prelude.{ℕ, ◌+◌, ◌≡◌, Option, none, some, [], ◌∷◌, arith}
use agro_diamond_compliance.Bytes.{Bytes}
use agro_diamond_compliance.RocksDb.Entries.{
  Value, Rows, lookup, insert, erase, IsSorted, lookup-Above, Above-trans,
}

module _ (weight : Bytes → Value → ℕ) where
  abbrev pub total : Rows → ℕ
  total [] = 0
  total ((k, v) ∷ m) = weight k v + total m

  abbrev pub weight_at : Bytes → Option Value → ℕ
  weight_at k none = 0
  weight_at k (some v) = weight k v

  pub total-insert :
      (k : Bytes) (v : Value) (m : Rows)
      → IsSorted m
      → total (insert k v m) + weight_at k (lookup k m) ≡ total m + weight k v
  unfolding insert lookup
  total-insert k v [] h = omega arith
  total-insert k v ((j, w) ∷ m) (a, h) =
      ground (arith, total-insert k v m h, lookup-Above k m, Above-trans k j m)

  pub total-erase : (k : Bytes) (m : Rows) → total (erase k m) + weight_at k (lookup k m) ≡ total m
  unfolding erase lookup
  total-erase k [] = omega arith
  total-erase k ((j, w) ∷ m) = ground (arith, total-erase k m)
