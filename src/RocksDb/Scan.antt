-- ===== src/RocksDb/Scan.antt =====
-- Prefix scans.
use agro_diamond_compliance.Prelude.{
  ◌≡◌, refl, false, [], ◌∷◌, arith, if◌then◌else◌, All, Bool-cases, inl, inr,
}
use agro_diamond_compliance.Bytes.{Bytes, less, has_prefix}
use agro_diamond_compliance.Bytes.Order.{less-has_prefix, less_trans, has_prefix_past}
use agro_diamond_compliance.RocksDb.Entries.{Rows, from, Above, IsSorted}

-- The rows of a loop `for ; it.ValidForPrefix(p); it.Next()`, from those that are ahead.
unfoldable pub while_prefix : Bytes → Rows → Rows
unfolding has_prefix
while_prefix p [] = []
while_prefix p ((k, v) ∷ m) = if has_prefix p k then (k, v) ∷ while_prefix p m else []

unfoldable pub with_prefix : Bytes → Rows → Rows
with_prefix p [] = []
with_prefix p ((k, v) ∷ m) = if has_prefix p k then (k, v) ∷ with_prefix p m else with_prefix p m

pub with_prefix-eq-nil :
    (p j : Bytes) (m : Rows)
    → less j p ≡ false
    → has_prefix p j ≡ false
    → Above j m
    → with_prefix p m ≡ []
unfolding with_prefix
with_prefix-eq-nil p j [] l n h = refl
with_prefix-eq-nil p j ((k, v) ∷ m) l n (hk, h) =
    ground (arith, with_prefix-eq-nil p j m l n h, has_prefix_past p j k l n hk)

abbrev pub NotBelow : Bytes → Rows → Type 0
NotBelow p = All (λ (j, v). less j p ≡ false)

pub Above-NotBelow : (p k : Bytes) (m : Rows) → less k p ≡ false → Above k m → NotBelow p m
Above-NotBelow p k [] l a = tt
Above-NotBelow p k ((j, v) ∷ m) l (hj, a) =
    (ground (arith, less_trans k j p hj), Above-NotBelow p k m l a)

while_prefix-eq :
    (p : Bytes) (m : Rows) → IsSorted m → NotBelow p m → while_prefix p m ≡ with_prefix p m
unfolding while_prefix with_prefix
while_prefix-eq p [] h l = refl
while_prefix-eq p ((k, v) ∷ m) (a, h) (lk, l) =
    ground (arith, while_prefix-eq p m h l, with_prefix-eq-nil p k m lk)

-- In sorted rows, the loop from `Seek(p)` while the prefix holds visits exactly the rows with
-- prefix `p`.
pub while_prefix-from :
    (p : Bytes) (m : Rows) → IsSorted m → while_prefix p (from p m) ≡ with_prefix p m
unfolding while_prefix with_prefix from
while_prefix-from p [] h = refl
while_prefix-from p ((k, v) ∷ m) (a, h) = elim (Bool-cases (less k p)) [
  | inl before ↦ rw before (ground (arith, while_prefix-from p m h, less-has_prefix p k))
  | inr reached ↦ rw reached (
      ground (
        arith,
        while_prefix-eq p m h (Above-NotBelow p k m reached a),
        with_prefix-eq-nil p k m reached,
      ))
]
