-- ===== src/RocksDb/Backward.antt =====
-- Backward prefix scans: from below the end of a prefix, row by row, until enough is found.
use mathlib.Core.List.{reverse-cons, append-nil}
use agro_diamond_compliance.Prelude.{
  ◌≡◌, refl, sym, ap, ◌∙◌, true, false, ◌||◌, Option, none, some, List, [], ◌∷◌, ◌++◌, reverse,
  arith, All, Bool-cases, inl, inr,
}
use agro_diamond_compliance.Bytes.{Bytes, less, has_prefix}
use agro_diamond_compliance.Bytes.Order.{less-has_prefix}
use agro_diamond_compliance.RocksDb.Entries.{Value, Rows, below, IsSorted}
use agro_diamond_compliance.RocksDb.Scan.{with_prefix, with_prefix-eq-nil, NotBelow, Above-NotBelow}

-- The keys below `q` are those below `p` and those with prefix `p`.
abbrev pub IsEnd : Bytes → Bytes → Type 0
IsEnd p q = (k : Bytes) → less k q ≡ (less k p || has_prefix p k)

below-NotBelow :
    (p q : Bytes) (m : Rows) → IsEnd p q → IsSorted m → NotBelow p m → below q m ≡ with_prefix p m
unfolding below with_prefix
below-NotBelow p q [] e h l = refl
below-NotBelow p q ((k, v) ∷ m) e (a, h) (lk, l) =
    ground (arith, e k, below-NotBelow p q m e h l, with_prefix-eq-nil p k m lk)

below-NotBelow-nil : (p : Bytes) (m : Rows) → NotBelow p m → below p m ≡ []
unfolding below
below-NotBelow-nil p [] l = refl
below-NotBelow-nil p ((k, v) ∷ m) (lk, l) = ground arith

-- What lies below the end of a prefix: the rows below the prefix, and those that have it.
pub below-end :
    (p q : Bytes) (m : Rows) → IsEnd p q → IsSorted m → below q m ≡ below p m ++ with_prefix p m
unfolding below with_prefix
below-end p q [] e h = refl
below-end p q ((k, v) ∷ m) e (a, h) = elim (Bool-cases (less k p)) [
  | inl before ↦ ground (arith, e k, below-end p q m e h, less-has_prefix p k)
  | inr reached ↦
      let l = Above-NotBelow p k m reached a in
      below-NotBelow p q ((k, v) ∷ m) e (a, h) (reached, l)
      ∙ ap (λ x. x ++ with_prefix p ((k, v) ∷ m))
          (sym (below-NotBelow-nil p ((k, v) ∷ m) (reached, l)))
]

-- What is read of the rows, one after the other, without those that do not read.
unfoldable pub read_rows : {A : Type 0} → (Value → Option A) → Rows → List A
read_rows read [] = []
read_rows read ((k, v) ∷ m) =
    let rest = read_rows read m in elim (read v) [ none ↦ rest | some a ↦ a ∷ rest ]

read_rows-append :
    {A : Type 0} (read : Value → Option A) (xs ys : Rows)
    → read_rows read (xs ++ ys) ≡ read_rows read xs ++ read_rows read ys
unfolding read_rows
read_rows-append read [] ys = refl
read_rows-append read ((k, v) ∷ xs) ys = ground (arith, read_rows-append read xs ys)

reverse-push :
    {A : Type 0} (o : Option A) (xs : List A)
    → reverse xs ++ elim o [ none ↦ [] | some a ↦ a ∷ [] ]
      ≡ reverse (elim o [ none ↦ xs | some a ↦ a ∷ xs ])
reverse-push none xs = append-nil (reverse xs)
reverse-push (some a) xs = sym (reverse-cons a xs)

pub read_rows-reverse :
    {A : Type 0} (read : Value → Option A) (m : Rows)
    → read_rows read (reverse m) ≡ reverse (read_rows read m)
unfolding read_rows
read_rows-reverse read [] = refl
read_rows-reverse read ((k, v) ∷ m) =
    ap (read_rows read) (reverse-cons (k, v) m)
    ∙ (read_rows-append read (reverse m) ((k, v) ∷ [])
        ∙ (ap (λ l. l ++ read_rows read ((k, v) ∷ [])) (read_rows-reverse read m)
            ∙ reverse-push (read v) (read_rows read m)))

module _ (p : Bytes) where
  abbrev pub AreInside : Rows → Type 0
  AreInside = All (λ (k, v). has_prefix p k ≡ true)

  abbrev pub AreOutside : Rows → Type 0
  AreOutside = All (λ (k, v). has_prefix p k ≡ false)

  pub with_prefix-AreInside : (m : Rows) → AreInside (with_prefix p m)
  unfolding with_prefix
  with_prefix-AreInside [] = tt
  with_prefix-AreInside ((k, v) ∷ m) = elim (Bool-cases (has_prefix p k)) [
    | inl e ↦ rw e (e, with_prefix-AreInside m)
    | inr e ↦ rw e (with_prefix-AreInside m)
  ]

  pub below-AreOutside : (m : Rows) → AreOutside (below p m)
  unfolding below
  below-AreOutside [] = tt
  below-AreOutside ((k, v) ∷ m) = elim (Bool-cases (less k p)) [
    | inl e ↦ rw e (ground (arith, less-has_prefix p k), below-AreOutside m)
    | inr e ↦ rw e tt
  ]
