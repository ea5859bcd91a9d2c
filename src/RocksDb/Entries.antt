-- ===== src/RocksDb/Entries.antt =====
-- The contents of a database: rows in the bytewise order of their keys, one for each key.
use agro_diamond_compliance.Prelude.{
  ◌≡◌, refl, true, Option, none, some, List, [], ◌∷◌, ◌==◌, bytes_eq, All, arith, if◌then◌else◌,
}
use agro_diamond_compliance.Bytes.{Bytes, less}
use agro_diamond_compliance.Bytes.Order.{less_irrefl, less_trans, less_total}
use agro_diamond_compliance.Json.{Object}

-- A stored value: bytes, or a marshalled struct.
pub data Value : Type 0 where
  raw : Bytes → Value
  object : Object → Value

abbrev pub Rows : Type 0
Rows = List (Bytes × Value)

unfoldable pub lookup : Bytes → Rows → Option Value
lookup key [] = none
lookup key ((next, value) ∷ rows) = if next == key then some value else lookup key rows

unfoldable pub insert : Bytes → Value → Rows → Rows
unfolding less
insert key value [] = (key, value) ∷ []
insert key value ((next, old) ∷ rows) =
    if next == key
    then (key, value) ∷ rows
    else if less key next
    then (key, value) ∷ (next, old) ∷ rows
    else (next, old) ∷ insert key value rows

unfoldable pub erase : Bytes → Rows → Rows
erase key [] = []
erase key ((next, old) ∷ rows) = if next == key then rows else (next, old) ∷ erase key rows

-- The rows from the first key that is not below a key.
unfoldable pub from : Bytes → Rows → Rows
unfolding less
from key [] = []
from key ((next, value) ∷ rows) = if less next key then from key rows else (next, value) ∷ rows

-- The rows whose keys are below a key.
unfoldable pub below : Bytes → Rows → Rows
unfolding less
below key [] = []
below key ((next, value) ∷ rows) = if less next key then (next, value) ∷ below key rows else []

abbrev pub Above : Bytes → Rows → Type 0
Above key = All (λ (next, value). less key next ≡ true)

abbrev pub IsSorted : Rows → Type 0
IsSorted [] = Unit
IsSorted ((key, value) ∷ rows) = Above key rows × IsSorted rows

pub lookup-insert :
    (key next : Bytes) (value : Value) (rows : Rows)
    → lookup next (insert key value rows) ≡ (if key == next then some value else lookup next rows)
unfolding lookup insert
lookup-insert key next value [] = refl
lookup-insert key next value ((low, old) ∷ rows) = ground (arith, lookup-insert key next value rows)

-- What is sorted after a bound does not hold it.
pub lookup-Above : (key : Bytes) (rows : Rows) → Above key rows → lookup key rows ≡ none
unfolding lookup
lookup-Above key [] h = refl
lookup-Above key ((next, value) ∷ rows) (hj, h) =
    ground (arith, less_irrefl key, lookup-Above key rows h)

pub Above-trans :
    (low key : Bytes) (rows : Rows) → less low key ≡ true → Above key rows → Above low rows
Above-trans low key [] l h = tt
Above-trans low key ((next, value) ∷ rows) l (hj, h) =
    (less_trans low key next l hj, Above-trans low key rows l h)

pub lookup-erase :
    (key next : Bytes) (rows : Rows)
    → IsSorted rows
    → lookup next (erase key rows) ≡ (if key == next then none else lookup next rows)
unfolding lookup erase
lookup-erase key next [] h = ground arith
lookup-erase key next ((low, old) ∷ rows) (a, h) =
    ground (arith, lookup-erase key next rows h, lookup-Above low rows a)

insert-Above :
    (low key : Bytes) (value : Value) (rows : Rows)
    → less low key ≡ true
    → Above low rows
    → Above low (insert key value rows)
unfolding insert
insert-Above low key value [] l h = (l, tt)
insert-Above low key value ((next, old) ∷ rows) l (hj, h) =
    ground (arith, insert-Above low key value rows l h)

pub insert-IsSorted :
    (key : Bytes) (value : Value) (rows : Rows) → IsSorted rows → IsSorted (insert key value rows)
unfolding insert
insert-IsSorted key value [] h = (tt, tt)
insert-IsSorted key value ((next, old) ∷ rows) (a, h) = ground (
  arith,
  insert-IsSorted key value rows h,
  insert-Above next key value rows,
  less_total key next,
  Above-trans key next rows,
)

erase-Above : (low key : Bytes) (rows : Rows) → Above low rows → Above low (erase key rows)
unfolding erase
erase-Above low key [] h = tt
erase-Above low key ((next, old) ∷ rows) (hj, h) = ground (arith, erase-Above low key rows h)

pub erase-IsSorted : (key : Bytes) (rows : Rows) → IsSorted rows → IsSorted (erase key rows)
unfolding erase
erase-IsSorted key [] h = tt
erase-IsSorted key ((next, old) ∷ rows) (a, h) =
    ground (arith, erase-IsSorted key rows h, erase-Above next key rows a)
