-- ===== src/Store/Ledger/Book.antt =====
-- How the balance of one address changes the rows of a token.
use agro_diamond_compliance.Prelude.{
  ℕ, suc, ◌+◌, ◌≡◌, refl, Option, none, some, arith, if◌then◌else◌, ◌==◌, bytes_eq, bytes_discrete,
  ap,
}
use agro_diamond_compliance.Prelude.Int.{pos, pos_part}
use agro_diamond_compliance.Bytes.{Bytes, IsPlain}
use agro_diamond_compliance.Bytes.Decimal.{format_int}
use agro_diamond_compliance.RocksDb.Entries.{
  Value, raw, Rows, lookup, insert, erase, IsSorted, lookup-insert, lookup-erase, insert-IsSorted,
  erase-IsSorted,
}
use agro_diamond_compliance.RocksDb.Total.{weight_at, total-insert, total-erase}
use agro_diamond_compliance.Store.Keys.{holder_key, holder_addr_key}
use agro_diamond_compliance.Store.Keys.Disjoint.{
  has_prefix-holder_key, has_prefix-holder_addr_key, holder_key_injective,
  holder_addr_key_injective, holder_key-ne-holder_addr_key,
}
use agro_diamond_compliance.Store.Tokens.{balance_of_value}
use agro_diamond_compliance.Store.Ledger.Steps.{balance_at}
use agro_diamond_compliance.Store.Ledger.Rows.{
  held, counted, supply_in, holders_in, IsBook, supply_in-insert, holders_in-insert,
  supply_in-erase, holders_in-erase, balance_of_value-format,
}

-- The rows that `putHolderBalance` leaves, and those that `deleteHolder` leaves.
abbrev pub put_rows : Bytes → Bytes → ℕ → Rows → Rows
put_rows t a n m =
    insert (holder_addr_key a t) (raw (format_int (pos n)))
      (insert (holder_key t a) (raw (format_int (pos n))) m)

abbrev pub drop_rows : Bytes → Bytes → Rows → Rows
drop_rows t a m = erase (holder_addr_key a t) (erase (holder_key t a) m)

abbrev pub present : Option Value → ℕ
present none = 0
present (some _) = 1

held_at-holder_key :
    (t a : Bytes) (o : Option Value)
    → weight_at (held t) (holder_key t a) o ≡ pos_part (balance_of_value o)
unfolding held
held_at-holder_key t a none = unfold balance_of_value in refl
held_at-holder_key t a (some v) = rw (has_prefix-holder_key t a)

counted_at-holder_key :
    (t a : Bytes) (o : Option Value) → weight_at (counted t) (holder_key t a) o ≡ present o
unfolding counted
counted_at-holder_key t a none = refl
counted_at-holder_key t a (some v) = rw (has_prefix-holder_key t a)

module _ (t a : Bytes) (m : Rows) (sorted : IsSorted m) where
  pub put_rows-IsSorted : (n : ℕ) → IsSorted (put_rows t a n m)
  put_rows-IsSorted n = insert-IsSorted _ _ _ (insert-IsSorted _ _ m sorted)

  pub drop_rows-IsSorted : IsSorted (drop_rows t a m)
  drop_rows-IsSorted = erase-IsSorted _ _ (erase-IsSorted _ m sorted)

  pub lookup-put_rows :
      (n : ℕ) (u c : Bytes)
      → lookup (holder_key u c) (put_rows t a n m) ≡ (
          if holder_key t a == holder_key u c
          then some (raw (format_int (pos n)))
          else lookup (holder_key u c) m)
  lookup-put_rows n u c = ground (
    arith,
    lookup-insert (holder_addr_key a t) (holder_key u c) (raw (format_int (pos n)))
        (insert (holder_key t a) (raw (format_int (pos n))) m),
    lookup-insert (holder_key t a) (holder_key u c) (raw (format_int (pos n))) m,
    holder_key-ne-holder_addr_key u c a t,
  )

  pub lookup-drop_rows :
      (u c : Bytes)
      → lookup (holder_key u c) (drop_rows t a m)
        ≡ (if holder_key t a == holder_key u c then none else lookup (holder_key u c) m)
  lookup-drop_rows u c = ground (
    arith,
    lookup-erase (holder_addr_key a t) (holder_key u c) (erase (holder_key t a) m)
        (erase-IsSorted (holder_key t a) m sorted),
    lookup-erase (holder_key t a) (holder_key u c) m sorted,
    holder_key-ne-holder_addr_key u c a t,
  )

  lookup-put_rows_addr :
      (n : ℕ) (c : Bytes)
      → IsPlain a
      → IsPlain c
      → lookup (holder_addr_key c t) (put_rows t a n m) ≡ (
          if holder_key t a == holder_key t c
          then some (raw (format_int (pos n)))
          else lookup (holder_addr_key c t) m)
  lookup-put_rows_addr n c pa pc = ground (
    arith,
    lookup-insert (holder_addr_key a t) (holder_addr_key c t) (raw (format_int (pos n)))
        (insert (holder_key t a) (raw (format_int (pos n))) m),
    lookup-insert (holder_key t a) (holder_addr_key c t) (raw (format_int (pos n))) m,
    holder_key-ne-holder_addr_key t a c t,
    holder_key_injective t a c,
    holder_addr_key_injective t a c pa pc,
  )

  lookup-drop_rows_addr :
      (c : Bytes)
      → IsPlain a
      → IsPlain c
      → lookup (holder_addr_key c t) (drop_rows t a m)
        ≡ (if holder_key t a == holder_key t c then none else lookup (holder_addr_key c t) m)
  lookup-drop_rows_addr c pa pc = ground (
    arith,
    lookup-erase (holder_addr_key a t) (holder_addr_key c t) (erase (holder_key t a) m)
        (erase-IsSorted (holder_key t a) m sorted),
    lookup-erase (holder_key t a) (holder_addr_key c t) m sorted,
    holder_key-ne-holder_addr_key t a c t,
    holder_key_injective t a c,
    holder_addr_key_injective t a c pa pc,
  )

  -- The sums after a balance is stored or removed.
  pub supply_in-put_rows :
      (n : ℕ) → supply_in t (put_rows t a n m) + pos_part (balance_at t a m) ≡ supply_in t m + n
  supply_in-put_rows n = omega (
    arith,
    supply_in-insert t (holder_addr_key a t) (raw (format_int (pos n)))
        (insert (holder_key t a) (raw (format_int (pos n))) m) (insert-IsSorted _ _ m sorted)
        (has_prefix-holder_addr_key t a t),
    total-insert (held t) (holder_key t a) (raw (format_int (pos n))) m sorted,
    held_at-holder_key t a (lookup (holder_key t a) m),
    held_at-holder_key t a (some (raw (format_int (pos n)))),
    ap pos_part (balance_of_value-format (pos n)),
  )

  pub holders_in-put_rows :
      (n : ℕ)
      → holders_in t (put_rows t a n m) + present (lookup (holder_key t a) m) ≡ holders_in t m + 1
  holders_in-put_rows n = omega (
    arith,
    holders_in-insert t (holder_addr_key a t) (raw (format_int (pos n)))
        (insert (holder_key t a) (raw (format_int (pos n))) m) (insert-IsSorted _ _ m sorted)
        (has_prefix-holder_addr_key t a t),
    total-insert (counted t) (holder_key t a) (raw (format_int (pos n))) m sorted,
    counted_at-holder_key t a (lookup (holder_key t a) m),
    counted_at-holder_key t a (some (raw (format_int (pos n)))),
  )

  pub supply_in-drop_rows :
      supply_in t (drop_rows t a m) + pos_part (balance_at t a m) ≡ supply_in t m
  supply_in-drop_rows = omega (
    arith,
    supply_in-erase t (holder_addr_key a t) (erase (holder_key t a) m)
        (has_prefix-holder_addr_key t a t),
    total-erase (held t) (holder_key t a) m,
    held_at-holder_key t a (lookup (holder_key t a) m),
  )

  pub holders_in-drop_rows :
      holders_in t (drop_rows t a m) + present (lookup (holder_key t a) m) ≡ holders_in t m
  holders_in-drop_rows = omega (
    arith,
    holders_in-erase t (holder_addr_key a t) (erase (holder_key t a) m)
        (has_prefix-holder_addr_key t a t),
    total-erase (counted t) (holder_key t a) m,
    counted_at-holder_key t a (lookup (holder_key t a) m),
  )

  pub put_rows-IsBook : (n : ℕ) → IsPlain a → IsBook t m → IsBook t (put_rows t a (suc n) m)
  put_rows-IsBook n plain h = record {
    positive = λ c v e. elim (bytes_discrete (holder_key t a) (holder_key t c)) [
      | yes p ↦ (n, ground (arith, lookup-put_rows (suc n) t c))
      | no p ↦ h.positive c v (ground (arith, lookup-put_rows (suc n) t c))
    ];
    mirrored = λ c pc. ground (
      arith,
      lookup-put_rows (suc n) t c,
      lookup-put_rows_addr (suc n) c plain pc,
      h.mirrored c pc,
    );
  }

  pub drop_rows-IsBook : IsPlain a → IsBook t m → IsBook t (drop_rows t a m)
  drop_rows-IsBook plain h = record {
    positive = λ c v e. h.positive c v (ground (arith, lookup-drop_rows t c));
    mirrored = λ c pc.
        ground (arith, lookup-drop_rows t c, lookup-drop_rows_addr c plain pc, h.mirrored c pc);
  }

  pub balance_at-put_rows : (n : ℕ) → balance_at t a (put_rows t a n m) ≡ pos n
  balance_at-put_rows n = ground (arith, lookup-put_rows n t a, balance_of_value-format (pos n))

  pub balance_at-drop_rows : balance_at t a (drop_rows t a m) ≡ pos 0
  unfolding balance_of_value
  balance_at-drop_rows = ground (arith, lookup-drop_rows t a)
