-- ===== src/Store/Ledger/Debit.antt =====
-- The rows after the debit of an address that keeps a balance of `r`.
use agro_diamond_compliance.Prelude.{
  ℕ, suc, ◌+◌, ◌≡◌, ◌≢◌, true, false, arith, if◌then◌else◌, inl, inr, ltb, eqb, zero,
}
use agro_diamond_compliance.Prelude.Int.{pos, pos_part, is_zero}
use agro_diamond_compliance.Bytes.{Bytes, IsPlain}
use agro_diamond_compliance.RocksDb.{RocksDb, IsReliable}
use agro_diamond_compliance.RocksDb.Entries.{Rows, lookup, IsSorted}
use agro_diamond_compliance.Store.Keys.{holder_key}
use agro_diamond_compliance.Store.Tokens.{balance_of_value}
use agro_diamond_compliance.Store.Ledger.Steps.{balance_at, debited}
use agro_diamond_compliance.Store.Ledger.Rows.{
  supply_in, holders_in, IsBook, IsBook-cases, balance_of_value-format,
}
use agro_diamond_compliance.Store.Ledger.Book

module _ (t a : Bytes) (m : Rows) (h : IsBook t m) where
  -- A balance is a natural number, and 0 exactly where there is no row.
  pub balance_at-pos :
      (balance_at t a m ≡ pos (pos_part (balance_at t a m)))
      × (is_zero (balance_at t a m)
          ≡ (if ltb 0 (Book.present (lookup (holder_key t a) m)) then false else true))
  balance_at-pos = elim (IsBook-cases t a m h) [
    | inl e ↦ unfold balance_of_value in ground arith
    | inr (n, e) ↦ ground (arith, balance_of_value-format (pos (suc n)))
  ]

abbrev pub debited_rows : Bytes → Bytes → ℕ → Rows → Rows
debited_rows t a zero m = Book.drop_rows t a m
debited_rows t a (suc r) m = Book.put_rows t a (suc r) m

-- The rows that a debit leaves in the database.
pub entries-debited :
    (db : RocksDb) (L : IsReliable db) (t a : Bytes) (r : ℕ) (s : db.State)
    → L.entries (debited db L t a (pos r) s) ≡ debited_rows t a r (L.entries s)
entries-debited db L t a zero s = simp L.entries-remove
entries-debited db L t a (suc r) s =
    let e : eqb (suc r) 0 ≡ false = ground arith in rw e (simp L.entries-write)

module _ (t a : Bytes) (m : Rows) (sorted : IsSorted m) where
  pub debited-IsSorted : (r : ℕ) → IsSorted (debited_rows t a r m)
  debited-IsSorted zero = Book.drop_rows-IsSorted t a m sorted
  debited-IsSorted (suc r) = Book.put_rows-IsSorted t a m sorted (suc r)

  pub debited-IsBook : (r : ℕ) → IsPlain a → IsBook t m → IsBook t (debited_rows t a r m)
  debited-IsBook zero plain h = Book.drop_rows-IsBook t a m sorted plain h
  debited-IsBook (suc r) plain h = Book.put_rows-IsBook t a m sorted r plain h

  pub supply_in-debited :
      (r : ℕ) → supply_in t (debited_rows t a r m) + pos_part (balance_at t a m) ≡ supply_in t m + r
  supply_in-debited zero = omega (arith, Book.supply_in-drop_rows t a m sorted)
  supply_in-debited (suc r) = Book.supply_in-put_rows t a m sorted (suc r)

  pub holders_in-debited :
      (r : ℕ)
      → holders_in t (debited_rows t a r m) + Book.present (lookup (holder_key t a) m)
        ≡ holders_in t m + (if eqb r 0 then 0 else 1)
  holders_in-debited zero = omega (arith, Book.holders_in-drop_rows t a m sorted)
  holders_in-debited (suc r) =
      let e : eqb (suc r) 0 ≡ false = ground arith in
      rw e (Book.holders_in-put_rows t a m sorted (suc r))

  pub balance_at-debited : (r : ℕ) → balance_at t a (debited_rows t a r m) ≡ pos r
  balance_at-debited zero = Book.balance_at-drop_rows t a m sorted
  balance_at-debited (suc r) = Book.balance_at-put_rows t a m sorted (suc r)

  -- Another holder's row, of this token or another, is left alone.
  pub lookup-debited_ne :
      (r : ℕ) (u c : Bytes)
      → holder_key t a ≢ holder_key u c
      → lookup (holder_key u c) (debited_rows t a r m) ≡ lookup (holder_key u c) m
  lookup-debited_ne zero u c n = ground (arith, Book.lookup-drop_rows t a m sorted u c)
  lookup-debited_ne (suc r) u c n = ground (arith, Book.lookup-put_rows t a m sorted (suc r) u c)
