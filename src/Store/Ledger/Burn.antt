-- ===== src/Store/Ledger/Burn.antt =====
-- `RecordBurn` and the ledger of its token.
use agro_diamond_compliance.Prelude.{ℕ, sym, ◌+◌, ◌-◌, ◌<◌, ◌≤◌, ◌≡◌, arith, ap, ◌∙◌}
use agro_diamond_compliance.Prelude.Int.{pos, pos_part, ◌-ℤ◌, -ℤ-pos}
use agro_diamond_compliance.Bytes.{Bytes, IsPlain}
use agro_diamond_compliance.Bytes.Decimal.{set_string, format_int, set_string-format_int}
use agro_diamond_compliance.Action.{Returns}
use agro_diamond_compliance.Ethereum.{Ethereum, IsLawful}
use agro_diamond_compliance.RocksDb.{RocksDb, IsReliable}
use agro_diamond_compliance.RocksDb.Entries.{Value, Rows, IsSorted, object}
use agro_diamond_compliance.Store.Records.{TokenMeta, marshal_transfer_event}
use agro_diamond_compliance.Store.Ledger.{record_burn}
use agro_diamond_compliance.Store.Ledger.Steps.{
  balance_at, debited_meta, record_burn_lem, burn_event,
}
use agro_diamond_compliance.Store.Ledger.Rows.{supply_in, IsLedger}
use agro_diamond_compliance.Store.Ledger.Debit
use agro_diamond_compliance.Store.Ledger.Debit.{debited_rows, balance_at-pos}
use agro_diamond_compliance.Store.Ledger.Settle.{
  settled, settled-IsLedger, supply_in-settled, balance_at-settled,
}

abbrev burnt_meta : ℕ → ℕ → Bytes → Rows → TokenMeta → TokenMeta
burnt_meta n r t m meta =
    let meta' : TokenMeta = record meta { total_supply = format_int (pos (supply_in t m - n)) } in
    debited_meta (pos r) meta'

-- The rows after a burn that leaves the balance `r`.
abbrev pub burnt : ℕ → ℕ → Bytes → Bytes → TokenMeta → ℕ → ℕ → Value → Rows → Rows
burnt n r t a meta b i v m = settled (burnt_meta n r t m meta) b i v (debited_rows t a r m)

module _ (n : ℕ) (t a : Bytes) (b i : ℕ) (v : Value) (m : Rows) (sorted : IsSorted m) where
  burnt-IsLedger :
      IsPlain t
      → IsPlain a
      → (h : IsLedger t m) → n ≤ pos_part (balance_at t a m)
      → 0 < pos_part (balance_at t a m)
      → let r = pos_part (balance_at t a m) - n in
        let m' = burnt n r t a h.meta b i v m in
        IsLedger t m' × (supply_in t m' + n ≡ supply_in t m) × (balance_at t a m' ≡ pos r)
  burnt-IsLedger pt pa h covered holds =
      let r = pos_part (balance_at t a m) - n in
      let new = debited_rows t a r m in
      let meta = burnt_meta n r t m h.meta in
      let new_sorted = Debit.debited-IsSorted t a m sorted r in
      let total : supply_in t new + n ≡ supply_in t m =
        omega (arith, Debit.supply_in-debited t a m sorted r) in
      let left : supply_in t m - n ≡ supply_in t new = omega (arith, total) in
      let count = Debit.holders_in-debited t a m sorted r in
      let one = (balance_at-pos t a m h.book).1 in
      (
        settled-IsLedger meta b i v new new_sorted t pt (ground arith)
            (ground (arith, ap (λ (x : ℕ). format_int (pos x)) left)) (ground arith)
            (Debit.debited-IsBook t a m sorted r pa h.book),
        omega (arith, supply_in-settled meta b i v new new_sorted t),
        balance_at-settled meta b i v new new_sorted t a ∙ Debit.balance_at-debited t a m sorted r,
      )

module _ (db : RocksDb) (L : IsReliable db) (eth : Ethereum) (E : IsLawful eth) where
  -- A burn returns, and leaves the rows above.
  pub record_burn-burnt :
      (t from : Bytes) (n : ℕ) (tx : Bytes) (b i : ℕ) (s : db.State) (h : IsLedger t (L.entries s))
      → n ≤ pos_part (balance_at t (eth.hex from) (L.entries s))
      → (P : Rows → Type 0)
      → P (
          burnt n
            (pos_part (balance_at t (eth.hex from) (L.entries s)) - n)
            t
            (eth.hex from)
            h.meta
            b
            i
            (object (marshal_transfer_event (burn_event db L eth t from (pos n) tx b i)))
            (L.entries s))
      → Returns (record_burn db eth t from (pos n) tx b i s) λ s'. P (L.entries s')
  record_burn-burnt t from n tx b i s h covered P p =
      let a = eth.hex from in
      let m = L.entries s in
      let k = pos_part (balance_at t a m) in
      let bal : balance_at t a m -ℤ pos n ≡ pos (k - n) =
        ap (λ z. z -ℤ pos n) (balance_at-pos t a m h.book).0 ∙ -ℤ-pos k n covered in
      let enough : n ≤ supply_in t m =
        omega (arith, Debit.supply_in-debited t a m (L.entries-IsSorted s) (k - n)) in
      rw
        (
          record_burn_lem db L eth t from (pos n) tx b i s h.meta (pos (supply_in t m)) h.stored
              (ap set_string h.supply ∙ set_string-format_int _),
          bal,
          -ℤ-pos (supply_in t m) n enough,
        )
        (simp (L.entries-write, Debit.entries-debited) p)

  -- On a reliable database and the ledger of a token with a plain id, a burn from an address
  -- that has a positive balance of at least the amount returns, keeps the ledger, and takes the
  -- amount from the supply and from the balance.
  pub record_burn-IsLedger :
      (t from : Bytes) (n : ℕ) (tx : Bytes) (b i : ℕ) (s : db.State)
      → IsPlain t
      → IsLedger t (L.entries s)
      → n ≤ pos_part (balance_at t (eth.hex from) (L.entries s))
      → 0 < pos_part (balance_at t (eth.hex from) (L.entries s))
      → let a = eth.hex from in
        let m = L.entries s in
        Returns (record_burn db eth t from (pos n) tx b i s) λ s'.
          IsLedger t (L.entries s')
          × (supply_in t (L.entries s') + n ≡ supply_in t m)
          × (balance_at t a (L.entries s') ≡ balance_at t a m -ℤ pos n)
  record_burn-IsLedger t from n tx b i s plain h covered holds =
      let a = eth.hex from in
      let m = L.entries s in
      let k = pos_part (balance_at t a m) in
      let bal : pos (k - n) ≡ balance_at t a m -ℤ pos n =
        sym (ap (λ z. z -ℤ pos n) (balance_at-pos t a m h.book).0 ∙ -ℤ-pos k n covered) in
      let (kept, less, left) =
        burnt-IsLedger n t a b i _ m (L.entries-IsSorted s) plain (E.hex-IsPlain from) h covered
          holds in
      record_burn-burnt t from n tx b i s h covered
        (λ m'.
          IsLedger t m'
          × (supply_in t m' + n ≡ supply_in t m)
          × (balance_at t a m' ≡ balance_at t a m -ℤ pos n))
        (kept, less, left ∙ bal)
