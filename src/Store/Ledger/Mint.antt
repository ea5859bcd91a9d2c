-- ===== src/Store/Ledger/Mint.antt =====
-- `RecordMint` and the ledger of its token.
use agro_diamond_compliance.Prelude.{ℕ, suc, sym, ◌+◌, ◌≡◌, arith, if◌then◌else◌, ap, ◌∙◌}
use agro_diamond_compliance.Prelude.Int.{pos, pos_part, ◌+ℤ◌, is_zero, +ℤ-pos}
use agro_diamond_compliance.Bytes.{Bytes, IsPlain}
use agro_diamond_compliance.Bytes.Decimal.{set_string, format_int, set_string-format_int}
use agro_diamond_compliance.Action.{Returns}
use agro_diamond_compliance.Ethereum.{Ethereum, IsLawful}
use agro_diamond_compliance.RocksDb.{RocksDb, IsReliable}
use agro_diamond_compliance.RocksDb.Entries.{Value, Rows, IsSorted, object}
use agro_diamond_compliance.Store.Records.{TokenMeta, marshal_transfer_event}
use agro_diamond_compliance.Store.Ledger.{one_more, record_mint}
use agro_diamond_compliance.Store.Ledger.Steps.{balance_at, record_mint_lem, mint_event}
use agro_diamond_compliance.Store.Ledger.Rows.{supply_in, IsLedger}
use agro_diamond_compliance.Store.Ledger.Book.{
  put_rows, put_rows-IsSorted, put_rows-IsBook, supply_in-put_rows, holders_in-put_rows,
  balance_at-put_rows,
}
use agro_diamond_compliance.Store.Ledger.Debit.{balance_at-pos}
use agro_diamond_compliance.Store.Ledger.Settle.{
  settled, settled-IsLedger, supply_in-settled, balance_at-settled,
}

-- The metadata of a mint of `n`.
abbrev minted_meta : ℕ → Bytes → Bytes → Rows → TokenMeta → TokenMeta
minted_meta n t a m meta =
    let meta' : TokenMeta = record meta { total_supply = format_int (pos (supply_in t m + n)) } in
    if is_zero (balance_at t a m) then one_more meta' else meta'

-- The rows after a mint of `n + 1`.
abbrev pub minted : ℕ → Bytes → Bytes → TokenMeta → ℕ → ℕ → Value → Rows → Rows
minted n t a meta b i v m =
    settled (minted_meta (suc n) t a m meta) b i v
      (put_rows t a (suc (pos_part (balance_at t a m) + n)) m)

module _ (n : ℕ) (t a : Bytes) (b i : ℕ) (v : Value) (m : Rows) where
  minted-IsLedger :
      IsSorted m
      → IsPlain t
      → IsPlain a
      → (h : IsLedger t m)
      → IsLedger t (minted n t a h.meta b i v m)
        × (supply_in t (minted n t a h.meta b i v m) ≡ supply_in t m + suc n)
        × (balance_at t a (minted n t a h.meta b i v m)
            ≡ pos (suc (pos_part (balance_at t a m) + n)))
  minted-IsLedger sorted pt pa h =
      let k = pos_part (balance_at t a m) in
      let new = put_rows t a (suc (k + n)) m in
      let meta = minted_meta (suc n) t a m h.meta in
      let new_sorted = put_rows-IsSorted t a m sorted (suc (k + n)) in
      let total : supply_in t new ≡ supply_in t m + suc n =
        omega (arith, supply_in-put_rows t a m sorted (suc (k + n))) in
      let count = holders_in-put_rows t a m sorted (suc (k + n)) in
      let zero = (balance_at-pos t a m h.book).1 in
      (
        settled-IsLedger meta b i v new new_sorted t pt (ground arith)
            (ground (arith, ap (λ (x : ℕ). format_int (pos x)) total)) (ground arith)
            (put_rows-IsBook t a m sorted (k + n) pa h.book),
        supply_in-settled meta b i v new new_sorted t ∙ total,
        balance_at-settled meta b i v new new_sorted t a
            ∙ balance_at-put_rows t a m sorted (suc (k + n)),
      )

module _ (db : RocksDb) (L : IsReliable db) (eth : Ethereum) (E : IsLawful eth) where
  -- A mint returns, and leaves the rows above.
  pub record_mint-minted :
      (t to : Bytes) (n : ℕ) (tx : Bytes) (b i : ℕ) (s : db.State) (h : IsLedger t (L.entries s))
      (P : Rows → Type 0)
      → P (
          minted n t
            (eth.hex to)
            h.meta
            b
            i
            (object (marshal_transfer_event (mint_event db L eth t to (pos (suc n)) tx b i)))
            (L.entries s))
      → Returns (record_mint db eth t to (pos (suc n)) tx b i s) λ s'. P (L.entries s')
  record_mint-minted t to n tx b i s h P p =
      let a = eth.hex to in
      let m = L.entries s in
      let k = pos_part (balance_at t a m) in
      let bal : balance_at t a m +ℤ pos (suc n) ≡ pos (suc (k + n)) =
        ap (λ z. z +ℤ pos (suc n)) (balance_at-pos t a m h.book).0
        ∙ (+ℤ-pos k (suc n) ∙ ap pos (omega arith)) in
      rw
        (
          record_mint_lem db L eth t to (pos (suc n)) tx b i s h.meta (pos (supply_in t m)) h.stored
              (ap set_string h.supply ∙ set_string-format_int _),
          bal,
          +ℤ-pos,
        )
        (simp L.entries-write p)

  -- On a reliable database and the ledger of a token with a plain id, a mint of a positive
  -- amount returns, keeps the ledger, and adds the amount to the supply and to the balance of
  -- the receiver.
  pub record_mint-IsLedger :
      (t to : Bytes) (n : ℕ) (tx : Bytes) (b i : ℕ) (s : db.State)
      → IsPlain t
      → IsLedger t (L.entries s)
      → let a = eth.hex to in
        let m = L.entries s in
        Returns (record_mint db eth t to (pos (suc n)) tx b i s) λ s'.
          IsLedger t (L.entries s')
          × (supply_in t (L.entries s') ≡ supply_in t m + suc n)
          × (balance_at t a (L.entries s') ≡ balance_at t a m +ℤ pos (suc n))
  record_mint-IsLedger t to n tx b i s plain h =
      let a = eth.hex to in
      let m = L.entries s in
      let k = pos_part (balance_at t a m) in
      let bal : pos (suc (k + n)) ≡ balance_at t a m +ℤ pos (suc n) = sym (
        ap (λ z. z +ℤ pos (suc n)) (balance_at-pos t a m h.book).0
        ∙ (+ℤ-pos k (suc n) ∙ ap pos (omega arith))) in
      let (kept, grown, held) =
        minted-IsLedger n t a b i _ m (L.entries-IsSorted s) plain (E.hex-IsPlain to) h in
      record_mint-minted t to n tx b i s h
        (λ m'.
          IsLedger t m'
          × (supply_in t m' ≡ supply_in t m + suc n)
          × (balance_at t a m' ≡ balance_at t a m +ℤ pos (suc n)))
        (kept, grown, held ∙ bal)
