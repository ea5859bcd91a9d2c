-- ===== src/Store/Ledger/Transfer.antt =====
-- `RecordTransfer` and the ledger of its token.
use agro_diamond_compliance.Prelude.{
  ℕ, suc, ◌+◌, ◌-◌, ◌≤◌, ◌≡◌, ◌≢◌, arith, if◌then◌else◌, ap, ◌∙◌, sym,
}
use agro_diamond_compliance.Prelude.Int.{pos, pos_part, is_zero, ◌+ℤ◌, ◌-ℤ◌, +ℤ-pos, -ℤ-pos}
use agro_diamond_compliance.Bytes.{Bytes, IsPlain}
use agro_diamond_compliance.Bytes.Decimal.{format_int}
use agro_diamond_compliance.Action.{Returns}
use agro_diamond_compliance.Ethereum.{Ethereum, IsLawful}
use agro_diamond_compliance.RocksDb.{RocksDb, IsReliable}
use agro_diamond_compliance.RocksDb.Entries.{Value, object, Rows, IsSorted}
use agro_diamond_compliance.Store.Keys.Disjoint.{holder_key_injective}
use agro_diamond_compliance.Store.Records.{TokenMeta, marshal_transfer_event}
use agro_diamond_compliance.Store.Tokens.{balance_of_value}
use agro_diamond_compliance.Store.Ledger.{one_more, record_transfer}
use agro_diamond_compliance.Store.Ledger.Steps.{
  balance_at, debited, debited_meta, record_transfer_lem, transfer_event,
}
use agro_diamond_compliance.Store.Ledger.Rows.{supply_in, IsLedger}
use agro_diamond_compliance.Store.Ledger.Book
use agro_diamond_compliance.Store.Ledger.Debit
use agro_diamond_compliance.Store.Ledger.Debit.{debited_rows, balance_at-pos}
use agro_diamond_compliance.Store.Ledger.Settle.{
  settled, settled-IsLedger, supply_in-settled, balance_at-settled,
}

-- The rows between the debit and the credit of `n + 1`, and the balance of the receiver there.
abbrev pub middle : ℕ → Bytes → Bytes → Rows → Rows
middle n t from m = debited_rows t from (pos_part (balance_at t from m) - suc n) m

abbrev pub before : ℕ → Bytes → Bytes → Bytes → Rows → ℕ
before n t from to m = pos_part (balance_at t to (middle n t from m))

abbrev moved_meta : ℕ → Bytes → Bytes → Bytes → Rows → TokenMeta → TokenMeta
moved_meta n t from to m meta =
    let meta' = debited_meta (pos (pos_part (balance_at t from m) - suc n)) meta in
    if is_zero (balance_at t to (middle n t from m)) then one_more meta' else meta'

abbrev pub credited : ℕ → Bytes → Bytes → Bytes → Rows → Rows
credited n t from to m = Book.put_rows t to (suc (before n t from to m + n)) (middle n t from m)

abbrev pub moved : ℕ → Bytes → Bytes → Bytes → TokenMeta → ℕ → ℕ → Value → Rows → Rows
moved n t from to meta b i v m =
    settled (moved_meta n t from to m meta) b i v (credited n t from to m)

module _ (n : ℕ) (t from to : Bytes) (m : Rows) (sorted : IsSorted m) where
  pub credited-IsSorted : IsSorted (credited n t from to m)
  credited-IsSorted = Book.put_rows-IsSorted t to _ (Debit.debited-IsSorted t from m sorted _) _

  supply_in-credited :
      suc n ≤ pos_part (balance_at t from m) → supply_in t (credited n t from to m) ≡ supply_in t m
  supply_in-credited covered = omega (
    arith,
    Debit.supply_in-debited t from m sorted (pos_part (balance_at t from m) - suc n),
    Book.supply_in-put_rows t to (middle n t from m) (Debit.debited-IsSorted t from m sorted _)
        (suc (before n t from to m + n)),
  )

  moved-IsLedger :
      (b i : ℕ) (v : Value)
      → IsPlain t
      → IsPlain from
      → IsPlain to
      → (h : IsLedger t m) → suc n ≤ pos_part (balance_at t from m)
      → IsLedger t (moved n t from to h.meta b i v m)
        × (supply_in t (moved n t from to h.meta b i v m) ≡ supply_in t m)
  moved-IsLedger b i v pt pf pto h covered =
      let r = pos_part (balance_at t from m) - suc n in
      let mid = middle n t from m in
      let mid_sorted = Debit.debited-IsSorted t from m sorted r in
      let mid_book = Debit.debited-IsBook t from m sorted r pf h.book in
      let new = credited n t from to m in
      let meta = moved_meta n t from to m h.meta in
      let total = supply_in-credited covered in
      let first = Debit.holders_in-debited t from m sorted r in
      let second = Book.holders_in-put_rows t to mid mid_sorted (suc (before n t from to m + n)) in
      let one = (balance_at-pos t from m h.book).1 in
      let two = (balance_at-pos t to mid mid_book).1 in
      (
        settled-IsLedger meta b i v new credited-IsSorted t pt (ground arith)
            (ground (arith, ap (λ (x : ℕ). format_int (pos x)) (sym total))) (ground arith)
            (Book.put_rows-IsBook t to mid mid_sorted _ pto mid_book),
        supply_in-settled meta b i v new credited-IsSorted t ∙ total,
      )

  balance_at-moved :
      (meta : TokenMeta) (b i : ℕ) (v : Value) (c : Bytes)
      → balance_at t c (moved n t from to meta b i v m) ≡ balance_at t c (credited n t from to m)
  balance_at-moved meta b i v c = balance_at-settled _ b i v _ credited-IsSorted t c

  -- The receiver's balance, and that of a sender who is not the receiver.
  receiver-credited :
      balance_at t to (credited n t from to m) ≡ pos (suc (before n t from to m + n))
  receiver-credited =
      Book.balance_at-put_rows t to (middle n t from m) (Debit.debited-IsSorted t from m sorted _) _

  sender-credited :
      from ≢ to
      → balance_at t from (credited n t from to m) ≡ pos (pos_part (balance_at t from m) - suc n)
  sender-credited ne =
      ap balance_of_value (
        ground (
          arith,
          Book.lookup-put_rows t to (middle n t from m) (Debit.debited-IsSorted t from m sorted _)
              (suc (before n t from to m + n)) t from,
          holder_key_injective t to from,
        ))
      ∙ Debit.balance_at-debited t from m sorted _

  pub before-ne : from ≢ to → before n t from to m ≡ pos_part (balance_at t to m)
  before-ne ne =
      ap (λ o. pos_part (balance_of_value o))
        (Debit.lookup-debited_ne t from m sorted (pos_part (balance_at t from m) - suc n) t to
          (λ e. ne (holder_key_injective t from to e)))

module _ (db : RocksDb) (L : IsReliable db) (eth : Ethereum) (E : IsLawful eth) where
  module _ (t from to : Bytes) (n : ℕ) (event_type tx : Bytes) (b i : ℕ) (s : db.State)
      (h : IsLedger t (L.entries s))
      (covered : suc n ≤ pos_part (balance_at t (eth.hex from) (L.entries s))) where
    abbrev pub after : Rows
    after =
        moved n t (eth.hex from) (eth.hex to) h.meta b i
          (object (
            marshal_transfer_event
              (transfer_event db L eth t from to (pos (suc n)) event_type tx b i)))
          (L.entries s)

    -- A transfer returns, and leaves the rows above.
    pub transferred :
        (P : Rows → Type 0)
        → P after
        → Returns
            (record_transfer db eth t from to (pos (suc n)) event_type tx b i s)
            λ s'. P (L.entries s')
    transferred P p =
        let m = L.entries s in
        let f = eth.hex from in
        let a = eth.hex to in
        let k = pos_part (balance_at t f m) in
        let bal : balance_at t f m -ℤ pos (suc n) ≡ pos (k - suc n) =
          ap (λ z. z -ℤ pos (suc n)) (balance_at-pos t f m h.book).0 ∙ -ℤ-pos k (suc n) covered in
        let mid : L.entries (debited db L t f (pos (k - suc n)) s) ≡ middle n t f m =
          Debit.entries-debited db L t f (k - suc n) s in
        let q = before n t f a m in
        let credit : balance_at t a (middle n t f m) +ℤ pos (suc n) ≡ pos (suc (q + n)) =
          ap (λ z. z +ℤ pos (suc n))
            (balance_at-pos t a (middle n t f m)
              (Debit.debited-IsBook t f m (L.entries-IsSorted s) _ (E.hex-IsPlain from) h.book)).0
          ∙ (+ℤ-pos q (suc n) ∙ ap pos (omega arith)) in
        rw
          (
            record_transfer_lem db L eth t from to (pos (suc n)) event_type tx b i s h.meta
                h.stored,
            bal,
            mid,
            credit,
          )
          (simp (L.entries-write, mid) p)

    -- On a reliable database and the ledger of a token with a plain id, a transfer of a
    -- positive amount that the sender has returns, keeps the ledger and leaves the supply
    -- alone, also where the sender is the receiver.
    pub record_transfer-IsLedger :
        IsPlain t
        → Returns (record_transfer db eth t from to (pos (suc n)) event_type tx b i s) λ s'.
          IsLedger t (L.entries s') × (supply_in t (L.entries s') ≡ supply_in t (L.entries s))
    record_transfer-IsLedger plain =
        transferred (λ m'. IsLedger t m' × (supply_in t m' ≡ supply_in t (L.entries s)))
          (moved-IsLedger n t (eth.hex from) (eth.hex to) (L.entries s) (L.entries-IsSorted s) b i _
            plain (E.hex-IsPlain from) (E.hex-IsPlain to) h covered)

    -- On a reliable database and the ledger of a token, a transfer of a positive amount that
    -- the sender has, to another address, returns, takes the amount from the balance of the
    -- sender and adds it to that of the receiver.
    pub record_transfer_moves :
        from ≢ to
        → Returns (record_transfer db eth t from to (pos (suc n)) event_type tx b i s) λ s'.
          (balance_at t (eth.hex from) (L.entries s')
            ≡ balance_at t (eth.hex from) (L.entries s) -ℤ pos (suc n))
          × (balance_at t (eth.hex to) (L.entries s')
              ≡ balance_at t (eth.hex to) (L.entries s) +ℤ pos (suc n))
    record_transfer_moves ne =
        let m = L.entries s in
        let f = eth.hex from in
        let a = eth.hex to in
        let sorted = L.entries-IsSorted s in
        let apart : f ≢ a = λ e. ne (E.hex_injective from to e) in
        transferred
          (λ m'.
            (balance_at t f m' ≡ balance_at t f m -ℤ pos (suc n))
            × (balance_at t a m' ≡ balance_at t a m +ℤ pos (suc n)))
          (
            balance_at-moved n t f a m sorted _ b i _ f
                ∙ (sender-credited n t f a m sorted apart
                    ∙ sym (
                        ap (λ z. z -ℤ pos (suc n)) (balance_at-pos t f m h.book).0
                        ∙ -ℤ-pos _ (suc n) covered)),
            balance_at-moved n t f a m sorted _ b i _ a
                ∙ (receiver-credited n t f a m sorted
                    ∙ (ap pos (omega (arith, before-ne n t f a m sorted apart))
                        ∙ sym (
                            ap (λ z. z +ℤ pos (suc n)) (balance_at-pos t a m h.book).0
                            ∙ +ℤ-pos _ (suc n)))),
          )

    -- On a reliable database and the ledger of a token, a transfer of a positive amount that an
    -- address has, to the same address, returns and leaves its balance alone.
    pub record_transfer_self :
        from ≡ to
        → Returns
            (record_transfer db eth t from to (pos (suc n)) event_type tx b i s)
            λ s'. balance_at t (eth.hex to) (L.entries s') ≡ balance_at t (eth.hex to) (L.entries s)
    record_transfer_self e =
        let m = L.entries s in
        let f = eth.hex from in
        let a = eth.hex to in
        let sorted = L.entries-IsSorted s in
        let same : f ≡ a = ap (λ x. eth.hex x) e in
        let rest : before n t f a m ≡ pos_part (balance_at t f m) - suc n =
          ap (λ c. before n t f c m) (sym same)
          ∙ ap pos_part (Debit.balance_at-debited t f m sorted _) in
        transferred (λ m'. balance_at t a m' ≡ balance_at t a m)
          (balance_at-moved n t f a m sorted _ b i _ a
            ∙ (receiver-credited n t f a m sorted
                ∙ (ap pos (omega (arith, rest, covered))
                    ∙ (sym (balance_at-pos t f m h.book).0 ∙ ap (λ c. balance_at t c m) same))))
