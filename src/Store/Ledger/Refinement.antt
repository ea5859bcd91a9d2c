-- ===== src/Store/Ledger/Refinement.antt =====
-- `RecordMint`, `RecordBurn` and `RecordTransfer` next to the moves of units.
use agro_diamond_compliance.Prelude.{ℕ, suc, ◌<◌, ◌≤◌, ◌≡◌, ◌≢◌, ap, subst, arith}
use native.Mathlib.Decide.{ℕ_discrete}
use agro_diamond_compliance.Prelude.Int.{pos, pos_part}
use agro_diamond_compliance.Bytes.{Bytes}
use agro_diamond_compliance.Bytes.Decimal.{format_uint}
use agro_diamond_compliance.Action.{Outcome, Returns}
use agro_diamond_compliance.Ethereum.{Ethereum, IsLawful}
use agro_diamond_compliance.Action.Returning.{Returns-map, Returns-both, Returns-all}
use agro_diamond_compliance.RocksDb.{RocksDb, IsReliable}
use agro_diamond_compliance.Store.Ledger.{record_mint, record_burn, record_transfer}
use agro_diamond_compliance.Store.Ledger.Steps.{balance_at}
use agro_diamond_compliance.Store.Ledger.Rows.{IsLedger}
use agro_diamond_compliance.Store.Ledger.Mint.{record_mint-minted, record_mint-IsLedger}
use agro_diamond_compliance.Store.Ledger.Burn.{record_burn-burnt, record_burn-IsLedger}
use agro_diamond_compliance.Store.Ledger.Transfer.{
  credited-IsSorted, transferred, record_transfer-IsLedger,
}
use agro_diamond_compliance.Store.Ledger.Others.{
  record_mint-others, record_burn-others, record_transfer-others,
}
use agro_diamond_compliance.Store.Ledger.Holdings.{
  Holdings, mint, burn, transfer, move_units, Tracks, AreBalances, format_uint-IsPlain,
  format_uint_injective, AreBalances-settled, minted-AreBalances, burnt-AreBalances,
  credited-AreBalances,
}

module _ (db : RocksDb) (L : IsReliable db) (eth : Ethereum) (E : IsLawful eth) where
  abbrev AreLedgers : db.State → Type 0
  AreLedgers s = (k : ℕ) → IsLedger (format_uint k) (L.entries s)

  -- A call that keeps the ledger of its token and those of the others keeps all.
  all_ledgers :
      (o : Outcome db.State (Unit {0})) (k : ℕ)
      → Returns o (λ s. IsLedger (format_uint k) (L.entries s))
      → ((u : ℕ)
          → format_uint k ≢ format_uint u
          → Returns o (λ s. IsLedger (format_uint u) (L.entries s)))
      → Returns o AreLedgers
  all_ledgers o k own others =
      Returns-all o (λ u s. IsLedger (format_uint u) (L.entries s))
        λ u. elim (ℕ_discrete k u) [
          | yes e ↦ subst (λ x. Returns o (λ s. IsLedger (format_uint x) (L.entries s))) e own
          | no ne ↦ others u (λ e. ne (format_uint_injective k u e))
        ]

  together :
      (o : Outcome db.State (Unit {0})) (f : Holdings)
      → Returns o AreLedgers
      → Returns o (λ s. AreBalances eth E f (L.entries s))
      → Returns o (λ s. Tracks eth E f (L.entries s))
  together o f h k =
      Returns-map o _ (λ s. Tracks eth E f (L.entries s))
        (λ s (l, b). record { ledger = l; balance = b })
        (Returns-both o AreLedgers (λ s. AreBalances eth E f (L.entries s)) h k)

  module _ (f : Holdings) (tx : Bytes) (b i : ℕ) (s : db.State)
      (h : Tracks eth E f (L.entries s)) where
    units :
        (k : ℕ) (a : Bytes)
        → pos_part (balance_at (format_uint k) (eth.hex a) (L.entries s)) ≡ f k a
    units k a = ap pos_part (h.balance k a)

    pub record_mint-Tracks :
        (k : ℕ) (to : Bytes) (n : ℕ)
        → Returns
            (record_mint db eth (format_uint k) to (pos (suc n)) tx b i s)
            λ s'. Tracks eth E (move_units (mint k to (suc n)) f) (L.entries s')
    record_mint-Tracks k to n =
        let o = record_mint db eth (format_uint k) to (pos (suc n)) tx b i s in
        together o (move_units (mint k to (suc n)) f)
          (all_ledgers o k
            (Returns-map o _ _ (λ s' p. p.0)
              (record_mint-IsLedger db L eth E (format_uint k) to n tx b i s (format_uint-IsPlain k)
                (h.ledger k)))
            λ u ne.
              record_mint-others db L eth E (format_uint k) (format_uint u) to (pos (suc n)) tx b i
                s (format_uint-IsPlain k) (format_uint-IsPlain u) ne (h.ledger k) (h.ledger u))
          (record_mint-minted db L eth E (format_uint k) to n tx b i s (h.ledger k)
            (AreBalances eth E (move_units (mint k to (suc n)) f))
            (minted-AreBalances eth E f (L.entries s) k to n (h.ledger k).meta b i _
              (L.entries-IsSorted s) h.balance))

    pub record_burn-Tracks :
        (k : ℕ) (from : Bytes) (n : ℕ)
        → n ≤ f k from
        → 0 < f k from
        → Returns
            (record_burn db eth (format_uint k) from (pos n) tx b i s)
            λ s'. Tracks eth E (move_units (burn k from n) f) (L.entries s')
    record_burn-Tracks k from n covered holds =
        let o = record_burn db eth (format_uint k) from (pos n) tx b i s in
        let same = units k from in
        together o (move_units (burn k from n) f)
          (all_ledgers o k
            (Returns-map o _ _ (λ s' p. p.0)
              (record_burn-IsLedger db L eth E (format_uint k) from n tx b i s
                (format_uint-IsPlain k) (h.ledger k) (omega arith) (omega arith)))
            λ u ne.
              record_burn-others db L eth E (format_uint k) (format_uint u) from (pos n) tx b i s
                (format_uint-IsPlain k) (format_uint-IsPlain u) ne (h.ledger k) (h.ledger u))
          (record_burn-burnt db L eth E (format_uint k) from n tx b i s (h.ledger k) (omega arith)
            (AreBalances eth E (move_units (burn k from n) f))
            (burnt-AreBalances eth E f (L.entries s) k from n (h.ledger k).meta b i _
              (L.entries-IsSorted s) h.balance))

    pub record_transfer-Tracks :
        (k : ℕ) (from to : Bytes) (n : ℕ) (event_type : Bytes)
        → suc n ≤ f k from
        → Returns
            (record_transfer db eth (format_uint k) from to (pos (suc n)) event_type tx b i s)
            λ s'. Tracks eth E (move_units (transfer k from to (suc n)) f) (L.entries s')
    record_transfer-Tracks k from to n event_type covered =
        let o = record_transfer db eth (format_uint k) from to (pos (suc n)) event_type tx b i s in
        let same = units k from in
        let there : suc n ≤ pos_part (balance_at (format_uint k) (eth.hex from) (L.entries s)) =
          omega arith in
        let sorted = L.entries-IsSorted s in
        together o (move_units (transfer k from to (suc n)) f)
          (all_ledgers o k
            (Returns-map o _ _ (λ s' p. p.0)
              (record_transfer-IsLedger db L eth E (format_uint k) from to n event_type tx b i s
                (h.ledger k) there (format_uint-IsPlain k)))
            λ u ne.
              record_transfer-others db L eth E (format_uint k) (format_uint u) from to
                (pos (suc n)) event_type tx b i s (format_uint-IsPlain k) (format_uint-IsPlain u) ne
                (h.ledger k) (h.ledger u))
          (transferred db L eth E (format_uint k) from to n event_type tx b i s (h.ledger k) there
            (AreBalances eth E (move_units (transfer k from to (suc n)) f))
            (AreBalances-settled eth E _ _
              (credited-IsSorted n (format_uint k) (eth.hex from) (eth.hex to) (L.entries s) sorted)
              (credited-AreBalances eth E f (L.entries s) k from to n sorted h.balance) _ b i _))
