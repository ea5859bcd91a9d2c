-- ===== src/Indexer/Dispatch/Mints.antt =====
-- `handleLog` on a `Minted` log, from the topics to the rows of the ledger.
use agro_diamond_compliance.Prelude.{
  ℕ, suc, ◌+◌, ◌^◌, ◌<◌, ◌≡◌, refl, ◌∙◌, Option, List, ◌∷◌, arith, bytes_eq,
}
use agro_diamond_compliance.Prelude.Int.{pos, ◌+ℤ◌}
use agro_diamond_compliance.Bytes.{Bytes}
use agro_diamond_compliance.Bytes.Decimal.{format_uint-IsDigits, IsDigits-IsPlain}
use agro_diamond_compliance.Action.{Outcome, Returns, ok, err, panic, logged}
use agro_diamond_compliance.Ethereum.{Ethereum, IsLawful}
use agro_diamond_compliance.Node.{Log, Node}
use agro_diamond_compliance.RocksDb.{RocksDb, IsReliable}
use agro_diamond_compliance.Store.Keys.{prefix_cursor}
use agro_diamond_compliance.Store.Cursor.{get_cursor}
use agro_diamond_compliance.Store.Cursor.RoundTrip.{get_cursor-write}
use agro_diamond_compliance.Store.Ledger.{record_mint}
use agro_diamond_compliance.Store.Ledger.Steps.{balance_at}
use agro_diamond_compliance.Store.Ledger.Rows.{supply_in, IsLedger, supply_in-insert}
use agro_diamond_compliance.Store.Ledger.Frame.{cursor-IsForeign, IsLedger-insert}
use agro_diamond_compliance.Store.Ledger.Mint.{record_mint-IsLedger}
use agro_diamond_compliance.Indexer.Abi.{set_bytes, decimal}
use agro_diamond_compliance.Indexer.Transfers.{handle_minted}
use agro_diamond_compliance.Indexer.Dispatch.{Handler, handle_log, handlers, dispatch, minted_sig}
use agro_diamond_compliance.Indexer.Dispatch.Cursor.{
  Dispatched, cursor_at, handle_log_lem, with_topics_lem,
}

-- The state of an action that returns.
returned :
    {S A : Type 0} (o : Outcome S A) (P : S → Type 0)
    → Returns o P
    → (a : A) × (s : S) × (o ≡ ok a s) × P s
returned (ok a s) P h = (a, s, refl, h)
returned (err _ _) P h = elim h [ ]
returned (panic _) P h = elim h [ ]

module _ (db : RocksDb) (L : IsReliable db) (eth : Ethereum) (E : IsLawful eth) (diamond : Bytes)
    (client : Option Node) where
  dispatch-first :
      (name : Bytes) (handler : Handler db eth diamond client)
      (rest : List (Bytes × Handler db eth diamond client)) (topics : List Bytes) (log : Log)
      (s : db.State)
      → dispatch db eth diamond client
          ((name, handler) ∷ rest)
          (eth.keccak256_hash name)
          topics
          log
          s
        ≡ handler topics log s
  unfolding dispatch
  dispatch-first name handler rest topics log s = ground arith

  dispatch-minted :
      (topics : List Bytes) (log : Log) (s : db.State)
      → Dispatched db L eth diamond client (eth.keccak256_hash minted_sig) topics log s
        ≡ handle_minted db eth (eth.keccak256_hash minted_sig ∷ topics) log s
  unfolding handlers
  dispatch-minted topics log s = dispatch-first minted_sig _ _ _ log s

  handle_minted_lem :
      (sig id to : Bytes) (more : List Bytes) (log : Log) (n : ℕ) (s s' : db.State)
      → set_bytes log.bytes ≡ n
      → record_mint db eth
          (decimal id)
          (eth.bytes_to_address to)
          (pos n)
          log.tx_hash
          log.block_number
          log.index
          s
        ≡ ok tt s'
      → handle_minted db eth (sig ∷ id ∷ to ∷ more) log s ≡ ok tt s'
  unfolding handle_minted
  handle_minted_lem sig id to more log n s s' amount e = rw (amount, logged, e) refl

  -- The row of the cursor is no row of a ledger.
  cursor_at-IsLedger :
      (t : Bytes) (k : ℕ) (s : db.State)
      → IsLedger t (L.entries s)
      → IsLedger t (L.entries (cursor_at db L eth diamond client k s))
        × (supply_in t (L.entries (cursor_at db L eth diamond client k s))
            ≡ supply_in t (L.entries s))
  cursor_at-IsLedger t k s h = simp L.entries-write (
    IsLedger-insert t prefix_cursor _ (L.entries s) (L.entries-IsSorted s) (cursor-IsForeign t) h,
    supply_in-insert t prefix_cursor _ (L.entries s) (L.entries-IsSorted s)
        (cursor-IsForeign t).no_holder,
  )

  -- On a reliable database and the ledger of its token, a `Minted` log of a positive amount and
  -- a `uint64` block returns, the ledger is kept, the supply has grown by the amount in the
  -- data, and the cursor is the block of the log.
  pub handle_log-minted :
      (id to : Bytes) (more : List Bytes) (log : Log) (n : ℕ) (s : db.State)
      → log.topics ≡ eth.keccak256_hash minted_sig ∷ id ∷ to ∷ more
      → set_bytes log.bytes ≡ suc n
      → log.block_number < 2 ^ 64
      → IsLedger (decimal id) (L.entries s)
      → Returns (handle_log db eth diamond client log s) λ s'.
        IsLedger (decimal id) (L.entries s')
        × (supply_in (decimal id) (L.entries s') ≡ supply_in (decimal id) (L.entries s) + suc n)
        × (get_cursor db s' ≡ ok log.block_number s')
  handle_log-minted id to more log n s e amount fits h =
      let t = decimal id in
      let rows = L.entries s in
      let a = eth.hex (eth.bytes_to_address to) in
      let o =
        record_mint db eth t (eth.bytes_to_address to) (pos (suc n)) log.tx_hash log.block_number
          log.index s in
      let (_, s', ran, (kept, grown, _)) =
        returned o
          (λ s''.
            IsLedger t (L.entries s'')
            × (supply_in t (L.entries s'') ≡ supply_in t rows + suc n)
            × (balance_at t a (L.entries s'') ≡ balance_at t a rows +ℤ pos (suc n)))
          (record_mint-IsLedger db L eth E t (eth.bytes_to_address to) n log.tx_hash
            log.block_number log.index s (IsDigits-IsPlain _ (format_uint-IsDigits _)) h) in
      let (kept', same) = cursor_at-IsLedger (decimal id) log.block_number s' kept in
      rw
        (
          handle_log_lem db L eth diamond client _ log s e,
          with_topics_lem db L eth diamond client (eth.keccak256_hash minted_sig) (id ∷ to ∷ more)
              log s s'
              (dispatch-minted (id ∷ to ∷ more) log s
                ∙ handle_minted_lem _ id to more log (suc n) s s' amount ran),
        )
        (kept', same ∙ grown, get_cursor-write db L log.block_number s' fits)
