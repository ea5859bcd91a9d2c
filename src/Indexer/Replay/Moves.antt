-- ===== src/Indexer/Replay/Moves.antt =====
-- `handleLog` on one log, and the move of units that the log reports.
use agro_diamond_compliance.Prelude.{
  ℕ, zero, suc, ◌<◌, ◌≡◌, ◌≢◌, refl, ap, ◌∙◌, true, Option, List, ◌∷◌, arith, bytes_eq, inl, inr,
  ◌==◌, ◌||◌, false, ◌⊎◌,
}
use agro_diamond_compliance.Prelude.Int.{pos}
use agro_diamond_compliance.Bytes.{Bytes, codes}
use agro_diamond_compliance.Bytes.Decimal.{format_uint}
use agro_diamond_compliance.Action.{Action, Returns, logged}
use agro_diamond_compliance.Action.Returning.{Returns-map, logged-Returns, then-Returns}
use agro_diamond_compliance.Ethereum.{Ethereum, IsLawful, zero_address}
use agro_diamond_compliance.Node.{Log, Node}
use agro_diamond_compliance.RocksDb.{RocksDb, IsReliable}
use agro_diamond_compliance.Store.Cursor.{set_cursor}
use agro_diamond_compliance.Store.Tokens.{balance_of_value}
use agro_diamond_compliance.Store.Ledger.Quiet.{Unmoved, IsSilent, logged-IsSilent}
use agro_diamond_compliance.Store.Ledger.Holdings.{
  Holdings, Move, mint, burn, transfer, move_units, IsCovered, Tracks,
}
use agro_diamond_compliance.Store.Ledger.Refinement.{
  record_mint-Tracks, record_burn-Tracks, record_transfer-Tracks,
}
use agro_diamond_compliance.Store.Ledger.{record_mint, record_burn, record_transfer}
use agro_diamond_compliance.Indexer.Abi.{set_bytes, has_bytes, word0, word1, decimal}
use agro_diamond_compliance.Indexer.Transfers.{
  handle_minted, handle_burned, handle_transfer_single, transfer_single,
}
use agro_diamond_compliance.Indexer.Dispatch.{
  handle_log, handlers, dispatch, handle_topics, minted_sig, burned_sig, forced_transfer_sig,
  transfer_single_sig,
}
use agro_diamond_compliance.Indexer.Dispatch.Cursor.{handle_log_lem, handle_log-anonymous}
use agro_diamond_compliance.Indexer.Dispatch.Frame.{
  dispatch-hit, dispatch-miss, set_cursor-IsQuiet, handle_log-Unmoved,
}
use agro_diamond_compliance.Indexer.Transfers.Branches.{handle_transfer_single-skips}
use agro_diamond_compliance.Indexer.Replay.{
  IsDistinct, Reports, minted, burned, transferred, IsIdle, Announces, of_mint, of_burn,
}

module _ (db : RocksDb) (L : IsReliable db) (eth : Ethereum) (E : IsLawful eth) (diamond : Bytes)
    (client : Option Node) where
  open db use {State}

  abbrev pub IsAt : Holdings → State → Type 0
  IsAt f s = Tracks eth E f (L.entries s)

  pub IsAt-Unmoved : (f : Holdings) (s s' : State) → IsAt f s → Unmoved db L s s' → IsAt f s'
  IsAt-Unmoved f s s' h u = record {
    ledger = λ k. u.ledgers (format_uint k) (h.ledger k);
    balance = λ k a. ap balance_of_value (u.rows (format_uint k) (eth.hex a)) ∙ h.balance k a;
  }

  pub keeps :
      (f : Holdings) (m : Action State (Unit {0})) (s : State)
      → IsAt f s
      → IsSilent db L m
      → Returns (m s) (IsAt f)
  keeps f m s h silent = Returns-map (m s) _ (IsAt f) (λ s'. IsAt-Unmoved f s s' h) (silent s)

  -- The cursor is written behind the handler.
  topics-IsAt :
      (sig : Bytes) (topics : List Bytes) (log : Log) (s : State) (g : Holdings)
      → log.topics ≡ sig ∷ topics
      → Returns
          (dispatch db eth diamond client (handlers db eth diamond client) sig (sig ∷ topics) log s)
          (IsAt g)
      → Returns (handle_log db eth diamond client log s) (IsAt g)
  unfolding handle_topics
  topics-IsAt sig topics log s g e h =
      rw (handle_log_lem db L eth diamond client (sig ∷ topics) log s e) (
        then-Returns _ (logged (set_cursor db log.block_number)) (IsAt g) (IsAt g) s h λ s' at.
          keeps g (logged (set_cursor db log.block_number)) s' at (
            logged-IsSilent db L (set_cursor db log.block_number)
              (set_cursor-IsQuiet db L eth diamond client log.block_number)))

  -- The handlers on the logs that they are for.
  minted-IsAt :
      (f : Holdings) (sig id to : Bytes) (more : List Bytes) (log : Log) (s : State) (n : ℕ)
      → set_bytes log.bytes ≡ n
      → 0 < n
      → IsAt f s
      → Returns
          (handle_minted db eth (sig ∷ id ∷ to ∷ more) log s)
          (IsAt (move_units (mint (set_bytes id) (eth.bytes_to_address to) n) f))
  unfolding handle_minted
  minted-IsAt f sig id to more log s zero e some h = absurd (omega arith)
  minted-IsAt f sig id to more log s (suc n) e some h =
      let a = eth.bytes_to_address to in
      let o =
        record_mint db eth (decimal id) a (pos (suc n)) log.tx_hash log.block_number log.index s in
      rw e (
        logged-Returns o (IsAt (move_units (mint (set_bytes id) a (suc n)) f)) s (
          record_mint-Tracks db L eth E f log.tx_hash log.block_number log.index s h (set_bytes id)
            a n))

  burned-IsAt :
      (f : Holdings) (sig id from : Bytes) (more : List Bytes) (log : Log) (s : State)
      → IsCovered (burn (set_bytes id) (eth.bytes_to_address from) (set_bytes log.bytes)) f
      → IsAt f s
      → Returns (handle_burned db eth (sig ∷ id ∷ from ∷ more) log s) (
          IsAt
            (move_units (burn (set_bytes id) (eth.bytes_to_address from) (set_bytes log.bytes)) f))
  unfolding handle_burned
  burned-IsAt f sig id from more log s (covered, holds) h =
      let a = eth.bytes_to_address from in
      let n = set_bytes log.bytes in
      let o = record_burn db eth (decimal id) a (pos n) log.tx_hash log.block_number log.index s in
      logged-Returns o (IsAt (move_units (burn (set_bytes id) a n) f)) s (
        record_burn-Tracks db L eth E f log.tx_hash log.block_number log.index s h (set_bytes id) a
          n covered holds)

  transfer_single-IsAt :
      (f : Holdings) (from to : Bytes) (log : Log) (s : State) (n : ℕ)
      → from ≢ zero_address
      → to ≢ zero_address
      → set_bytes (word1 log.bytes) ≡ n
      → IsCovered (transfer (set_bytes (word0 log.bytes)) from to n) f
      → IsAt f s
      → Returns
          (transfer_single db eth from to log s)
          (IsAt (move_units (transfer (set_bytes (word0 log.bytes)) from to n) f))
  transfer_single-IsAt f from to log s zero no_mint no_burn e (some, covered) h =
      absurd (omega arith)
  transfer_single-IsAt f from to log s (suc n) no_mint no_burn e (some, covered) h =
      let k = set_bytes (word0 log.bytes) in
      let kind = codes "transfer" in
      let o =
        record_transfer db eth (format_uint k) from to (pos (suc n)) kind log.tx_hash
          log.block_number log.index s in
      let both : (from == zero_address || to == zero_address) ≡ false = ground arith in
      unfold transfer_single in
      rw (both, e)
        (logged-Returns o (IsAt (move_units (transfer k from to (suc n)) f)) s (
          record_transfer-Tracks db L eth E f log.tx_hash log.block_number log.index s h k from to n
            kind covered))

  single-IsAt :
      (f : Holdings) (sig operator from to : Bytes) (more : List Bytes) (log : Log) (s : State)
      → has_bytes 64 log.bytes ≡ true
      → eth.bytes_to_address from ≢ zero_address
      → eth.bytes_to_address to ≢ zero_address
      → let move =
          transfer
            (set_bytes (word0 log.bytes))
            (eth.bytes_to_address from)
            (eth.bytes_to_address to)
            (set_bytes (word1 log.bytes)) in
        IsCovered move f
        → IsAt f s
        → Returns
            (handle_transfer_single db eth (sig ∷ operator ∷ from ∷ to ∷ more) log s)
            (IsAt (move_units move f))
  unfolding handle_transfer_single
  single-IsAt f sig operator from to more log s long no_mint no_burn covered h = rw long (
      transfer_single-IsAt f (eth.bytes_to_address from) (eth.bytes_to_address to) log s _ no_mint
        no_burn refl covered h)

  module _ (D : IsDistinct eth) where
    -- Such a log returns, and leaves the holdings that the move that it reports leads to.
    pub handle_log-IsAt :
        (f : Holdings) (log : Log) (move : Move) (s : State)
        → Reports eth log move
        → IsCovered move f
        → IsAt f s
        → Returns (handle_log db eth diamond client log s) (IsAt (move_units move f))
    unfolding handlers
    handle_log-IsAt f log _ s (minted id to more e) covered h = topics-IsAt _ _ log s _ e (
        rw (dispatch-hit db L eth diamond client minted_sig _ _ _ _ log s refl)
          (minted-IsAt f _ id to more log s _ refl covered h))
    handle_log-IsAt f log _ s (burned id from more e) covered h = topics-IsAt _ _ log s _ e (
        rw
          (
            dispatch-miss db L eth diamond client minted_sig _ _ _ _ log s D.burn_mint,
            dispatch-hit db L eth diamond client burned_sig _ _ _ _ log s refl,
          )
          (burned-IsAt f _ id from more log s covered h))
    handle_log-IsAt f log _ s (transferred operator from to more e long no_mint no_burn) covered h =
        topics-IsAt _ _ log s _ e (
          rw
            (
              dispatch-miss db L eth diamond client minted_sig _ _ _ _ log s D.transfer_mint,
              dispatch-miss db L eth diamond client burned_sig _ _ _ _ log s D.transfer_burn,
              dispatch-miss db L eth diamond client forced_transfer_sig _ _ _ _ log s
                  D.transfer_forced,
              dispatch-hit db L eth diamond client transfer_single_sig _ _ _ _ log s refl,
            )
            (single-IsAt f _ operator from to more log s long no_mint no_burn covered h))

    -- The `TransferSingle` log of a mint or a burn leaves the holdings as they are.
    skipped :
        (f : Holdings) (log : Log) (operator from to : Bytes) (more : List Bytes) (s : State)
        → log.topics ≡ eth.keccak256_hash transfer_single_sig ∷ operator ∷ from ∷ to ∷ more
        → (eth.bytes_to_address from ≡ zero_address) ⊎ (eth.bytes_to_address to ≡ zero_address)
        → IsAt f s
        → Returns (handle_log db eth diamond client log s) (IsAt f)
    unfolding handlers
    skipped f log operator from to more s e end h = topics-IsAt _ _ log s _ e (
        rw
          (
            dispatch-miss db L eth diamond client minted_sig _ _ _ _ log s D.transfer_mint,
            dispatch-miss db L eth diamond client burned_sig _ _ _ _ log s D.transfer_burn,
            dispatch-miss db L eth diamond client forced_transfer_sig _ _ _ _ log s
                D.transfer_forced,
            dispatch-hit db L eth diamond client transfer_single_sig _ _ _ _ log s refl,
            handle_transfer_single-skips db eth _ operator from to more log s end,
          )
          h)

    pub handle_log-announced :
        (f : Holdings) (log : Log) (move : Move) (s : State)
        → Announces eth log move
        → IsAt f s
        → Returns (handle_log db eth diamond client log s) (IsAt f)
    handle_log-announced f log _ s (of_mint operator from to more e end) h =
        skipped f log operator from to more s e (inl end) h
    handle_log-announced f log _ s (of_burn operator from to more e end) h =
        skipped f log operator from to more s e (inr end) h

  -- A log that reports no move leaves the holdings as they are.
  pub handle_log-idle :
      (f : Holdings) (log : Log) (s : State)
      → IsIdle db L eth diamond client log
      → IsAt f s
      → Returns (handle_log db eth diamond client log s) (IsAt f)
  handle_log-idle f log s (inl e) h = rw (handle_log-anonymous db L eth diamond client log s e) h
  handle_log-idle f log s (inr (sig, topics, e, single, batch, other)) h =
      keeps f (handle_log db eth diamond client log) s h
        (λ s'. handle_log-Unmoved db L eth diamond client sig topics log s' e other)
