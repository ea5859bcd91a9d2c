-- ===== src/Indexer/Sync/Refinement.antt =====
-- The chunk loop of `backfill` and `pollNewBlocks`, and the holdings that the fetched logs lead to.
use agro_diamond_compliance.Prelude.{
  ℕ, zero, suc, ◌%◌, ◌≤◌, Bool, true, if◌then◌else◌, Option, none, false, ltb, arith, ◌+◌, ◌^◌, ◌<◌,
  ◌≡◌, refl, ap, ◌∙◌, some, List, [], ◌∷◌,
}
use agro_diamond_compliance.Action.{Outcome, pure, Returns, logged, ok, ◌>>◌}
use agro_diamond_compliance.Config.{Config, all_addresses}
use agro_diamond_compliance.Ethereum.{Ethereum, IsLawful}
use agro_diamond_compliance.Node.{Log, Node, reply}
use agro_diamond_compliance.Action.Returning.{then-Returns}
use agro_diamond_compliance.RocksDb.{RocksDb, IsReliable}
use agro_diamond_compliance.Store.Cursor.{get_cursor, set_cursor}
use agro_diamond_compliance.Store.Ledger.Quiet.{logged-IsSilent}
use agro_diamond_compliance.Store.Ledger.Holdings.{Holdings}
use agro_diamond_compliance.Indexer.Dispatch.{handle_logs}
use agro_diamond_compliance.Indexer.Dispatch.Frame.{set_cursor-IsQuiet}
use agro_diamond_compliance.Indexer.Replay.{IsDistinct, Leads}
use agro_diamond_compliance.Indexer.Replay.Moves.{IsAt, keeps}
use agro_diamond_compliance.Indexer.Replay.Histories.{handle_logs-refines}
use agro_diamond_compliance.Indexer.Sync.{
  logs, fetch, fetch_chunks, polled, poll_new_blocks, chunks, first_block, backfill, backfill_from,
  backfill_to, backfill_range, all_chunks, with_cursor,
}
use agro_diamond_compliance.Indexer.Sync.Chunks.{chunks-past, chunks-step, last_block}
use agro_diamond_compliance.Indexer.Sync.Polling.{poll_new_blocks_lem, poll_on, cursor_or_zero_lem}

otherwise : {A : Type 0} (b : Bool) (x y : A) → b ≡ false → (if b then x else y) ≡ y
otherwise true x y h = cc
otherwise false x y h = refl

module _ (db : RocksDb) (L : IsReliable db) (eth : Ethereum) (E : IsLawful eth) (D : IsDistinct eth)
    (cfg : Config) (node : Node) where
  open db use {State}

  abbrev Follow : Holdings → List Log → Holdings → Type 0
  Follow = Leads db L eth cfg.diamond_address (some node)

  abbrev At : Holdings → State → Type 0
  At = IsAt db L eth E cfg.diamond_address (some node)

  -- The blocks from `from` to `latest`, 1001 at a time, are fetched within the tries, and the logs
  -- lead from some holdings to others.
  pub data Fetched (latest : ℕ) : ℕ → Holdings → Holdings → Type 0 where
    past : (from : ℕ) (f : Holdings) → latest < from → Fetched latest from f f
    next :
        (from to : ℕ) (f g h : Holdings) (found : List Log)
        → from ≤ latest
        → to ≡ (if ltb latest (from + 1000) then latest else from + 1000)
        → fetch node (all_addresses cfg) from to 0 5 ≡ logs found
        → Follow f found g
        → Fetched latest (from + 1001) g h
        → Fetched latest from f h

  -- The same for a list of ranges.
  data FetchedIn : Holdings → List (ℕ × ℕ) → Holdings → Type 0 where
    no_more : (f : Holdings) → FetchedIn f [] f
    then_more :
        (f g h : Holdings) (from to : ℕ) (more : List (ℕ × ℕ)) (found : List Log)
        → fetch node (all_addresses cfg) from to 0 5 ≡ logs found
        → Follow f found g
        → FetchedIn g more h
        → FetchedIn f ((from, to) ∷ more) h

  -- The fuel of the loop is enough, and its ranges are those.
  chunks-FetchedIn :
      (latest fuel from : ℕ) (f g : Holdings)
      → latest + 1001 < 2 ^ 64
      → latest < from + fuel
      → Fetched latest from f g
      → (ranges : List (ℕ × ℕ)) × (chunks (suc fuel) from latest ≡ some ranges)
        × FetchedIn f ranges g
  chunks-FetchedIn latest fuel from f _ small enough (past _ _ h) =
      ([], chunks-past fuel from latest h, no_more f)
  chunks-FetchedIn latest zero from f g small enough (next _ to _ h _ found more cut e leads rest) =
      absurd (omega arith)
  chunks-FetchedIn latest (suc fuel) from f g small enough
        (next _ to _ h _ found more cut e leads rest) =
      let (ranges, split, fetched) =
        chunks-FetchedIn latest fuel (from + 1001) h g small (omega arith) rest in
      let on : (from + 1001) % 2 ^ 64 ≡ from + 1001 = ground arith in
      let end : last_block from latest ≡ to = ground arith in
      (
        (from, to) ∷ ranges,
        chunks-step (suc fuel) from latest more ∙ (rw (on, split, end) refl),
        then_more f h g from to ranges found e leads fetched,
      )

  fetch_chunks-step :
      (from to : ℕ) (more : List (ℕ × ℕ)) (found : List Log) (s : State)
      → fetch node (all_addresses cfg) from to 0 5 ≡ logs found
      → fetch_chunks db eth cfg node ((from, to) ∷ more) s
        ≡ (handle_logs db eth cfg.diamond_address (some node) found
              >> fetch_chunks db eth cfg node more)
            s
  unfolding fetch_chunks
  fetch_chunks-step from to more found s e = rw (fetch_chunks, e) refl

  -- On a reliable database whose rows are the ledgers and the balances of some holdings, where the
  -- hashes of the signatures differ: when each range is fetched within the tries and its logs lead
  -- on, the chunk loop returns, and the rows are the ledgers and the balances of the holdings
  -- behind the last range.
  fetch_chunks-refines :
      (f g : Holdings) (ranges : List (ℕ × ℕ)) (s : State)
      → FetchedIn f ranges g
      → IsAt db L eth E cfg.diamond_address (some node) f s
      → Returns
          (fetch_chunks db eth cfg node ranges s)
          (IsAt db L eth E cfg.diamond_address (some node) g)
  fetch_chunks-refines _ _ _ s (no_more f) at = unfold fetch_chunks in at
  fetch_chunks-refines _ _ _ s (then_more f g h from to more found e leads fetched) at =
      rw (fetch_chunks-step from to more found s e) (
        then-Returns (handle_logs db eth cfg.diamond_address (some node) found s)
          (fetch_chunks db eth cfg node more) (At g) (At h) s
          (handle_logs-refines db L eth E cfg.diamond_address (some node) D f g found s leads at)
          λ s' at'. fetch_chunks-refines g h more s' fetched at')

  -- The cursor is written behind the logs of a poll.
  polled-refines :
      (f g : Holdings) (latest : ℕ) (found : List Log) (s : State)
      → Follow f found g
      → At f s
      → Returns (polled db eth cfg node latest (reply found) s) (At g)
  unfolding polled
  polled-refines f g latest found s leads at =
      then-Returns (handle_logs db eth cfg.diamond_address (some node) found s)
        (logged (set_cursor db latest)) (At g) (At g) s
        (handle_logs-refines db L eth E cfg.diamond_address (some node) D f g found s leads at)
        λ s' at'.
          keeps db L eth E cfg.diamond_address (some node) g (logged (set_cursor db latest)) s' at'
            (logged-IsSilent db L (set_cursor db latest)
              (set_cursor-IsQuiet db L eth cfg.diamond_address (some node) latest))

  -- On a reliable database whose rows are the ledgers and the balances of some holdings, where the
  -- hashes of the signatures differ: a poll whose cursor is positive and below the latest block, a
  -- `uint64`, and which gets logs that lead to other holdings (positive, covered moves with their
  -- `Minted`, `Burned` or `TransferSingle` logs, and logs of other signatures that do not make
  -- their handler panic, but no `TransferBatch` and no mint or burn that only `TransferSingle`
  -- reports), returns, and the rows are the ledgers and the balances of those.
  pub poll_new_blocks-refines :
      (f g : Holdings) (latest cursor : ℕ) (found : List Log) (s : State)
      → node.block_number ≡ reply latest
      → get_cursor db s ≡ ok (suc cursor) s
      → suc cursor < latest
      → latest < 2 ^ 64
      → node.filter_logs 0 (cursor + 2) latest (all_addresses cfg) ≡ reply found
      → Leads db L eth cfg.diamond_address (some node) f found g
      → IsAt db L eth E cfg.diamond_address (some node) f s
      → Returns
          (poll_new_blocks db eth cfg node s)
          (IsAt db L eth E cfg.diamond_address (some node) g)
  poll_new_blocks-refines f g latest cursor found s e known more small answer leads at =
      rw
        (poll_new_blocks_lem db L eth cfg node latest (suc cursor) s e known
          ∙ (poll_on db L eth cfg node latest cursor s more small
              ∙ ap (λ r. polled db eth cfg node latest r s) answer))
        (polled-refines f g latest found s leads at)

  -- The run ends, and returns in a state with a property.
  abbrev pub EndsIn : Option (Outcome State (Unit {0})) → (State → Type 0) → Type 0
  EndsIn none P = ⊥
  EndsIn (some o) P = Returns o P

  -- The steps of `backfill` up to the loop over the ranges.
  backfill_from_lem :
      (n latest : ℕ) (ranges : List (ℕ × ℕ))
      → node.block_number ≡ reply latest
      → suc n ≤ latest
      → chunks (suc latest) (suc n) latest ≡ some ranges
      → backfill_from db eth cfg node (suc n) ≡ some (fetch_chunks db eth cfg node ranges)
  unfolding backfill_from backfill_to backfill_range all_chunks
  backfill_from_lem n latest ranges e more cut =
      let past : ltb latest (suc n) ≡ false = ground arith in
      ap (backfill_to db eth cfg node (suc n)) e
      ∙ (otherwise (ltb latest (suc n)) (some (pure tt))
            (backfill_range db eth cfg node (suc n) latest) past
          ∙ ap (all_chunks db eth cfg node) cut)

  -- On a reliable database whose rows are the ledgers and the balances of some holdings, where the
  -- hashes of the signatures differ: a backfill whose first block is positive and at most the
  -- latest one, which is at least 1001 below 2^64, and which fetches the blocks between them, 1001
  -- at a time, within the tries, with logs that lead on from the holdings (positive, covered moves
  -- with their `Minted`, `Burned` or `TransferSingle` logs, and logs of other signatures that do
  -- not make their handler panic, but no `TransferBatch` and no mint or burn that only
  -- `TransferSingle` reports), ends and returns, and the rows are the ledgers and the balances of
  -- the holdings behind the last log.
  pub backfill-refines :
      (f g : Holdings) (cursor n latest : ℕ) (s : State)
      → get_cursor db s ≡ ok cursor s
      → first_block cfg.start_block cursor ≡ suc n
      → node.block_number ≡ reply latest
      → suc n ≤ latest
      → latest + 1001 < 2 ^ 64
      → Fetched latest (suc n) f g
      → IsAt db L eth E cfg.diamond_address (some node) f s
      → EndsIn (backfill db eth cfg node s) (IsAt db L eth E cfg.diamond_address (some node) g)
  unfolding backfill with_cursor
  backfill-refines f g cursor n latest s known start e more small fetched at =
      let (ranges, cut, fetched_in) =
        chunks-FetchedIn latest latest (suc n) f g small (omega arith) fetched in
      rw
        (
          cursor_or_zero_lem db L eth cfg node cursor s known,
          start,
          backfill_from_lem n latest ranges e more cut,
        )
        (fetch_chunks-refines f g ranges s fetched_in at)
