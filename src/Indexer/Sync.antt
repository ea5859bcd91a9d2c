-- ===== src/Indexer/Sync.antt =====
-- `backfill`, `pollNewBlocks` and `Run`. Waiting is not modelled; the ticks of `Run` are a list.
pub mod Ends
pub mod Chunks
pub mod Retries
pub mod Polling
pub mod Refinement
pub mod Stuck
use agro_diamond_compliance.Prelude.{
  ℕ, zero, suc, ◌+◌, ◌%◌, ◌^◌, Bool, Option, none, some, List, [], ◌∷◌, ◌++◌, ltb, eqb, leb,
  if◌then◌else◌,
}
use agro_diamond_compliance.Prelude.Int.{ℤ}
use agro_diamond_compliance.Bytes.{Bytes, codes}
use agro_diamond_compliance.Bytes.Decimal.{format_uint}
use agro_diamond_compliance.Action.{
  Action, Outcome, Error, wrapped, ok, err, panic, logged, pure, raise, ◌>>=◌, ◌>>◌,
}
use agro_diamond_compliance.Config.{Config, all_addresses}
use agro_diamond_compliance.Ethereum.{Ethereum}
use agro_diamond_compliance.Node.{Log, Node, Reply, reply, failed}
use agro_diamond_compliance.RocksDb.{RocksDb}
use agro_diamond_compliance.Store.Cursor.{get_cursor, set_cursor}
use agro_diamond_compliance.Indexer.Assets.{enrich_assets}
use agro_diamond_compliance.Indexer.Dispatch.{handle_logs}

-- `cursor + 1` in a `uint64`.
unfoldable pub next_block : ℕ → ℕ
next_block n = (n + 1) % 2 ^ 64

-- max(StartBlock, cursor + 1), or StartBlock where there is no cursor.
unfoldable pub first_block : ℕ → ℕ → ℕ
unfolding next_block
first_block start cursor =
    if ltb 0 cursor
    then (if ltb start (next_block cursor) then next_block cursor else start)
    else start

-- The headers of the chunk loop: pairs (from, to). `none` means that the fuel ran out.
unfoldable pub chunks : ℕ → ℕ → ℕ → Option (List (ℕ × ℕ))
chunks zero from latest = none
chunks (suc fuel) from latest =
    let end = (from + 1000) % 2 ^ 64 in
    let to = if ltb latest end then latest else end in
    let rest = chunks fuel ((from + 1001) % 2 ^ 64) latest in
    if ltb latest from
    then some []
    else elim rest [ none ↦ none | some more ↦ some ((from, to) ∷ more) ]

-- What the loop of tries leaves: logs, or an error that ends the function.
pub data Logs : Type 0 where
  logs : List Log → Logs
  stop : Error → Logs

-- "backfill: FilterLogs(from-to) failed after 5 retries"
abbrev pub retries_text : ℕ → ℕ → Bytes
retries_text from to =
    codes "backfill: FilterLogs("
    ++ format_uint from
    ++ codes "-"
    ++ format_uint to
    ++ codes ") failed after 5 retries"

-- The tries from `attempt` on, with `left` more after this one. The waiting is left out.
unfoldable pub fetch : Node → List Bytes → ℕ → ℕ → ℕ → ℕ → Logs
fetch node addresses from to attempt zero = elim (node.filter_logs attempt from to addresses) [
  | reply found ↦ logs found
  | failed e ↦ elim (node.cancelled attempt) [
    | failed cause ↦ stop cause
    | reply _ ↦ stop (wrapped (retries_text from to) e)
  ]
]
fetch node addresses from to attempt (suc left) =
    let again = fetch node addresses from to (suc attempt) left in
    elim (node.filter_logs attempt from to addresses) [
      | reply found ↦ logs found
      | failed e ↦ elim (node.cancelled attempt) [ failed cause ↦ stop cause | reply _ ↦ again ]
    ]

module _ (db : RocksDb) (eth : Ethereum) (cfg : Config) where
  open db use {State}

  -- An error of `GetCursor` counts as no cursor, in `backfill` and in `pollNewBlocks`.
  unfoldable pub cursor_or_zero : Action State ℕ
  cursor_or_zero s = elim (get_cursor db s) [
    | ok n s' ↦ ok n s'
    | err _ s' ↦ ok 0 s'
    | panic s' ↦ panic s'
  ]

  abbrev logs_handled : Node → List Log → Action State (Unit {0})
  logs_handled node = handle_logs db eth cfg.diamond_address (some node)

  -- The body of the chunk loop, for each chunk.
  unfoldable pub fetch_chunks : Node → List (ℕ × ℕ) → Action State (Unit {0})
  unfolding fetch
  fetch_chunks node [] = pure tt
  fetch_chunks node ((from, to) ∷ more) =
      let rest = fetch_chunks node more in
      elim (fetch node (all_addresses cfg) from to 0 5) [
        | logs found ↦ logs_handled node found >> rest
        | stop e ↦ raise e
      ]

  -- `none` is a loop that does not end: an overflowing `from`.
  unfoldable all_chunks : Node → Option (List (ℕ × ℕ)) → Option (Action State (Unit {0}))
  unfolding fetch_chunks
  all_chunks node none = none
  all_chunks node (some list) = some (fetch_chunks node list)

  unfoldable pub backfill_range : Node → ℕ → ℕ → Option (Action State (Unit {0}))
  unfolding chunks all_chunks
  backfill_range node from latest = all_chunks node (chunks (suc latest) from latest)

  -- What is done with the answer to `BlockNumber`.
  unfoldable backfill_to : Node → ℕ → Reply ℕ → Option (Action State (Unit {0}))
  unfolding backfill_range
  backfill_to node from (failed e) =
      some (raise (wrapped (codes "backfill: failed to get latest block") e))
  backfill_to node from (reply latest) =
      if ltb latest from then some (pure tt) else backfill_range node from latest

  unfoldable backfill_from : Node → ℕ → Option (Action State (Unit {0}))
  unfolding backfill_to
  backfill_from node zero = some (pure tt)
  backfill_from node (suc n) = backfill_to node (suc n) node.block_number

  abbrev run_in : State → Option (Action State (Unit {0})) → Option (Outcome State (Unit {0}))
  run_in s none = none
  run_in s (some m) = some (m s)

  unfoldable with_cursor : Node → Outcome State ℕ → Option (Outcome State (Unit {0}))
  unfolding backfill_from first_block
  with_cursor node (ok cursor s) =
      run_in s (backfill_from node (first_block cfg.start_block cursor))
  with_cursor node (err e s) = some (err e s)
  with_cursor node (panic s) = some (panic s)

  unfoldable pub backfill : Node → State → Option (Outcome State (Unit {0}))
  unfolding with_cursor cursor_or_zero
  backfill node s = with_cursor node (cursor_or_zero s)

  -- What is done with the answer to the one query of a poll.
  unfoldable pub polled : Node → ℕ → Reply (List Log) → Action State (Unit {0})
  polled node latest (failed _) = pure tt
  polled node latest (reply found) = logs_handled node found >> logged (set_cursor db latest)

  -- One query for the blocks from a block to the latest one.
  unfoldable pub poll_range : Node → ℕ → ℕ → Action State (Unit {0})
  unfolding polled
  poll_range node from latest =
      polled node latest (node.filter_logs 0 from latest (all_addresses cfg))

  unfoldable poll_after : Node → ℕ → ℕ → Action State (Unit {0})
  unfolding poll_range next_block
  poll_after node latest zero = pure tt
  poll_after node latest (suc n) =
      if ltb latest (next_block (suc n))
      then pure tt
      else poll_range node (next_block (suc n)) latest

  unfoldable poll_to : Node → Reply ℕ → Action State (Unit {0})
  unfolding poll_after cursor_or_zero
  poll_to node (failed _) = pure tt
  poll_to node (reply latest) = cursor_or_zero >>= λ cursor. poll_after node latest cursor

  unfoldable pub poll_new_blocks : Node → Action State (Unit {0})
  unfolding poll_to
  poll_new_blocks node = poll_to node node.block_number

  -- The loop of `Run`: one poll at each tick, until the context is done.
  unfoldable pub polls : List Node → Action State (Unit {0})
  unfolding poll_new_blocks
  polls [] = pure tt
  polls (node ∷ ticks) = poll_new_blocks node >> polls ticks

  -- An error of `backfill` is logged and dropped.
  after_backfill : Option (Outcome State (Unit {0})) → List Node → Option (Outcome State (Unit {0}))
  unfolding polls
  after_backfill none ticks = none
  after_backfill (some (ok _ s)) ticks = some (polls ticks s)
  after_backfill (some (err _ s)) ticks = some (polls ticks s)
  after_backfill (some (panic s)) ticks = some (panic s)

  -- `Run`, after `ethclient.Dial`; the node may answer otherwise at each tick. `other` is the unspecified
  -- number that a failed `SetString` leaves in `enrichAssets`.
  unfoldable pub run : Node → List Node → (Bytes → ℤ) → State → Option (Outcome State (Unit {0}))
  unfolding backfill after_backfill
  run node ticks other s = elim (enrich_assets db eth cfg.diamond_address (some node) other s) [
    | ok _ s' ↦ after_backfill (backfill node s') ticks
    | err e s' ↦ some (err e s')
    | panic s' ↦ some (panic s')
  ]
