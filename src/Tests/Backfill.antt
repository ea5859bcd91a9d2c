-- ===== src/Tests/Backfill.antt =====
-- A backfill and a poll that fetch the small history.
use agro_diamond_compliance.Prelude.{◌≡◌, refl, some, [], ◌∷◌, arith, bytes_eq}
use agro_diamond_compliance.Bytes.Decimal.{format_uint}
use agro_diamond_compliance.Action.{Returns, ok}
use agro_diamond_compliance.Config.{Config}
use agro_diamond_compliance.Node.{Node, reply}
use agro_diamond_compliance.RocksDb.Entries.{raw, lookup}
use agro_diamond_compliance.RocksDb.Memory.{memory, memory-IsReliable, empty, Table}
use agro_diamond_compliance.Store.Keys.{prefix_cursor}
use agro_diamond_compliance.Store.Cursor.{get_cursor, read_cursor}
use agro_diamond_compliance.Store.Cursor.RoundTrip.{get_cursor-write}
use agro_diamond_compliance.Store.Ledger.Frame.{cursor-IsForeign}
use agro_diamond_compliance.Store.Ledger.Quiet.{put-IsQuiet}
use agro_diamond_compliance.Indexer.Replay.Moves.{IsAt, IsAt-Unmoved}
use agro_diamond_compliance.Prelude.Int.{pos}
use agro_diamond_compliance.RocksDb.Entries.{from}
use agro_diamond_compliance.RocksDb.Scan.{while_prefix}
use agro_diamond_compliance.Store.Values.{decoded_rows}
use agro_diamond_compliance.Store.Assets.{get_all_assets}
use agro_diamond_compliance.Indexer.Assets.{enrich_assets, fetch_asset_name_symbol}
use agro_diamond_compliance.Indexer.Sync.Stuck.{run-stuck}
use agro_diamond_compliance.Indexer.Sync.{run, fetch, first_block, backfill, poll_new_blocks}
use agro_diamond_compliance.Indexer.Sync.Refinement.{
  Fetched, past, next, EndsIn, backfill-refines, poll_new_blocks-refines,
}
use agro_diamond_compliance.Tests.Fixtures.{eth, eth-IsLawful}
use agro_diamond_compliance.Tests.Replay.{
  diamond, busy_node, no_units, history, after_history, history-Leads, Answers, empty-IsAt,
  eth-IsDistinct,
}

abbrev settings : Config
settings = record {
  rpc_url = [];
  rpc_ws_url = [];
  diamond_address = diamond;
  extra_addresses = [];
  http_listen_addr = [];
  start_block = 1;
}

-- The node has the history in every range that is asked for.
abbrev node : Node
node = record busy_node { filter_logs = λ n from to addresses. reply history }

node-Answers : Answers node
unfolding fetch_asset_name_symbol
node-Answers = λ e. ground arith

no_cursor : get_cursor memory empty ≡ ok 0 empty
unfolding get_cursor lookup read_cursor
no_cursor = refl

first_one : first_block 1 0 ≡ 1
unfolding first_block
first_one = refl

history-Fetched :
    Fetched memory memory-IsReliable eth eth-IsLawful eth-IsDistinct settings node 20 1 no_units
      after_history
unfolding fetch
history-Fetched =
    next 1 20 no_units after_history after_history history (omega arith) refl refl
      (history-Leads node node-Answers) (past 1002 after_history (omega arith))

backfill-refines_example :
    EndsIn memory memory-IsReliable eth eth-IsLawful eth-IsDistinct settings node
      (backfill memory eth settings node empty)
      (IsAt memory memory-IsReliable eth eth-IsLawful diamond (some node) after_history)
backfill-refines_example =
    backfill-refines memory memory-IsReliable eth eth-IsLawful eth-IsDistinct settings node no_units
      after_history 0 0 20 empty no_cursor first_one refl (omega arith) (omega arith)
      history-Fetched (empty-IsAt node)

abbrev at_ten : Table
at_ten = memory-IsReliable.write prefix_cursor (raw (format_uint 10)) empty

at_ten-IsAt : IsAt memory memory-IsReliable eth eth-IsLawful diamond (some node) no_units at_ten
at_ten-IsAt =
    IsAt-Unmoved memory memory-IsReliable eth eth-IsLawful diamond (some node) no_units empty at_ten
      (empty-IsAt node)
      (put-IsQuiet memory memory-IsReliable prefix_cursor (raw (format_uint 10)) cursor-IsForeign
        empty)

poll_new_blocks-refines_example :
    Returns
      (poll_new_blocks memory eth settings node at_ten)
      (IsAt memory memory-IsReliable eth eth-IsLawful diamond (some node) after_history)
poll_new_blocks-refines_example =
    poll_new_blocks-refines memory memory-IsReliable eth eth-IsLawful eth-IsDistinct settings node
      no_units after_history 20 9 history at_ten refl
      (get_cursor-write memory memory-IsReliable 10 empty (omega arith)) (omega arith) (omega arith)
      refl (history-Leads node node-Answers) at_ten-IsAt

-- A node without logs at first, which has the history later.
abbrev silent_node : Node
silent_node = record busy_node { filter_logs = λ n from to addresses. reply [] }

no_assets : enrich_assets memory eth diamond (some silent_node) (λ id. pos 0) empty ≡ ok tt empty
unfolding enrich_assets get_all_assets decoded_rows while_prefix from
no_assets = refl

run-stuck_example :
    run memory eth settings silent_node (node ∷ node ∷ []) (λ id. pos 0) empty ≡ some (ok tt empty)
run-stuck_example =
    run-stuck memory eth settings empty no_cursor silent_node (λ from to. refl) (node ∷ node ∷ [])
      (λ id. pos 0) (omega arith) no_assets
