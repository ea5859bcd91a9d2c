-- ===== src/Tests/Sync.antt =====
-- The synchronisation with small nodes, and the environment.
use agro_diamond_compliance.Prelude.{
  ◌≡◌, ◌≢◌, refl, none, some, [], ◌∷◌, arith, if◌then◌else◌, eqb, bytes_eq, map,
}
use agro_diamond_compliance.Bytes.{Bytes, codes}
use agro_diamond_compliance.Action.{Error, fault, wrapped, Returns, ok}
use agro_diamond_compliance.Config.{Config, load, all_addresses}
use agro_diamond_compliance.Config.Texts.{join, load-joined}
use agro_diamond_compliance.Node.{Node, reply, failed}
use agro_diamond_compliance.RocksDb.Memory.{memory, memory-IsReliable, empty, Table}
use agro_diamond_compliance.RocksDb.Entries.{raw}
use agro_diamond_compliance.Bytes.Decimal.{format_uint}
use agro_diamond_compliance.Store.Keys.{prefix_cursor}
use agro_diamond_compliance.Store.Cursor.{get_cursor}
use agro_diamond_compliance.Store.Cursor.RoundTrip.{get_cursor-write}
use agro_diamond_compliance.Indexer.Dispatch.{handle_logs}
use agro_diamond_compliance.Indexer.Sync.Ends.{backfill-ne-none}
use agro_diamond_compliance.Indexer.Sync.{
  backfill, logs, stop, chunks, fetch, retries_text, poll_new_blocks,
}
use agro_diamond_compliance.Indexer.Sync.Chunks.{Tiles, chunks-Tiles}
use agro_diamond_compliance.Indexer.Sync.Retries.{fetch-answered, fetch-exhausted}
use agro_diamond_compliance.Indexer.Sync.Polling.{poll_new_blocks-get_cursor}
use agro_diamond_compliance.Tests.Fixtures.{eth}

chunks-Tiles_example : Tiles 5 2500 (chunks 2501 5 2500)
chunks-Tiles_example = chunks-Tiles 2500 5 2500 (omega arith) (omega arith)

chunks_example : chunks 4 5 2500 ≡ some ((5, 1005) ∷ (1006, 2006) ∷ (2007, 2500) ∷ [])
unfolding chunks
chunks_example = refl

abbrev busy : Error
busy = fault (codes "429")

-- A node that answers the third try, and one that answers none.
abbrev slow_node : Node
slow_node = record {
  block_number = reply 20;
  filter_logs = λ n from to addresses. if eqb n 2 then reply [] else failed busy;
  cancelled = λ n. reply tt;
  call_contract = λ contract input. failed busy;
}

abbrev dead_node : Node
dead_node = record slow_node { filter_logs = λ n from to addresses. failed busy }

abbrev idle_node : Node
idle_node = record slow_node { filter_logs = λ n from to addresses. reply [] }

fetch-answered_example : fetch slow_node [] 5 20 0 5 ≡ logs []
fetch-answered_example =
    fetch-answered slow_node [] 5 20 2 0 5 (λ n. busy) [] (omega arith)
      (λ j l u. (ground arith, refl)) refl

fetch-exhausted_example : fetch dead_node [] 5 20 0 5 ≡ stop (wrapped (retries_text 5 20) busy)
fetch-exhausted_example = fetch-exhausted dead_node [] 5 20 0 5 (λ n. busy) (λ j l u. (refl, refl))

abbrev settings : Config
settings = record {
  rpc_url = [];
  rpc_ws_url = [];
  diamond_address = 68 ∷ [];
  extra_addresses = [];
  http_listen_addr = [];
  start_block = 1;
}

abbrev at_ten : Table
at_ten = memory-IsReliable.write prefix_cursor (raw (format_uint 10)) empty

no_logs : handle_logs memory eth (68 ∷ []) (some idle_node) [] at_ten ≡ ok tt at_ten
unfolding handle_logs
no_logs = refl

poll_new_blocks-get_cursor_example :
    Returns
      (poll_new_blocks memory eth settings idle_node at_ten)
      λ s'. get_cursor memory s' ≡ ok 20 s'
poll_new_blocks-get_cursor_example =
    poll_new_blocks-get_cursor memory memory-IsReliable eth settings idle_node 20 9 [] at_ten at_ten
      refl (get_cursor-write memory memory-IsReliable 10 empty (omega arith)) (omega arith)
      (omega arith) refl no_logs

backfill-ne-none_example : backfill memory eth settings slow_node empty ≢ none
backfill-ne-none_example = backfill-ne-none memory eth settings slow_node empty (omega arith)

-- An environment with two further addresses and a start block, by the first letter of the name.
abbrev environment : Bytes → Bytes
environment [] = []
environment (c ∷ name) =
    if eqb c b'D'
    then codes "0xD"
    else if eqb c b'E'
    then codes "0xA,0xB"
    else if eqb c b'S'
    then codes "120"
    else []

load-joined_example :
    (c : Config) × (load eth environment ≡ some c)
    × (all_addresses c
        ≡ map (λ a. eth.hex_to_address a) (codes "0xD" ∷ codes "0xA" ∷ codes "0xB" ∷ []))
    × (c.start_block ≡ 120)
load-joined_example =
    load-joined eth environment (codes "0xA" ∷ codes "0xB" ∷ []) 120 (ground arith)
      (unfold join in refl)
      (
        (
          ground arith,
          ((omega arith, refl, refl), ((omega arith, refl, refl), ((omega arith, refl, refl), tt))),
        ),
        (
          (
            ground arith,
            (
              (omega arith, refl, refl),
              ((omega arith, refl, refl), ((omega arith, refl, refl), tt)),
            ),
          ),
          tt,
        ),
      )
      (unfold format_uint in refl) (omega arith)
