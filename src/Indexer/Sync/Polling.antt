-- ===== src/Indexer/Sync/Polling.antt =====
-- `pollNewBlocks` and the cursor.
use agro_diamond_compliance.Prelude.{
  ℕ, zero, suc, ◌+◌, ◌%◌, ◌^◌, ◌<◌, ◌≤◌, ◌≡◌, refl, ap, ◌∙◌, List, some, arith,
}
use agro_diamond_compliance.Action.{Returns, ok, logged, ◌>>=◌, ◌>>◌}
use agro_diamond_compliance.Config.{Config, all_addresses}
use agro_diamond_compliance.Ethereum.{Ethereum}
use agro_diamond_compliance.Node.{Log, Node, reply}
use agro_diamond_compliance.RocksDb.{RocksDb, IsReliable}
use agro_diamond_compliance.RocksDb.Entries.{raw}
use agro_diamond_compliance.Store.Keys.{prefix_cursor}
use agro_diamond_compliance.Bytes.Decimal.{format_uint}
use agro_diamond_compliance.Store.Cursor.{get_cursor}
use agro_diamond_compliance.Store.Cursor.RoundTrip.{get_cursor-write, set_cursor_lem}
use agro_diamond_compliance.Indexer.Dispatch.{handle_logs}
use agro_diamond_compliance.Indexer.Sync.{
  next_block, cursor_or_zero, poll_range, poll_after, polled, poll_to, poll_new_blocks,
}

module _ (db : RocksDb) (L : IsReliable db) (eth : Ethereum) (cfg : Config) (node : Node) where
  pub cursor_or_zero_lem :
      (n : ℕ) (s : db.State) → get_cursor db s ≡ ok n s → cursor_or_zero db eth cfg s ≡ ok n s
  unfolding cursor_or_zero
  cursor_or_zero_lem n s e = rw (cursor_or_zero, e) refl

  pub poll_new_blocks_lem :
      (latest cursor : ℕ) (s : db.State)
      → node.block_number ≡ reply latest
      → get_cursor db s ≡ ok cursor s
      → poll_new_blocks db eth cfg node s ≡ poll_after db eth cfg node latest cursor s
  unfolding poll_new_blocks poll_to
  poll_new_blocks_lem latest cursor s e f =
      ap (λ r. poll_to db eth cfg node r s) e ∙ rw (◌>>=◌, cursor_or_zero_lem cursor s f) refl

  -- A poll past whose cursor the chain has not grown changes nothing.
  poll_new_blocks-idle :
      (latest cursor : ℕ) (s : db.State)
      → node.block_number ≡ reply latest
      → get_cursor db s ≡ ok cursor s
      → cursor + 1 < 2 ^ 64
      → latest ≤ cursor
      → poll_new_blocks db eth cfg node s ≡ ok tt s
  unfolding poll_after next_block
  poll_new_blocks-idle latest zero s e f small h = poll_new_blocks_lem latest 0 s e f
  poll_new_blocks-idle latest (suc c) s e f small h =
      poll_new_blocks_lem latest (suc c) s e f ∙ ground arith

  pub poll_on :
      (latest cursor : ℕ) (s : db.State)
      → suc cursor < latest
      → latest < 2 ^ 64
      → poll_after db eth cfg node latest (suc cursor) s
        ≡ polled db eth cfg node latest
            (node.filter_logs 0 (cursor + 2) latest (all_addresses cfg))
            s
  unfolding poll_after next_block poll_range
  poll_on latest cursor s more small =
      let step : (suc cursor + 1) % 2 ^ 64 ≡ cursor + 2 = ground arith in rw step (ground arith)

  polled_lem :
      (latest : ℕ) (found : List Log) (s s' : db.State)
      → handle_logs db eth cfg.diamond_address (some node) found s ≡ ok tt s'
      → polled db eth cfg node latest (reply found) s
        ≡ ok tt (L.write prefix_cursor (raw (format_uint latest)) s')
  unfolding polled
  polled_lem latest found s s' handled = rw (◌>>◌, ◌>>=◌, handled, logged, set_cursor_lem db L) refl

  -- On a reliable database, a poll whose cursor is positive and below the latest block, a
  -- `uint64`, which gets the logs of the blocks behind the cursor, and whose handlers return,
  -- returns and leaves the latest block as the cursor, whether there were logs or not.
  pub poll_new_blocks-get_cursor :
      (latest cursor : ℕ) (found : List Log) (s s' : db.State)
      → node.block_number ≡ reply latest
      → get_cursor db s ≡ ok (suc cursor) s
      → suc cursor < latest
      → latest < 2 ^ 64
      → node.filter_logs 0 (cursor + 2) latest (all_addresses cfg) ≡ reply found
      → handle_logs db eth cfg.diamond_address (some node) found s ≡ ok tt s'
      → Returns (poll_new_blocks db eth cfg node s) λ s''. get_cursor db s'' ≡ ok latest s''
  poll_new_blocks-get_cursor latest cursor found s s' e f more small g handled =
      rw
        (poll_new_blocks_lem latest (suc cursor) s e f
          ∙ (poll_on latest cursor s more small
              ∙ (ap (λ r. polled db eth cfg node latest r s) g
                  ∙ polled_lem latest found s s' handled)))
        (get_cursor-write db L latest s' small)
