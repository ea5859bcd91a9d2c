-- ===== src/Process.antt =====
-- packages/indexer/cmd/indexer/main.go: the answer of `GET /health`.
use agro_diamond_compliance.Prelude.{◌++◌}
use agro_diamond_compliance.Bytes.{Bytes, codes}
use agro_diamond_compliance.Bytes.Decimal.{format_uint}
use agro_diamond_compliance.Action.{Action, pure, or_value, ◌>>=◌}
use agro_diamond_compliance.RocksDb.{RocksDb}
use agro_diamond_compliance.Store.Cursor.{get_cursor}

module _ (db : RocksDb) where
  open db use {State}

  -- The body; an error of the store reads as block 0.
  unfoldable pub health : Action State Bytes
  health = do
    cursor ← or_value 0 (get_cursor db)
    pure (codes "{\"status\":\"ok\",\"lastBlock\":" ++ format_uint cursor ++ codes "}")
