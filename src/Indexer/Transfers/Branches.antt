-- ===== src/Indexer/Transfers/Branches.antt =====
-- The `TransferSingle` logs on which the handler does not reach the ledger.
use agro_diamond_compliance.Prelude.{◌≡◌, List, ◌∷◌, arith, bytes_eq, ◌⊎◌, inl, inr}
use agro_diamond_compliance.Bytes.{Bytes}
use agro_diamond_compliance.Action.{ok}
use agro_diamond_compliance.Ethereum.{Ethereum, zero_address}
use agro_diamond_compliance.Node.{Log}
use agro_diamond_compliance.RocksDb.{RocksDb}
use agro_diamond_compliance.Indexer.Transfers.{transfer_single, handle_transfer_single}

module _ (db : RocksDb) (eth : Ethereum) where
  -- A `TransferSingle` log with its topics from or to the zero address changes nothing.
  pub handle_transfer_single-skips :
      (sig operator from to : Bytes) (more : List Bytes) (log : Log) (s : db.State)
      → (eth.bytes_to_address from ≡ zero_address) ⊎ (eth.bytes_to_address to ≡ zero_address)
      → handle_transfer_single db eth (sig ∷ operator ∷ from ∷ to ∷ more) log s ≡ ok tt s
  unfolding handle_transfer_single transfer_single
  handle_transfer_single-skips sig operator from to more log s (inl e) = ground arith
  handle_transfer_single-skips sig operator from to more log s (inr e) = ground arith
