-- ===== src/Indexer/Transfers.antt =====
-- The handlers of mints, burns and transfers. Each is given the topics of its log.
pub mod Branches
use agro_diamond_compliance.Prelude.{
  ℕ, Bool, ◌||◌, List, [], ◌∷◌, ◌==◌, bytes_eq, length, take, leb, if◌then◌else◌,
}
use agro_diamond_compliance.Prelude.Int.{pos}
use agro_diamond_compliance.Bytes.{Bytes, codes}
use agro_diamond_compliance.Action.{Action, ok, panic, logged}
use agro_diamond_compliance.Ethereum.{Ethereum, zero_address}
use agro_diamond_compliance.Node.{Log}
use agro_diamond_compliance.RocksDb.{RocksDb}
use agro_diamond_compliance.Store.Ledger.{
  record_mint, record_burn, record_transfer, record_event_only,
}
use agro_diamond_compliance.Indexer.Abi.{set_bytes, decimal, has_bytes, word0, word1}

module _ (db : RocksDb) (eth : Ethereum) where
  open db use {State}
  open eth use {bytes_to_address}

  unfoldable pub handle_minted : List Bytes → Log → Action State (Unit {0})
  handle_minted (_ ∷ id ∷ to ∷ _) log = logged (
      record_mint db eth (decimal id) (bytes_to_address to) (pos (set_bytes log.bytes)) log.tx_hash
        log.block_number log.index)
  handle_minted _ log = ok tt

  unfoldable pub handle_burned : List Bytes → Log → Action State (Unit {0})
  handle_burned (_ ∷ id ∷ from ∷ _) log = logged (
      record_burn db eth (decimal id) (bytes_to_address from) (pos (set_bytes log.bytes))
        log.tx_hash log.block_number log.index)
  handle_burned _ log = ok tt

  -- `vLog.Data[:32]` panics on shorter data.
  unfoldable pub handle_forced_transfer : List Bytes → Log → Action State (Unit {0})
  handle_forced_transfer (_ ∷ id ∷ from ∷ to ∷ _) log =
      if has_bytes 32 log.bytes
      then logged (
          record_event_only db eth (decimal id) (bytes_to_address from) (bytes_to_address to)
            (pos (set_bytes (word0 log.bytes))) (codes "forced_transfer") log.tx_hash
            log.block_number log.index)
      else panic
  handle_forced_transfer _ log = ok tt

  -- Mints and burns are skipped here: their own events are recorded.
  unfoldable pub transfer_single : Bytes → Bytes → Log → Action State (Unit {0})
  transfer_single from to log =
      if from == zero_address || to == zero_address
      then ok tt
      else logged (
          record_transfer db eth (decimal (word0 log.bytes)) from to
            (pos (set_bytes (word1 log.bytes))) (codes "transfer") log.tx_hash log.block_number
            log.index)

  unfoldable pub handle_transfer_single : List Bytes → Log → Action State (Unit {0})
  unfolding transfer_single
  handle_transfer_single (_ ∷ _ ∷ from ∷ to ∷ _) log =
      if has_bytes 64 log.bytes
      then transfer_single (bytes_to_address from) (bytes_to_address to) log
      else ok tt
  handle_transfer_single _ log = ok tt
