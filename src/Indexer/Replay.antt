-- ===== src/Indexer/Replay.antt =====
-- The abstract machine that the logs of mints, burns and transfers describe, next to `handleLog`.
pub mod Moves
pub mod Histories
use agro_diamond_compliance.Prelude.{◌≡◌, ◌≢◌, true, Option, List, [], ◌∷◌, ◌⊎◌}
use agro_diamond_compliance.Bytes.{Bytes, codes}
use agro_diamond_compliance.Ethereum.{Ethereum, zero_address}
use agro_diamond_compliance.Node.{Log, Node}
use agro_diamond_compliance.RocksDb.{RocksDb, IsReliable}
use agro_diamond_compliance.Store.Ledger.Holdings.{
  Holdings, Move, mint, burn, transfer, move_units, IsCovered,
}
use agro_diamond_compliance.Indexer.Abi.{set_bytes, has_bytes, word0, word1}
use agro_diamond_compliance.Indexer.Dispatch.{
  minted_sig, burned_sig, forced_transfer_sig, transfer_single_sig,
}
use agro_diamond_compliance.Indexer.Dispatch.Frame.{IsBystander}

-- `Keccak256` does not collide on the signatures in front of the cases.
pub record IsDistinct (eth : Ethereum) : Type 0 where
  pub burn_mint : eth.keccak256_hash burned_sig ≢ eth.keccak256_hash minted_sig
  pub transfer_mint : eth.keccak256_hash transfer_single_sig ≢ eth.keccak256_hash minted_sig
  pub transfer_burn : eth.keccak256_hash transfer_single_sig ≢ eth.keccak256_hash burned_sig
  pub transfer_forced :
      eth.keccak256_hash transfer_single_sig ≢ eth.keccak256_hash forced_transfer_sig

-- The move of units that a log reports.
pub data Reports (eth : Ethereum) (log : Log) : Move → Type 0 where
  minted :
      (id to : Bytes) (more : List Bytes)
      → log.topics ≡ eth.keccak256_hash minted_sig ∷ id ∷ to ∷ more
      → Reports eth log (mint (set_bytes id) (eth.bytes_to_address to) (set_bytes log.bytes))
  burned :
      (id from : Bytes) (more : List Bytes)
      → log.topics ≡ eth.keccak256_hash burned_sig ∷ id ∷ from ∷ more
      → Reports eth log (burn (set_bytes id) (eth.bytes_to_address from) (set_bytes log.bytes))
  transferred :
      (operator from to : Bytes) (more : List Bytes)
      → log.topics ≡ eth.keccak256_hash transfer_single_sig ∷ operator ∷ from ∷ to ∷ more
      → has_bytes 64 log.bytes ≡ true
      → eth.bytes_to_address from ≢ zero_address
      → eth.bytes_to_address to ≢ zero_address
      → Reports eth log (
          transfer
            (set_bytes (word0 log.bytes))
            (eth.bytes_to_address from)
            (eth.bytes_to_address to)
            (set_bytes (word1 log.bytes)))

-- The topic of `TransferBatch`, for which `handleLog` has no case.
abbrev pub transfer_batch_sig : Bytes
transfer_batch_sig = codes "TransferBatch(address,address,address,uint256[],uint256[])"

-- The `TransferSingle` log of a mint or a burn, which the contract emits in front of `Minted` or
-- `Burned` with the same token, address and amount.
pub data Announces (eth : Ethereum) (log : Log) : Move → Type 0 where
  of_mint :
      (operator from to : Bytes) (more : List Bytes)
      → log.topics ≡ eth.keccak256_hash transfer_single_sig ∷ operator ∷ from ∷ to ∷ more
      → eth.bytes_to_address from ≡ zero_address
      → Announces eth log (
          mint
            (set_bytes (word0 log.bytes))
            (eth.bytes_to_address to)
            (set_bytes (word1 log.bytes)))
  of_burn :
      (operator from to : Bytes) (more : List Bytes)
      → log.topics ≡ eth.keccak256_hash transfer_single_sig ∷ operator ∷ from ∷ to ∷ more
      → eth.bytes_to_address to ≡ zero_address
      → Announces eth log (
          burn
            (set_bytes (word0 log.bytes))
            (eth.bytes_to_address from)
            (set_bytes (word1 log.bytes)))

module _ (db : RocksDb) (L : IsReliable db) (eth : Ethereum) (diamond : Bytes)
    (client : Option Node) where
  -- A log that moves no units: an anonymous one, or one that is neither `Minted`, `Burned`,
  -- `TransferSingle` nor `TransferBatch`.
  abbrev pub IsIdle : Log → Type 0
  IsIdle log =
      (log.topics ≡ [])
      ⊎ ((sig : Bytes) × (topics : List Bytes) × (log.topics ≡ sig ∷ topics)
          × (sig ≢ eth.keccak256_hash transfer_single_sig)
          × (sig ≢ eth.keccak256_hash transfer_batch_sig)
          × IsBystander db L eth diamond client sig topics log)

  -- The logs lead from some holdings to others, each by the move that it reports. There is no way
  -- over a `TransferBatch`, nor over a `TransferSingle` of a mint or a burn that its own log does
  -- not follow.
  pub data Leads : Holdings → List Log → Holdings → Type 0 where
    nothing : (f : Holdings) → Leads f [] f
    moves :
        (f g : Holdings) (log : Log) (logs : List Log) (move : Move)
        → Reports eth log move
        → IsCovered move f
        → Leads (move_units move f) logs g
        → Leads f (log ∷ logs) g
    announced :
        (f g : Holdings) (first log : Log) (logs : List Log) (move : Move)
        → Announces eth first move
        → Reports eth log move
        → IsCovered move f
        → Leads (move_units move f) logs g
        → Leads f (first ∷ log ∷ logs) g
    stays :
        (f g : Holdings) (log : Log) (logs : List Log)
        → IsIdle log
        → Leads f logs g
        → Leads f (log ∷ logs) g
