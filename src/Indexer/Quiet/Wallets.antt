-- ===== src/Indexer/Quiet/Wallets.antt =====
-- The handlers of identities, freezes and wallet recovery.
use agro_diamond_compliance.Prelude.{ℕ, Option, none, some, List, ◌∷◌}
use agro_diamond_compliance.Bytes.{Bytes}
use agro_diamond_compliance.Action.{logged}
use agro_diamond_compliance.Ethereum.{Ethereum}
use agro_diamond_compliance.Node.{Log}
use agro_diamond_compliance.RocksDb.{RocksDb, IsReliable}
use agro_diamond_compliance.Store.Quiet
use agro_diamond_compliance.Store.Records.{Identity}
use agro_diamond_compliance.Store.Identities.{record_identity, get_identity, delete_identity}
use agro_diamond_compliance.Store.Ledger.Quiet.{IsSilent, then-IsSilent, logged-IsSilent}
use agro_diamond_compliance.Indexer.Recording.{record_generic_event}
use agro_diamond_compliance.Indexer.Wallets.{
  handle_identity_bound, handle_identity_unbound, handle_wallet_frozen, handle_asset_frozen,
  handle_partial_freeze, handle_lockup_set, rebind, move_identity, handle_wallet_recovered,
}
use agro_diamond_compliance.Indexer.Quiet.{
  with_result_at, or_return-IsSilent, nothing-IsSilent, record_generic_event-IsSilent,
  store_and_record,
}

module _ (db : RocksDb) (L : IsReliable db) (eth : Ethereum) where
  open db use {State}

  pub handle_identity_bound-IsSilent :
      (topics : List Bytes) (log : Log) → IsSilent db L (handle_identity_bound db eth topics log)
  unfolding handle_identity_bound
  handle_identity_bound-IsSilent (_ ∷ wallet ∷ identity ∷ _) log =
      or_return-IsSilent db L eth (record_identity db _) (record_generic_event db eth log _ _ _ _)
        (Quiet.record_identity-IsQuiet db L _) (record_generic_event-IsSilent db L eth log _ _ _ _)
  handle_identity_bound-IsSilent _ log = nothing-IsSilent db L eth

  pub handle_identity_unbound-IsSilent :
      (topics : List Bytes) (log : Log) → IsSilent db L (handle_identity_unbound db eth topics log)
  unfolding handle_identity_unbound
  handle_identity_unbound-IsSilent (_ ∷ wallet ∷ _) log =
      store_and_record db L eth _ log _ _ _ _ (Quiet.delete_identity-IsQuiet db L _)
  handle_identity_unbound-IsSilent _ log = nothing-IsSilent db L eth

  pub handle_wallet_frozen-IsSilent :
      (topics : List Bytes) (log : Log) → IsSilent db L (handle_wallet_frozen db eth topics log)
  unfolding handle_wallet_frozen
  handle_wallet_frozen-IsSilent (_ ∷ _ ∷ _) log =
      store_and_record db L eth _ log _ _ _ _ (Quiet.record_freeze-IsQuiet db L _)
  handle_wallet_frozen-IsSilent _ log = nothing-IsSilent db L eth

  pub handle_asset_frozen-IsSilent :
      (topics : List Bytes) (log : Log) → IsSilent db L (handle_asset_frozen db eth topics log)
  unfolding handle_asset_frozen
  handle_asset_frozen-IsSilent (_ ∷ _ ∷ _ ∷ _) log =
      store_and_record db L eth _ log _ _ _ _ (Quiet.record_freeze-IsQuiet db L _)
  handle_asset_frozen-IsSilent _ log = nothing-IsSilent db L eth

  pub handle_partial_freeze-IsSilent :
      (topics : List Bytes) (log : Log) → IsSilent db L (handle_partial_freeze db eth topics log)
  unfolding handle_partial_freeze
  handle_partial_freeze-IsSilent (_ ∷ _ ∷ _ ∷ _) log =
      store_and_record db L eth _ log _ _ _ _ (Quiet.update_freeze_amount-IsQuiet db L _ _ _)
  handle_partial_freeze-IsSilent _ log = nothing-IsSilent db L eth

  pub handle_lockup_set-IsSilent :
      (topics : List Bytes) (log : Log) → IsSilent db L (handle_lockup_set db eth topics log)
  unfolding handle_lockup_set
  handle_lockup_set-IsSilent (_ ∷ _ ∷ _ ∷ _) log =
      store_and_record db L eth _ log _ _ _ _ (Quiet.update_lockup_expiry-IsQuiet db L _ _ _)
  handle_lockup_set-IsSilent _ log = nothing-IsSilent db L eth

  move_identity-IsSilent :
      (lost new : Bytes) (block : ℕ) (found : Option Identity)
      → IsSilent db L (move_identity db eth lost new block found)
  unfolding move_identity
  move_identity-IsSilent lost new block none = nothing-IsSilent db L eth
  move_identity-IsSilent lost new block (some existing) =
      then-IsSilent db L (logged (record_identity db _)) (logged (delete_identity db lost))
        (logged-IsSilent db L (record_identity db _) (Quiet.record_identity-IsQuiet db L _))
        (logged-IsSilent db L (delete_identity db lost) (Quiet.delete_identity-IsQuiet db L lost))

  rebind-IsSilent : (lost new : Bytes) (block : ℕ) → IsSilent db L (rebind db eth lost new block)
  unfolding rebind
  rebind-IsSilent lost new block s =
      with_result_at db L eth (get_identity db lost s) (move_identity db eth lost new block) s
        (Quiet.get_identity-IsQuiet db L lost s) (move_identity-IsSilent lost new block)

  pub handle_wallet_recovered-IsSilent :
      (topics : List Bytes) (log : Log) → IsSilent db L (handle_wallet_recovered db eth topics log)
  unfolding handle_wallet_recovered
  handle_wallet_recovered-IsSilent (_ ∷ lost ∷ new ∷ agent ∷ _) log =
      then-IsSilent db L (rebind db eth _ _ _) (record_generic_event db eth log _ _ _ _)
        (rebind-IsSilent _ _ log.block_number) (record_generic_event-IsSilent db L eth log _ _ _ _)
  handle_wallet_recovered-IsSilent _ log = nothing-IsSilent db L eth
