-- ===== src/Indexer/Quiet/Protocol.antt =====
-- The handlers that only record an event, and the pause flag.
use agro_diamond_compliance.Prelude.{Bool, List, ◌∷◌}
use agro_diamond_compliance.Bytes.{Bytes}
use agro_diamond_compliance.Ethereum.{Ethereum}
use agro_diamond_compliance.Node.{Log}
use agro_diamond_compliance.RocksDb.{RocksDb, IsReliable}
use agro_diamond_compliance.Store.Quiet
use agro_diamond_compliance.Store.Ledger.Quiet.{IsSilent}
use agro_diamond_compliance.Indexer.Protocol.{
  handle_generic_event, handle_generic_event_with_token_and_addr, handle_generic_event_addr_only,
  handle_asset_paused, handle_role_event, handle_snapshot_created, handle_dividend_created,
  handle_dividend_claimed, handle_global_plugin_status_changed, handle_reward_asset_event,
  handle_yield_deposited, handle_yield_claimed, handle_country_restriction, handle_max_setting,
}
use agro_diamond_compliance.Indexer.Quiet.{
  nothing-IsSilent, record_generic_event-IsSilent, store_and_record,
}

module _ (db : RocksDb) (L : IsReliable db) (eth : Ethereum) where
  open db use {State}

  pub handle_generic_event-IsSilent :
      (event_type : Bytes) (topics : List Bytes) (log : Log)
      → IsSilent db L (handle_generic_event db eth event_type topics log)
  unfolding handle_generic_event
  handle_generic_event-IsSilent event_type topics log =
      record_generic_event-IsSilent db L eth log _ _ _ _

  pub handle_generic_event_with_token_and_addr-IsSilent :
      (event_type : Bytes) (topics : List Bytes) (log : Log)
      → IsSilent db L (handle_generic_event_with_token_and_addr db eth event_type topics log)
  unfolding handle_generic_event_with_token_and_addr
  handle_generic_event_with_token_and_addr-IsSilent event_type topics log =
      record_generic_event-IsSilent db L eth log _ _ _ _

  pub handle_generic_event_addr_only-IsSilent :
      (event_type : Bytes) (topics : List Bytes) (log : Log)
      → IsSilent db L (handle_generic_event_addr_only db eth event_type topics log)
  unfolding handle_generic_event_addr_only
  handle_generic_event_addr_only-IsSilent event_type topics log =
      record_generic_event-IsSilent db L eth log _ _ _ _

  pub handle_asset_paused-IsSilent :
      (paused : Bool) (topics : List Bytes) (log : Log)
      → IsSilent db L (handle_asset_paused db eth paused topics log)
  unfolding handle_asset_paused
  handle_asset_paused-IsSilent paused (_ ∷ _ ∷ _ ∷ _) log =
      store_and_record db L eth _ log _ _ _ _ (Quiet.update_asset_paused-IsQuiet db L _ _)
  handle_asset_paused-IsSilent paused _ log = nothing-IsSilent db L eth

  pub handle_role_event-IsSilent :
      (event_type : Bytes) (topics : List Bytes) (log : Log)
      → IsSilent db L (handle_role_event db eth event_type topics log)
  unfolding handle_role_event
  handle_role_event-IsSilent event_type (_ ∷ _ ∷ _ ∷ _ ∷ _) log =
      record_generic_event-IsSilent db L eth log _ _ _ _
  handle_role_event-IsSilent event_type _ log = nothing-IsSilent db L eth

  pub handle_snapshot_created-IsSilent :
      (topics : List Bytes) (log : Log) → IsSilent db L (handle_snapshot_created db eth topics log)
  unfolding handle_snapshot_created
  handle_snapshot_created-IsSilent (_ ∷ _ ∷ _ ∷ _) log =
      record_generic_event-IsSilent db L eth log _ _ _ _
  handle_snapshot_created-IsSilent _ log = nothing-IsSilent db L eth

  pub handle_dividend_created-IsSilent :
      (topics : List Bytes) (log : Log) → IsSilent db L (handle_dividend_created db eth topics log)
  unfolding handle_dividend_created
  handle_dividend_created-IsSilent (_ ∷ _ ∷ _ ∷ _ ∷ _) log =
      record_generic_event-IsSilent db L eth log _ _ _ _
  handle_dividend_created-IsSilent _ log = nothing-IsSilent db L eth

  pub handle_dividend_claimed-IsSilent :
      (topics : List Bytes) (log : Log) → IsSilent db L (handle_dividend_claimed db eth topics log)
  unfolding handle_dividend_claimed
  handle_dividend_claimed-IsSilent (_ ∷ _ ∷ _ ∷ _) log =
      record_generic_event-IsSilent db L eth log _ _ _ _
  handle_dividend_claimed-IsSilent _ log = nothing-IsSilent db L eth

  pub handle_global_plugin_status_changed-IsSilent :
      (topics : List Bytes) (log : Log)
      → IsSilent db L (handle_global_plugin_status_changed db eth topics log)
  unfolding handle_global_plugin_status_changed
  handle_global_plugin_status_changed-IsSilent (_ ∷ _ ∷ _) log =
      record_generic_event-IsSilent db L eth log _ _ _ _
  handle_global_plugin_status_changed-IsSilent _ log = nothing-IsSilent db L eth

  pub handle_reward_asset_event-IsSilent :
      (event_type : Bytes) (topics : List Bytes) (log : Log)
      → IsSilent db L (handle_reward_asset_event db eth event_type topics log)
  unfolding handle_reward_asset_event
  handle_reward_asset_event-IsSilent event_type (_ ∷ _ ∷ _ ∷ _) log =
      record_generic_event-IsSilent db L eth log _ _ _ _
  handle_reward_asset_event-IsSilent event_type _ log = nothing-IsSilent db L eth

  pub handle_yield_deposited-IsSilent :
      (topics : List Bytes) (log : Log) → IsSilent db L (handle_yield_deposited db eth topics log)
  unfolding handle_yield_deposited
  handle_yield_deposited-IsSilent (_ ∷ _ ∷ _ ∷ _) log =
      record_generic_event-IsSilent db L eth log _ _ _ _
  handle_yield_deposited-IsSilent _ log = nothing-IsSilent db L eth

  pub handle_yield_claimed-IsSilent :
      (topics : List Bytes) (log : Log) → IsSilent db L (handle_yield_claimed db eth topics log)
  unfolding handle_yield_claimed
  handle_yield_claimed-IsSilent (_ ∷ _ ∷ _ ∷ _ ∷ _) log =
      record_generic_event-IsSilent db L eth log _ _ _ _
  handle_yield_claimed-IsSilent _ log = nothing-IsSilent db L eth

  pub handle_country_restriction-IsSilent :
      (event_type : Bytes) (topics : List Bytes) (log : Log)
      → IsSilent db L (handle_country_restriction db eth event_type topics log)
  unfolding handle_country_restriction
  handle_country_restriction-IsSilent event_type (_ ∷ _ ∷ _ ∷ _) log =
      record_generic_event-IsSilent db L eth log _ _ _ _
  handle_country_restriction-IsSilent event_type _ log = nothing-IsSilent db L eth

  pub handle_max_setting-IsSilent :
      (event_type : Bytes) (field_name : Bytes) (topics : List Bytes) (log : Log)
      → IsSilent db L (handle_max_setting db eth event_type field_name topics log)
  unfolding handle_max_setting
  handle_max_setting-IsSilent event_type field_name (_ ∷ _ ∷ _) log =
      record_generic_event-IsSilent db L eth log _ _ _ _
  handle_max_setting-IsSilent event_type field_name _ log = nothing-IsSilent db L eth
