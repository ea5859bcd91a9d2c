-- ===== src/Indexer/Dispatch.antt =====
-- `handleLog`: the event signatures, the handler of each, and the cursor.
pub mod Cursor
pub mod Frame
pub mod Mints
use agro_diamond_compliance.Prelude.{
  Bool, true, false, Option, List, [], ◌∷◌, ◌==◌, bytes_eq, String, if◌then◌else◌,
}
use agro_diamond_compliance.Bytes.{Bytes, codes}
use agro_diamond_compliance.Action.{Action, ok, panic, logged, ◌>>◌}
use agro_diamond_compliance.Ethereum.{Ethereum}
use agro_diamond_compliance.Node.{Log, Node}
use agro_diamond_compliance.RocksDb.{RocksDb}
use agro_diamond_compliance.Store.Cursor.{set_cursor}
use agro_diamond_compliance.Indexer.Transfers.{
  handle_minted, handle_burned, handle_forced_transfer, handle_transfer_single,
}
use agro_diamond_compliance.Indexer.Assets.{handle_asset_registered, handle_uri}
use agro_diamond_compliance.Indexer.Wallets.{
  handle_identity_bound, handle_identity_unbound, handle_wallet_frozen, handle_asset_frozen,
  handle_partial_freeze, handle_lockup_set, handle_wallet_recovered,
}
use agro_diamond_compliance.Indexer.Protocol.{
  handle_generic_event, handle_generic_event_with_token_and_addr, handle_generic_event_addr_only,
  handle_asset_paused, handle_role_event, handle_snapshot_created, handle_dividend_created,
  handle_dividend_claimed, handle_global_plugin_registered, handle_global_plugin_status_changed,
  handle_reward_asset_event, handle_yield_deposited, handle_yield_claimed,
  handle_country_restriction, handle_max_setting,
}

-- The signatures whose hashes are compared, in the order of the `switch`.
abbrev pub minted_sig : Bytes
minted_sig = codes "Minted(uint256,address,uint256)"

abbrev pub burned_sig : Bytes
burned_sig = codes "Burned(uint256,address,uint256)"

abbrev pub forced_transfer_sig : Bytes
forced_transfer_sig = codes "ForcedTransfer(uint256,address,address,uint256,bytes32)"

abbrev pub transfer_single_sig : Bytes
transfer_single_sig = codes "TransferSingle(address,address,address,uint256,uint256)"

module _ (db : RocksDb) (eth : Ethereum) (diamond : Bytes) (client : Option Node) where
  open db use {State}

  abbrev pub Handler : Type 0
  Handler = List Bytes → Log → Action State (Unit {0})

  -- The cases of the `switch`.
  unfoldable pub handlers : List (Bytes × Handler)
  handlers =
      (minted_sig, handle_minted db eth)
      ∷ (burned_sig, handle_burned db eth)
      ∷ (forced_transfer_sig, handle_forced_transfer db eth)
      ∷ (transfer_single_sig, handle_transfer_single db eth)
      ∷ (
        codes "AssetRegistered(uint256,address,uint32)",
        handle_asset_registered db eth diamond client,
      )
      ∷ (
        codes "AssetConfigUpdated(uint256)",
        handle_generic_event db eth (codes "asset_config_updated"),
      )
      ∷ (
        codes "ComplianceModuleAdded(uint256,address)",
        handle_generic_event_with_token_and_addr db eth (codes "compliance_module_added"),
      )
      ∷ (
        codes "ComplianceModuleRemoved(uint256,address)",
        handle_generic_event_with_token_and_addr db eth (codes "compliance_module_removed"),
      )
      ∷ (codes "URI(string,uint256)", handle_uri db eth)
      ∷ (codes "IdentityBound(address,address,uint16)", handle_identity_bound db eth)
      ∷ (codes "IdentityUnbound(address)", handle_identity_unbound db eth)
      ∷ (codes "WalletFrozen(address,bool)", handle_wallet_frozen db eth)
      ∷ (codes "AssetFrozen(uint256,address,bool)", handle_asset_frozen db eth)
      ∷ (codes "PartialFreeze(uint256,address,uint256)", handle_partial_freeze db eth)
      ∷ (codes "LockupSet(uint256,address,uint64)", handle_lockup_set db eth)
      ∷ (
        codes "RoleGranted(bytes32,address,address)",
        handle_role_event db eth (codes "role_granted"),
      )
      ∷ (
        codes "RoleRevoked(bytes32,address,address)",
        handle_role_event db eth (codes "role_revoked"),
      )
      ∷ (
        codes "EmergencyPause(address)",
        handle_generic_event_addr_only db eth (codes "emergency_pause"),
      )
      ∷ (
        codes "ProtocolUnpaused(address)",
        handle_generic_event_addr_only db eth (codes "protocol_unpaused"),
      )
      ∷ (codes "AssetPaused(uint256,address)", handle_asset_paused db eth true)
      ∷ (codes "AssetUnpaused(uint256,address)", handle_asset_paused db eth false)
      ∷ (codes "WalletRecovered(address,address,address)", handle_wallet_recovered db eth)
      ∷ (codes "SnapshotCreated(uint256,uint256,uint256,uint64)", handle_snapshot_created db eth)
      ∷ (
        codes "DividendCreated(uint256,uint256,uint256,uint256,address)",
        handle_dividend_created db eth,
      )
      ∷ (codes "DividendClaimed(uint256,address,uint256)", handle_dividend_claimed db eth)
      ∷ (
        codes "GroupCreated(uint256,uint256,string,uint256)",
        handle_generic_event db eth (codes "group_created"),
      )
      ∷ (
        codes "UnitMinted(uint256,uint256,address,string,uint256)",
        handle_generic_event db eth (codes "unit_minted"),
      )
      ∷ (codes "GlobalPluginRegistered(address,string)", handle_global_plugin_registered db eth)
      ∷ (
        codes "GlobalPluginRemoved(address)",
        handle_generic_event_addr_only db eth (codes "global_plugin_removed"),
      )
      ∷ (
        codes "GlobalPluginStatusChanged(address,bool)",
        handle_global_plugin_status_changed db eth,
      )
      ∷ (
        codes "PluginModuleAdded(uint256,address)",
        handle_generic_event_with_token_and_addr db eth (codes "plugin_module_added"),
      )
      ∷ (
        codes "PluginModuleRemoved(uint256,address)",
        handle_generic_event_with_token_and_addr db eth (codes "plugin_module_removed"),
      )
      ∷ (
        codes "PluginModulesSet(uint256,address[])",
        handle_generic_event db eth (codes "plugin_modules_set"),
      )
      ∷ (
        codes "RewardAssetAdded(uint256,address,uint256,uint8)",
        handle_reward_asset_event db eth (codes "reward_asset_added"),
      )
      ∷ (
        codes "RewardAssetRemoved(uint256,address,uint256,uint8)",
        handle_reward_asset_event db eth (codes "reward_asset_removed"),
      )
      ∷ (codes "YieldDeposited(uint256,bytes32,uint256)", handle_yield_deposited db eth)
      ∷ (codes "YieldClaimed(uint256,bytes32,address,uint256)", handle_yield_claimed db eth)
      ∷ (
        codes "CountryRestricted(uint256,uint16)",
        handle_country_restriction db eth (codes "country_restricted"),
      )
      ∷ (
        codes "CountryUnrestricted(uint256,uint16)",
        handle_country_restriction db eth (codes "country_unrestricted"),
      )
      ∷ (
        codes "MaxBalanceSet(uint256,uint256)",
        handle_max_setting db eth (codes "max_balance_set") (codes "maxBalance"),
      )
      ∷ (
        codes "MaxHoldersSet(uint256,uint256)",
        handle_max_setting db eth (codes "max_holders_set") (codes "maxHolders"),
      )
      ∷ []

  -- The first case whose hash is the first topic; without one nothing is done.
  unfoldable pub dispatch : List (Bytes × Handler) → Bytes → Handler
  dispatch [] sig topics log = ok tt
  dispatch ((name, handler) ∷ rest) sig topics log =
      let other = dispatch rest sig topics log in
      if sig == eth.keccak256_hash name then handler topics log else other

  -- The handler, and then the cursor; a log without topics is ignored.
  unfoldable pub handle_topics : Handler
  unfolding dispatch
  handle_topics [] log = ok tt
  handle_topics (sig ∷ topics) log =
      dispatch handlers sig (sig ∷ topics) log >> logged (set_cursor db log.block_number)

  unfoldable pub handle_log : Log → Action State (Unit {0})
  unfolding handle_topics
  handle_log log = handle_topics log.topics log

  -- `for _, vLog := range logs { idx.handleLog(vLog) }`
  unfoldable pub handle_logs : List Log → Action State (Unit {0})
  unfolding handle_log
  handle_logs [] = ok tt
  handle_logs (log ∷ logs) = handle_log log >> handle_logs logs
