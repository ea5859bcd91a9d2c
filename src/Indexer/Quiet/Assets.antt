-- ===== src/Indexer/Quiet/Assets.antt =====
-- The handlers of assets, of plugins and of forced transfers, where they do not panic.
use agro_diamond_compliance.Prelude.{◌≡◌, ◌≢◌, refl, Option, none, some, true, List, ◌∷◌}
use agro_diamond_compliance.Bytes.{Bytes}
use agro_diamond_compliance.Ethereum.{Ethereum}
use agro_diamond_compliance.Node.{Log, Node}
use agro_diamond_compliance.RocksDb.{RocksDb, IsReliable}
use agro_diamond_compliance.Store.Quiet
use agro_diamond_compliance.Store.Records.{TransferEvent, AssetConfig}
use agro_diamond_compliance.Store.Assets.{update_asset_uri, record_asset}
use agro_diamond_compliance.Store.Ledger.Others.{event_key-IsForeign}
use agro_diamond_compliance.Store.Ledger.Quiet.{put-IsQuiet, IsQuiet, IsSilent, logged-IsSilent}
use agro_diamond_compliance.Indexer.Recording.{record_generic_event}
use agro_diamond_compliance.Indexer.Protocol.{register_plugin, handle_global_plugin_registered}
use agro_diamond_compliance.Indexer.Quiet.{
  or_return-IsSilent, nothing-IsSilent, record_generic_event-IsSilent, store_and_record,
}
use agro_diamond_compliance.Store.Ledger.{record_event_only}
use agro_diamond_compliance.Store.Events.{put_event}
use agro_diamond_compliance.Indexer.Abi.{has_bytes, set_bytes}
use agro_diamond_compliance.Indexer.Assets.{
  Fetched, fetched, refused, crash, fetch_asset_name_symbol, string_of_log, record_registered,
  register, set_uri, handle_asset_registered, handle_uri,
}
use agro_diamond_compliance.Indexer.Transfers.{handle_forced_transfer}

-- The contract's answers on the token of an `AssetRegistered` log decode without a panic.
abbrev pub AreDecoded : Ethereum → Bytes → Option Node → List Bytes → Type 0
AreDecoded eth diamond client (_ ∷ id ∷ _ ∷ _) =
    fetch_asset_name_symbol eth diamond client (set_bytes id) ≢ crash
AreDecoded eth diamond client _ = Unit

module _ (db : RocksDb) (L : IsReliable db) (eth : Ethereum) where
  open db use {State}

  put_event-IsQuiet : (e : TransferEvent) → IsQuiet db L (put_event db e)
  unfolding put_event
  put_event-IsQuiet e = put-IsQuiet db L _ _ λ t. event_key-IsForeign t e.block e.log_index

  -- With 32 bytes of data.
  pub handle_forced_transfer-IsSilent :
      (topics : List Bytes) (log : Log)
      → has_bytes 32 log.bytes ≡ true
      → IsSilent db L (handle_forced_transfer db eth topics log)
  unfolding handle_forced_transfer record_event_only
  handle_forced_transfer-IsSilent (_ ∷ id ∷ from ∷ to ∷ _) log h s =
      rw h (logged-IsSilent db L (put_event db _) (put_event-IsQuiet _) s)
  handle_forced_transfer-IsSilent _ log h s = nothing-IsSilent db L eth s

  set_uri-IsSilent :
      (log : Log) (id : Bytes) (uri : Option Bytes)
      → uri ≢ none
      → IsSilent db L (set_uri db eth log id uri)
  unfolding set_uri
  set_uri-IsSilent log id none h = absurd (h refl)
  set_uri-IsSilent log id (some uri) h =
      store_and_record db L eth (update_asset_uri db _ uri) log _ _ _ _
        (Quiet.update_asset_uri-IsQuiet db L _ uri)

  register_plugin-IsSilent :
      (log : Log) (plugin : Bytes) (name : Option Bytes)
      → name ≢ none
      → IsSilent db L (register_plugin db eth log plugin name)
  unfolding register_plugin
  register_plugin-IsSilent log plugin none h = absurd (h refl)
  register_plugin-IsSilent log plugin (some name) h =
      record_generic_event-IsSilent db L eth log _ _ _ _

  -- Where the decoding of the string does not panic.
  pub handle_uri-IsSilent :
      (topics : List Bytes) (log : Log)
      → string_of_log log.bytes ≢ none
      → IsSilent db L (handle_uri db eth topics log)
  unfolding handle_uri
  handle_uri-IsSilent (_ ∷ id ∷ _) log h = set_uri-IsSilent log id (string_of_log log.bytes) h
  handle_uri-IsSilent _ log h = nothing-IsSilent db L eth

  pub handle_global_plugin_registered-IsSilent :
      (topics : List Bytes) (log : Log)
      → string_of_log log.bytes ≢ none
      → IsSilent db L (handle_global_plugin_registered db eth topics log)
  unfolding handle_global_plugin_registered
  handle_global_plugin_registered-IsSilent (_ ∷ plugin ∷ _) log h =
      register_plugin-IsSilent log plugin (string_of_log log.bytes) h
  handle_global_plugin_registered-IsSilent _ log h = nothing-IsSilent db L eth

  record_registered-IsSilent :
      (log : Log) (a : AssetConfig) → IsSilent db L (record_registered db eth log a)
  unfolding record_registered
  record_registered-IsSilent log a =
      or_return-IsSilent db L eth (record_asset db a) (record_generic_event db eth log _ _ _ _)
        (Quiet.record_asset-IsQuiet db L a) (record_generic_event-IsSilent db L eth log _ _ _ _)

  register-IsSilent :
      (log : Log) (id issuer : Bytes) (answer : Fetched (Bytes × Bytes))
      → answer ≢ crash
      → IsSilent db L (register db eth log id issuer answer)
  unfolding register
  register-IsSilent log id issuer (fetched (name, symbol)) h = record_registered-IsSilent log _
  register-IsSilent log id issuer (refused _) h = record_registered-IsSilent log _
  register-IsSilent log id issuer crash h = absurd (h refl)

  -- Where the calls to the contract do not panic.
  pub handle_asset_registered-IsSilent :
      (diamond : Bytes) (client : Option Node) (topics : List Bytes) (log : Log)
      → AreDecoded eth diamond client topics
      → IsSilent db L (handle_asset_registered db eth diamond client topics log)
  unfolding handle_asset_registered
  handle_asset_registered-IsSilent diamond client (_ ∷ id ∷ issuer ∷ _) log h =
      register-IsSilent log id issuer _ h
  handle_asset_registered-IsSilent diamond client _ log h = nothing-IsSilent db L eth
