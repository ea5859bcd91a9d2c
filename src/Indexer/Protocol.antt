-- ===== src/Indexer/Protocol.antt =====
-- The handlers that only record a generic event, and the pause flag of an asset.
use agro_diamond_compliance.Prelude.{Bool, Option, none, some, List, [], ◌∷◌, eqb, if◌then◌else◌}
use agro_diamond_compliance.Bytes.{Bytes, codes}
use agro_diamond_compliance.Json.{str, num, boolean}
use agro_diamond_compliance.Action.{Action, ok, panic, logged, ◌>>◌}
use agro_diamond_compliance.Ethereum.{Ethereum}
use agro_diamond_compliance.Node.{Log}
use agro_diamond_compliance.RocksDb.{RocksDb}
use agro_diamond_compliance.Store.Assets.{update_asset_paused}
use agro_diamond_compliance.Indexer.Abi.{set_bytes, uint, decimal, has_bytes, word0, word1}
use agro_diamond_compliance.Indexer.Assets.{string_of_log}
use agro_diamond_compliance.Indexer.Wallets.{word_flag, word_text}
use agro_diamond_compliance.Indexer.Recording.{record_generic_event}

-- A topic as a token id or an address, empty where the log has too few topics.
unfoldable pub token_topic : List Bytes → Bytes
token_topic (_ ∷ id ∷ _) = decimal id
token_topic _ = []

module _ (db : RocksDb) (eth : Ethereum) where
  open db use {State}
  open eth use {hex, hash_hex, bytes_to_address}

  unfoldable pub second_address : List Bytes → Bytes
  second_address (_ ∷ a ∷ _) = hex (bytes_to_address a)
  second_address _ = []

  unfoldable pub third_address : List Bytes → Bytes
  third_address (_ ∷ _ ∷ a ∷ _) = hex (bytes_to_address a)
  third_address _ = []

  unfoldable pub handle_generic_event : Bytes → List Bytes → Log → Action State (Unit {0})
  unfolding token_topic
  handle_generic_event event_type topics log =
      record_generic_event db eth log event_type (token_topic topics) [] none

  unfoldable pub handle_generic_event_with_token_and_addr :
      Bytes → List Bytes → Log → Action State (Unit {0})
  unfolding token_topic third_address
  handle_generic_event_with_token_and_addr event_type topics log =
      record_generic_event db eth log event_type (token_topic topics) (third_address topics)
        (some ((codes "module", str (third_address topics)) ∷ []))

  unfoldable pub handle_generic_event_addr_only : Bytes → List Bytes → Log → Action State (Unit {0})
  unfolding second_address
  handle_generic_event_addr_only event_type topics log =
      record_generic_event db eth log event_type [] (second_address topics) none

  unfoldable pub handle_asset_paused : Bool → List Bytes → Log → Action State (Unit {0})
  handle_asset_paused paused (_ ∷ id ∷ by ∷ _) log =
      logged (update_asset_paused db (decimal id) paused)
      >> record_generic_event db eth log
          (if paused then codes "asset_paused" else codes "asset_unpaused") (decimal id)
          (hex (bytes_to_address by)) none
  handle_asset_paused paused _ log = ok tt

  unfoldable pub handle_role_event : Bytes → List Bytes → Log → Action State (Unit {0})
  handle_role_event event_type (_ ∷ role ∷ account ∷ sender ∷ _) log =
      record_generic_event db eth log event_type [] (hex (bytes_to_address account)) (
        some (
          (codes "role", str (hash_hex role))
          ∷ (codes "sender", str (hex (bytes_to_address sender)))
          ∷ []))
  handle_role_event event_type _ log = ok tt

  unfoldable pub handle_snapshot_created : List Bytes → Log → Action State (Unit {0})
  handle_snapshot_created (_ ∷ snapshot ∷ id ∷ _) log =
      let full = has_bytes 64 log.bytes in
      record_generic_event db eth log (codes "snapshot_created") (decimal id) [] (
        some (
          (codes "snapshotId", str (decimal snapshot))
          ∷ (codes "totalSupply", str (if full then decimal (word0 log.bytes) else []))
          ∷ (codes "timestamp", num (if full then uint 64 (set_bytes (word1 log.bytes)) else 0))
          ∷ []))
  handle_snapshot_created _ log = ok tt

  unfoldable pub handle_dividend_created : List Bytes → Log → Action State (Unit {0})
  handle_dividend_created (_ ∷ dividend ∷ id ∷ snapshot ∷ _) log =
      let full = has_bytes 64 log.bytes in
      record_generic_event db eth log (codes "dividend_created") (decimal id) [] (
        some (
          (codes "dividendId", str (decimal dividend))
          ∷ (codes "snapshotId", str (decimal snapshot))
          ∷ (codes "totalAmount", str (if full then decimal (word0 log.bytes) else []))
          ∷ (
            codes "paymentToken",
            str (if full then hex (bytes_to_address (word1 log.bytes)) else []),
          )
          ∷ []))
  handle_dividend_created _ log = ok tt

  unfoldable pub handle_dividend_claimed : List Bytes → Log → Action State (Unit {0})
  handle_dividend_claimed (_ ∷ dividend ∷ holder ∷ _) log =
      record_generic_event db eth log (codes "dividend_claimed") [] (hex (bytes_to_address holder))
        (some (
          (codes "dividendId", str (decimal dividend))
          ∷ (codes "amount", str (word_text log.bytes))
          ∷ []))
  handle_dividend_claimed _ log = ok tt

  -- `none` is the panic of the decoding.
  unfoldable pub register_plugin : Log → Bytes → Option Bytes → Action State (Unit {0})
  register_plugin log plugin none = panic
  register_plugin log plugin (some name) =
      record_generic_event db eth log (codes "global_plugin_registered") []
        (hex (bytes_to_address plugin))
        (some
          ((codes "plugin", str (hex (bytes_to_address plugin))) ∷ (codes "name", str name) ∷ []))

  unfoldable pub handle_global_plugin_registered : List Bytes → Log → Action State (Unit {0})
  unfolding register_plugin string_of_log
  handle_global_plugin_registered (_ ∷ plugin ∷ _) log =
      register_plugin log plugin (string_of_log log.bytes)
  handle_global_plugin_registered _ log = ok tt

  unfoldable pub handle_global_plugin_status_changed : List Bytes → Log → Action State (Unit {0})
  handle_global_plugin_status_changed (_ ∷ plugin ∷ _) log =
      record_generic_event db eth log (codes "global_plugin_status_changed") []
        (hex (bytes_to_address plugin))
        (some (
          (codes "plugin", str (hex (bytes_to_address plugin)))
          ∷ (codes "active", boolean (word_flag log.bytes))
          ∷ []))
  handle_global_plugin_status_changed _ log = ok tt

  asset_type : Bytes → Bytes
  unfolding set_bytes
  asset_type word = if eqb (uint 64 (set_bytes word)) 0 then codes "ERC20" else codes "ERC1155"

  unfoldable pub handle_reward_asset_event : Bytes → List Bytes → Log → Action State (Unit {0})
  unfolding asset_type
  handle_reward_asset_event event_type (_ ∷ id ∷ token ∷ _) log =
      let full = has_bytes 64 log.bytes in
      record_generic_event db eth log event_type (decimal id) (hex (bytes_to_address token)) (
        some (
          (codes "token", str (hex (bytes_to_address token)))
          ∷ (codes "id", str (if full then decimal (word0 log.bytes) else []))
          ∷ (codes "assetType", str (if full then asset_type (word1 log.bytes) else []))
          ∷ []))
  handle_reward_asset_event event_type _ log = ok tt

  unfoldable pub handle_yield_deposited : List Bytes → Log → Action State (Unit {0})
  handle_yield_deposited (_ ∷ id ∷ reward_key ∷ _) log =
      record_generic_event db eth log (codes "yield_deposited") (decimal id) [] (
        some (
          (codes "rewardKey", str (hash_hex reward_key))
          ∷ (codes "amount", str (word_text log.bytes))
          ∷ []))
  handle_yield_deposited _ log = ok tt

  unfoldable pub handle_yield_claimed : List Bytes → Log → Action State (Unit {0})
  handle_yield_claimed (_ ∷ id ∷ reward_key ∷ holder ∷ _) log =
      record_generic_event db eth log (codes "yield_claimed") (decimal id)
        (hex (bytes_to_address holder))
        (some (
          (codes "rewardKey", str (hash_hex reward_key))
          ∷ (codes "holder", str (hex (bytes_to_address holder)))
          ∷ (codes "amount", str (word_text log.bytes))
          ∷ []))
  handle_yield_claimed _ log = ok tt

  unfoldable pub handle_country_restriction : Bytes → List Bytes → Log → Action State (Unit {0})
  handle_country_restriction event_type (_ ∷ id ∷ country ∷ _) log =
      record_generic_event db eth log event_type (decimal id) []
        (some ((codes "country", num (uint 16 (set_bytes country))) ∷ []))
  handle_country_restriction event_type _ log = ok tt

  unfoldable pub handle_max_setting : Bytes → Bytes → List Bytes → Log → Action State (Unit {0})
  handle_max_setting event_type field_name (_ ∷ id ∷ _) log =
      record_generic_event db eth log event_type (decimal id) []
        (some ((field_name, str (word_text log.bytes)) ∷ []))
  handle_max_setting event_type field_name _ log = ok tt
