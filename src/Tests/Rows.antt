-- ===== src/Tests/Rows.antt =====
-- Rows of all kinds on a database in memory.
use agro_diamond_compliance.Prelude.{◌≡◌, refl, true, none, some, [], ◌∷◌, arith, inl, bytes_eq}
use agro_diamond_compliance.Bytes.{codes, less}
use agro_diamond_compliance.Bytes.Utf8.{valid_utf8}
use agro_diamond_compliance.Action.{Returns, ok}
use agro_diamond_compliance.RocksDb.Entries.{raw, object, lookup}
use agro_diamond_compliance.RocksDb.Memory.{memory, memory-IsReliable, empty, Table}
use agro_diamond_compliance.Store.Keys.{
  event_key, identity_key, identity_country_key, generic_event_key, ge_token_key, ge_addr_key,
}
use agro_diamond_compliance.Store.Keys.Order.{less-event_key}
use agro_diamond_compliance.Store.Records.{GenericEvent, Identity, FreezeState, marshal_identity}
use agro_diamond_compliance.Store.Values.{decode_pointer}
use agro_diamond_compliance.Store.Events.{put_generic_event}
use agro_diamond_compliance.Store.Events.OfIndex.{referred}
use agro_diamond_compliance.Store.Events.Indexed.{IsComplete, put_generic_event-referred}
use agro_diamond_compliance.Store.Identities.{record_identity, get_identity, delete_identity}
use agro_diamond_compliance.Store.Identities.Binding.{
  IsBinding, delete_identity-get_identity, record_identity-country_row,
}
use agro_diamond_compliance.Store.Assets.{blank_asset, get_asset, update_asset_paused}
use agro_diamond_compliance.Store.Assets.Updates.{IsConfig, update_asset_paused-get_asset}
use agro_diamond_compliance.Store.Freezes.{blank_freeze, get_freeze, update_freeze_amount}
use agro_diamond_compliance.Store.Freezes.Updates.{IsFreeze, update_freeze_amount-get_freeze}
use agro_diamond_compliance.Tests.Fixtures.{token}

abbrev wallet : Identity
wallet = record { wallet = codes "0xA"; identity = codes "0xB"; country = 76; bound_at = 5 }

wallet-IsBinding : IsBinding wallet
unfolding valid_utf8
wallet-IsBinding = record {
  plain_wallet =
      ((omega arith, omega arith), ((omega arith, omega arith), ((omega arith, omega arith), tt)));
  valid_wallet = refl;
  valid_identity = refl;
  small_country = omega arith;
  small_block = omega arith;
}

-- The database behind the binding in the country 76, and behind one in the country 32.
abbrev bound : Table
bound = ((identity_key (codes "0xA"), object (marshal_identity wallet)) ∷ [], (tt, tt))

abbrev indexed : Table
indexed = ((identity_country_key 32 (codes "0xA"), raw (codes "0xA")) ∷ [], (tt, tt))

delete_identity-get_identity_example : Returns (delete_identity memory (codes "0xA") bound) λ s'.
    (get_identity memory (codes "0xA") s' ≡ ok none s')
    × (lookup (identity_country_key 76 (codes "0xA")) s'.0 ≡ none)
unfolding lookup
delete_identity-get_identity_example =
    delete_identity-get_identity memory memory-IsReliable wallet bound wallet-IsBinding
      (ground arith)

record_identity-country_row_example : Returns (record_identity memory wallet indexed) λ s'.
    (lookup (identity_country_key 32 (codes "0xA")) s'.0 ≡ some (raw (codes "0xA")))
    × (get_identity memory (codes "0xA") s' ≡ ok (some wallet) s')
unfolding lookup
record_identity-country_row_example =
    record_identity-country_row memory memory-IsReliable 32 wallet indexed wallet-IsBinding
      (ground arith)

blank-IsConfig : IsConfig (blank_asset token)
unfolding valid_utf8
blank-IsConfig = record {
  valid_token = refl;
  valid_name = refl;
  valid_symbol = refl;
  valid_issuer = refl;
  small_profile = omega arith;
  valid_uri = refl;
  small_block = omega arith;
}

no_asset : get_asset memory token empty ≡ ok none empty
unfolding get_asset lookup decode_pointer
no_asset = refl

update_asset_paused-get_asset_example :
    Returns
      (update_asset_paused memory token true empty)
      λ s'. get_asset memory token s' ≡ ok (some (record (blank_asset token) { paused = true })) s'
update_asset_paused-get_asset_example =
    update_asset_paused-get_asset memory memory-IsReliable token none empty no_asset refl
      blank-IsConfig true

less-event_key_example : less (event_key 9 100) (event_key 10 2) ≡ true
less-event_key_example = less-event_key 9 100 10 2 (omega arith) (omega arith) (inl (omega arith))

abbrev frozen_event : GenericEvent
frozen_event = record {
  tx_hash = codes "0x9";
  block = 12;
  log_index = 4;
  event_type = codes "wallet_frozen";
  token_id = token;
  address = codes "0xA";
  data_json = codes "{}";
}

frozen_event-IsComplete : IsComplete frozen_event
unfolding valid_utf8
frozen_event-IsComplete = record {
  valid_tx = refl;
  small_block = omega arith;
  small_index = omega arith;
  valid_type = refl;
  valid_token = refl;
  valid_address = refl;
  valid_data = refl;
  has_token = ground arith;
  has_address = ground arith;
}

put_generic_event-referred_example : Returns (put_generic_event memory frozen_event empty) λ s'.
    (lookup (ge_token_key token 12 4) s'.0 ≡ some (raw (generic_event_key 12 4)))
    × (lookup (ge_addr_key (codes "0xA") 12 4) s'.0 ≡ some (raw (generic_event_key 12 4)))
    × (referred s'.0 [] (raw (generic_event_key 12 4)) ≡ some frozen_event)
put_generic_event-referred_example =
    put_generic_event-referred memory memory-IsReliable frozen_event frozen_event-IsComplete empty

abbrev blank : FreezeState
blank = blank_freeze (codes "0xA") token

blank-IsFreeze : IsFreeze blank
unfolding valid_utf8
blank-IsFreeze = record {
  valid_wallet = refl;
  valid_token = refl;
  valid_amount = refl;
  small_expiry = omega arith;
}

no_freeze : get_freeze memory (codes "0xA") token empty ≡ ok none empty
unfolding get_freeze lookup decode_pointer
no_freeze = refl

update_freeze_amount-get_freeze_example :
    Returns (update_freeze_amount memory (codes "0xA") token (codes "12") empty) λ s'.
      get_freeze memory (codes "0xA") token s'
      ≡ ok (some (record blank { frozen_amount = codes "12" })) s'
unfolding valid_utf8
update_freeze_amount-get_freeze_example =
    update_freeze_amount-get_freeze memory memory-IsReliable (codes "0xA") token none empty
      no_freeze refl refl blank-IsFreeze (codes "12") refl
