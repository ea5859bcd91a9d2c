-- ===== src/Store/Assets.antt =====
-- Asset configurations (ASSET CONFIG).
pub mod Updates
use agro_diamond_compliance.Prelude.{Bool, false, Option, none, some, List, []}
use agro_diamond_compliance.Bytes.{Bytes}
use agro_diamond_compliance.Action.{Action, ok, ◌>>=◌}
use agro_diamond_compliance.RocksDb.{RocksDb}
use agro_diamond_compliance.RocksDb.Entries.{object}
use agro_diamond_compliance.RocksDb.Scan.{while_prefix}
use agro_diamond_compliance.Store.Keys.{prefix_asset_meta, asset_meta_key}
use agro_diamond_compliance.Store.Records.{AssetConfig, marshal_asset, unmarshal_asset}
use agro_diamond_compliance.Store.Values.{decode_pointer, decoded_rows}

-- `&AssetConfig{TokenID: tokenID}`
abbrev pub blank_asset : Bytes → AssetConfig
blank_asset token_id = record {
  token_id = token_id;
  name = [];
  symbol = [];
  issuer = [];
  profile_id = 0;
  uri = [];
  paused = false;
  registered_at = 0;
}

-- `if asset == nil { asset = … }`
abbrev pub or_blank : Bytes → Option AssetConfig → AssetConfig
or_blank token_id none = blank_asset token_id
or_blank token_id (some a) = a

module _ (db : RocksDb) where
  open db use {State, get, put, seek}

  unfoldable pub record_asset : AssetConfig → Action State (Unit {0})
  record_asset a = put (asset_meta_key a.token_id) (object (marshal_asset a))

  unfoldable pub get_asset : Bytes → Action State (Option AssetConfig)
  get_asset token_id = do
    found ← get (asset_meta_key token_id)
    decode_pointer unmarshal_asset found

  unfoldable pub get_all_assets : Action State (List AssetConfig)
  get_all_assets s =
      ok (decoded_rows unmarshal_asset (while_prefix prefix_asset_meta (seek s prefix_asset_meta)))
        s

  unfoldable pub update_asset_paused : Bytes → Bool → Action State (Unit {0})
  update_asset_paused token_id paused = do
    found ← get_asset token_id
    record_asset (record (or_blank token_id found) { paused = paused })

  unfoldable pub update_asset_uri : Bytes → Bytes → Action State (Unit {0})
  update_asset_uri token_id uri = do
    found ← get_asset token_id
    record_asset (record (or_blank token_id found) { uri = uri })
