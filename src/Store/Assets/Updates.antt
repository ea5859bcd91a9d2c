-- ===== src/Store/Assets/Updates.antt =====
-- Reading an asset configuration after it is written or updated.
use agro_diamond_compliance.Prelude.{◌^◌, ◌<◌, ◌≡◌, subst, Bool, Option, some, arith, bytes_eq}
use agro_diamond_compliance.Bytes.{Bytes}
use agro_diamond_compliance.Action.{Returns, ok, ◌>>=◌}
use agro_diamond_compliance.RocksDb.{RocksDb, IsReliable}
use agro_diamond_compliance.RocksDb.Entries.{object, lookup-insert}
use agro_diamond_compliance.Store.Keys.{asset_meta_key}
use agro_diamond_compliance.Store.Records.{AssetConfig, marshal_asset}
use agro_diamond_compliance.Store.Records.RoundTrip.{IsValid, unmarshal-marshal_asset}
use agro_diamond_compliance.Store.Values.{decode_pointer, decode_or, decode, decoded}
use agro_diamond_compliance.Store.Assets.{
  or_blank, record_asset, get_asset, update_asset_paused, update_asset_uri,
}

-- A configuration with texts that JSON keeps and numbers that fit.
pub record IsConfig (a : AssetConfig) : Type 0 where
  pub valid_token : IsValid a.token_id
  pub valid_name : IsValid a.name
  pub valid_symbol : IsValid a.symbol
  pub valid_issuer : IsValid a.issuer
  pub small_profile : a.profile_id < 2 ^ 32
  pub valid_uri : IsValid a.uri
  pub small_block : a.registered_at < 2 ^ 64

module _ (db : RocksDb) (L : IsReliable db) where
  abbrev stored : AssetConfig → db.State → db.State
  stored a s = L.write (asset_meta_key a.token_id) (object (marshal_asset a)) s

  record_asset_lem : (a : AssetConfig) (s : db.State) → record_asset db a s ≡ ok tt (stored a s)
  unfolding record_asset
  record_asset_lem a s = L.put_lem _ _ s

  get_asset-stored :
      (a : AssetConfig) (s : db.State)
      → IsConfig a
      → get_asset db a.token_id (stored a s) ≡ ok (some a) (stored a s)
  unfolding get_asset decode_pointer decode_or decode decoded
  get_asset-stored a s h =
      rw (◌>>=◌, L.get_lem, L.entries-write, lookup-insert)
        (ground (
          arith,
          unmarshal-marshal_asset a h.valid_token h.valid_name h.valid_symbol h.valid_issuer
              h.small_profile h.valid_uri h.small_block,
        ))

  get_asset-own :
      (a : AssetConfig) (t : Bytes) (s : db.State)
      → a.token_id ≡ t
      → IsConfig a
      → get_asset db t (stored a s) ≡ ok (some a) (stored a s)
  get_asset-own a t s own h =
      subst (λ k. get_asset db k (stored a s) ≡ ok (some a) (stored a s)) own
        (get_asset-stored a s h)

  -- After an asset is recorded, it is the asset of its token.
  pub record_asset-get_asset :
      (a : AssetConfig) (s : db.State)
      → IsConfig a
      → Returns (record_asset db a s) λ s'. get_asset db a.token_id s' ≡ ok (some a) s'
  record_asset-get_asset a s h = rw (record_asset_lem a s) (get_asset-stored a s h)

  module _ (t : Bytes) (found : Option AssetConfig) (s : db.State)
      (e : get_asset db t s ≡ ok found s) (own : (or_blank t found).token_id ≡ t)
      (h : IsConfig (or_blank t found)) where
    abbrev paused_as : Bool → AssetConfig
    paused_as paused = record (or_blank t found) { paused = paused }

    abbrev with_uri : Bytes → AssetConfig
    with_uri uri = record (or_blank t found) { uri = uri }

    -- On a reliable database, where an asset with well-formed fields and its own token id, or
    -- none, is found, `UpdateAssetPaused` returns, sets the flag of that asset, or of a blank
    -- one, and keeps its other fields.
    pub update_asset_paused-get_asset :
        (paused : Bool)
        → Returns
            (update_asset_paused db t paused s)
            λ s'. get_asset db t s' ≡ ok (some (record (or_blank t found) { paused = paused })) s'
    unfolding update_asset_paused
    update_asset_paused-get_asset paused =
        let valid : IsConfig (paused_as paused) = record {
          valid_token = h.valid_token;
          valid_name = h.valid_name;
          valid_symbol = h.valid_symbol;
          valid_issuer = h.valid_issuer;
          small_profile = h.small_profile;
          valid_uri = h.valid_uri;
          small_block = h.small_block;
        } in
        rw (◌>>=◌, e, record_asset_lem) (get_asset-own (paused_as paused) t s own valid)

    -- On a reliable database, where an asset with well-formed fields and its own token id, or
    -- none, is found, `UpdateAssetURI` of a valid text returns, sets the URI of that asset, or
    -- of a blank one, and keeps its other fields.
    pub update_asset_uri-get_asset :
        (uri : Bytes)
        → IsValid uri
        → Returns
            (update_asset_uri db t uri s)
            λ s'. get_asset db t s' ≡ ok (some (record (or_blank t found) { uri = uri })) s'
    unfolding update_asset_uri
    update_asset_uri-get_asset uri v =
        let valid : IsConfig (with_uri uri) = record {
          valid_token = h.valid_token;
          valid_name = h.valid_name;
          valid_symbol = h.valid_symbol;
          valid_issuer = h.valid_issuer;
          small_profile = h.small_profile;
          valid_uri = v;
          small_block = h.small_block;
        } in
        rw (◌>>=◌, e, record_asset_lem) (get_asset-own (with_uri uri) t s own valid)
