-- ===== src/Graph.antt =====
-- The resolvers of packages/indexer/internal/graph/schema.go: what each field of the GraphQL schema
-- reads from the store. Arguments come as `graphql-go` hands them over, its defaults filled in; an
-- optional argument that is not given is `none`.
pub mod Tokens
pub mod Compliance
pub mod Pages
pub mod Views
pub mod Portfolio
pub mod Handler
use agro_diamond_compliance.Prelude.{
  ℕ, ◌-◌, ◌%◌, ◌^◌, ◌&&◌, Bool, Option, none, some, List, [], take, length, ltb, if◌then◌else◌,
}
use agro_diamond_compliance.Prelude.Int.{ℤ, pos, negsuc, pos_part}
use agro_diamond_compliance.Bytes.{Bytes}
use agro_diamond_compliance.Action.{Action, pure, ◌>>=◌}
use agro_diamond_compliance.RocksDb.{RocksDb}
use agro_diamond_compliance.Store.Records.{TokenMeta, Holder, AssetConfig}
use agro_diamond_compliance.Store.Tokens.{get_token_meta, get_holders}
use agro_diamond_compliance.Store.Assets.{get_asset}

-- `assetView`
pub record AssetView : Type 0 where
  pub token_id : Bytes
  pub name : Bytes
  pub symbol : Bytes
  pub issuer : Bytes
  pub profile_id : ℕ
  pub uri : Bytes
  pub paused : Bool
  pub total_supply : Bytes
  pub holder_count : ℕ
  pub registered_at : ℕ

-- An element of `portfolio`.
pub record PortfolioHolding : Type 0 where
  pub token_id : Bytes
  pub balance : Bytes

-- The answer of `status`.
pub record IndexerStatus : Type 0 where
  pub last_block : ℕ
  pub token_count : ℕ

-- `uint16(country)` of an `int`.
unfoldable pub to_uint16 : ℤ → ℕ
to_uint16 (pos n) = n % 2 ^ 16
to_uint16 (negsuc n) = 2 ^ 16 - 1 - n % 2 ^ 16

-- The asset with its totals, from what the store has of both.
unfoldable pub merge_view : AssetConfig → TokenMeta → AssetView
merge_view cfg meta = record {
  token_id = cfg.token_id;
  name = cfg.name;
  symbol = cfg.symbol;
  issuer = cfg.issuer;
  profile_id = cfg.profile_id;
  uri = cfg.uri;
  paused = cfg.paused;
  total_supply = meta.total_supply;
  holder_count = meta.holder_count;
  registered_at = cfg.registered_at;
}

-- `if limit > 0 && limit < len(holders) { holders = holders[:limit] }`
unfoldable pub first_holders : ℤ → List Holder → List Holder
first_holders limit holders =
    if ltb 0 (pos_part limit) && ltb (pos_part limit) (length holders)
    then take (pos_part limit) holders
    else holders

module _ (db : RocksDb) where
  open db use {State}

  unfoldable with_config : Bytes → Option AssetConfig → Action State (Option AssetView)
  unfolding merge_view
  with_config token_id none = pure none
  with_config token_id (some cfg) = do
    meta ← get_token_meta db token_id
    pure (some (merge_view cfg meta))

  unfoldable pub build_asset_view : Bytes → Action State (Option AssetView)
  unfolding with_config
  build_asset_view token_id = do cfg ← get_asset db token_id; with_config token_id cfg

  -- `holders` of a token and of an asset.
  unfoldable pub resolve_holders : Bytes → ℤ → Action State (List Holder)
  unfolding first_holders
  resolve_holders token_id first = do
    holders ← get_holders db token_id
    pure (first_holders first holders)
