-- ===== src/Graph/Compliance.antt =====
-- The queries on assets, identities, freezes and protocol events.
use agro_diamond_compliance.Prelude.{Option, none, some, List, [], ◌∷◌}
use agro_diamond_compliance.Prelude.Int.{ℤ, pos}
use agro_diamond_compliance.Bytes.{Bytes}
use agro_diamond_compliance.Action.{Action, pure, or_value, ◌>>=◌}
use agro_diamond_compliance.RocksDb.{RocksDb}
use agro_diamond_compliance.Store.Records.{AssetConfig, Identity, FreezeState, GenericEvent}
use agro_diamond_compliance.Store.Values.{push}
use agro_diamond_compliance.Store.Assets.{get_all_assets}
use agro_diamond_compliance.Store.Events.{get_protocol_events, signed}
use agro_diamond_compliance.Store.Identities.{
  get_identity, get_identities_by_country, get_all_identities,
}
use agro_diamond_compliance.Store.Freezes.{get_freezes, get_frozen_wallets}
use agro_diamond_compliance.Graph.{AssetView, build_asset_view, to_uint16}

-- `if v, ok := p.Args[…].(string); ok { text = v }`
abbrev pub given_text : Option Bytes → Bytes
given_text none = []
given_text (some v) = v

-- The numbers of an asset as `int`.
unfoldable pub asset_profile_id : AssetView → ℤ
asset_profile_id view = pos view.profile_id

unfoldable pub asset_holder_count : AssetView → ℤ
unfolding signed
asset_holder_count view = signed view.holder_count

unfoldable pub asset_registered_at : AssetView → ℤ
unfolding signed
asset_registered_at view = signed view.registered_at

module _ (db : RocksDb) where
  open db use {State}

  unfoldable pub resolve_asset : Bytes → Action State (Option AssetView)
  resolve_asset id = build_asset_view db id

  -- The loop of `assets`: an error or a missing asset is skipped.
  unfoldable pub views_of : List AssetView → List AssetConfig → Action State (List AssetView)
  views_of views [] = pure views
  views_of views (cfg ∷ configs) = do
    view ← or_value none (build_asset_view db cfg.token_id)
    views_of (push views view) configs

  unfoldable pub resolve_assets : Action State (List AssetView)
  unfolding views_of
  resolve_assets = do configs ← get_all_assets db; views_of [] configs

  -- `events` of an asset
  unfoldable pub resolve_asset_events :
      AssetView → ℤ → Option Bytes → Action State (List GenericEvent)
  resolve_asset_events view first event_type =
      get_protocol_events db first (given_text event_type) view.token_id []

  unfoldable pub resolve_identity : Bytes → Action State (Option Identity)
  resolve_identity wallet = get_identity db wallet

  unfoldable pub resolve_identities : Option ℤ → ℤ → Action State (List Identity)
  resolve_identities none first = get_all_identities db first
  resolve_identities (some country) first = get_identities_by_country db (to_uint16 country) first

  unfoldable pub resolve_freezes : Bytes → Action State (List FreezeState)
  resolve_freezes wallet = get_freezes db wallet

  unfoldable pub resolve_frozen_wallets : Option Bytes → Action State (List FreezeState)
  resolve_frozen_wallets token_id = get_frozen_wallets db (given_text token_id)

  unfoldable pub resolve_protocol_events :
      ℤ → Option Bytes → Option Bytes → Option Bytes → Action State (List GenericEvent)
  resolve_protocol_events first event_type token_id address =
      get_protocol_events db first (given_text event_type) (given_text token_id)
        (given_text address)
