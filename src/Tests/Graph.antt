-- ===== src/Tests/Graph.antt =====
-- What the queries answer after small histories.
use agro_diamond_compliance.Prelude.{
  inl, [], ◌∷◌, ℕ, ◌≡◌, refl, true, some, [], List, arith, bytes_eq,
}
use agro_diamond_compliance.Prelude.Int.{pos}
use agro_diamond_compliance.Bytes.{codes}
use agro_diamond_compliance.Bytes.Decimal.{format_uint, format_int}
use agro_diamond_compliance.Bytes.Utf8.{valid_utf8}
use agro_diamond_compliance.Action.{Returns, ok, final}
use agro_diamond_compliance.RocksDb.Memory.{memory, memory-IsReliable, empty, Table}
use agro_diamond_compliance.Store.Records.{
  TransferEvent, GenericEvent, Holder, AssetConfig, marshal_asset, unmarshal_asset,
}
use agro_diamond_compliance.Store.Tokens.{get_holders}
use agro_diamond_compliance.Store.Assets.{record_asset, get_asset, get_all_assets}
use agro_diamond_compliance.Store.Assets.Updates.{IsConfig}
use agro_diamond_compliance.Store.Events.{get_recent_events, get_protocol_events, get_token_events}
use agro_diamond_compliance.Store.Events.Recent.{
  IsLast, transfer_events_in, protocol_events_in, get_recent_events-IsLast,
  get_protocol_events-IsLast,
}
use agro_diamond_compliance.Store.Events.OfIndex.{
  index_prefix, referred_in, get_protocol_events-referred,
}
use agro_diamond_compliance.Store.Events.OfToken.{AreOf, get_token_events-AreOf}
use agro_diamond_compliance.Store.Ledger.Rows.{supply_in, IsLedger}
use agro_diamond_compliance.Store.Ledger.Holdings.{Tracks, move_units, set_units}
use agro_diamond_compliance.Indexer.Abi.{set_bytes}
use agro_diamond_compliance.Indexer.Dispatch.{handle_logs}
use agro_diamond_compliance.Indexer.Replay.Moves.{IsAt}
use agro_diamond_compliance.Indexer.Replay.Histories.{handle_logs-refines}
use agro_diamond_compliance.Graph.{AssetView, PortfolioHolding, resolve_holders}
use agro_diamond_compliance.Graph.Tokens.{resolve_holder, resolve_portfolio}
use agro_diamond_compliance.Graph.Compliance.{resolve_asset, resolve_assets}
use agro_diamond_compliance.Graph.Pages.{IsPage, resolve_holders-IsPage}
use agro_diamond_compliance.Graph.Portfolio.{
  listed_balance, text_of_units, resolve_holder-Tracks, resolve_portfolio-Tracks,
}
use agro_diamond_compliance.Graph.Views.{
  IsViewOf, record_asset-resolve_asset, AreViewsOf, resolve_assets-AreViewsOf,
}
use agro_diamond_compliance.RocksDb.Entries.{object, lookup, insert, from}
use agro_diamond_compliance.RocksDb.Scan.{while_prefix}
use agro_diamond_compliance.Store.Keys.{asset_meta_key}
use agro_diamond_compliance.Store.Values.{decoded_rows, decode_pointer}
use agro_diamond_compliance.Store.Quiet.{record_asset-IsQuiet}
use agro_diamond_compliance.Tests.Fixtures.{
  empty-IsLedger, eth, eth-IsLawful, token, alice, bob, at_final,
}
use agro_diamond_compliance.Tests.Replay.{
  diamond, busy_node, no_units, history, after_history, history-Leads, busy_node-Answers,
  empty-IsAt, eth-IsDistinct,
}

-- The database after a mint, a freeze and a transfer.
abbrev replayed : Table
replayed = final (handle_logs memory eth diamond (some busy_node) history empty)

replayed-Tracks : Tracks eth eth-IsLawful after_history replayed.0
replayed-Tracks =
    at_final (handle_logs memory eth diamond (some busy_node) history empty)
      (IsAt memory memory-IsReliable eth eth-IsLawful diamond (some busy_node) after_history)
      (handle_logs-refines memory memory-IsReliable eth eth-IsLawful diamond (some busy_node)
        eth-IsDistinct no_units after_history history empty
        (history-Leads busy_node busy_node-Answers) (empty-IsAt busy_node))

resolve_holder-Tracks_example :
    let holder : Holder = record {
      address = eth.hex bob;
      balance = format_uint (after_history 7 bob);
    } in
    resolve_holder memory (format_uint 7) (eth.hex bob) replayed ≡ ok holder replayed
resolve_holder-Tracks_example =
    resolve_holder-Tracks memory memory-IsReliable eth eth-IsLawful after_history replayed
      replayed-Tracks 7 bob

resolve_portfolio-Tracks_example :
    (holdings : List PortfolioHolding) × (resolve_portfolio memory (eth.hex alice) replayed
      ≡ ok holdings replayed)
    × ((k : ℕ) → listed_balance (format_uint k) holdings ≡ text_of_units (after_history k alice))
resolve_portfolio-Tracks_example =
    resolve_portfolio-Tracks memory memory-IsReliable eth eth-IsLawful after_history replayed
      replayed-Tracks alice

resolve_holders-IsPage_example :
    (all : List Holder) × (page : List Holder) × (get_holders memory token replayed
      ≡ ok all replayed)
    × (resolve_holders memory token (pos 1) replayed ≡ ok page replayed)
    × IsPage (pos 1) all page
resolve_holders-IsPage_example =
    resolve_holders-IsPage memory memory-IsReliable token (pos 1) replayed

get_recent_events-IsLast_example :
    (events : List TransferEvent) × (get_recent_events memory (pos 1) replayed ≡ ok events replayed)
    × IsLast 1 (transfer_events_in replayed.0) events
get_recent_events-IsLast_example =
    get_recent_events-IsLast memory memory-IsReliable (pos 1) replayed

get_protocol_events-IsLast_example :
    (events : List GenericEvent) × (get_protocol_events memory
        (pos 1)
        (codes "wallet_frozen")
        []
        []
        replayed
      ≡ ok events replayed)
    × IsLast 1 (protocol_events_in (codes "wallet_frozen") replayed.0) events
get_protocol_events-IsLast_example =
    get_protocol_events-IsLast memory memory-IsReliable (pos 1) (codes "wallet_frozen") replayed

get_protocol_events-referred_example :
    (events : List GenericEvent) × (get_protocol_events memory
        (pos 1)
        []
        token
        (codes "0xA")
        replayed
      ≡ ok events replayed)
    × IsLast 1 (referred_in (index_prefix token (codes "0xA")) [] replayed.0) events
get_protocol_events-referred_example =
    get_protocol_events-referred memory memory-IsReliable (pos 1) [] replayed token (codes "0xA")
      (inl (ground arith))

get_token_events-AreOf_example :
    (events : List TransferEvent) × (get_token_events memory token (pos 1) replayed
      ≡ ok events replayed)
    × AreOf token 1 events
get_token_events-AreOf_example =
    get_token_events-AreOf memory memory-IsReliable token 1 replayed (omega arith)

abbrev coffee : AssetConfig
coffee = record {
  token_id = token;
  name = codes "Coffee";
  symbol = codes "CFE";
  issuer = codes "0xA";
  profile_id = 1;
  uri = codes "ipfs:x";
  paused = true;
  registered_at = 12;
}

coffee-IsConfig : IsConfig coffee
unfolding valid_utf8
coffee-IsConfig = record {
  valid_token = refl;
  valid_name = refl;
  valid_symbol = refl;
  valid_issuer = refl;
  small_profile = omega arith;
  valid_uri = refl;
  small_block = omega arith;
}

record_asset-resolve_asset_example : Returns (record_asset memory coffee replayed) λ s'.
    (view : AssetView) × (resolve_asset memory token s' ≡ ok (some view) s')
    × IsViewOf coffee (format_int (pos (supply_in token s'.0))) view
unfolding format_uint
record_asset-resolve_asset_example =
    record_asset-resolve_asset memory memory-IsReliable coffee replayed coffee-IsConfig
      (replayed-Tracks.ledger 7)

-- Alice keeps 3 of her 5 units, and Bob has 2.
units_after_history : (after_history 7 alice ≡ 3) × (after_history 7 bob ≡ 2)
unfolding move_units set_units set_bytes bytes_eq
units_after_history = (refl, refl)

-- The database with the asset of token 7.
abbrev with_coffee : Table
with_coffee = memory-IsReliable.write (asset_meta_key token) (object (marshal_asset coffee)) empty

coffee_listed : get_all_assets memory with_coffee ≡ ok (coffee ∷ []) with_coffee
unfolding get_all_assets decoded_rows while_prefix from insert asset_meta_key marshal_asset
    unmarshal_asset valid_utf8
coffee_listed = refl

coffee_found : get_asset memory token with_coffee ≡ ok (some coffee) with_coffee
unfolding get_asset decode_pointer lookup insert asset_meta_key marshal_asset unmarshal_asset
    valid_utf8 bytes_eq
coffee_found = refl

coffee-IsLedger : IsLedger token with_coffee.0
unfolding record_asset
coffee-IsLedger =
    (record_asset-IsQuiet memory memory-IsReliable coffee empty).ledgers token
      (empty-IsLedger token)

resolve_assets-AreViewsOf_example :
    (views : List AssetView) × (resolve_assets memory with_coffee ≡ ok views with_coffee)
    × AreViewsOf memory memory-IsReliable (coffee ∷ []) with_coffee views
resolve_assets-AreViewsOf_example =
    resolve_assets-AreViewsOf memory memory-IsReliable (coffee ∷ []) with_coffee coffee_listed
      ((coffee_found, coffee-IsLedger), tt)
