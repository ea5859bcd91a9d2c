-- ===== src/Indexer/Quiet.antt =====
-- The handlers that only concern assets, wallets and the protocol, seen from the ledgers.
pub mod Wallets
pub mod Protocol
pub mod Assets
use agro_diamond_compliance.Prelude.{
  ℕ, ◌≡◌, ◌≢◌, Bool, Option, none, some, List, [], ◌∷◌, ap, arith, Option-cases, inl, inr,
  if◌then◌else◌,
}
use agro_diamond_compliance.Bytes.{Bytes, codes}
use agro_diamond_compliance.Json.{Object}
use agro_diamond_compliance.Action.{
  Action, Outcome, Returns, ok, err, panic, pure, logged, ◌>>=◌, ◌>>◌,
}
use agro_diamond_compliance.Ethereum.{Ethereum}
use agro_diamond_compliance.Node.{Log, Node}
use agro_diamond_compliance.RocksDb.{RocksDb, IsReliable}
use agro_diamond_compliance.Store.Quiet
use agro_diamond_compliance.Store.Records.{AssetConfig, Identity}
use agro_diamond_compliance.Store.Events.{put_generic_event}
use agro_diamond_compliance.Store.Assets.{update_asset_paused, update_asset_uri, record_asset}
use agro_diamond_compliance.Store.Identities.{record_identity, get_identity, delete_identity}
use agro_diamond_compliance.Store.Freezes.{
  record_freeze, update_freeze_amount, update_lockup_expiry,
}
use agro_diamond_compliance.Store.Ledger.Quiet.{
  IsQuiet, IsSilent, Ends, Unmoved, Unmoved-refl, Returns-Unmoved, pure-IsSilent, then-IsSilent,
  logged-IsSilent,
}
use agro_diamond_compliance.Indexer.Recording.{
  or_return, with_result, generic_event, record_generic_event,
}
use agro_diamond_compliance.Indexer.Wallets.{
  handle_identity_bound, handle_identity_unbound, handle_wallet_frozen, handle_asset_frozen,
  handle_partial_freeze, handle_lockup_set, rebind, move_identity, handle_wallet_recovered,
}
use agro_diamond_compliance.Indexer.Protocol.{
  handle_generic_event, handle_generic_event_with_token_and_addr, handle_generic_event_addr_only,
  handle_asset_paused, handle_role_event, handle_snapshot_created, handle_dividend_created,
  handle_dividend_claimed, handle_global_plugin_registered, handle_global_plugin_status_changed,
  handle_reward_asset_event, handle_yield_deposited, handle_yield_claimed,
  handle_country_restriction, handle_max_setting,
}

module _ (db : RocksDb) (L : IsReliable db) (eth : Ethereum) where
  open db use {State}

  or_return_at :
      (o : Outcome State (Unit {0})) (m : Action State (Unit {0})) (s : State)
      → Ends o (Unmoved db L s)
      → IsSilent db L m
      → Returns (or_return (λ _. o) m s) (Unmoved db L s)
  or_return_at (ok a s') m s h k = Returns-Unmoved db L (m s') h (k s')
  or_return_at (err e s') m s h k = h
  or_return_at (panic s') m s h k = h

  pub or_return-IsSilent :
      (m k : Action State (Unit {0}))
      → IsQuiet db L m
      → IsSilent db L k
      → IsSilent db L (or_return m k)
  or_return-IsSilent m k h j s = or_return_at (m s) k s (h s) j

  pub with_result_at :
      {A : Type 0} (o : Outcome State A) (k : A → Action State (Unit {0})) (s : State)
      → Ends o (Unmoved db L s)
      → ((a : A) → IsSilent db L (k a))
      → Returns (with_result (λ _. o) k s) (Unmoved db L s)
  with_result_at (ok a s') k s h j = Returns-Unmoved db L (k a s') h (j a s')
  with_result_at (err e s') k s h j = h
  with_result_at (panic s') k s h j = h

  pub nothing-IsSilent : IsSilent db L (pure tt)
  nothing-IsSilent = pure-IsSilent db L tt

  pub record_generic_event-IsSilent :
      (log : Log) (event_type t a : Bytes) (extra : Option Object)
      → IsSilent db L (record_generic_event db eth log event_type t a extra)
  unfolding record_generic_event
  record_generic_event-IsSilent log event_type t a extra =
      logged-IsSilent db L (put_generic_event db (generic_event eth log event_type t a extra))
        (Quiet.put_generic_event-IsQuiet db L (generic_event eth log event_type t a extra))

  -- A logged call of the store, and the event.
  pub store_and_record :
      (m : Action State (Unit {0})) (log : Log) (event_type t a : Bytes) (extra : Option Object)
      → IsQuiet db L m
      → IsSilent db L (logged m >> record_generic_event db eth log event_type t a extra)
  store_and_record m log event_type t a extra h =
      then-IsSilent db L (logged m) (record_generic_event db eth log event_type t a extra)
        (logged-IsSilent db L m h) (record_generic_event-IsSilent log event_type t a extra)
