-- ===== src/Graph/Tokens.antt =====
-- The queries on tokens, holders and transfers, and `status`.
use agro_diamond_compliance.Prelude.{
  ◌&&◌, Option, none, some, List, [], map, length, ◌==◌, bytes_eq, eqb, if◌then◌else◌,
}
use agro_diamond_compliance.Prelude.Int.{ℤ}
use agro_diamond_compliance.Bytes.{Bytes, codes}
use agro_diamond_compliance.Action.{Action, pure, or_value, ◌>>=◌}
use agro_diamond_compliance.RocksDb.{RocksDb}
use agro_diamond_compliance.Store.Records.{TokenMeta, Holder, TransferEvent}
use agro_diamond_compliance.Store.Cursor.{get_cursor}
use agro_diamond_compliance.Store.Events.{get_recent_events, get_token_events}
use agro_diamond_compliance.Store.Tokens.{
  get_token_meta, get_all_tokens, get_holder_balance_text, get_portfolio,
}
use agro_diamond_compliance.Graph.{PortfolioHolding, IndexerStatus}

-- A token without supply and holders is answered by `null`.
unfoldable pub token_or_null : TokenMeta → Option TokenMeta
token_or_null meta =
    if meta.total_supply == codes "0" && eqb meta.holder_count 0 then none else some meta

abbrev pub holding_of : Holder → PortfolioHolding
holding_of h = record { token_id = h.address; balance = h.balance }

module _ (db : RocksDb) where
  open db use {State}

  unfoldable pub resolve_token : Bytes → Action State (Option TokenMeta)
  unfolding token_or_null
  resolve_token id = do meta ← get_token_meta db id; pure (token_or_null meta)

  unfoldable pub resolve_tokens : Action State (List TokenMeta)
  resolve_tokens = get_all_tokens db

  -- `events` of a token
  unfoldable pub resolve_token_events : TokenMeta → ℤ → Action State (List TransferEvent)
  resolve_token_events meta first = get_token_events db meta.token_id first

  unfoldable pub resolve_holder : Bytes → Bytes → Action State Holder
  resolve_holder token_id address = do
    balance ← get_holder_balance_text db token_id address
    pure (record { address = address; balance = balance })

  unfoldable pub resolve_events : ℤ → Action State (List TransferEvent)
  resolve_events first = get_recent_events db first

  -- Errors of the store are dropped: they read as block 0 and as no tokens.
  unfoldable pub resolve_status : Action State IndexerStatus
  resolve_status = do
    cursor ← or_value 0 (get_cursor db)
    tokens ← or_value [] (get_all_tokens db)
    pure (record { last_block = cursor; token_count = length tokens })

  unfoldable pub resolve_portfolio : Bytes → Action State (List PortfolioHolding)
  resolve_portfolio address = do holders ← get_portfolio db address; pure (map holding_of holders)
