-- ===== src/Store/Freezes.antt =====
-- Freeze states (FREEZE STATE).
pub mod Updates
use agro_diamond_compliance.Prelude.{
  ℕ, Bool, true, false, Option, none, some, List, [], ◌∷◌, ◌==◌, bytes_eq, if◌then◌else◌,
}
use agro_diamond_compliance.Bytes.{Bytes}
use agro_diamond_compliance.Action.{Action, ok, ◌>>=◌}
use agro_diamond_compliance.RocksDb.{RocksDb}
use agro_diamond_compliance.RocksDb.Entries.{object}
use agro_diamond_compliance.RocksDb.Scan.{while_prefix}
use agro_diamond_compliance.Store.Keys.{prefix_freeze, freeze_key, freeze_wallet_prefix}
use agro_diamond_compliance.Store.Records.{FreezeState, marshal_freeze, unmarshal_freeze}
use agro_diamond_compliance.Store.Values.{decode_pointer, decoded_rows}

-- `&FreezeState{Wallet: wallet, TokenID: tokenID}`
abbrev pub blank_freeze : Bytes → Bytes → FreezeState
blank_freeze wallet token_id = record {
  wallet = wallet;
  token_id = token_id;
  frozen = false;
  frozen_amount = [];
  lockup_expiry = 0;
}

abbrev pub or_blank : Bytes → Bytes → Option FreezeState → FreezeState
or_blank wallet token_id none = blank_freeze wallet token_id
or_blank wallet token_id (some f) = f

abbrev matches_token : Bytes → FreezeState → Bool
matches_token [] f = true
matches_token (c ∷ t) f = f.token_id == c ∷ t

-- The tests of the loop of `GetFrozenWallets`.
unfoldable pub frozen_of : Bytes → List FreezeState → List FreezeState
frozen_of token_id [] = []
frozen_of token_id (f ∷ states) =
    let rest = frozen_of token_id states in
    if f.frozen then (if matches_token token_id f then f ∷ rest else rest) else rest

module _ (db : RocksDb) where
  open db use {State, get, put, seek}

  unfoldable pub record_freeze : FreezeState → Action State (Unit {0})
  record_freeze f = put (freeze_key f.wallet f.token_id) (object (marshal_freeze f))

  unfoldable pub get_freeze : Bytes → Bytes → Action State (Option FreezeState)
  get_freeze wallet token_id = do
    found ← get (freeze_key wallet token_id)
    decode_pointer unmarshal_freeze found

  unfoldable pub get_freezes : Bytes → Action State (List FreezeState)
  get_freezes wallet s =
      let prefix = freeze_wallet_prefix wallet in
      ok (decoded_rows unmarshal_freeze (while_prefix prefix (seek s prefix))) s

  unfoldable pub get_frozen_wallets : Bytes → Action State (List FreezeState)
  get_frozen_wallets token_id s =
      ok
        (frozen_of token_id
          (decoded_rows unmarshal_freeze (while_prefix prefix_freeze (seek s prefix_freeze))))
        s

  unfoldable pub update_freeze_amount : Bytes → Bytes → Bytes → Action State (Unit {0})
  update_freeze_amount wallet token_id amount = do
    found ← get_freeze wallet token_id
    record_freeze (record (or_blank wallet token_id found) { frozen_amount = amount })

  unfoldable pub update_lockup_expiry : Bytes → Bytes → ℕ → Action State (Unit {0})
  update_lockup_expiry wallet token_id expiry = do
    found ← get_freeze wallet token_id
    record_freeze (record (or_blank wallet token_id found) { lockup_expiry = expiry })
