-- ===== src/Store/Tokens.antt =====
-- The aggregate metadata of a token (TOKEN META), and its holders (HOLDERS).
use agro_diamond_compliance.Prelude.{Option, none, some, List, [], ◌∷◌, length, drop}
use agro_diamond_compliance.Prelude.Int.{ℤ, pos}
use agro_diamond_compliance.Bytes.{Bytes, codes}
use agro_diamond_compliance.Bytes.Decimal.{set_string, format_int}
use agro_diamond_compliance.Action.{Action, ok, pure, ◌>>=◌, ◌>>◌}
use agro_diamond_compliance.RocksDb.{RocksDb}
use agro_diamond_compliance.RocksDb.Entries.{Value, raw, object, Rows}
use agro_diamond_compliance.RocksDb.Scan.{while_prefix}
use agro_diamond_compliance.Store.Keys.{
  prefix_token_meta, token_meta_key, holder_prefix, holder_key, holder_addr_prefix, holder_addr_key,
}
use agro_diamond_compliance.Store.Records.{
  TokenMeta, Holder, marshal_token_meta, unmarshal_token_meta,
}
use agro_diamond_compliance.Store.Values.{as_string, decode_or, decoded_rows}

abbrev pub no_meta : Bytes → TokenMeta
no_meta token_id = record { token_id = token_id; total_supply = codes "0"; holder_count = 0 }

-- A balance that does not parse reads as 0.
unfoldable pub balance_of_value : Option Value → ℤ
unfolding as_string set_string
balance_of_value none = pos 0
balance_of_value (some v) = elim (set_string (as_string v)) [ none ↦ pos 0 | some b ↦ b ]

-- The rest of the key behind the prefix, and the value.
unfoldable pub holders_of_rows : Bytes → Rows → List Holder
unfolding as_string
holders_of_rows prefix [] = []
holders_of_rows prefix ((k, v) ∷ rows) =
    record { address = drop (length prefix) k; balance = as_string v } ∷ holders_of_rows prefix rows

module _ (db : RocksDb) where
  open db use {State, get, put, delete, seek}

  unfoldable pub get_token_meta : Bytes → Action State TokenMeta
  get_token_meta token_id = do
    found ← get (token_meta_key token_id)
    decode_or (no_meta token_id) unmarshal_token_meta found

  unfoldable pub put_token_meta : TokenMeta → Action State (Unit {0})
  put_token_meta meta = put (token_meta_key meta.token_id) (object (marshal_token_meta meta))

  unfoldable pub get_all_tokens : Action State (List TokenMeta)
  get_all_tokens s =
      ok
        (decoded_rows unmarshal_token_meta
          (while_prefix prefix_token_meta (seek s prefix_token_meta)))
        s

  unfoldable pub get_holder_balance : Bytes → Bytes → Action State ℤ
  get_holder_balance token_id address = do
    found ← get (holder_key token_id address)
    pure (balance_of_value found)

  unfoldable pub put_holder_balance : Bytes → Bytes → ℤ → Action State (Unit {0})
  put_holder_balance token_id address balance = do
    put (holder_key token_id address) (raw (format_int balance))
    put (holder_addr_key address token_id) (raw (format_int balance))

  unfoldable pub delete_holder : Bytes → Bytes → Action State (Unit {0})
  delete_holder token_id address = do
    delete (holder_key token_id address)
    delete (holder_addr_key address token_id)

  unfoldable pub get_holders : Bytes → Action State (List Holder)
  get_holders token_id s =
      let prefix = holder_prefix token_id in
      ok (holders_of_rows prefix (while_prefix prefix (seek s prefix))) s

  -- `GetHolderBalance`: the balance as text. (The `"0"` beside an error is not used by callers.)
  unfoldable pub get_holder_balance_text : Bytes → Bytes → Action State Bytes
  get_holder_balance_text token_id address = do
    balance ← get_holder_balance token_id address
    pure (format_int balance)

  -- A holding is a `Holder` with the token id for its address.
  unfoldable pub get_portfolio : Bytes → Action State (List Holder)
  get_portfolio address s =
      let prefix = holder_addr_prefix address in
      ok (holders_of_rows prefix (while_prefix prefix (seek s prefix))) s
