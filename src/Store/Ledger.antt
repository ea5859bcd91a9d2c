-- ===== src/Store/Ledger.antt =====
-- The mutations that the indexer calls for mints, burns and transfers (STATE MUTATION).
pub mod Queries
pub mod Frame
pub mod Others
pub mod Quiet
pub mod EventOnly
pub mod Rows
pub mod Steps
pub mod Book
pub mod Settle
pub mod Debit
pub mod Mint
pub mod Burn
pub mod Transfer
pub mod Holdings
pub mod Refinement
use agro_diamond_compliance.Prelude.{ℕ, ◌+◌, ◌-◌, ◌%◌, ◌^◌, Option, none, some, if◌then◌else◌}
use agro_diamond_compliance.Prelude.Int.{ℤ, ◌+ℤ◌, ◌-ℤ◌, is_zero, is_nonpositive}
use agro_diamond_compliance.Bytes.{Bytes, codes}
use agro_diamond_compliance.Bytes.Decimal.{set_string, format_int}
use agro_diamond_compliance.Action.{Action, ok, panic, pure, ◌>>=◌, ◌>>◌}
use agro_diamond_compliance.Ethereum.{Ethereum, zero_address}
use agro_diamond_compliance.RocksDb.{RocksDb}
use agro_diamond_compliance.Store.Records.{TokenMeta}
use agro_diamond_compliance.Store.Tokens.{
  get_token_meta, put_token_meta, get_holder_balance, put_holder_balance, delete_holder,
}
use agro_diamond_compliance.Store.Events.{put_event}

-- A method call on the `nil` that `SetString` returns panics.
abbrev pub not_nil : {S : Type 0} → Option ℤ → Action S ℤ
not_nil none s = panic s
not_nil (some a) s = ok a s

-- `meta.HolderCount++` and `meta.HolderCount--` on a `uint64`.
abbrev pub one_more : TokenMeta → TokenMeta
one_more meta = record meta { holder_count = (meta.holder_count + 1) % 2 ^ 64 }

abbrev pub one_less : TokenMeta → TokenMeta
one_less meta = record meta { holder_count = (meta.holder_count + 2 ^ 64 - 1) % 2 ^ 64 }

module _ (db : RocksDb) (eth : Ethereum) where
  open db use {State}
  open eth use {hex, hash_hex}

  unfoldable pub record_event_only :
      Bytes → Bytes → Bytes → ℤ → Bytes → Bytes → ℕ → ℕ → Action State (Unit {0})
  record_event_only token_id from to amount event_type tx_hash block log_index =
      put_event db (record {
        tx_hash = hash_hex tx_hash;
        block = block;
        log_index = log_index;
        from = hex from;
        to = hex to;
        token_id = token_id;
        amount = format_int amount;
        event_type = event_type;
      })

  unfoldable pub record_mint : Bytes → Bytes → ℤ → Bytes → ℕ → ℕ → Action State (Unit {0})
  record_mint token_id to amount tx_hash block log_index = do
    meta ← get_token_meta db token_id
    supply ← not_nil (set_string meta.total_supply)
    let meta' : TokenMeta = record meta { total_supply = format_int (supply +ℤ amount) }
    let addr = hex to
    bal ← get_holder_balance db token_id addr
    put_holder_balance db token_id addr (bal +ℤ amount)
    put_token_meta db (if is_zero bal then one_more meta' else meta')
    put_event db (record {
      tx_hash = hash_hex tx_hash;
      block = block;
      log_index = log_index;
      from = hex zero_address;
      to = addr;
      token_id = token_id;
      amount = format_int amount;
      event_type = codes "mint";
    })

  -- The debit of an address: its new balance is stored, or its rows are deleted, and the metadata
  -- that is to be stored is returned.
  unfoldable pub debit : Bytes → Bytes → ℤ → TokenMeta → Action State TokenMeta
  debit token_id addr bal meta =
      if is_nonpositive bal
      then (do delete_holder db token_id addr; pure (one_less meta))
      else (do put_holder_balance db token_id addr bal; pure meta)

  unfoldable pub record_burn : Bytes → Bytes → ℤ → Bytes → ℕ → ℕ → Action State (Unit {0})
  unfolding debit
  record_burn token_id from amount tx_hash block log_index = do
    meta ← get_token_meta db token_id
    supply ← not_nil (set_string meta.total_supply)
    let meta' : TokenMeta = record meta { total_supply = format_int (supply -ℤ amount) }
    let addr = hex from
    bal ← get_holder_balance db token_id addr
    meta'' ← debit token_id addr (bal -ℤ amount) meta'
    put_token_meta db meta''
    put_event db (record {
      tx_hash = hash_hex tx_hash;
      block = block;
      log_index = log_index;
      from = addr;
      to = hex zero_address;
      token_id = token_id;
      amount = format_int amount;
      event_type = codes "burn";
    })

  unfoldable pub record_transfer :
      Bytes → Bytes → Bytes → ℤ → Bytes → Bytes → ℕ → ℕ → Action State (Unit {0})
  unfolding debit
  record_transfer token_id from to amount event_type tx_hash block log_index = do
    meta ← get_token_meta db token_id
    let from_addr = hex from
    let to_addr = hex to
    from_bal ← get_holder_balance db token_id from_addr
    meta' ← debit token_id from_addr (from_bal -ℤ amount) meta
    to_bal ← get_holder_balance db token_id to_addr
    put_holder_balance db token_id to_addr (to_bal +ℤ amount)
    put_token_meta db (if is_zero to_bal then one_more meta' else meta')
    put_event db (record {
      tx_hash = hash_hex tx_hash;
      block = block;
      log_index = log_index;
      from = from_addr;
      to = to_addr;
      token_id = token_id;
      amount = format_int amount;
      event_type = event_type;
    })
