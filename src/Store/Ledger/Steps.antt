-- ===== src/Store/Ledger/Steps.antt =====
-- What each mutation writes when no database call fails.
use agro_diamond_compliance.Prelude.{
  ℕ, ◌≡◌, Option, none, some, arith, if◌then◌else◌, Bool-cases, inl, inr,
}
use agro_diamond_compliance.Prelude.Int.{ℤ, ◌+ℤ◌, ◌-ℤ◌, is_zero, is_nonpositive}
use agro_diamond_compliance.Bytes.{Bytes, codes}
use agro_diamond_compliance.Bytes.Decimal.{set_string, format_int}
use agro_diamond_compliance.Action.{ok, ◌>>=◌}
use agro_diamond_compliance.Ethereum.{Ethereum, zero_address}
use agro_diamond_compliance.RocksDb.{RocksDb, IsReliable}
use agro_diamond_compliance.RocksDb.Entries.{Value, raw, object, Rows, lookup}
use agro_diamond_compliance.Store.Keys.{holder_key, holder_addr_key, token_meta_key, event_key}
use agro_diamond_compliance.Store.Records.{
  TokenMeta, TransferEvent, marshal_token_meta, unmarshal_token_meta, marshal_transfer_event,
}
use agro_diamond_compliance.Store.Values.{decoded, decode_or}
use agro_diamond_compliance.Store.Tokens.{
  no_meta, balance_of_value, get_token_meta, put_token_meta, get_holder_balance, put_holder_balance,
  delete_holder,
}
use agro_diamond_compliance.Store.Events.{put_event}
use agro_diamond_compliance.Store.Ledger.{
  one_more, one_less, debit, record_mint, record_burn, record_transfer,
}

abbrev meta_of : Bytes → Option Value → Option TokenMeta
meta_of t none = some (no_meta t)
meta_of t (some v) = decoded unmarshal_token_meta v

-- The metadata of a token in a table; `none` if its row does not unmarshal.
abbrev pub meta_at : Bytes → Rows → Option TokenMeta
meta_at t m = meta_of t (lookup (token_meta_key t) m)

abbrev pub balance_at : Bytes → Bytes → Rows → ℤ
balance_at t a m = balance_of_value (lookup (holder_key t a) m)

-- The metadata behind a debit that leaves the balance `b`.
abbrev pub debited_meta : ℤ → TokenMeta → TokenMeta
debited_meta b meta = if is_nonpositive b then one_less meta else meta

module _ (db : RocksDb) (L : IsReliable db) where
  open L use {entries, write, remove, get_lem, put_lem, delete_lem}

  abbrev pub write_balance : Bytes → Bytes → ℤ → db.State → db.State
  write_balance t a b s =
      write (holder_addr_key a t) (raw (format_int b))
        (write (holder_key t a) (raw (format_int b)) s)

  abbrev remove_balance : Bytes → Bytes → db.State → db.State
  remove_balance t a s = remove (holder_addr_key a t) (remove (holder_key t a) s)

  abbrev pub write_meta : TokenMeta → db.State → db.State
  write_meta meta s = write (token_meta_key meta.token_id) (object (marshal_token_meta meta)) s

  abbrev pub write_event : TransferEvent → db.State → db.State
  write_event e s = write (event_key e.block e.log_index) (object (marshal_transfer_event e)) s

  pub get_token_meta_lem :
      (t : Bytes) (s : db.State) (meta : TokenMeta)
      → meta_at t (entries s) ≡ some meta
      → get_token_meta db t s ≡ ok meta s
  unfolding get_token_meta decode_or
  get_token_meta_lem t s meta e = ground (arith, get_lem (token_meta_key t) s)

  pub get_holder_balance_lem :
      (t a : Bytes) (s : db.State) → get_holder_balance db t a s ≡ ok (balance_at t a (entries s)) s
  unfolding get_holder_balance
  get_holder_balance_lem t a s = rw (get_lem (holder_key t a) s, ◌>>=◌)

  put_holder_balance_lem :
      (t a : Bytes) (b : ℤ) (s : db.State)
      → put_holder_balance db t a b s ≡ ok tt (write_balance t a b s)
  unfolding put_holder_balance
  put_holder_balance_lem t a b s = rw (put_lem, ◌>>=◌) (put_lem _ _ _)

  delete_holder_lem :
      (t a : Bytes) (s : db.State) → delete_holder db t a s ≡ ok tt (remove_balance t a s)
  unfolding delete_holder
  delete_holder_lem t a s = rw (delete_lem, ◌>>=◌) (delete_lem _ _)

  put_token_meta_lem :
      (meta : TokenMeta) (s : db.State) → put_token_meta db meta s ≡ ok tt (write_meta meta s)
  unfolding put_token_meta
  put_token_meta_lem meta s = put_lem _ _ s

  pub put_event_lem :
      (e : TransferEvent) (s : db.State) → put_event db e s ≡ ok tt (write_event e s)
  unfolding put_event
  put_event_lem e s = put_lem _ _ s

  -- The state behind a debit that leaves the balance `b`.
  abbrev pub debited : Bytes → Bytes → ℤ → db.State → db.State
  debited t a b s = if is_nonpositive b then remove_balance t a s else write_balance t a b s

  debit_lem :
      (eth : Ethereum) (t a : Bytes) (b : ℤ) (meta : TokenMeta) (s : db.State)
      → debit db eth t a b meta s ≡ ok (debited_meta b meta) (debited t a b s)
  unfolding debit
  debit_lem eth t a b meta s = elim (Bool-cases (is_nonpositive b)) [
    | inl gone ↦ rw (gone, delete_holder_lem t a s, ◌>>=◌)
    | inr left ↦ rw (left, put_holder_balance_lem t a b s, ◌>>=◌)
  ]

  module _ (eth : Ethereum) where
    abbrev pub mint_event : Bytes → Bytes → ℤ → Bytes → ℕ → ℕ → TransferEvent
    mint_event t to amount tx b i = record {
      tx_hash = eth.hash_hex tx;
      block = b;
      log_index = i;
      from = eth.hex zero_address;
      to = eth.hex to;
      token_id = t;
      amount = format_int amount;
      event_type = codes "mint";
    }

    pub record_mint_lem :
        (t to : Bytes) (amount : ℤ) (tx : Bytes) (b i : ℕ) (s : db.State) (meta : TokenMeta)
        (supply : ℤ)
        → meta_at t (entries s) ≡ some meta
        → set_string meta.total_supply ≡ some supply
        → let a = eth.hex to in
          let bal = balance_at t a (entries s) in
          let meta' : TokenMeta = record meta { total_supply = format_int (supply +ℤ amount) } in
          record_mint db eth t to amount tx b i s
          ≡ ok tt (
              write_event (mint_event t to amount tx b i) (
                write_meta
                  (if is_zero bal then one_more meta' else meta')
                  (write_balance t a (bal +ℤ amount) s)))
    unfolding record_mint
    record_mint_lem t to amount tx b i s meta supply e f =
        rw
          (
            get_token_meta_lem t s meta e,
            f,
            get_holder_balance_lem t (eth.hex to) s,
            put_holder_balance_lem t (eth.hex to),
            put_token_meta_lem,
            ◌>>=◌,
          )
          (put_event_lem _ _)

    abbrev pub burn_event : Bytes → Bytes → ℤ → Bytes → ℕ → ℕ → TransferEvent
    burn_event t from amount tx b i = record {
      tx_hash = eth.hash_hex tx;
      block = b;
      log_index = i;
      from = eth.hex from;
      to = eth.hex zero_address;
      token_id = t;
      amount = format_int amount;
      event_type = codes "burn";
    }

    pub record_burn_lem :
        (t from : Bytes) (amount : ℤ) (tx : Bytes) (b i : ℕ) (s : db.State) (meta : TokenMeta)
        (supply : ℤ)
        → meta_at t (entries s) ≡ some meta
        → set_string meta.total_supply ≡ some supply
        → let a = eth.hex from in
          let bal = balance_at t a (entries s) -ℤ amount in
          let meta' : TokenMeta = record meta { total_supply = format_int (supply -ℤ amount) } in
          record_burn db eth t from amount tx b i s
          ≡ ok tt (
              write_event
                (burn_event t from amount tx b i)
                (write_meta (debited_meta bal meta') (debited t a bal s)))
    unfolding record_burn
    record_burn_lem t from amount tx b i s meta supply e f =
        rw
          (
            get_token_meta_lem t s meta e,
            f,
            get_holder_balance_lem t (eth.hex from) s,
            debit_lem eth t (eth.hex from),
            put_token_meta_lem,
            ◌>>=◌,
          )
          (put_event_lem _ _)

    abbrev pub transfer_event : Bytes → Bytes → Bytes → ℤ → Bytes → Bytes → ℕ → ℕ → TransferEvent
    transfer_event t from to amount event_type tx b i = record {
      tx_hash = eth.hash_hex tx;
      block = b;
      log_index = i;
      from = eth.hex from;
      to = eth.hex to;
      token_id = t;
      amount = format_int amount;
      event_type = event_type;
    }

    pub record_transfer_lem :
        (t from to : Bytes) (amount : ℤ) (event_type tx : Bytes) (b i : ℕ) (s : db.State)
        (meta : TokenMeta)
        → meta_at t (entries s) ≡ some meta
        → let bal = balance_at t (eth.hex from) (entries s) -ℤ amount in
          let s' = debited t (eth.hex from) bal s in
          let to_bal = balance_at t (eth.hex to) (entries s') in
          let meta' = debited_meta bal meta in
          record_transfer db eth t from to amount event_type tx b i s
          ≡ ok tt (
              write_event (transfer_event t from to amount event_type tx b i) (
                write_meta
                  (if is_zero to_bal then one_more meta' else meta')
                  (write_balance t (eth.hex to) (to_bal +ℤ amount) s')))
    unfolding record_transfer
    record_transfer_lem t from to amount event_type tx b i s meta e =
        rw
          (
            get_token_meta_lem t s meta e,
            get_holder_balance_lem t (eth.hex from) s,
            debit_lem eth t (eth.hex from),
            get_holder_balance_lem t (eth.hex to),
            put_holder_balance_lem t (eth.hex to),
            put_token_meta_lem,
            ◌>>=◌,
          )
          (put_event_lem _ _)
