-- ===== src/Store/Ledger/Queries.antt =====
-- `GetTokenMeta` and `GetHolders` on the ledger of a token.
use agro_diamond_compliance.Prelude.{
  ℕ, ◌+◌, ◌%◌, ◌^◌, ◌≡◌, refl, sym, ap, ◌∙◌, none, some, List, [], ◌∷◌, length, arith, bytes_eq,
}
use agro_diamond_compliance.Prelude.Int.{pos, pos_part}
use agro_diamond_compliance.Bytes.{Bytes}
use agro_diamond_compliance.Bytes.Decimal.{set_string, format_int}
use agro_diamond_compliance.Action.{ok, ◌>>=◌}
use agro_diamond_compliance.RocksDb.{RocksDb, IsReliable}
use agro_diamond_compliance.RocksDb.Entries.{Rows}
use agro_diamond_compliance.RocksDb.Scan.{with_prefix, while_prefix-from}
use agro_diamond_compliance.Store.Keys.{holder_prefix}
use agro_diamond_compliance.Store.Records.{TokenMeta, Holder}
use agro_diamond_compliance.Store.Tokens.{
  balance_of_value, holders_of_rows, get_token_meta, get_holders, get_holder_balance_text,
}
use agro_diamond_compliance.Store.Ledger.Rows.{held, counted, supply_in, holders_in, IsLedger}
use agro_diamond_compliance.Store.Ledger.Steps.{
  balance_at, get_token_meta_lem, get_holder_balance_lem,
}

-- The amount of a balance text, as a client reads it.
abbrev amount_of : Bytes → ℕ
amount_of b = elim (set_string b) [ none ↦ 0 | some z ↦ pos_part z ]

-- The sum of the balances of a list of holders.
abbrev pub held_by : List Holder → ℕ
held_by [] = 0
held_by (h ∷ holders) = amount_of h.balance + held_by holders

abbrev listed : Bytes → Rows → List Holder
listed t m = holders_of_rows (holder_prefix t) (with_prefix (holder_prefix t) m)

held_by-listed : (t : Bytes) (m : Rows) → held_by (listed t m) ≡ supply_in t m
unfolding held holders_of_rows with_prefix balance_of_value
held_by-listed t [] = refl
held_by-listed t ((k, v) ∷ m) = ground (arith, held_by-listed t m)

length-listed : (t : Bytes) (m : Rows) → length (listed t m) ≡ holders_in t m
unfolding counted holders_of_rows with_prefix
length-listed t [] = refl
length-listed t ((k, v) ∷ m) = ground (arith, length-listed t m)

module _ (db : RocksDb) (L : IsReliable db) where
  open db use {seek}

  pub get_holders_lem :
      (t : Bytes) (s : db.State) → get_holders db t s ≡ ok (listed t (L.entries s)) s
  unfolding get_holders
  get_holders_lem t s =
      rw
        (
          L.seek_lem s (holder_prefix t),
          while_prefix-from (holder_prefix t) (L.entries s) (L.entries-IsSorted s),
        )
        refl

  -- On a reliable database and the ledger of a token, `GetTokenMeta` and `GetHolders` return
  -- without a change, the balances of the returned holders add up to the returned total supply,
  -- and their number is the returned holder count, modulo 2^64.
  pub get_holders-supply :
      (t : Bytes) (s : db.State)
      → IsLedger t (L.entries s)
      → (meta : TokenMeta) × (holders : List Holder) × (get_token_meta db t s ≡ ok meta s)
        × (get_holders db t s ≡ ok holders s)
        × (meta.total_supply ≡ format_int (pos (held_by holders)))
        × (meta.holder_count ≡ length holders % 2 ^ 64)
  get_holders-supply t s h = (
    h.meta,
    listed t (L.entries s),
    get_token_meta_lem db L t s h.meta h.stored,
    get_holders_lem t s,
    h.supply ∙ ap (λ (n : ℕ). format_int (pos n)) (sym (held_by-listed t (L.entries s))),
    h.count ∙ ap (λ n. n % 2 ^ 64) (sym (length-listed t (L.entries s))),
  )

  -- `GetHolderBalance` returns the text of the balance that the ledger's rows hold.
  pub get_holder_balance_text_lem :
      (t a : Bytes) (s : db.State)
      → get_holder_balance_text db t a s ≡ ok (format_int (balance_at t a (L.entries s))) s
  unfolding get_holder_balance_text
  get_holder_balance_text_lem t a s = rw (get_holder_balance_lem db L t a s, ◌>>=◌) refl
