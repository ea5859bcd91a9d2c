-- ===== src/Store/Ledger/Settle.antt =====
-- The rows after the metadata and the event of a mutation are stored.
use agro_diamond_compliance.Prelude.{
  ℕ, ◌%◌, ◌^◌, ◌≡◌, some, arith, if◌then◌else◌, ap, ◌==◌, bytes_eq, ◌∙◌,
}
use agro_diamond_compliance.Prelude.Int.{pos}
use agro_diamond_compliance.Bytes.{Bytes, IsPlain}
use agro_diamond_compliance.Bytes.Utf8.{valid_utf8-ascii, IsPlain-IsAscii}
use agro_diamond_compliance.Bytes.Decimal.{format_int, format_int-IsAscii}
use agro_diamond_compliance.RocksDb.Entries.{
  Value, object, Rows, lookup, insert, IsSorted, lookup-insert, insert-IsSorted,
}
use agro_diamond_compliance.Store.Keys.{holder_key, holder_addr_key, token_meta_key, event_key}
use agro_diamond_compliance.Store.Keys.Disjoint
use agro_diamond_compliance.Store.Records.{TokenMeta, marshal_token_meta}
use agro_diamond_compliance.Store.Records.RoundTrip.{unmarshal-marshal_token_meta}
use agro_diamond_compliance.Store.Values.{decoded}
use agro_diamond_compliance.Store.Tokens.{balance_of_value}
use agro_diamond_compliance.Store.Ledger.Steps.{meta_at, balance_at}
use agro_diamond_compliance.Store.Ledger.Rows.{
  supply_in, holders_in, IsBook, IsLedger, supply_in-insert, holders_in-insert,
}

-- The rows after `putTokenMeta` and `putEvent`.
abbrev pub settled : TokenMeta → ℕ → ℕ → Value → Rows → Rows
settled meta b i v m =
    insert (event_key b i) v
      (insert (token_meta_key meta.token_id) (object (marshal_token_meta meta)) m)

module _ (meta : TokenMeta) (b i : ℕ) (v : Value) (m : Rows) (sorted : IsSorted m) where
  pub settled-IsSorted : IsSorted (settled meta b i v m)
  settled-IsSorted = insert-IsSorted _ _ _ (insert-IsSorted _ _ m sorted)

  pub lookup-settled :
      (t a : Bytes) → lookup (holder_key t a) (settled meta b i v m) ≡ lookup (holder_key t a) m
  lookup-settled t a = ground (
    arith,
    lookup-insert (event_key b i) (holder_key t a) v
        (insert (token_meta_key meta.token_id) (object (marshal_token_meta meta)) m),
    lookup-insert (token_meta_key meta.token_id) (holder_key t a) (object (marshal_token_meta meta))
        m,
    Disjoint.holder_key-ne-event_key t a b i,
    Disjoint.holder_key-ne-token_meta_key t a meta.token_id,
  )

  pub balance_at-settled : (t a : Bytes) → balance_at t a (settled meta b i v m) ≡ balance_at t a m
  balance_at-settled t a = ap balance_of_value (lookup-settled t a)

  lookup-settled_addr :
      (t a : Bytes)
      → lookup (holder_addr_key a t) (settled meta b i v m) ≡ lookup (holder_addr_key a t) m
  lookup-settled_addr t a = ground (
    arith,
    lookup-insert (event_key b i) (holder_addr_key a t) v
        (insert (token_meta_key meta.token_id) (object (marshal_token_meta meta)) m),
    lookup-insert (token_meta_key meta.token_id) (holder_addr_key a t)
        (object (marshal_token_meta meta)) m,
    Disjoint.holder_addr_key-ne-event_key a t b i,
    Disjoint.holder_addr_key-ne-token_meta_key a t meta.token_id,
  )

  pub lookup-settled_meta :
      (t : Bytes)
      → lookup (token_meta_key t) (settled meta b i v m) ≡ (
          if token_meta_key meta.token_id == token_meta_key t
          then some (object (marshal_token_meta meta))
          else lookup (token_meta_key t) m)
  lookup-settled_meta t = ground (
    arith,
    lookup-insert (event_key b i) (token_meta_key t) v
        (insert (token_meta_key meta.token_id) (object (marshal_token_meta meta)) m),
    lookup-insert (token_meta_key meta.token_id) (token_meta_key t)
        (object (marshal_token_meta meta)) m,
    Disjoint.token_meta_key-ne-event_key t b i,
  )

  pub supply_in-settled : (t : Bytes) → supply_in t (settled meta b i v m) ≡ supply_in t m
  supply_in-settled t =
      supply_in-insert t _ v _ (insert-IsSorted _ _ m sorted) (Disjoint.has_prefix-event_key t b i)
      ∙ supply_in-insert t _ _ m sorted (Disjoint.has_prefix-token_meta_key t meta.token_id)

  pub holders_in-settled : (t : Bytes) → holders_in t (settled meta b i v m) ≡ holders_in t m
  holders_in-settled t =
      holders_in-insert t _ v _ (insert-IsSorted _ _ m sorted) (Disjoint.has_prefix-event_key t b i)
      ∙ holders_in-insert t _ _ m sorted (Disjoint.has_prefix-token_meta_key t meta.token_id)

  pub settled-IsBook : (t : Bytes) → IsBook t m → IsBook t (settled meta b i v m)
  settled-IsBook t h = record {
    positive = λ a w e. h.positive a w (ground (arith, lookup-settled t a));
    mirrored =
        λ a plain. ground (arith, lookup-settled t a, lookup-settled_addr t a, h.mirrored a plain);
  }

  settled-stored :
      (t : Bytes)
      → IsPlain t
      → meta.token_id ≡ t
      → meta.total_supply ≡ format_int (pos (supply_in t m))
      → meta.holder_count ≡ holders_in t m % 2 ^ 64
      → meta_at t (settled meta b i v m) ≡ some meta
  unfolding decoded
  settled-stored t plain own supply count = ground (
    arith,
    lookup-settled_meta t,
    ap token_meta_key own,
    unmarshal-marshal_token_meta meta (rw own (valid_utf8-ascii t (IsPlain-IsAscii t plain)))
        (rw supply (valid_utf8-ascii _ (format_int-IsAscii (pos (supply_in t m))))) (omega arith),
  )

  -- With the right totals in the metadata the rows are a ledger again.
  pub settled-IsLedger :
      (t : Bytes)
      → IsPlain t
      → meta.token_id ≡ t
      → meta.total_supply ≡ format_int (pos (supply_in t m))
      → meta.holder_count ≡ holders_in t m % 2 ^ 64
      → IsBook t m
      → IsLedger t (settled meta b i v m)
  settled-IsLedger t plain own supply count book = record {
    meta = meta;
    stored = settled-stored t plain own supply count;
    own = own;
    supply = rw (supply_in-settled t) supply;
    count = rw (holders_in-settled t) count;
    book = settled-IsBook t book;
  }
