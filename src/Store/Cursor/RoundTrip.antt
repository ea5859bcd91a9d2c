-- ===== src/Store/Cursor/RoundTrip.antt =====
-- The cursor is read back as it was written.
use agro_diamond_compliance.Prelude.{ℕ, ◌^◌, ◌<◌, ◌≡◌, refl, [], ◌∷◌, some, arith, ap, ◌∙◌}
use agro_diamond_compliance.Bytes.{Bytes}
use agro_diamond_compliance.Bytes.Decimal.{
  format_uint, parse_nat, parse_nat-format_uint, format_uint-IsDigits, IsDigits,
}
use agro_diamond_compliance.Action.{Returns, ok, ◌>>=◌}
use agro_diamond_compliance.RocksDb.{RocksDb, IsReliable}
use agro_diamond_compliance.RocksDb.Entries.{raw, lookup-insert}
use agro_diamond_compliance.Store.Keys.{prefix_cursor}
use agro_diamond_compliance.Store.Values.{as_string}
use agro_diamond_compliance.Store.Cursor.{
  digit_prefix, sscanf_uint64, read_cursor, get_cursor, set_cursor,
}

digit_prefix-IsDigits : (s : Bytes) → IsDigits s → digit_prefix s ≡ s
unfolding digit_prefix
digit_prefix-IsDigits [] h = refl
digit_prefix-IsDigits (c ∷ s) (hc, h) = ground (arith, digit_prefix-IsDigits s h)

sscanf_uint64-format_uint : (n : ℕ) → n < 2 ^ 64 → sscanf_uint64 (format_uint n) ≡ some n
unfolding sscanf_uint64
sscanf_uint64-format_uint n h =
    rw
      (
        sscanf_uint64,
        ap parse_nat (digit_prefix-IsDigits _ (format_uint-IsDigits n)) ∙ parse_nat-format_uint n,
      )
      (ground arith)

module _ (db : RocksDb) (L : IsReliable db) where
  open db use {put, get}

  pub set_cursor_lem :
      (n : ℕ) (s : db.State)
      → set_cursor db n s ≡ ok tt (L.write prefix_cursor (raw (format_uint n)) s)
  unfolding set_cursor
  set_cursor_lem n s = L.put_lem _ _ s

  pub get_cursor-write :
      (n : ℕ) (s : db.State)
      → n < 2 ^ 64
      → let s' = L.write prefix_cursor (raw (format_uint n)) s in get_cursor db s' ≡ ok n s'
  unfolding get_cursor read_cursor as_string
  get_cursor-write n s h =
      rw (◌>>=◌, L.get_lem, L.entries-write, lookup-insert)
        (ground (arith, sscanf_uint64-format_uint n h))

  -- On a reliable database, `SetCursor` of a `uint64` returns, and then `GetCursor` returns it.
  pub get_cursor-set_cursor :
      (n : ℕ) (s : db.State)
      → n < 2 ^ 64
      → Returns (set_cursor db n s) λ s'. get_cursor db s' ≡ ok n s'
  get_cursor-set_cursor n s h = rw (set_cursor_lem n s) (get_cursor-write n s h)
