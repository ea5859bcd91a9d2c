-- ===== src/Store/Ledger/Rows.antt =====
-- The rows of one token as a ledger: its supply is the sum of the balances of its holders.
use agro_diamond_compliance.Prelude.{
  ℕ, suc, ◌%◌, ◌^◌, ◌≡◌, false, none, some, arith, if◌then◌else◌, bytes_eq, ◌⊎◌, inl, inr,
  Option-cases,
}
use agro_diamond_compliance.Prelude.Int.{ℤ, pos, pos_part}
use agro_diamond_compliance.Bytes.{Bytes, has_prefix, IsPlain}
use agro_diamond_compliance.Bytes.Decimal.{format_int, set_string-format_int}
use agro_diamond_compliance.RocksDb.Entries.{Value, raw, Rows, lookup, insert, erase, IsSorted}
use agro_diamond_compliance.RocksDb.Total.{total, total-insert, total-erase}
use agro_diamond_compliance.Store.Keys.{holder_prefix, holder_key, holder_addr_key}
use agro_diamond_compliance.Store.Records.{TokenMeta}
use agro_diamond_compliance.Store.Tokens.{balance_of_value}
use agro_diamond_compliance.Store.Ledger.Steps.{meta_at}

-- What a row adds to the supply, and to the number of holders.
unfoldable pub held : Bytes → Bytes → Value → ℕ
held t k v = if has_prefix (holder_prefix t) k then pos_part (balance_of_value (some v)) else 0

unfoldable pub counted : Bytes → Bytes → Value → ℕ
counted t k v = if has_prefix (holder_prefix t) k then 1 else 0

abbrev pub supply_in : Bytes → Rows → ℕ
supply_in t m = total (held t) m

abbrev pub holders_in : Bytes → Rows → ℕ
holders_in t m = total (counted t) m

-- A holder row has a positive balance, and the row of the address agrees with it.
pub record IsBook (t : Bytes) (m : Rows) : Type 0 where
  pub positive :
      (a : Bytes) (v : Value)
      → lookup (holder_key t a) m ≡ some v
      → (n : ℕ) × (v ≡ raw (format_int (pos (suc n))))
  pub mirrored :
      (a : Bytes) → IsPlain a → lookup (holder_addr_key a t) m ≡ lookup (holder_key t a) m

pub record IsLedger (t : Bytes) (m : Rows) : Type 0 where
  pub meta : TokenMeta
  pub stored : meta_at t m ≡ some meta
  pub own : meta.token_id ≡ t
  pub supply : meta.total_supply ≡ format_int (pos (supply_in t m))
  pub count : meta.holder_count ≡ holders_in t m % 2 ^ 64
  pub book : IsBook t m

-- A row that is no holder row of the token changes neither sum.
pub supply_in-insert :
    (t k : Bytes) (v : Value) (m : Rows)
    → IsSorted m
    → has_prefix (holder_prefix t) k ≡ false
    → supply_in t (insert k v m) ≡ supply_in t m
unfolding held
supply_in-insert t k v m h n = ground (arith, total-insert (held t) k v m h)

pub holders_in-insert :
    (t k : Bytes) (v : Value) (m : Rows)
    → IsSorted m
    → has_prefix (holder_prefix t) k ≡ false
    → holders_in t (insert k v m) ≡ holders_in t m
unfolding counted
holders_in-insert t k v m h n = ground (arith, total-insert (counted t) k v m h)

pub supply_in-erase :
    (t k : Bytes) (m : Rows)
    → has_prefix (holder_prefix t) k ≡ false
    → supply_in t (erase k m) ≡ supply_in t m
unfolding held
supply_in-erase t k m n = ground (arith, total-erase (held t) k m)

pub holders_in-erase :
    (t k : Bytes) (m : Rows)
    → has_prefix (holder_prefix t) k ≡ false
    → holders_in t (erase k m) ≡ holders_in t m
unfolding counted
holders_in-erase t k m n = ground (arith, total-erase (counted t) k m)

pub balance_of_value-format : (a : ℤ) → balance_of_value (some (raw (format_int a))) ≡ a
unfolding balance_of_value
balance_of_value-format a = ground (arith, set_string-format_int a)

-- Whether an address holds the token: it has a row, with a positive balance, or none.
pub IsBook-cases :
    (t a : Bytes) (m : Rows)
    → IsBook t m
    → (lookup (holder_key t a) m ≡ none)
      ⊎ ((n : ℕ) × (lookup (holder_key t a) m ≡ some (raw (format_int (pos (suc n))))))
IsBook-cases t a m h = elim (Option-cases (lookup (holder_key t a) m)) [
  | inl e ↦ inl e
  | inr (v, e) ↦ let (n, f) = h.positive a v e in inr (n, rw (← f) e)
]
