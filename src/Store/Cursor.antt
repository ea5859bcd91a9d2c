-- ===== src/Store/Cursor.antt =====
-- The last indexed block (CURSOR).
pub mod RoundTrip
use agro_diamond_compliance.Prelude.{
  ℕ, ◌+◌, ◌-◌, ◌*◌, ◌^◌, Option, none, some, List, [], ◌∷◌, ◌&&◌, leb, ltb, if◌then◌else◌,
}
use agro_diamond_compliance.Bytes.{Bytes}
use agro_diamond_compliance.Bytes.Decimal.{format_uint, parse_nat}
use agro_diamond_compliance.Action.{Action, bad_format, pure, raise, ◌>>=◌}
use agro_diamond_compliance.RocksDb.{RocksDb}
use agro_diamond_compliance.RocksDb.Entries.{Value, raw}
use agro_diamond_compliance.Store.Keys.{prefix_cursor}
use agro_diamond_compliance.Store.Values.{as_string}

unfoldable pub digit_prefix : Bytes → Bytes
digit_prefix [] = []
digit_prefix (c ∷ s) =
    let rest = digit_prefix s in if leb b'0' c && leb c b'9' then c ∷ rest else []

-- `fmt.Sscanf(s, "%d", &block)` into a `uint64`, for a text that does not begin with a space: the
-- digits in front, if there are some and they fit.
unfoldable pub sscanf_uint64 : Bytes → Option ℕ
unfolding digit_prefix parse_nat
sscanf_uint64 s = elim (parse_nat (digit_prefix s)) [
  | none ↦ none
  | some n ↦ if ltb n (2 ^ 64) then some n else none
]

unfoldable pub read_cursor : {S : Type 0} → Option Value → Action S ℕ
unfolding sscanf_uint64 as_string
read_cursor none = pure 0
read_cursor (some v) = elim (sscanf_uint64 (as_string v)) [
  | none ↦ raise bad_format
  | some n ↦ pure n
]

module _ (db : RocksDb) where
  open db use {State, get, put}

  unfoldable pub get_cursor : Action State ℕ
  get_cursor = do found ← get prefix_cursor; read_cursor found

  unfoldable pub set_cursor : ℕ → Action State (Unit {0})
  set_cursor block = put prefix_cursor (raw (format_uint block))
