-- ===== src/Graph/Portfolio.antt =====
-- What `holder` and `portfolio` answer on the ledgers of some holdings.
use agro_diamond_compliance.Prelude.{
  ℕ, zero, suc, ◌≡◌, refl, sym, ap, ◌∙◌, true, Option, none, some, List, [], ◌∷◌, ◌++◌, map,
  append_assoc, length, drop, ◌==◌, bytes_eq, arith, if◌then◌else◌, inl, inr,
}
use agro_diamond_compliance.Prelude.Int.{pos}
use agro_diamond_compliance.Bytes.{Bytes, has_prefix}
use agro_diamond_compliance.Bytes.Order.{has_prefix-append}
use agro_diamond_compliance.Bytes.Decimal.{format_uint, format_int}
use agro_diamond_compliance.Action.{ok, ◌>>=◌}
use agro_diamond_compliance.Ethereum.{Ethereum, IsLawful}
use agro_diamond_compliance.RocksDb.{RocksDb, IsReliable}
use agro_diamond_compliance.RocksDb.Entries.{Value, Rows, lookup}
use agro_diamond_compliance.RocksDb.Scan.{with_prefix, while_prefix-from}
use agro_diamond_compliance.Store.Keys.{prefix_holder_addr, holder_addr_prefix, holder_addr_key}
use agro_diamond_compliance.Store.Records.{Holder}
use agro_diamond_compliance.Store.Values.{as_string}
use agro_diamond_compliance.Store.Tokens.{balance_of_value, holders_of_rows, get_portfolio}
use agro_diamond_compliance.Store.Ledger.Rows.{IsBook-cases, balance_of_value-format}
use agro_diamond_compliance.Store.Ledger.Queries.{get_holder_balance_text_lem}
use agro_diamond_compliance.Store.Ledger.Holdings.{Holdings, Tracks}
use agro_diamond_compliance.Graph.{PortfolioHolding}
use agro_diamond_compliance.Graph.Tokens.{holding_of, resolve_holder, resolve_portfolio}

-- The balance that a portfolio lists for a token.
unfoldable pub listed_balance : Bytes → List PortfolioHolding → Option Bytes
listed_balance token_id [] = none
listed_balance token_id (h ∷ holdings) =
    let rest = listed_balance token_id holdings in
    if h.token_id == token_id then some h.balance else rest

-- The text of a positive balance; nothing is listed for an address without units.
unfoldable pub text_of_units : ℕ → Option Bytes
text_of_units zero = none
text_of_units (suc n) = some (format_uint (suc n))

drop-prefix : (p t : Bytes) → drop (length p) (p ++ t) ≡ t
drop-prefix [] t = refl
drop-prefix (c ∷ p) t = drop-prefix p t

prefix-append-drop : (p k : Bytes) → has_prefix p k ≡ true → k ≡ p ++ drop (length p) k
unfolding has_prefix
prefix-append-drop [] k h = refl
prefix-append-drop (c ∷ p) [] h = cc
prefix-append-drop (c ∷ p) (d ∷ k) h = ground (arith, prefix-append-drop p k)

abbrev text_of : Option Value → Option Bytes
text_of none = none
text_of (some v) = some (as_string v)

abbrev listed_rows : Bytes → Rows → List PortfolioHolding
listed_rows p m = map holding_of (holders_of_rows p (with_prefix p m))

-- The scan of a prefix lists a token with the value of its row.
listed_balance-rows :
    (p t : Bytes) (m : Rows) → listed_balance t (listed_rows p m) ≡ text_of (lookup (p ++ t) m)
unfolding listed_balance holders_of_rows with_prefix lookup
listed_balance-rows p t [] = refl
listed_balance-rows p t ((k, v) ∷ m) = ground (
  arith,
  listed_balance-rows p t m,
  prefix-append-drop p k,
  drop-prefix p t,
  has_prefix-append p t,
)

prefix-append-token : (a t : Bytes) → holder_addr_prefix a ++ t ≡ holder_addr_key a t
unfolding holder_addr_prefix holder_addr_key
prefix-append-token a t =
    append_assoc prefix_holder_addr (a ++ b':' ∷ []) t
    ∙ ap (λ x. prefix_holder_addr ++ x) (append_assoc a (b':' ∷ []) t)

module _ (db : RocksDb) (L : IsReliable db) (eth : Ethereum) (E : IsLawful eth) (f : Holdings)
    (s : db.State) (h : Tracks eth E f (L.entries s)) where
  -- On a reliable database whose rows are the ledgers and the balances of some holdings, `holder`
  -- answers, without a change, the address and the decimal number of its units.
  pub resolve_holder-Tracks :
      (k : ℕ) (a : Bytes)
      → let holder : Holder = record { address = eth.hex a; balance = format_uint (f k a) } in
        resolve_holder db (format_uint k) (eth.hex a) s ≡ ok holder s
  unfolding resolve_holder format_int
  resolve_holder-Tracks k a =
      rw (get_holder_balance_text_lem db L (format_uint k) (eth.hex a) s, h.balance k a, ◌>>=◌) refl

  row_text :
      (k : ℕ) (a : Bytes)
      → text_of (lookup (holder_addr_key (eth.hex a) (format_uint k)) (L.entries s))
        ≡ text_of_units (f k a)
  unfolding text_of_units format_int as_string
  row_text k a =
      let book = (h.ledger k).book in
      let units = h.balance k a in
      rw (book.mirrored (eth.hex a) (E.hex-IsPlain a))
        (elim (IsBook-cases (format_uint k) (eth.hex a) (L.entries s) book) [
          | inl e ↦
              let none_held : pos 0 ≡ pos (f k a) =
                unfold balance_of_value in sym (ap balance_of_value e) ∙ units in
              ground arith
          | inr (n, e) ↦
              let held : pos (suc n) ≡ pos (f k a) =
                sym (ap balance_of_value e ∙ balance_of_value-format (pos (suc n))) ∙ units in
              ground arith
        ])

  -- On a reliable database whose rows are the ledgers and the balances of some holdings,
  -- `portfolio` of an address answers, without a change, and the answer lists for each token the
  -- decimal number of units that the address holds, and no balance where it holds none.
  pub resolve_portfolio-Tracks :
      (a : Bytes)
      → (holdings : List PortfolioHolding) × (resolve_portfolio db (eth.hex a) s ≡ ok holdings s)
        × ((k : ℕ) → listed_balance (format_uint k) holdings ≡ text_of_units (f k a))
  unfolding resolve_portfolio get_portfolio
  resolve_portfolio-Tracks a =
      let p = holder_addr_prefix (eth.hex a) in
      (
        listed_rows p (L.entries s),
        rw (L.seek_lem s p, while_prefix-from p (L.entries s) (L.entries-IsSorted s), ◌>>=◌) refl,
        λ k.
            listed_balance-rows p (format_uint k) (L.entries s)
            ∙ (ap (λ key. text_of (lookup key (L.entries s)))
                  (prefix-append-token (eth.hex a) (format_uint k))
                ∙ row_text k a),
      )
