-- ===== src/Store/Ledger/Holdings.antt =====
-- The abstract view of the ledgers: how many units of each token each address holds, and the three
-- moves of units.
use agro_diamond_compliance.Prelude.{
  ℕ, suc, ◌+◌, ◌-◌, ◌<◌, ◌≤◌, ◌≡◌, ◌≢◌, sym, ap, subst, ◌∙◌, ◌&&◌, arith, eqb, if◌then◌else◌, ◌==◌,
  bytes_eq, bytes_discrete, Bool-cases, inl, inr,
}
use agro_diamond_compliance.Prelude.Int.{ℤ, pos, pos_part}
use agro_diamond_compliance.Bytes.{Bytes, IsPlain, has_prefix}
use agro_diamond_compliance.Bytes.Decimal.{
  format_uint, set_string, set_string-format_int, format_int, format_uint-IsDigits,
  IsDigits-IsPlain,
}
use agro_diamond_compliance.Ethereum.{Ethereum, IsLawful}
use agro_diamond_compliance.RocksDb.Entries.{Rows, IsSorted, lookup}
use agro_diamond_compliance.Store.Keys.{holder_key, holder_prefix}
use agro_diamond_compliance.Store.Keys.Disjoint
use agro_diamond_compliance.Store.Tokens.{balance_of_value}
use agro_diamond_compliance.Store.Ledger.Steps.{balance_at}
use agro_diamond_compliance.Store.Ledger.Rows.{IsLedger}
use agro_diamond_compliance.Store.Ledger.Book
use agro_diamond_compliance.Store.Ledger.Settle.{settled, lookup-settled}
use agro_diamond_compliance.Store.Ledger.Debit
use agro_diamond_compliance.Store.Ledger.Mint.{minted}
use agro_diamond_compliance.Store.Ledger.Burn.{burnt}
use agro_diamond_compliance.Store.Ledger.Transfer.{middle, before, credited}

-- The units of a token that an address holds.
abbrev pub Holdings : Type 0
Holdings = ℕ → Bytes → ℕ

pub data Move : Type 0 where
  mint : ℕ → Bytes → ℕ → Move
  burn : ℕ → Bytes → ℕ → Move
  transfer : ℕ → Bytes → Bytes → ℕ → Move

-- One address holds another number of units; all else is as before.
unfoldable pub set_units : Holdings → ℕ → Bytes → ℕ → Holdings
set_units f t a n u c = if eqb t u && (a == c) then n else f u c

unfoldable pub move_units : Move → Holdings → Holdings
unfolding set_units
move_units (mint t to n) f = set_units f t to (f t to + n)
move_units (burn t from n) f = set_units f t from (f t from - n)
move_units (transfer t from to n) f =
    let g = set_units f t from (f t from - n) in set_units g t to (g t to + n)

-- A positive amount is minted, and the units that are burnt or transferred are there.
abbrev pub IsCovered : Move → Holdings → Type 0
IsCovered (mint t to n) f = 0 < n
IsCovered (burn t from n) f = (n ≤ f t from) × (0 < f t from)
IsCovered (transfer t from to n) f = (0 < n) × (n ≤ f t from)

pub format_uint-IsPlain : (k : ℕ) → IsPlain (format_uint k)
format_uint-IsPlain k = IsDigits-IsPlain _ (format_uint-IsDigits k)

pub format_uint_injective : (j k : ℕ) → format_uint j ≡ format_uint k → j ≡ k
unfolding format_int
format_uint_injective j k e =
    let same =
      sym (set_string-format_int (pos j)) ∙ (ap set_string e ∙ set_string-format_int (pos k)) in
    ground arith

-- Two addresses, or two tokens, have different rows.
holder_key_apart :
    (t u a c : Bytes) → IsPlain t → IsPlain u → (t ≡ u → a ≢ c) → holder_key t a ≢ holder_key u c
holder_key_apart t u a c pt pu apart e = elim (bytes_discrete t u) [
  | yes same ↦
      apart same (Disjoint.holder_key_injective t a c (e ∙ ap (λ x. holder_key x c) (sym same)))
  | no ne ↦
      let first = Disjoint.holder_key_ne_token t u a pt pu (λ f. ne (sym f)) in
      let second = Disjoint.has_prefix-holder_key u c in
      ground (arith, ap (has_prefix (holder_prefix u)) e)
]

module _ (eth : Ethereum) (E : IsLawful eth) where
  abbrev row_of : ℕ → Bytes → Bytes
  row_of k a = holder_key (format_uint k) (eth.hex a)

  abbrev units_at : ℕ → Bytes → Rows → ℤ
  units_at k a m = balance_at (format_uint k) (eth.hex a) m

  abbrev pub AreBalances : Holdings → Rows → Type 0
  AreBalances f m = (k : ℕ) (a : Bytes) → units_at k a m ≡ pos (f k a)

  -- Every token has its ledger in the table, and every address its balance.
  pub record Tracks (f : Holdings) (m : Rows) : Type 0 where
    pub ledger : (k : ℕ) → IsLedger (format_uint k) m
    pub balance : AreBalances f m

  AreBalances-set :
      (f : Holdings) (m m' : Rows) (k : ℕ) (a : Bytes) (n : ℕ)
      → AreBalances f m
      → units_at k a m' ≡ pos n
      → ((u c : Bytes)
          → holder_key (format_uint k) (eth.hex a) ≢ holder_key u c
          → lookup (holder_key u c) m' ≡ lookup (holder_key u c) m)
      → AreBalances (set_units f k a n) m'
  unfolding set_units
  AreBalances-set f m m' k a n h own others j c = elim (Bool-cases (eqb k j && (a == c))) [
    | inl same ↦
        let e : k ≡ j = ground arith in
        let g : a ≡ c = ground arith in
        ap (λ x. units_at x c m') (sym e)
        ∙ (ap (λ x. units_at k x m') (sym g) ∙ (own ∙ ground arith))
    | inr ne ↦
        ap balance_of_value (
          others (format_uint j) (eth.hex c) (
            holder_key_apart (format_uint k) (format_uint j) (eth.hex a) (eth.hex c)
              (format_uint-IsPlain k) (format_uint-IsPlain j)
              λ e g. ground (arith, format_uint_injective k j e, E.hex_injective a c g)))
        ∙ (h j c ∙ ground arith)
  ]

  -- The rows of the metadata and of the event are no balances.
  pub AreBalances-settled :
      (f : Holdings) (m : Rows)
      → IsSorted m
      → AreBalances f m
      → (meta : _) (b i : ℕ) (v : _) → AreBalances f (settled meta b i v m)
  AreBalances-settled f m sorted h meta b i v k a =
      ap balance_of_value (lookup-settled meta b i v m sorted (format_uint k) (eth.hex a)) ∙ h k a

  AreBalances-put :
      (f : Holdings) (m : Rows) (k : ℕ) (a : Bytes) (n : ℕ)
      → IsSorted m
      → AreBalances f m
      → AreBalances (set_units f k a n) (Book.put_rows (format_uint k) (eth.hex a) n m)
  AreBalances-put f m k a n sorted h =
      AreBalances-set f m _ k a n h
        (Book.balance_at-put_rows (format_uint k) (eth.hex a) m sorted n)
        λ u c ne. ground (arith, Book.lookup-put_rows (format_uint k) (eth.hex a) m sorted n u c)

  AreBalances-debit :
      (f : Holdings) (m : Rows) (k : ℕ) (a : Bytes) (n : ℕ)
      → IsSorted m
      → AreBalances f m
      → AreBalances (set_units f k a n) (Debit.debited_rows (format_uint k) (eth.hex a) n m)
  AreBalances-debit f m k a n sorted h =
      AreBalances-set f m _ k a n h
        (Debit.balance_at-debited (format_uint k) (eth.hex a) m sorted n)
        (Debit.lookup-debited_ne (format_uint k) (eth.hex a) m sorted n)

  -- The balances after each mutation.
  pub minted-AreBalances :
      (f : Holdings) (m : Rows) (k : ℕ) (to : Bytes) (n : ℕ) (meta : _) (b i : ℕ) (v : _)
      → IsSorted m
      → AreBalances f m
      → AreBalances
          (move_units (mint k to (suc n)) f)
          (minted n (format_uint k) (eth.hex to) meta b i v m)
  unfolding move_units
  minted-AreBalances f m k to n meta b i v sorted h =
      let new = suc (pos_part (units_at k to m) + n) in
      let e : new ≡ f k to + suc n = omega (arith, ap pos_part (h k to)) in
      AreBalances-settled _ _ (Book.put_rows-IsSorted _ _ m sorted new)
        (subst
          (λ x. AreBalances (set_units f k to x) (Book.put_rows (format_uint k) (eth.hex to) new m))
          e (AreBalances-put f m k to new sorted h))
        _ b i v

  pub burnt-AreBalances :
      (f : Holdings) (m : Rows) (k : ℕ) (from : Bytes) (n : ℕ) (meta : _) (b i : ℕ) (v : _)
      → IsSorted m
      → AreBalances f m
      → AreBalances
          (move_units (burn k from n) f)
          (burnt n (pos_part (units_at k from m) - n) (format_uint k) (eth.hex from) meta b i v m)
  unfolding move_units
  burnt-AreBalances f m k from n meta b i v sorted h =
      let left = pos_part (units_at k from m) - n in
      let e : left ≡ f k from - n = ap (λ z. pos_part z - n) (h k from) in
      AreBalances-settled _ _ (Debit.debited-IsSorted _ _ m sorted left)
        (subst
          (λ x.
            AreBalances (set_units f k from x)
              (Debit.debited_rows (format_uint k) (eth.hex from) left m))
          e (AreBalances-debit f m k from left sorted h))
        _ b i v

  pub credited-AreBalances :
      (f : Holdings) (m : Rows) (k : ℕ) (from to : Bytes) (n : ℕ)
      → IsSorted m
      → AreBalances f m
      → AreBalances
          (move_units (transfer k from to (suc n)) f)
          (credited n (format_uint k) (eth.hex from) (eth.hex to) m)
  unfolding move_units
  credited-AreBalances f m k from to n sorted h =
      let left = pos_part (units_at k from m) - suc n in
      let g = set_units f k from (f k from - suc n) in
      let mid = middle n (format_uint k) (eth.hex from) m in
      let new = suc (before n (format_uint k) (eth.hex from) (eth.hex to) m + n) in
      let less : left ≡ f k from - suc n = ap (λ z. pos_part z - suc n) (h k from) in
      let first : AreBalances g mid =
        subst (λ x. AreBalances (set_units f k from x) mid) less
          (AreBalances-debit f m k from left sorted h) in
      let more : new ≡ g k to + suc n = omega (arith, ap pos_part (first k to)) in
      subst
        (λ x. AreBalances (set_units g k to x) (Book.put_rows (format_uint k) (eth.hex to) new mid))
        more (AreBalances-put g mid k to new (Debit.debited-IsSorted _ _ m sorted left) first)
