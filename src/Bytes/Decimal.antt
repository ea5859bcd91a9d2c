-- ===== src/Bytes/Decimal.antt =====
-- Decimal texts: `fmt.Sprintf("%d", n)`, `(*big.Int).String`, `(*big.Int).SetString(s, 10)`.
use agro_diamond_compliance.Prelude.{
  ℕ, zero, suc, ◌+◌, ◌-◌, ◌*◌, ◌/◌, ◌%◌, ◌≤◌, ◌<◌, ◌≡◌, refl, ◌≢◌, ◌&&◌, Option, none, some, [],
  ◌∷◌, leb, eqb, All, arith, if◌then◌else◌,
}
use agro_diamond_compliance.Prelude.Int.{ℤ, pos, negsuc}
use agro_diamond_compliance.Bytes.Utf8.{IsPlain-IsAscii}
use agro_diamond_compliance.Bytes.{Bytes, codes, IsPlain, IsAscii}

-- The digits of `n` in front of `out`, the last digit first; the fuel bounds their number.
unfoldable pub digits : ℕ → ℕ → Bytes → Bytes
digits zero n out = out
digits (suc fuel) n out =
    let next = (b'0' + n % 10) ∷ out in
    let more = digits fuel (n / 10) next in if eqb (n / 10) 0 then next else more

unfoldable pub format_uint : ℕ → Bytes
unfolding digits
format_uint n = digits (suc n) n []

-- The digits of `s` behind the value `n`.
unfoldable pub scan : Bytes → ℕ → Option ℕ
scan [] n = some n
scan (c ∷ s) n = if leb b'0' c && leb c b'9' then scan s (n * 10 + (c - b'0')) else none

unfoldable pub parse_nat : Bytes → Option ℕ
unfolding scan
parse_nat [] = none
parse_nat (c ∷ s) = scan (c ∷ s) 0

-- `(*big.Int).String`
unfoldable pub format_int : ℤ → Bytes
unfolding format_uint
format_int (pos n) = format_uint n
format_int (negsuc n) = b'-' ∷ format_uint (suc n)

abbrev positive : Option ℕ → Option ℤ
positive none = none
positive (some n) = some (pos n)

abbrev negative : Option ℕ → Option ℤ
negative none = none
negative (some zero) = some (pos 0)
negative (some (suc n)) = some (negsuc n)

-- `(*big.Int).SetString(s, 10)`; `none` is `ok == false`.
unfoldable pub set_string : Bytes → Option ℤ
unfolding parse_nat
set_string [] = none
set_string (c ∷ s) =
    if eqb c b'-'
    then negative (parse_nat s)
    else if eqb c b'+'
    then positive (parse_nat s)
    else positive (parse_nat (c ∷ s))

format_int_examples :
    (format_int (pos 0) ≡ codes "0")
    × (format_int (negsuc 119) ≡ codes "-120")
    × (set_string (codes "+07") ≡ some (pos 7))
    × (set_string (codes "-") ≡ none)
unfolding format_int set_string
format_int_examples = (refl, refl, refl, refl)

scan-digits : (fuel n : ℕ) (out : Bytes) → n < fuel → scan (digits fuel n out) 0 ≡ scan out n
unfolding digits scan
scan-digits zero n out h = elim h [ ]
scan-digits (suc fuel) n out h = ground (arith, scan-digits fuel (n / 10) ((b'0' + n % 10) ∷ out))

abbrev pub IsDigits : Bytes → Type 0
IsDigits = All (λ c. (b'0' ≤ c) × (c ≤ b'9'))

pub digits-IsDigits : (fuel n : ℕ) (out : Bytes) → IsDigits out → IsDigits (digits fuel n out)
unfolding digits
digits-IsDigits zero n out h = h
digits-IsDigits (suc fuel) n out h =
    ground (arith, digits-IsDigits fuel (n / 10) ((b'0' + n % 10) ∷ out))

pub format_uint-IsDigits : (n : ℕ) → IsDigits (format_uint n)
unfolding format_uint
format_uint-IsDigits n = digits-IsDigits (suc n) n [] tt

pub IsDigits-IsPlain : (s : Bytes) → IsDigits s → IsPlain s
IsDigits-IsPlain [] h = tt
IsDigits-IsPlain (c ∷ s) (hc, hs) = (omega arith, IsDigits-IsPlain s hs)

digits-ne-nil : (fuel n : ℕ) (out : Bytes) → out ≢ [] → digits fuel n out ≢ []
unfolding digits
digits-ne-nil zero n out h = h
digits-ne-nil (suc fuel) n out h =
    ground (arith, digits-ne-nil fuel (n / 10) ((b'0' + n % 10) ∷ out))

pub format_uint-ne-nil : (n : ℕ) → format_uint n ≢ []
unfolding format_uint
format_uint-ne-nil n = ground (arith, digits-ne-nil n (n / 10) ((b'0' + n % 10) ∷ []))

parse_nat-scan : (s : Bytes) → s ≢ [] → parse_nat s ≡ scan s 0
unfolding parse_nat
parse_nat-scan [] h = absurd (h refl)
parse_nat-scan (c ∷ s) h = refl

pub parse_nat-format_uint : (n : ℕ) → parse_nat (format_uint n) ≡ some n
unfolding format_uint scan
parse_nat-format_uint n =
    rw (parse_nat-scan _ (format_uint-ne-nil n)) (scan-digits (suc n) n [] (omega arith))

set_string-digits :
    (s : Bytes) (n : ℕ) → IsDigits s → parse_nat s ≡ some n → set_string s ≡ some (pos n)
unfolding set_string
set_string-digits [] n h e = cc
set_string-digits (c ∷ s) n (hc, hs) e = ground arith

-- Every integer is read back from its decimal text.
pub set_string-format_int : (a : ℤ) → set_string (format_int a) ≡ some a
unfolding format_int
set_string-format_int (pos n) =
    set_string-digits (format_uint n) n (format_uint-IsDigits n) (parse_nat-format_uint n)
set_string-format_int (negsuc n) = unfold set_string in rw (parse_nat-format_uint (suc n))

pub format_int-IsAscii : (a : ℤ) → IsAscii (format_int a)
unfolding format_int
format_int-IsAscii (pos n) = IsPlain-IsAscii _ (IsDigits-IsPlain _ (format_uint-IsDigits n))
format_int-IsAscii (negsuc n) =
    (omega arith, IsPlain-IsAscii _ (IsDigits-IsPlain _ (format_uint-IsDigits (suc n))))
