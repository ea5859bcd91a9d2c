-- ===== src/Bytes/Padded.antt =====
-- `%012d` and `%06d`: decimal texts padded with zeros, whose bytewise order is that of the numbers.
use native.Mathlib.Nat.{pow-suc}
use agro_diamond_compliance.Prelude.{
  All-append, ap, inl, inr, ℕ, zero, suc, ◌+◌, ◌-◌, ◌/◌, ◌%◌, ◌^◌, ◌<◌, ◌≡◌, refl, true, [], ◌∷◌,
  ◌++◌, length, replicate, eqb, arith, Bool-cases, inl, inr, ◌∙◌,
}
use agro_diamond_compliance.Bytes.{Bytes, codes, less}
use agro_diamond_compliance.Bytes.Order.{less-append}
use agro_diamond_compliance.Bytes.Decimal.{digits, format_uint, IsDigits, format_uint-IsDigits}

-- Zeros in front of `s`, up to `width` bytes.
pad : ℕ → Bytes → Bytes
pad width s = replicate (width - length s) b'0' ++ s

unfoldable pub format_padded : ℕ → ℕ → Bytes
unfolding format_uint pad
format_padded width n = pad width (format_uint n)

format_padded_examples :
    (format_padded 6 42 ≡ codes "000042") × (format_padded 2 1234 ≡ codes "1234")
unfolding format_padded
format_padded_examples = (refl, refl)

-- Exactly `width` digits of `n`, in front of `out`.
fixed : ℕ → ℕ → Bytes → Bytes
fixed zero n out = out
fixed (suc width) n out = fixed width (n / 10) ((b'0' + n % 10) ∷ out)

replicate-cons : (n a : ℕ) (out : Bytes) → replicate n a ++ a ∷ out ≡ a ∷ (replicate n a ++ out)
replicate-cons zero a out = refl
replicate-cons (suc n) a out = ap (λ r. a ∷ r) (replicate-cons n a out)

fixed-zero : (width : ℕ) (out : Bytes) → fixed width 0 out ≡ replicate width b'0' ++ out
unfolding fixed
fixed-zero zero out = refl
fixed-zero (suc width) out = fixed-zero width (b'0' ∷ out) ∙ replicate-cons width b'0' out

less-fixed_same :
    (width n : ℕ) (o p : Bytes) → less o p ≡ true → less (fixed width n o) (fixed width n p) ≡ true
unfolding fixed
less-fixed_same zero n o p h = h
less-fixed_same (suc width) n o p h =
    less-fixed_same width (n / 10) _ _ (less-append ((b'0' + n % 10) ∷ []) o p ∙ h)

fixed-append : (width n : ℕ) (out o : Bytes) → fixed width n out ++ o ≡ fixed width n (out ++ o)
unfolding fixed
fixed-append zero n out o = refl
fixed-append (suc width) n out o = fixed-append width (n / 10) _ o

less-cons_lt : (x y : ℕ) (o p : Bytes) → x < y → less (x ∷ o) (y ∷ p) ≡ true
unfolding less
less-cons_lt x y o p h = ground arith

less-fixed :
    (width m n : ℕ) (o p : Bytes)
    → m < n
    → n < 10 ^ width
    → less (fixed width m o) (fixed width n p) ≡ true
unfolding fixed
less-fixed zero m n o p h k = absurd (omega arith)
less-fixed (suc width) m n o p h k = ground (
  arith,
  less-fixed width (m / 10) (n / 10) ((b'0' + m % 10) ∷ o) ((b'0' + n % 10) ∷ p),
  less-fixed_same width (n / 10) ((b'0' + m % 10) ∷ o) ((b'0' + n % 10) ∷ p),
  less-cons_lt (b'0' + m % 10) (b'0' + n % 10) o p,
  pow-suc 10 width,
)

-- `digits` at its last digit.
pad-last : (width n : ℕ) (out : Bytes) → n ≡ 0 → pad (width + length out) out ≡ fixed width n out
unfolding pad
pad-last width n out e =
    let d : width + length out - length out ≡ width = omega arith in rw (d, e, fixed-zero)

fixed-digits :
    (width fuel n : ℕ) (out : Bytes)
    → n < fuel
    → n < 10 ^ suc width
    → pad (suc width + length out) (digits fuel n out) ≡ fixed (suc width) n out
unfolding digits fixed
fixed-digits width zero n out h k = elim h [ ]
fixed-digits zero (suc fuel) n out h k =
    let done : eqb (n / 10) 0 ≡ true = ground arith in
    let e : 1 + length out ≡ 0 + suc (length out) = omega arith in
    rw (done, e) (pad-last 0 (n / 10) ((b'0' + n % 10) ∷ out) (omega arith))
fixed-digits (suc width) (suc fuel) n out h k = elim (Bool-cases (eqb (n / 10) 0)) [
  | inl done ↦
      let e : suc (suc width) + length out ≡ suc width + suc (length out) = omega arith in
      rw (done, e) (pad-last (suc width) (n / 10) ((b'0' + n % 10) ∷ out) (ground arith))
  | inr more ↦
      let e : suc (suc width) + length out ≡ suc width + suc (length out) = omega arith in
      rw (more, e)
        (fixed-digits width fuel (n / 10) ((b'0' + n % 10) ∷ out) (ground arith)
          (omega (arith, pow-suc 10 (suc width))))
]

-- Below 10 ^ width the padded text has exactly `width` digits.
format_padded-fixed :
    (width n : ℕ) → n < 10 ^ suc width → format_padded (suc width) n ≡ fixed (suc width) n []
unfolding format_padded
format_padded-fixed width n k =
    let e : suc width ≡ suc width + 0 = omega arith in
    ap (λ w. pad w (digits (suc n) n [])) e ∙ (fixed-digits width (suc n) n [] (omega arith) k)

-- Padded numbers of one width are in bytewise order exactly as they are in numeric order.
pub less-format_padded :
    (width m n : ℕ) (o p : Bytes)
    → m < n
    → n < 10 ^ suc width
    → less (format_padded (suc width) m ++ o) (format_padded (suc width) n ++ p) ≡ true
less-format_padded width m n o p h k =
    rw
      (
        format_padded-fixed width m (omega arith),
        format_padded-fixed width n k,
        fixed-append (suc width) m [] o,
        fixed-append (suc width) n [] p,
      )
      (less-fixed (suc width) m n o p h k)

zeros-IsDigits : (n : ℕ) → IsDigits (replicate n b'0')
zeros-IsDigits zero = tt
zeros-IsDigits (suc n) = (omega arith, zeros-IsDigits n)

pub format_padded-IsDigits : (width n : ℕ) → IsDigits (format_padded width n)
unfolding format_padded pad
format_padded-IsDigits width n =
    All-append _ (replicate (width - length (format_uint n)) b'0') (format_uint n)
      (zeros-IsDigits (width - length (format_uint n))) (format_uint-IsDigits n)
