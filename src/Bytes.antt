-- ===== src/Bytes.antt =====
-- Byte strings: Go's `string` and `[]byte`, the bytewise order of RocksDB keys, prefixes, and the
-- decimal texts of `strconv`, `fmt` and `math/big`.
pub mod Order
pub mod Decimal
pub mod Padded
pub mod Utf8
use Prim.Native.Char.{code}
use agro_diamond_compliance.Prelude.{
  ℕ, ◌≡◌, refl, ◌≢◌, Bool, true, false, String, List, [], ◌∷◌, ◌++◌, ltb, eqb, All, arith, ◌<◌,
  if◌then◌else◌,
}

abbrev pub Bytes : Type 0
Bytes = List ℕ

-- The bytes of an ASCII literal.
abbrev pub codes : String → Bytes
codes String.[] = []
codes (String.◌∷◌ c s) = code c ∷ codes s

-- `bytes.Compare(a, b) < 0`, the order of RocksDB's default comparator.
unfoldable pub less : Bytes → Bytes → Bool
less [] [] = false
less [] (_ ∷ _) = true
less (_ ∷ _) [] = false
less (x ∷ xs) (y ∷ ys) = if ltb x y then true else if eqb x y then less xs ys else false

-- `strings.HasPrefix(s, p)`, with the prefix first.
unfoldable pub has_prefix : Bytes → Bytes → Bool
has_prefix [] s = true
has_prefix (_ ∷ _) [] = false
has_prefix (x ∷ p) (y ∷ s) = if eqb x y then has_prefix p s else false

-- Text that JSON keeps as it is and that holds no key separator: ASCII without `:`.
abbrev pub IsPlain : Bytes → Type 0
IsPlain = All (λ c. (c < 128) × (c ≢ b':'))

abbrev pub IsAscii : Bytes → Type 0
IsAscii = All (λ c. c < 128)
