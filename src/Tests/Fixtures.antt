-- ===== src/Tests/Fixtures.antt =====
-- The values that the concrete runs share: texts for addresses, an empty database and one with a
-- token that has been minted.
use agro_diamond_compliance.Prelude.{ℕ, zero, suc, ◌≡◌, refl, [], ◌∷◌, sym, arith, bytes_eq}
use agro_diamond_compliance.Bytes.{Bytes, codes, IsPlain}
use agro_diamond_compliance.Bytes.Decimal.{format_int}
use agro_diamond_compliance.Action.{Outcome, Returns, ok, err, panic, final}
use agro_diamond_compliance.Ethereum.{Ethereum, IsLawful}
use agro_diamond_compliance.RocksDb.Entries.{lookup}
use agro_diamond_compliance.Store.Tokens.{no_meta}
use agro_diamond_compliance.Store.Ledger.Rows.{IsLedger}

-- A byte in unary, which tells all byte arrays apart.
abbrev unary : ℕ → Bytes → Bytes
unary zero s = b'1' ∷ s
unary (suc c) s = b'0' ∷ unary c s

abbrev pub plain_hex : Bytes → Bytes
plain_hex [] = []
plain_hex (c ∷ s) = unary c (plain_hex s)

abbrev pub eth : Ethereum
eth = record {
  hex = plain_hex;
  hash_hex = plain_hex;
  bytes_to_address = λ s. s;
  hex_to_address = λ s. s;
  keccak256_hash = λ s. s;
}

unary-IsPlain : (c : ℕ) (s : Bytes) → IsPlain s → IsPlain (unary c s)
unary-IsPlain zero s h = ((omega arith, omega arith), h)
unary-IsPlain (suc c) s h = ((omega arith, omega arith), unary-IsPlain c s h)

plain_hex-IsPlain : (s : Bytes) → IsPlain (plain_hex s)
plain_hex-IsPlain [] = tt
plain_hex-IsPlain (c ∷ s) = unary-IsPlain c (plain_hex s) (plain_hex-IsPlain s)

unary_injective : (c d : ℕ) (s t : Bytes) → unary c s ≡ unary d t → (c ≡ d) × (s ≡ t)
unary_injective zero zero s t e = (refl, cc)
unary_injective zero (suc d) s t e = ground arith
unary_injective (suc c) zero s t e = ground arith
unary_injective (suc c) (suc d) s t e =
    let (same, rest) = unary_injective c d s t cc in (omega arith, rest)

unary-ne-nil : (c : ℕ) (s : Bytes) → unary c s ≡ [] → ⊥
unary-ne-nil zero s e = ground arith
unary-ne-nil (suc c) s e = ground arith

plain_hex_injective : (s t : Bytes) → plain_hex s ≡ plain_hex t → s ≡ t
plain_hex_injective [] [] e = refl
plain_hex_injective [] (d ∷ t) e = elim (unary-ne-nil d (plain_hex t) (sym e)) [ ]
plain_hex_injective (c ∷ s) [] e = elim (unary-ne-nil c (plain_hex s) e) [ ]
plain_hex_injective (c ∷ s) (d ∷ t) e =
    let (same, rest) = unary_injective c d (plain_hex s) (plain_hex t) e in
    rw (same, plain_hex_injective s t rest) refl

pub eth-IsLawful : IsLawful eth
eth-IsLawful = record {
  hex-IsPlain = plain_hex-IsPlain;
  hash_hex-IsPlain = plain_hex-IsPlain;
  hex_injective = plain_hex_injective;
}

abbrev pub token : Bytes
token = codes "7"

abbrev pub alice : Bytes
alice = 1 ∷ []

abbrev pub bob : Bytes
bob = 2 ∷ []

pub token-IsPlain : IsPlain token
token-IsPlain = ((omega arith, omega arith), tt)

-- Without rows, every token has an empty ledger.
pub empty-IsLedger : (t : Bytes) → IsLedger t []
unfolding lookup format_int
empty-IsLedger t = record {
  meta = no_meta t;
  stored = refl;
  own = refl;
  supply = refl;
  count = refl;
  book = record { positive = λ a v e. ground arith; mirrored = λ a p. refl };
}

abbrev pub other_token : Bytes
other_token = codes "8"

pub other_token-IsPlain : IsPlain other_token
other_token-IsPlain = ((omega arith, omega arith), tt)

pub at_final : {S A : Type 0} (o : Outcome S A) (P : S → Type 0) → Returns o P → P (final o)
at_final (ok a s) P h = h
at_final (err _ _) P h = elim h [ ]
at_final (panic _) P h = elim h [ ]
