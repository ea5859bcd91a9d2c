-- ===== src/Indexer/Abi/Words.antt =====
-- Big-endian words.
use agro_diamond_compliance.Prelude.{
  ℕ, zero, suc, ◌+◌, ◌/◌, ◌%◌, ◌^◌, ◌<◌, ◌≡◌, ap, sym, ◌∙◌, [], ◌∷◌, some, length, arith,
}
use agro_diamond_compliance.Bytes.{Bytes}
use agro_diamond_compliance.Indexer.Abi.{word_from, set_bytes, fill_from, fill_bytes}

word_from-fill_from :
    (w n : ℕ) (out : Bytes) → n < 256 ^ w → word_from 0 (fill_from w n out) ≡ word_from n out
unfolding word_from fill_from
word_from-fill_from zero n out h = ap (λ x. word_from x out) (omega arith)
word_from-fill_from (suc w) n out h =
    word_from-fill_from w (n / 256) ((n % 256) ∷ out) (omega arith)
    ∙ ap (λ x. word_from x out) (omega arith)

length-fill_from : (w n : ℕ) (out : Bytes) → length (fill_from w n out) ≡ w + length out
unfolding fill_from
length-fill_from zero n out = omega arith
length-fill_from (suc w) n out = length-fill_from w (n / 256) ((n % 256) ∷ out) ∙ omega arith

-- The digits of a number that fits, and no other answer.
fill_bytes-some :
    (w n : ℕ) (s : Bytes) → fill_bytes w n ≡ some s → (n < 256 ^ w) × (fill_from w n [] ≡ s)
unfolding fill_bytes
fill_bytes-some w n s e = ground arith

-- Where `FillBytes` does not panic, it writes as many bytes as it is asked for, and `SetBytes`
-- reads the number back.
pub set_bytes-fill_bytes :
    (w n : ℕ) (s : Bytes) → fill_bytes w n ≡ some s → (set_bytes s ≡ n) × (length s ≡ w)
unfolding set_bytes word_from
set_bytes-fill_bytes w n s e =
    let (fits, same) = fill_bytes-some w n s e in
    (
      ap (word_from 0) (sym same) ∙ word_from-fill_from w n [] fits,
      ap (λ x. length x) (sym same) ∙ (length-fill_from w n [] ∙ omega arith),
    )
