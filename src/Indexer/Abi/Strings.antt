-- ===== src/Indexer/Abi/Strings.antt =====
-- Decoding an ABI-encoded string.
use agro_diamond_compliance.Prelude.{
  ℕ, zero, suc, ◌+◌, ◌%◌, ◌-◌, ◌^◌, ◌<◌, ◌≤◌, ◌≡◌, refl, ap, sym, ◌∙◌, [], ◌∷◌, ◌++◌, some, true,
  leb, length, length-append, append_assoc, take, drop, arith, if◌then◌else◌,
}
use agro_diamond_compliance.Bytes.{Bytes}
use agro_diamond_compliance.Indexer.Abi.Words.{set_bytes-fill_bytes}
use agro_diamond_compliance.Indexer.Abi.{
  set_bytes, uint, slice, word0, panics, offset_out, text, fill_bytes, read_at, read_word,
  decode_at, of_slice, decode_string,
}

take-append : (a b : Bytes) (n : ℕ) → length a ≡ n → take n (a ++ b) ≡ a
take-append [] b n e = ap (λ k. take k b) (sym e)
take-append (x ∷ a) b zero e = ground arith
take-append (x ∷ a) b (suc n) e = ap (λ y. x ∷ y) (take-append a b n (omega arith))

drop-append : (a b : Bytes) (n : ℕ) → length a ≡ n → drop n (a ++ b) ≡ b
drop-append [] b n e = ap (λ j. drop j b) (sym e)
drop-append (x ∷ a) b zero e = ground arith
drop-append (x ∷ a) b (suc n) e = drop-append a b n (omega arith)

slice-append :
    (a b c : Bytes) (n m : ℕ)
    → length a ≡ n
    → length b ≡ m
    → slice (a ++ (b ++ c)) n (n + m) ≡ some b
unfolding slice
slice-append a b c n m e f =
    let size : length (a ++ (b ++ c)) ≡ n + (m + length c) =
      length-append a (b ++ c) ∙ omega (arith, length-append b c) in
    let rest : drop n (a ++ (b ++ c)) ≡ b ++ c = drop-append a (b ++ c) n e in
    let part : take (n + m - n) (b ++ c) ≡ b = take-append b c (n + m - n) (omega arith) in
    ground arith

read_at_lem :
    (d word : Bytes) (n : ℕ)
    → 64 + n ≤ length d
    → 64 + n < 2 ^ 64
    → uint 64 (set_bytes word) ≡ n
    → read_at d 32 word ≡ of_slice (slice d 64 (64 + n))
unfolding read_at
read_at_lem d word n long h g =
    let end : (64 + uint 64 (set_bytes word)) % 2 ^ 64 ≡ 64 + n = ground arith in
    let fits : leb (64 + n) (length d) ≡ true = ground arith in rw (end, fits) refl

decode_at_lem :
    (d word : Bytes) (n : ℕ)
    → 64 + n ≤ length d
    → 64 + n < 2 ^ 64
    → slice d 32 64 ≡ some word
    → uint 64 (set_bytes word) ≡ n
    → decode_at d 32 ≡ of_slice (slice d 64 (64 + n))
unfolding decode_at read_word
decode_at_lem d word n long h f g =
    let enough : leb 64 (length d) ≡ true = ground arith in
    ap (λ b. if b then read_word d 32 (slice d 32 64) else offset_out) enough
    ∙ (ap (read_word d 32) f ∙ read_at_lem d word n long h g)

-- The decoding, where the offset is 32 and the length fits.
decode_string_lem :
    (d word : Bytes) (n : ℕ)
    → 64 + n ≤ length d
    → 64 + n < 2 ^ 64
    → uint 64 (set_bytes (word0 d)) ≡ 32
    → slice d 32 64 ≡ some word
    → uint 64 (set_bytes word) ≡ n
    → decode_string d ≡ of_slice (slice d 64 (64 + n))
unfolding decode_string
decode_string_lem d word n long h e f g =
    let enough : leb 64 (length d) ≡ true = ground arith in
    rw enough (ap (decode_at d) e ∙ decode_at_lem d word n long h f g)

-- A string behind its offset 32 and its length, and what follows it.
abbrev pub encoded : Bytes → Bytes → Bytes → Bytes → Bytes
encoded offset size s padding = offset ++ (size ++ (s ++ padding))

-- A string whose length stays 64 below 2^64, behind the words of its offset 32 and of its
-- length, decodes to the string, whatever follows it.
pub decode_string-encoded :
    (offset size s padding : Bytes)
    → fill_bytes 32 32 ≡ some offset
    → fill_bytes 32 (length s) ≡ some size
    → length s + 64 < 2 ^ 64
    → decode_string (encoded offset size s padding) ≡ text s
decode_string-encoded offset size s padding e f h =
    let d = encoded offset size s padding in
    let (value_o, length_o) = set_bytes-fill_bytes 32 32 offset e in
    let (value_s, length_s) = set_bytes-fill_bytes 32 (length s) size f in
    let first : word0 d ≡ offset = take-append offset _ 32 length_o in
    let both : d ≡ (offset ++ size) ++ (s ++ padding) =
      sym (append_assoc offset size (s ++ padding)) in
    let text_at : slice d 64 (64 + length s) ≡ some s =
      ap (λ x. slice x 64 (64 + length s)) both
      ∙ slice-append (offset ++ size) s padding 64 (length s)
          (omega (arith, length-append offset size)) refl in
    decode_string_lem d size (length s)
      (omega (
        arith,
        length-append offset (size ++ (s ++ padding)),
        length-append size (s ++ padding),
        length-append s padding,
      ))
      (omega arith) (ap (λ x. uint 64 (set_bytes x)) first ∙ ap (uint 64) value_o)
      (slice-append offset size (s ++ padding) 32 32 length_o length_s)
      (ap (uint 64) value_s ∙ ground arith)
    ∙ ap of_slice text_at

-- In at least 64 bytes of data, an offset whose low 64 bits are 2^64 - 32 or more passes the
-- bounds test, since the sum overflows a `uint64`, and then panics in the slice expression.
pub decode_string-panics :
    (s : Bytes)
    → 64 ≤ length s
    → 2 ^ 64 ≤ uint 64 (set_bytes (word0 s)) + 32
    → decode_string s ≡ panics
unfolding decode_string decode_at read_word slice
decode_string-panics s h k = ground arith
