-- ===== src/Indexer/Abi.antt =====
-- How the handlers read topics and data: big-endian words, Go slices and ABI-encoded strings.
pub mod Words
pub mod Strings
use agro_diamond_compliance.Prelude.{
  ℕ, zero, suc, ◌+◌, ◌-◌, ◌*◌, ◌/◌, ◌%◌, ◌^◌, ◌≡◌, refl, Bool, true, false, ◌&&◌, not, Option, none,
  some, List, [], ◌∷◌, ◌++◌, take, drop, length, replicate, ltb, leb, eqb, if◌then◌else◌,
}
use agro_diamond_compliance.Bytes.{Bytes, codes}
use agro_diamond_compliance.Bytes.Decimal.{format_uint}

unfoldable word_from : ℕ → Bytes → ℕ
word_from n [] = n
word_from n (c ∷ s) = word_from (n * 256 + c) s

-- `new(big.Int).SetBytes(s)`
unfoldable pub set_bytes : Bytes → ℕ
unfolding word_from
set_bytes s = word_from 0 s

-- `x.Uint64()`, `uint32(x.Uint64())` and `uint16(x.Uint64())`: the low bits.
abbrev pub uint : ℕ → ℕ → ℕ
uint bits n = n % 2 ^ bits

-- `new(big.Int).SetBytes(s).String()`
abbrev pub decimal : Bytes → Bytes
decimal s = format_uint (set_bytes s)

-- `s[lo:hi]`; `none` is the panic of a bound out of range.
unfoldable pub slice : Bytes → ℕ → ℕ → Option Bytes
slice s lo hi = if leb lo hi && leb hi (length s) then some (take (hi - lo) (drop lo s)) else none

-- The first and the second word, where the length has been tested.
abbrev pub word0 : Bytes → Bytes
word0 s = take 32 s

abbrev pub word1 : Bytes → Bytes
word1 s = take 32 (drop 32 s)

abbrev pub has_bytes : ℕ → Bytes → Bool
has_bytes n s = leb n (length s)

-- What the decoding of a string ends in: the text, a bound that the code rejects, or a panic.
pub data Decoded : Type 0 where
  text : Bytes → Decoded
  too_short : Decoded
  offset_out : Decoded
  data_out : Decoded
  panics : Decoded

abbrev pub of_slice : Option Bytes → Decoded
of_slice none = panics
of_slice (some s) = text s

-- The string behind `length` at an offset, in `uint64` arithmetic.
unfoldable read_at : Bytes → ℕ → Bytes → Decoded
unfolding slice set_bytes
read_at s offset word =
    let size = uint 64 (set_bytes word) in
    let end = (offset + 32 + size) % 2 ^ 64 in
    if leb end (length s) then of_slice (slice s ((offset + 32) % 2 ^ 64) end) else data_out

unfoldable read_word : Bytes → ℕ → Option Bytes → Decoded
unfolding read_at
read_word s offset none = panics
read_word s offset (some word) = read_at s offset word

-- The length word at the offset, after its bounds test, which the sum may overflow.
unfoldable decode_at : Bytes → ℕ → Decoded
unfolding read_word
decode_at s offset =
    let start = (offset + 32) % 2 ^ 64 in
    if leb start (length s) then read_word s offset (slice s offset start) else offset_out

-- The decoding that `handleURI`, `handleGlobalPluginRegistered` and `callStringView` share.
unfoldable pub decode_string : Bytes → Decoded
unfolding decode_at
decode_string s =
    let found = decode_at s (uint 64 (set_bytes (word0 s))) in
    if has_bytes 64 s then found else too_short

-- `big.Int.FillBytes` of `width` bytes, where the number fits.
unfoldable fill_from : ℕ → ℕ → Bytes → Bytes
fill_from zero n out = out
fill_from (suc width) n out = fill_from width (n / 256) ((n % 256) ∷ out)

unfoldable pub fill_bytes : ℕ → ℕ → Option Bytes
unfolding fill_from
fill_bytes width n = if ltb n (256 ^ width) then some (fill_from width n []) else none
