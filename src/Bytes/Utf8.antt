-- ===== src/Bytes/Utf8.antt =====
-- `encoding/json` writes U+FFFD in place of each byte that is not part of valid UTF-8.
use agro_diamond_compliance.Prelude.{
  ℕ, zero, suc, ◌-◌, ◌<◌, ◌≡◌, refl, Bool, ◌&&◌, [], ◌∷◌, ◌++◌, ltb, leb, eqb, arith, if◌then◌else◌,
}
use agro_diamond_compliance.Bytes.{Bytes, IsAscii, IsPlain}

abbrev within : ℕ → ℕ → ℕ → Bool
within lo hi c = leb lo c && leb c hi

abbrev second : ℕ → ℕ → ℕ → Bytes → ℕ
second n lo hi [] = 0
second n lo hi (b ∷ _) = if within lo hi b then n else 0

abbrev third : ℕ → ℕ → ℕ → Bytes → ℕ
third n lo hi (b ∷ c ∷ _) = if within lo hi b && within 0x80 0xbf c then n else 0
third n lo hi _ = 0

abbrev fourth : ℕ → ℕ → ℕ → Bytes → ℕ
fourth n lo hi (b ∷ c ∷ d ∷ _) =
    if within lo hi b && within 0x80 0xbf c && within 0x80 0xbf d then n else 0
fourth n lo hi _ = 0

-- The size of the rune that begins with byte `a`, as `utf8.DecodeRune` finds it; 0 if it is invalid.
unfoldable pub rune_size : ℕ → Bytes → ℕ
rune_size a rest =
    if ltb a 0x80
    then 1
    else if within 0xc2 0xdf a
    then second 2 0x80 0xbf rest
    else if eqb a 0xe0
    then third 3 0xa0 0xbf rest
    else if eqb a 0xed
    then third 3 0x80 0x9f rest
    else if within 0xe1 0xef a
    then third 3 0x80 0xbf rest
    else if eqb a 0xf0
    then fourth 4 0x90 0xbf rest
    else if within 0xf1 0xf3 a
    then fourth 4 0x80 0xbf rest
    else if eqb a 0xf4
    then fourth 4 0x80 0x8f rest
    else 0

-- The first argument counts the bytes of a valid rune that are still to be copied.
replace_invalid : ℕ → Bytes → Bytes
replace_invalid n [] = []
replace_invalid (suc n) (a ∷ rest) = a ∷ replace_invalid n rest
replace_invalid zero (a ∷ rest) =
    let n = rune_size a rest in
    (if eqb n 0 then 0xef ∷ 0xbf ∷ 0xbd ∷ [] else a ∷ []) ++ replace_invalid (n - 1) rest

unfoldable pub valid_utf8 : Bytes → Bytes
unfolding replace_invalid rune_size
valid_utf8 s = replace_invalid 0 s

valid_utf8_euro :
    valid_utf8 (0xe2 ∷ 0x82 ∷ 0xac ∷ 0x80 ∷ 0x41 ∷ [])
    ≡ 0xe2 ∷ 0x82 ∷ 0xac ∷ 0xef ∷ 0xbf ∷ 0xbd ∷ 0x41 ∷ []
unfolding valid_utf8
valid_utf8_euro = refl

rune_size-ascii : (a : ℕ) (rest : Bytes) → a < 128 → rune_size a rest ≡ 1
unfolding rune_size
rune_size-ascii a rest h = ground arith

replace_invalid-ascii : (s : Bytes) → IsAscii s → replace_invalid 0 s ≡ s
unfolding replace_invalid
replace_invalid-ascii [] h = refl
replace_invalid-ascii (a ∷ s) (ha, hs) =
    rw (rune_size-ascii a s ha) (ground (arith, replace_invalid-ascii s hs))

-- ASCII text is kept.
pub valid_utf8-ascii : (s : Bytes) → IsAscii s → valid_utf8 s ≡ s
unfolding valid_utf8
valid_utf8-ascii s h = replace_invalid-ascii s h

pub IsPlain-IsAscii : (s : Bytes) → IsPlain s → IsAscii s
IsPlain-IsAscii [] h = tt
IsPlain-IsAscii (a ∷ s) ((p, _), h) = (p, IsPlain-IsAscii s h)
