-- ===== src/Config/Texts.antt =====
-- The lists of addresses and the block numbers in the environment.
use mathlib.Core.List.{reverse-reverse}
use agro_diamond_compliance.Prelude.{
  ℕ, zero, suc, ◌^◌, ◌<◌, ◌≡◌, ◌≢◌, refl, false, none, some, List, [], ◌∷◌, ◌++◌, reverse,
  append_assoc, append-nil, map, eqb, ltb, if◌then◌else◌, All, All-reverse, arith, lt→ltb, ◌∙◌, ap,
}
use agro_diamond_compliance.Bytes.{Bytes, codes}
use agro_diamond_compliance.Bytes.Decimal.{format_uint, parse_nat-format_uint}
use agro_diamond_compliance.Ethereum.{Ethereum}
use agro_diamond_compliance.Config.{
  Config, load, all_addresses, extra_texts, trim_space, trim_left, split_from, split_comma,
  nonempty, parse_start_block, is_space, space_width, wide_spaces,
}

-- An ASCII byte that neither separates nor is a space.
abbrev pub IsInk : ℕ → Type 0
IsInk c = (c < 128) × (eqb c b',' ≡ false) × (is_space c ≡ false)

-- A text of such bytes, and at least one.
abbrev pub IsWord : Bytes → Type 0
IsWord s = (s ≢ []) × All IsInk s

-- The texts with commas between them.
unfoldable pub join : List Bytes → Bytes
join [] = []
join (s ∷ []) = s
join (s ∷ t ∷ rest) = s ++ b',' ∷ join (t ∷ rest)

space_width-ink : (wide : List Bytes) (c : ℕ) (s : Bytes) → IsInk c → space_width wide (c ∷ s) ≡ 0
unfolding space_width
space_width-ink wide c s (small, hc, hs) = rw (hs, lt→ltb c 128 small) refl

trim_left-ink : (wide : List Bytes) (s : Bytes) → All IsInk s → trim_left wide 0 s ≡ s
unfolding trim_left
trim_left-ink wide [] h = refl
trim_left-ink wide (c ∷ s) (ink, h) =
    ap (λ w. elim w [ zero ↦ c ∷ s | suc n ↦ trim_left wide n s ]) (space_width-ink wide c s ink)

trim_space-ink : (s : Bytes) → All IsInk s → trim_space s ≡ s
unfolding trim_space
trim_space-ink s h = rw (trim_left-ink wide_spaces s h) (
    rw (trim_left-ink (map reverse wide_spaces) (reverse s) (All-reverse IsInk s h))
      (reverse-reverse s))

append-push : (part s : Bytes) (c : ℕ) → (part ++ c ∷ []) ++ s ≡ part ++ c ∷ s
append-push part s c = append_assoc part (c ∷ []) s

split_from-last : (part s : Bytes) → All IsInk s → split_from part s ≡ (part ++ s) ∷ []
unfolding split_from
split_from-last part [] h = rw (append-nil part) refl
split_from-last part (c ∷ s) ((small, hc, hs), h) =
    rw hc (split_from-last (part ++ c ∷ []) s h ∙ ap (λ p. p ∷ []) (append-push part s c))

split_from-comma :
    (part s rest : Bytes)
    → All IsInk s
    → split_from part (s ++ b',' ∷ rest) ≡ (part ++ s) ∷ split_from [] rest
unfolding split_from
split_from-comma part [] rest h = rw (append-nil part) refl
split_from-comma part (c ∷ s) rest ((small, hc, hs), h) = rw hc (
    split_from-comma (part ++ c ∷ []) s rest h
    ∙ ap (λ p. p ∷ split_from [] rest) (append-push part s c))

nonempty-cons : (s : Bytes) (rest : List Bytes) → s ≢ [] → nonempty (s ∷ rest) ≡ s ∷ nonempty rest
nonempty-cons [] rest h = absurd (h refl)
nonempty-cons (c ∷ s) rest h = refl

kept :
    (s : Bytes) (pieces : List Bytes)
    → IsWord s
    → nonempty (trim_space s ∷ pieces) ≡ s ∷ nonempty pieces
kept s pieces (ne, h) = rw (trim_space-ink s h) (nonempty-cons s pieces ne)

pub extra_texts-join : (texts : List Bytes) → All IsWord texts → extra_texts (join texts) ≡ texts
unfolding join extra_texts split_comma
extra_texts-join [] h = unfold split_from trim_space trim_left in refl
extra_texts-join (s ∷ []) (w, h) = rw (split_from-last [] s w.1) (kept s [] w)
extra_texts-join (s ∷ t ∷ rest) (w, h) = rw (split_from-comma [] s (join (t ∷ rest)) w.1) (
    kept s (map trim_space (split_from [] (join (t ∷ rest)))) w
    ∙ ap (λ l. s ∷ l) (extra_texts-join (t ∷ rest) h))

parse_start_block-format_uint : (n : ℕ) → n < 2 ^ 64 → parse_start_block (format_uint n) ≡ n
unfolding parse_start_block
parse_start_block-format_uint n h =
    ap (λ o. elim o [ none ↦ 0 | some m ↦ if ltb m (2 ^ 64) then m else 0 ])
      (parse_nat-format_uint n)
    ∙ ground arith

cons-of : (s : Bytes) → s ≢ [] → (c : ℕ) × (r : Bytes) × (s ≡ c ∷ r)
cons-of [] h = absurd (h refl)
cons-of (c ∷ r) h = (c, r, refl)

-- With an address of the Diamond, with a list of texts of ASCII without commas and white space, none of
-- them empty, joined by commas as the extra addresses, and with the decimal text of a `uint64` as the
-- start block, `Load` returns a configuration with that start block, whose addresses are those of
-- the Diamond and of the texts, in order.
pub load-joined :
    (eth : Ethereum) (env : Bytes → Bytes) (texts : List Bytes) (n : ℕ)
    → env (codes "DIAMOND_ADDRESS") ≢ []
    → env (codes "EXTRA_ADDRESSES") ≡ join texts
    → All IsWord texts
    → env (codes "START_BLOCK") ≡ format_uint n
    → n < 2 ^ 64
    → (c : Config) × (load eth env ≡ some c)
      × (all_addresses c ≡ map (λ a. eth.hex_to_address a) (env (codes "DIAMOND_ADDRESS") ∷ texts))
      × (c.start_block ≡ n)
unfolding load all_addresses
load-joined eth env texts n given extra words start h =
    let (c, r, e) = cons-of _ given in
    rw (load, e)
      (
        _,
        refl,
        ap (λ l. eth.hex_to_address (c ∷ r) ∷ map (λ a. eth.hex_to_address a) l)
            (ap extra_texts extra ∙ extra_texts-join texts words),
        ap parse_start_block start ∙ parse_start_block-format_uint n h,
      )
