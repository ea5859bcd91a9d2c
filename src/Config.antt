-- ===== src/Config.antt =====
-- packages/indexer/internal/config/config.go. The environment is a function from names to texts,
-- where a variable that is not set is the empty text.
pub mod Texts
use agro_diamond_compliance.Prelude.{
  ℕ, zero, suc, length, ◌^◌, Bool, ◌||◌, ◌&&◌, Option, none, some, List, [], ◌∷◌, ◌++◌, reverse,
  leb, ltb, eqb, if◌then◌else◌, ◌≡◌, refl, map,
}
use agro_diamond_compliance.Bytes.{Bytes, codes, has_prefix}
use agro_diamond_compliance.Bytes.Decimal.{parse_nat}
use agro_diamond_compliance.Ethereum.{Ethereum}

pub record Config : Type 0 where
  pub rpc_url : Bytes
  pub rpc_ws_url : Bytes
  pub diamond_address : Bytes
  pub extra_addresses : List Bytes
  pub http_listen_addr : Bytes
  pub start_block : ℕ

-- The text, or a default for the empty one.
unfoldable pub or_default : Bytes → Bytes → Bytes
or_default [] default = default
or_default (c ∷ s) default = c ∷ s

-- `strconv.ParseUint(s, 10, 64)`, and 0 on an error.
unfoldable pub parse_start_block : Bytes → ℕ
unfolding parse_nat
parse_start_block s = elim (parse_nat s) [ none ↦ 0 | some n ↦ if ltb n (2 ^ 64) then n else 0 ]

abbrev is_space : ℕ → Bool
is_space c = eqb c b' ' || leb 9 c && leb c 13

-- The other runes of `unicode.IsSpace`, as UTF-8: U+0085, U+00A0, U+1680, U+2000 to U+200A, U+2028,
-- U+2029, U+202F, U+205F and U+3000.
abbrev wide_spaces : List Bytes
wide_spaces =
    (194 ∷ 133 ∷ [])
    ∷ (194 ∷ 160 ∷ [])
    ∷ (225 ∷ 154 ∷ 128 ∷ [])
    ∷ (226 ∷ 128 ∷ 128 ∷ [])
    ∷ (226 ∷ 128 ∷ 129 ∷ [])
    ∷ (226 ∷ 128 ∷ 130 ∷ [])
    ∷ (226 ∷ 128 ∷ 131 ∷ [])
    ∷ (226 ∷ 128 ∷ 132 ∷ [])
    ∷ (226 ∷ 128 ∷ 133 ∷ [])
    ∷ (226 ∷ 128 ∷ 134 ∷ [])
    ∷ (226 ∷ 128 ∷ 135 ∷ [])
    ∷ (226 ∷ 128 ∷ 136 ∷ [])
    ∷ (226 ∷ 128 ∷ 137 ∷ [])
    ∷ (226 ∷ 128 ∷ 138 ∷ [])
    ∷ (226 ∷ 128 ∷ 168 ∷ [])
    ∷ (226 ∷ 128 ∷ 169 ∷ [])
    ∷ (226 ∷ 128 ∷ 175 ∷ [])
    ∷ (226 ∷ 129 ∷ 159 ∷ [])
    ∷ (227 ∷ 128 ∷ 128 ∷ [])
    ∷ []

-- The number of bytes by which one of the texts begins the bytes, or 0.
width_among : List Bytes → Bytes → ℕ
unfolding has_prefix
width_among [] s = 0
width_among (p ∷ ps) s = if has_prefix p s then length p else width_among ps s

-- The number of bytes of the space in front, or 0. ASCII bytes are runes of their own.
space_width : List Bytes → Bytes → ℕ
unfolding width_among
space_width wide [] = 0
space_width wide (c ∷ s) =
    if is_space c then 1 else if ltb c 128 then 0 else width_among wide (c ∷ s)

-- Behind the bytes of a space that is being dropped, the spaces in front are dropped.
trim_left : List Bytes → ℕ → Bytes → Bytes
unfolding space_width
trim_left wide n [] = []
trim_left wide (suc n) (c ∷ s) = trim_left wide n s
trim_left wide zero (c ∷ s) = elim (space_width wide (c ∷ s)) [
  | zero ↦ c ∷ s
  | suc n ↦ trim_left wide n s
]

-- `strings.TrimSpace`: from the end, the bytes of a rune come in reverse.
unfoldable pub trim_space : Bytes → Bytes
unfolding trim_left
trim_space s = reverse (trim_left (map reverse wide_spaces) 0 (reverse (trim_left wide_spaces 0 s)))

-- The pieces of `strings.Split(s, ",")`, behind the part of the first one that is already read.
split_from : Bytes → Bytes → List Bytes
split_from part [] = part ∷ []
split_from part (c ∷ s) =
    let next = split_from [] s in
    let same = split_from (part ++ c ∷ []) s in if eqb c b',' then part ∷ next else same

unfoldable pub split_comma : Bytes → List Bytes
unfolding split_from
split_comma s = split_from [] s

abbrev nonempty : List Bytes → List Bytes
nonempty [] = []
nonempty ([] ∷ rest) = nonempty rest
nonempty ((c ∷ s) ∷ rest) = (c ∷ s) ∷ nonempty rest

-- The addresses of `EXTRA_ADDRESSES`, without empty pieces. An empty text has none.
unfoldable pub extra_texts : Bytes → List Bytes
unfolding split_comma trim_space
extra_texts s = nonempty (map trim_space (split_comma s))

module _ (eth : Ethereum) where
  -- `none` is the error of a missing `DIAMOND_ADDRESS`.
  unfoldable pub load : (Bytes → Bytes) → Option Config
  unfolding or_default parse_start_block extra_texts
  load env = elim (env (codes "DIAMOND_ADDRESS")) [
    | [] ↦ none
    | c ∷ addr ↦ some (record {
      rpc_url = or_default (env (codes "RPC_URL")) (codes "http://localhost:8545");
      rpc_ws_url = or_default (env (codes "RPC_WS_URL")) (codes "ws://localhost:8545");
      diamond_address = eth.hex_to_address (c ∷ addr);
      extra_addresses =
          map (λ a. eth.hex_to_address a) (extra_texts (env (codes "EXTRA_ADDRESSES")));
      http_listen_addr = or_default (env (codes "HTTP_LISTEN")) (codes ":8080");
      start_block = parse_start_block (env (codes "START_BLOCK"));
    })
  ]

-- Diamond and extra addresses, for the log queries.
unfoldable pub all_addresses : Config → List Bytes
all_addresses c = c.diamond_address ∷ c.extra_addresses

-- A space of two bytes on each side.
trim_space_example : trim_space (194 ∷ 160 ∷ 32 ∷ 65 ∷ 32 ∷ 194 ∷ 160 ∷ []) ≡ 65 ∷ []
unfolding trim_space
trim_space_example = refl

extra_texts_example : extra_texts (codes " 0xA, ,0xB") ≡ codes "0xA" ∷ codes "0xB" ∷ []
unfolding extra_texts
extra_texts_example = refl
