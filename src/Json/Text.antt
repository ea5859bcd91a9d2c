-- ===== src/Json/Text.antt =====
-- The text that `json.Marshal` writes, with its default escaping of HTML.
use agro_diamond_compliance.Prelude.{
  ℕ, zero, suc, ◌-◌, ◌/◌, ◌%◌, ◌≡◌, refl, Bool, true, false, ◌||◌, ◌&&◌, [], ◌∷◌, ◌++◌, ltb, eqb,
  if◌then◌else◌, ◌+◌,
}
use agro_diamond_compliance.Bytes.{Bytes, codes, less}
use agro_diamond_compliance.Bytes.Utf8.{rune_size}
use agro_diamond_compliance.Bytes.Decimal.{format_uint}
use agro_diamond_compliance.Json.{Scalar, str, num, boolean, Object}

abbrev hex_digit : ℕ → ℕ
hex_digit n = if ltb n 10 then b'0' + n else b'a' + (n - 10)

escape_ascii : ℕ → Bytes
escape_ascii c =
    if eqb c b'"' || eqb c 0x5c
    then 0x5c ∷ c ∷ []
    else if eqb c 8
    then codes "\\b"
    else if eqb c 12
    then codes "\\f"
    else if eqb c 10
    then codes "\\n"
    else if eqb c 13
    then codes "\\r"
    else if eqb c 9
    then codes "\\t"
    else if ltb c 32 || eqb c b'<' || eqb c b'>' || eqb c b'&'
    then codes "\\u00" ++ hex_digit (c / 16) ∷ hex_digit (c % 16) ∷ []
    else c ∷ []

-- U+2028 and U+2029 are escaped too.
is_line_separator : ℕ → Bytes → Bool
is_line_separator a (b ∷ c ∷ _) = eqb a 0xe2 && eqb b 0x80 && (eqb c 0xa8 || eqb c 0xa9)
is_line_separator a _ = false

abbrev last_hex : Bytes → ℕ
last_hex (_ ∷ c ∷ _) = b'8' + (c - 0xa8)
last_hex _ = b'8'

-- The bytes still to be dropped, and those still to be copied.
escape : ℕ → ℕ → Bytes → Bytes
escape d n [] = []
escape (suc d) n (a ∷ rest) = escape d n rest
escape zero (suc n) (a ∷ rest) = a ∷ escape zero n rest
escape zero zero (a ∷ rest) =
    let n = rune_size a rest in
    let separator = is_line_separator a rest in
    (if separator
      then codes "\\u202" ++ last_hex rest ∷ []
      else if eqb n 0
      then codes "\\ufffd"
      else if eqb n 1
      then escape_ascii a
      else a ∷ [])
    ++ escape (if separator then 2 else 0) (if separator then 0 else n - 1) rest

print_str : Bytes → Bytes
unfolding escape escape_ascii is_line_separator rune_size
print_str s = b'"' ∷ escape 0 0 s ++ b'"' ∷ []

print_scalar : Scalar → Bytes
unfolding print_str format_uint
print_scalar (str s) = print_str s
print_scalar (num n) = format_uint n
print_scalar (boolean true) = codes "true"
print_scalar (boolean false) = codes "false"

print_members : Object → Bytes
unfolding print_scalar
print_members [] = []
print_members ((k, x) ∷ []) = print_str k ++ b':' ∷ print_scalar x
print_members ((k, x) ∷ m ∷ o) =
    print_str k ++ b':' ∷ print_scalar x ++ b',' ∷ print_members (m ∷ o)

-- The text of an object, its members in order.
unfoldable pub text : Object → Bytes
unfolding print_members
text o = b'{' ∷ print_members o ++ b'}' ∷ []

insert_member : Bytes → Scalar → Object → Object
insert_member k x [] = (k, x) ∷ []
insert_member k x ((j, y) ∷ o) =
    if less k j then (k, x) ∷ (j, y) ∷ o else (j, y) ∷ insert_member k x o

sort_members : Object → Object
sort_members [] = []
sort_members ((k, x) ∷ o) = insert_member k x (sort_members o)

-- `json.Marshal` of a map with distinct keys: the keys are sorted.
unfoldable pub marshal_map : Object → Bytes
unfolding text insert_member sort_members less
marshal_map o = text (sort_members o)

marshal_map_example :
    marshal_map (
      (codes "profileId", num 7)
      ∷ (codes "name", str (codes "a\"<"))
      ∷ (codes "on", boolean true)
      ∷ [])
    ≡ codes "{\"name\":\"a\\\"\\u003c\",\"on\":true,\"profileId\":7}"
unfolding marshal_map
marshal_map_example = refl
