-- ===== src/Store/Keys.antt =====
-- The keys of the rows. The prefixes keep the kinds of rows apart.
pub mod Disjoint
pub mod Order
use agro_diamond_compliance.Prelude.{ℕ, [], ◌∷◌, ◌++◌}
use agro_diamond_compliance.Bytes.{Bytes, codes}
use agro_diamond_compliance.Bytes.Decimal.{format_uint}
use agro_diamond_compliance.Bytes.Padded.{format_padded}

abbrev pub prefix_token_meta : Bytes
prefix_token_meta = codes "t:meta:"

abbrev pub prefix_holder : Bytes
prefix_holder = codes "t:holder:"

abbrev pub prefix_event : Bytes
prefix_event = codes "e:"

abbrev pub prefix_cursor : Bytes
prefix_cursor = codes "cursor"

abbrev pub prefix_generic_event : Bytes
prefix_generic_event = codes "ge:"

abbrev pub prefix_asset_meta : Bytes
prefix_asset_meta = codes "a:meta:"

abbrev pub prefix_identity : Bytes
prefix_identity = codes "i:"

abbrev pub prefix_ident_country : Bytes
prefix_ident_country = codes "i:country:"

abbrev pub prefix_freeze : Bytes
prefix_freeze = codes "f:"

abbrev pub prefix_holder_addr : Bytes
prefix_holder_addr = codes "h:addr:"

abbrev pub prefix_ge_token : Bytes
prefix_ge_token = codes "ge:token:"

abbrev pub prefix_ge_addr : Bytes
prefix_ge_addr = codes "ge:addr:"

unfoldable pub token_meta_key : Bytes → Bytes
token_meta_key token_id = prefix_token_meta ++ token_id

unfoldable pub holder_prefix : Bytes → Bytes
holder_prefix token_id = prefix_holder ++ (token_id ++ b':' ∷ [])

unfoldable pub holder_key : Bytes → Bytes → Bytes
holder_key token_id address = prefix_holder ++ (token_id ++ b':' ∷ address)

unfoldable pub holder_addr_prefix : Bytes → Bytes
holder_addr_prefix address = prefix_holder_addr ++ (address ++ b':' ∷ [])

unfoldable pub holder_addr_key : Bytes → Bytes → Bytes
holder_addr_key address token_id = prefix_holder_addr ++ (address ++ b':' ∷ token_id)

-- `%012d:%06d`
unfoldable pub position : ℕ → ℕ → Bytes
position block log_index = format_padded 12 block ++ b':' ∷ format_padded 6 log_index

unfoldable pub event_key : ℕ → ℕ → Bytes
event_key block log_index = prefix_event ++ position block log_index

unfoldable pub generic_event_key : ℕ → ℕ → Bytes
generic_event_key block log_index = prefix_generic_event ++ position block log_index

unfoldable pub ge_token_key : Bytes → ℕ → ℕ → Bytes
ge_token_key token_id block log_index =
    prefix_ge_token ++ (token_id ++ b':' ∷ position block log_index)

unfoldable pub ge_addr_key : Bytes → ℕ → ℕ → Bytes
ge_addr_key address block log_index = prefix_ge_addr ++ (address ++ b':' ∷ position block log_index)

unfoldable pub asset_meta_key : Bytes → Bytes
asset_meta_key token_id = prefix_asset_meta ++ token_id

unfoldable pub identity_key : Bytes → Bytes
identity_key wallet = prefix_identity ++ wallet

unfoldable pub identity_country_prefix : ℕ → Bytes
identity_country_prefix country = prefix_ident_country ++ (format_uint country ++ b':' ∷ [])

unfoldable pub identity_country_key : ℕ → Bytes → Bytes
identity_country_key country wallet = prefix_ident_country ++ (format_uint country ++ b':' ∷ wallet)

abbrev freeze_suffix : Bytes → Bytes
freeze_suffix [] = codes "global"
freeze_suffix (c ∷ token_id) = c ∷ token_id

unfoldable pub freeze_key : Bytes → Bytes → Bytes
freeze_key wallet token_id = prefix_freeze ++ (wallet ++ b':' ∷ freeze_suffix token_id)

unfoldable pub freeze_wallet_prefix : Bytes → Bytes
freeze_wallet_prefix wallet = prefix_freeze ++ (wallet ++ b':' ∷ [])
