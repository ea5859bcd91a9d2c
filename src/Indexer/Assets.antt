-- ===== src/Indexer/Assets.antt =====
-- The handlers of asset registration and of URIs, and the enrichment with on-chain names.
use agro_diamond_compliance.Prelude.{
  ℕ, ◌+◌, Bool, true, false, ◌&&◌, Option, none, some, List, [], ◌∷◌, ◌++◌, take, if◌then◌else◌,
}
use agro_diamond_compliance.Prelude.Int.{ℤ, pos_part, neg_part}
use agro_diamond_compliance.Bytes.{Bytes, codes}
use agro_diamond_compliance.Bytes.Decimal.{set_string}
use agro_diamond_compliance.Json.{str, num}
use agro_diamond_compliance.Action.{Action, Error, message, wrapped, ok, err, panic, logged, ◌>>◌}
use agro_diamond_compliance.Ethereum.{Ethereum}
use agro_diamond_compliance.Node.{Log, Node, reply, failed}
use agro_diamond_compliance.RocksDb.{RocksDb}
use agro_diamond_compliance.Store.Records.{AssetConfig}
use agro_diamond_compliance.Store.Assets.{
  blank_asset, record_asset, get_all_assets, update_asset_uri,
}
use agro_diamond_compliance.Indexer.Abi.{
  set_bytes, uint, decimal, has_bytes, word0, fill_bytes, Decoded, decode_string,
}
use agro_diamond_compliance.Indexer.Recording.{or_return, record_generic_event}

-- The result of a call to the contract; `crash` is a panic on the way.
pub data Fetched (A : Type 0) : Type 0 where
  fetched : A → Fetched A
  refused : Error → Fetched A
  crash : Fetched A

abbrev of_decoded : Decoded → Fetched Bytes
of_decoded (Decoded.text s) = fetched s
of_decoded Decoded.too_short = refused (message (codes "result too short"))
of_decoded Decoded.offset_out = refused (message (codes "offset out of bounds"))
of_decoded Decoded.data_out = refused (message (codes "string data out of bounds"))
of_decoded Decoded.panics = crash

abbrev wrap : {A : Type 0} → Bytes → Fetched A → Fetched A
wrap label (fetched a) = fetched a
wrap label (refused e) = refused (wrapped label e)
wrap label crash = crash

abbrev both : Fetched Bytes → Fetched Bytes → Fetched (Bytes × Bytes)
both (fetched a) (fetched b) = fetched (a, b)
both (fetched a) (refused e) = refused e
both (fetched a) crash = crash
both (refused e) second = refused e
both crash second = crash

module _ (eth : Ethereum) (diamond : Bytes) where
  -- The selector and the token id in 36 bytes.
  call_data : Bytes → ℕ → Option Bytes
  unfolding fill_bytes
  call_data sig token_id = elim (fill_bytes 32 token_id) [
    | none ↦ none
    | some word ↦ some (take 4 (eth.keccak256_hash sig) ++ word)
  ]

  unfoldable pub call_string_view : Node → Bytes → ℕ → Fetched Bytes
  unfolding call_data decode_string
  call_string_view node sig token_id = elim (call_data sig token_id) [
    | none ↦ crash
    | some input ↦ elim (node.call_contract diamond input) [
      | failed e ↦ refused e
      | reply result ↦ of_decoded (decode_string result)
    ]
  ]

  -- `symbol` is only asked for where `name` was answered.
  unfoldable pub fetch_asset_name_symbol : Option Node → ℕ → Fetched (Bytes × Bytes)
  unfolding call_string_view
  fetch_asset_name_symbol none token_id = refused (message (codes "no HTTP client"))
  fetch_asset_name_symbol (some node) token_id =
      both (wrap (codes "name") (call_string_view node (codes "name(uint256)") token_id))
        (wrap (codes "symbol") (call_string_view node (codes "symbol(uint256)") token_id))

-- The `uri` of a log: an undecodable string is the empty one.
abbrev text_or_empty : Decoded → Option Bytes
text_or_empty (Decoded.text s) = some s
text_or_empty Decoded.too_short = some []
text_or_empty Decoded.offset_out = some []
text_or_empty Decoded.data_out = some []
text_or_empty Decoded.panics = none

unfoldable pub string_of_log : Bytes → Option Bytes
unfolding decode_string
string_of_log s = text_or_empty (decode_string s)

abbrev is_set : Bytes → Bool
is_set [] = false
is_set (_ ∷ _) = true

module _ (db : RocksDb) (eth : Ethereum) where
  open db use {State}
  open eth use {hex, bytes_to_address}

  profile_of : Bytes → ℕ
  unfolding set_bytes
  profile_of s = if has_bytes 32 s then uint 32 (set_bytes (word0 s)) else 0

  abbrev registered : Bytes → Bytes → Log → Bytes → Bytes → AssetConfig
  registered id issuer log name symbol = record (blank_asset (decimal id)) {
    issuer = hex (bytes_to_address issuer);
    profile_id = profile_of log.bytes;
    registered_at = log.block_number;
    name = name;
    symbol = symbol;
  }

  unfoldable pub record_registered : Log → AssetConfig → Action State (Unit {0})
  record_registered log a = or_return (record_asset db a) (
      record_generic_event db eth log (codes "asset_registered") a.token_id a.issuer (
        some (
          (codes "profileId", num a.profile_id)
          ∷ (codes "name", str a.name)
          ∷ (codes "symbol", str a.symbol)
          ∷ [])))

  -- The asset with the fetched texts; an error of the calls leaves them empty.
  unfoldable pub register : Log → Bytes → Bytes → Fetched (Bytes × Bytes) → Action State (Unit {0})
  unfolding record_registered profile_of
  register log id issuer (fetched (name, symbol)) =
      record_registered log (registered id issuer log name symbol)
  register log id issuer (refused _) = record_registered log (registered id issuer log [] [])
  register log id issuer crash = panic

  unfoldable pub handle_asset_registered :
      Bytes → Option Node → List Bytes → Log → Action State (Unit {0})
  unfolding register
  handle_asset_registered diamond client (_ ∷ id ∷ issuer ∷ _) log =
      register log id issuer (fetch_asset_name_symbol eth diamond client (set_bytes id))
  handle_asset_registered diamond client _ log = ok tt

  -- `none` is the panic of the decoding.
  unfoldable pub set_uri : Log → Bytes → Option Bytes → Action State (Unit {0})
  set_uri log id none = panic
  set_uri log id (some uri) =
      logged (update_asset_uri db (decimal id) uri)
      >> record_generic_event db eth log (codes "uri_updated") (decimal id) []
          (some ((codes "uri", str uri) ∷ []))

  unfoldable pub handle_uri : List Bytes → Log → Action State (Unit {0})
  unfolding set_uri string_of_log
  handle_uri (_ ∷ id ∷ _) log = set_uri log id (string_of_log log.bytes)
  handle_uri _ log = ok tt

  -- The token id of a stored asset; `other` is the unspecified value that a failed `SetString`
  -- leaves.
  abbrev id_of : (Bytes → ℤ) → Bytes → ℕ
  id_of other s = elim (set_string s) [
    | none ↦ pos_part (other s) + neg_part (other s)
    | some z ↦ pos_part z + neg_part z
  ]

  -- The asset with the fetched texts is stored; an error is logged.
  enrich_one : Bytes → Option Node → (Bytes → ℤ) → AssetConfig → Action State (Unit {0})
  enrich_one diamond client other a =
      elim (fetch_asset_name_symbol eth diamond client (id_of other a.token_id)) [
        | fetched (name, symbol) ↦
            logged (record_asset db (record a { name = name; symbol = symbol }))
        | refused _ ↦ ok tt
        | crash ↦ panic
      ]

  abbrev is_named : AssetConfig → Bool
  is_named a = is_set a.name && is_set a.symbol

  enrich_each : Bytes → Option Node → (Bytes → ℤ) → List AssetConfig → Action State (Unit {0})
  unfolding enrich_one
  enrich_each diamond client other [] = ok tt
  enrich_each diamond client other (a ∷ assets) =
      (if is_named a then ok tt else enrich_one diamond client other a)
      >> enrich_each diamond client other assets

  unfoldable pub enrich_assets : Bytes → Option Node → (Bytes → ℤ) → Action State (Unit {0})
  unfolding enrich_each
  enrich_assets diamond client other s = elim (get_all_assets db s) [
    | ok assets s' ↦ enrich_each diamond client other assets s'
    | err _ s' ↦ ok tt s'
    | panic s' ↦ panic s'
  ]
