-- ===== src/Store/Records.antt =====
-- The structs of store.go, and their JSON forms.
pub mod RoundTrip
use agro_diamond_compliance.Prelude.{ℕ, Bool, Option, some, [], ◌∷◌}
use agro_diamond_compliance.Bytes.{Bytes, codes}
use agro_diamond_compliance.Json.{
  Object, num, boolean, quoted, str_or_omit, num_or_omit, member, as_str, as_uint, as_bool, ◌>>=◌,
}

pub record TokenMeta : Type 0 where
  pub token_id : Bytes
  pub total_supply : Bytes
  pub holder_count : ℕ

pub record TransferEvent : Type 0 where
  pub tx_hash : Bytes
  pub block : ℕ
  pub log_index : ℕ
  pub from : Bytes
  pub to : Bytes
  pub token_id : Bytes
  pub amount : Bytes
  pub event_type : Bytes

pub record Holder : Type 0 where
  pub address : Bytes
  pub balance : Bytes

pub record GenericEvent : Type 0 where
  pub tx_hash : Bytes
  pub block : ℕ
  pub log_index : ℕ
  pub event_type : Bytes
  pub token_id : Bytes
  pub address : Bytes
  pub data_json : Bytes

pub record AssetConfig : Type 0 where
  pub token_id : Bytes
  pub name : Bytes
  pub symbol : Bytes
  pub issuer : Bytes
  pub profile_id : ℕ
  pub uri : Bytes
  pub paused : Bool
  pub registered_at : ℕ

pub record Identity : Type 0 where
  pub wallet : Bytes
  pub identity : Bytes
  pub country : ℕ
  pub bound_at : ℕ

pub record FreezeState : Type 0 where
  pub wallet : Bytes
  pub token_id : Bytes
  pub frozen : Bool
  pub frozen_amount : Bytes
  pub lockup_expiry : ℕ

unfoldable pub marshal_token_meta : TokenMeta → Object
marshal_token_meta m =
    (codes "tokenId", quoted m.token_id)
    ∷ (codes "totalSupply", quoted m.total_supply)
    ∷ (codes "holderCount", num m.holder_count)
    ∷ []

unfoldable pub unmarshal_token_meta : Object → Option TokenMeta
unfolding member
unmarshal_token_meta o = do
  token_id ← as_str (member (codes "tokenId") o)
  total_supply ← as_str (member (codes "totalSupply") o)
  holder_count ← as_uint 64 (member (codes "holderCount") o)
  some (record { token_id = token_id; total_supply = total_supply; holder_count = holder_count })

unfoldable pub marshal_transfer_event : TransferEvent → Object
marshal_transfer_event e =
    (codes "txHash", quoted e.tx_hash)
    ∷ (codes "block", num e.block)
    ∷ (codes "logIndex", num e.log_index)
    ∷ (codes "from", quoted e.from)
    ∷ (codes "to", quoted e.to)
    ∷ (codes "tokenId", quoted e.token_id)
    ∷ (codes "amount", quoted e.amount)
    ∷ (codes "eventType", quoted e.event_type)
    ∷ []

unfoldable pub unmarshal_transfer_event : Object → Option TransferEvent
unfolding member
unmarshal_transfer_event o = do
  tx_hash ← as_str (member (codes "txHash") o)
  block ← as_uint 64 (member (codes "block") o)
  log_index ← as_uint 64 (member (codes "logIndex") o)
  from ← as_str (member (codes "from") o)
  to ← as_str (member (codes "to") o)
  token_id ← as_str (member (codes "tokenId") o)
  amount ← as_str (member (codes "amount") o)
  event_type ← as_str (member (codes "eventType") o)
  some (record {
    tx_hash = tx_hash;
    block = block;
    log_index = log_index;
    from = from;
    to = to;
    token_id = token_id;
    amount = amount;
    event_type = event_type;
  })

unfoldable pub marshal_generic_event : GenericEvent → Object
marshal_generic_event e =
    (codes "txHash", quoted e.tx_hash)
    ∷ (codes "block", num e.block)
    ∷ (codes "logIndex", num e.log_index)
    ∷ (codes "eventType", quoted e.event_type)
    ∷ str_or_omit (codes "tokenId") e.token_id
        (str_or_omit (codes "address") e.address ((codes "data", quoted e.data_json) ∷ []))

unfoldable pub unmarshal_generic_event : Object → Option GenericEvent
unfolding member
unmarshal_generic_event o = do
  tx_hash ← as_str (member (codes "txHash") o)
  block ← as_uint 64 (member (codes "block") o)
  log_index ← as_uint 64 (member (codes "logIndex") o)
  event_type ← as_str (member (codes "eventType") o)
  token_id ← as_str (member (codes "tokenId") o)
  address ← as_str (member (codes "address") o)
  data_json ← as_str (member (codes "data") o)
  some (record {
    tx_hash = tx_hash;
    block = block;
    log_index = log_index;
    event_type = event_type;
    token_id = token_id;
    address = address;
    data_json = data_json;
  })

unfoldable pub marshal_asset : AssetConfig → Object
marshal_asset a =
    (codes "tokenId", quoted a.token_id)
    ∷ (codes "name", quoted a.name)
    ∷ (codes "symbol", quoted a.symbol)
    ∷ (codes "issuer", quoted a.issuer)
    ∷ (codes "profileId", num a.profile_id)
    ∷ str_or_omit (codes "uri") a.uri
        ((codes "paused", boolean a.paused) ∷ (codes "registeredAt", num a.registered_at) ∷ [])

unfoldable pub unmarshal_asset : Object → Option AssetConfig
unfolding member
unmarshal_asset o = do
  token_id ← as_str (member (codes "tokenId") o)
  name ← as_str (member (codes "name") o)
  symbol ← as_str (member (codes "symbol") o)
  issuer ← as_str (member (codes "issuer") o)
  profile_id ← as_uint 32 (member (codes "profileId") o)
  uri ← as_str (member (codes "uri") o)
  paused ← as_bool (member (codes "paused") o)
  registered_at ← as_uint 64 (member (codes "registeredAt") o)
  some (record {
    token_id = token_id;
    name = name;
    symbol = symbol;
    issuer = issuer;
    profile_id = profile_id;
    uri = uri;
    paused = paused;
    registered_at = registered_at;
  })

unfoldable pub marshal_identity : Identity → Object
marshal_identity i =
    (codes "wallet", quoted i.wallet)
    ∷ (codes "identity", quoted i.identity)
    ∷ (codes "country", num i.country)
    ∷ (codes "boundAt", num i.bound_at)
    ∷ []

unfoldable pub unmarshal_identity : Object → Option Identity
unfolding member
unmarshal_identity o = do
  wallet ← as_str (member (codes "wallet") o)
  identity ← as_str (member (codes "identity") o)
  country ← as_uint 16 (member (codes "country") o)
  bound_at ← as_uint 64 (member (codes "boundAt") o)
  some (record { wallet = wallet; identity = identity; country = country; bound_at = bound_at })

unfoldable pub marshal_freeze : FreezeState → Object
marshal_freeze f =
    (codes "wallet", quoted f.wallet)
    ∷ str_or_omit (codes "tokenId") f.token_id (
        (codes "frozen", boolean f.frozen)
        ∷ str_or_omit (codes "frozenAmount") f.frozen_amount
            (num_or_omit (codes "lockupExpiry") f.lockup_expiry []))

unfoldable pub unmarshal_freeze : Object → Option FreezeState
unfolding member
unmarshal_freeze o = do
  wallet ← as_str (member (codes "wallet") o)
  token_id ← as_str (member (codes "tokenId") o)
  frozen ← as_bool (member (codes "frozen") o)
  frozen_amount ← as_str (member (codes "frozenAmount") o)
  lockup_expiry ← as_uint 64 (member (codes "lockupExpiry") o)
  some (record {
    wallet = wallet;
    token_id = token_id;
    frozen = frozen;
    frozen_amount = frozen_amount;
    lockup_expiry = lockup_expiry;
  })
