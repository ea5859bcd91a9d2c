-- ===== src/Store/Records/RoundTrip.antt =====
-- What `Marshal` writes, `Unmarshal` reads back, for structs whose strings are valid UTF-8 and
-- whose numbers fit their types.
use agro_diamond_compliance.Prelude.{◌^◌, ◌<◌, ◌≡◌, some, arith, lt→ltb}
use agro_diamond_compliance.Bytes.{Bytes}
use agro_diamond_compliance.Bytes.Utf8.{valid_utf8}
use agro_diamond_compliance.Store.Records.{
  TokenMeta, GenericEvent, AssetConfig, Identity, FreezeState, marshal_token_meta,
  unmarshal_token_meta, marshal_generic_event, unmarshal_generic_event, marshal_asset,
  unmarshal_asset, marshal_identity, unmarshal_identity, marshal_freeze, unmarshal_freeze,
}

-- Text that JSON carries unchanged.
abbrev pub IsValid : Bytes → Type 0
IsValid s = valid_utf8 s ≡ s

-- Token metadata with a valid token id and supply text and a `uint64` holder count is read back
-- as it was written.
pub unmarshal-marshal_token_meta :
    (m : TokenMeta)
    → IsValid m.token_id
    → IsValid m.total_supply
    → m.holder_count < 2 ^ 64
    → unmarshal_token_meta (marshal_token_meta m) ≡ some m
unfolding unmarshal_token_meta marshal_token_meta
unmarshal-marshal_token_meta m u v h = rw (u, v, lt→ltb _ _ h)

-- An identity with valid texts, a `uint16` country and a `uint64` block is read back
-- as it was written.
pub unmarshal-marshal_identity :
    (i : Identity)
    → IsValid i.wallet
    → IsValid i.identity
    → i.country < 2 ^ 16
    → i.bound_at < 2 ^ 64
    → unmarshal_identity (marshal_identity i) ≡ some i
unfolding unmarshal_identity marshal_identity
unmarshal-marshal_identity i u v h k = rw (u, v, lt→ltb _ _ h, lt→ltb _ _ k)

-- A freeze state with valid texts and a `uint64` expiry is read back as it was written, an omitted
-- empty string included.
pub unmarshal-marshal_freeze :
    (f : FreezeState)
    → IsValid f.wallet
    → IsValid f.token_id
    → IsValid f.frozen_amount
    → f.lockup_expiry < 2 ^ 64
    → unmarshal_freeze (marshal_freeze f) ≡ some f
unfolding unmarshal_freeze marshal_freeze
unmarshal-marshal_freeze f a b c d = ground arith

-- An asset configuration with valid texts, a `uint32` profile and a `uint64` block is read back
-- as it was written.
pub unmarshal-marshal_asset :
    (a : AssetConfig)
    → IsValid a.token_id
    → IsValid a.name
    → IsValid a.symbol
    → IsValid a.issuer
    → a.profile_id < 2 ^ 32
    → IsValid a.uri
    → a.registered_at < 2 ^ 64
    → unmarshal_asset (marshal_asset a) ≡ some a
unfolding unmarshal_asset marshal_asset
unmarshal-marshal_asset a b c d e f g h = ground arith

-- A generic event with valid texts and `uint64` numbers is read back
-- as it was written.
pub unmarshal-marshal_generic_event :
    (e : GenericEvent)
    → IsValid e.tx_hash
    → e.block < 2 ^ 64
    → e.log_index < 2 ^ 64
    → IsValid e.event_type
    → IsValid e.token_id
    → IsValid e.address
    → IsValid e.data_json
    → unmarshal_generic_event (marshal_generic_event e) ≡ some e
unfolding unmarshal_generic_event marshal_generic_event
unmarshal-marshal_generic_event e a b c d f g h = ground arith
