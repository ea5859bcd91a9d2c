-- ===== src/Store/Quiet.antt =====
-- The operations on events, assets, identities, freezes and the cursor, seen from the ledgers.
use agro_diamond_compliance.Prelude.{
  ℕ, Bool, Option, none, some, [], ◌∷◌, arith, Option-cases, inl, inr,
}
use agro_diamond_compliance.Bytes.{Bytes}
use agro_diamond_compliance.Json.{Object}
use agro_diamond_compliance.Action.{pure, logged}
use agro_diamond_compliance.RocksDb.{RocksDb, IsReliable}
use agro_diamond_compliance.RocksDb.Entries.{Value, raw, object}
use agro_diamond_compliance.Store.Keys.{
  prefix_cursor, generic_event_key, ge_token_key, ge_addr_key, asset_meta_key, identity_key,
  identity_country_key, freeze_key,
}
use agro_diamond_compliance.Store.Records.{
  GenericEvent, AssetConfig, Identity, FreezeState, marshal_generic_event, marshal_identity,
  unmarshal_asset, unmarshal_identity, unmarshal_freeze,
}
use agro_diamond_compliance.Store.Values.{decoded, decode, decode_or, decode_pointer}
use agro_diamond_compliance.Store.Events.{
  put_generic_event, put_index, index_of_token, index_of_address,
}
use agro_diamond_compliance.Store.Assets.{
  record_asset, get_asset, update_asset_paused, update_asset_uri,
}
use agro_diamond_compliance.Store.Identities.{
  record_identity, get_identity, delete_country_row, delete_identity,
}
use agro_diamond_compliance.Store.Freezes.{
  record_freeze, get_freeze, update_freeze_amount, update_lockup_expiry,
}
use agro_diamond_compliance.Store.Cursor.{set_cursor}
use agro_diamond_compliance.Store.Ledger.Quiet.{
  IsQuiet, IsOutside, Unmoved-refl, first-IsOutside, silent-IsQuiet, pure-IsSilent, logged-IsSilent,
  bind-IsQuiet, get-IsQuiet, put-IsQuiet, delete-IsQuiet,
}

generic_event_key-IsOutside : (b i : ℕ) → IsOutside (generic_event_key b i)
unfolding generic_event_key
generic_event_key-IsOutside b i = first-IsOutside b'g' _ (omega arith) (omega arith)

ge_token_key-IsOutside : (t : Bytes) (b i : ℕ) → IsOutside (ge_token_key t b i)
unfolding ge_token_key
ge_token_key-IsOutside t b i = first-IsOutside b'g' _ (omega arith) (omega arith)

ge_addr_key-IsOutside : (a : Bytes) (b i : ℕ) → IsOutside (ge_addr_key a b i)
unfolding ge_addr_key
ge_addr_key-IsOutside a b i = first-IsOutside b'g' _ (omega arith) (omega arith)

asset_meta_key-IsOutside : (t : Bytes) → IsOutside (asset_meta_key t)
unfolding asset_meta_key
asset_meta_key-IsOutside t = first-IsOutside b'a' _ (omega arith) (omega arith)

identity_key-IsOutside : (w : Bytes) → IsOutside (identity_key w)
unfolding identity_key
identity_key-IsOutside w = first-IsOutside b'i' _ (omega arith) (omega arith)

identity_country_key-IsOutside : (c : ℕ) (w : Bytes) → IsOutside (identity_country_key c w)
unfolding identity_country_key
identity_country_key-IsOutside c w = first-IsOutside b'i' _ (omega arith) (omega arith)

freeze_key-IsOutside : (w t : Bytes) → IsOutside (freeze_key w t)
unfolding freeze_key
freeze_key-IsOutside w t = first-IsOutside b'f' _ (omega arith) (omega arith)

module _ (db : RocksDb) (L : IsReliable db) where
  open db use {State, get, put, delete}

  -- Reading what is stored, or raising an error.
  decode-IsQuiet :
      {A : Type 0} (read : Object → Option A) (v : Value) → IsQuiet db L (decode read v)
  unfolding decode
  decode-IsQuiet read v s = elim (Option-cases (decoded read v)) [
    | inl e ↦ rw (decode, e) (Unmoved-refl db L s)
    | inr (a, e) ↦ rw (decode, e) (Unmoved-refl db L s)
  ]

  decode_pointer-IsQuiet :
      {A : Type 0} (read : Object → Option A) (found : Option Value)
      → IsQuiet db L (decode_pointer read found)
  unfolding decode_pointer decode_or
  decode_pointer-IsQuiet read none s = Unmoved-refl db L s
  decode_pointer-IsQuiet read (some v) s = decode-IsQuiet _ v s

  -- Events of the protocol.
  put_index-IsQuiet :
      (key : Bytes → Bytes) (s primary : Bytes)
      → ((c : ℕ) (rest : Bytes) → IsOutside (key (c ∷ rest)))
      → IsQuiet db L (put_index db key s primary)
  unfolding put_index
  put_index-IsQuiet key [] primary f = silent-IsQuiet db L (pure tt) (pure-IsSilent db L tt)
  put_index-IsQuiet key (c ∷ rest) primary f = put-IsQuiet db L _ _ (f c rest)

  index_of_token-IsQuiet : (e : GenericEvent) → IsQuiet db L (index_of_token db e)
  unfolding index_of_token
  index_of_token-IsQuiet e =
      put_index-IsQuiet (λ t. ge_token_key t e.block e.log_index) e.token_id
        (generic_event_key e.block e.log_index)
        λ c t. ge_token_key-IsOutside (c ∷ t) e.block e.log_index

  index_of_address-IsQuiet : (e : GenericEvent) → IsQuiet db L (index_of_address db e)
  unfolding index_of_address
  index_of_address-IsQuiet e =
      put_index-IsQuiet (λ a. ge_addr_key a e.block e.log_index) e.address
        (generic_event_key e.block e.log_index)
        λ c a. ge_addr_key-IsOutside (c ∷ a) e.block e.log_index

  pub put_generic_event-IsQuiet : (e : GenericEvent) → IsQuiet db L (put_generic_event db e)
  unfolding put_generic_event
  put_generic_event-IsQuiet e =
      bind-IsQuiet db L (put (generic_event_key e.block e.log_index) _) _
        (put-IsQuiet db L _ (object (marshal_generic_event e))
          (generic_event_key-IsOutside e.block e.log_index))
        λ _.
          bind-IsQuiet db L (index_of_token db e) (λ _. index_of_address db e)
            (index_of_token-IsQuiet e) λ _. index_of_address-IsQuiet e

  -- Assets.
  pub record_asset-IsQuiet : (a : AssetConfig) → IsQuiet db L (record_asset db a)
  unfolding record_asset
  record_asset-IsQuiet a = put-IsQuiet db L _ _ (asset_meta_key-IsOutside a.token_id)

  get_asset-IsQuiet : (t : Bytes) → IsQuiet db L (get_asset db t)
  unfolding get_asset
  get_asset-IsQuiet t =
      bind-IsQuiet db L (get (asset_meta_key t)) (decode_pointer unmarshal_asset)
        (get-IsQuiet db L (asset_meta_key t)) (decode_pointer-IsQuiet unmarshal_asset)

  pub update_asset_paused-IsQuiet :
      (t : Bytes) (paused : Bool) → IsQuiet db L (update_asset_paused db t paused)
  unfolding update_asset_paused
  update_asset_paused-IsQuiet t paused =
      bind-IsQuiet db L (get_asset db t) _ (get_asset-IsQuiet t) λ found. record_asset-IsQuiet _

  pub update_asset_uri-IsQuiet : (t uri : Bytes) → IsQuiet db L (update_asset_uri db t uri)
  unfolding update_asset_uri
  update_asset_uri-IsQuiet t uri =
      bind-IsQuiet db L (get_asset db t) _ (get_asset-IsQuiet t) λ found. record_asset-IsQuiet _

  -- Identities.
  pub record_identity-IsQuiet : (i : Identity) → IsQuiet db L (record_identity db i)
  unfolding record_identity
  record_identity-IsQuiet i =
      bind-IsQuiet db L (put _ _) _
        (put-IsQuiet db L _ (object (marshal_identity i)) (identity_key-IsOutside i.wallet))
        λ _. put-IsQuiet db L _ (raw i.wallet) (identity_country_key-IsOutside i.country i.wallet)

  pub get_identity-IsQuiet : (w : Bytes) → IsQuiet db L (get_identity db w)
  unfolding get_identity
  get_identity-IsQuiet w =
      bind-IsQuiet db L (get (identity_key w)) (decode_pointer unmarshal_identity)
        (get-IsQuiet db L (identity_key w)) (decode_pointer-IsQuiet unmarshal_identity)

  delete_country_row-IsQuiet :
      (w : Bytes) (found : Option Identity) → IsQuiet db L (delete_country_row db w found)
  unfolding delete_country_row
  delete_country_row-IsQuiet w none = silent-IsQuiet db L (pure tt) (pure-IsSilent db L tt)
  delete_country_row-IsQuiet w (some i) = silent-IsQuiet db L (logged (delete _)) (
      logged-IsSilent db L (delete (identity_country_key i.country w))
        (delete-IsQuiet db L _ (identity_country_key-IsOutside i.country w)))

  pub delete_identity-IsQuiet : (w : Bytes) → IsQuiet db L (delete_identity db w)
  unfolding delete_identity
  delete_identity-IsQuiet w =
      bind-IsQuiet db L (get_identity db w) _ (get_identity-IsQuiet w) λ found.
        bind-IsQuiet db L (delete_country_row db w found) _ (delete_country_row-IsQuiet w found)
          λ _. delete-IsQuiet db L (identity_key w) (identity_key-IsOutside w)

  -- Freezes.
  pub record_freeze-IsQuiet : (f : FreezeState) → IsQuiet db L (record_freeze db f)
  unfolding record_freeze
  record_freeze-IsQuiet f = put-IsQuiet db L _ _ (freeze_key-IsOutside f.wallet f.token_id)

  get_freeze-IsQuiet : (w t : Bytes) → IsQuiet db L (get_freeze db w t)
  unfolding get_freeze
  get_freeze-IsQuiet w t =
      bind-IsQuiet db L (get (freeze_key w t)) (decode_pointer unmarshal_freeze)
        (get-IsQuiet db L (freeze_key w t)) (decode_pointer-IsQuiet unmarshal_freeze)

  pub update_freeze_amount-IsQuiet :
      (w t amount : Bytes) → IsQuiet db L (update_freeze_amount db w t amount)
  unfolding update_freeze_amount
  update_freeze_amount-IsQuiet w t amount =
      bind-IsQuiet db L (get_freeze db w t) _ (get_freeze-IsQuiet w t)
        λ found. record_freeze-IsQuiet _

  pub update_lockup_expiry-IsQuiet :
      (w t : Bytes) (expiry : ℕ) → IsQuiet db L (update_lockup_expiry db w t expiry)
  unfolding update_lockup_expiry
  update_lockup_expiry-IsQuiet w t expiry =
      bind-IsQuiet db L (get_freeze db w t) _ (get_freeze-IsQuiet w t)
        λ found. record_freeze-IsQuiet _

  -- The cursor, and an event of the ledger.
  pub set_cursor-IsQuiet : (n : ℕ) → IsQuiet db L (set_cursor db n)
  unfolding set_cursor
  set_cursor-IsQuiet n =
      put-IsQuiet db L prefix_cursor _ (first-IsOutside b'c' _ (omega arith) (omega arith))
