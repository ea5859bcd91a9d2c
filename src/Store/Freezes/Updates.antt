-- ===== src/Store/Freezes/Updates.antt =====
-- Reading a freeze state after it is written or updated.
use agro_diamond_compliance.Prelude.{ℕ, ◌^◌, ◌<◌, ◌≡◌, subst, Option, some, arith, bytes_eq}
use agro_diamond_compliance.Bytes.{Bytes}
use agro_diamond_compliance.Action.{Returns, ok, ◌>>=◌}
use agro_diamond_compliance.RocksDb.{RocksDb, IsReliable}
use agro_diamond_compliance.RocksDb.Entries.{object, lookup, lookup-insert}
use agro_diamond_compliance.Store.Keys.{freeze_key}
use agro_diamond_compliance.Store.Records.{FreezeState, marshal_freeze}
use agro_diamond_compliance.Store.Records.RoundTrip.{IsValid, unmarshal-marshal_freeze}
use agro_diamond_compliance.Store.Values.{decode_pointer, decode_or, decode, decoded}
use agro_diamond_compliance.Store.Freezes.{
  or_blank, record_freeze, get_freeze, update_freeze_amount, update_lockup_expiry,
}

-- A freeze state with texts that JSON keeps and an expiry that fits.
pub record IsFreeze (f : FreezeState) : Type 0 where
  pub valid_wallet : IsValid f.wallet
  pub valid_token : IsValid f.token_id
  pub valid_amount : IsValid f.frozen_amount
  pub small_expiry : f.lockup_expiry < 2 ^ 64

module _ (db : RocksDb) (L : IsReliable db) where
  abbrev pub frozen_in : FreezeState → db.State → db.State
  frozen_in f s = L.write (freeze_key f.wallet f.token_id) (object (marshal_freeze f)) s

  pub record_freeze_lem :
      (f : FreezeState) (s : db.State) → record_freeze db f s ≡ ok tt (frozen_in f s)
  unfolding record_freeze
  record_freeze_lem f s = L.put_lem _ _ s

  pub frozen_in-lookup :
      (f : FreezeState) (s : db.State)
      → lookup (freeze_key f.wallet f.token_id) (L.entries (frozen_in f s))
        ≡ some (object (marshal_freeze f))
  frozen_in-lookup f s = rw (L.entries-write, lookup-insert) (ground arith)

  -- The freeze state is the one in its row.
  pub get_freeze-lookup :
      (f : FreezeState) (s : db.State)
      → IsFreeze f
      → lookup (freeze_key f.wallet f.token_id) (L.entries s) ≡ some (object (marshal_freeze f))
      → get_freeze db f.wallet f.token_id s ≡ ok (some f) s
  unfolding get_freeze decode_pointer decode_or decode decoded
  get_freeze-lookup f s h e =
      rw (◌>>=◌, L.get_lem, e)
        (ground (
          arith,
          unmarshal-marshal_freeze f h.valid_wallet h.valid_token h.valid_amount h.small_expiry,
        ))

  get_freeze-frozen_in :
      (f : FreezeState) (s : db.State)
      → IsFreeze f
      → get_freeze db f.wallet f.token_id (frozen_in f s) ≡ ok (some f) (frozen_in f s)
  get_freeze-frozen_in f s h = get_freeze-lookup f (frozen_in f s) h (frozen_in-lookup f s)

  get_freeze-own :
      (f : FreezeState) (w t : Bytes) (s : db.State)
      → f.wallet ≡ w
      → f.token_id ≡ t
      → IsFreeze f
      → get_freeze db w t (frozen_in f s) ≡ ok (some f) (frozen_in f s)
  get_freeze-own f w t s same_wallet same_token h =
      subst (λ x. get_freeze db x t (frozen_in f s) ≡ ok (some f) (frozen_in f s)) same_wallet
        (subst (λ y. get_freeze db f.wallet y (frozen_in f s) ≡ ok (some f) (frozen_in f s))
          same_token (get_freeze-frozen_in f s h))

  module _ (w t : Bytes) (found : Option FreezeState) (s : db.State)
      (e : get_freeze db w t s ≡ ok found s) (same_wallet : (or_blank w t found).wallet ≡ w)
      (same_token : (or_blank w t found).token_id ≡ t) (h : IsFreeze (or_blank w t found)) where
    abbrev with_amount : Bytes → FreezeState
    with_amount amount = record (or_blank w t found) { frozen_amount = amount }

    abbrev with_expiry : ℕ → FreezeState
    with_expiry expiry = record (or_blank w t found) { lockup_expiry = expiry }

    -- On a reliable database, where a freeze state with well-formed fields and its own wallet
    -- and token, or none, is found, `UpdateFreezeAmount` of a valid text returns, sets the
    -- amount of that state, or of a blank one, and keeps its other fields.
    pub update_freeze_amount-get_freeze :
        (amount : Bytes)
        → IsValid amount
        → Returns (update_freeze_amount db w t amount s) λ s'.
          get_freeze db w t s'
          ≡ ok (some (record (or_blank w t found) { frozen_amount = amount })) s'
    unfolding update_freeze_amount
    update_freeze_amount-get_freeze amount v =
        let valid : IsFreeze (with_amount amount) = record {
          valid_wallet = h.valid_wallet;
          valid_token = h.valid_token;
          valid_amount = v;
          small_expiry = h.small_expiry;
        } in
        rw (◌>>=◌, e, record_freeze_lem)
          (get_freeze-own (with_amount amount) w t s same_wallet same_token valid)

    -- On a reliable database, where a freeze state with well-formed fields and its own wallet
    -- and token, or none, is found, `UpdateLockupExpiry` of a `uint64` returns, sets the expiry
    -- of that state, or of a blank one, and keeps its other fields.
    pub update_lockup_expiry-get_freeze :
        (expiry : ℕ)
        → expiry < 2 ^ 64
        → Returns (update_lockup_expiry db w t expiry s) λ s'.
          get_freeze db w t s'
          ≡ ok (some (record (or_blank w t found) { lockup_expiry = expiry })) s'
    unfolding update_lockup_expiry
    update_lockup_expiry-get_freeze expiry small =
        let valid : IsFreeze (with_expiry expiry) = record {
          valid_wallet = h.valid_wallet;
          valid_token = h.valid_token;
          valid_amount = h.valid_amount;
          small_expiry = small;
        } in
        rw (◌>>=◌, e, record_freeze_lem)
          (get_freeze-own (with_expiry expiry) w t s same_wallet same_token valid)
