-- ===== src/Indexer/Wallets/Frozen.antt =====
-- What `handleAssetFrozen` leaves of a freeze state.
use agro_diamond_compliance.Prelude.{◌≡◌, refl, Option, some, List, [], ◌∷◌, arith, bytes_eq}
use agro_diamond_compliance.Bytes.{Bytes, codes, IsPlain}
use agro_diamond_compliance.Bytes.Utf8.{valid_utf8, valid_utf8-ascii, IsPlain-IsAscii}
use agro_diamond_compliance.Bytes.Decimal.{format_uint-IsDigits, IsDigits-IsPlain}
use agro_diamond_compliance.Json.{boolean}
use agro_diamond_compliance.Action.{Action, Returns, ok, logged}
use agro_diamond_compliance.Action.Returning.{Returns-map, logged-Returns, then-Returns}
use agro_diamond_compliance.Ethereum.{Ethereum, IsLawful}
use agro_diamond_compliance.Node.{Log}
use agro_diamond_compliance.RocksDb.{RocksDb, IsReliable}
use agro_diamond_compliance.Store.Records.{FreezeState, marshal_freeze}
use agro_diamond_compliance.Store.Records.RoundTrip.{IsValid}
use agro_diamond_compliance.Store.Freezes.{blank_freeze, record_freeze, get_freeze}
use agro_diamond_compliance.Store.Freezes.Updates.{
  IsFreeze, get_freeze-lookup, record_freeze_lem, frozen_in-lookup,
}
use agro_diamond_compliance.Indexer.Abi.{decimal}
use agro_diamond_compliance.Indexer.Recording.{record_generic_event}
use agro_diamond_compliance.Indexer.Recording.Keeps.{IsNoEvent, Holds, record_generic_event-Keeps}
use agro_diamond_compliance.Store.Keys.{freeze_key, generic_event_key, ge_token_key, ge_addr_key}
use agro_diamond_compliance.RocksDb.Entries.{Value, object}
use agro_diamond_compliance.Indexer.Wallets.{word_flag, handle_asset_frozen}

freeze_key-IsNoEvent : (w t : Bytes) → IsNoEvent (freeze_key w t)
unfolding generic_event_key ge_token_key ge_addr_key freeze_key
freeze_key-IsNoEvent w t = record {
  not_event = λ b i e. ground arith;
  not_token_row = λ b i x e. ground arith;
  not_addr_row = λ b i x e. ground arith;
}

module _ (db : RocksDb) (L : IsReliable db) (eth : Ethereum) (E : IsLawful eth) where
  -- A plain text is kept by JSON.
  plain-IsValid : (x : Bytes) → IsPlain x → IsValid x
  plain-IsValid x p = valid_utf8-ascii x (IsPlain-IsAscii x p)

  -- On a reliable database, an `AssetFrozen` log with the topics of a token and a wallet returns,
  -- and leaves as the freeze state of both the flag in the data, without a frozen amount and
  -- without an expiry, whatever was stored before.
  pub handle_asset_frozen-get_freeze :
      (sig id wallet : Bytes) (more : List Bytes) (log : Log) (s : db.State)
      → let w = eth.hex (eth.bytes_to_address wallet) in
        let state : FreezeState = record (blank_freeze w (decimal id)) {
          frozen = word_flag log.bytes;
        } in
        Returns
          (handle_asset_frozen db eth (sig ∷ id ∷ wallet ∷ more) log s)
          λ s'. get_freeze db w (decimal id) s' ≡ ok (some state) s'
  unfolding handle_asset_frozen
  handle_asset_frozen-get_freeze sig id wallet more log s =
      let w = eth.hex (eth.bytes_to_address wallet) in
      let t = decimal id in
      let f : FreezeState = record (blank_freeze w t) { frozen = word_flag log.bytes } in
      let valid : IsFreeze f = record {
        valid_wallet = plain-IsValid w (E.hex-IsPlain (eth.bytes_to_address wallet));
        valid_token = plain-IsValid t (IsDigits-IsPlain _ (format_uint-IsDigits _));
        valid_amount = unfold valid_utf8 in refl;
        small_expiry = omega arith;
      } in
      let v : Option Value = some (object (marshal_freeze f)) in
      let apart = freeze_key-IsNoEvent w t in
      let event : Action db.State (Unit {0}) =
        record_generic_event db eth log (codes "asset_frozen") t w
          (some ((codes "frozen", boolean (word_flag log.bytes)) ∷ [])) in
      then-Returns (logged (record_freeze db f) s) event (Holds db L (freeze_key w t) apart v)
        (λ s'. get_freeze db w t s' ≡ ok (some f) s') s
        (logged-Returns (record_freeze db f s) (Holds db L (freeze_key w t) apart v) s
          (rw (record_freeze_lem db L f s) (frozen_in-lookup db L f s)))
        λ s' h.
          Returns-map (event s') (Holds db L (freeze_key w t) apart v)
            (λ s''. get_freeze db w t s'' ≡ ok (some f) s'')
            (λ s'' e. get_freeze-lookup db L f s'' valid e)
            (record_generic_event-Keeps db L (freeze_key w t) apart eth log _ _ _ _ v s' h)
