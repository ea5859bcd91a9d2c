-- ===== src/Indexer/Wallets/Recovered.antt =====
-- What `handleWalletRecovered` leaves of the identities of the two wallets.
use agro_diamond_compliance.Prelude.{
  ◌^◌, ◌<◌, ◌≡◌, ◌≢◌, sym, ◌∙◌, subst, none, some, List, [], ◌∷◌, arith,
}
use agro_diamond_compliance.Bytes.{Bytes, codes}
use agro_diamond_compliance.Bytes.Utf8.{valid_utf8-ascii, IsPlain-IsAscii}
use agro_diamond_compliance.Json.{str}
use agro_diamond_compliance.Action.{Action, Returns, ok}
use agro_diamond_compliance.Action.Returning.{Returns-map, Returns-both, then-Returns}
use agro_diamond_compliance.Ethereum.{Ethereum, IsLawful}
use agro_diamond_compliance.Node.{Log}
use agro_diamond_compliance.RocksDb.{RocksDb, IsReliable}
use agro_diamond_compliance.RocksDb.Entries.{object, lookup}
use agro_diamond_compliance.Store.Keys.{identity_key, generic_event_key, ge_token_key, ge_addr_key}
use agro_diamond_compliance.Store.Records.{Identity, marshal_identity}
use agro_diamond_compliance.Store.Identities.{get_identity}
use agro_diamond_compliance.Store.Identities.Binding.{
  IsBinding, get_identity_lem, get_identity-none,
}
use agro_diamond_compliance.Store.Identities.Rebinding.{rebound}
use agro_diamond_compliance.Indexer.Recording.{with_result, record_generic_event}
use agro_diamond_compliance.Indexer.Recording.Keeps.{IsNoEvent, Holds, record_generic_event-Keeps}
use agro_diamond_compliance.Indexer.Wallets.{rebind, move_identity, handle_wallet_recovered}

identity_key-IsNoEvent : (w : Bytes) → IsNoEvent (identity_key w)
unfolding generic_event_key ge_token_key ge_addr_key identity_key
identity_key-IsNoEvent w = record {
  not_event = λ b i e. ground arith;
  not_token_row = λ b i x e. ground arith;
  not_addr_row = λ b i x e. ground arith;
}

module _ (db : RocksDb) (L : IsReliable db) (eth : Ethereum) (E : IsLawful eth) (i : Identity)
    (valid : IsBinding i) (log : Log) (s : db.State) where
  -- The identity at its new wallet.
  abbrev pub recovered : Bytes → Identity
  recovered new = record i { wallet = eth.hex new; bound_at = log.block_number }

  recovered-IsBinding : (new : Bytes) → log.block_number < 2 ^ 64 → IsBinding (recovered new)
  recovered-IsBinding new small =
      let plain = E.hex-IsPlain new in
      record {
        plain_wallet = plain;
        valid_wallet = valid_utf8-ascii (eth.hex new) (IsPlain-IsAscii (eth.hex new) plain);
        valid_identity = valid.valid_identity;
        small_country = valid.small_country;
        small_block = small;
      }

  -- The rows of both wallets.
  abbrev AreMoved : Bytes → db.State → Type 0
  AreMoved new s' =
      (lookup (identity_key (eth.hex new)) (L.entries s')
        ≡ some (object (marshal_identity (recovered new))))
      × (lookup (identity_key i.wallet) (L.entries s') ≡ none)

  rebind-AreMoved :
      (new : Bytes)
      → log.block_number < 2 ^ 64
      → i.wallet ≢ eth.hex new
      → lookup (identity_key i.wallet) (L.entries s) ≡ some (object (marshal_identity i))
      → Returns (rebind db eth i.wallet (eth.hex new) log.block_number s) (AreMoved new)
  unfolding rebind move_identity
  rebind-AreMoved new small apart e =
      let move = move_identity db eth i.wallet (eth.hex new) log.block_number in
      subst (λ o. Returns (with_result (λ _. o) move s) (AreMoved new))
        (sym (get_identity_lem db L i s valid e))
        (rebound db L i (recovered new) valid (recovered-IsBinding new small) apart s e)

  -- On a reliable database, a `WalletRecovered` log with its four topics and a `uint64` block, for
  -- a lost wallet whose row holds a well-formed identity and another new wallet, returns, and then
  -- the identity is that of the new wallet, bound at the block of the log, and the lost wallet has
  -- none.
  pub handle_wallet_recovered-get_identity :
      (sig lost new agent : Bytes) (more : List Bytes)
      → i.wallet ≡ eth.hex (eth.bytes_to_address lost)
      → eth.bytes_to_address lost ≢ eth.bytes_to_address new
      → log.block_number < 2 ^ 64
      → lookup (identity_key i.wallet) (L.entries s) ≡ some (object (marshal_identity i))
      → let w = eth.hex (eth.bytes_to_address new) in
        let moved : Identity = record i { wallet = w; bound_at = log.block_number } in
        Returns (handle_wallet_recovered db eth (sig ∷ lost ∷ new ∷ agent ∷ more) log s) λ s'.
          (get_identity db w s' ≡ ok (some moved) s') × (get_identity db i.wallet s' ≡ ok none s')
  unfolding handle_wallet_recovered
  handle_wallet_recovered-get_identity sig lost new agent more own apart small e =
      let a = eth.bytes_to_address new in
      let w = eth.hex a in
      let there = some (object (marshal_identity (recovered a))) in
      let different : i.wallet ≢ w = λ same. apart (E.hex_injective _ _ (sym own ∙ same)) in
      let event : Action db.State (Unit {0}) =
        record_generic_event db eth log (codes "wallet_recovered") [] w (
          some (
            (codes "lostWallet", str (eth.hex (eth.bytes_to_address lost)))
            ∷ (codes "agent", str (eth.hex (eth.bytes_to_address agent)))
            ∷ [])) in
      then-Returns (rebind db eth (eth.hex (eth.bytes_to_address lost)) w log.block_number s) event
        (AreMoved a)
        (λ s'.
          (get_identity db w s' ≡ ok (some (recovered a)) s')
          × (get_identity db i.wallet s' ≡ ok none s'))
        s
        (subst (λ x. Returns (rebind db eth x w log.block_number s) (AreMoved a)) own
          (rebind-AreMoved a small different e))
        λ s' (new_row, lost_row).
          Returns-map (event s') (AreMoved a) _
            (λ s'' (new_row', lost_row'). (
              get_identity_lem db L (recovered a) s'' (recovered-IsBinding a small) new_row',
              get_identity-none db L i.wallet s'' lost_row',
            ))
            (Returns-both (event s') (Holds db L (identity_key w) (identity_key-IsNoEvent w) there)
              (Holds db L (identity_key i.wallet) (identity_key-IsNoEvent i.wallet) none)
              (record_generic_event-Keeps db L (identity_key w) (identity_key-IsNoEvent w) eth log _
                _ _ _ there s' new_row)
              (record_generic_event-Keeps db L (identity_key i.wallet)
                (identity_key-IsNoEvent i.wallet) eth log _ _ _ _ none s' lost_row))
