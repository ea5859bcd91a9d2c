-- ===== src/Store/Identities/Rebinding.antt =====
-- An identity that is recorded for one wallet and then deleted at another.
use agro_diamond_compliance.Prelude.{◌≡◌, ◌≢◌, ◌∙◌, none, some, arith, bytes_eq}
use agro_diamond_compliance.Bytes.{Bytes}
use agro_diamond_compliance.Action.{Returns, logged, ◌>>=◌, ◌>>◌}
use agro_diamond_compliance.RocksDb.{RocksDb, IsReliable}
use agro_diamond_compliance.RocksDb.Entries.{raw, object, lookup, insert, lookup-insert}
use agro_diamond_compliance.Store.Keys.{prefix_identity, identity_key, identity_country_key}
use agro_diamond_compliance.Store.Keys.Disjoint.{append_cancel}
use agro_diamond_compliance.Store.Records.{Identity, marshal_identity}
use agro_diamond_compliance.Store.Identities.{record_identity, delete_identity}
use agro_diamond_compliance.Store.Identities.Binding.{
  IsBinding, bound, unbound, record_identity_lem, delete_identity_lem, own_row, removed_row,
  identity_country_key-ne-identity_key,
}

identity_key_injective : (v w : Bytes) → identity_key v ≡ identity_key w → v ≡ w
unfolding identity_key
identity_key_injective v w e = append_cancel prefix_identity v w e

module _ (db : RocksDb) (L : IsReliable db) (i j : Identity) (hi : IsBinding i) (hj : IsBinding j)
    (apart : i.wallet ≢ j.wallet) (s : db.State) where
  -- The row of the one wallet is kept while the other is bound, and the other way round.
  kept_row :
      lookup (identity_key i.wallet) (L.entries (bound db L j s))
      ≡ lookup (identity_key i.wallet) (L.entries s)
  kept_row = simp L.entries-write (
      ground (
        arith,
        lookup-insert (identity_country_key j.country j.wallet) (identity_key i.wallet)
            (raw j.wallet)
            (insert (identity_key j.wallet) (object (marshal_identity j)) (L.entries s)),
        lookup-insert (identity_key j.wallet) (identity_key i.wallet) (object (marshal_identity j))
            (L.entries s),
        identity_country_key-ne-identity_key j.country j.wallet i.wallet hi.plain_wallet,
        identity_key_injective i.wallet j.wallet,
      ))

  new_row :
      lookup (identity_key j.wallet) (L.entries (unbound db L i (bound db L j s)))
      ≡ some (object (marshal_identity j))
  new_row = ground (
    arith,
    removed_row db L i (identity_key j.wallet) (bound db L j s),
    own_row db L j s hj,
    identity_country_key-ne-identity_key i.country i.wallet j.wallet hj.plain_wallet,
    identity_key_injective i.wallet j.wallet,
  )

  lost_row : lookup (identity_key i.wallet) (L.entries (unbound db L i (bound db L j s))) ≡ none
  lost_row = ground (arith, removed_row db L i (identity_key i.wallet) (bound db L j s))

  -- Both calls return; then the row of the one wallet is there, and that of the other is gone.
  pub rebound :
      lookup (identity_key i.wallet) (L.entries s) ≡ some (object (marshal_identity i))
      → Returns ((logged (record_identity db j) >> logged (delete_identity db i.wallet)) s) λ s'.
        (lookup (identity_key j.wallet) (L.entries s') ≡ some (object (marshal_identity j)))
        × (lookup (identity_key i.wallet) (L.entries s') ≡ none)
  rebound e =
      rw
        (
          ◌>>◌,
          ◌>>=◌,
          logged,
          record_identity_lem db L j s,
          delete_identity_lem db L i (bound db L j s) hi (kept_row ∙ e),
        )
        (new_row, lost_row)
