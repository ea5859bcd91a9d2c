-- ===== src/Store/Identities.antt =====
-- Identity bindings and the index by country (IDENTITY).
pub mod Binding
pub mod Rebinding
use agro_diamond_compliance.Prelude.{
  ℕ, Bool, Option, none, some, List, [], ◌∷◌, ◌&&◌, if◌then◌else◌,
}
use agro_diamond_compliance.Prelude.Int.{ℤ}
use agro_diamond_compliance.Bytes.{Bytes, has_prefix}
use agro_diamond_compliance.Action.{Action, ok, err, panic, pure, ◌>>=◌, ◌>>◌}
use agro_diamond_compliance.RocksDb.{RocksDb}
use agro_diamond_compliance.RocksDb.Entries.{Value, raw, object, Rows}
use agro_diamond_compliance.RocksDb.Scan.{while_prefix}
use agro_diamond_compliance.Store.Keys.{
  prefix_identity, prefix_ident_country, identity_key, identity_country_key,
  identity_country_prefix,
}
use agro_diamond_compliance.Store.Records.{Identity, marshal_identity, unmarshal_identity}
use agro_diamond_compliance.Store.Values.{as_string, decoded, decode_pointer, below_limit, push}

-- The loop of `GetAllIdentities` over the rows of its prefix; rows of the country index are skipped.
unfoldable pub collect_identities : ℤ → List Identity → Rows → List Identity
unfolding below_limit decoded has_prefix
collect_identities limit identities [] = identities
collect_identities limit identities ((k, v) ∷ rows) =
    let found = if has_prefix prefix_ident_country k then none else decoded unmarshal_identity v in
    let rest = collect_identities limit (push identities found) rows in
    if below_limit identities limit then rest else identities

module _ (db : RocksDb) where
  open db use {State, get, put, delete, seek}

  unfoldable pub record_identity : Identity → Action State (Unit {0})
  record_identity i = do
    put (identity_key i.wallet) (object (marshal_identity i))
    put (identity_country_key i.country i.wallet) (raw i.wallet)

  unfoldable pub get_identity : Bytes → Action State (Option Identity)
  get_identity wallet = do
    found ← get (identity_key wallet)
    decode_pointer unmarshal_identity found

  -- `_ = s.db.Delete(…)` where there is an identity: its error is dropped.
  unfoldable pub delete_country_row : Bytes → Option Identity → Action State (Unit {0})
  delete_country_row wallet none s = ok tt s
  delete_country_row wallet (some existing) s =
      elim (delete (identity_country_key existing.country wallet) s) [
        | ok _ s' ↦ ok tt s'
        | err _ s' ↦ ok tt s'
        | panic s' ↦ panic s'
      ]

  unfoldable pub delete_identity : Bytes → Action State (Unit {0})
  unfolding delete_country_row
  delete_identity wallet = do
    existing ← get_identity wallet
    delete_country_row wallet existing
    delete (identity_key wallet)

  -- `GetIdentity` in the loop over a country: an error or a missing identity is skipped.
  present : Bytes → Action State (Option Identity)
  unfolding get_identity
  present wallet s = elim (get_identity wallet s) [
    | ok found s' ↦ ok found s'
    | err e s' ↦ ok none s'
    | panic s' ↦ panic s'
  ]

  collect_country : ℤ → List Identity → Rows → Action State (List Identity)
  unfolding present below_limit
  collect_country limit identities [] = pure identities
  collect_country limit identities ((k, v) ∷ rows) =
      let rest : Action State (List Identity) = (do
        found ← present (as_string v)
        collect_country limit (push identities found) rows) in
      if below_limit identities limit then rest else pure identities

  unfoldable pub get_identities_by_country : ℕ → ℤ → Action State (List Identity)
  unfolding collect_country
  get_identities_by_country country limit s =
      let prefix = identity_country_prefix country in
      collect_country limit [] (while_prefix prefix (seek s prefix)) s

  unfoldable pub get_all_identities : ℤ → Action State (List Identity)
  get_all_identities limit s =
      ok (collect_identities limit [] (while_prefix prefix_identity (seek s prefix_identity))) s
