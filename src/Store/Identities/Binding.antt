-- ===== src/Store/Identities/Binding.antt =====
-- The life of an identity: bound, read and removed.
use agro_diamond_compliance.Prelude.{
  ℕ, ◌^◌, ◌<◌, ◌≡◌, ◌≢◌, refl, sym, subst, none, some, ◌∷◌, ◌++◌, arith, if◌then◌else◌, ◌==◌,
  bytes_eq,
}
use agro_diamond_compliance.Bytes.{Bytes, codes, IsPlain}
use agro_diamond_compliance.Bytes.Decimal.{format_uint}
use agro_diamond_compliance.Action.{Returns, ok, ◌>>=◌}
use agro_diamond_compliance.RocksDb.{RocksDb, IsReliable}
use agro_diamond_compliance.RocksDb.Entries.{
  raw, object, lookup, insert, erase, lookup-insert, lookup-erase, erase-IsSorted,
}
use agro_diamond_compliance.Store.Keys.{prefix_identity, identity_key, identity_country_key}
use agro_diamond_compliance.Store.Keys.Disjoint.{append_cancel}
use agro_diamond_compliance.Store.Records.{Identity, marshal_identity}
use agro_diamond_compliance.Store.Records.RoundTrip.{IsValid, unmarshal-marshal_identity}
use agro_diamond_compliance.Store.Values.{decode_pointer, decode_or, decode, decoded}
use agro_diamond_compliance.Store.Identities.{
  record_identity, get_identity, delete_identity, delete_country_row,
}

-- An identity with texts that JSON keeps and numbers that fit.
pub record IsBinding (i : Identity) : Type 0 where
  pub plain_wallet : IsPlain i.wallet
  pub valid_wallet : IsValid i.wallet
  pub valid_identity : IsValid i.identity
  pub small_country : i.country < 2 ^ 16
  pub small_block : i.bound_at < 2 ^ 64

-- A wallet without `:` has no key of the country index.
pub identity_country_key-ne-identity_key :
    (c : ℕ) (w v : Bytes) → IsPlain v → identity_country_key c w ≢ identity_key v
unfolding identity_country_key identity_key
identity_country_key-ne-identity_key c w v h e =
    let r : codes "country:" ++ (format_uint c ++ b':' ∷ w) ≡ v =
      append_cancel prefix_identity _ _ e in
    let h' : IsPlain (codes "country:" ++ (format_uint c ++ b':' ∷ w)) =
      subst (λ x. IsPlain x) (sym r) h in
    ground arith

module _ (db : RocksDb) (L : IsReliable db) where
  open db use {put}

  abbrev pub bound : Identity → db.State → db.State
  bound i s =
      L.write (identity_country_key i.country i.wallet) (raw i.wallet)
        (L.write (identity_key i.wallet) (object (marshal_identity i)) s)

  pub record_identity_lem :
      (i : Identity) (s : db.State) → record_identity db i s ≡ ok tt (bound i s)
  unfolding record_identity
  record_identity_lem i s = rw (L.put_lem, ◌>>=◌) (L.put_lem _ _ _)

  pub get_identity_lem :
      (i : Identity) (s : db.State)
      → IsBinding i
      → lookup (identity_key i.wallet) (L.entries s) ≡ some (object (marshal_identity i))
      → get_identity db i.wallet s ≡ ok (some i) s
  unfolding get_identity decode_pointer decode_or decode decoded
  get_identity_lem i s h e =
      rw (◌>>=◌, L.get_lem, e)
        (ground (
          arith,
          unmarshal-marshal_identity i h.valid_wallet h.valid_identity h.small_country
              h.small_block,
        ))

  -- The rows of an identity and of the country index behind `RecordIdentity`.
  pub own_row :
      (i : Identity) (s : db.State)
      → IsBinding i
      → lookup (identity_key i.wallet) (L.entries (bound i s)) ≡ some (object (marshal_identity i))
  own_row i s h = simp L.entries-write (
      ground (
        arith,
        lookup-insert (identity_country_key i.country i.wallet) (identity_key i.wallet)
            (raw i.wallet)
            (insert (identity_key i.wallet) (object (marshal_identity i)) (L.entries s)),
        lookup-insert (identity_key i.wallet) (identity_key i.wallet) (object (marshal_identity i))
            (L.entries s),
        identity_country_key-ne-identity_key i.country i.wallet i.wallet h.plain_wallet,
      ))

  country_row :
      (c : ℕ) (w : Bytes) (i : Identity) (s : db.State)
      → IsBinding i
      → lookup (identity_country_key c w) (L.entries s) ≡ some (raw w)
      → lookup (identity_country_key c w) (L.entries (bound i s)) ≡ (
          if identity_country_key i.country i.wallet == identity_country_key c w
          then some (raw i.wallet)
          else some (raw w))
  country_row c w i s h e = simp L.entries-write (
      ground (
        arith,
        lookup-insert (identity_country_key i.country i.wallet) (identity_country_key c w)
            (raw i.wallet)
            (insert (identity_key i.wallet) (object (marshal_identity i)) (L.entries s)),
        lookup-insert (identity_key i.wallet) (identity_country_key c w)
            (object (marshal_identity i)) (L.entries s),
        identity_country_key-ne-identity_key c w i.wallet h.plain_wallet,
      ))

  -- On a reliable database, a well-formed identity can be recorded, and then is the identity of
  -- its wallet.
  pub record_identity-get_identity :
      (i : Identity) (s : db.State)
      → IsBinding i
      → Returns (record_identity db i s) λ s'. get_identity db i.wallet s' ≡ ok (some i) s'
  record_identity-get_identity i s h =
      rw (record_identity_lem i s) (get_identity_lem i (bound i s) h (own_row i s h))

  pub delete_identity_lem :
      (i : Identity) (s : db.State)
      → IsBinding i
      → lookup (identity_key i.wallet) (L.entries s) ≡ some (object (marshal_identity i))
      → delete_identity db i.wallet s
        ≡ ok tt (
            L.remove (identity_key i.wallet) (L.remove (identity_country_key i.country i.wallet) s))
  unfolding delete_identity delete_country_row
  delete_identity_lem i s h e =
      rw (◌>>=◌, get_identity_lem i s h e, L.delete_lem) (L.delete_lem _ _)

  abbrev pub unbound : Identity → db.State → db.State
  unbound i s =
      L.remove (identity_key i.wallet) (L.remove (identity_country_key i.country i.wallet) s)

  pub removed_row :
      (i : Identity) (k : Bytes) (s : db.State)
      → lookup k (L.entries (unbound i s)) ≡ (
          if identity_key i.wallet == k
          then none
          else if identity_country_key i.country i.wallet == k
          then none
          else lookup k (L.entries s))
  removed_row i k s =
      let sorted = L.entries-IsSorted s in
      simp L.entries-remove (
        ground (
          arith,
          lookup-erase (identity_key i.wallet) k
              (erase (identity_country_key i.country i.wallet) (L.entries s))
              (erase-IsSorted (identity_country_key i.country i.wallet) (L.entries s) sorted),
          lookup-erase (identity_country_key i.country i.wallet) k (L.entries s) sorted,
        ))

  pub get_identity-none :
      (w : Bytes) (s : db.State)
      → lookup (identity_key w) (L.entries s) ≡ none
      → get_identity db w s ≡ ok none s
  unfolding get_identity decode_pointer decode_or
  get_identity-none w s e = rw (◌>>=◌, L.get_lem, e) refl

  -- On a reliable database, `DeleteIdentity` of a wallet whose row holds a well-formed identity
  -- returns, and removes the identity and its row of the country index.
  pub delete_identity-get_identity :
      (i : Identity) (s : db.State)
      → IsBinding i
      → lookup (identity_key i.wallet) (L.entries s) ≡ some (object (marshal_identity i))
      → Returns (delete_identity db i.wallet s) λ s'.
        (get_identity db i.wallet s' ≡ ok none s')
        × (lookup (identity_country_key i.country i.wallet) (L.entries s') ≡ none)
  delete_identity-get_identity i s h e = rw (delete_identity_lem i s h e) (
    get_identity-none i.wallet (unbound i s)
        (ground (arith, removed_row i (identity_key i.wallet) s)),
    ground (arith, removed_row i (identity_country_key i.country i.wallet) s),
  )

  -- On a reliable database, `RecordIdentity` of a well-formed identity, for a wallet that has a
  -- row in the index of some country, returns and keeps that row, while the identity of the
  -- wallet is the new one.
  pub record_identity-country_row :
      (c : ℕ) (i : Identity) (s : db.State)
      → IsBinding i
      → lookup (identity_country_key c i.wallet) (L.entries s) ≡ some (raw i.wallet)
      → Returns (record_identity db i s) λ s'.
        (lookup (identity_country_key c i.wallet) (L.entries s') ≡ some (raw i.wallet))
        × (get_identity db i.wallet s' ≡ ok (some i) s')
  record_identity-country_row c i s h e = rw (record_identity_lem i s) (
    ground (arith, country_row c i.wallet i s h e),
    get_identity_lem i (bound i s) h (own_row i s h),
  )
