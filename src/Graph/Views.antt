-- ===== src/Graph/Views.antt =====
-- What `asset` answers once the asset is recorded.
use agro_diamond_compliance.Prelude.{
  sym, ap, ◌∙◌, List, [], ◌∷◌, ◌++◌, All, append-nil, append_assoc, ◌≡◌, refl, subst, some,
}
use agro_diamond_compliance.Prelude.Int.{pos}
use agro_diamond_compliance.Bytes.{Bytes}
use agro_diamond_compliance.Bytes.Decimal.{format_int}
use agro_diamond_compliance.Action.{Outcome, Returns, ok, err, panic, or_value, ◌>>=◌}
use agro_diamond_compliance.RocksDb.{RocksDb, IsReliable}
use agro_diamond_compliance.Store.Quiet
use agro_diamond_compliance.Store.Records.{AssetConfig, TokenMeta}
use agro_diamond_compliance.Store.Assets.{record_asset, get_asset, get_all_assets}
use agro_diamond_compliance.Store.Assets.Updates.{IsConfig, record_asset-get_asset}
use agro_diamond_compliance.Store.Tokens.{get_token_meta}
use agro_diamond_compliance.Store.Ledger.Rows.{IsLedger, supply_in}
use agro_diamond_compliance.Store.Ledger.Steps.{get_token_meta_lem}
use agro_diamond_compliance.Store.Ledger.Quiet.{Ends, Unmoved}
use agro_diamond_compliance.Graph.{AssetView, with_config, build_asset_view}
use agro_diamond_compliance.Graph.Compliance.{resolve_asset, resolve_assets, views_of}

Returns-with :
    {S A : Type 0} (o : Outcome S A) (P Q R : S → Type 0)
    → Returns o P
    → Ends o Q
    → ((s : S) → P s → Q s → R s)
    → Returns o R
Returns-with (ok a s) P Q R h k f = f s h k
Returns-with (err e s) P Q R h k f = h
Returns-with (panic s) P Q R h k f = h

-- The asset `a` in a state: its configuration as it was recorded, and the supply that its ledger
-- has there.
abbrev pub IsViewOf : AssetConfig → Bytes → AssetView → Type 0
IsViewOf a supply view =
    (view.token_id ≡ a.token_id)
    × (view.name ≡ a.name)
    × (view.symbol ≡ a.symbol)
    × (view.issuer ≡ a.issuer)
    × (view.profile_id ≡ a.profile_id)
    × (view.uri ≡ a.uri)
    × (view.paused ≡ a.paused)
    × (view.registered_at ≡ a.registered_at)
    × (view.total_supply ≡ supply)

module _ (db : RocksDb) (L : IsReliable db) where
  resolve_asset_lem :
      (a : AssetConfig) (meta : TokenMeta) (s : db.State)
      → get_asset db a.token_id s ≡ ok (some a) s
      → get_token_meta db a.token_id s ≡ ok meta s
      → (view : AssetView) × (resolve_asset db a.token_id s ≡ ok (some view) s)
        × IsViewOf a meta.total_supply view
        × (view.holder_count ≡ meta.holder_count)
  unfolding resolve_asset build_asset_view with_config
  resolve_asset_lem a meta s e f =
      (_, rw (e, f, ◌>>=◌) refl, (refl, refl, refl, refl, refl, refl, refl, refl, refl), refl)

  -- On a reliable database with the ledger of its token, after an asset whose texts JSON keeps and
  -- whose numbers fit is recorded, `asset` answers, without a change, what was recorded, with the
  -- supply of the ledger.
  pub record_asset-resolve_asset :
      (a : AssetConfig) (s : db.State)
      → IsConfig a
      → IsLedger a.token_id (L.entries s)
      → Returns (record_asset db a s) λ s'.
        (view : AssetView) × (resolve_asset db a.token_id s' ≡ ok (some view) s')
        × IsViewOf a (format_int (pos (supply_in a.token_id (L.entries s')))) view
  record_asset-resolve_asset a s valid ledger =
      Returns-with (record_asset db a s) (λ s'. get_asset db a.token_id s' ≡ ok (some a) s')
        (Unmoved db L s)
        (λ s'.
          (view : AssetView) × (resolve_asset db a.token_id s' ≡ ok (some view) s')
          × IsViewOf a (format_int (pos (supply_in a.token_id (L.entries s')))) view)
        (record_asset-get_asset db L a s valid) (Quiet.record_asset-IsQuiet db L a s)
        λ s' found unmoved.
          let kept = unmoved.ledgers a.token_id ledger in
          let (view, answer, same, _) =
            resolve_asset_lem a kept.meta s' found
              (get_token_meta_lem db L a.token_id s' kept.meta kept.stored) in
          (view, answer, subst (λ x. IsViewOf a x view) kept.supply same)

  -- The views of the assets, one for each, in their order.
  abbrev pub AreViewsOf : List AssetConfig → db.State → List AssetView → Type 0
  AreViewsOf [] s [] = Unit
  AreViewsOf [] s (_ ∷ _) = ⊥
  AreViewsOf (_ ∷ _) s [] = ⊥
  AreViewsOf (a ∷ configs) s (view ∷ views) =
      IsViewOf a (format_int (pos (supply_in a.token_id (L.entries s)))) view
      × AreViewsOf configs s views

  -- Each asset is the one of its token, which has a ledger.
  abbrev pub AreFound : List AssetConfig → db.State → Type 0
  AreFound configs s =
      All
        (λ (a : AssetConfig).
          (get_asset db a.token_id s ≡ ok (some a) s) × IsLedger a.token_id (L.entries s))
        configs

  views_of-AreViewsOf :
      (done : List AssetView) (configs : List AssetConfig) (s : db.State)
      → AreFound configs s
      → (views : List AssetView) × (views_of db done configs s ≡ ok (done ++ views) s)
        × AreViewsOf configs s views
  unfolding views_of resolve_asset
  views_of-AreViewsOf done [] s h = ([], ap (λ l. ok l s) (sym (append-nil done)), tt)
  views_of-AreViewsOf done (a ∷ configs) s ((found, ledger), h) =
      let (view, answer, same, _) =
        resolve_asset_lem a ledger.meta s found
          (get_token_meta_lem db L a.token_id s ledger.meta ledger.stored) in
      let (views, rest, all) = views_of-AreViewsOf (done ++ view ∷ []) configs s h in
      (
        view ∷ views,
        rw (◌>>=◌, or_value, answer)
            (rest ∙ ap (λ l. ok l s) (append_assoc done (view ∷ []) views)),
        (subst (λ x. IsViewOf a x view) ledger.supply same, all),
      )

  -- On a reliable database, where `GetAllAssets` returns configurations that are each the one of
  -- their token, and each token has a ledger, `assets` answers, without a change, one view of each
  -- in the same order, with the supply of its ledger.
  pub resolve_assets-AreViewsOf :
      (configs : List AssetConfig) (s : db.State)
      → get_all_assets db s ≡ ok configs s
      → AreFound configs s
      → (views : List AssetView) × (resolve_assets db s ≡ ok views s) × AreViewsOf configs s views
  unfolding resolve_assets
  resolve_assets-AreViewsOf configs s listed h =
      let (views, answer, all) = views_of-AreViewsOf [] configs s h in
      (views, rw (◌>>=◌, listed) answer, all)
