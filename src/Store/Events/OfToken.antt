-- ===== src/Store/Events/OfToken.antt =====
-- `GetTokenEvents`: the events that it returns.
use agro_diamond_compliance.Prelude.{
  All-append, ℕ, ◌≤◌, ◌<◌, ◌≡◌, refl, List, [], ◌∷◌, ◌++◌, length, length-append, All, ltb, ◌==◌,
  bytes_eq, arith, Bool-cases, inl, inr,
}
use agro_diamond_compliance.Prelude.Int.{pos}
use agro_diamond_compliance.Bytes.{Bytes}
use agro_diamond_compliance.Action.{ok, ◌>>=◌}
use agro_diamond_compliance.RocksDb.{RocksDb, IsReliable}
use agro_diamond_compliance.Store.Records.{TransferEvent}
use agro_diamond_compliance.Store.Values.{below_limit}
use agro_diamond_compliance.Store.Events.{filter_token, get_token_events, overscan}
use agro_diamond_compliance.Store.Events.Recent.{get_recent_events-IsLast}

-- The events are of the token, and at most so many.
abbrev pub AreOf : Bytes → ℕ → List TransferEvent → Type 0
AreOf t n events = All (λ (e : TransferEvent). e.token_id ≡ t) events × (length events ≤ n)

filter_token-AreOf :
    (t : Bytes) (n : ℕ) (filtered events : List TransferEvent)
    → All (λ (e : TransferEvent). e.token_id ≡ t) filtered
    → length filtered < n
    → AreOf t n (filter_token t (pos n) filtered events)
unfolding filter_token below_limit
filter_token-AreOf t n filtered [] own small = (own, omega arith)
filter_token-AreOf t n filtered (e ∷ events) own small =
    let more = length-append filtered (e ∷ []) in
    elim (Bool-cases (e.token_id == t)) [
      | inr other ↦ rw other (filter_token-AreOf t n filtered events own small)
      | inl same ↦
          let own' : All (λ (x : TransferEvent). x.token_id ≡ t) (filtered ++ e ∷ []) =
            All-append (λ (x : TransferEvent). x.token_id ≡ t) filtered (e ∷ []) own
              (ground arith, tt) in
          elim (Bool-cases (ltb (length (filtered ++ e ∷ [])) n)) [
            | inl left ↦
                rw (same, left)
                  (filter_token-AreOf t n (filtered ++ e ∷ []) events own' (ground arith))
            | inr full ↦ rw (same, full) (own', omega arith)
          ]
    ]

module _ (db : RocksDb) (L : IsReliable db) where
  -- On a reliable database, `GetTokenEvents` with a positive limit returns, without a change,
  -- events of the token only, and no more than the limit.
  pub get_token_events-AreOf :
      (t : Bytes) (n : ℕ) (s : db.State)
      → 0 < n
      → (events : List TransferEvent) × (get_token_events db t (pos n) s ≡ ok events s)
        × AreOf t n events
  unfolding get_token_events
  get_token_events-AreOf t n s some =
      let (recent, e, _) = get_recent_events-IsLast db L (overscan (pos n)) s in
      (
        filter_token t (pos n) [] recent,
        rw (e, ◌>>=◌) refl,
        filter_token-AreOf t n [] recent tt some,
      )
