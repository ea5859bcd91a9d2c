-- ===== src/Graph/Pages.antt =====
-- The pages of holders that `first` asks for.
use agro_diamond_compliance.Prelude.{
  ℕ, zero, suc, ◌≤◌, ◌<◌, ◌≡◌, refl, sym, ◌&&◌, List, [], ◌∷◌, ◌++◌, take, drop, length, ltb, arith,
  Bool-cases, false, inl, inr, ◌⊎◌,
}
use agro_diamond_compliance.Prelude.Int.{ℤ, pos_part}
use agro_diamond_compliance.Bytes.{Bytes}
use agro_diamond_compliance.Action.{ok, ◌>>=◌}
use agro_diamond_compliance.RocksDb.{RocksDb, IsReliable}
use agro_diamond_compliance.Store.Records.{Holder}
use agro_diamond_compliance.Store.Tokens.{get_holders}
use agro_diamond_compliance.Store.Events.Recent.{take-append-drop}
use agro_diamond_compliance.Store.Ledger.Queries.{get_holders_lem}
use agro_diamond_compliance.Graph.{first_holders, resolve_holders}

length-take_lt : {A : Type 0} (n : ℕ) (xs : List A) → n < length xs → length (take n xs) ≡ n
length-take_lt zero xs h = refl
length-take_lt (suc n) [] h = absurd (omega arith)
length-take_lt (suc n) (x ∷ xs) h = omega (arith, length-take_lt n xs (omega arith))

-- A page is the whole list, if the limit is not positive or there are not more than that; else it is
-- the front of the list, of as many elements as the limit says.
abbrev pub IsPage : ℤ → List Holder → List Holder → Type 0
IsPage limit all page =
    ((page ≡ all) × ((pos_part limit ≡ 0) ⊎ (length all ≤ pos_part limit)))
    ⊎ ((rest : List Holder) × (all ≡ page ++ rest)
        × (0 < pos_part limit)
        × (pos_part limit < length all)
        × (length page ≡ pos_part limit))

first_holders-whole :
    (limit : ℤ) (all : List Holder)
    → (ltb 0 (pos_part limit) && ltb (pos_part limit) (length all)) ≡ false
    → (pos_part limit ≡ 0) ⊎ (length all ≤ pos_part limit)
first_holders-whole limit all h = elim (Bool-cases (ltb 0 (pos_part limit))) [
  | inl more ↦ inr (ground arith)
  | inr end ↦ inl (ground arith)
]

first_holders-IsPage : (limit : ℤ) (all : List Holder) → IsPage limit all (first_holders limit all)
unfolding first_holders
first_holders-IsPage limit all =
    elim (Bool-cases (ltb 0 (pos_part limit) && ltb (pos_part limit) (length all))) [
      | inl cut ↦
          let size = length-take_lt (pos_part limit) all (ground arith) in
          rw cut (
            inr (
              drop (pos_part limit) all,
              sym (take-append-drop (pos_part limit) all),
              ground arith,
              ground arith,
              size,
            ))
      | inr whole ↦ rw whole (inl (refl, first_holders-whole limit all whole))
    ]

module _ (db : RocksDb) (L : IsReliable db) where
  -- On a reliable database, `holders` of a token or an asset answers, without a change, all that
  -- `GetHolders` returns if `first` is not positive or there are not more holders than that, and
  -- else the front of it, of exactly `first` holders.
  pub resolve_holders-IsPage :
      (token_id : Bytes) (first : ℤ) (s : db.State)
      → (all : List Holder) × (page : List Holder) × (get_holders db token_id s ≡ ok all s)
        × (resolve_holders db token_id first s ≡ ok page s)
        × IsPage first all page
  unfolding resolve_holders
  resolve_holders-IsPage token_id first s =
      let found = get_holders_lem db L token_id s in
      (_, first_holders first _, found, rw (found, ◌>>=◌) refl, first_holders-IsPage first _)
