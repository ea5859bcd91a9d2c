-- ===== src/Indexer/Sync/Chunks.antt =====
-- The chunk loop of `backfill`: `chunks` cuts the blocks into ranges.
use agro_diamond_compliance.Prelude.{
  ℕ, zero, suc, ◌+◌, ◌%◌, ◌^◌, ◌<◌, ◌≤◌, ◌≡◌, Option, none, some, List, [], ◌∷◌, ltb, arith,
  if◌then◌else◌, Bool-cases, inl, inr,
}
use agro_diamond_compliance.Indexer.Sync.{chunks}

-- The ranges lie one after the other, cover the blocks from `from` to `latest`, and have at most
-- 1001 blocks each.
abbrev pub Tile : ℕ → ℕ → List (ℕ × ℕ) → Type 0
Tile from latest [] = latest < from
Tile from latest ((a, b) ∷ rest) =
    (a ≡ from) × (from ≤ b) × (b ≤ latest) × (b ≤ from + 1000) × Tile (suc b) latest rest

abbrev pub Tiles : ℕ → ℕ → Option (List (ℕ × ℕ)) → Type 0
Tiles from latest none = ⊥
Tiles from latest (some list) = Tile from latest list

abbrev prepend : ℕ × ℕ → Option (List (ℕ × ℕ)) → Option (List (ℕ × ℕ))
prepend p none = none
prepend p (some list) = some (p ∷ list)

abbrev pub last_block : ℕ → ℕ → ℕ
last_block from latest = let end = (from + 1000) % 2 ^ 64 in if ltb latest end then latest else end

pub chunks-past : (fuel from latest : ℕ) → latest < from → chunks (suc fuel) from latest ≡ some []
unfolding chunks
chunks-past fuel from latest h = ground arith

pub chunks-step :
    (fuel from latest : ℕ)
    → from ≤ latest
    → chunks (suc fuel) from latest
      ≡ prepend (from, last_block from latest) (chunks fuel ((from + 1001) % 2 ^ 64) latest)
unfolding chunks
chunks-step fuel from latest h = ground arith

Tiles-prepend :
    (from to latest : ℕ) (rest : Option (List (ℕ × ℕ)))
    → from ≤ latest
    → to ≡ (if ltb latest (from + 1000) then latest else from + 1000)
    → Tiles (from + 1001) latest rest
    → (latest < from + 1001 → rest ≡ some [])
    → Tiles from latest (prepend (from, to) rest)
Tiles-prepend from to latest none h e t past = ground arith
Tiles-prepend from to latest (some []) h e t past = ground arith
Tiles-prepend from to latest (some ((a, b) ∷ list)) h e t past = ground arith

-- With fuel that reaches from the first block past the latest one, which is at least 1001 below
-- 2^64, the loop ends, and its ranges of at most 1001 blocks cover each block from `from` to
-- `latest` once, in ascending order.
pub chunks-Tiles :
    (fuel from latest : ℕ)
    → latest + 1001 < 2 ^ 64
    → latest < from + fuel
    → Tiles from latest (chunks (suc fuel) from latest)
chunks-Tiles zero from latest h enough = rw (chunks-past 0 from latest (omega arith)) (omega arith)
chunks-Tiles (suc fuel) from latest h enough = elim (Bool-cases (ltb latest from)) [
  | inl past ↦ rw (chunks-past (suc fuel) from latest (ground arith)) (ground arith)
  | inr more ↦
      let next : (from + 1001) % 2 ^ 64 ≡ from + 1001 = ground arith in
      rw (chunks-step (suc fuel) from latest (ground arith), next)
        (Tiles-prepend from (last_block from latest) latest _ (ground arith) (ground arith)
          (chunks-Tiles fuel (from + 1001) latest h (omega arith))
          (chunks-past fuel (from + 1001) latest))
]
