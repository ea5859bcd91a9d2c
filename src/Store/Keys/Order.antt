-- ===== src/Store/Keys/Order.antt =====
-- The keys of events, and the order of the chain.
use agro_diamond_compliance.Prelude.{
  ℕ, ◌^◌, ◌<◌, ◌≡◌, true, [], ◌∷◌, ◌++◌, ◌⊎◌, inl, inr, ◌∙◌, ap, sym, append-nil,
}
use agro_diamond_compliance.Bytes.{less}
use agro_diamond_compliance.Bytes.Order.{less-append}
use agro_diamond_compliance.Bytes.Padded.{format_padded, less-format_padded}
use agro_diamond_compliance.Store.Keys.{prefix_event, event_key, position}

-- One place of the chain lies before another: by the block, and by the log index in a block.
abbrev pub Before : ℕ × ℕ → ℕ × ℕ → Type 0
Before (b, i) (c, j) = (b < c) ⊎ ((b ≡ c) × (i < j))

less-position :
    (b i c j : ℕ)
    → c < 10 ^ 12
    → j < 10 ^ 6
    → Before (b, i) (c, j)
    → less (position b i) (position c j) ≡ true
unfolding position
less-position b i c j h k (inl l) = less-format_padded 11 b c _ _ l h
less-position b i c j h k (inr (e, l)) = rw e (
    less-append (format_padded 12 c) (b':' ∷ format_padded 6 i) (b':' ∷ format_padded 6 j)
    ∙ (less-append (b':' ∷ []) (format_padded 6 i) (format_padded 6 j)
        ∙ (ap (λ x. less x (format_padded 6 j)) (sym (append-nil (format_padded 6 i)))
            ∙ (ap (less (format_padded 6 i ++ [])) (sym (append-nil (format_padded 6 j)))
                ∙ less-format_padded 5 i j [] [] l k))))

-- With blocks below 10^12 and log indices below 10^6, an event that comes before another on the
-- chain has the smaller key.
pub less-event_key :
    (b i c j : ℕ)
    → c < 10 ^ 12
    → j < 10 ^ 6
    → Before (b, i) (c, j)
    → less (event_key b i) (event_key c j) ≡ true
unfolding event_key
less-event_key b i c j h k l =
    less-append prefix_event (position b i) (position c j) ∙ less-position b i c j h k l
