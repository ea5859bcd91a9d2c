-- ===== src/Store/Keys/Disjoint.antt =====
-- Keys of different kinds differ, and a key without separators in its parts gives the parts back.
use agro_diamond_compliance.Prelude.{
  ℕ, ◌≡◌, refl, ◌≢◌, true, false, [], ◌∷◌, ◌++◌, arith, sym, ◌∙◌, ap,
}
use agro_diamond_compliance.Bytes.{Bytes, has_prefix, IsPlain}
use agro_diamond_compliance.Bytes.Order.{has_prefix-append}
use agro_diamond_compliance.Store.Keys.{
  prefix_holder, prefix_holder_addr, prefix_token_meta, holder_prefix, holder_key, holder_addr_key,
  token_meta_key, event_key,
}

pub append_cancel : (p a b : Bytes) → p ++ a ≡ p ++ b → a ≡ b
append_cancel [] a b e = e
append_cancel (x ∷ p) a b e = append_cancel p a b (cc)

has_prefix_drop : (p a b : Bytes) → has_prefix (p ++ a) (p ++ b) ≡ has_prefix a b
unfolding has_prefix
has_prefix_drop [] a b = refl
has_prefix_drop (x ∷ p) a b = ground (arith, has_prefix_drop p a b)

-- What stands in front of the first separator.
part_eq :
    (t u a : Bytes)
    → IsPlain t
    → IsPlain u
    → has_prefix (u ++ b':' ∷ []) (t ++ b':' ∷ a) ≡ true
    → u ≡ t
unfolding has_prefix
part_eq [] [] a h k e = refl
part_eq [] (y ∷ u) a h (ky, k) e = ground arith
part_eq (x ∷ t) [] a (hx, h) k e = ground arith
part_eq (x ∷ t) (y ∷ u) a (hx, h) (ky, k) e = ground (arith, part_eq t u a h k)

pub has_prefix-holder_key : (t a : Bytes) → has_prefix (holder_prefix t) (holder_key t a) ≡ true
unfolding holder_prefix holder_key
has_prefix-holder_key t a =
    rw
      (
        has_prefix_drop prefix_holder (t ++ b':' ∷ []) (t ++ b':' ∷ a),
        has_prefix_drop t (b':' ∷ []) (b':' ∷ a),
      )
      (has_prefix-append (b':' ∷ []) a)

-- A holder row of one token has no other token's prefix.
pub holder_key_ne_token :
    (t u a : Bytes)
    → IsPlain t
    → IsPlain u
    → u ≢ t
    → has_prefix (holder_prefix u) (holder_key t a) ≡ false
unfolding holder_prefix holder_key
holder_key_ne_token t u a h k n =
    rw (has_prefix_drop prefix_holder (u ++ b':' ∷ []) (t ++ b':' ∷ a))
      (ground (arith, part_eq t u a h k))

pub holder_key_injective : (t a b : Bytes) → holder_key t a ≡ holder_key t b → a ≡ b
unfolding holder_key
holder_key_injective t a b e =
    let r : b':' ∷ a ≡ b':' ∷ b = append_cancel t _ _ (append_cancel prefix_holder _ _ e) in cc

pub holder_addr_key_injective :
    (t a b : Bytes) → IsPlain a → IsPlain b → holder_addr_key a t ≡ holder_addr_key b t → a ≡ b
unfolding holder_addr_key
holder_addr_key_injective t a b h k e = part_eq b a t k h (
    rw (← append_cancel prefix_holder_addr _ _ e)
      (has_prefix_drop a (b':' ∷ []) (b':' ∷ t) ∙ has_prefix-append (b':' ∷ []) t))

-- The row of an address under one token is not that of any address under another.
pub holder_addr_key_token :
    (t u a b : Bytes) → IsPlain a → IsPlain b → holder_addr_key a t ≡ holder_addr_key b u → t ≡ u
unfolding holder_addr_key
holder_addr_key_token t u a b h k e =
    let f : a ++ b':' ∷ t ≡ b ++ b':' ∷ u = append_cancel prefix_holder_addr _ _ e in
    let same : a ≡ b =
      part_eq b a u k h
        (rw (← f) (has_prefix_drop a (b':' ∷ []) (b':' ∷ t) ∙ has_prefix-append (b':' ∷ []) t)) in
    let g : a ++ b':' ∷ t ≡ a ++ b':' ∷ u = f ∙ ap (λ x. x ++ b':' ∷ u) (sym same) in
    let r : b':' ∷ t ≡ b':' ∷ u = append_cancel a _ _ g in cc

pub holder_key-ne-holder_addr_key : (t a b u : Bytes) → holder_key t a ≢ holder_addr_key b u
unfolding holder_key holder_addr_key
holder_key-ne-holder_addr_key t a b u e = ground arith

pub holder_key-ne-token_meta_key : (t a u : Bytes) → holder_key t a ≢ token_meta_key u
unfolding holder_key token_meta_key
holder_key-ne-token_meta_key t a u e = ground arith

pub holder_key-ne-event_key : (t a : Bytes) (b i : ℕ) → holder_key t a ≢ event_key b i
unfolding holder_key event_key
holder_key-ne-event_key t a b i e = ground arith

pub holder_addr_key-ne-token_meta_key : (a t u : Bytes) → holder_addr_key a t ≢ token_meta_key u
unfolding holder_addr_key token_meta_key
holder_addr_key-ne-token_meta_key a t u e = ground arith

pub holder_addr_key-ne-event_key : (a t : Bytes) (b i : ℕ) → holder_addr_key a t ≢ event_key b i
unfolding holder_addr_key event_key
holder_addr_key-ne-event_key a t b i e = ground arith

pub token_meta_key-ne-event_key : (t : Bytes) (b i : ℕ) → token_meta_key t ≢ event_key b i
unfolding token_meta_key event_key
token_meta_key-ne-event_key t b i e = ground arith

pub token_meta_key_injective : (t u : Bytes) → token_meta_key t ≡ token_meta_key u → t ≡ u
unfolding token_meta_key
token_meta_key_injective t u e = append_cancel prefix_token_meta t u e

-- The rows of the other kinds are no holder rows.
pub has_prefix-holder_addr_key :
    (t a u : Bytes) → has_prefix (holder_prefix t) (holder_addr_key a u) ≡ false
unfolding holder_prefix holder_addr_key has_prefix
has_prefix-holder_addr_key t a u = refl

pub has_prefix-token_meta_key :
    (t u : Bytes) → has_prefix (holder_prefix t) (token_meta_key u) ≡ false
unfolding holder_prefix token_meta_key has_prefix
has_prefix-token_meta_key t u = refl

pub has_prefix-event_key :
    (t : Bytes) (b i : ℕ) → has_prefix (holder_prefix t) (event_key b i) ≡ false
unfolding holder_prefix event_key has_prefix
has_prefix-event_key t b i = refl
