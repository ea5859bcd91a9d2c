-- ===== src/Bytes/Order.antt =====
-- The bytewise order is a strict linear order, and a prefix bounds an interval of it.
use agro_diamond_compliance.Prelude.{◌≡◌, refl, ◌≢◌, true, false, [], ◌∷◌, ◌++◌, arith}
use agro_diamond_compliance.Bytes.{Bytes, less, has_prefix}

pub less_irrefl : (a : Bytes) → less a a ≡ false
unfolding less
less_irrefl [] = refl
less_irrefl (x ∷ a) = ground (arith, less_irrefl a)

pub less_trans : (a b c : Bytes) → less a b ≡ true → less b c ≡ true → less a c ≡ true
unfolding less
less_trans [] [] c h k = cc
less_trans [] (y ∷ b) [] h k = cc
less_trans [] (y ∷ b) (z ∷ c) h k = refl
less_trans (x ∷ a) [] c h k = cc
less_trans (x ∷ a) (y ∷ b) [] h k = cc
less_trans (x ∷ a) (y ∷ b) (z ∷ c) h k = ground (arith, less_trans a b c)

pub less_asymm : (a b : Bytes) → less a b ≡ true → less b a ≡ false
unfolding less
less_asymm [] [] h = refl
less_asymm [] (y ∷ b) h = refl
less_asymm (x ∷ a) [] h = cc
less_asymm (x ∷ a) (y ∷ b) h = ground (arith, less_asymm a b)

pub less_total : (a b : Bytes) → a ≢ b → less a b ≡ false → less b a ≡ true
unfolding less
less_total [] [] n h = absurd (n refl)
less_total [] (y ∷ b) n h = cc
less_total (x ∷ a) [] n h = refl
less_total (x ∷ a) (y ∷ b) n h = ground (arith, less_total a b)

-- A key with prefix `p` is not below `p`.
pub less-has_prefix : (p k : Bytes) → has_prefix p k ≡ true → less k p ≡ false
unfolding less has_prefix
less-has_prefix [] [] h = refl
less-has_prefix [] (y ∷ k) h = refl
less-has_prefix (x ∷ p) [] h = cc
less-has_prefix (x ∷ p) (y ∷ k) h = ground (arith, less-has_prefix p k)

-- Behind a key that is past the prefix's keys, no key has the prefix.
pub has_prefix_past :
    (p j k : Bytes)
    → less j p ≡ false
    → has_prefix p j ≡ false
    → less j k ≡ true
    → has_prefix p k ≡ false
unfolding less has_prefix
has_prefix_past [] j k h n l = cc
has_prefix_past (x ∷ p) [] k h n l = cc
has_prefix_past (x ∷ p) (y ∷ j) [] h n l = refl
has_prefix_past (x ∷ p) (y ∷ j) (z ∷ k) h n l = ground (arith, has_prefix_past p j k)

pub has_prefix-append : (p s : Bytes) → has_prefix p (p ++ s) ≡ true
unfolding has_prefix
has_prefix-append [] s = refl
has_prefix-append (x ∷ p) s = ground (arith, has_prefix-append p s)

pub less-append : (p a b : Bytes) → less (p ++ a) (p ++ b) ≡ less a b
unfolding less
less-append [] a b = refl
less-append (x ∷ p) a b = ground (arith, less-append p a b)
