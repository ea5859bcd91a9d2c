-- ===== src/Action.antt =====
-- The effect of a Go function: it works on a state, and returns a value, returns an error or
-- panics. What was written before an error or a panic stays written.
pub mod Returning
use agro_diamond_compliance.Bytes.{Bytes}

pub data Error : Type 0 where
  -- raised by a package outside the repository
  fault : Bytes → Error
  -- of `json.Unmarshal` and of `fmt.Sscanf`
  unmarshal : Error
  bad_format : Error
  -- of `fmt.Errorf`, with and without `%w`
  message : Bytes → Error
  wrapped : Bytes → Error → Error

pub data Outcome (S A : Type 0) : Type 0 where
  ok : A → S → Outcome S A
  err : Error → S → Outcome S A
  panic : S → Outcome S A

abbrev pub Action : Type 0 → Type 0 → Type 0
Action S A = S → Outcome S A

abbrev pub pure : {S A : Type 0} → A → Action S A
pure a s = ok a s

abbrev pub raise : {S A : Type 0} → Error → Action S A
raise e s = err e s

infixl 5 ◌>>=◌ ◌>>◌
abbrev pub ◌>>=◌ : {S A B : Type 0} → Action S A → (A → Action S B) → Action S B
◌>>=◌ m f s = elim (m s) [ ok a s' ↦ f a s' | err e s' ↦ err e s' | panic s' ↦ panic s' ]

abbrev pub ◌>>◌ : {S A B : Type 0} → Action S A → Action S B → Action S B
m >> k = m >>= λ _. k

-- `if err != nil { log…; return }` in a function without results: the error is logged and dropped.
abbrev pub logged : {S : Type 0} → Action S (Unit {0}) → Action S (Unit {0})
logged m s = elim (m s) [ ok _ s' ↦ ok tt s' | err _ s' ↦ ok tt s' | panic s' ↦ panic s' ]

-- `value, _ := …`: with an error there is the value that the function returns beside it.
abbrev pub or_value : {S A : Type 0} → A → Action S A → Action S A
or_value a m s = elim (m s) [ ok b s' ↦ ok b s' | err _ s' ↦ ok a s' | panic s' ↦ panic s' ]

-- The state that an action leaves.
abbrev pub final : {S A : Type 0} → Outcome S A → S
final (ok a s) = s
final (err e s) = s
final (panic s) = s

-- The call returns, and `P` holds of the state that it leaves.
abbrev pub Returns : {S A : Type 0} → Outcome S A → (S → Type 0) → Type 0
Returns (ok a s) P = P s
Returns (err e s) P = ⊥
Returns (panic s) P = ⊥
