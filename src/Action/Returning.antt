-- ===== src/Action/Returning.antt =====
-- Calls that return: properties of the state behind them, put together from those of their parts.
use agro_diamond_compliance.Prelude.{ℕ}
use agro_diamond_compliance.Action.{Action, Outcome, Returns, ok, err, panic, logged, ◌>>◌}

-- A property of the state behind a call, put together from others.
pub Returns-both :
    {S A : Type 0} (o : Outcome S A) (P Q : S → Type 0)
    → Returns o P
    → Returns o Q
    → Returns o (λ s. P s × Q s)
Returns-both (ok a s) P Q h k = (h, k)
Returns-both (err e s) P Q h k = h
Returns-both (panic s) P Q h k = h

pub Returns-all :
    {S A : Type 0} (o : Outcome S A) (P : ℕ → S → Type 0)
    → ((k : ℕ) → Returns o (P k))
    → Returns o (λ s. (k : ℕ) → P k s)
Returns-all (ok a s) P h = h
Returns-all (err e s) P h = elim (h 0) [ ]
Returns-all (panic s) P h = elim (h 0) [ ]

pub Returns-map :
    {S A : Type 0} (o : Outcome S A) (P Q : S → Type 0)
    → ((s : S) → P s → Q s)
    → Returns o P
    → Returns o Q
Returns-map (ok a s) P Q f h = f s h
Returns-map (err e s) P Q f h = h
Returns-map (panic s) P Q f h = h

-- Behind `logged` and `>>`.
pub logged-Returns :
    {S : Type 0} (o : Outcome S (Unit {0})) (P : S → Type 0) (s : S)
    → Returns o P
    → Returns (logged (λ _. o) s) P
logged-Returns (ok a s') P s h = h
logged-Returns (err e s') P s h = elim h [ ]
logged-Returns (panic s') P s h = h

pub then-Returns :
    {S : Type 0} (o : Outcome S (Unit {0})) (m : Action S (Unit {0})) (P Q : S → Type 0) (s : S)
    → Returns o P
    → ((s' : S) → P s' → Returns (m s') Q)
    → Returns (((λ _. o) >> m) s) Q
then-Returns (ok a s') m P Q s h k = k s' h
then-Returns (err e s') m P Q s h k = elim h [ ]
then-Returns (panic s') m P Q s h k = elim h [ ]
