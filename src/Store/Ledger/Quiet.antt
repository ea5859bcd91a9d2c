-- ===== src/Store/Ledger/Quiet.antt =====
-- Calls that write rows of other kinds than the ledger's, seen from the ledger of a token.

use agro_diamond_compliance.Prelude.{ℕ, ◌≡◌, ◌≢◌, refl, ◌∙◌, ◌∷◌, arith, bytes_eq}
use agro_diamond_compliance.Bytes.{Bytes, has_prefix}
use agro_diamond_compliance.Action.{
  Action, Outcome, ok, err, panic, pure, logged, Returns, ◌>>=◌, ◌>>◌,
}
use agro_diamond_compliance.RocksDb.{RocksDb, IsReliable}
use agro_diamond_compliance.RocksDb.Entries.{Value, lookup}
use agro_diamond_compliance.Store.Keys.{holder_key, holder_prefix, holder_addr_key, token_meta_key}
use agro_diamond_compliance.Store.Ledger.Rows.{IsLedger}
use agro_diamond_compliance.Store.Ledger.Frame.{
  IsForeign, IsLedger-insert, IsLedger-erase, foreign-ne-holder_key, lookup-insert_ne,
  lookup-erase_ne,
}

-- A key of no row of any ledger.
abbrev pub IsOutside : Bytes → Type 0
IsOutside k = (t : Bytes) → IsForeign t k

-- The call ends without a panic in a state with a property.
abbrev pub Ends : {S A : Type 0} → Outcome S A → (S → Type 0) → Type 0
Ends (ok _ s) P = P s
Ends (err _ s) P = P s
Ends (panic _) P = ⊥

module _ (db : RocksDb) (L : IsReliable db) where
  open db use {State, get, put, delete}

  -- Every ledger is kept, and every balance.
  pub record Unmoved (s s' : State) : Type 0 where
    pub ledgers : (t : Bytes) → IsLedger t (L.entries s) → IsLedger t (L.entries s')
    pub rows :
        (t a : Bytes)
        → lookup (holder_key t a) (L.entries s') ≡ lookup (holder_key t a) (L.entries s)

  pub Unmoved-refl : (s : State) → Unmoved s s
  Unmoved-refl s = record { ledgers = λ t h. h; rows = λ t a. refl }

  pub Unmoved-trans : {s s' s'' : State} → Unmoved s s' → Unmoved s' s'' → Unmoved s s''
  Unmoved-trans u v = record {
    ledgers = λ t h. v.ledgers t (u.ledgers t h);
    rows = λ t a. v.rows t a ∙ u.rows t a;
  }

  -- An error may be returned, but no panic.
  abbrev pub IsQuiet : {A : Type 0} → Action State A → Type 0
  IsQuiet m = (s : State) → Ends (m s) (Unmoved s)

  -- The call returns without an error.
  abbrev pub IsSilent : {A : Type 0} → Action State A → Type 0
  IsSilent m = (s : State) → Returns (m s) (Unmoved s)

  Ends-Unmoved :
      {A : Type 0} (o : Outcome State A) {s s' : State}
      → Unmoved s s'
      → Ends o (Unmoved s')
      → Ends o (Unmoved s)
  Ends-Unmoved (ok a _) u h = Unmoved-trans u h
  Ends-Unmoved (err e _) u h = Unmoved-trans u h
  Ends-Unmoved (panic _) u h = elim h [ ]

  pub Returns-Unmoved :
      {A : Type 0} (o : Outcome State A) {s s' : State}
      → Unmoved s s'
      → Returns o (Unmoved s')
      → Returns o (Unmoved s)
  Returns-Unmoved (ok a _) u h = Unmoved-trans u h
  Returns-Unmoved (err _ _) u h = elim h [ ]
  Returns-Unmoved (panic _) u h = elim h [ ]

  Returns-Ends : {A : Type 0} (o : Outcome State A) (P : State → Type 0) → Returns o P → Ends o P
  Returns-Ends (ok a _) P h = h
  Returns-Ends (err _ _) P h = elim h [ ]
  Returns-Ends (panic _) P h = elim h [ ]

  -- The rules of composition.
  pub silent-IsQuiet : {A : Type 0} (m : Action State A) → IsSilent m → IsQuiet m
  silent-IsQuiet m h s = Returns-Ends (m s) (Unmoved s) (h s)

  pub pure-IsSilent : {A : Type 0} (a : A) → IsSilent (pure a)
  pure-IsSilent a s = Unmoved-refl s

  -- What follows an outcome, as `>>=` and `logged` do it.
  bind_at :
      {A B : Type 0} (o : Outcome State A) (f : A → Action State B) (s : State)
      → Ends o (Unmoved s)
      → ((a : A) → IsQuiet (f a))
      → Ends (((λ _. o) >>= f) s) (Unmoved s)
  bind_at (ok a s') f s h k = Ends-Unmoved (f a s') h (k a s')
  bind_at (err e s') f s h k = h
  bind_at (panic s') f s h k = h

  then_at :
      {A : Type 0} (o : Outcome State (Unit {0})) (m : Action State A) (s : State)
      → Returns o (Unmoved s)
      → IsSilent m
      → Returns (((λ _. o) >> m) s) (Unmoved s)
  then_at (ok a s') m s h k = Returns-Unmoved (m s') h (k s')
  then_at (err e s') m s h k = h
  then_at (panic s') m s h k = h

  logged_at :
      (o : Outcome State (Unit {0})) (s : State)
      → Ends o (Unmoved s)
      → Returns (logged (λ _. o) s) (Unmoved s)
  logged_at (ok a s') s h = h
  logged_at (err e s') s h = h
  logged_at (panic s') s h = h

  pub bind-IsQuiet :
      {A B : Type 0} (m : Action State A) (f : A → Action State B)
      → IsQuiet m
      → ((a : A) → IsQuiet (f a))
      → IsQuiet (m >>= f)
  bind-IsQuiet m f h k s = bind_at (m s) f s (h s) k

  pub then-IsSilent :
      {A : Type 0} (m : Action State (Unit {0})) (k : Action State A)
      → IsSilent m
      → IsSilent k
      → IsSilent (m >> k)
  then-IsSilent m k h j s = then_at (m s) k s (h s) j

  pub logged-IsSilent : (m : Action State (Unit {0})) → IsQuiet m → IsSilent (logged m)
  logged-IsSilent m h s = logged_at (m s) s (h s)

  -- The calls of the database.
  pub get-IsQuiet : (k : Bytes) → IsQuiet (get k)
  get-IsQuiet k s = rw (L.get_lem k s) (Unmoved-refl s)

  pub put-IsQuiet : (k : Bytes) (v : Value) → IsOutside k → IsQuiet (put k v)
  put-IsQuiet k v f s = rw (L.put_lem k v s) (record {
    ledgers = λ t h.
        rw (L.entries-write k v s)
          (IsLedger-insert t k v (L.entries s) (L.entries-IsSorted s) (f t) h);
    rows = λ t a.
        rw (L.entries-write k v s)
          (lookup-insert_ne k (holder_key t a) v (L.entries s) (foreign-ne-holder_key t k a (f t)));
  })

  pub delete-IsQuiet : (k : Bytes) → IsOutside k → IsQuiet (delete k)
  delete-IsQuiet k f s = rw (L.delete_lem k s) (record {
    ledgers = λ t h.
        rw (L.entries-remove k s) (IsLedger-erase t k (L.entries s) (L.entries-IsSorted s) (f t) h);
    rows = λ t a. rw (L.entries-remove k s) (
        lookup-erase_ne k (holder_key t a) (L.entries s) (L.entries-IsSorted s)
          (foreign-ne-holder_key t k a (f t)));
  })

-- The ledgers have the keys that begin with `t` and with `h`.
pub first-IsOutside : (c : ℕ) (k : Bytes) → c ≢ b't' → c ≢ b'h' → IsOutside (c ∷ k)
unfolding holder_prefix holder_addr_key token_meta_key has_prefix
first-IsOutside c k no_t no_h t = record {
  no_holder = ground arith;
  no_mirror = λ a p e. ground arith;
  not_meta = λ e. ground arith;
}
