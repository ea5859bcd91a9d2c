-- ===== src/Indexer/Sync/Retries.antt =====
-- The tries of one query in `backfill`.
use agro_diamond_compliance.Prelude.{ℕ, zero, suc, ◌+◌, ◌<◌, ◌≤◌, ◌≡◌, refl, ap, ◌∙◌, List, arith}
use agro_diamond_compliance.Bytes.{Bytes}
use agro_diamond_compliance.Action.{Error, wrapped}
use agro_diamond_compliance.Node.{Log, Node, reply, failed}
use agro_diamond_compliance.Indexer.Sync.{logs, stop, fetch, retries_text}

module _ (node : Node) (addresses : List Bytes) (from to : ℕ) where
  -- The try fails with an error, and the context is not done.
  abbrev pub Fails : ℕ → Error → Type 0
  Fails n e = (node.filter_logs n from to addresses ≡ failed e) × (node.cancelled n ≡ reply tt)

  fetch-next :
      (n left : ℕ) (e : Error)
      → Fails n e
      → fetch node addresses from to n (suc left) ≡ fetch node addresses from to (suc n) left
  unfolding fetch
  fetch-next n left e (f, g) = rw (fetch, f, g) refl

  fetch-now :
      (n left : ℕ) (found : List Log)
      → node.filter_logs n from to addresses ≡ reply found
      → fetch node addresses from to n left ≡ logs found
  unfolding fetch
  fetch-now n zero found e = rw (fetch, e) refl
  fetch-now n (suc left) found e = rw (fetch, e) refl

  -- A query that fails some times, while the context is not done, and is then answered, within
  -- the tries that are left, returns the logs of that answer.
  pub fetch-answered :
      (k n left : ℕ) (cause : ℕ → Error) (found : List Log)
      → k ≤ left
      → ((j : ℕ) → n ≤ j → j < n + k → Fails j (cause j))
      → node.filter_logs (n + k) from to addresses ≡ reply found
      → fetch node addresses from to n left ≡ logs found
  fetch-answered zero n left cause found h f e =
      fetch-now n left found (ap (λ j. node.filter_logs j from to addresses) (omega arith) ∙ e)
  fetch-answered (suc k) n zero cause found h f e = let no : ⊥ = omega arith in elim no [ ]
  fetch-answered (suc k) n (suc left) cause found h f e =
      fetch-next n left (cause n) (f n (omega arith) (omega arith))
      ∙ fetch-answered k (suc n) left cause found (omega arith)
          (λ j l u. f j (omega arith) (omega arith))
          (ap (λ j. node.filter_logs j from to addresses) (omega arith) ∙ e)

  -- A query that fails at every try, while the context is not done, ends in the error of the
  -- last one.
  pub fetch-exhausted :
      (n left : ℕ) (cause : ℕ → Error)
      → ((j : ℕ) → n ≤ j → j ≤ n + left → Fails j (cause j))
      → fetch node addresses from to n left
        ≡ stop (wrapped (retries_text from to) (cause (n + left)))
  unfolding fetch
  fetch-exhausted n zero cause f =
      let (failing, alive) = f n (omega arith) (omega arith) in
      rw (fetch, failing, alive)
        (ap (λ j. stop (wrapped (retries_text from to) (cause j))) (omega arith))
  fetch-exhausted n (suc left) cause f =
      fetch-next n left (cause n) (f n (omega arith) (omega arith))
      ∙ (fetch-exhausted (suc n) left cause (λ j l u. f j (omega arith) (omega arith))
          ∙ ap (λ j. stop (wrapped (retries_text from to) (cause j))) (omega arith))
