-- ===== src/Indexer/Dispatch/Cursor.antt =====
-- `handleLog` and the cursor.
use agro_diamond_compliance.Prelude.{
  ℕ, ◌^◌, ◌<◌, ◌≡◌, refl, ap, ◌∙◌, Option, List, [], ◌∷◌, Bool, false, ◌||◌, arith, ◌==◌, bytes_eq,
}
use agro_diamond_compliance.Bytes.{Bytes}
use agro_diamond_compliance.Bytes.Decimal.{format_uint}
use agro_diamond_compliance.Action.{Outcome, Returns, ok, logged, ◌>>=◌, ◌>>◌}
use agro_diamond_compliance.Ethereum.{Ethereum}
use agro_diamond_compliance.Node.{Log, Node}
use agro_diamond_compliance.RocksDb.{RocksDb, IsReliable}
use agro_diamond_compliance.RocksDb.Entries.{raw}
use agro_diamond_compliance.Store.Keys.{prefix_cursor}
use agro_diamond_compliance.Store.Cursor.{get_cursor}
use agro_diamond_compliance.Store.Cursor.RoundTrip.{get_cursor-write, set_cursor_lem}
use agro_diamond_compliance.Indexer.Dispatch.{
  Handler, handle_log, handlers, dispatch, handle_topics,
}

module _ (db : RocksDb) (L : IsReliable db) (eth : Ethereum) (diamond : Bytes)
    (client : Option Node) where
  open db use {State}

  abbrev pub Dispatched : Bytes → List Bytes → Log → State → Outcome State (Unit {0})
  Dispatched sig topics log s =
      dispatch db eth diamond client (handlers db eth diamond client) sig (sig ∷ topics) log s

  -- The state behind `SetCursor`.
  abbrev pub cursor_at : ℕ → State → State
  cursor_at n s = L.write prefix_cursor (raw (format_uint n)) s

  abbrev pub with_topics : List Bytes → Log → State → Outcome State (Unit {0})
  with_topics topics log s = handle_topics db eth diamond client topics log s

  pub with_topics_lem :
      (sig : Bytes) (topics : List Bytes) (log : Log) (s s' : State)
      → Dispatched sig topics log s ≡ ok tt s'
      → with_topics (sig ∷ topics) log s ≡ ok tt (cursor_at log.block_number s')
  unfolding handle_topics
  with_topics_lem sig topics log s s' f = rw (◌>>◌, ◌>>=◌, f, logged, set_cursor_lem db L) refl

  pub handle_log_lem :
      (topics : List Bytes) (log : Log) (s : State)
      → log.topics ≡ topics
      → handle_log db eth diamond client log s ≡ with_topics topics log s
  unfolding handle_log
  handle_log_lem topics log s e = ap (λ t. with_topics t log s) e

  -- A log without topics changes nothing.
  pub handle_log-anonymous :
      (log : Log) (s : State) → log.topics ≡ [] → handle_log db eth diamond client log s ≡ ok tt s
  unfolding handle_topics
  handle_log-anonymous log s e = handle_log_lem [] log s e

  -- On a reliable database, a log with topics and a `uint64` block, whose handler returns,
  -- leaves its block as the cursor.
  pub handle_log-get_cursor :
      (sig : Bytes) (topics : List Bytes) (log : Log) (s s' : State)
      → log.topics ≡ sig ∷ topics
      → Dispatched sig topics log s ≡ ok tt s'
      → log.block_number < 2 ^ 64
      → Returns
          (handle_log db eth diamond client log s)
          λ s''. get_cursor db s'' ≡ ok log.block_number s''
  handle_log-get_cursor sig topics log s s' e f h =
      rw (handle_log_lem (sig ∷ topics) log s e ∙ with_topics_lem sig topics log s s' f)
        (get_cursor-write db L log.block_number s' h)

  -- Whether a topic is the hash of one of the signatures.
  unfoldable pub is_known : List (Bytes × Handler db eth diamond client) → Bytes → Bool
  is_known [] sig = false
  is_known ((name, _) ∷ list) sig = sig == eth.keccak256_hash name || is_known list sig

  dispatch-unknown :
      (list : List (Bytes × Handler db eth diamond client)) (sig : Bytes) (topics : List Bytes)
      (log : Log) (s : State)
      → is_known list sig ≡ false
      → dispatch db eth diamond client list sig topics log s ≡ ok tt s
  unfolding dispatch is_known
  dispatch-unknown [] sig topics log s h = refl
  dispatch-unknown ((name, handler) ∷ list) sig topics log s h =
      ground (arith, dispatch-unknown list sig topics log s)

  -- On a reliable database, a log whose first topic is the hash of no known signature writes
  -- its block as the cursor, and nothing else.
  pub handle_log-unknown :
      (sig : Bytes) (topics : List Bytes) (log : Log) (s : State)
      → log.topics ≡ sig ∷ topics
      → is_known (handlers db eth diamond client) sig ≡ false
      → handle_log db eth diamond client log s
        ≡ ok tt (L.write prefix_cursor (raw (format_uint log.block_number)) s)
  handle_log-unknown sig topics log s e h =
      handle_log_lem (sig ∷ topics) log s e
      ∙ with_topics_lem sig topics log s s
          (dispatch-unknown (handlers db eth diamond client) sig (sig ∷ topics) log s h)
