-- ===== src/Indexer/Recording/Keeps.antt =====
-- `recordGenericEvent` and the rows of other kinds.
use agro_diamond_compliance.Prelude.{ℕ, ◌≡◌, ◌≢◌, ◌∙◌, Option, [], ◌∷◌}
use agro_diamond_compliance.Bytes.{Bytes}
use agro_diamond_compliance.Json.{Object}
use agro_diamond_compliance.Action.{Action, Returns, ◌>>◌}
use agro_diamond_compliance.Action.Returning.{logged-Returns, then-Returns}
use agro_diamond_compliance.Ethereum.{Ethereum}
use agro_diamond_compliance.Node.{Log}
use agro_diamond_compliance.RocksDb.{RocksDb, IsReliable}
use agro_diamond_compliance.RocksDb.Entries.{Value, raw, object, lookup}
use agro_diamond_compliance.Store.Keys.{generic_event_key, ge_token_key, ge_addr_key}
use agro_diamond_compliance.Store.Records.{GenericEvent, marshal_generic_event}
use agro_diamond_compliance.Store.Events.{
  put_generic_event, put_index, index_of_token, index_of_address,
}
use agro_diamond_compliance.Store.Ledger.Frame.{lookup-insert_ne}
use agro_diamond_compliance.Indexer.Recording.{generic_event, record_generic_event}

-- A key of no protocol event and of none of its indexes.
pub record IsNoEvent (key : Bytes) : Type 0 where
  pub not_event : (b i : ℕ) → generic_event_key b i ≢ key
  pub not_token_row : (b i : ℕ) (x : Bytes) → ge_token_key x b i ≢ key
  pub not_addr_row : (b i : ℕ) (x : Bytes) → ge_addr_key x b i ≢ key

module _ (db : RocksDb) (L : IsReliable db) (key : Bytes) (apart : IsNoEvent key) where
  open db use {State, put}

  -- What is stored under the key.
  abbrev pub Holds : Option Value → State → Type 0
  Holds o s = lookup key (L.entries s) ≡ o

  -- The call returns, and keeps what is stored.
  abbrev Keeps : Action State (Unit {0}) → Type 0
  Keeps m = (o : Option Value) (s : State) → Holds o s → Returns (m s) (Holds o)

  put-Keeps : (k : Bytes) (x : Value) → k ≢ key → Keeps (put k x)
  put-Keeps k x other o s h =
      rw (L.put_lem k x s)
        (rw (L.entries-write k x s) (lookup-insert_ne k key x (L.entries s) other ∙ h))

  then-Keeps : (m k : Action State (Unit {0})) → Keeps m → Keeps k → Keeps (m >> k)
  then-Keeps m k h j o s e = then-Returns (m s) k (Holds o) (Holds o) s (h o s e) (j o)

  put_index-Keeps :
      (row : Bytes → Bytes) (text primary : Bytes)
      → ((x : Bytes) → row x ≢ key)
      → Keeps (put_index db row text primary)
  unfolding put_index
  put_index-Keeps row [] primary other o s h = h
  put_index-Keeps row (c ∷ x) primary other o s h =
      put-Keeps (row (c ∷ x)) (raw primary) (other (c ∷ x)) o s h

  put_generic_event-Keeps : (e : GenericEvent) → Keeps (put_generic_event db e)
  unfolding put_generic_event index_of_token index_of_address
  put_generic_event-Keeps e =
      then-Keeps (put (generic_event_key e.block e.log_index) (object (marshal_generic_event e)))
        (index_of_token db e >> index_of_address db e)
        (put-Keeps _ _ (apart.not_event e.block e.log_index))
        (then-Keeps (index_of_token db e) (index_of_address db e)
          (put_index-Keeps (λ x. ge_token_key x e.block e.log_index) e.token_id _
            (apart.not_token_row e.block e.log_index))
          (put_index-Keeps (λ a. ge_addr_key a e.block e.log_index) e.address _
            (apart.not_addr_row e.block e.log_index)))

  pub record_generic_event-Keeps :
      (eth : Ethereum) (log : Log) (event_type id a : Bytes) (extra : Option Object)
      → Keeps (record_generic_event db eth log event_type id a extra)
  unfolding record_generic_event
  record_generic_event-Keeps eth log event_type id a extra o s h =
      let e = generic_event eth log event_type id a extra in
      logged-Returns (put_generic_event db e s) (Holds o) s (put_generic_event-Keeps e o s h)
