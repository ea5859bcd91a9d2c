-- ===== src/Store/Events.antt =====
-- Transfer events (EVENTS) and events of the protocol (GENERIC EVENTS).
pub mod Recent
pub mod OfToken
pub mod OfIndex
pub mod Indexed
use agro_diamond_compliance.Prelude.{
  ℕ, ◌+◌, ◌-◌, ◌*◌, ◌%◌, ◌^◌, ◌&&◌, Option, none, some, List, [], ◌∷◌, ◌++◌, reverse, ◌==◌,
  bytes_eq, ltb, if◌then◌else◌,
}
use agro_diamond_compliance.Prelude.Int.{ℤ, pos, negsuc}
use agro_diamond_compliance.Bytes.{Bytes, codes, has_prefix}
use agro_diamond_compliance.Action.{Action, ok, err, panic, pure, ◌>>=◌, ◌>>◌}
use agro_diamond_compliance.RocksDb.{RocksDb}
use agro_diamond_compliance.RocksDb.Entries.{raw, object, Rows}
use agro_diamond_compliance.Store.Keys.{
  prefix_event, prefix_generic_event, prefix_ge_token, prefix_ge_addr, event_key, generic_event_key,
  ge_token_key, ge_addr_key,
}
use agro_diamond_compliance.Store.Records.{
  TransferEvent, GenericEvent, marshal_transfer_event, unmarshal_transfer_event,
  marshal_generic_event, unmarshal_generic_event,
}
use agro_diamond_compliance.Store.Values.{as_string, decoded, below_limit, push, collect_back}

-- `int(n)` of a `uint64`.
unfoldable pub signed : ℕ → ℤ
signed n = if ltb n (2 ^ 63) then pos n else negsuc (2 ^ 64 - n - 1)

-- `limit * 5` in a 64-bit `int`, which wraps around.
unfoldable pub overscan : ℤ → ℤ
unfolding signed
overscan (pos n) = signed (n * 5 % 2 ^ 64)
overscan (negsuc n) = signed (2 ^ 64 - 1 - (n * 5 + 4) % 2 ^ 64)

-- The loop of `GetTokenEvents`: it stops at the event that reaches the limit.
unfoldable pub filter_token :
    Bytes → ℤ → List TransferEvent → List TransferEvent → List TransferEvent
unfolding below_limit
filter_token token_id limit filtered [] = filtered
filter_token token_id limit filtered (e ∷ events) =
    let filtered' = filtered ++ e ∷ [] in
    let found = filter_token token_id limit filtered' events in
    let rest = filter_token token_id limit filtered events in
    if e.token_id == token_id
    then (if below_limit filtered' limit then found else filtered')
    else rest

-- `if eventType != "" && evt.EventType != eventType { continue }`
unfoldable pub of_type : Bytes → Option GenericEvent → Option GenericEvent
of_type event_type none = none
of_type [] (some e) = some e
of_type (c ∷ t) (some e) = if e.event_type == c ∷ t then some e else none

-- `endPrefix[len(endPrefix)-1]++`; `none` is the panic of an index out of range.
unfoldable pub bump_last : Bytes → Option Bytes
bump_last [] = none
bump_last (c ∷ []) = some ((c + 1) % 256 ∷ [])
bump_last (c ∷ d ∷ rest) = elim (bump_last (d ∷ rest)) [ none ↦ none | some r ↦ some (c ∷ r) ]

module _ (db : RocksDb) where
  open db use {State, get, put, seek_back}

  unfoldable pub put_event : TransferEvent → Action State (Unit {0})
  put_event e = put (event_key e.block e.log_index) (object (marshal_transfer_event e))

  unfoldable pub get_recent_events : ℤ → Action State (List TransferEvent)
  get_recent_events limit s =
      ok
        (reverse (
          collect_back prefix_event (decoded unmarshal_transfer_event) limit []
            (seek_back s (codes "e;"))))
        s

  unfoldable pub get_token_events : Bytes → ℤ → Action State (List TransferEvent)
  get_token_events token_id limit = do
    events ← get_recent_events (overscan limit)
    pure (filter_token token_id limit [] events)

  -- A row of a secondary index, unless the indexed text is empty.
  unfoldable pub put_index : (Bytes → Bytes) → Bytes → Bytes → Action State (Unit {0})
  put_index key [] primary = pure tt
  put_index key (c ∷ s) primary = put (key (c ∷ s)) (raw primary)

  unfoldable pub index_of_token : GenericEvent → Action State (Unit {0})
  unfolding put_index
  index_of_token e =
      put_index (λ t. ge_token_key t e.block e.log_index) e.token_id
        (generic_event_key e.block e.log_index)

  unfoldable pub index_of_address : GenericEvent → Action State (Unit {0})
  unfolding put_index
  index_of_address e =
      put_index (λ a. ge_addr_key a e.block e.log_index) e.address
        (generic_event_key e.block e.log_index)

  unfoldable pub put_generic_event : GenericEvent → Action State (Unit {0})
  unfolding index_of_token index_of_address
  put_generic_event e = do
    put (generic_event_key e.block e.log_index) (object (marshal_generic_event e))
    index_of_token e
    index_of_address e

  -- The event that an index row refers to; `none` where the loop goes on without it.
  read_primary : Bytes → Bytes → Action State (Option GenericEvent)
  read_primary event_type key s = elim (get key s) [
    | ok found s' ↦
        ok
          (elim found [
            | none ↦ none
            | some v ↦ of_type event_type (decoded unmarshal_generic_event v)
          ])
          s'
    | err e s' ↦ ok none s'
    | panic s' ↦ panic s'
  ]

  collect_index : Bytes → ℤ → Bytes → List GenericEvent → Rows → Action State (List GenericEvent)
  unfolding read_primary has_prefix below_limit
  collect_index prefix limit event_type events [] = pure events
  collect_index prefix limit event_type events ((k, v) ∷ rows) =
      let rest : Action State (List GenericEvent) = (do
        found ← read_primary event_type (as_string v)
        collect_index prefix limit event_type (push events found) rows) in
      if below_limit events limit && has_prefix prefix k then rest else pure events

  unfoldable pub get_protocol_events_by_index : Bytes → ℤ → Bytes → Action State (List GenericEvent)
  unfolding collect_index
  get_protocol_events_by_index prefix limit event_type s = elim (bump_last prefix) [
    | none ↦ panic s
    | some end_prefix ↦
        (do
          events ← collect_index prefix limit event_type [] (seek_back s end_prefix)
          pure (reverse events))
          s
  ]

  unfoldable pub all_protocol_events : ℤ → Bytes → Action State (List GenericEvent)
  all_protocol_events limit event_type s =
      ok
        (reverse (
          collect_back prefix_generic_event
            (λ v. of_type event_type (decoded unmarshal_generic_event v)) limit []
            (seek_back s (codes "ge;"))))
        s

  -- The index of the token is preferred to that of the address.
  unfoldable pub get_protocol_events : ℤ → Bytes → Bytes → Bytes → Action State (List GenericEvent)
  unfolding get_protocol_events_by_index all_protocol_events
  get_protocol_events limit event_type [] [] = all_protocol_events limit event_type
  get_protocol_events limit event_type [] (c ∷ a) =
      get_protocol_events_by_index (prefix_ge_addr ++ ((c ∷ a) ++ b':' ∷ [])) limit event_type
  get_protocol_events limit event_type (c ∷ t) address =
      get_protocol_events_by_index (prefix_ge_token ++ ((c ∷ t) ++ b':' ∷ [])) limit event_type
