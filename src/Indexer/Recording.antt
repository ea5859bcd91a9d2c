-- ===== src/Indexer/Recording.antt =====
-- What all handlers share: `recordGenericEvent`, and the ways in which they drop errors.
pub mod Keeps
use agro_diamond_compliance.Prelude.{Option, none, some}
use agro_diamond_compliance.Bytes.{Bytes, codes}
use agro_diamond_compliance.Json.{Object}
use agro_diamond_compliance.Json.Text.{marshal_map}
use agro_diamond_compliance.Action.{Action, ok, err, panic, logged}
use agro_diamond_compliance.Ethereum.{Ethereum}
use agro_diamond_compliance.Node.{Log}
use agro_diamond_compliance.RocksDb.{RocksDb}
use agro_diamond_compliance.Store.Records.{GenericEvent}
use agro_diamond_compliance.Store.Events.{put_generic_event}

-- `if err := m; err != nil { log…; return }`, and `k` otherwise.
abbrev pub or_return :
    {S : Type 0} → Action S (Unit {0}) → Action S (Unit {0}) → Action S (Unit {0})
or_return m k s = elim (m s) [ ok _ s' ↦ k s' | err _ s' ↦ ok tt s' | panic s' ↦ panic s' ]

-- `if x, err := m; err == nil { k(x) }`: an error is dropped.
abbrev pub with_result :
    {S A : Type 0} → Action S A → (A → Action S (Unit {0})) → Action S (Unit {0})
with_result m k s = elim (m s) [ ok a s' ↦ k a s' | err _ s' ↦ ok tt s' | panic s' ↦ panic s' ]

abbrev extra_text : Option Object → Bytes
extra_text none = codes "{}"
extra_text (some o) = marshal_map o

unfoldable pub generic_event : Ethereum → Log → Bytes → Bytes → Bytes → Option Object → GenericEvent
unfolding marshal_map
generic_event eth log event_type token_id address extra = record {
  tx_hash = eth.hash_hex log.tx_hash;
  block = log.block_number;
  log_index = log.index;
  event_type = event_type;
  token_id = token_id;
  address = address;
  data_json = extra_text extra;
}

module _ (db : RocksDb) (eth : Ethereum) where
  -- An error of `RecordGenericEvent` is logged.
  unfoldable pub record_generic_event :
      Log → Bytes → Bytes → Bytes → Option Object → Action db.State (Unit {0})
  record_generic_event log event_type token_id address extra =
      logged (put_generic_event db (generic_event eth log event_type token_id address extra))
