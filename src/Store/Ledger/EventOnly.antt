-- ===== src/Store/Ledger/EventOnly.antt =====
-- `RecordEventOnly`, which forced transfers use.
use agro_diamond_compliance.Prelude.{ℕ, ◌≡◌}
use agro_diamond_compliance.Prelude.Int.{ℤ}
use agro_diamond_compliance.Bytes.{Bytes}
use agro_diamond_compliance.Action.{Returns, ok}
use agro_diamond_compliance.Ethereum.{Ethereum}
use agro_diamond_compliance.RocksDb.{RocksDb, IsReliable}
use agro_diamond_compliance.Store.Keys.{event_key}
use agro_diamond_compliance.Store.Keys.Disjoint.{has_prefix-event_key}
use agro_diamond_compliance.Store.Ledger.{record_event_only}
use agro_diamond_compliance.Store.Ledger.Steps.{put_event_lem, write_event, transfer_event}
use agro_diamond_compliance.Store.Ledger.Rows.{IsLedger, supply_in, supply_in-insert}
use agro_diamond_compliance.Store.Ledger.Others.{event_key-IsForeign, write-IsLedger}

module _ (db : RocksDb) (L : IsReliable db) (eth : Ethereum) where
  record_event_only_lem :
      (t from to : Bytes) (amount : ℤ) (event_type tx : Bytes) (b i : ℕ) (s : db.State)
      → record_event_only db eth t from to amount event_type tx b i s
        ≡ ok tt (write_event db L (transfer_event db L eth t from to amount event_type tx b i) s)
  unfolding record_event_only
  record_event_only_lem t from to amount event_type tx b i s = put_event_lem db L _ s

  -- On a reliable database, an event that is only recorded returns, and keeps the ledger of
  -- every token and its supply, whatever the token, the addresses and the amount of the event.
  pub record_event_only-IsLedger :
      (u t from to : Bytes) (amount : ℤ) (event_type tx : Bytes) (b i : ℕ) (s : db.State)
      → IsLedger u (L.entries s)
      → Returns
          (record_event_only db eth t from to amount event_type tx b i s)
          λ s'. IsLedger u (L.entries s') × (supply_in u (L.entries s') ≡ supply_in u (L.entries s))
  record_event_only-IsLedger u t from to amount event_type tx b i s h =
      rw (record_event_only_lem t from to amount event_type tx b i s) (
        write-IsLedger db L u (event_key b i) _ s (event_key-IsForeign u b i) h,
        simp L.entries-write (
            supply_in-insert u (event_key b i) _ (L.entries s) (L.entries-IsSorted s)
              (has_prefix-event_key u b i)),
      )
