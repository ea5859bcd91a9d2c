-- ===== src/Indexer/Sync/Stuck.antt =====
-- `Run` on a database without a cursor.
use agro_diamond_compliance.Prelude.{
  ℕ, zero, suc, ◌≡◌, ◌≢◌, refl, ap, Bool, true, false, Option, none, some, List, [], ◌∷◌, ltb,
  if◌then◌else◌,
}
use agro_diamond_compliance.Prelude.Int.{ℤ}
use agro_diamond_compliance.Bytes.{Bytes}
use agro_diamond_compliance.Action.{Action, Outcome, ok, err, panic, pure, ◌>>=◌, ◌>>◌}
use agro_diamond_compliance.Config.{Config, all_addresses}
use agro_diamond_compliance.Ethereum.{Ethereum}
use agro_diamond_compliance.Node.{Node, Reply, reply, failed}
use agro_diamond_compliance.RocksDb.{RocksDb}
use agro_diamond_compliance.Store.Cursor.{get_cursor}
use agro_diamond_compliance.Indexer.Assets.{enrich_assets}
use agro_diamond_compliance.Indexer.Dispatch.{handle_logs}
use agro_diamond_compliance.Indexer.Sync.{
  logs, fetch, fetch_chunks, all_chunks, backfill_range, backfill_to, backfill_from, with_cursor,
  backfill, run_in, cursor_or_zero, poll_to, poll_after, poll_new_blocks, polls, after_backfill,
  run, chunks, first_block,
}
use agro_diamond_compliance.Indexer.Sync.Ends.{Small, backfill-ne-none}

module _ (db : RocksDb) (eth : Ethereum) (cfg : Config) (s : db.State)
    (unset : get_cursor db s ≡ ok 0 s) where
  open db use {State}

  no_cursor : cursor_or_zero db eth cfg s ≡ ok 0 s
  unfolding cursor_or_zero
  no_cursor = rw (cursor_or_zero, unset) refl

  poll_to-idle : (node : Node) (r : Reply ℕ) → poll_to db eth cfg node r s ≡ ok tt s
  unfolding poll_to poll_after
  poll_to-idle node (failed e) = refl
  poll_to-idle node (reply latest) = rw (◌>>=◌, no_cursor) refl

  polls-idle : (ticks : List Node) → polls db eth cfg ticks s ≡ ok tt s
  unfolding polls poll_new_blocks
  polls-idle [] = refl
  polls-idle (node ∷ ticks) =
      rw (◌>>◌, ◌>>=◌, poll_to-idle node node.block_number) (polls-idle ticks)

  -- A run that leaves the state as it is, or does not end.
  abbrev Stays : Option (Outcome State (Unit {0})) → Type 0
  Stays none = Unit
  Stays (some (ok _ s')) = s' ≡ s
  Stays (some (err _ s')) = s' ≡ s
  Stays (some (panic _)) = ⊥

  module _ (node : Node)
      (silent : (from to : ℕ) → node.filter_logs 0 from to (all_addresses cfg) ≡ reply []) where
    fetch-nothing : (from to : ℕ) → fetch node (all_addresses cfg) from to 0 5 ≡ logs []
    unfolding fetch
    fetch-nothing from to = rw (fetch, silent from to) refl

    fetch_chunks-nothing : (ranges : List (ℕ × ℕ)) → fetch_chunks db eth cfg node ranges s ≡ ok tt s
    unfolding fetch_chunks handle_logs
    fetch_chunks-nothing [] = refl
    fetch_chunks-nothing ((from, to) ∷ more) =
        rw (fetch_chunks, fetch-nothing from to) (fetch_chunks-nothing more)

    all_chunks-Stays :
        (ranges : Option (List (ℕ × ℕ)))
        → Stays (run_in db eth cfg s (all_chunks db eth cfg node ranges))
    unfolding all_chunks
    all_chunks-Stays none = tt
    all_chunks-Stays (some ranges) = rw (fetch_chunks-nothing ranges) refl

    choice-Stays :
        (b : Bool) (x y : Option (Action State (Unit {0})))
        → Stays (run_in db eth cfg s x)
        → Stays (run_in db eth cfg s y)
        → Stays (run_in db eth cfg s (if b then x else y))
    choice-Stays true x y h k = h
    choice-Stays false x y h k = k

    backfill_to-Stays :
        (from : ℕ) (r : Reply ℕ) → Stays (run_in db eth cfg s (backfill_to db eth cfg node from r))
    unfolding backfill_to backfill_range
    backfill_to-Stays from (failed e) = refl
    backfill_to-Stays from (reply latest) =
        choice-Stays (ltb latest from) (some (pure tt)) (backfill_range db eth cfg node from latest)
          refl (all_chunks-Stays (chunks (suc latest) from latest))

    backfill_from-Stays :
        (from : ℕ) → Stays (run_in db eth cfg s (backfill_from db eth cfg node from))
    unfolding backfill_from
    backfill_from-Stays zero = refl
    backfill_from-Stays (suc n) = backfill_to-Stays (suc n) node.block_number

    backfill-Stays : Stays (backfill db eth cfg node s)
    unfolding backfill with_cursor
    backfill-Stays = rw no_cursor (backfill_from-Stays (first_block cfg.start_block 0))

    after_backfill-idle :
        (o : Option (Outcome State (Unit {0}))) (ticks : List Node)
        → o ≢ none
        → Stays o
        → after_backfill db eth cfg o ticks ≡ some (ok tt s)
    unfolding after_backfill
    after_backfill-idle none ticks n h = absurd (n refl)
    after_backfill-idle (some (ok _ s')) ticks n h = rw h (ap some (polls-idle ticks))
    after_backfill-idle (some (err _ s')) ticks n h = rw h (ap some (polls-idle ticks))
    after_backfill-idle (some (panic s')) ticks n h = elim h [ ]

    -- From a state without a cursor, in which no asset is enriched: when the backfill gets no logs
    -- for any range, and a latest block at least 1001 below 2^64 or none, then `Run` ends with the
    -- state unchanged, whatever the node answers at the ticks.
    pub run-stuck :
        (ticks : List Node) (other : Bytes → ℤ)
        → Small node.block_number
        → enrich_assets db eth cfg.diamond_address (some node) other s ≡ ok tt s
        → run db eth cfg node ticks other s ≡ some (ok tt s)
    unfolding run
    run-stuck ticks other small named =
        rw (run, named)
          (after_backfill-idle (backfill db eth cfg node s) ticks
            (backfill-ne-none db eth cfg node s small) backfill-Stays)
