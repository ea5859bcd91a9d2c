-- ===== src/Indexer/Sync/Ends.antt =====
-- The run of `backfill` and the fuel of its loop.
use agro_diamond_compliance.Prelude.{
  ℕ, zero, suc, ◌+◌, ◌^◌, ◌<◌, refl, ◌≢◌, subst, Option, none, some, List, arith,
}
use agro_diamond_compliance.Action.{Action, Outcome, ok, err, panic}
use agro_diamond_compliance.Config.{Config}
use agro_diamond_compliance.Ethereum.{Ethereum}
use agro_diamond_compliance.Node.{Node, Reply, reply, failed}
use agro_diamond_compliance.RocksDb.{RocksDb}
use agro_diamond_compliance.Indexer.Sync.{
  chunks, all_chunks, backfill_range, backfill_to, backfill_from, with_cursor, backfill,
  cursor_or_zero, first_block, run_in,
}
use agro_diamond_compliance.Indexer.Sync.Chunks.{Tiles, chunks-Tiles}

-- A block number that is answered is at least 1001 below 2^64.
abbrev pub Small : Reply ℕ → Type 0
Small (reply latest) = latest + 1001 < 2 ^ 64
Small (failed _) = Unit

module _ (db : RocksDb) (eth : Ethereum) (cfg : Config) (node : Node) where
  all_chunks-ne :
      (list : Option (List (ℕ × ℕ))) → list ≢ none → all_chunks db eth cfg node list ≢ none
  unfolding all_chunks
  all_chunks-ne none h e = h refl
  all_chunks-ne (some list) h e = ground arith

  backfill_range-ne :
      (n latest : ℕ) → latest + 1001 < 2 ^ 64 → backfill_range db eth cfg node (suc n) latest ≢ none
  unfolding backfill_range
  backfill_range-ne n latest h =
      all_chunks-ne (chunks (suc latest) (suc n) latest)
        (λ e. subst (Tiles (suc n) latest) e (chunks-Tiles latest (suc n) latest h (omega arith)))

  backfill_to-ne : (n : ℕ) (r : Reply ℕ) → Small r → backfill_to db eth cfg node (suc n) r ≢ none
  unfolding backfill_to
  backfill_to-ne n (failed e) h = λ f. ground arith
  backfill_to-ne n (reply latest) h = ground (arith, backfill_range-ne n latest h)

  backfill_from-ne : (n : ℕ) → Small node.block_number → backfill_from db eth cfg node n ≢ none
  unfolding backfill_from
  backfill_from-ne zero h = λ f. ground arith
  backfill_from-ne (suc n) h = backfill_to-ne n node.block_number h

  run_in-ne :
      (s : db.State) (o : Option (Action db.State (Unit {0})))
      → o ≢ none
      → run_in db eth cfg s o ≢ none
  run_in-ne s none h e = h refl
  run_in-ne s (some m) h e = ground arith

  with_cursor-ne :
      (o : Outcome db.State ℕ) → Small node.block_number → with_cursor db eth cfg node o ≢ none
  unfolding with_cursor
  with_cursor-ne (ok cursor s) h =
      run_in-ne s _ (backfill_from-ne (first_block cfg.start_block cursor) h)
  with_cursor-ne (err e s) h = λ f. ground arith
  with_cursor-ne (panic s) h = λ f. ground arith

  -- From every state of the database, and whatever it and the node answer, `backfill` ends if the
  -- latest block is at least 1001 below 2^64: the fuel of its loop is enough.
  pub backfill-ne-none :
      (s : db.State) → Small node.block_number → backfill db eth cfg node s ≢ none
  unfolding backfill
  backfill-ne-none s h = with_cursor-ne (cursor_or_zero db eth cfg s) h
