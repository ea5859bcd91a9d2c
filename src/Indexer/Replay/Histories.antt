-- ===== src/Indexer/Replay/Histories.antt =====
-- `handleLog` on one log after another, and the holdings that the logs lead to.
use agro_diamond_compliance.Prelude.{Option, List, ◌∷◌}
use agro_diamond_compliance.Bytes.{Bytes}
use agro_diamond_compliance.Action.{Returns}
use agro_diamond_compliance.Ethereum.{Ethereum, IsLawful}
use agro_diamond_compliance.Node.{Log, Node}
use agro_diamond_compliance.Action.Returning.{then-Returns}
use agro_diamond_compliance.RocksDb.{RocksDb, IsReliable}
use agro_diamond_compliance.Store.Ledger.Holdings.{Holdings, move_units}
use agro_diamond_compliance.Indexer.Dispatch.{handle_log, handle_logs}
use agro_diamond_compliance.Indexer.Replay.{IsDistinct, Leads, nothing, moves, announced, stays}
use agro_diamond_compliance.Indexer.Replay.Moves.{
  IsAt, handle_log-IsAt, handle_log-announced, handle_log-idle,
}

module _ (db : RocksDb) (L : IsReliable db) (eth : Ethereum) (E : IsLawful eth) (diamond : Bytes)
    (client : Option Node) (D : IsDistinct eth) where
  open db use {State}

  -- The logs behind the first one.
  continues :
      (f f' : Holdings) (log : Log) (logs : List Log) (s : State)
      → Returns (handle_log db eth diamond client log s) (IsAt db L eth E diamond client f')
      → ((s' : State)
          → IsAt db L eth E diamond client f' s'
          → Returns (handle_logs db eth diamond client logs s') (IsAt db L eth E diamond client f))
      → Returns
          (handle_logs db eth diamond client (log ∷ logs) s)
          (IsAt db L eth E diamond client f)
  unfolding handle_logs
  continues f f' log logs s h k =
      then-Returns (handle_log db eth diamond client log s) (handle_logs db eth diamond client logs)
        (IsAt db L eth E diamond client f') (IsAt db L eth E diamond client f) s h k

  -- On a reliable database whose rows are the ledgers and the balances of some holdings, where the
  -- hashes of the signatures differ: a list of the `Minted`, `Burned` and `TransferSingle` logs of
  -- positive, covered moves (where `TransferSingle` is from or to the zero address only directly in
  -- front of the `Minted` or `Burned` of the same move), and of logs of other signatures, but not
  -- `TransferBatch`, that do not make their handler panic, is handled without a panic, and the rows
  -- are then the ledgers and the balances of the holdings that the logs lead to.
  pub handle_logs-refines :
      (f g : Holdings) (logs : List Log) (s : State)
      → Leads db L eth diamond client f logs g
      → IsAt db L eth E diamond client f s
      → Returns (handle_logs db eth diamond client logs s) (IsAt db L eth E diamond client g)
  handle_logs-refines _ _ _ s (nothing f) h = unfold handle_logs in h
  handle_logs-refines _ _ _ s (moves f g log logs move reports covered more) h =
      continues g (move_units move f) log logs s
        (handle_log-IsAt db L eth E diamond client D f log move s reports covered h)
        λ s' at. handle_logs-refines (move_units move f) g logs s' more at
  handle_logs-refines _ _ _ s (announced f g first log logs move announces reports covered more) h =
      continues g f first (log ∷ logs) s
        (handle_log-announced db L eth E diamond client D f first move s announces h)
        λ s' at.
          continues g (move_units move f) log logs s'
            (handle_log-IsAt db L eth E diamond client D f log move s' reports covered at)
            λ s'' at'. handle_logs-refines (move_units move f) g logs s'' more at'
  handle_logs-refines _ _ _ s (stays f g log logs idle more) h =
      continues g f log logs s (handle_log-idle db L eth E diamond client f log s idle h)
        λ s' at. handle_logs-refines f g logs s' more at
