-- ===== src/Tests/Replay.antt =====
-- A small history of logs: the registration of token 7, a mint, a freeze and a transfer.
use agro_diamond_compliance.Prelude.{
  ℕ, refl, some, [], ◌∷◌, ◌++◌, List, replicate, arith, bytes_eq, inr,
}
use agro_diamond_compliance.Bytes.{Bytes, codes}
use agro_diamond_compliance.Bytes.Decimal.{format_uint}
use agro_diamond_compliance.Action.{Returns, fault}
use agro_diamond_compliance.Node.{Log, Node, reply, failed}
use agro_diamond_compliance.RocksDb.Memory.{memory, memory-IsReliable, empty}
use agro_diamond_compliance.RocksDb.Entries.{lookup}
use agro_diamond_compliance.Store.Tokens.{balance_of_value}
use agro_diamond_compliance.Store.Ledger.Holdings.{
  Holdings, Move, mint, transfer, move_units, set_units, IsCovered,
}
use agro_diamond_compliance.Store.Ledger.Quiet.{Unmoved}
use agro_diamond_compliance.Indexer.Abi.{set_bytes}
use agro_diamond_compliance.Indexer.Dispatch.{
  handle_log, handle_logs, minted_sig, transfer_single_sig,
}
use agro_diamond_compliance.Indexer.Dispatch.Frame.{
  IsBystander, asset_registered_sig, handle_log-Unmoved,
}
use agro_diamond_compliance.Ethereum.{zero_address}
use agro_diamond_compliance.Indexer.Assets.{fetch_asset_name_symbol}
use agro_diamond_compliance.Indexer.Quiet.Assets.{AreDecoded}
use agro_diamond_compliance.Indexer.Replay.{
  IsDistinct, minted, transferred, of_mint, Leads, nothing, moves, announced, stays,
}
use agro_diamond_compliance.Indexer.Replay.Moves.{IsAt}
use agro_diamond_compliance.Indexer.Replay.Histories.{handle_logs-refines}
use agro_diamond_compliance.Tests.Fixtures.{eth, eth-IsLawful, alice, bob, empty-IsLedger}

pub eth-IsDistinct : IsDistinct eth
eth-IsDistinct = record {
  burn_mint = λ e. ground arith;
  transfer_mint = λ e. ground arith;
  transfer_burn = λ e. ground arith;
  transfer_forced = λ e. ground arith;
}

abbrev pub diamond : Bytes
diamond = 68 ∷ []

abbrev word : ℕ → Bytes
word n = replicate 31 0 ++ n ∷ []

-- A node that fails to answer log queries, and whose contract answers calls with a text.
abbrev pub busy_node : Node
busy_node = record {
  block_number = reply 20;
  filter_logs = λ n from to addresses. failed (fault []);
  cancelled = λ n. reply tt;
  call_contract = λ contract input. reply (word 32 ++ (word 3 ++ codes "RWA"));
}

-- 5 units for Alice.
abbrev pub mint_log : Log
mint_log = record {
  topics = minted_sig ∷ (7 ∷ []) ∷ alice ∷ [];
  bytes = 5 ∷ [];
  tx_hash = 9 ∷ [];
  block_number = 12;
  index = 0;
}

-- The `TransferSingle` log in front of it, from the zero address.
abbrev announcement : Log
announcement = record mint_log {
  topics = transfer_single_sig ∷ alice ∷ zero_address ∷ alice ∷ [];
  bytes = word 7 ++ word 5;
}

-- Token 7 is registered.
abbrev register_log : Log
register_log = record mint_log {
  topics = asset_registered_sig ∷ (7 ∷ []) ∷ alice ∷ [];
  bytes = word 1;
}

abbrev freeze_sig : Bytes
freeze_sig = codes "WalletFrozen(address,bool)"

abbrev freeze_log : Log
freeze_log = record mint_log { topics = freeze_sig ∷ alice ∷ []; index = 1 }

-- 2 units from Alice to Bob.
abbrev transfer_log : Log
transfer_log = record mint_log {
  topics = transfer_single_sig ∷ alice ∷ alice ∷ bob ∷ [];
  bytes = word 7 ++ word 2;
  index = 2;
}

abbrev pub no_units : Holdings
no_units t a = 0

abbrev pub first_move : Move
first_move = mint (set_bytes (7 ∷ [])) alice (set_bytes (5 ∷ []))

abbrev second_move : Move
second_move = transfer (set_bytes (word 7)) alice bob (set_bytes (word 2))

freeze-IsBystander :
    (node : Node)
    → IsBystander memory memory-IsReliable eth diamond
        (some node)
        freeze_sig
        (alice ∷ [])
        freeze_log
freeze-IsBystander node = record {
  no_mint = λ e. ground arith;
  no_burn = λ e. ground arith;
  no_transfer = λ e. ground arith;
  has_amount = λ e. ground arith;
  has_uri = λ e. ground arith;
  has_name = λ e. ground arith;
  answers = λ e. ground arith;
}

-- The calls to the contract do not panic.
abbrev pub Answers : Node → Type 0
Answers node = AreDecoded eth diamond (some node) register_log.topics

register-IsBystander :
    (node : Node)
    → Answers node
    → IsBystander memory memory-IsReliable eth diamond
        (some node)
        asset_registered_sig
        ((7 ∷ []) ∷ alice ∷ [])
        register_log
register-IsBystander node h = record {
  no_mint = λ e. ground arith;
  no_burn = λ e. ground arith;
  no_transfer = λ e. ground arith;
  has_amount = λ e. ground arith;
  has_uri = λ e. ground arith;
  has_name = λ e. ground arith;
  answers = λ e. h;
}

pub busy_node-Answers : Answers busy_node
unfolding fetch_asset_name_symbol
busy_node-Answers = λ e. ground arith

first_move-IsCovered : IsCovered first_move no_units
unfolding set_bytes
first_move-IsCovered = omega arith

second_move-IsCovered : IsCovered second_move (move_units first_move no_units)
unfolding set_bytes move_units set_units bytes_eq
second_move-IsCovered = (omega arith, omega arith)

abbrev pub history : List Log
history = register_log ∷ announcement ∷ mint_log ∷ freeze_log ∷ transfer_log ∷ []

abbrev pub after_history : Holdings
after_history = move_units second_move (move_units first_move no_units)

pub history-Leads :
    (node : Node)
    → Answers node
    → Leads memory memory-IsReliable eth diamond (some node) no_units history after_history
unfolding set_bytes
history-Leads node h =
    stays no_units after_history register_log
      (announcement ∷ mint_log ∷ freeze_log ∷ transfer_log ∷ [])
      (inr (
        asset_registered_sig,
        (7 ∷ []) ∷ alice ∷ [],
        refl,
        (λ e. ground arith),
        (λ e. ground arith),
        register-IsBystander node h,
      ))
      (announced no_units after_history announcement mint_log (freeze_log ∷ transfer_log ∷ [])
        first_move (of_mint alice zero_address alice [] refl refl) (minted (7 ∷ []) alice [] refl)
        first_move-IsCovered
        (stays (move_units first_move no_units) after_history freeze_log (transfer_log ∷ [])
          (inr (
            freeze_sig,
            alice ∷ [],
            refl,
            (λ e. ground arith),
            (λ e. ground arith),
            freeze-IsBystander node,
          ))
          (moves (move_units first_move no_units) after_history transfer_log [] second_move
            (transferred alice alice bob [] refl refl (λ e. ground arith) (λ e. ground arith))
            second_move-IsCovered (nothing after_history))))

pub empty-IsAt :
    (node : Node)
    → IsAt memory memory-IsReliable eth eth-IsLawful diamond (some node) no_units empty
empty-IsAt node = record {
  ledger = λ k. empty-IsLedger (format_uint k);
  balance = λ k a. unfold balance_of_value lookup in refl;
}

handle_logs-refines_example :
    Returns
      (handle_logs memory eth diamond (some busy_node) history empty)
      (IsAt memory memory-IsReliable eth eth-IsLawful diamond (some busy_node) after_history)
handle_logs-refines_example =
    handle_logs-refines memory memory-IsReliable eth eth-IsLawful diamond (some busy_node)
      eth-IsDistinct no_units after_history history empty
      (history-Leads busy_node busy_node-Answers) (empty-IsAt busy_node)

handle_log-Unmoved_example :
    Returns
      (handle_log memory eth diamond (some busy_node) register_log empty)
      (Unmoved memory memory-IsReliable empty)
handle_log-Unmoved_example =
    handle_log-Unmoved memory memory-IsReliable eth diamond (some busy_node) asset_registered_sig
      ((7 ∷ []) ∷ alice ∷ []) register_log empty refl
      (register-IsBystander busy_node busy_node-Answers)
