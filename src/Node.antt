-- ===== src/Node.antt =====
-- The Ethereum node behind `ethclient`, and the logs that it delivers. Its answers are unknown;
-- the n-th try of a query may be answered otherwise than the first.
use agro_diamond_compliance.Prelude.{ℕ, List}
use agro_diamond_compliance.Bytes.{Bytes}
use agro_diamond_compliance.Action.{Error}

-- `types.Log`. Byte slices have no spare capacity.
pub record Log : Type 0 where
  pub topics : List Bytes
  pub bytes : Bytes
  pub tx_hash : Bytes
  pub block_number : ℕ
  pub index : ℕ

pub data Reply (A : Type 0) : Type 0 where
  reply : A → Reply A
  failed : Error → Reply A

pub record Node : Type 0 where
  -- `client.BlockNumber(ctx)`
  pub block_number : Reply ℕ
  -- `client.FilterLogs(ctx, query)` from a block to a block at addresses, at the n-th try
  pub filter_logs : ℕ → ℕ → ℕ → List Bytes → Reply (List Log)
  -- `ctx.Err() != nil` after the n-th try
  pub cancelled : ℕ → Reply (Unit {0})
  -- `client.CallContract(ctx, msg, nil)` for a contract and call data
  pub call_contract : Bytes → Bytes → Reply Bytes
