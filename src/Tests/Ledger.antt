-- ===== src/Tests/Ledger.antt =====
-- Mints, burns and transfers on a database in memory.
use agro_diamond_compliance.Prelude.{
  ℕ, ◌+◌, ◌%◌, ◌^◌, List, length, ◌≤◌, ◌≡◌, ap, [], ◌∷◌, arith, bytes_eq,
}
use agro_diamond_compliance.Prelude.Int.{pos, pos_part, ◌+ℤ◌, ◌-ℤ◌}
use agro_diamond_compliance.Bytes.{Bytes, codes}
use agro_diamond_compliance.Bytes.Decimal.{format_int}
use agro_diamond_compliance.Action.{Outcome, Returns, ok, final}
use agro_diamond_compliance.RocksDb.Entries.{lookup}
use agro_diamond_compliance.RocksDb.Memory.{memory, memory-IsReliable, empty, Table}
use agro_diamond_compliance.Store.Tokens.{balance_of_value, get_token_meta, get_holders}
use agro_diamond_compliance.Store.Records.{TokenMeta, Holder}
use agro_diamond_compliance.Store.Ledger.{
  record_mint, record_burn, record_transfer, record_event_only,
}
use agro_diamond_compliance.Store.Ledger.EventOnly.{record_event_only-IsLedger}
use agro_diamond_compliance.Store.Ledger.Steps.{balance_at}
use agro_diamond_compliance.Store.Ledger.Rows.{IsLedger, supply_in}
use agro_diamond_compliance.Store.Ledger.Mint.{record_mint-IsLedger}
use agro_diamond_compliance.Store.Ledger.Burn.{record_burn-IsLedger}
use agro_diamond_compliance.Store.Ledger.Transfer.{record_transfer-IsLedger}
use agro_diamond_compliance.Store.Ledger.Queries.{get_holders-supply, held_by}
use agro_diamond_compliance.Tests.Fixtures.{
  at_final, eth, eth-IsLawful, token, token-IsPlain, alice, bob, empty-IsLedger,
}

abbrev tx : Bytes
tx = 9 ∷ []

-- 5 units of the token are minted for Alice, on an empty database.
abbrev minted : Outcome Table (Unit {0})
minted = record_mint memory eth token alice (pos 5) tx 3 0 empty

abbrev state : Table
state = final minted

record_mint-IsLedger_example : Returns minted λ s'.
    IsLedger token (memory-IsReliable.entries s')
    × (supply_in token (memory-IsReliable.entries s') ≡ supply_in token [] + 5)
    × (balance_at token (eth.hex alice) (memory-IsReliable.entries s')
        ≡ balance_at token (eth.hex alice) [] +ℤ pos 5)
record_mint-IsLedger_example =
    record_mint-IsLedger memory memory-IsReliable eth eth-IsLawful token alice 4 tx 3 0 empty
      token-IsPlain (empty-IsLedger token)

state_facts : IsLedger token state.0 × (balance_at token (eth.hex alice) state.0 ≡ pos 5)
unfolding lookup balance_of_value ◌+ℤ◌
state_facts =
    let (ledger, _, balance) =
      at_final minted
        (λ s'.
          IsLedger token s'.0
          × (supply_in token s'.0 ≡ supply_in token [] + 5)
          × (balance_at token (eth.hex alice) s'.0 ≡ balance_at token (eth.hex alice) [] +ℤ pos 5))
        record_mint-IsLedger_example in
    (ledger, balance)

state-covered : (n : ℕ) → n ≤ 5 → n ≤ pos_part (balance_at token (eth.hex alice) state.0)
state-covered n h =
    let e : pos_part (balance_at token (eth.hex alice) state.0) ≡ 5 = ap pos_part state_facts.1 in
    omega arith

-- Alice burns 2 of her units.
record_burn-IsLedger_example :
    Returns (record_burn memory eth token alice (pos 2) tx 4 0 state) λ s'.
      IsLedger token s'.0
      × (supply_in token s'.0 + 2 ≡ supply_in token state.0)
      × (balance_at token (eth.hex alice) s'.0 ≡ balance_at token (eth.hex alice) state.0 -ℤ pos 2)
record_burn-IsLedger_example =
    record_burn-IsLedger memory memory-IsReliable eth eth-IsLawful token alice 2 tx 4 0 state
      token-IsPlain state_facts.0 (state-covered 2 (omega arith)) (state-covered 1 (omega arith))

abbrev transfer_type : Bytes
transfer_type = codes "transfer"

record_transfer-IsLedger_example :
    Returns
      (record_transfer memory eth token alice bob (pos 2) transfer_type tx 4 0 state)
      λ s'. IsLedger token s'.0 × (supply_in token s'.0 ≡ supply_in token state.0)
record_transfer-IsLedger_example =
    record_transfer-IsLedger memory memory-IsReliable eth eth-IsLawful token alice bob 1
      transfer_type tx 4 0 state state_facts.0 (state-covered 2 (omega arith)) token-IsPlain

get_holders-supply_example :
    (meta : TokenMeta) × (holders : List Holder) × (get_token_meta memory token state
      ≡ ok meta state)
    × (get_holders memory token state ≡ ok holders state)
    × (meta.total_supply ≡ format_int (pos (held_by holders)))
    × (meta.holder_count ≡ length holders % 2 ^ 64)
get_holders-supply_example = get_holders-supply memory memory-IsReliable token state state_facts.0

record_event_only-IsLedger_example :
    Returns
      (record_event_only memory eth token alice bob (pos 2) (codes "forced_transfer") tx 4 0 state)
      λ s'. IsLedger token s'.0 × (supply_in token s'.0 ≡ supply_in token state.0)
record_event_only-IsLedger_example =
    record_event_only-IsLedger memory memory-IsReliable eth token token alice bob (pos 2)
      (codes "forced_transfer") tx 4 0 state state_facts.0
