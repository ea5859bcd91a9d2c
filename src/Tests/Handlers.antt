-- ===== src/Tests/Handlers.antt =====
-- Single logs on a database in memory.
use agro_diamond_compliance.Prelude.{
  ℕ, ◌+◌, ◌≡◌, refl, none, some, [], ◌∷◌, ◌++◌, replicate, arith, bytes_eq,
}
use agro_diamond_compliance.Bytes.{Bytes, codes}
use agro_diamond_compliance.Action.{Returns, ok, final}
use agro_diamond_compliance.Node.{Log}
use agro_diamond_compliance.RocksDb.Memory.{memory, memory-IsReliable, empty, Table}
use agro_diamond_compliance.Store.Cursor.{get_cursor}
use agro_diamond_compliance.Store.Ledger.Rows.{IsLedger, supply_in}
use agro_diamond_compliance.Indexer.Abi.{
  set_bytes, decimal, fill_bytes, text, panics, decode_string,
}
use agro_diamond_compliance.Indexer.Abi.Strings.{
  decode_string-encoded, decode_string-panics, encoded,
}
use agro_diamond_compliance.Indexer.Dispatch.{handle_log, handlers, dispatch, minted_sig}
use agro_diamond_compliance.Indexer.Dispatch.Cursor.{handle_log-get_cursor}
use agro_diamond_compliance.Indexer.Dispatch.Mints.{handle_log-minted}
use agro_diamond_compliance.Store.Records.{FreezeState}
use agro_diamond_compliance.Store.Freezes.{blank_freeze, get_freeze}
use agro_diamond_compliance.Indexer.Wallets.{word_flag, handle_asset_frozen, handle_partial_freeze}
use agro_diamond_compliance.Indexer.Wallets.Frozen.{handle_asset_frozen-get_freeze}
use agro_diamond_compliance.Bytes.Utf8.{valid_utf8}
use agro_diamond_compliance.Store.Keys.{identity_key}
use agro_diamond_compliance.RocksDb.Entries.{object, lookup, insert}
use agro_diamond_compliance.Store.Identities.{get_identity}
use agro_diamond_compliance.Store.Identities.Binding.{IsBinding}
use agro_diamond_compliance.Store.Records.{Identity, marshal_identity}
use agro_diamond_compliance.Indexer.Wallets.{handle_wallet_recovered}
use agro_diamond_compliance.Indexer.Wallets.Recovered.{handle_wallet_recovered-get_identity}
use agro_diamond_compliance.Tests.Fixtures.{eth, eth-IsLawful, alice, bob, empty-IsLedger}

abbrev diamond : Bytes
diamond = 68 ∷ []

-- The token 7, and 5 units for Alice.
abbrev mint_log : Log
mint_log = record {
  topics = minted_sig ∷ (7 ∷ []) ∷ alice ∷ [];
  bytes = 5 ∷ [];
  tx_hash = 9 ∷ [];
  block_number = 12;
  index = 0;
}

handle_log-minted_example : Returns (handle_log memory eth diamond none mint_log empty) λ s'.
    IsLedger (decimal (7 ∷ [])) s'.0
    × (supply_in (decimal (7 ∷ [])) s'.0 ≡ supply_in (decimal (7 ∷ [])) [] + 5)
    × (get_cursor memory s' ≡ ok 12 s')
unfolding set_bytes
handle_log-minted_example =
    handle_log-minted memory memory-IsReliable eth eth-IsLawful diamond none (7 ∷ []) alice []
      mint_log 4 empty refl refl (omega arith) (empty-IsLedger (decimal (7 ∷ [])))

abbrev other_log : Log
other_log = record mint_log { topics = codes "Other()" ∷ [] }

handle_log-get_cursor_example :
    Returns
      (handle_log memory eth diamond none other_log empty)
      λ s'. get_cursor memory s' ≡ ok 12 s'
unfolding dispatch handlers bytes_eq
handle_log-get_cursor_example =
    handle_log-get_cursor memory memory-IsReliable eth diamond none (codes "Other()") [] other_log
      empty empty refl refl (omega arith)

abbrev word : ℕ → Bytes
word n = replicate 31 0 ++ n ∷ []

decode_string-encoded_example :
    decode_string (encoded (word 32) (word 3) (codes "abc") (0 ∷ 0 ∷ [])) ≡ text (codes "abc")
unfolding fill_bytes
decode_string-encoded_example =
    decode_string-encoded (word 32) (word 3) (codes "abc") (0 ∷ 0 ∷ []) refl refl (omega arith)

abbrev wrapping : Bytes
wrapping = replicate 64 255

decode_string-panics_example : decode_string wrapping ≡ panics
unfolding set_bytes
decode_string-panics_example = decode_string-panics wrapping (omega arith) (omega arith)

abbrev frozen_log : Log
frozen_log = record mint_log { bytes = word 5 }

-- 5 units of Alice are frozen; then the flag is set.
abbrev partly_frozen : Table
partly_frozen =
    final (handle_partial_freeze memory eth ([] ∷ (7 ∷ []) ∷ alice ∷ []) frozen_log empty)

handle_asset_frozen-get_freeze_example :
    let state : FreezeState = record (blank_freeze (eth.hex alice) (decimal (7 ∷ []))) {
      frozen = word_flag (word 5);
    } in
    Returns
      (handle_asset_frozen memory eth ([] ∷ (7 ∷ []) ∷ alice ∷ []) frozen_log partly_frozen)
      λ s'. get_freeze memory (eth.hex alice) (decimal (7 ∷ [])) s' ≡ ok (some state) s'
handle_asset_frozen-get_freeze_example =
    handle_asset_frozen-get_freeze memory memory-IsReliable eth eth-IsLawful [] (7 ∷ []) alice []
      frozen_log partly_frozen

-- Alice is bound, and recovered to the wallet of Bob.
abbrev alice_bound : Identity
alice_bound = record { wallet = eth.hex alice; identity = codes "0xB"; country = 76; bound_at = 5 }

alice_bound-IsBinding : IsBinding alice_bound
unfolding valid_utf8
alice_bound-IsBinding = record {
  plain_wallet = eth-IsLawful.hex-IsPlain alice;
  valid_wallet = refl;
  valid_identity = refl;
  small_country = omega arith;
  small_block = omega arith;
}

abbrev with_alice : Table
with_alice =
    memory-IsReliable.write (identity_key (eth.hex alice)) (object (marshal_identity alice_bound))
      empty

alice_row :
    lookup (identity_key (eth.hex alice)) with_alice.0
    ≡ some (object (marshal_identity alice_bound))
unfolding lookup insert identity_key bytes_eq
alice_row = refl

handle_wallet_recovered-get_identity_example :
    let moved : Identity = record alice_bound { wallet = eth.hex bob; bound_at = 12 } in
    Returns
      (handle_wallet_recovered memory eth ([] ∷ alice ∷ bob ∷ alice ∷ []) mint_log with_alice)
      λ s'.
        (get_identity memory (eth.hex bob) s' ≡ ok (some moved) s')
        × (get_identity memory (eth.hex alice) s' ≡ ok none s')
handle_wallet_recovered-get_identity_example =
    handle_wallet_recovered-get_identity memory memory-IsReliable eth eth-IsLawful alice_bound
      alice_bound-IsBinding mint_log with_alice [] alice bob alice [] refl (λ e. ground arith)
      (omega arith) alice_row
