-- ===== src/Indexer/Wallets.antt =====
-- The handlers of identities, freezes and wallet recovery.
pub mod Frozen
pub mod Recovered
use agro_diamond_compliance.Prelude.{
  ℕ, Bool, false, not, Option, none, some, List, [], ◌∷◌, eqb, if◌then◌else◌,
}
use agro_diamond_compliance.Bytes.{Bytes, codes}
use agro_diamond_compliance.Json.{str, num, boolean}
use agro_diamond_compliance.Action.{Action, ok, logged, ◌>>◌}
use agro_diamond_compliance.Ethereum.{Ethereum}
use agro_diamond_compliance.Node.{Log}
use agro_diamond_compliance.RocksDb.{RocksDb}
use agro_diamond_compliance.Store.Records.{Identity}
use agro_diamond_compliance.Store.Identities.{record_identity, delete_identity, get_identity}
use agro_diamond_compliance.Store.Freezes.{
  blank_freeze, record_freeze, update_freeze_amount, update_lockup_expiry,
}
use agro_diamond_compliance.Indexer.Abi.{set_bytes, uint, decimal, has_bytes, word0}
use agro_diamond_compliance.Indexer.Recording.{or_return, with_result, record_generic_event}

-- The first word of the data as a number, a flag or a text; the zero value on shorter data.
unfoldable pub word_uint : ℕ → Bytes → ℕ
unfolding set_bytes
word_uint bits s = if has_bytes 32 s then uint bits (set_bytes (word0 s)) else 0

unfoldable pub word_flag : Bytes → Bool
unfolding set_bytes
word_flag s = if has_bytes 32 s then not (eqb (set_bytes (word0 s)) 0) else false

unfoldable pub word_text : Bytes → Bytes
word_text s = if has_bytes 32 s then decimal (word0 s) else []

module _ (db : RocksDb) (eth : Ethereum) where
  open db use {State}
  open eth use {hex, bytes_to_address}

  unfoldable pub handle_identity_bound : List Bytes → Log → Action State (Unit {0})
  handle_identity_bound (_ ∷ wallet ∷ identity ∷ _) log =
      let country = word_uint 16 log.bytes in
      or_return
        (record_identity db (record {
          wallet = hex (bytes_to_address wallet);
          identity = hex (bytes_to_address identity);
          country = country;
          bound_at = log.block_number;
        }))
        (record_generic_event db eth log (codes "identity_bound") [] (hex (bytes_to_address wallet))
          (some (
            (codes "identity", str (hex (bytes_to_address identity)))
            ∷ (codes "country", num country)
            ∷ [])))
  handle_identity_bound _ log = ok tt

  unfoldable pub handle_identity_unbound : List Bytes → Log → Action State (Unit {0})
  handle_identity_unbound (_ ∷ wallet ∷ _) log =
      logged (delete_identity db (hex (bytes_to_address wallet)))
      >> record_generic_event db eth log (codes "identity_unbound") []
          (hex (bytes_to_address wallet)) none
  handle_identity_unbound _ log = ok tt

  unfoldable pub handle_wallet_frozen : List Bytes → Log → Action State (Unit {0})
  handle_wallet_frozen (_ ∷ wallet ∷ _) log =
      let addr = hex (bytes_to_address wallet) in
      let frozen = word_flag log.bytes in
      logged (record_freeze db (record (blank_freeze addr []) { frozen = frozen }))
      >> record_generic_event db eth log (codes "wallet_frozen") [] addr
          (some ((codes "frozen", boolean frozen) ∷ []))
  handle_wallet_frozen _ log = ok tt

  unfoldable pub handle_asset_frozen : List Bytes → Log → Action State (Unit {0})
  handle_asset_frozen (_ ∷ id ∷ wallet ∷ _) log =
      let addr = hex (bytes_to_address wallet) in
      let frozen = word_flag log.bytes in
      logged (record_freeze db (record (blank_freeze addr (decimal id)) { frozen = frozen }))
      >> record_generic_event db eth log (codes "asset_frozen") (decimal id) addr
          (some ((codes "frozen", boolean frozen) ∷ []))
  handle_asset_frozen _ log = ok tt

  unfoldable pub handle_partial_freeze : List Bytes → Log → Action State (Unit {0})
  handle_partial_freeze (_ ∷ id ∷ wallet ∷ _) log =
      let addr = hex (bytes_to_address wallet) in
      let amount = word_text log.bytes in
      logged (update_freeze_amount db addr (decimal id) amount)
      >> record_generic_event db eth log (codes "partial_freeze") (decimal id) addr
          (some ((codes "amount", str amount) ∷ []))
  handle_partial_freeze _ log = ok tt

  unfoldable pub handle_lockup_set : List Bytes → Log → Action State (Unit {0})
  handle_lockup_set (_ ∷ id ∷ wallet ∷ _) log =
      let addr = hex (bytes_to_address wallet) in
      let expiry = word_uint 64 log.bytes in
      logged (update_lockup_expiry db addr (decimal id) expiry)
      >> record_generic_event db eth log (codes "lockup_set") (decimal id) addr
          (some ((codes "expiry", num expiry) ∷ []))
  handle_lockup_set _ log = ok tt

  -- The identity is bound to the new wallet and then deleted at the lost one; errors are dropped.
  unfoldable pub move_identity : Bytes → Bytes → ℕ → Option Identity → Action State (Unit {0})
  move_identity lost new block none = ok tt
  move_identity lost new block (some existing) =
      logged (record_identity db (record existing { wallet = new; bound_at = block }))
      >> logged (delete_identity db lost)

  unfoldable pub rebind : Bytes → Bytes → ℕ → Action State (Unit {0})
  unfolding move_identity
  rebind lost new block = with_result (get_identity db lost) (move_identity lost new block)

  unfoldable pub handle_wallet_recovered : List Bytes → Log → Action State (Unit {0})
  unfolding rebind
  handle_wallet_recovered (_ ∷ lost ∷ new ∷ agent ∷ _) log =
      rebind (hex (bytes_to_address lost)) (hex (bytes_to_address new)) log.block_number
      >> record_generic_event db eth log (codes "wallet_recovered") [] (hex (bytes_to_address new))
          (some (
            (codes "lostWallet", str (hex (bytes_to_address lost)))
            ∷ (codes "agent", str (hex (bytes_to_address agent)))
            ∷ []))
  handle_wallet_recovered _ log = ok tt
