-- ===== src/Store/Ledger/Others.antt =====
-- The mutations of one token, seen from the ledgers of the other tokens.
use agro_diamond_compliance.Prelude.{ℕ, ◌≡◌, ◌≢◌, sym, ap, ◌∙◌, arith, Bool-cases, inl, inr}
use agro_diamond_compliance.Prelude.Int.{ℤ, pos, ◌-ℤ◌, is_nonpositive}
use agro_diamond_compliance.Bytes.{Bytes, IsPlain}
use agro_diamond_compliance.Bytes.Decimal.{set_string, set_string-format_int}
use agro_diamond_compliance.Action.{Returns}
use agro_diamond_compliance.Ethereum.{Ethereum, IsLawful}
use agro_diamond_compliance.RocksDb.{RocksDb, IsReliable}
use agro_diamond_compliance.RocksDb.Entries.{Value}
use agro_diamond_compliance.Store.Keys.{holder_key, holder_addr_key, token_meta_key, event_key}
use agro_diamond_compliance.Store.Keys.Disjoint
use agro_diamond_compliance.Store.Records.{TokenMeta, TransferEvent}
use agro_diamond_compliance.Store.Ledger.{record_mint, record_burn, record_transfer}
use agro_diamond_compliance.Store.Ledger.Steps.{
  balance_at, debited, write_balance, write_meta, write_event, record_mint_lem, record_burn_lem,
  record_transfer_lem,
}
use agro_diamond_compliance.Store.Ledger.Rows.{supply_in, IsLedger}
use agro_diamond_compliance.Store.Ledger.Frame.{IsForeign, IsLedger-insert, IsLedger-erase}

module _ (t u : Bytes) (plain_t : IsPlain t) (plain_u : IsPlain u) (apart : t ≢ u) where
  holder_key-IsForeign : (a : Bytes) → IsForeign u (holder_key t a)
  holder_key-IsForeign a = record {
    no_holder = Disjoint.holder_key_ne_token t u a plain_t plain_u (λ e. apart (sym e));
    no_mirror = λ b p. Disjoint.holder_key-ne-holder_addr_key t a b u;
    not_meta = Disjoint.holder_key-ne-token_meta_key t a u;
  }

  holder_addr_key-IsForeign : (a : Bytes) → IsPlain a → IsForeign u (holder_addr_key a t)
  holder_addr_key-IsForeign a pa = record {
    no_holder = Disjoint.has_prefix-holder_addr_key u a t;
    no_mirror = λ b p e. apart (Disjoint.holder_addr_key_token t u a b pa p e);
    not_meta = Disjoint.holder_addr_key-ne-token_meta_key a t u;
  }

  token_meta_key-IsForeign : IsForeign u (token_meta_key t)
  token_meta_key-IsForeign = record {
    no_holder = Disjoint.has_prefix-token_meta_key u t;
    no_mirror = λ b p e. Disjoint.holder_addr_key-ne-token_meta_key b u t (sym e);
    not_meta = λ e. apart (Disjoint.token_meta_key_injective t u e);
  }

pub event_key-IsForeign : (u : Bytes) (b i : ℕ) → IsForeign u (event_key b i)
event_key-IsForeign u b i = record {
  no_holder = Disjoint.has_prefix-event_key u b i;
  no_mirror = λ a p e. Disjoint.holder_addr_key-ne-event_key a u b i (sym e);
  not_meta = λ e. Disjoint.token_meta_key-ne-event_key u b i (sym e);
}

module _ (db : RocksDb) (L : IsReliable db) where
  module _ (u : Bytes) where
    pub write-IsLedger :
        (k : Bytes) (v : Value) (s : db.State)
        → IsForeign u k
        → IsLedger u (L.entries s)
        → IsLedger u (L.entries (L.write k v s))
    write-IsLedger k v s f h =
        rw (L.entries-write k v s) (IsLedger-insert u k v (L.entries s) (L.entries-IsSorted s) f h)

    remove-IsLedger :
        (k : Bytes) (s : db.State)
        → IsForeign u k
        → IsLedger u (L.entries s)
        → IsLedger u (L.entries (L.remove k s))
    remove-IsLedger k s f h =
        rw (L.entries-remove k s) (IsLedger-erase u k (L.entries s) (L.entries-IsSorted s) f h)

  module _ (t u : Bytes) (plain_t : IsPlain t) (plain_u : IsPlain u) (apart : t ≢ u) where
    write_balance-IsLedger :
        (a : Bytes) (z : ℤ) (s : db.State)
        → IsPlain a
        → IsLedger u (L.entries s)
        → IsLedger u (L.entries (write_balance db L t a z s))
    write_balance-IsLedger a z s p h =
        write-IsLedger u _ _ _ (holder_addr_key-IsForeign t u plain_t plain_u apart a p)
          (write-IsLedger u _ _ _ (holder_key-IsForeign t u plain_t plain_u apart a) h)

    debited-IsLedger :
        (a : Bytes) (z : ℤ) (s : db.State)
        → IsPlain a
        → IsLedger u (L.entries s)
        → IsLedger u (L.entries (debited db L t a z s))
    debited-IsLedger a z s p h = elim (Bool-cases (is_nonpositive z)) [
      | inl gone ↦ rw gone (
          remove-IsLedger u _ _ (holder_addr_key-IsForeign t u plain_t plain_u apart a p)
            (remove-IsLedger u _ _ (holder_key-IsForeign t u plain_t plain_u apart a) h))
      | inr left ↦ rw left (write_balance-IsLedger a z s p h)
    ]

    -- The rows that end every mutation.
    close-IsLedger :
        (meta : TokenMeta) (e : TransferEvent) (s : db.State)
        → meta.token_id ≡ t
        → IsLedger u (L.entries s)
        → IsLedger u (L.entries (write_event db L e (write_meta db L meta s)))
    close-IsLedger meta e s own h =
        write-IsLedger u _ _ _ (event_key-IsForeign u e.block e.log_index)
          (write-IsLedger u _ _ _ (rw own (token_meta_key-IsForeign t u plain_t plain_u apart)) h)

module _ (db : RocksDb) (L : IsReliable db) (eth : Ethereum) (E : IsLawful eth) where
  -- On a reliable database and the ledgers of two different tokens with plain ids, a mint of
  -- any amount of the one returns and keeps the ledger of the other.
  pub record_mint-others :
      (t u to : Bytes) (amount : ℤ) (tx : Bytes) (b i : ℕ) (s : db.State)
      → IsPlain t
      → IsPlain u
      → t ≢ u
      → IsLedger t (L.entries s)
      → IsLedger u (L.entries s)
      → Returns (record_mint db eth t to amount tx b i s) λ s'. IsLedger u (L.entries s')
  record_mint-others t u to amount tx b i s pt pu apart h other =
      rw
        (record_mint_lem db L eth t to amount tx b i s h.meta (pos (supply_in t (L.entries s)))
          h.stored (ap set_string h.supply ∙ set_string-format_int _))
        (close-IsLedger db L t u pt pu apart _ _ _ (ground (arith, h.own))
          (write_balance-IsLedger db L t u pt pu apart _ _ _ (E.hex-IsPlain to) other))

  -- On a reliable database and the ledgers of two different tokens with plain ids, a burn of
  -- any amount of the one returns and keeps the ledger of the other.
  pub record_burn-others :
      (t u from : Bytes) (amount : ℤ) (tx : Bytes) (b i : ℕ) (s : db.State)
      → IsPlain t
      → IsPlain u
      → t ≢ u
      → IsLedger t (L.entries s)
      → IsLedger u (L.entries s)
      → Returns (record_burn db eth t from amount tx b i s) λ s'. IsLedger u (L.entries s')
  record_burn-others t u from amount tx b i s pt pu apart h other =
      rw
        (record_burn_lem db L eth t from amount tx b i s h.meta (pos (supply_in t (L.entries s)))
          h.stored (ap set_string h.supply ∙ set_string-format_int _))
        (close-IsLedger db L t u pt pu apart _ _ _ (ground (arith, h.own)) (
          debited-IsLedger db L t u pt pu apart (eth.hex from)
            (balance_at t (eth.hex from) (L.entries s) -ℤ amount) s (E.hex-IsPlain from) other))

  -- On a reliable database and the ledgers of two different tokens with plain ids, a transfer
  -- of any amount of the one returns and keeps the ledger of the other.
  pub record_transfer-others :
      (t u from to : Bytes) (amount : ℤ) (event_type tx : Bytes) (b i : ℕ) (s : db.State)
      → IsPlain t
      → IsPlain u
      → t ≢ u
      → IsLedger t (L.entries s)
      → IsLedger u (L.entries s)
      → Returns
          (record_transfer db eth t from to amount event_type tx b i s)
          λ s'. IsLedger u (L.entries s')
  record_transfer-others t u from to amount event_type tx b i s pt pu apart h other =
      rw (record_transfer_lem db L eth t from to amount event_type tx b i s h.meta h.stored) (
        close-IsLedger db L t u pt pu apart _ _ _ (ground (arith, h.own)) (
          write_balance-IsLedger db L t u pt pu apart _ _ _ (E.hex-IsPlain to) (
            debited-IsLedger db L t u pt pu apart (eth.hex from)
              (balance_at t (eth.hex from) (L.entries s) -ℤ amount) s (E.hex-IsPlain from) other)))
