-- ===== src/Store/Ledger/Frame.antt =====
-- What the rows of other tokens and of other kinds mean for the ledger of a token: nothing.
use agro_diamond_compliance.Prelude.{◌≡◌, refl, ◌≢◌, sym, ap, ◌∙◌, false, arith, bytes_eq}
use agro_diamond_compliance.Bytes.{Bytes, has_prefix, IsPlain}
use agro_diamond_compliance.RocksDb.Entries.{
  Value, Rows, lookup, insert, erase, IsSorted, lookup-insert, lookup-erase,
}
use agro_diamond_compliance.Store.Keys.{
  holder_prefix, holder_key, holder_addr_key, token_meta_key, prefix_cursor,
}
use agro_diamond_compliance.Store.Keys.Disjoint.{has_prefix-holder_key}
use agro_diamond_compliance.Store.Ledger.Rows.{
  IsLedger, supply_in-insert, holders_in-insert, supply_in-erase, holders_in-erase, supply_in,
  holders_in,
}

-- A key of no row of the token's ledger.
pub record IsForeign (t k : Bytes) : Type 0 where
  pub no_holder : has_prefix (holder_prefix t) k ≡ false
  pub no_mirror : (a : Bytes) → IsPlain a → k ≢ holder_addr_key a t
  pub not_meta : k ≢ token_meta_key t

pub foreign-ne-holder_key : (t k a : Bytes) → IsForeign t k → k ≢ holder_key t a
foreign-ne-holder_key t k a f e =
    ground (arith, f.no_holder, ap (has_prefix (holder_prefix t)) e, has_prefix-holder_key t a)

-- A table with the same rows of the ledger, and the same sums, is a ledger as well.
same-IsLedger :
    (t : Bytes) (m m' : Rows)
    → ((a : Bytes) → lookup (holder_key t a) m' ≡ lookup (holder_key t a) m)
    → ((a : Bytes) → IsPlain a → lookup (holder_addr_key a t) m' ≡ lookup (holder_addr_key a t) m)
    → lookup (token_meta_key t) m' ≡ lookup (token_meta_key t) m
    → supply_in t m' ≡ supply_in t m
    → holders_in t m' ≡ holders_in t m
    → IsLedger t m
    → IsLedger t m'
same-IsLedger t m m' holder mirror meta supply count h = record {
  meta = h.meta;
  stored = rw meta h.stored;
  own = h.own;
  supply = rw supply h.supply;
  count = rw count h.count;
  book = record {
    positive = λ a v e. h.book.positive a v (sym (holder a) ∙ e);
    mirrored = λ a p. mirror a p ∙ (h.book.mirrored a p ∙ sym (holder a));
  };
}

pub lookup-insert_ne :
    (k j : Bytes) (v : Value) (m : Rows) → k ≢ j → lookup j (insert k v m) ≡ lookup j m
lookup-insert_ne k j v m n = ground (arith, lookup-insert k j v m)

pub lookup-erase_ne :
    (k j : Bytes) (m : Rows) → IsSorted m → k ≢ j → lookup j (erase k m) ≡ lookup j m
lookup-erase_ne k j m sorted n = ground (arith, lookup-erase k j m sorted)

pub IsLedger-insert :
    (t k : Bytes) (v : Value) (m : Rows)
    → IsSorted m
    → IsForeign t k
    → IsLedger t m
    → IsLedger t (insert k v m)
IsLedger-insert t k v m sorted f =
    same-IsLedger t m (insert k v m)
      (λ a. lookup-insert_ne k (holder_key t a) v m (foreign-ne-holder_key t k a f))
      (λ a p. lookup-insert_ne k (holder_addr_key a t) v m (f.no_mirror a p))
      (lookup-insert_ne k (token_meta_key t) v m f.not_meta)
      (supply_in-insert t k v m sorted f.no_holder) (holders_in-insert t k v m sorted f.no_holder)

pub IsLedger-erase :
    (t k : Bytes) (m : Rows) → IsSorted m → IsForeign t k → IsLedger t m → IsLedger t (erase k m)
IsLedger-erase t k m sorted f =
    same-IsLedger t m (erase k m)
      (λ a. lookup-erase_ne k (holder_key t a) m sorted (foreign-ne-holder_key t k a f))
      (λ a p. lookup-erase_ne k (holder_addr_key a t) m sorted (f.no_mirror a p))
      (lookup-erase_ne k (token_meta_key t) m sorted f.not_meta) (supply_in-erase t k m f.no_holder)
      (holders_in-erase t k m f.no_holder)

pub cursor-IsForeign : (t : Bytes) → IsForeign t prefix_cursor
unfolding holder_prefix holder_addr_key token_meta_key has_prefix
cursor-IsForeign t = record {
  no_holder = refl;
  no_mirror = λ a p e. ground arith;
  not_meta = λ e. ground arith;
}
