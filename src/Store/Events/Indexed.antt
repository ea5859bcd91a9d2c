-- ===== src/Store/Events/Indexed.antt =====
-- `PutGenericEvent`: the rows of the two indexes and the primary row that they name.
use agro_diamond_compliance.Prelude.{
  ℕ, ◌≡◌, ◌≢◌, refl, ap, ◌∙◌, none, some, [], ◌∷◌, ◌++◌, ◌<◌, ◌^◌, arith,
}
use agro_diamond_compliance.Bytes.{Bytes}
use agro_diamond_compliance.Bytes.Decimal.{IsDigits}
use agro_diamond_compliance.Bytes.Padded.{format_padded, format_padded-IsDigits}
use agro_diamond_compliance.Action.{Returns, ok, ◌>>=◌}
use agro_diamond_compliance.RocksDb.{RocksDb, IsReliable}
use agro_diamond_compliance.RocksDb.Entries.{raw, object, lookup, insert, lookup-insert}
use agro_diamond_compliance.Store.Keys.{
  prefix_generic_event, generic_event_key, ge_token_key, ge_addr_key, position,
}
use agro_diamond_compliance.Store.Keys.Disjoint.{append_cancel}
use agro_diamond_compliance.Store.Records.{
  GenericEvent, marshal_generic_event, unmarshal_generic_event,
}
use agro_diamond_compliance.Store.Records.RoundTrip.{IsValid, unmarshal-marshal_generic_event}
use agro_diamond_compliance.Store.Values.{as_string, decoded}
use agro_diamond_compliance.Store.Events.OfIndex.{referred}
use agro_diamond_compliance.Store.Events.{
  put_generic_event, put_index, index_of_token, index_of_address, of_type,
}

-- A protocol event with texts that JSON keeps, numbers that fit, a token and an address.
pub record IsComplete (e : GenericEvent) : Type 0 where
  pub valid_tx : IsValid e.tx_hash
  pub small_block : e.block < 2 ^ 64
  pub small_index : e.log_index < 2 ^ 64
  pub valid_type : IsValid e.event_type
  pub valid_token : IsValid e.token_id
  pub valid_address : IsValid e.address
  pub valid_data : IsValid e.data_json
  pub has_token : e.token_id ≢ []
  pub has_address : e.address ≢ []

-- A position starts with a digit.
digits-ne : (d r y : Bytes) (c : ℕ) → IsDigits d → b':' < c → d ++ b':' ∷ r ≢ c ∷ y
digits-ne [] r y c h l e = ground arith
digits-ne (x ∷ d) r y c (hx, h) l e = ground arith

position-ne : (b i c : ℕ) (y : Bytes) → b':' < c → position b i ≢ c ∷ y
unfolding position
position-ne b i c y l = digits-ne (format_padded 12 b) _ y c (format_padded-IsDigits 12 b) l

primary-ne-token : (b i : ℕ) (t : Bytes) → generic_event_key b i ≢ ge_token_key t b i
unfolding generic_event_key ge_token_key
primary-ne-token b i t e =
    position-ne b i b't' _ (omega arith) (append_cancel prefix_generic_event _ _ e)

primary-ne-addr : (b i : ℕ) (a : Bytes) → generic_event_key b i ≢ ge_addr_key a b i
unfolding generic_event_key ge_addr_key
primary-ne-addr b i a e =
    position-ne b i b'a' _ (omega arith) (append_cancel prefix_generic_event _ _ e)

token-ne-addr : (b i : ℕ) (t a : Bytes) → ge_addr_key a b i ≢ ge_token_key t b i
unfolding ge_token_key ge_addr_key
token-ne-addr b i t a e = ground arith

module _ (db : RocksDb) (L : IsReliable db) (e : GenericEvent) (C : IsComplete e) where
  abbrev primary : Bytes
  primary = generic_event_key e.block e.log_index

  abbrev token_row : Bytes
  token_row = ge_token_key e.token_id e.block e.log_index

  abbrev address_row : Bytes
  address_row = ge_addr_key e.address e.block e.log_index

  put_index_lem :
      (row : Bytes → Bytes) (text : Bytes) (s : db.State)
      → text ≢ []
      → put_index db row text primary s ≡ ok tt (L.write (row text) (raw primary) s)
  unfolding put_index
  put_index_lem row [] s h = absurd (h refl)
  put_index_lem row (c ∷ t) s h = L.put_lem _ _ s

  abbrev stored : db.State → db.State
  stored s =
      L.write address_row (raw primary)
        (L.write token_row (raw primary) (L.write primary (object (marshal_generic_event e)) s))

  put_generic_event_lem : (s : db.State) → put_generic_event db e s ≡ ok tt (stored s)
  unfolding put_generic_event index_of_token index_of_address
  put_generic_event_lem s =
      rw
        (
          ◌>>=◌,
          L.put_lem,
          put_index_lem (λ t. ge_token_key t e.block e.log_index) e.token_id _ C.has_token,
        )
        (put_index_lem (λ a. ge_addr_key a e.block e.log_index) e.address _ C.has_address)

  token_row_lem : (s : db.State) → lookup token_row (L.entries (stored s)) ≡ some (raw primary)
  token_row_lem s =
      let m = insert primary (object (marshal_generic_event e)) (L.entries s) in
      simp L.entries-write (
        ground (
          arith,
          lookup-insert address_row token_row (raw primary) (insert token_row (raw primary) m),
          lookup-insert token_row token_row (raw primary) m,
          token-ne-addr e.block e.log_index e.token_id e.address,
        ))

  address_row_lem : (s : db.State) → lookup address_row (L.entries (stored s)) ≡ some (raw primary)
  address_row_lem s =
      let m = insert primary (object (marshal_generic_event e)) (L.entries s) in
      simp L.entries-write (
        ground (
          arith,
          lookup-insert address_row address_row (raw primary) (insert token_row (raw primary) m),
        ))

  primary_row_lem :
      (s : db.State)
      → lookup primary (L.entries (stored s)) ≡ some (object (marshal_generic_event e))
  primary_row_lem s =
      let m = insert primary (object (marshal_generic_event e)) (L.entries s) in
      simp L.entries-write (
        ground (
          arith,
          lookup-insert address_row primary (raw primary) (insert token_row (raw primary) m),
          lookup-insert token_row primary (raw primary) m,
          lookup-insert primary primary (object (marshal_generic_event e)) (L.entries s),
          primary-ne-token e.block e.log_index e.token_id,
          primary-ne-addr e.block e.log_index e.address,
        ))

  referred_lem : (s : db.State) → referred (L.entries (stored s)) [] (raw primary) ≡ some e
  unfolding as_string of_type decoded
  referred_lem s =
      ap (λ o. elim o [ none ↦ none | some v ↦ of_type [] (decoded unmarshal_generic_event v) ])
        (primary_row_lem s)
      ∙ ap (of_type []) (
          unmarshal-marshal_generic_event e C.valid_tx C.small_block C.small_index C.valid_type
            C.valid_token C.valid_address C.valid_data)

  -- On a reliable database, after `PutGenericEvent` of a well-formed event of a token and an
  -- address, which returns, the row in the index of the token and the row in that of the address
  -- name one primary row, and the event is read from it.
  pub put_generic_event-referred :
      (s : db.State)
      → Returns (put_generic_event db e s) λ s'.
        (lookup token_row (L.entries s') ≡ some (raw primary))
        × (lookup address_row (L.entries s') ≡ some (raw primary))
        × (referred (L.entries s') [] (raw primary) ≡ some e)
  put_generic_event-referred s =
      rw (put_generic_event_lem s) (token_row_lem s, address_row_lem s, referred_lem s)
