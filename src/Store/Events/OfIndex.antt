-- ===== src/Store/Events/OfIndex.antt =====
-- `GetProtocolEvents` of a token or an address: the rows of a secondary index name the primary rows.
use agro_diamond_compliance.Prelude.{
  ◌≡◌, ◌≢◌, ◌⊎◌, refl, ap, ◌∙◌, ◌&&◌, Option, none, some, List, [], ◌∷◌, ◌++◌, reverse, arith,
  if◌then◌else◌, Bool-cases, inl, inr,
}
use agro_diamond_compliance.Prelude.Int.{ℤ, pos_part}
use agro_diamond_compliance.Bytes.{Bytes, less, has_prefix}
use agro_diamond_compliance.Action.{Action, ok, err, panic, pure, ◌>>=◌}
use agro_diamond_compliance.RocksDb.{RocksDb, IsReliable}
use agro_diamond_compliance.RocksDb.Entries.{Value, Rows, lookup}
use agro_diamond_compliance.RocksDb.Scan.{with_prefix}
use agro_diamond_compliance.RocksDb.Backward.{IsEnd, read_rows}
use agro_diamond_compliance.Store.Keys.{prefix_ge_token, prefix_ge_addr}
use agro_diamond_compliance.Store.Records.{GenericEvent, unmarshal_generic_event}
use agro_diamond_compliance.Store.Values.{as_string, decoded, push, below_limit, collect_back}
use agro_diamond_compliance.Store.Events.Recent.{
  IsLast, newest-IsLast, collect_back-below, less-nil,
}
use agro_diamond_compliance.Store.Events.{
  get_protocol_events, get_protocol_events_by_index, collect_index, read_primary, of_type,
  bump_last,
}

bump_last-colon : (p : Bytes) → bump_last (p ++ b':' ∷ []) ≡ some (p ++ b';' ∷ [])
unfolding bump_last
bump_last-colon [] = refl
bump_last-colon (c ∷ []) = refl
bump_last-colon (c ∷ d ∷ p) = rw (bump_last-colon (d ∷ p)) refl

colon-IsEnd : (p : Bytes) → IsEnd (p ++ b':' ∷ []) (p ++ b';' ∷ [])
unfolding less has_prefix
colon-IsEnd [] [] = refl
colon-IsEnd [] (a ∷ k) = ground (arith, less-nil k)
colon-IsEnd (c ∷ p) [] = refl
colon-IsEnd (c ∷ p) (a ∷ k) = ground (arith, colon-IsEnd p k)

-- The event of the primary row that an index row names, if it is of the wanted type.
abbrev pub referred : Rows → Bytes → Value → Option GenericEvent
referred m event_type v = elim (lookup (as_string v) m) [
  | none ↦ none
  | some found ↦ of_type event_type (decoded unmarshal_generic_event found)
]

-- The events that the index rows of a prefix name, in the order of the index.
abbrev pub referred_in : Bytes → Bytes → Rows → List GenericEvent
referred_in prefix event_type m = read_rows (referred m event_type) (with_prefix prefix m)

after-ok :
    {S A B : Type 0} (m : Action S A) (f : A → Action S B) (s s' : S) (a : A)
    → m s ≡ ok a s'
    → (m >>= f) s ≡ f a s'
after-ok m f s s' a e =
    ap (λ o. elim o [ ok b t ↦ f b t | err x t ↦ err x t | panic t ↦ panic t ]) e

-- The prefix of the index of the token, or of the address where no token is given.
abbrev pub index_prefix : Bytes → Bytes → Bytes
index_prefix [] address = prefix_ge_addr ++ (address ++ b':' ∷ [])
index_prefix (c ∷ t) address = prefix_ge_token ++ ((c ∷ t) ++ b':' ∷ [])

module _ (db : RocksDb) (L : IsReliable db) (limit : ℤ) (event_type : Bytes) (s : db.State) where
  read_primary-referred :
      (v : Value)
      → read_primary db event_type (as_string v) s ≡ ok (referred (L.entries s) event_type v) s
  unfolding read_primary
  read_primary-referred v = rw (read_primary, L.get_lem (as_string v) s) refl

  collect_index-step :
      (prefix : Bytes) (events : List GenericEvent) (k : Bytes) (v : Value) (rows : Rows)
      → collect_index db prefix limit event_type events ((k, v) ∷ rows) s ≡ (
          if below_limit events limit && has_prefix prefix k
          then collect_index db prefix limit event_type
              (push events (referred (L.entries s) event_type v))
              rows
              s
          else ok events s)
  unfolding collect_index
  collect_index-step prefix events k v rows =
      elim (Bool-cases (below_limit events limit && has_prefix prefix k)) [
        | inl e ↦
            rw (collect_index, e)
              (after-ok (read_primary db event_type (as_string v))
                (λ found. collect_index db prefix limit event_type (push events found) rows) s s _
                (read_primary-referred v))
        | inr e ↦ rw (collect_index, e) refl
      ]

  collect_index-back :
      (prefix : Bytes) (events : List GenericEvent) (rows : Rows)
      → collect_index db prefix limit event_type events rows s
        ≡ ok (collect_back prefix (referred (L.entries s) event_type) limit events rows) s
  unfolding collect_back
  collect_index-back prefix events [] = unfold collect_index in refl
  collect_index-back prefix events ((k, v) ∷ rows) =
      let next = push events (referred (L.entries s) event_type v) in
      collect_index-step prefix events k v rows
      ∙ ground (arith, collect_index-back prefix next rows)

  by_index-IsLast :
      (p : Bytes)
      → (events : List GenericEvent) × (get_protocol_events_by_index db
            (p ++ b':' ∷ [])
            limit
            event_type
            s
          ≡ ok events s)
        × IsLast (pos_part limit) (referred_in (p ++ b':' ∷ []) event_type (L.entries s)) events
  unfolding get_protocol_events_by_index
  by_index-IsLast p =
      let prefix = p ++ b':' ∷ [] in
      let read = referred (L.entries s) event_type in
      (
        _,
        rw (get_protocol_events_by_index, bump_last-colon p)
            (after-ok
                (collect_index db prefix limit event_type [] (db.seek_back s (p ++ b';' ∷ [])))
                (λ events. pure (reverse events)) s s _
                (collect_index-back prefix [] (db.seek_back s (p ++ b';' ∷ [])))
              ∙ (ap (λ rows. ok (reverse (collect_back prefix read limit [] rows)) s)
                    (L.seek_back_lem s (p ++ b';' ∷ []))
                  ∙ ap (λ l. ok (reverse l) s)
                      (collect_back-below prefix read limit (p ++ b';' ∷ []) (L.entries s)
                        (colon-IsEnd p) (L.entries-IsSorted s)))),
        newest-IsLast (pos_part limit) (referred_in prefix event_type (L.entries s)),
      )

  -- On a reliable database, `GetProtocolEvents` of a token, or of an address without a token,
  -- returns, without a change, the last of the events of the wanted type (of any type, if none is
  -- wanted) in the primary rows that the index of the token, or else of the address, names, in the
  -- order of the index: no more than the limit, and all of them if they are not more.
  pub get_protocol_events-referred :
      (token_id address : Bytes)
      → (token_id ≢ []) ⊎ (address ≢ [])
      → (events : List GenericEvent) × (get_protocol_events db limit event_type token_id address s
          ≡ ok events s)
        × IsLast
            (pos_part limit)
            (referred_in (index_prefix token_id address) event_type (L.entries s))
            events
  unfolding get_protocol_events
  get_protocol_events-referred [] [] (inl h) = absurd (h refl)
  get_protocol_events-referred [] [] (inr h) = absurd (h refl)
  get_protocol_events-referred [] (c ∷ a) h = by_index-IsLast (prefix_ge_addr ++ c ∷ a)
  get_protocol_events-referred (c ∷ t) address h = by_index-IsLast (prefix_ge_token ++ c ∷ t)
