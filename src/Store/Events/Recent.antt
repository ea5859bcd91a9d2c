-- ===== src/Store/Events/Recent.antt =====
-- The newest events: `GetRecentEvents`, and `GetProtocolEvents` without a token and an address.
use mathlib.Core.List.{reverse-append, reverse-reverse, reverse-cons}
use agro_diamond_compliance.Prelude.{
  ℕ, zero, suc, ◌+◌, ◌≤◌, ◌≡◌, refl, sym, ap, ◌∙◌, true, false, Option, none, some, List, [], ◌∷◌,
  ◌++◌, reverse, append_assoc, append-nil, length, length-append, All-reverse, take, drop, ◌⊎◌, ltb,
  arith, if◌then◌else◌, Bool-cases, inl, inr,
}
use agro_diamond_compliance.Prelude.Int.{ℤ, pos_part}
use agro_diamond_compliance.Bytes.{Bytes, codes, less, has_prefix}
use agro_diamond_compliance.Action.{ok}
use agro_diamond_compliance.RocksDb.{RocksDb, IsReliable}
use agro_diamond_compliance.RocksDb.Entries.{Value, Rows, below, IsSorted}
use agro_diamond_compliance.RocksDb.Scan.{with_prefix}
use agro_diamond_compliance.RocksDb.Backward.{
  IsEnd, below-end, read_rows, read_rows-reverse, AreInside, AreOutside, with_prefix-AreInside,
  below-AreOutside,
}
use agro_diamond_compliance.Store.Keys.{prefix_event, prefix_generic_event}
use agro_diamond_compliance.Store.Records.{
  TransferEvent, GenericEvent, unmarshal_transfer_event, unmarshal_generic_event,
}
use agro_diamond_compliance.Store.Values.{decoded, push, below_limit, collect_back}
use agro_diamond_compliance.Store.Events.{
  get_recent_events, get_protocol_events, all_protocol_events, of_type,
}

module _ {A : Type 0} (p : Bytes) (read : Value → Option A) (limit : ℤ) where
  take-all : (found : List A) (n : ℕ) → length found ≤ n → take n found ≡ found
  take-all [] zero h = refl
  take-all [] (suc n) h = refl
  take-all (a ∷ found) zero h = absurd (omega arith)
  take-all (a ∷ found) (suc n) h = ap (λ l. a ∷ l) (take-all found n (omega arith))

  take-full : (found more : List A) (n : ℕ) → length found ≡ n → take n (found ++ more) ≡ found
  take-full [] more zero h = refl
  take-full [] more (suc n) h = absurd (omega arith)
  take-full (a ∷ found) more zero h = absurd (omega arith)
  take-full (a ∷ found) more (suc n) h = ap (λ l. a ∷ l) (take-full found more n (omega arith))

  push-read :
      (found : List A) (o : Option A) (rest : List A)
      → push found o ++ rest ≡ found ++ elim o [ none ↦ rest | some a ↦ a ∷ rest ]
  push-read found none rest = refl
  push-read found (some a) rest = append_assoc found (a ∷ []) rest

  length-push : (found : List A) (o : Option A) → length (push found o) ≤ length found + 1
  length-push found none = omega arith
  length-push found (some a) = omega (arith, length-append found (a ∷ []))

  -- Where the rows of the prefix end, the loop ends.
  collect_back-outside :
      (found : List A) (ys : Rows) → AreOutside p ys → collect_back p read limit found ys ≡ found
  unfolding collect_back
  collect_back-outside found [] h = refl
  collect_back-outside found ((k, v) ∷ ys) (hk, h) = ground arith

  collect_back-step :
      (found : List A) (k : Bytes) (v : Value) (m : Rows)
      → has_prefix p k ≡ true
      → collect_back p read limit found ((k, v) ∷ m) ≡ (
          if below_limit found limit
          then collect_back p read limit (push found (read v)) m
          else found)
  unfolding collect_back
  collect_back-step found k v m h = rw h refl

  collect_back-take :
      (found : List A) (xs ys : Rows)
      → AreInside p xs
      → AreOutside p ys
      → length found ≤ pos_part limit
      → collect_back p read limit found (xs ++ ys)
        ≡ take (pos_part limit) (found ++ read_rows read xs)
  unfolding read_rows below_limit
  collect_back-take found [] ys h out small =
      collect_back-outside found ys out
      ∙ sym (ap (take (pos_part limit)) (append-nil found) ∙ take-all found (pos_part limit) small)
  collect_back-take found ((k, v) ∷ xs) ys (hk, h) out small =
      elim (Bool-cases (ltb (length found) (pos_part limit))) [
        | inl more ↦
            collect_back-step found k v (xs ++ ys) hk
            ∙ (rw more (
                collect_back-take (push found (read v)) xs ys h out
                  (ground (arith, length-push found (read v)))
                ∙ ap (take (pos_part limit)) (push-read found (read v) (read_rows read xs))))
        | inr full ↦
            collect_back-step found k v (xs ++ ys) hk
            ∙ (rw full (sym (take-full found _ (pos_part limit) (ground arith))))
      ]

  -- On sorted rows, from below the end of the prefix: the last of what is read, the last first.
  pub collect_back-below :
      (q : Bytes) (m : Rows)
      → IsEnd p q
      → IsSorted m
      → collect_back p read limit [] (reverse (below q m))
        ≡ take (pos_part limit) (reverse (read_rows read (with_prefix p m)))
  collect_back-below q m e sorted =
      ap (λ l. collect_back p read limit [] (reverse l)) (below-end p q m e sorted)
      ∙ (ap (collect_back p read limit []) (reverse-append (below p m) (with_prefix p m))
          ∙ (collect_back-take [] (reverse (with_prefix p m)) (reverse (below p m))
                (All-reverse _ (with_prefix p m) (with_prefix-AreInside p m))
                (All-reverse _ (below p m) (below-AreOutside p m)) (omega arith)
              ∙ ap (take (pos_part limit)) (read_rows-reverse read (with_prefix p m))))

module _ {A : Type 0} where
  pub take-append-drop : (n : ℕ) (xs : List A) → take n xs ++ drop n xs ≡ xs
  take-append-drop zero xs = refl
  take-append-drop (suc n) [] = refl
  take-append-drop (suc n) (x ∷ xs) = ap (λ l. x ∷ l) (take-append-drop n xs)

  pub length-take : (n : ℕ) (xs : List A) → length (take n xs) ≤ n
  length-take zero xs = omega arith
  length-take (suc n) [] = omega arith
  length-take (suc n) (x ∷ xs) = omega (arith, length-take n xs)

  drop-cases : (n : ℕ) (xs : List A) → (drop n xs ≡ []) ⊎ (length (take n xs) ≡ n)
  drop-cases zero xs = inr refl
  drop-cases (suc n) [] = inl refl
  drop-cases (suc n) (x ∷ xs) = elim (drop-cases n xs) [ inl e ↦ inl e | inr e ↦ inr (omega arith) ]

  length-reverse : (xs : List A) → length (reverse xs) ≡ length xs
  length-reverse [] = refl
  length-reverse (x ∷ xs) =
      ap length (reverse-cons x xs)
      ∙ omega (arith, length-append (reverse xs) (x ∷ []), length-reverse xs)

  -- The last elements of a list, at most `n`, and all of them if there are not more.
  abbrev pub IsLast : ℕ → List A → List A → Type 0
  IsLast n all last =
      (earlier : List A) × (all ≡ earlier ++ last)
      × (length last ≤ n)
      × ((earlier ≡ []) ⊎ (length last ≡ n))

  pub newest-IsLast : (n : ℕ) (xs : List A) → IsLast n xs (reverse (take n (reverse xs)))
  newest-IsLast n xs =
      let back = reverse xs in
      let size = length-reverse (take n back) in
      (
        reverse (drop n back),
        sym (
            sym (reverse-append (take n back) (drop n back))
            ∙ (ap reverse (take-append-drop n back) ∙ reverse-reverse xs)),
        omega (arith, size, length-take n back),
        elim (drop-cases n back) [ inl e ↦ inl (ap reverse e) | inr e ↦ inr (size ∙ e) ],
      )

pub less-nil : (k : Bytes) → less k [] ≡ false
unfolding less
less-nil [] = refl
less-nil (c ∷ k) = refl

prefix_event-IsEnd : IsEnd prefix_event (codes "e;")
unfolding less has_prefix
prefix_event-IsEnd [] = refl
prefix_event-IsEnd (a ∷ []) = ground arith
prefix_event-IsEnd (a ∷ b ∷ k) = ground (arith, less-nil k)

prefix_generic_event-IsEnd : IsEnd prefix_generic_event (codes "ge;")
unfolding less has_prefix
prefix_generic_event-IsEnd [] = refl
prefix_generic_event-IsEnd (a ∷ []) = ground arith
prefix_generic_event-IsEnd (a ∷ b ∷ []) = ground arith
prefix_generic_event-IsEnd (a ∷ b ∷ c ∷ k) = ground (arith, less-nil k)

-- The transfer events of a table, and its protocol events of a type, in the order of the keys.
abbrev pub transfer_events_in : Rows → List TransferEvent
transfer_events_in m = read_rows (decoded unmarshal_transfer_event) (with_prefix prefix_event m)

abbrev pub protocol_events_in : Bytes → Rows → List GenericEvent
protocol_events_in event_type m =
    read_rows (λ v. of_type event_type (decoded unmarshal_generic_event v))
      (with_prefix prefix_generic_event m)

module _ (db : RocksDb) (L : IsReliable db) where
  -- On a reliable database, `GetRecentEvents` returns, without a change, the last of the stored
  -- transfer events in the order of their keys: no more than the limit, and all of them if they
  -- are not more.
  pub get_recent_events-IsLast :
      (limit : ℤ) (s : db.State)
      → (events : List TransferEvent) × (get_recent_events db limit s ≡ ok events s)
        × IsLast (pos_part limit) (transfer_events_in (L.entries s)) events
  unfolding get_recent_events
  get_recent_events-IsLast limit s = (
    _,
    ap
          (λ rows.
            ok
              (reverse (collect_back prefix_event (decoded unmarshal_transfer_event) limit [] rows))
              s)
          (L.seek_back_lem s (codes "e;"))
        ∙ ap (λ l. ok (reverse l) s)
            (collect_back-below prefix_event (decoded unmarshal_transfer_event) limit (codes "e;")
              (L.entries s) prefix_event-IsEnd (L.entries-IsSorted s)),
    newest-IsLast (pos_part limit) (transfer_events_in (L.entries s)),
  )

  -- On a reliable database, `GetProtocolEvents` without a token and an address returns, without a
  -- change, the last of the stored events of the wanted type (of any type, if none is wanted) in
  -- the order of their keys: no more than the limit, and all of them if they are not more.
  pub get_protocol_events-IsLast :
      (limit : ℤ) (event_type : Bytes) (s : db.State)
      → (events : List GenericEvent) × (get_protocol_events db limit event_type [] [] s
          ≡ ok events s)
        × IsLast (pos_part limit) (protocol_events_in event_type (L.entries s)) events
  unfolding get_protocol_events all_protocol_events
  get_protocol_events-IsLast limit event_type s =
      let read : Value → Option GenericEvent =
        λ v. of_type event_type (decoded unmarshal_generic_event v) in
      (
        _,
        ap (λ rows. ok (reverse (collect_back prefix_generic_event read limit [] rows)) s)
              (L.seek_back_lem s (codes "ge;"))
            ∙ ap (λ l. ok (reverse l) s)
                (collect_back-below prefix_generic_event read limit (codes "ge;") (L.entries s)
                  prefix_generic_event-IsEnd (L.entries-IsSorted s)),
        newest-IsLast (pos_part limit) (protocol_events_in event_type (L.entries s)),
      )
