-- ===== src/Map/Laws.antt =====
-- The storage of src/map.c under its entries: growth, shrinking and the insertion of a pair.
pub mod Operations
pub mod Lookup
use azure_c_shared_utility.Base.{
  ℕ, zero, suc, ◌+◌, ◌-◌, ◌≡◌, ◌∙◌, sym, ap, refl, Bool, true, false, ◌&&◌, Option, none, some, [],
  ◌∷◌, ◌++◌, append_assoc, append-nil, arith, Bytes, length, take, length-append, take_append,
  if◌then◌else◌, ◌==◌, is_some, Bool-cases, inl, inr, ◌>>=◌, Outcomes,
}
use azure_c_shared_utility.Map.{
  MapData, Slots, Filter, map_ok, map_error, bytes_eq, store, find_loop, find_key, grown,
  increase_storage, decrease_storage, insert_copies, insert_new, insert_reply, rejects, add,
  add_unless, add_or_update, add_or_update_at, update_value, delete, delete_at, moved_down,
}
use azure_c_shared_utility.Map.Slots.{
  length-key_slots, length-value_slots, shift, find_loop_lem, Found, Search, missing, found,
  Search-entries, key_slots-append, value_slots-append, moved_down_lem, store_lem,
}
use azure_c_shared_utility.Map.Spec.{
  Entries, key_slots, value_slots, Holds, Refines, After, after, shrunk_filter, insert_spec,
  add_spec, add_or_update_spec, delete_spec, index_of, lookup, removed, replaced,
}

-- A map with entries `es`.
abbrev pub full : Entries → Slots → Slots → Option Filter → MapData
full es sk sv f = record {
  keys = key_slots es ++ sk;
  values = value_slots es ++ sv;
  count = length es;
  filter = f;
}

pub full-Holds : (es : Entries) (sk sv : Slots) (f : Option Filter) → Holds (full es sk sv f) es f
full-Holds es sk sv f = record {
  spare_keys = sk;
  spare_values = sv;
  keys = refl;
  values = refl;
  count = refl;
  filter = refl;
}

pub Holds-full :
    {m : MapData} {es : Entries} {f : Option Filter} (h : Holds m es f)
    → m ≡ full es h.spare_keys h.spare_values f
Holds-full h =
    λ i. record { keys = h.keys i; values = h.values i; count = h.count i; filter = h.filter i }

shift_zero : (o : Option ℕ) → shift 0 o ≡ o
shift_zero none = refl
shift_zero (some j) = ap some (omega arith)

pub find_key-full :
    (es : Entries) (sk sv : Slots) (f : Option Filter) (key : Bytes)
    → find_key (full es sk sv f) key ≡ some (index_of key es)
unfolding find_key
find_key-full es sk sv f key = find_loop_lem key es 0 sk ∙ ap some (shift_zero (index_of key es))

-- The arrays after a realloc to the slots in use.
cut :
    (b : Bool) (xs rest : Slots) (n : ℕ)
    → n ≡ length xs
    → (spare : Slots) × ((if b then take n (xs ++ rest) else xs ++ rest) ≡ xs ++ spare)
cut true xs rest n e = ([], rw e (take_append xs rest ∙ sym (append-nil xs)))
cut false xs rest n e = (rest, refl)

pub decrease_storage-Holds :
    (got : Outcomes) (es : Entries) (rk rv : Slots) (f : Option Filter) (n : ℕ)
    → n ≡ suc (length es)
    → Holds
        (decrease_storage got (record {
          keys = key_slots es ++ rk;
          values = value_slots es ++ rv;
          count = n;
          filter = f;
        }))
        es
        (shrunk_filter es f)
unfolding decrease_storage
decrease_storage-Holds got [] rk rv f n e =
    let one : (n == 1) ≡ true = ground arith in rw one (full-Holds [] [] [] none)
decrease_storage-Holds got ((k, v) ∷ es) rk rv f n e =
    let more : (n == 1) ≡ false = ground arith in
    let ks =
      cut (got 0) (key_slots ((k, v) ∷ es)) rk (n - 1) (omega (arith, length-key_slots es)) in
    let vs =
      cut (got 1) (value_slots ((k, v) ∷ es)) rv (n - 1) (omega (arith, length-value_slots es)) in
    rw more (record {
      spare_keys = ks.0;
      spare_values = vs.0;
      keys = ks.1;
      values = vs.1;
      count = omega arith;
      filter = ground arith;
    })

no_keys : (es : Entries) → (length es == 0) ≡ true → [] ≡ key_slots es ++ []
no_keys [] e = refl
no_keys (x ∷ es) e = absurd (ground arith)

grown_lem : (xs spare : Slots) (n : ℕ) → n ≡ length xs → grown (xs ++ spare) n ≡ xs ++ (none ∷ [])
unfolding grown
grown_lem xs spare n e = rw (e, take_append xs spare)

module _ (got : Outcomes) (es : Entries) (sk sv : Slots) (f : Option Filter) where
  grown_keys : grown (key_slots es ++ sk) (length es) ≡ key_slots es ++ (none ∷ [])
  grown_keys = grown_lem (key_slots es) sk (length es) (sym (length-key_slots es))

  grown_values : grown (value_slots es ++ sv) (length es) ≡ value_slots es ++ (none ∷ [])
  grown_values = grown_lem (value_slots es) sv (length es) (sym (length-value_slots es))

  -- The map with a new slot in each array.
  abbrev wider : MapData
  wider = record {
    keys = key_slots es ++ (none ∷ []);
    values = value_slots es ++ (none ∷ []);
    count = length es + 1;
    filter = f;
  }

  increase_done :
      got 0 ≡ true → got 1 ≡ true → increase_storage got (full es sk sv f) ≡ (true, wider)
  unfolding increase_storage
  increase_done got0 got1 = rw (got0, got1, grown_keys, grown_values)

  increase_failed :
      (got 0 && got 1) ≡ false
      → (m : MapData) × (increase_storage got (full es sk sv f) ≡ (false, m)) × Holds m es f
  unfolding increase_storage
  increase_failed lost = elim (Bool-cases (got 0)) [
    | inr no0 ↦ rw no0 (full es sk sv f, refl, full-Holds es sk sv f)
    | inl got0 ↦
        let no1 : got 1 ≡ false = rw got0 at lost in
        elim (Bool-cases (length es == 0)) [
          | inl nil ↦ rw (got0, no1, nil) (_, refl, spared [] [] (no_keys es nil))
          | inr more ↦
              rw (got0, no1, more)
                (elim (Bool-cases (got 2)) [
                  | inl got2 ↦ rw (got2, grown_keys) (_, refl, spared _ [] undone)
                  | inr no2 ↦ rw (no2, grown_keys) (_, refl, spared _ (none ∷ []) refl)
                ])
        ]
  ]
    where
      spared :
          (keys spare : Slots)
          → keys ≡ key_slots es ++ spare
          → Holds
              (record { keys = keys; values = value_slots es ++ sv; count = length es; filter = f })
              es
              f
      spared keys spare e = record {
        spare_keys = spare;
        spare_values = sv;
        keys = e;
        values = refl;
        count = refl;
        filter = refl;
      }

      undone : take (length es) (key_slots es ++ (none ∷ [])) ≡ key_slots es ++ []
      undone =
          rw (sym (length-key_slots es))
            (take_append (key_slots es) (none ∷ []) ∙ sym (append-nil (key_slots es)))

  pub insert_copies-Refines :
      (key value : Bytes)
      → (m : MapData) × (insert_copies got wider key value ≡ some (got 0 && got 1, m))
        × Holds m
            (if got 0 && got 1 then es ++ ((key, value) ∷ []) else es)
            (if got 0 && got 1 then f else shrunk_filter es f)
  unfolding insert_copies
  insert_copies-Refines key value = elim (Bool-cases (got 0)) [
    | inr no0 ↦ rw no0 (_, refl, decrease_storage-Holds _ es _ _ f _ (omega arith))
    | inl got0 ↦ rw got0 (elim (Bool-cases (got 1)) [
      | inr no1 ↦ rw no1 (_, refl, decrease_storage-Holds _ es _ _ f _ (omega arith))
      | inl got1 ↦
          rw (got1, last_key, last_value)
            (
              _,
              refl,
              record {
                spare_keys = [];
                spare_values = [];
                keys = all_keys;
                values = all_values;
                count = omega (arith, length-append {0} es ((key, value) ∷ []));
                filter = refl;
              },
            )
    ])
  ]
    where
      last_key :
          store (key_slots es ++ (none ∷ [])) (length es + 1 - 1) (some key)
          ≡ some (key_slots es ++ (some key ∷ []))
      last_key =
          let n : length es + 1 - 1 ≡ length (key_slots es) = omega (arith, length-key_slots es) in
          rw n (store_lem (key_slots es) [] none (some key))

      last_value :
          store (value_slots es ++ (none ∷ [])) (length es + 1 - 1) (some value)
          ≡ some (value_slots es ++ (some value ∷ []))
      last_value =
          let n : length es + 1 - 1 ≡ length (value_slots es) =
            omega (arith, length-value_slots es) in
          rw n (store_lem (value_slots es) [] none (some value))

      all_keys : key_slots es ++ (some key ∷ []) ≡ key_slots (es ++ ((key, value) ∷ [])) ++ []
      all_keys = rw (key_slots-append es ((key, value) ∷ [])) (sym (append-nil _))

      all_values :
          value_slots es ++ (some value ∷ []) ≡ value_slots (es ++ ((key, value) ∷ [])) ++ []
      all_values = rw (value_slots-append es ((key, value) ∷ [])) (sym (append-nil _))

pub insert_reply-Refines :
    (got : Outcomes) (es : Entries) (sk sv : Slots) (f : Option Filter) (key value : Bytes)
    → Refines (insert_reply got (full es sk sv f) key value) (insert_spec got es f key value)
unfolding insert_reply insert_new
insert_reply-Refines got es sk sv f key value = elim (Bool-cases (got 0 && got 1)) [
  | inr lost ↦ let (m, e, h) = increase_failed got es sk sv f lost in rw (e, lost) (m, refl, h)
  | inl grew ↦
      let grown0 : got 0 ≡ true = ground arith in
      let grown1 : got 1 ≡ true = ground arith in
      let (m, e, h) = insert_copies-Refines (λ i. got (2 + i)) es sk sv f key value in
      rw (increase_done got es sk sv f grown0 grown1, e, grew)
        (elim (Bool-cases (got 2 && got 3)) [
          | inl copied ↦ rw copied (m, refl, rw copied at h)
          | inr lost ↦ rw lost (m, refl, rw lost at h)
        ])
]
