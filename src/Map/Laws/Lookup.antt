-- ===== src/Map/Laws/Lookup.antt =====
-- The look-ups of src/map.c, alone and behind the operations that change the map.
use azure_c_shared_utility.Base.{
  ◌≡◌, ◌∙◌, sym, ap, refl, Bool, true, false, ◌&&◌, Option, none, some, [], ◌∷◌, ◌++◌, arith, Bytes,
  length, get_elem?, if◌then◌else◌, ◌==◌, is_some, Bool-cases, inl, inr, Outcomes,
}
use azure_c_shared_utility.Map.{
  MapData, Slots, Filter, Reply, MapResult, map_ok, map_error, map_filter_reject, bytes_eq, rejects,
  value_at, get_value_from_key, add_or_update,
}
use azure_c_shared_utility.Map.Laws.{Holds-full, find_key-full}
use azure_c_shared_utility.Map.Laws.Operations.{values_at, add_or_update-Refines}
use azure_c_shared_utility.Map.Slots.{length-value_slots, missing, found, Search-entries}
use azure_c_shared_utility.Map.Spec.{
  Entries, value_slots, Holds, Refines, After, insert_spec, add_or_update_spec, lookup, replaced,
}

pub bytes_eq_refl : (a : Bytes) → bytes_eq a a ≡ true
unfolding bytes_eq
bytes_eq_refl [] = refl
bytes_eq_refl (x ∷ a) = let same : (x == x) ≡ true = ground arith in rw same (bytes_eq_refl a)

pub bytes_eq_sound : (a b : Bytes) → bytes_eq a b ≡ true → a ≡ b
unfolding bytes_eq
bytes_eq_sound [] [] e = refl
bytes_eq_sound [] (y ∷ b) e = absurd (ground arith)
bytes_eq_sound (x ∷ a) [] e = absurd (ground arith)
bytes_eq_sound (x ∷ a) (y ∷ b) e =
    let head : x ≡ y = ground arith in
    let tail : a ≡ b = bytes_eq_sound a b (ground arith) in λ i. head i ∷ tail i

get_elem?_at :
    (xs spare : Slots) (p : Option Bytes) → get_elem? (xs ++ (p ∷ spare)) (length xs) ≡ some p
get_elem?_at [] spare p = refl
get_elem?_at (x ∷ xs) spare p = get_elem?_at xs spare p

-- Map_GetValueFromKey on a map in good order returns the value of the first entry with the key,
-- and NULL if no entry has it, without an access out of range.
pub get_value_from_key-Holds :
    {m : MapData} {es : Entries} {f : Option Filter} (key : Bytes)
    → Holds m es f
    → get_value_from_key m key ≡ some (lookup key es)
unfolding get_value_from_key value_at
get_value_from_key-Holds {es = es} {f = f} key h =
    rw (Holds-full h, find_key-full es h.spare_keys h.spare_values f key)
      (elim (Search-entries key es) [
        | missing i l ↦ rw (i, l) refl
        | found s ↦
            rw (s.index, s.hit, values_at s h.spare_values, sym (length-value_slots s.pre))
              (get_elem?_at (value_slots s.pre) _ (some s.v))
      ])

no_clash : true ≡ false → ⊥
no_clash e = ground arith

other_key :
    (key k j : Bytes) → bytes_eq k key ≡ false → bytes_eq k j ≡ true → bytes_eq key j ≡ false
other_key key k j miss here = elim (Bool-cases (bytes_eq key j)) [
  | inr ne ↦ ne
  | inl e ↦
      let same : k ≡ key = bytes_eq_sound k j here ∙ sym (bytes_eq_sound key j e) in
      absurd (no_clash (sym (bytes_eq_refl k) ∙ ap (bytes_eq k) same ∙ miss))
]

is_new :
    (key k v : Bytes) (es : Entries)
    → is_some (lookup key ((k, v) ∷ es)) ≡ false
    → bytes_eq k key ≡ false
unfolding lookup
is_new key k v es e = elim (Bool-cases (bytes_eq k key)) [
  | inr ne ↦ ne
  | inl hit ↦ absurd (no_clash (rw hit at e))
]

is_later :
    (key k v : Bytes) (es : Entries)
    → is_some (lookup key ((k, v) ∷ es)) ≡ false
    → is_some (lookup key es) ≡ false
unfolding lookup
is_later key k v es e = let ne = is_new key k v es e in rw ne at e

lookup-replaced :
    (key value j : Bytes) (es : Entries)
    → is_some (lookup key es) ≡ true
    → lookup j (replaced key value es) ≡ (if bytes_eq key j then some value else lookup j es)
unfolding lookup replaced
lookup-replaced key value j [] e = absurd (ground arith)
lookup-replaced key value j ((k, v) ∷ es) e = elim (Bool-cases (bytes_eq k key)) [
  | inl hit ↦
      rw (hit, bytes_eq_sound k key hit)
        (elim (Bool-cases (bytes_eq key j)) [ inl here ↦ rw here refl | inr there ↦ rw there refl ])
  | inr miss ↦ rw miss (elim (Bool-cases (bytes_eq k j)) [
    | inl here ↦ rw (here, other_key key k j miss here) refl
    | inr there ↦ rw there (lookup-replaced key value j es (rw miss at e))
  ])
]

lookup-append :
    (key value j : Bytes) (es : Entries)
    → is_some (lookup key es) ≡ false
    → lookup j (es ++ ((key, value) ∷ [])) ≡ (if bytes_eq key j then some value else lookup j es)
unfolding lookup
lookup-append key value j [] e = refl
lookup-append key value j ((k, v) ∷ es) e = elim (Bool-cases (bytes_eq k j)) [
  | inl here ↦ rw (here, other_key key k j (is_new key k v es e) here) refl
  | inr there ↦ rw there (lookup-append key value j es (is_later key k v es e))
]

-- What a lookup finds behind an entry that was stored.
abbrev stored_over : Bytes → Bytes → Bytes → Option Bytes → Option Bytes
stored_over key value j rest = if bytes_eq key j then some value else rest

abbrev reply_or : (r : MapResult × MapData) → Reply → MapResult × MapData
reply_or r none = r
reply_or r (some s) = s

settled :
    {reply : Reply} {a : After} {r : MapResult} {m : MapData}
    → Refines reply a
    → reply ≡ some (r, m)
    → (a.result ≡ r) × Holds m a.entries a.filter
settled {a = a} {r = r} {m = m} (m', e, h) e' =
    let same = ap (reply_or (r, m)) (sym e ∙ e') in
    (ap (λ t. t.0) same, coe 0 1 (i. Holds (same i).1 a.entries a.filter) h)

failed {ℓ} : {A : Type ℓ} → map_error ≡ map_ok → A
failed e = absurd (no_clash (ap is_error e))
  where
    is_error : MapResult → Bool
    is_error map_error = true
    is_error _ = false

insert_spec-lookup :
    (got : Outcomes) (es : Entries) (f : Option Filter) (key value j : Bytes)
    → is_some (lookup key es) ≡ false
    → (insert_spec got es f key value).result ≡ map_ok
    → lookup j (insert_spec got es f key value).entries ≡ stored_over key value j (lookup j es)
insert_spec-lookup got es f key value j new ok = elim (Bool-cases (got 0 && got 1)) [
  | inr lost ↦ failed (rw lost at ok)
  | inl grew ↦ elim (Bool-cases (got 2 && got 3)) [
    | inr lost ↦ failed (rw (grew, lost) at ok)
    | inl copied ↦ rw (grew, copied) (lookup-append key value j es new)
  ]
]

rejected {ℓ} : {A : Type ℓ} → map_filter_reject ≡ map_ok → A
rejected e = absurd (no_clash (ap is_rejection e))
  where
    is_rejection : MapResult → Bool
    is_rejection map_filter_reject = true
    is_rejection _ = false

add_or_update_spec-lookup :
    (got : Outcomes) (es : Entries) (f : Option Filter) (key value j : Bytes)
    → (add_or_update_spec got es f key value).result ≡ map_ok
    → lookup j (add_or_update_spec got es f key value).entries
      ≡ stored_over key value j (lookup j es)
add_or_update_spec-lookup got es f key value j ok = elim (Bool-cases (rejects f key value)) [
  | inl bad ↦ rejected (rw bad at ok)
  | inr fine ↦ elim (Bool-cases (is_some (lookup key es))) [
    | inr new ↦ rw (fine, new) (insert_spec-lookup got es f key value j new (rw (fine, new) at ok))
    | inl old ↦ elim (Bool-cases (got 0)) [
      | inr lost ↦ failed (rw (fine, old, lost) at ok)
      | inl had ↦ rw (fine, old, had) (lookup-replaced key value j es old)
    ]
  ]
]

-- When Map_AddOrUpdate reports success on a map in good order, Map_GetValueFromKey then returns
-- the value stored for the key, and for any other key what it returned before.
pub get_value_from_key-add_or_update :
    {m m' : MapData} {es : Entries} {f : Option Filter} (got : Outcomes) (key value j : Bytes)
    → Holds m es f
    → add_or_update got m key value ≡ some (map_ok, m')
    → get_value_from_key m' j
      ≡ (if bytes_eq key j then some (some value) else get_value_from_key m j)
get_value_from_key-add_or_update {es = es} {f = f} got key value j h ok =
    let (result, h') = settled (add_or_update-Refines got key value h) ok in
    rw
      (
        get_value_from_key-Holds j h',
        get_value_from_key-Holds j h,
        add_or_update_spec-lookup got es f key value j result,
      )
      (elim (Bool-cases (bytes_eq key j)) [ inl e ↦ rw e refl | inr ne ↦ rw ne refl ])
