-- ===== src/Map/Laws/Operations.antt =====
-- Map_Add, Map_AddOrUpdate and Map_Delete do what their specifications say.
use azure_c_shared_utility.Base.{
  suc, ◌+◌, ◌≡◌, ◌∙◌, sym, ap, refl, Option, some, ◌∷◌, ◌++◌, append_assoc, Bytes, length,
  length-append, if◌then◌else◌, Bool-cases, inl, inr, Outcomes,
}
use azure_c_shared_utility.Map.{
  MapData, Slots, Filter, map_ok, map_error, store, rejects, add, add_unless, add_or_update,
  add_or_update_at, update_value,
}
use azure_c_shared_utility.Map.Laws.{
  full, full-Holds, Holds-full, find_key-full, insert_reply-Refines,
}
use azure_c_shared_utility.Map.Slots.{
  length-value_slots, Found, missing, found, Search-entries, key_slots-append, value_slots-append,
  store_lem,
}
use azure_c_shared_utility.Map.Spec.{
  Entries, key_slots, value_slots, Holds, Refines, after, add_spec, add_or_update_spec, replaced,
}

-- The arrays at a key that is found.
module _ {es : Entries} {key : Bytes} (s : Found key es) (spare : Slots) where
  keys_at : key_slots es ++ spare ≡ key_slots s.pre ++ (some s.k ∷ (key_slots s.post ++ spare))
  keys_at =
      ap (λ t. key_slots t ++ spare) s.split
      ∙ ap (λ t. t ++ spare) (key_slots-append s.pre _)
      ∙ append_assoc (key_slots s.pre) _ spare

  pub values_at :
      value_slots es ++ spare ≡ value_slots s.pre ++ (some s.v ∷ (value_slots s.post ++ spare))
  values_at =
      ap (λ t. value_slots t ++ spare) s.split
      ∙ ap (λ t. t ++ spare) (value_slots-append s.pre _)
      ∙ append_assoc (value_slots s.pre) _ spare

  keys_replaced :
      (value : Bytes) → key_slots es ++ spare ≡ key_slots (replaced key value es) ++ spare
  keys_replaced value =
      keys_at
      ∙ sym (
          ap (λ t. key_slots t ++ spare) (s.replace value)
          ∙ ap (λ t. t ++ spare) (key_slots-append s.pre _)
          ∙ append_assoc (key_slots s.pre) _ spare)

  values_replaced :
      (value : Bytes)
      → value_slots s.pre ++ (some value ∷ (value_slots s.post ++ spare))
        ≡ value_slots (replaced key value es) ++ spare
  values_replaced value = sym (
      ap (λ t. value_slots t ++ spare) (s.replace value)
      ∙ ap (λ t. t ++ spare) (value_slots-append s.pre _)
      ∙ append_assoc (value_slots s.pre) _ spare)

  length_at : length es ≡ length s.pre + suc (length s.post)
  length_at = ap length s.split ∙ length-append s.pre _

  length-replaced : (value : Bytes) → length es ≡ length (replaced key value es)
  length-replaced value = length_at ∙ sym (ap length (s.replace value) ∙ length-append s.pre _)

module _ (got : Outcomes) (es : Entries) (sk sv : Slots) (f : Option Filter) (key : Bytes) where
  add-full :
      (value : Bytes) → Refines (add got (full es sk sv f) key value) (add_spec got es f key value)
  unfolding add add_unless
  add-full value = elim (Search-entries key es) [
    | missing i l ↦
        rw (find_key-full es sk sv f key, i, l)
          (elim (Bool-cases (rejects f key value)) [
            | inl bad ↦ rw bad (full es sk sv f, refl, full-Holds es sk sv f)
            | inr fine ↦ rw fine (insert_reply-Refines got es sk sv f key value)
          ])
    | found s ↦
        rw (find_key-full es sk sv f key, s.index, s.hit)
          (full es sk sv f, refl, full-Holds es sk sv f)
  ]

  update_full :
      (value : Bytes) (s : Found key es)
      → Refines
          (update_value got (full es sk sv f) (length s.pre) value)
          (if got 0 then after map_ok (replaced key value es) f else after map_error es f)
  unfolding update_value
  update_full value s = elim (Bool-cases (got 0)) [
    | inr lost ↦ rw lost (full es sk sv f, refl, full-Holds es sk sv f)
    | inl had ↦
        rw (had, values_at s sv, stored)
          (
            _,
            refl,
            record {
              spare_keys = sk;
              spare_values = sv;
              keys = keys_replaced s sk value;
              values = values_replaced s sv value;
              count = length-replaced s sv value;
              filter = refl;
            },
          )
  ]
    where
      stored :
          store
            (value_slots s.pre ++ (some s.v ∷ (value_slots s.post ++ sv)))
            (length s.pre)
            (some value)
          ≡ some (value_slots s.pre ++ (some value ∷ (value_slots s.post ++ sv)))
      stored =
          rw (sym (length-value_slots s.pre))
            (store_lem (value_slots s.pre) _ (some s.v) (some value))

  add_or_update-full :
      (value : Bytes)
      → Refines
          (add_or_update got (full es sk sv f) key value)
          (add_or_update_spec got es f key value)
  unfolding add_or_update add_or_update_at
  add_or_update-full value = elim (Bool-cases (rejects f key value)) [
    | inl bad ↦ rw bad (full es sk sv f, refl, full-Holds es sk sv f)
    | inr fine ↦
        rw (fine, find_key-full es sk sv f key)
          (elim (Search-entries key es) [
            | missing i l ↦ rw (i, l) (insert_reply-Refines got es sk sv f key value)
            | found s ↦ rw (s.index, s.hit) (update_full value s)
          ])
  ]

-- Map_Add on a map in good order reports a key that is there before it asks the filter, reports a
-- pair that the filter rejects, adds the pair behind the others if its four requests for memory
-- succeed and leaves the entries as they are if one fails; the arrays are in order again, and no
-- access is out of range. A copy that fails on an empty map loses the filter.
pub add-Refines :
    {m : MapData} {es : Entries} {f : Option Filter} (got : Outcomes) (key value : Bytes)
    → Holds m es f
    → Refines (add got m key value) (add_spec got es f key value)
add-Refines {es = es} {f = f} got key value h =
    rw (Holds-full h) (add-full got es h.spare_keys h.spare_values f key value)

-- Map_AddOrUpdate on a map in good order asks the filter first, replaces the value in place under
-- a key that is there, adds the pair behind the others under a new key, and leaves the entries
-- as they are if a request for memory fails; the arrays are in order again, and no access is
-- out of range. A copy that fails on an empty map loses the filter.
pub add_or_update-Refines :
    {m : MapData} {es : Entries} {f : Option Filter} (got : Outcomes) (key value : Bytes)
    → Holds m es f
    → Refines (add_or_update got m key value) (add_or_update_spec got es f key value)
add_or_update-Refines {es = es} {f = f} got key value h =
    rw (Holds-full h) (add_or_update-full got es h.spare_keys h.spare_values f key value)
