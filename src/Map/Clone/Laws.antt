-- ===== src/Map/Clone/Laws.antt =====
-- Map_Clone copies the entries.
use azure_c_shared_utility.Base.{
  ℕ, zero, suc, ◌+◌, ◌≡◌, sym, refl, Bool, true, false, ◌&&◌, Option, none, some, [], ◌∷◌, ◌++◌,
  append-nil, arith, ◌==◌, if◌then◌else◌, is_some, Bool-cases, inl, inr, All, length, Outcomes,
  Exec,
}
use azure_c_shared_utility.Map.{MapData, Slots, Filter}
use azure_c_shared_utility.Map.Clone.{copy_strings, clone_vector, clone}
use azure_c_shared_utility.Map.Laws.{full, full-Holds, Holds-full}
use azure_c_shared_utility.Map.Slots.{length-key_slots, length-value_slots}
use azure_c_shared_utility.Map.Spec.{Entries, key_slots, value_slots, Holds, shrunk_filter}

-- Whether the next `n` requests get memory.
abbrev pub all_had : Outcomes → ℕ → Bool
all_had got zero = true
all_had got (suc n) = got 0 && all_had (λ i. got (1 + i)) n

IsFilled : Slots → Type 0
IsFilled slots = All (λ s. is_some s ≡ true) slots

copy_strings_lem :
    (got : Outcomes) (slots spare : Slots)
    → IsFilled slots
    → copy_strings got (length slots) (slots ++ spare)
      ≡ some (if all_had got (length slots) then some slots else none)
unfolding copy_strings IsFilled
copy_strings_lem got [] spare h = refl
copy_strings_lem got (none ∷ slots) spare (hs, h) = absurd (ground arith)
copy_strings_lem got (some s ∷ slots) spare (hs, h) = elim (Bool-cases (got 0)) [
  | inr lost ↦ rw lost refl
  | inl had ↦
      rw (had, copy_strings_lem (λ i. got (1 + i)) slots spare h)
        (elim (Bool-cases (all_had (λ i. got (1 + i)) (length slots))) [
          | inl yes_all ↦ rw yes_all refl
          | inr not_all ↦ rw not_all refl
        ])
]

clone_vector_lem :
    (got : Outcomes) (slots spare : Slots) (n : ℕ)
    → n ≡ length slots
    → IsFilled slots
    → clone_vector got (slots ++ spare) n ≡ some (if all_had got (suc n) then some slots else none)
unfolding clone_vector
clone_vector_lem got slots spare n e h = elim (Bool-cases (got 0)) [
  | inr lost ↦ rw lost refl
  | inl had ↦ rw (had, e) (copy_strings_lem (λ i. got (1 + i)) slots spare h)
]

key_slots-IsFilled : (es : Entries) → IsFilled (key_slots es)
unfolding IsFilled
key_slots-IsFilled [] = _
key_slots-IsFilled ((k, v) ∷ es) = (refl, key_slots-IsFilled es)

value_slots-IsFilled : (es : Entries) → IsFilled (value_slots es)
unfolding IsFilled
value_slots-IsFilled [] = _
value_slots-IsFilled ((k, v) ∷ es) = (refl, value_slots-IsFilled es)

-- Whether the requests of a clone of `n` entries get memory: the handle, and for a map that is
-- not empty two arrays with their strings.
abbrev pub clone_had : Outcomes → ℕ → Bool
clone_had got zero = got 0
clone_had got (suc n) =
    got 0
    && (all_had (λ i. got (1 + i)) (suc (suc n))
        && all_had (λ i. got (2 + suc n + i)) (suc (suc n)))

abbrev pub Clones : Exec (Option MapData) → Bool → Entries → Option Filter → Type 0
Clones reply true es f = (m : MapData) × (reply ≡ some (some m)) × Holds m es f
Clones reply false es f = reply ≡ some none

clone_parts :
    (got : Outcomes) (es : Entries) (sk sv : Slots) (f : Option Filter) (keys_had values_had : Bool)
    → (length es == 0) ≡ false
    → clone_vector (λ i. got (1 + i)) (key_slots es ++ sk) (length es)
      ≡ some (if keys_had then some (key_slots es) else none)
    → clone_vector (λ i. got (2 + length es + i)) (value_slots es ++ sv) (length es)
      ≡ some (if values_had then some (value_slots es) else none)
    → Clones (clone got (some (full es sk sv f))) (got 0 && (keys_had && values_had)) es f
unfolding clone
clone_parts got es sk sv f true true more keys values = elim (Bool-cases (got 0)) [
  | inr lost ↦ rw lost refl
  | inl had ↦
      rw (had, more, keys, values)
        (
          _,
          refl,
          record {
            spare_keys = [];
            spare_values = [];
            keys = sym (append-nil (key_slots es));
            values = sym (append-nil (value_slots es));
            count = refl;
            filter = refl;
          },
        )
]
clone_parts got es sk sv f true false more keys values = elim (Bool-cases (got 0)) [
  | inr lost ↦ rw lost refl
  | inl had ↦ rw (had, more, keys, values) refl
]
clone_parts got es sk sv f false values_had more keys values = elim (Bool-cases (got 0)) [
  | inr lost ↦ rw lost refl
  | inl had ↦ rw (had, more, keys) refl
]

clone-full :
    (got : Outcomes) (es : Entries) (sk sv : Slots) (f : Option Filter)
    → Clones
        (clone got (some (full es sk sv f)))
        (clone_had got (length es))
        es
        (shrunk_filter es f)
unfolding clone
clone-full got [] sk sv f = elim (Bool-cases (got 0)) [
  | inr lost ↦ rw lost refl
  | inl had ↦ rw had (_, refl, full-Holds [] [] [] none)
]
clone-full got (e ∷ es) sk sv f =
    let more : (length (e ∷ es) == 0) ≡ false = ground arith in
    let h = key_slots-IsFilled (e ∷ es) in
    let keys =
      clone_vector_lem (λ i. got (1 + i)) (key_slots (e ∷ es)) sk (suc (length es))
        (sym (length-key_slots (e ∷ es))) h in
    let values =
      clone_vector_lem (λ i. got (2 + suc (length es) + i)) (value_slots (e ∷ es)) sv
        (suc (length es)) (sym (length-value_slots (e ∷ es))) (value_slots-IsFilled (e ∷ es)) in
    let kept : f ≡ shrunk_filter (e ∷ es) f = rw more refl in
    coe 0 1
      (i.
        Clones (clone got (some (full (e ∷ es) sk sv f))) (clone_had got (suc (length es))) (e ∷ es)
          (kept i))
      (clone_parts got (e ∷ es) sk sv f _ _ more keys values)

-- Map_Clone of a map in good order makes a copy with the same entries if its requests for memory
-- succeed, one for the handle and, for a map with entries, one for each array and each string, and
-- returns NULL if one fails; no access is out of range. The copy has the filter of the map, but
-- none if the map is empty.
pub clone-Holds :
    {m : MapData} {es : Entries} {f : Option Filter} (got : Outcomes)
    → Holds m es f
    → Clones (clone got (some m)) (clone_had got (length es)) es (shrunk_filter es f)
clone-Holds {es = es} {f = f} got h =
    rw (Holds-full h) (clone-full got es h.spare_keys h.spare_values f)
