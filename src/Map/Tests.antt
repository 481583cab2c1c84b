-- ===== src/Map/Tests.antt =====
-- Runs of src/map.c.
use azure_c_shared_utility.Base.{◌≡◌, refl, Option, none, some, [], ◌∷◌, always, if◌then◌else◌}
use azure_c_shared_utility.Map.{
  MapData, Filter, map_ok, add, add_or_update, delete, get_value_from_key, decrease_storage,
  moved_down, delete_at, add_or_update_at, update_value, find_key, find_loop, rejects, store,
  bytes_eq,
}
use azure_c_shared_utility.Map.Laws.{full, full-Holds}
use azure_c_shared_utility.Map.Laws.Lookup.{get_value_from_key-add_or_update}
use azure_c_shared_utility.Map.Laws.Operations.{add-Refines, add_or_update-Refines}
use azure_c_shared_utility.Map.Spec.{Entries, Holds, Refines, add_spec, add_or_update_spec}

abbrev filter_fives : Option Filter
filter_fives = some (λ k v. bytes_eq v (5 ∷ []))

abbrev pairs : Entries
pairs = (1 ∷ [], 10 ∷ []) ∷ (2 ∷ [], 20 ∷ []) ∷ []

abbrev map_of_two : MapData
map_of_two = full pairs [] (none ∷ []) filter_fives

map_of_two-Holds : Holds map_of_two pairs filter_fives
map_of_two-Holds = full-Holds pairs [] (none ∷ []) filter_fives

add-Refines_example :
    Refines
      (add always map_of_two (3 ∷ []) (30 ∷ []))
      (add_spec always pairs filter_fives (3 ∷ []) (30 ∷ []))
add-Refines_example = add-Refines always (3 ∷ []) (30 ∷ []) map_of_two-Holds

add_or_update-Refines_example :
    Refines
      (add_or_update always map_of_two (2 ∷ []) (30 ∷ []))
      (add_or_update_spec always pairs filter_fives (2 ∷ []) (30 ∷ []))
add_or_update-Refines_example = add_or_update-Refines always (2 ∷ []) (30 ∷ []) map_of_two-Holds

abbrev updated : MapData
updated = full ((1 ∷ [], 10 ∷ []) ∷ (2 ∷ [], 30 ∷ []) ∷ []) [] (none ∷ []) filter_fives

update_run : add_or_update always map_of_two (2 ∷ []) (30 ∷ []) ≡ some (map_ok, updated)
unfolding add_or_update add_or_update_at update_value find_key find_loop rejects store bytes_eq
update_run = refl

get_value_from_key-add_or_update_example : get_value_from_key updated (1 ∷ []) ≡ (
    if bytes_eq (2 ∷ []) (1 ∷ [])
    then some (some (30 ∷ []))
    else get_value_from_key map_of_two (1 ∷ []))
get_value_from_key-add_or_update_example =
    get_value_from_key-add_or_update always (2 ∷ []) (30 ∷ []) (1 ∷ []) map_of_two-Holds update_run

-- The filter is gone with the last entry.
delete_last :
    delete always (full ((1 ∷ [], 10 ∷ []) ∷ []) [] [] filter_fives) (1 ∷ [])
    ≡ some (map_ok, full [] [] [] none)
unfolding delete delete_at moved_down find_key find_loop bytes_eq decrease_storage
delete_last = refl
