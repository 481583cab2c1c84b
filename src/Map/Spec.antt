-- ===== src/Map/Spec.antt =====
-- What a map promises: a list of pairs in order of insertion, searched from its start.
use azure_c_shared_utility.Base.{
  ℕ, suc, ◌≡◌, ◌&&◌, Option, none, some, List, [], ◌∷◌, ◌++◌, if◌then◌else◌, Bytes, length, is_some,
  Outcomes, ◌==◌,
}
use azure_c_shared_utility.Map.{
  MapData, MapResult, Slots, Reply, Filter, map_ok, map_error, map_keyexists, map_keynotfound,
  map_filter_reject, bytes_eq, rejects,
}

abbrev pub Entries : Type 0
Entries = List (Bytes × Bytes)

abbrev pub key_slots : Entries → Slots
key_slots [] = []
key_slots ((k, v) ∷ es) = some k ∷ key_slots es

abbrev pub value_slots : Entries → Slots
value_slots [] = []
value_slots ((k, v) ∷ es) = some v ∷ value_slots es

-- Slots behind those in use may hold anything.
pub record Holds (m : MapData) (es : Entries) (f : Option Filter) : Type 0 where
  pub spare_keys : Slots
  pub spare_values : Slots
  pub keys : m.keys ≡ key_slots es ++ spare_keys
  pub values : m.values ≡ value_slots es ++ spare_values
  pub count : m.count ≡ length es
  pub filter : m.filter ≡ f

unfoldable pub lookup : Bytes → Entries → Option Bytes
lookup key [] = none
lookup key ((k, v) ∷ es) = if bytes_eq k key then some v else lookup key es

-- The first pair with the key gets the value.
unfoldable pub replaced : Bytes → Bytes → Entries → Entries
replaced key value [] = []
replaced key value ((k, v) ∷ es) =
    if bytes_eq k key then (k, value) ∷ es else (k, v) ∷ replaced key value es

unfoldable pub removed : Bytes → Entries → Entries
removed key [] = []
removed key ((k, v) ∷ es) = if bytes_eq k key then es else (k, v) ∷ removed key es

unfoldable pub index_of : Bytes → Entries → Option ℕ
index_of key [] = none
index_of key ((k, v) ∷ es) =
    if bytes_eq k key
    then some 0
    else (elim (index_of key es) [ none ↦ none | some i ↦ some (suc i) ])

-- The result and the state after an operation.
pub record After : Type 0 where
  pub result : MapResult
  pub entries : Entries
  pub filter : Option Filter

abbrev pub Refines : Reply → After → Type 0
Refines reply a = (m : MapData) × (reply ≡ some (a.result, m)) × Holds m a.entries a.filter

-- A copy that fails behind a growth that succeeded shrinks the map again, and that resets the
-- filter of a map that had no entry.
abbrev pub shrunk_filter : Entries → Option Filter → Option Filter
shrunk_filter es f = if length es == 0 then none else f

abbrev pub after : MapResult → Entries → Option Filter → After
after r es f = record { result = r; entries = es; filter = f }

abbrev pub insert_spec : Outcomes → Entries → Option Filter → Bytes → Bytes → After
insert_spec got es f key value =
    if got 0 && got 1
    then (if got 2 && got 3
        then after map_ok (es ++ ((key, value) ∷ [])) f
        else after map_error es (shrunk_filter es f))
    else after map_error es f

abbrev pub add_spec : Outcomes → Entries → Option Filter → Bytes → Bytes → After
add_spec got es f key value =
    if is_some (lookup key es)
    then after map_keyexists es f
    else if rejects f key value
    then after map_filter_reject es f
    else insert_spec got es f key value

abbrev pub add_or_update_spec : Outcomes → Entries → Option Filter → Bytes → Bytes → After
add_or_update_spec got es f key value =
    if rejects f key value
    then after map_filter_reject es f
    else if is_some (lookup key es)
    then (if got 0 then after map_ok (replaced key value es) f else after map_error es f)
    else insert_spec got es f key value

-- Removing the last entry resets the filter.
abbrev pub delete_spec : Entries → Option Filter → Bytes → After
delete_spec es f key =
    if is_some (lookup key es)
    then after map_ok (removed key es) (shrunk_filter (removed key es) f)
    else after map_keynotfound es f
