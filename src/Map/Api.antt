-- ===== src/Map/Api.antt =====
-- src/map.c: the public functions with their tests for NULL. A reply holds the map afterwards.
use azure_c_shared_utility.Base.{ℕ, Bool, true, Option, none, some, Bytes, Outcomes, Exec, ◌>>=◌}
use azure_c_shared_utility.Map.{
  MapResult, MapData, Reply, map_ok, map_invalidarg, add, add_or_update, delete, contains_key,
  contains_value, get_value_from_key, Slots,
}

abbrev pub HandleReply : Type 0
HandleReply = Exec (MapResult × Option MapData)

abbrev pub on_handle : Reply → HandleReply
on_handle reply = do r ← reply; some (r.0, some r.1)

pub map_add : Outcomes → Option MapData → Option Bytes → Option Bytes → HandleReply
map_add got (some m) (some key) (some value) = on_handle (add got m key value)
map_add got handle _ _ = some (map_invalidarg, handle)

pub map_add_or_update : Outcomes → Option MapData → Option Bytes → Option Bytes → HandleReply
map_add_or_update got (some m) (some key) (some value) = on_handle (add_or_update got m key value)
map_add_or_update got handle _ _ = some (map_invalidarg, handle)

pub map_delete : Outcomes → Option MapData → Option Bytes → HandleReply
map_delete got (some m) (some key) = on_handle (delete got m key)
map_delete got handle _ = some (map_invalidarg, handle)

-- `wants` says whether the pointer for the answer is not NULL.
pub map_contains_key :
    Option MapData → Option Bytes → (wants : Bool) → Exec (MapResult × Option Bool)
map_contains_key (some m) (some key) true = do found ← contains_key m key; some (map_ok, some found)
map_contains_key _ _ _ = some (map_invalidarg, none)

pub map_contains_value :
    Option MapData → Option Bytes → (wants : Bool) → Exec (MapResult × Option Bool)
map_contains_value (some m) (some value) true = do
  found ← contains_value m value
  some (map_ok, some found)
map_contains_value _ _ _ = some (map_invalidarg, none)

pub map_get_value_from_key : Option MapData → Option Bytes → Exec (Option Bytes)
map_get_value_from_key (some m) (some key) = get_value_from_key m key
map_get_value_from_key _ _ = some none

pub get_internals : Option MapData → (wants : Bool) → MapResult × Option (Slots × Slots × ℕ)
get_internals (some m) true = (map_ok, some (m.keys, m.values, m.count))
get_internals _ _ = (map_invalidarg, none)
