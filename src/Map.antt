-- ===== src/Map.antt =====
-- src/map.c: a map from strings to strings in two parallel arrays. An array is the list of its
-- allocated slots, of which the first `count` are in use; a slot is a pointer to a string, `none`
-- for NULL. An empty array stands for NULL too, which the code never tells apart. The outer
-- `Exec` of an operation is `none` if the code would read or write outside of an array or pass
-- NULL to strcmp. Of `free` only the effect on the map is modelled.
pub mod Api
pub mod Clone
pub mod Slots
pub mod Spec
pub mod Laws
mod Tests
use azure_c_shared_utility.Base.{
  ℕ, zero, suc, ◌+◌, ◌-◌, Bool, true, false, ◌&&◌, Option, none, some, List, [], ◌∷◌, ◌++◌, ltb,
  ◌==◌, if◌then◌else◌, is_some, Bytes, length, take, drop, get_elem?, Outcomes, Exec, ◌>>=◌,
}

-- The callback: `true` is a nonzero result, which rejects the pair.
abbrev pub Filter : Type 0
Filter = Bytes → Bytes → Bool

abbrev pub Slots : Type 0
Slots = List (Option Bytes)

pub data MapResult : Type 0 where
  map_ok map_error map_invalidarg map_keyexists map_keynotfound map_filter_reject : MapResult

pub record MapData : Type 0 where
  pub keys : Slots
  pub values : Slots
  pub count : ℕ
  pub filter : Option Filter

unfoldable pub create : Outcomes → Option Filter → Option MapData
create got f =
    if got 0 then some (record { keys = []; values = []; count = 0; filter = f }) else none

-- strcmp(a, b) == 0
pub bytes_eq : Bytes → Bytes → Bool
bytes_eq [] [] = true
bytes_eq [] (y ∷ ys) = false
bytes_eq (x ∷ xs) [] = false
bytes_eq (x ∷ xs) (y ∷ ys) = x == y && bytes_eq xs ys

-- slots[i] = p, out of range `none`.
pub store : Slots → ℕ → Option Bytes → Exec Slots
store [] i p = none
store (s ∷ slots) zero p = some (p ∷ slots)
store (s ∷ slots) (suc i) p = do rest ← store slots i p; some (s ∷ rest)

-- The loops of findKey and findValue from index `i` on, with `left` rounds left.
pub find_loop : Bytes → (left i : ℕ) → Slots → Exec (Option ℕ)
find_loop key zero i slots = some none
find_loop key (suc left) i [] = none
find_loop key (suc left) i (none ∷ slots) = none
find_loop key (suc left) i (some k ∷ slots) =
    if bytes_eq k key then some (some i) else find_loop key left (i + 1) slots

pub find_key : MapData → Bytes → Exec (Option ℕ)
find_key m key = find_loop key m.count 0 m.keys

pub find_value : MapData → Bytes → Exec (Option ℕ)
find_value m value = find_loop value m.count 0 m.values

-- realloc to one slot more than are in use, and NULL into the new slot.
pub grown : Slots → ℕ → Slots
grown slots count = take count slots ++ (none ∷ [])

-- The third request is made only to undo the growth of the keys.
pub increase_storage : Outcomes → MapData → Bool × MapData
increase_storage got m =
    let keys' = grown m.keys m.count in
    if got 0
    then (if got 1
        then (true, record m { keys = keys'; values = grown m.values m.count; count = m.count + 1 })
        else if m.count == 0
        then (false, record m { keys = [] })
        else if got 2
        then (false, record m { keys = take m.count keys' })
        else (false, record m { keys = keys' }))
    else (false, m)

pub decrease_storage : Outcomes → MapData → MapData
decrease_storage got m =
    if m.count == 1 then record { keys = []; values = []; count = 0; filter = none } else record m {
      keys = if got 0 then take (m.count - 1) m.keys else m.keys;
      values = if got 1 then take (m.count - 1) m.values else m.values;
      count = m.count - 1;
    }

-- mallocAndStrcpy_s fails exactly if its request does.
pub insert_copies : Outcomes → MapData → Bytes → Bytes → Exec (Bool × MapData)
insert_copies got m key value =
    if got 0
    then (if got 1
        then (do
          keys' ← store m.keys (m.count - 1) (some key)
          values' ← store m.values (m.count - 1) (some value)
          some (true, record m { keys = keys'; values = values' }))
        else some (false, decrease_storage (λ i. got (2 + i)) m))
    else some (false, decrease_storage (λ i. got (1 + i)) m)

pub insert_new : Outcomes → MapData → Bytes → Bytes → Exec (Bool × MapData)
insert_new got m key value =
    let (grew, m') = increase_storage got m in
    if grew then insert_copies (λ i. got (2 + i)) m' key value else some (false, m')

abbrev pub Reply : Type 0
Reply = Exec (MapResult × MapData)

pub rejects : Option Filter → Bytes → Bytes → Bool
rejects none key value = false
rejects (some f) key value = f key value

pub insert_reply : Outcomes → MapData → Bytes → Bytes → Reply
insert_reply got m key value = do
  done ← insert_new got m key value
  some (if done.0 then map_ok else map_error, done.1)

pub add_unless : Outcomes → MapData → Bytes → Bytes → Bool → Reply
add_unless got m key value true = some (map_keyexists, m)
add_unless got m key value false =
    if rejects m.filter key value then some (map_filter_reject, m) else insert_reply got m key value

-- Map_Add, behind its test for NULL.
pub add : Outcomes → MapData → Bytes → Bytes → Reply
add got m key value = do found ← find_key m key; add_unless got m key value (is_some found)

pub update_value : Outcomes → MapData → ℕ → Bytes → Reply
update_value got m index value =
    if got 0
    then (do
      values' ← store m.values index (some value)
      some (map_ok, record m { values = values' }))
    else some (map_error, m)

pub add_or_update_at : Outcomes → MapData → Bytes → Bytes → Option ℕ → Reply
add_or_update_at got m key value none = insert_reply got m key value
add_or_update_at got m key value (some index) = update_value got m index value

-- Map_AddOrUpdate, behind its test for NULL.
pub add_or_update : Outcomes → MapData → Bytes → Bytes → Reply
add_or_update got m key value =
    if rejects m.filter key value
    then some (map_filter_reject, m)
    else (do found ← find_key m key; add_or_update_at got m key value found)

-- memmove(slots + index, slots + index + 1, count - index - 1): the last slot in use keeps its
-- pointer.
pub moved_down : Slots → ℕ → ℕ → Slots
moved_down slots index count =
    take index slots
    ++ (take (count - index - 1) (drop (index + 1) slots) ++ drop (count - 1) slots)

pub delete_at : Outcomes → MapData → Option ℕ → Reply
delete_at got m none = some (map_keynotfound, m)
delete_at got m (some index) = some (
  map_ok,
  decrease_storage got (record m {
    keys = moved_down m.keys index m.count;
    values = moved_down m.values index m.count;
  }),
)

-- Map_Delete, behind its test for NULL.
pub delete : Outcomes → MapData → Bytes → Reply
delete got m key = do found ← find_key m key; delete_at got m found

pub contains_key : MapData → Bytes → Exec Bool
contains_key m key = do found ← find_key m key; some (is_some found)

pub contains_value : MapData → Bytes → Exec Bool
contains_value m value = do found ← find_value m value; some (is_some found)

-- values[index], which may be NULL.
pub value_at : MapData → Option ℕ → Exec (Option Bytes)
value_at m none = some none
value_at m (some index) = get_elem? m.values index

pub get_value_from_key : MapData → Bytes → Exec (Option Bytes)
get_value_from_key m key = do found ← find_key m key; value_at m found
