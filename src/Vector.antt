-- ===== src/Vector.antt =====
-- src/vector.c, behind the tests for a NULL handle. An address in the storage is its offset from
-- the start of the storage; an outer `none` is an access outside of a block. The products of sizes
-- are of size_t and wrap.
pub mod Spec
pub mod Laws
pub mod Erase
pub mod Find
mod Tests
use azure_c_shared_utility.Base.{
  ℕ, zero, suc, ◌+◌, ◌-◌, ◌*◌, ◌%◌, ◌^◌, Bool, true, false, not, ◌&&◌, ◌||◌, Option, none, some, [],
  ltb, leb, ◌==◌, if◌then◌else◌, Bytes, drop, Garbage, Exec, ◌>>=◌, resize, copy_in, copy_out,
}
use azure_c_shared_utility.Buffer.{Status, success, failure}

pub record Vector : Type 0 where
  pub storage : Option Bytes
  pub count : ℕ
  pub element_size : ℕ

-- The block of the storage; NULL has no bytes.
abbrev pub block_of : Option Bytes → Bytes
block_of none = []
block_of (some block) = block

abbrev pub times_size : Vector → ℕ → ℕ
times_size v n = (v.element_size * n) % 2 ^ 64

unfoldable pub create : (element_size : ℕ) → (got : Bool) → Option Vector
create element_size got =
    if element_size == 0
    then none
    else if got
    then some (record { storage = none; count = 0; element_size = element_size })
    else none

-- VECTOR_move: the new vector and what is left of the old one.
unfoldable pub move : Vector → (got : Bool) → Option Vector × Vector
move v got = if got then (some v, record v { storage = none; count = 0 }) else (none, v)

unfoldable pub push_back :
    Garbage
    → (got : Bool) → Vector
    → (elements : Option Bytes) → (num_elements : ℕ) → Exec (Status × Vector)
push_back g got v none num_elements = some (failure, v)
push_back g got v (some elements) num_elements =
    if num_elements == 0
    then some (failure, v)
    else if got
    then (do
      let cur_size = times_size v v.count
      let append_size = times_size v num_elements
      bytes ← copy_out elements append_size
      temp ←
          copy_in (resize g (block_of v.storage) ((cur_size + append_size) % 2 ^ 64)) cur_size bytes
      some (success, record v { storage = some temp; count = (v.count + num_elements) % 2 ^ 64 }))
    else some (failure, v)

-- An address: NULL, one in front of the storage, or one from its start on.
pub data Address : Type 0 where
  null in_front : Address
  at_offset : ℕ → Address

-- memmove and the smaller realloc of VECTOR_erase; `got` says whether this succeeds.
unfoldable pub close_gap :
    Garbage → (got : Bool) → Vector → (offset src src_end : ℕ) → (new_count : ℕ) → Exec Vector
close_gap g got v offset src src_end new_count =
    if new_count == 0 then some (record v { storage = none; count = 0 }) else (do
      bytes ← copy_out (drop src (block_of v.storage)) (src_end - src)
      block ← copy_in (block_of v.storage) offset bytes
      some (record v {
        storage = some (if got then resize g block (times_size v new_count) else block);
        count = new_count;
      }))

unfoldable pub erase :
    Garbage → (got : Bool) → Vector → (elements : Address) → (num_elements : ℕ) → Exec Vector
erase g got v null num_elements = some v
erase g got v in_front num_elements = some v
erase g got v (at_offset offset) num_elements =
    let src = (offset + times_size v num_elements) % 2 ^ 64 in
    let src_end = times_size v v.count in
    if num_elements == 0 || not (offset % v.element_size == 0)
    then some v
    else if ltb src_end src
    then some v
    else close_gap g got v offset src src_end (v.count - num_elements)

unfoldable pub clear : Vector → Vector
clear v = record v { storage = none; count = 0 }

unfoldable pub element : Vector → (index : ℕ) → Option ℕ
element v index = if leb v.count index then none else some (times_size v index)

unfoldable pub front : Vector → Option ℕ
front v = if v.count == 0 then none else some 0

unfoldable pub back : Vector → Option ℕ
back v = if v.count == 0 then none else some (times_size v (v.count - 1))

-- The loop of VECTOR_find_if, with `left` elements from the index `i` on. `pred` reads the element that
-- starts at the offset it is given.
unfoldable pub find_from : Vector → (pred : Bytes → Bool) → (left i : ℕ) → Exec (Option ℕ)
find_from v pred zero i = some none
find_from v pred (suc left) i = do
  bytes ← copy_out (drop (times_size v i) (block_of v.storage)) v.element_size
  elim (pred bytes) [ true ↦ some (some (times_size v i)) | false ↦ find_from v pred left (i + 1) ]

unfoldable pub find_if : Vector → (pred : Option (Bytes → Bool)) → Exec (Option ℕ)
find_if v none = some none
find_if v (some pred) = find_from v pred v.count 0
