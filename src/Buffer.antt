-- ===== src/Buffer.antt =====
-- src/buffer.c: a growable block of bytes behind a handle. A handle is an `Option`, `none` for
-- NULL. An operation returns `none` if it would access memory out of range, and otherwise its
-- status and the handle's new state. Of `free` only the effect on the buffer is modelled.
pub mod Access
pub mod Combine
pub mod Laws
pub mod Spec
mod Tests
use azure_c_shared_utility.Base.{
  ℕ, ◌+◌, ◌-◌, Bool, true, false, ◌||◌, Option, none, some, [], ltb, ◌==◌, if◌then◌else◌, Bytes,
  length, drop, replicate, Outcomes, size_max, safe_add_size_t, Exec, ◌>>=◌, Garbage, fresh, resize,
  copy_in, copy_out,
}

-- `__FAILURE__` is the line number of the failure, which is nonzero.
pub data Status : Type 0 where
  success failure : Status

-- The block that `buffer` points to is a list of its allocated size; `none` is NULL.
pub record Buffer : Type 0 where
  pub buffer : Option Bytes
  pub size : ℕ

abbrev pub Reply : Type 0
Reply = Exec (Status × Option Buffer)

abbrev pub fails : Option Buffer → Reply
fails handle = some (failure, handle)

abbrev pub gives : Option Bytes → ℕ → Reply
gives block n = some (success, some (record { buffer = block; size = n }))

-- realloc of NULL is malloc.
abbrev pub old_block : Option Bytes → Bytes
old_block none = []
old_block (some block) = block

unfoldable pub new : Outcomes → Option Buffer
new ok = if ok 0 then some (record { buffer = none; size = 0 }) else none

-- The new `buffer`: a request of no bytes is made for one byte.
unfoldable pub safemalloc : Garbage → Outcomes → ℕ → Option Bytes
safemalloc g ok size = if ok 0 then some (fresh g (if size == 0 then 1 else size)) else none

create_from : Garbage → Outcomes → Bytes → ℕ → Exec (Option Buffer)
unfolding safemalloc
create_from g ok source size = elim (safemalloc g ok size) [
  | none ↦ some none
  | some block ↦ do
    read ← copy_out source size
    block' ← copy_in block 0 read
    some (some (record { buffer = some block'; size = size }))
]

unfoldable pub create : Garbage → Outcomes → Option Bytes → ℕ → Exec (Option Buffer)
unfolding create_from
create g ok none size = some none
create g ok (some source) size =
    if ok 0 then create_from g (λ i. ok (1 + i)) source size else some none

build_from : Garbage → Outcomes → Buffer → Option Bytes → ℕ → Reply
build_from g ok b none size = fails (some b)
build_from g ok b (some source) size =
    if ok 0
    then (do
      read ← copy_out source size
      block ← copy_in (resize g (old_block b.buffer) size) 0 read
      gives (some block) size)
    else fails (some b)

unfoldable pub build : Garbage → Outcomes → Option Buffer → Option Bytes → ℕ → Reply
unfolding build_from
build g ok none source size = fails none
build g ok (some b) source size = if size == 0 then gives none 0 else build_from g ok b source size

-- A failed `safemalloc` has stored NULL, which is what `buffer` was.
append_build_from : Garbage → Outcomes → ℕ → Option Bytes → Bytes → ℕ → Reply
unfolding safemalloc
append_build_from g ok old_size none source size = elim (safemalloc g ok size) [
  | none ↦ fails (some (record { buffer = none; size = old_size }))
  | some block ↦ do
    read ← copy_out source size
    block' ← copy_in block 0 read
    gives (some block') size
]
append_build_from g ok old_size (some block) source size =
    let total = safe_add_size_t old_size size in
    if (total == size_max) || (if ok 0 then false else true)
    then fails (some (record { buffer = some block; size = old_size }))
    else do
      read ← copy_out source size
      block' ← copy_in (resize g block total) old_size read
      gives (some block') (old_size + size)

unfoldable pub append_build : Garbage → Outcomes → Option Buffer → Option Bytes → ℕ → Reply
unfolding append_build_from
append_build g ok none source size = fails none
append_build g ok (some b) none size = fails (some b)
append_build g ok (some b) (some source) size =
    if size == 0 then fails (some b) else append_build_from g ok b.size b.buffer source size

pre_build_from : Garbage → Outcomes → Buffer → Option Bytes → ℕ → Reply
pre_build_from g ok b (some block) size = fails (some b)
pre_build_from g ok b none size = if ok 0 then gives (some (fresh g size)) size else fails (some b)

unfoldable pub pre_build : Garbage → Outcomes → Option Buffer → ℕ → Reply
unfolding pre_build_from
pre_build g ok none size = fails none
pre_build g ok (some b) size =
    if size == 0 then fails (some b) else pre_build_from g ok b b.buffer size

unbuild_from : Buffer → Option Bytes → Reply
unbuild_from b none = fails (some b)
unbuild_from b (some block) = gives none 0

unfoldable pub unbuild : Option Buffer → Reply
unfolding unbuild_from
unbuild none = fails none
unbuild (some b) = unbuild_from b b.buffer

unfoldable pub enlarge : Garbage → Outcomes → Option Buffer → ℕ → Reply
enlarge g ok none n = fails none
enlarge g ok (some b) n =
    let total = safe_add_size_t b.size n in
    if n == 0
    then fails (some b)
    else if (total == size_max) || (if ok 0 then false else true)
    then fails (some b)
    else gives (some (resize g (old_block b.buffer) total)) (b.size + n)

-- The copy into the temporary block, from the start or from behind the first `n` bytes.
shrink_to : Garbage → Outcomes → Buffer → ℕ → Bool → ℕ → Reply
shrink_to g ok b n from_end kept =
    if kept == 0
    then gives none 0
    else if ok 0
    then (do
      read ← copy_out (if from_end then old_block b.buffer else drop n (old_block b.buffer)) kept
      block ← copy_in (fresh g kept) 0 read
      gives (some block) kept)
    else fails (some b)

unfoldable pub shrink : Garbage → Outcomes → Option Buffer → ℕ → Bool → Reply
unfolding shrink_to
shrink g ok none n from_end = fails none
shrink g ok (some b) n from_end =
    if n == 0
    then fails (some b)
    else if ltb b.size n
    then fails (some b)
    else shrink_to g ok b n from_end (b.size - n)
