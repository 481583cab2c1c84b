-- ===== src/Buffer/Combine.antt =====
-- src/buffer.c: the operations on two buffers, BUFFER_append, BUFFER_prepend and BUFFER_clone.
-- `same` says whether the two handles are one pointer.
pub mod Laws
pub mod Copies
use azure_c_shared_utility.Base.{
  ℕ, ◌+◌, Bool, true, false, ◌||◌, Option, none, some, ◌==◌, if◌then◌else◌, Bytes, Outcomes,
  size_max, safe_add_size_t, Exec, ◌>>=◌, Garbage, fresh, resize, copy_in, copy_out,
}
use azure_c_shared_utility.Buffer.{Buffer, Reply, fails, gives, old_block, safemalloc}

append_blocks : Garbage → Outcomes → Buffer → Option Bytes → ℕ → Option Bytes → Reply
append_blocks g ok b1 none size2 block2 = fails (some b1)
append_blocks g ok b1 (some block1) size2 none = fails (some b1)
append_blocks g ok b1 (some block1) size2 (some block2) =
    let total = safe_add_size_t b1.size size2 in
    if size2 == 0
    then gives (some block1) b1.size
    else if (total == size_max) || (if ok 0 then false else true)
    then fails (some b1)
    else do
      read ← copy_out block2 size2
      block ← copy_in (resize g block1 total) b1.size read
      gives (some block) (b1.size + size2)

-- The reply is about the first handle; the second buffer is only read.
unfoldable pub append : Garbage → Outcomes → Bool → Option Buffer → Option Buffer → Reply
unfolding append_blocks
append g ok same none h2 = fails none
append g ok same (some b1) none = fails (some b1)
append g ok same (some b1) (some b2) =
    if same then fails (some b1) else append_blocks g ok b1 b1.buffer b2.size b2.buffer

prepend_blocks : Garbage → Outcomes → Buffer → Option Bytes → ℕ → Option Bytes → Reply
prepend_blocks g ok b1 none size2 block2 = fails (some b1)
prepend_blocks g ok b1 (some block1) size2 none = fails (some b1)
prepend_blocks g ok b1 (some block1) size2 (some block2) =
    let total = safe_add_size_t (safe_add_size_t b1.size size2) 1 in
    if size2 == 0
    then gives (some block1) b1.size
    else if (total == size_max) || (if ok 0 then false else true)
    then fails (some b1)
    else do
      read2 ← copy_out block2 size2
      temp ← copy_in (fresh g total) 0 read2
      read1 ← copy_out block1 b1.size
      temp' ← copy_in temp size2 read1
      gives (some temp') (b1.size + size2)

unfoldable pub prepend : Garbage → Outcomes → Bool → Option Buffer → Option Buffer → Reply
unfolding prepend_blocks
prepend g ok same none h2 = fails none
prepend g ok same (some b1) none = fails (some b1)
prepend g ok same (some b1) (some b2) =
    if same then fails (some b1) else prepend_blocks g ok b1 b1.buffer b2.size b2.buffer

clone_block : Garbage → Outcomes → Buffer → Exec (Option Buffer)
unfolding safemalloc
clone_block g ok b = elim (safemalloc g ok b.size) [
  | none ↦ some none
  | some block ↦ do
    read ← copy_out (old_block b.buffer) b.size
    block' ← copy_in block 0 read
    some (some (record { buffer = some block'; size = b.size }))
]

unfoldable pub clone : Garbage → Outcomes → Option Buffer → Exec (Option Buffer)
unfolding clone_block
clone g ok none = some none
clone g ok (some b) = if ok 0 then clone_block g (λ i. ok (1 + i)) b else some none
