-- ===== src/Buffer/Access.antt =====
-- src/buffer.c: BUFFER_content, BUFFER_size, BUFFER_u_char, BUFFER_length and BUFFER_fill.
pub mod Laws
use azure_c_shared_utility.Base.{
  ℕ, zero, suc, ◌+◌, Bool, true, false, Option, none, some, [], ◌∷◌, ◌==◌, if◌then◌else◌, Bytes,
  Exec, ◌>>=◌, copy_in,
}
use azure_c_shared_utility.Buffer.{Status, success, failure, Buffer, Reply, fails, old_block}

-- The status and what is stored through the second pointer, which may be NULL.
unfoldable pub content : Option Buffer → (wants : Bool) → Status × Option (Option Bytes)
content none wants = (failure, none)
content (some b) false = (failure, none)
content (some b) true = (success, some b.buffer)

unfoldable pub size : Option Buffer → (wants : Bool) → Status × Option ℕ
size none wants = (failure, none)
size (some b) false = (failure, none)
size (some b) true = (success, some b.size)

unfoldable pub u_char : Option Buffer → Option Bytes
u_char none = none
u_char (some b) = if b.size == 0 then none else b.buffer

unfoldable pub buffer_length : Option Buffer → ℕ
buffer_length none = 0
buffer_length (some b) = b.size

-- The loop of BUFFER_fill from `index` on, with `left` rounds left.
fill_loop : ℕ → (left index : ℕ) → Bytes → Exec Bytes
fill_loop c zero index block = some block
fill_loop c (suc left) index block = do
  block' ← copy_in block index (c ∷ [])
  fill_loop c left (index + 1) block'

stored : Option Bytes → Bytes → Option Bytes
stored none block = none
stored (some _) block = some block

unfoldable pub fill : Option Buffer → ℕ → Reply
unfolding fill_loop stored
fill none c = fails none
fill (some b) c = do
  block ← fill_loop c b.size 0 (old_block b.buffer)
  some (success, some (record b { buffer = stored b.buffer block }))
