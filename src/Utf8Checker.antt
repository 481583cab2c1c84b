-- ===== src/Utf8Checker.antt =====
-- src/utf8_checker.c: the test whether a sequence of bytes is UTF-8. The bytes from `pos` on are
-- a list, and `pos < length` is that it is not empty.
pub mod Laws
pub mod Accepted
mod Tests
use azure_c_shared_utility.Base.{
  ℕ, zero, suc, ◌+◌, ◌*◌, ◌/◌, Bool, true, false, Option, none, some, [], ◌∷◌, ◌==◌, leb,
  if◌then◌else◌, bit_and, Bytes, length, ◌>>=◌,
}

-- One more byte of a sequence. The code point has at most 21 bits, so the shift of the uint32_t
-- loses none.
pub continued : ℕ × Bytes → Option (ℕ × Bytes)
continued (code_point, []) = none
continued (code_point, b ∷ rest) =
    if b / 64 == 0x02 then some (code_point * 64 + bit_and b 0x3F, rest) else none

-- The bytes behind the sequence if its code point needs one of that length.
pub longer_than : ℕ → ℕ × Bytes → Option Bytes
longer_than largest (code_point, rest) = if leb code_point largest then none else some rest

pub four_bytes : ℕ → Bytes → Option Bytes
four_bytes a rest = do
  first ← continued (bit_and a 0x07, rest)
  second ← continued first
  third ← continued second
  longer_than 0xFFFF third

pub three_bytes : ℕ → Bytes → Option Bytes
three_bytes a rest = do
  first ← continued (bit_and a 0x0F, rest)
  second ← continued first
  longer_than 0x7FF second

pub two_bytes : ℕ → Bytes → Option Bytes
two_bytes a rest = do first ← continued (bit_and a 0x1F, rest); longer_than 0x7F first

-- A round of the loop: the bytes that are left, or `none` where `result` becomes false.
pub sequence : ℕ → Bytes → Option Bytes
sequence a rest =
    if a / 8 == 0x1E
    then four_bytes a rest
    else if a / 16 == 0x0E
    then three_bytes a rest
    else if a / 32 == 0x06
    then two_bytes a rest
    else if a / 128 == 0x00
    then some rest
    else none

-- The loop, on fuel: a round takes at least one byte.
pub valid_from : ℕ → Bytes → Bool
valid_from fuel [] = true
valid_from zero (a ∷ rest) = false
valid_from (suc fuel) (a ∷ rest) = elim (sequence a rest) [
  | none ↦ false
  | some rest' ↦ valid_from fuel rest'
]

unfoldable pub is_valid_utf8 : Option Bytes → Bool
is_valid_utf8 none = false
is_valid_utf8 (some s) = valid_from (length s) s
