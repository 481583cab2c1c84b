-- ===== src/Base64.antt =====
-- src/base64.c. A C string is the list of its characters; `char` is taken as a byte, and a
-- negative `char` is a byte of 128 or more, which every test of the code treats alike.
pub mod Bounds
pub mod Decode
pub mod Laws
pub mod RoundTrip
mod Tests
use azure_c_shared_utility.Base.{
  ℕ, ◌+◌, ◌-◌, ◌*◌, ◌/◌, ◌%◌, ◌^◌, Bool, true, false, Option, none, some, [], ◌∷◌, ◌++◌, ltb, leb,
  ◌==◌, if◌then◌else◌, bit_and, bit_or, Bytes, length, get_or, Outcomes, Exec, ◌>>=◌, Garbage,
  fresh, copy_in, copy_out,
}
use azure_c_shared_utility.Strings
use azure_c_shared_utility.Buffer.{Buffer, old_block}

unfoldable pub base64char : ℕ → ℕ
base64char val =
    if ltb val 26
    then b'A' + val
    else if ltb val 52
    then b'a' + (val - 26)
    else if ltb val 62
    then b'0' + (val - 52)
    else if val == 62
    then b'+'
    else b'/'

-- The macros joinChars and splitInt: four characters in a 32-bit word.
abbrev pub join_chars : ℕ → ℕ → ℕ → ℕ → ℕ
join_chars a b c d = (a + b * 2 ^ 8 + c * 2 ^ 16 + d * 2 ^ 24) % 2 ^ 32

abbrev pub split_int : ℕ → ℕ → ℕ
split_int int_val byte_pos = bit_and (int_val / 2 ^ (byte_pos * 8)) 0xFF

abbrev base64b16values : Bytes
base64b16values =
    join_chars b'A' b'E' b'I' b'M'
    ∷ join_chars b'Q' b'U' b'Y' b'c'
    ∷ join_chars b'g' b'k' b'o' b's'
    ∷ join_chars b'w' b'0' b'4' b'8'
    ∷ []

unfoldable pub base64b16 : ℕ → ℕ
base64b16 val = split_int (get_or base64b16values (val / 4) 0) (bit_and val 0x03)

unfoldable pub base64b8 : ℕ → ℕ
base64b8 val = split_int (join_chars b'A' b'Q' b'g' b'w') val

-- The loop over three bytes at a time and what follows it, as the characters that are written.
unfoldable pub encode_from : Bytes → Bytes
encode_from [] = []
encode_from (b0 ∷ []) = base64char (b0 / 4) ∷ base64b8 (bit_and b0 0x03) ∷ b'=' ∷ b'=' ∷ []
encode_from (b0 ∷ b1 ∷ []) =
    base64char (b0 / 4)
    ∷ base64char (bit_or (bit_and b0 0x03 * 16) (b1 / 16))
    ∷ base64b16 (bit_and b1 0x0F)
    ∷ b'='
    ∷ []
encode_from (b0 ∷ b1 ∷ b2 ∷ rest) =
    base64char (b0 / 4)
    ∷ base64char (bit_or (bit_and b0 3 * 16) (b1 / 16))
    ∷ base64char (bit_or (bit_and b1 0x0F * 4) (bit_and (b2 / 64) 3))
    ∷ base64char (bit_and b2 0x3F)
    ∷ encode_from rest

-- `neededSize`, with the byte for the terminator.
unfoldable pub needed_size : ℕ → ℕ
needed_size size = ((if size == 0 then 0 else ((size - 1) / 3 + 1) * 4) + 1) % 2 ^ 64

-- The block is one byte larger than `neededSize`. `none` is a write outside of it.
unfoldable pub encode_internal : Garbage → Outcomes → Bytes → Exec Strings.Text
encode_internal g ok source =
    if ok 0
    then (do
      encoded ←
          copy_in (fresh g ((needed_size (length source) + 1) % 2 ^ 64)) 0
            (encode_from source ++ (0 ∷ []))
      some (Strings.new_with_memory (λ i. ok (1 + i)) (some encoded)))
    else some none

-- The source is the block of `size` bytes.
unfoldable pub encode_bytes : Garbage → Outcomes → Option Bytes → Exec Strings.Text
encode_bytes g ok none = some none
encode_bytes g ok (some source) =
    if length source == 0 then some (Strings.new ok) else encode_internal g ok source

encode_buffer : Garbage → Outcomes → Option Bytes → ℕ → Exec Strings.Text
unfolding encode_internal
encode_buffer g ok block size = do
  source ← copy_out (old_block block) size
  encode_internal g ok source

-- BUFFER_content and BUFFER_size cannot fail here: neither pointer is NULL.
unfoldable pub encoder : Garbage → Outcomes → Option Buffer → Exec Strings.Text
unfolding encode_buffer
encoder g ok none = some none
encoder g ok (some input) = encode_buffer g ok input.buffer input.size
