-- ===== src/Base32.antt =====
-- src/base32.c: the encoder and the public functions. A `char*` result is the text in its block.
pub mod Decode
pub mod Groups
pub mod Positions
pub mod RoundTrip
pub mod Laws
mod Safety
mod Tests
use azure_c_shared_utility.Base.{
  ℕ, zero, suc, ◌+◌, ◌-◌, ◌*◌, ◌/◌, ◌%◌, ◌^◌, Bool, true, false, ◌||◌, Option, none, some, [], ◌∷◌,
  ◌++◌, ◌==◌, if◌then◌else◌, bit_and, bit_or, Bytes, codes, length, get_or, replicate, Outcomes,
  Exec, ◌>>=◌, Garbage, copy_in, copy_out, c_string?,
}
use azure_c_shared_utility.Buffer.{Buffer}
use azure_c_shared_utility.Buffer.Access
use azure_c_shared_utility.Strings

abbrev pub base32_values : Bytes
base32_values = codes "abcdefghijklmnopqrstuvwxyz234567="

unfoldable pub base32_char : ℕ → ℕ
base32_char pos = get_or base32_values pos 0

unfoldable pub encoding_length : ℕ → ℕ
encoding_length src_len = (src_len + 5 - 1) / 5 * 8 % 2 ^ 64

-- The positions that one block of at most five bytes gives, by the fall through of both switches;
-- `|=` on a position that is still 0 is left out.
abbrev pub pos1 : ℕ → ℕ
pos1 b0 = bit_and b0 0xF8 / 8

abbrev pub pos2 : ℕ → ℕ → ℕ
pos2 b0 b1 = bit_or (bit_and b1 0xC0 / 64) (bit_and b0 0x07 * 4)

abbrev pub pos3 : ℕ → ℕ
pos3 b1 = bit_and b1 0x3E / 2

abbrev pub pos4 : ℕ → ℕ → ℕ
pos4 b1 b2 = bit_or (bit_and b2 0xF0 / 16) (bit_and b1 0x01 * 16)

abbrev pub pos5 : ℕ → ℕ → ℕ
pos5 b2 b3 = bit_or (bit_and b3 0x80 / 128) (bit_and b2 0x0F * 2)

abbrev pub pos6 : ℕ → ℕ
pos6 b3 = bit_and b3 0x7C / 4

abbrev pub pos7 : ℕ → ℕ → ℕ
pos7 b3 b4 = bit_or (bit_and b4 0xE0 / 32) (bit_and b3 0x03 * 8)

abbrev pub pos8 : ℕ → ℕ
pos8 b4 = bit_and b4 0x1F

abbrev pub group : ℕ → ℕ → ℕ → ℕ → ℕ → ℕ → ℕ → ℕ → Bytes
group p1 p2 p3 p4 p5 p6 p7 p8 =
    base32_char p1
    ∷ base32_char p2
    ∷ base32_char p3
    ∷ base32_char p4
    ∷ base32_char p5
    ∷ base32_char p6
    ∷ base32_char p7
    ∷ base32_char p8
    ∷ []

-- The loop over the source, as the characters that are written.
unfoldable pub encode_from : Bytes → Bytes
encode_from [] = []
encode_from (b0 ∷ []) = group (pos1 b0) (bit_and b0 0x07 * 4) 32 32 32 32 32 32
encode_from (b0 ∷ b1 ∷ []) =
    group (pos1 b0) (pos2 b0 b1) (pos3 b1) (bit_and b1 0x01 * 16) 32 32 32 32
encode_from (b0 ∷ b1 ∷ b2 ∷ []) =
    group (pos1 b0) (pos2 b0 b1) (pos3 b1) (pos4 b1 b2) (bit_and b2 0x0F * 2) 32 32 32
encode_from (b0 ∷ b1 ∷ b2 ∷ b3 ∷ []) =
    group (pos1 b0) (pos2 b0 b1) (pos3 b1) (pos4 b1 b2) (pos5 b2 b3) (pos6 b3) (bit_and b3 0x03 * 8)
      32
encode_from (b0 ∷ b1 ∷ b2 ∷ b3 ∷ b4 ∷ rest) =
    group (pos1 b0) (pos2 b0 b1) (pos3 b1) (pos4 b1 b2) (pos5 b2 b3) (pos6 b3) (pos7 b3 b4)
      (pos8 b4)
    ++ encode_from rest

-- The text in the block, which memset filled with 0; `none` is a write outside of it.
unfoldable pub encode_impl : (got : Bool) → Bytes → Exec (Option Bytes)
encode_impl got source =
    if got
    then (do
      block ← copy_in (replicate (encoding_length (length source) + 1) 0) 0 (encode_from source)
      s ← c_string? block
      some (some s))
    else some none

-- Base32_Encode_Bytes; the source has the size that is given.
unfoldable pub encode_bytes : (got : Bool) → Option Bytes → Exec (Option Bytes)
encode_bytes got none = some none
encode_bytes got (some source) =
    if length source == 0 then some (if got then some [] else none) else encode_impl got source

abbrev pub construct_encoded : Outcomes → Option Bytes → Strings.Text
construct_encoded ok none = none
construct_encoded ok (some s) = Strings.construct ok (some s)

encode_value : Outcomes → ℕ → Option Bytes → Exec Strings.Text
encode_value ok input_len none = some (Strings.new ok)
encode_value ok input_len (some input_value) = if input_len == 0 then some (Strings.new ok) else (do
  source ← copy_out input_value input_len
  encoded ← encode_impl (ok 0) source
  some (construct_encoded (λ i. ok (1 + i)) encoded))

-- Base32_Encode
unfoldable pub encode : Outcomes → Option Buffer → Exec Strings.Text
unfolding encode_value
encode ok none = some none
encode ok (some b) = encode_value ok (Access.buffer_length (some b)) (Access.u_char (some b))
