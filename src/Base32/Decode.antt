-- ===== src/Base32/Decode.antt =====
-- src/base32.c: Base32_Decode and Base32_Decode_String.
use azure_c_shared_utility.Base.{
  ℕ, ◌+◌, ◌-◌, ◌*◌, ◌/◌, ◌%◌, ◌^◌, Bool, true, ◌&&◌, ◌||◌, Option, none, some, [], ◌∷◌, ◌++◌, ltb,
  leb, ◌==◌, if◌then◌else◌, bit_and, bit_or, Bytes, length, Outcomes, Exec, ◌>>=◌, Garbage, fresh,
  copy_in,
}
use azure_c_shared_utility.Buffer
use azure_c_shared_utility.Buffer.{Buffer}

unfoldable pub decoding_length : ℕ → ℕ
decoding_length src_len = src_len * 5 % 2 ^ 64 / 8

unfoldable pub convert_value : ℕ → ℕ
convert_value value =
    if leb 50 value && leb value 55
    then 0x1A + (value - 50)
    else if value == 61
    then 0x20
    else if leb value 49 || (leb 56 value && leb value 64)
    then 0xFF
    else if leb 65 value && leb value 90
    then 0x00 + (value - 65)
    else if leb 91 value && leb value 96
    then 0xFF
    else if leb 97 value && leb value 123
    then 0x00 + (value - 97)
    else 0xFF

-- The five bytes that a group of converted characters is packed into.
unfoldable pub byte0 : ℕ → ℕ → ℕ
byte0 i0 i1 = bit_or (bit_and i0 0x1F * 8) (bit_and i1 0x1C / 4) % 256

unfoldable pub byte1 : ℕ → ℕ → ℕ → ℕ
byte1 i1 i2 i3 =
    bit_or (bit_or (bit_and i1 0x03 * 64) (bit_and i2 0x1F * 2)) (bit_and i3 0x10 / 16) % 256

unfoldable pub byte2 : ℕ → ℕ → ℕ
byte2 i3 i4 = bit_or (bit_and i3 0x0F * 16) (bit_and i4 0x1E / 2) % 256

unfoldable pub byte3 : ℕ → ℕ → ℕ → ℕ
byte3 i4 i5 i6 =
    bit_or (bit_or (bit_and i4 0x01 * 128) (bit_and i5 0x1F * 4)) (bit_and i6 0x18 / 8) % 256

unfoldable pub byte4 : ℕ → ℕ → ℕ
byte4 i6 i7 = bit_or (bit_and i6 0x07 * 32) (bit_and i7 0x1F) % 256

-- By how much the padding reduces `dest_size`.
unfoldable pub padding : ℕ → ℕ → ℕ → ℕ → ℕ
padding i2 i4 i5 i7 =
    if i7 == 32
    then (if i5 == 32 then (if i4 == 32 then (if i2 == 32 then 4 else 3) else 2) else 1)
    else 0

abbrev pub all_ascii : Bytes → Bool
all_ascii [] = true
all_ascii (c ∷ s) = ltb c 0x80 && all_ascii s

abbrev pub more_bytes : Bytes → Option (Bytes × ℕ) → Option (Bytes × ℕ)
more_bytes bytes none = none
more_bytes bytes (some (rest, size)) = some (bytes ++ rest, size)

-- The loop: the bytes that are written and the last `dest_size`. The inner `none` is a failure, and
-- the outer one a read behind the terminator.
unfoldable pub decode_groups : (allocation_len dest_size : ℕ) → Bytes → Exec (Option (Bytes × ℕ))
decode_groups allocation_len dest_size [] = some (some ([], dest_size))
decode_groups allocation_len dest_size (c0 ∷ c1 ∷ c2 ∷ c3 ∷ c4 ∷ c5 ∷ c6 ∷ c7 ∷ rest) =
    let i0 = convert_value c0 in
    let i1 = convert_value c1 in
    let i2 = convert_value c2 in
    let i3 = convert_value c3 in
    let i4 = convert_value c4 in
    let i5 = convert_value c5 in
    let i6 = convert_value c6 in
    let i7 = convert_value c7 in
    if all_ascii (c0 ∷ c1 ∷ c2 ∷ c3 ∷ c4 ∷ c5 ∷ c6 ∷ c7 ∷ [])
    then (if ltb allocation_len (dest_size + 5) then some none else (do
      r ← decode_groups allocation_len (dest_size + 5 - padding i2 i4 i5 i7) rest
      some (
          more_bytes
            (byte0 i0 i1 ∷ byte1 i1 i2 i3 ∷ byte2 i3 i4 ∷ byte3 i4 i5 i6 ∷ byte4 i6 i7 ∷ []) r)))
    else some none
decode_groups allocation_len dest_size _ = none

-- BUFFER_create from the temporary block.
unfoldable pub create_decoded : Garbage → Outcomes → ℕ → Option (Bytes × ℕ) → Exec (Option Buffer)
create_decoded g ok allocation_len none = some none
create_decoded g ok allocation_len (some (bytes, dest_size)) = do
  temp ← copy_in (fresh g allocation_len) 0 bytes
  Buffer.create g ok (some temp) dest_size

unfoldable pub decode_impl : Garbage → Outcomes → Bytes → Exec (Option Buffer)
unfolding create_decoded
decode_impl g ok source =
    if length source % 8 == 0
    then (if ok 0
        then (do
          decoded ← decode_groups (decoding_length (length source)) 0 source
          create_decoded g (λ i. ok (1 + i)) (decoding_length (length source)) decoded)
        else some none)
    else some none

-- Both public functions, of the text of a STRING or of a `char*`.
unfoldable pub decode_string : Garbage → Outcomes → Option Bytes → Exec (Option Buffer)
decode_string g ok none = some none
decode_string g ok (some source) = decode_impl g ok source
