-- ===== src/Base64/Decode.antt =====
-- src/base64.c: Base64_Decoder and its helpers.
use azure_c_shared_utility.Base.{
  ℕ, suc, ◌+◌, ◌-◌, ◌*◌, ◌/◌, ◌%◌, Bool, ◌&&◌, Option, none, some, [], ◌∷◌, ltb, leb, ◌==◌,
  if◌then◌else◌, bit_and, bit_or, Bytes, length, take, get_or, Outcomes, Exec, ◌>>=◌, Garbage,
  copy_in, is_some,
}
use azure_c_shared_utility.Buffer
use azure_c_shared_utility.Buffer.{Buffer, Status, success, failure, Reply}
use azure_c_shared_utility.Buffer.Access

-- `none` is the result -1; the value that is stored then is 0.
unfoldable pub base64_to_value : ℕ → Option ℕ
base64_to_value c =
    if leb b'A' c && leb c b'Z'
    then some (c - b'A')
    else if leb b'a' c && leb c b'z'
    then some (26 + (c - b'a'))
    else if leb b'0' c && leb c b'9'
    then some (52 + (c - b'0'))
    else if c == b'+'
    then some 62
    else if c == b'/'
    then some 63
    else none

-- What base64toValue stores.
unfoldable pub value : ℕ → ℕ
value c = elim (base64_to_value c) [ none ↦ 0 | some v ↦ v ]

-- The terminator of the string ends the count too.
unfoldable pub number_of_base64_characters : Bytes → ℕ
number_of_base64_characters [] = 0
number_of_base64_characters (c ∷ s) =
    if is_some (base64_to_value c) then suc (number_of_base64_characters s) else 0

unfoldable pub ends_with_equals : Bytes → ℕ → Bool
ends_with_equals s i = get_or s (length s - i) 0 == b'='

unfoldable pub decode_len : Bytes → ℕ
unfolding ends_with_equals
decode_len s =
    if length s == 0
    then 0
    else if ends_with_equals s 1
    then (if ends_with_equals s 2 then length s / 4 * 3 - 1 - 1 else length s / 4 * 3 - 1)
    else length s / 4 * 3

-- The bytes that are written, for the characters that are counted.
unfoldable pub decode_from : Bytes → Bytes
decode_from (c1 ∷ c2 ∷ []) = bit_or (value c1 * 4) (value c2 / 16) % 256 ∷ []
decode_from (c1 ∷ c2 ∷ c3 ∷ []) =
    bit_or (value c1 * 4) (value c2 / 16) % 256
    ∷ bit_or (bit_and (value c2) 0x0F * 16) (value c3 / 4) % 256
    ∷ []
decode_from (c1 ∷ c2 ∷ c3 ∷ c4 ∷ rest) =
    bit_or (value c1 * 4) (value c2 / 16) % 256
    ∷ bit_or (bit_and (value c2) 0x0F * 16) (value c3 / 4) % 256
    ∷ bit_or (bit_and (value c3) 0x03 * 64) (value c4) % 256
    ∷ decode_from rest
decode_from _ = []

unfoldable pub base64decode : Bytes → Bytes
base64decode s = decode_from (take (number_of_base64_characters s) s)

-- The writes through the pointer that BUFFER_u_char returns.
write_decoded : Bytes → Buffer → Option Bytes → Exec (Option Buffer)
write_decoded s b none = none
write_decoded s b (some block) = do
  block' ← copy_in block 0 (base64decode s)
  some (some (record b { buffer = some block' }))

write_built : Bytes → Status → Option Buffer → Exec (Option Buffer)
unfolding write_decoded
write_built s failure handle = some none
write_built s success none = none
write_built s success (some b) = write_decoded s b (Access.u_char (some b))

fill_new : Garbage → Outcomes → Bytes → Option Buffer → Exec (Option Buffer)
unfolding write_built
fill_new g ok s none = some none
fill_new g ok s (some b) =
    if ltb 0 (decode_len s)
    then (Buffer.pre_build g (λ i. ok (1 + i)) (some b) (decode_len s) >>= λ (status, handle).
        write_built s status handle)
    else some (some b)

-- The inner `none` is NULL, the outer one an access outside of the buffer.
unfoldable pub decoder : Garbage → Outcomes → Option Bytes → Exec (Option Buffer)
unfolding fill_new
decoder g ok none = some none
decoder g ok (some s) = if length s % 4 == 0 then fill_new g ok s (Buffer.new ok) else some none
