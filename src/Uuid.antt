-- ===== src/Uuid.antt =====
-- src/uuid.c: the text form of a UUID, which is a block of 16 bytes. UniqueId_Generate, which
-- UUID_generate calls, is code of each platform.
pub mod Laws
mod Tests
use azure_c_shared_utility.Base.{
  ℕ, zero, suc, ◌+◌, ◌-◌, ◌*◌, ◌/◌, ◌%◌, Bool, true, false, not, ◌&&◌, ◌||◌, Option, none, some, [],
  ◌∷◌, ◌++◌, Bytes, length, take, drop, ltb, leb, ◌==◌, if◌then◌else◌, Outcomes, Exec, ◌>>=◌,
  Garbage, fresh, copy_in, c_string?,
}
use azure_c_shared_utility.Buffer.{Status, success, failure}

-- The macro HEXA_DIGIT_VAL; `none` is -1.
unfoldable pub hexa_digit_val : ℕ → Option ℕ
hexa_digit_val c =
    if leb b'0' c && leb c b'9'
    then some (c - b'0')
    else if leb b'a' c && leb c b'f'
    then some (c - b'a' + 10)
    else if leb b'A' c && leb c b'F'
    then some (c - b'A' + 10)
    else none

unfoldable pub must_be_dash : ℕ → Bool
must_be_dash i = (i == 8) || ((i == 13) || ((i == 18) || (i == 23)))

abbrev pub differ : Bool → Bool → Bool
differ true b = not b
differ false b = b

-- uuid_bytes[j] = the value of two digits; `none` where one is no digit.
pub store_pair : Option ℕ → Option ℕ → ℕ → Bytes → Exec (Status × Bytes)
store_pair (some high) (some low) j uuid = do
  uuid' ← copy_in uuid j ((high * 16 + low) % 256 ∷ [])
  some (success, uuid')
store_pair _ _ j uuid = some (failure, uuid)

-- The loop on the characters from `i` on. The second digit may be the terminator, which is none.
pub read_from : (i j : ℕ) → Bytes → Bytes → Exec (Status × Bytes)
read_from i j [] uuid = some (success, uuid)
read_from i j (c ∷ []) uuid =
    if differ (c == b'-') (must_be_dash i)
    then some (failure, uuid)
    else if c == b'-'
    then some (success, uuid)
    else some (failure, uuid)
read_from i j (c ∷ d ∷ rest) uuid = elim (differ (c == b'-') (must_be_dash i)) [
  | true ↦ some (failure, uuid)
  | false ↦ elim (c == b'-') [
    | true ↦ read_from (i + 1) j (d ∷ rest) uuid
    | false ↦ do
      stored ← store_pair (hexa_digit_val c) (hexa_digit_val d) j uuid
      elim stored.0 [
        | failure ↦ some (failure, stored.1)
        | success ↦ read_from (i + 2) (j + 1) rest stored.1
      ]
  ]
]

-- UUID_from_string: the status and the block of the UUID, which is NULL or has 16 bytes.
unfoldable pub from_string : Option Bytes → Option Bytes → Exec (Status × Option Bytes)
from_string none uuid = some (failure, uuid)
from_string (some s) none = some (failure, none)
from_string (some s) (some uuid) =
    if length s == 36
    then (do r ← read_from 0 0 s uuid; some (r.0, some r.1))
    else some (failure, some uuid)

-- A digit of `%02x`.
unfoldable pub hex_digit : ℕ → ℕ
hex_digit v = if ltb v 10 then b'0' + v else b'a' + (v - 10)

pub hex_text : Bytes → Bytes
hex_text [] = []
hex_text (b ∷ bytes) = hex_digit (b / 16) ∷ hex_digit (b % 16) ∷ hex_text bytes

-- What sprintf writes for UUID_FORMAT_STRING.
unfoldable pub uuid_text : Bytes → Bytes
uuid_text uuid =
    hex_text (take 4 uuid)
    ++ (b'-'
        ∷ (hex_text (take 2 (drop 4 uuid))
            ++ (b'-'
                ∷ (hex_text (take 2 (drop 6 uuid))
                    ++ (b'-'
                        ∷ (hex_text (take 2 (drop 8 uuid))
                            ++ (b'-' ∷ hex_text (take 6 (drop 10 uuid)))))))))

-- UUID_to_string: the text in the block of 37 bytes.
unfoldable pub to_string : Garbage → Outcomes → Option Bytes → Exec (Option Bytes)
to_string g ok none = some none
to_string g ok (some uuid) =
    if ok 0
    then (do
      block ← copy_in (fresh g 37) 0 (uuid_text uuid ++ (0 ∷ []))
      s ← c_string? block
      some (if length (uuid_text uuid) == 36 then some s else none))
    else some none

-- UUID_generate; `unique` is the text that UniqueId_Generate stores, `none` if it fails.
unfoldable pub generate :
    Outcomes → (unique : Option Bytes) → Option Bytes → Exec (Status × Option Bytes)
generate ok unique none = some (failure, none)
generate ok none (some uuid) = some (failure, some uuid)
generate ok (some s) (some uuid) =
    if ok 0 then from_string (some s) (some uuid) else some (failure, some uuid)
