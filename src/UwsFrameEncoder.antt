-- ===== src/UwsFrameEncoder.antt =====
-- src/uws_frame_encoder.c: WebSocket frames. The frame type is its number. `rand` gives the
-- results of gb_rand; payload bytes are read from a block of at least `size` bytes.
pub mod Spec
pub mod Writes
pub mod Laws
pub mod Reader
mod Tests
use azure_c_shared_utility.Base.{
  ℕ, zero, suc, ◌+◌, ◌-◌, ◌*◌, ◌/◌, ◌%◌, ◌^◌, Bool, true, false, not, ◌&&◌, Option, none, some,
  List, [], ◌∷◌, ◌++◌, bit_or, bit_xor, Bytes, length, get_elem?, ltb, ◌==◌, if◌then◌else◌, is_some,
  Outcomes, Exec, ◌>>=◌, Garbage, copy_in, copy_out,
}
use azure_c_shared_utility.Buffer
use azure_c_shared_utility.Buffer.{Buffer, Status, success, failure}
use azure_c_shared_utility.Buffer.Access

unfoldable pub header_bytes : ℕ → Bool → ℕ
header_bytes size is_masked =
    2 + (if ltb 65535 size then 8 else if ltb 125 size then 2 else 0) + (if is_masked then 4 else 0)

unfoldable pub first_byte : ℕ → (is_final : Bool) → ℕ → ℕ
first_byte opcode is_final reserved =
    bit_or (if is_final then bit_or opcode 0x80 else opcode) (reserved * 16 % 256)

-- buffer[1] before the mask bit
unfoldable pub length_code : ℕ → ℕ
length_code size = if ltb 65535 size then 127 else if ltb 125 size then 126 else size % 256

-- The bytes of the length behind buffer[1]. `(x >> k) & 0xFF` is written with `/` and `%`.
unfoldable pub more_length : ℕ → Bytes
more_length size =
    if ltb 65535 size
    then size / 2 ^ 56 % 256
      ∷ size / 2 ^ 48 % 256
      ∷ size / 2 ^ 40 % 256
      ∷ size / 2 ^ 32 % 256
      ∷ size / 2 ^ 24 % 256
      ∷ size / 2 ^ 16 % 256
      ∷ size / 2 ^ 8 % 256
      ∷ size % 256
      ∷ []
    else if ltb 125 size
    then size / 2 ^ 8 % 256 ∷ size % 256 ∷ []
    else []

-- block[i] |= bits
pub or_at : Bytes → ℕ → ℕ → Exec Bytes
or_at [] i bits = none
or_at (x ∷ block) zero bits = some (bit_or x bits ∷ block)
or_at (x ∷ block) (suc i) bits = do rest ← or_at block i bits; some (x ∷ rest)

unfoldable pub mask_key : (rand : ℕ → ℕ) → Bytes
mask_key rand = rand 0 % 256 ∷ rand 1 % 256 ∷ rand 2 % 256 ∷ rand 3 % 256 ∷ []

pub write_key : (rand : ℕ → ℕ) → Bytes → ℕ → Bool → Exec Bytes
write_key rand block header false = some block
write_key rand block header true = do
  marked ← or_at block 1 0x80
  copy_in marked (header - 4) (mask_key rand)

-- The masking loop from `i` on, with `left` rounds left and the rest of the payload.
pub mask_loop : (left i header : ℕ) → Bytes → Bytes → Exec Bytes
mask_loop zero i header payload block = some block
mask_loop (suc left) i header [] block = none
mask_loop (suc left) i header (p ∷ payload) block = do
  key ← get_elem? block (header - 4 + i % 4)
  block' ← copy_in block (header + i) (bit_xor p key ∷ [])
  mask_loop left (i + 1) header payload block'

unfoldable pub write_payload : Bytes → ℕ → Option Bytes → ℕ → Bool → Exec Bytes
write_payload block header none size is_masked = if size == 0 then some block else none
write_payload block header (some payload) size is_masked =
    if size == 0
    then some block
    else if is_masked
    then mask_loop size 0 header payload block
    else (do source ← copy_out payload size; copy_in block header source)

unfoldable pub write_frame :
    (rand : ℕ → ℕ) → Bytes → ℕ → Option Bytes → ℕ → (is_masked is_final : Bool) → ℕ → Exec Bytes
write_frame rand block opcode payload size is_masked is_final reserved = do
  b1 ← copy_in block 0 (first_byte opcode is_final reserved ∷ [])
  b2 ← copy_in b1 1 (length_code size ∷ more_length size)
  b3 ← write_key rand b2 (header_bytes size is_masked) is_masked
  write_payload b3 (header_bytes size is_masked) payload size is_masked

-- The writes through the pointer that BUFFER_u_char returns.
pub write_through : (Bytes → Exec Bytes) → Buffer → Option Bytes → Exec (Option Buffer)
write_through write b none = some none
write_through write b (some block) = do
  block' ← write block
  some (some (record b { buffer = some block' }))

-- What follows the attempt to enlarge the buffer.
pub write_enlarged : (Bytes → Exec Bytes) → Status → Option Buffer → Exec (Option Buffer)
write_enlarged write failure handle = some none
write_enlarged write success none = some none
write_enlarged write success (some b) = write_through write b (Access.u_char (some b))

pub encode_into :
    Garbage → Outcomes → (Bytes → Exec Bytes) → (needed : ℕ) → Option Buffer → Exec (Option Buffer)
encode_into g ok write needed none = some none
encode_into g ok write needed (some b) = do
  reply ← Buffer.enlarge g ok (some b) needed
  write_enlarged write reply.0 reply.1

-- uws_frame_encoder_encode; the outer `none` is an access outside of a block.
unfoldable pub encode :
    Garbage
    → Outcomes
    → (rand : ℕ → ℕ) → ℕ
    → Option Bytes
    → ℕ
    → (is_masked is_final : Bool) → ℕ
    → Exec (Option Buffer)
encode g ok rand opcode payload size is_masked is_final reserved =
    if ltb 7 reserved
    then some none
    else if ltb 0x0F opcode
    then some none
    else if ltb 0 size && not (is_some payload)
    then some none
    else encode_into g (λ i. ok (1 + i))
        (λ block. write_frame rand block opcode payload size is_masked is_final reserved)
        ((header_bytes size is_masked + size) % 2 ^ 64) (Buffer.new ok)
