-- ===== src/UwsClient.antt =====
-- src/uws_client.c: what a WebSocket client does with the bytes that it receives. The stream buffer is
-- the list of the bytes received, as many as stream_buffer_count; realloc, the copy and the terminator behind
-- them are steps on its block. The sizes given to realloc do not wrap, as those of blocks in memory. Calls of the user's callbacks and of the
-- underlying IO are events. What the outside does is a `World`: `clock`, the number of frames so
-- far, tells its answers apart. A callback that calls the client again is not modelled.
pub mod Upgrade
pub mod Receive
pub mod Blocks
mod Lengths
mod Frames
pub mod Messages
pub mod Drains
pub mod Runs
pub mod Opens
mod Encoded
pub mod Total
mod Progress
pub mod Safety
pub mod Session
pub mod Request
mod Tests
use azure_c_shared_utility.Base.{
  ℕ, zero, suc, ◌+◌, ◌*◌, ◌/◌, ◌%◌, ◌^◌, Bool, true, false, not, Option, none, some, List, [], ◌∷◌,
  ◌++◌, ltb, ◌==◌, if◌then◌else◌, bit_and, Bytes, length, take, drop, Outcomes, Garbage, Exec,
  ◌>>=◌, copy_out, copy_in, resize, get_elem?,
}
use azure_c_shared_utility.Buffer.{Buffer}
use azure_c_shared_utility.Buffer.Access
use azure_c_shared_utility.UwsFrameEncoder
use azure_c_shared_utility.Utf8Checker.{is_valid_utf8}

pub data UwsState : Type 0 where
  uws_closed uws_opening_underlying_io uws_waiting_for_upgrade_response uws_open : UwsState
  uws_closing_waiting_for_close uws_closing_sending_close uws_closing_underlying_io uws_error :
      UwsState

pub data WsError : Type 0 where
  not_enough_memory bad_frame_received cannot_close_underlying_io underlying_io_error : WsError

-- WS_OPEN_RESULT_DETAILED: what the code sets of it.
pub data OpenResult : Type 0 where
  ws_open_ok open_not_enough_memory open_invalid_bytes open_bytes_before_open
        open_bad_upgrade_response open_multiple_io_opens open_io_error open_base64_failed
        open_constructing_request open_cannot_send_request :
      OpenResult
  open_io_failed open_io_cancelled : (negative : Bool) → (code : ℕ) → OpenResult
  open_bad_response_status : (negative : Bool) → (status_code : ℕ) → (buffer : Bytes) → OpenResult

pub data Event : Type 0 where
  open_completed : OpenResult → Event
  frame_received : (frame_type : ℕ) → Bytes → Event
  error_indicated : WsError → Event
  peer_closed : (close_code : Option ℕ) → (extra_data : Option Bytes) → Event
  io_sends : Bytes → Event
  io_opens io_closes : Event
  pending_sends_cleared : Event
  close_completed : Event

pub record UwsClient : Type 0 where
  pub uws_state : UwsState
  pub stream : Bytes
  pub fragments : Bytes
  pub fragmented_frame_type : ℕ
  pub on_ws_close_complete : Bool
  pub clock : ℕ

-- `strtol` is that of the C library on the text up to its first 0, with base 0: `none` if no character is
-- read, and otherwise the sign and the magnitude of the long, and whether errno is not 0 then. The others: whether a
-- realloc, xio_send and xio_close succeed, what malloc and realloc leave in new memory, and what the frame
-- encoder uses.
pub record World : Type 0 where
  pub got : ℕ → Bool
  pub send_ok : ℕ → Bool
  pub close_ok : ℕ → Bool
  pub garbage : ℕ → Garbage
  pub requests : ℕ → Outcomes
  pub rand : ℕ → ℕ → ℕ
  pub strtol : Bytes → Option ((Bool × ℕ) × Bool)

-- The client after a part of the code, the events, and `decode_stream`.
pub record Round : Type 0 where
  pub client : UwsClient
  pub events : List Event
  pub decode_stream : Bool

abbrev pub round : UwsClient → List Event → Bool → Round
round c events again = record { client = c; events = events; decode_stream = again }

unfoldable pub frame_bytes : Option Buffer → Exec (Option Bytes)
frame_bytes none = some none
frame_bytes (some b) = do
  block ← Access.u_char (some b)
  bytes ← copy_out block (Access.buffer_length (some b))
  some (some bytes)

-- uws_frame_encoder_encode as it is called here, and the bytes that are read from its result.
unfoldable pub encoded : World → ℕ → ℕ → Option Bytes → ℕ → Exec (Option Bytes)
encoded w clock opcode payload size = do
  b ←
      UwsFrameEncoder.encode (w.garbage clock) (w.requests clock) (w.rand clock) opcode payload size
        true true 0
  frame_bytes b

-- An encoded frame is sent; the result of xio_send is not used.
abbrev pub sends : Option Bytes → List Event
sends none = []
sends (some bytes) = io_sends bytes ∷ []

unfoldable pub indicate_ws_error : UwsClient → WsError → Bool → Round
indicate_ws_error c e again =
    round (record c { uws_state = uws_error }) (error_indicated e ∷ []) again

-- indicate_ws_error_and_close with send_close_frame
unfoldable pub indicate_ws_error_and_close :
    World → UwsClient → WsError → (close_error_code : ℕ) → Exec Round
indicate_ws_error_and_close w c e close_error_code = do
  f ←
      encoded w c.clock 8 (some (close_error_code / 256 % 256 ∷ bit_and close_error_code 0xFF ∷ []))
        2
  some (
      round (record c { uws_state = uws_error; clock = c.clock + 1 })
        (sends f ++ (error_indicated e ∷ [])) false)

-- indicate_ws_open_complete_error_and_close; the result of xio_close is not used.
unfoldable pub indicate_ws_open_complete_error_and_close : UwsClient → OpenResult → Round
indicate_ws_open_complete_error_and_close c result =
    round (record c { uws_state = uws_closed }) (io_closes ∷ open_completed result ∷ []) false

unfoldable pub indicate_ws_close_complete : UwsClient → Round
indicate_ws_close_complete c =
    round (record c { uws_state = uws_closed })
      (pending_sends_cleared ∷ (if c.on_ws_close_complete then close_completed ∷ [] else [])) false

-- What the header says: not enough bytes, a length that is not allowed, or the bytes of the header
-- and of the payload.
pub data Length : Type 0 where
  more_needed bad_length : Length
  payload_length : (header length : ℕ) → Length

-- A byte of the stream buffer is read by its index; `none` if it was not received.
unfoldable pub length_16 : Bytes → Exec Length
length_16 s = if ltb (length s) 4 then some more_needed else (do
  b2 ← get_elem? s 2
  b3 ← get_elem? s 3
  let n = b2 * 256 + b3 in some (if ltb n 126 then bad_length else payload_length 4 n))

-- The length in the bytes 2 to 9, the highest bit of which is not set.
unfoldable pub length_of_8 : Bytes → Exec Length
length_of_8 s = do
  b2 ← get_elem? s 2
  b3 ← get_elem? s 3
  b4 ← get_elem? s 4
  b5 ← get_elem? s 5
  b6 ← get_elem? s 6
  b7 ← get_elem? s 7
  b8 ← get_elem? s 8
  b9 ← get_elem? s 9
  let n =
        b2 * 2 ^ 56
        + b3 * 2 ^ 48
        + b4 * 2 ^ 40
        + b5 * 2 ^ 32
        + b6 * 2 ^ 24
        + b7 * 2 ^ 16
        + b8 * 2 ^ 8
        + b9 in
      some (if ltb n 65536 then bad_length else payload_length 10 n)

unfoldable pub length_64 : Bytes → Exec Length
length_64 s =
    if ltb (length s) 10
    then some more_needed
    else (do b2 ← get_elem? s 2; if bit_and b2 0x80 == 0 then length_of_8 s else some bad_length)

unfoldable pub frame_length : Bytes → Exec Length
frame_length s = do
  b1 ← get_elem? s 1
  if b1 == 126 then length_16 s else if b1 == 127 then length_64 s else some (payload_length 2 b1)

-- realloc and the copy of process_frame_fragment; the inner `none` if memory is not had.
unfoldable pub process_frame_fragment : World → UwsClient → Bytes → Exec (Option UwsClient)
process_frame_fragment w c payload =
    if w.got c.clock
    then (do
      block ←
          copy_in (resize (w.garbage c.clock) c.fragments (length c.fragments + length payload))
            (length c.fragments) payload
      some (some (record c { fragments = block })))
    else some none

unfoldable pub continuation_last : UwsClient → Round
continuation_last c =
    if c.fragmented_frame_type == 0
    then indicate_ws_error c bad_frame_received true
    else round (record c { fragments = []; fragmented_frame_type = 0 })
        (frame_received c.fragmented_frame_type c.fragments ∷ []) true

unfoldable pub continuation_frame : World → UwsClient → (is_final : Bool) → Bytes → Exec Round
unfolding continuation_last
continuation_frame w c is_final payload = do
  fragment ← process_frame_fragment w c payload
  some (elim fragment [
    | none ↦ indicate_ws_error c not_enough_memory false
    | some d ↦ if is_final then continuation_last d else round d [] true
  ])

-- A text or a binary frame.
unfoldable pub data_frame :
    World → UwsClient → (frame_type : ℕ) → (is_final : Bool) → Bytes → Exec Round
data_frame w c frame_type true payload =
    some (round c (frame_received frame_type payload ∷ []) true)
data_frame w c frame_type false payload =
    if c.fragmented_frame_type == 0
    then (do
      fragment ← process_frame_fragment w c payload
      some (elim fragment [
        | none ↦ indicate_ws_error c not_enough_memory false
        | some d ↦ round (record d { fragmented_frame_type = frame_type }) [] true
      ]))
    else some (indicate_ws_error c bad_frame_received true)
