-- ===== src/UwsClient/Receive.antt =====
-- src/uws_client.c: on_underlying_io_bytes_received.
use azure_c_shared_utility.Base.{
  ℕ, zero, suc, ◌+◌, ◌*◌, Bool, true, false, not, Option, none, some, List, [], ◌∷◌, ◌++◌, ltb,
  ◌==◌, if◌then◌else◌, bit_and, Bytes, length, drop, copy_in, copy_out, resize, get_elem?, Garbage,
  Exec, ◌>>=◌,
}
use azure_c_shared_utility.Utf8Checker.{is_valid_utf8}
use azure_c_shared_utility.UwsClient.Upgrade.{upgrade_response}
use azure_c_shared_utility.UwsClient.{
  Length, uws_waiting_for_upgrade_response, uws_opening_underlying_io, open_not_enough_memory,
  open_invalid_bytes, open_bytes_before_open, indicate_ws_open_complete_error_and_close, UwsState,
  uws_closed, uws_open, uws_closing_waiting_for_close, uws_closing_sending_close,
  uws_closing_underlying_io, not_enough_memory, bad_frame_received, cannot_close_underlying_io,
  Event, error_indicated, peer_closed, io_sends, io_closes, UwsClient, World, Round, round, encoded,
  sends, indicate_ws_error, indicate_ws_error_and_close, indicate_ws_close_complete, more_needed,
  bad_length, payload_length, frame_length, continuation_frame, data_frame,
}

-- xio_close, with an error of the user if it fails.
pub close_underlying_io : World → UwsClient → Round
close_underlying_io w c =
    if w.close_ok c.clock
    then round (record c { uws_state = uws_closing_underlying_io }) (io_closes ∷ []) false
    else round (record c { uws_state = uws_closed })
        (io_closes ∷ error_indicated cannot_close_underlying_io ∷ []) false

-- xio_close when the peer answers the close frame of this client.
pub close_answered : World → UwsClient → Round
close_answered w c =
    if w.close_ok c.clock
    then round (record c { uws_state = uws_closing_underlying_io }) (io_closes ∷ []) false
    else (let done = indicate_ws_close_complete c in
        round done.client (io_closes ∷ done.events) false)

pub close_code : Bytes → Option ℕ
close_code (b0 ∷ b1 ∷ rest) = some (b0 * 256 + b1)
close_code _ = none

unfoldable pub extra_data : Bytes → Option Bytes
extra_data (b0 ∷ b1 ∷ b2 ∷ rest) = some (b2 ∷ rest)
extra_data _ = none

unfoldable pub reason_is_valid : Option Bytes → Bool
reason_is_valid none = true
reason_is_valid (some reason) = is_valid_utf8 (some reason)

-- The close frame that answers the peer's, or the end of the connection.
pub send_close_response : World → UwsClient → Option Bytes → Round
send_close_response w c none = close_underlying_io w c
send_close_response w c (some frame) =
    if w.send_ok c.clock
    then round (record c { uws_state = uws_closing_sending_close }) (io_sends frame ∷ []) false
    else (let closed = close_underlying_io w c in
        round closed.client (io_sends frame ∷ closed.events) false)

unfoldable pub peer_closes : World → UwsClient → Bytes → Exec Round
peer_closes w c payload = do
  f ← encoded w c.clock 8 none 0
  let r = send_close_response w c f in
      some (
        round r.client (r.events ++ (peer_closed (close_code payload) (extra_data payload) ∷ []))
          false)

unfoldable pub close_checked : World → UwsClient → UwsState → Bytes → Exec Round
close_checked w c uws_closing_waiting_for_close payload = some (close_answered w c)
close_checked w c _ payload = peer_closes w c payload

unfoldable pub close_frame : World → UwsClient → (is_final : Bool) → Bytes → Exec Round
unfolding close_underlying_io close_answered close_code extra_data reason_is_valid
    send_close_response peer_closes close_checked
close_frame w c false payload = some (indicate_ws_error c bad_frame_received false)
close_frame w c true payload =
    if reason_is_valid (extra_data payload)
    then close_checked w c c.uws_state payload
    else some (close_underlying_io w c)

unfoldable pub ping_frame : World → UwsClient → (is_final : Bool) → Bytes → Exec Round
ping_frame w c false payload = some (indicate_ws_error c bad_frame_received false)
ping_frame w c true payload = do
  f ← encoded w c.clock 10 (some payload) (length payload)
  some (round c (sends f) false)

-- The switch over the opcode.
unfoldable pub process_frame :
    World → UwsClient → (opcode : ℕ) → (is_final : Bool) → Bytes → Exec Round
process_frame w c opcode is_final payload =
    if opcode == 0
    then continuation_frame w c is_final payload
    else if opcode == 1
    then data_frame w c 1 is_final payload
    else if opcode == 2
    then data_frame w c 2 is_final payload
    else if opcode == 8
    then close_frame w c is_final payload
    else if opcode == 9
    then ping_frame w c is_final payload
    else some (round c [] false)

-- consume_stream_buffer_bytes, behind a frame.
abbrev pub consume : ℕ → Bytes → Round → Round
consume needed stream r = record r {
  client = record r.client { stream = drop needed stream; clock = r.client.clock + 1 };
}

-- What comes behind the length of the header.
unfoldable pub frame_at : World → UwsClient → (b0 header length : ℕ) → Exec Round
frame_at w c b0 header size =
    if ltb (length c.stream) (header + size) then some (round c [] false) else (do
      payload ← copy_out (drop header c.stream) size
      r ← process_frame w c (bit_and b0 0x0F) (not (bit_and b0 0x80 == 0)) payload
      some (consume (header + size) c.stream r))

unfoldable pub frame_with : World → UwsClient → (b0 : ℕ) → Length → Exec Round
frame_with w c b0 more_needed = some (round c [] false)
frame_with w c b0 bad_length = some (indicate_ws_error c bad_frame_received false)
frame_with w c b0 (payload_length header size) = frame_at w c b0 header size

unfoldable pub frame_from : World → UwsClient → Bytes → (b0 : ℕ) → Exec Round
frame_from w c s b0 = do size ← frame_length s; frame_with w c b0 size

-- A masked frame is reported and then read like any other.
unfoldable pub frame_checked : World → UwsClient → Bytes → (b0 b1 : ℕ) → Exec Round
frame_checked w c s b0 b1 = if bit_and b1 0x80 == 0 then frame_from w c s b0 else (do
  m ← indicate_ws_error_and_close w c bad_frame_received 1002
  r ← frame_from w m.client s b0
  some (round r.client (m.events ++ r.events) r.decode_stream))

-- The bytes of the stream buffer are read once there are two of them.
unfoldable pub receive_frame : World → UwsClient → Bytes → Exec Round
receive_frame w c s =
    if ltb (length s) 2
    then some (round c [] false)
    else (do b0 ← get_elem? s 0; b1 ← get_elem? s 1; frame_checked w c s b0 b1)

abbrev pub decodes_frames : UwsState → Bool
decodes_frames uws_open = true
decodes_frames uws_closing_waiting_for_close = true
decodes_frames _ = false

-- The switch over the state.
unfoldable pub receive_round : World → UwsClient → UwsState → Exec Round
receive_round w c uws_opening_underlying_io =
    some (indicate_ws_open_complete_error_and_close c open_bytes_before_open)
receive_round w c uws_waiting_for_upgrade_response = some (upgrade_response w c)
receive_round w c uws_open = receive_frame w c c.stream
receive_round w c uws_closing_waiting_for_close = receive_frame w c c.stream
receive_round w c _ = some (round c [] false)

-- The loop; an outer `none` is an access outside of a block or no more fuel.
unfoldable pub receive_loop : (fuel : ℕ) → World → UwsClient → Exec (UwsClient × List Event)
receive_loop zero w c = none
receive_loop (suc k) w c = do
  r ← receive_round w c c.uws_state
  elim r.decode_stream [
    | false ↦ some (r.client, r.events)
    | true ↦ do rest ← receive_loop k w r.client; some (rest.0, r.events ++ rest.1)
  ]

-- The stream buffer with the bytes behind it and the terminator. While the client waits for the
-- upgrade response, the terminator is written by the first round of the loop.
unfoldable pub add_to_stream : Garbage → Bytes → Bytes → Exec Bytes
add_to_stream g stream buffer = do
  block ← copy_in (resize g stream (length stream + length buffer + 1)) (length stream) buffer
  terminated ← copy_in block (length stream + length buffer) (0 ∷ [])
  copy_out terminated (length stream + length buffer)

-- The bytes are added to the stream buffer and decoded; `refused` if there is no memory.
unfoldable pub append_bytes :
    World → UwsClient → Bytes → (refused : Round) → Exec (UwsClient × List Event)
append_bytes w c buffer refused =
    if w.got c.clock
    then (do
      stream ← add_to_stream (w.garbage c.clock) c.stream buffer
      receive_loop (length stream + 1) w (record c { stream = stream; clock = c.clock + 1 }))
    else some (refused.client, refused.events)

abbrev pub ends : Round → Exec (UwsClient × List Event)
ends r = some (r.client, r.events)

unfoldable pub bytes_in_state : World → UwsClient → UwsState → Bytes → Exec (UwsClient × List Event)
bytes_in_state w c uws_opening_underlying_io buffer =
    ends (indicate_ws_open_complete_error_and_close c open_bytes_before_open)
bytes_in_state w c uws_waiting_for_upgrade_response buffer =
    append_bytes w c buffer (indicate_ws_open_complete_error_and_close c open_not_enough_memory)
bytes_in_state w c uws_open buffer =
    append_bytes w c buffer (indicate_ws_error c not_enough_memory false)
bytes_in_state w c uws_closing_waiting_for_close buffer =
    append_bytes w c buffer (indicate_ws_error c not_enough_memory false)
bytes_in_state w c _ buffer = some (c, [])

-- on_underlying_io_bytes_received; no bytes stand for a NULL buffer too.
unfoldable pub on_bytes_received : World → UwsClient → Bytes → Exec (UwsClient × List Event)
on_bytes_received w c buffer =
    if length buffer == 0
    then ends (indicate_ws_open_complete_error_and_close c open_invalid_bytes)
    else bytes_in_state w c c.uws_state buffer
