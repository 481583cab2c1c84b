-- ===== src/UwsClient/Runs.antt =====
-- on_underlying_io_bytes_received of src/uws_client.c on whole messages.
use azure_c_shared_utility.Base.{
  ℕ, ◌+◌, ◌<◌, ◌≡◌, refl, true, false, some, List, [], ◌∷◌, ◌++◌, ◌==◌, Bytes, length, All, Exec,
  arith,
}
use azure_c_shared_utility.UwsClient.{
  uws_open, uws_closed, uws_opening_underlying_io, uws_waiting_for_upgrade_response,
  uws_closing_waiting_for_close, uws_closing_sending_close, uws_closing_underlying_io, uws_error,
  indicate_ws_error, not_enough_memory, UwsState, UwsClient, World, Event,
}
use azure_c_shared_utility.UwsClient.Receive.{
  decodes_frames, receive_loop, append_bytes, bytes_in_state, on_bytes_received,
}
use azure_c_shared_utility.UwsClient.Messages.{Message, IsMessage, frames, wire, received}
use azure_c_shared_utility.UwsClient.Blocks.{add_to_stream_lem}
use azure_c_shared_utility.UwsClient.Drains.{Idle, Drains, wire-Drains}

bytes_in_state_lem :
    (w : World) (c : UwsClient) (s : UwsState) (buffer : Bytes)
    → decodes_frames s ≡ true
    → bytes_in_state w c s buffer
      ≡ append_bytes w c buffer (indicate_ws_error c not_enough_memory false)
unfolding bytes_in_state
bytes_in_state_lem w c uws_open buffer on = refl
bytes_in_state_lem w c uws_closing_waiting_for_close buffer on = refl
bytes_in_state_lem w c uws_closed buffer on = absurd (ground arith)
bytes_in_state_lem w c uws_opening_underlying_io buffer on = absurd (ground arith)
bytes_in_state_lem w c uws_waiting_for_upgrade_response buffer on = absurd (ground arith)
bytes_in_state_lem w c uws_closing_sending_close buffer on = absurd (ground arith)
bytes_in_state_lem w c uws_closing_underlying_io buffer on = absurd (ground arith)
bytes_in_state_lem w c uws_error buffer on = absurd (ground arith)

frames_size :
    (kind : ℕ) (ps : List Bytes) (last rest : Bytes)
    → (length (frames kind ps last ++ rest) == 0) ≡ false
frames_size kind [] last rest = ground arith
frames_size kind (p ∷ ps) last rest = ground arith

-- The client after the bytes, in this state and between two messages with nothing left.
unfoldable pub Receives : UwsState → Exec (UwsClient × List Event) → List Event → Type 0
Receives state reply events =
    (d : UwsClient) × (reply ≡ some (d, events)) × Idle state d × (d.stream ≡ [])

pub loop-Receives :
    (w : World) (state : UwsState) (k : ℕ) (c : UwsClient) (ms : List Message)
    → decodes_frames state ≡ true
    → ((n : ℕ) → w.got n ≡ true)
    → Idle state c
    → All IsMessage ms
    → c.stream ≡ wire ms
    → length (wire ms) < k
    → Receives state (receive_loop k w c) (received ms)
unfolding Receives Drains
loop-Receives w state k c ms decodes memory idle known e fuel =
    wire-Drains w state decodes k c ms memory idle known e fuel

-- on_underlying_io_bytes_received of a client that is open or waits for the peer's close frame,
-- between two messages and with an empty stream buffer, on the bytes of one or more text and binary
-- messages, each in one frame or in any number of fragments of fewer than 2^63 bytes, unmasked:
-- if each realloc succeeds, it ends, keeps to its blocks and calls on_ws_frame_received once for
-- each message, in order, with the type and the whole content, and nothing else; the client is then
-- in the same state, between two messages and with an empty stream buffer.
pub on_bytes_received-wire :
    (w : World) (c : UwsClient) (m : Message) (ms : List Message)
    → ((n : ℕ) → w.got n ≡ true)
    → decodes_frames c.uws_state ≡ true
    → Idle c.uws_state c
    → c.stream ≡ []
    → All IsMessage (m ∷ ms)
    → Receives c.uws_state (on_bytes_received w c (wire (m ∷ ms))) (received (m ∷ ms))
unfolding on_bytes_received append_bytes
on_bytes_received-wire w c m ms memory decodes idle empty known =
    let bytes : Bytes = wire (m ∷ ms) in
    let d : UwsClient = record c { stream = bytes; clock = c.clock + 1 } in
    let at : Idle c.uws_state d = record {
      at_state = refl;
      no_fragments = idle.no_fragments;
      no_type = idle.no_type;
    } in
    let done =
      loop-Receives w c.uws_state (length bytes + 1) d (m ∷ ms) decodes memory at known refl
        (omega arith) in
    rw
      (
        frames_size m.kind m.parts m.final_part (wire ms),
        bytes_in_state_lem w c c.uws_state bytes decodes,
        append_bytes,
        memory c.clock,
        empty,
        add_to_stream_lem (w.garbage c.clock) [] bytes,
      )
      done
