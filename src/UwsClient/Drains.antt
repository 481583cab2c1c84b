-- ===== src/UwsClient/Drains.antt =====
-- The loop of src/uws_client.c, frame by frame, over the frames of whole messages.
use azure_c_shared_utility.Base.{
  append_assoc, ℕ, zero, suc, ◌+◌, ◌<◌, ◌≤◌, ◌≡◌, ◌≢◌, ◌⊎◌, ◌∙◌, ap, refl, Bool, true, false, some,
  List, [], ◌∷◌, ◌++◌, ◌==◌, Bytes, length, length-append, All, arith,
}
use azure_c_shared_utility.UwsClient.{
  uws_open, uws_closed, uws_opening_underlying_io, uws_waiting_for_upgrade_response,
  uws_closing_waiting_for_close, uws_closing_sending_close, uws_closing_underlying_io, uws_error,
  UwsState, UwsClient, World, Round, round, Event, frame_received,
}
use azure_c_shared_utility.UwsClient.Receive.{
  process_frame, decodes_frames, receive_frame, receive_loop, receive_round,
}
use azure_c_shared_utility.UwsClient.Frames.{server_frame, behind_frame, receive_frame-server_frame}
use azure_c_shared_utility.UwsClient.Messages.{
  Message, Short, IsMessage, continuations, frames, wire, whole, received, continuation_last_lem,
  continuation_more_lem, data_final_lem, data_first_lem,
}

-- A client in this state, between two messages.
pub record Idle (state : UwsState) (c : UwsClient) : Type 0 where
  pub at_state : c.uws_state ≡ state
  pub no_fragments : c.fragments ≡ []
  pub no_type : c.fragmented_frame_type ≡ 0

-- The loop ends, with these events, on a client that is idle with an empty stream buffer.
unfoldable pub Drains : World → UwsState → ℕ → UwsClient → List Event → Type 0
Drains w state k c events =
    (d : UwsClient) × (receive_loop k w c ≡ some (d, events)) × Idle state d × (d.stream ≡ [])

receive_round_lem :
    (w : World) (c : UwsClient) (s : UwsState)
    → decodes_frames s ≡ true
    → receive_round w c s ≡ receive_frame w c c.stream
unfolding receive_round
receive_round_lem w c uws_open on = refl
receive_round_lem w c uws_closing_waiting_for_close on = refl
receive_round_lem w c uws_closed on = absurd (ground arith)
receive_round_lem w c uws_opening_underlying_io on = absurd (ground arith)
receive_round_lem w c uws_waiting_for_upgrade_response on = absurd (ground arith)
receive_round_lem w c uws_closing_sending_close on = absurd (ground arith)
receive_round_lem w c uws_closing_underlying_io on = absurd (ground arith)
receive_round_lem w c uws_error on = absurd (ground arith)

module _ (w : World) (state : UwsState) (decodes : decodes_frames state ≡ true) where
  stream_size :
      (c : UwsClient) (opcode : ℕ) (is_final : Bool) (payload rest : Bytes)
      → c.stream ≡ server_frame opcode is_final payload ++ rest
      → length rest + 2 ≤ length c.stream
  stream_size c opcode is_final payload rest e =
      let total = ap length e ∙ length-append (server_frame opcode is_final payload) rest in
      omega (arith, total)

  -- One frame that lets the loop go on.
  frame-Drains :
      (k : ℕ) (c : UwsClient) (opcode : ℕ) (is_final : Bool) (payload rest : Bytes) (r : Round)
      (events : List Event)
      → c.uws_state ≡ state
      → opcode < 16
      → Short payload
      → c.stream ≡ server_frame opcode is_final payload ++ rest
      → process_frame w c opcode is_final payload ≡ some r
      → r.decode_stream ≡ true
      → Drains w state k (behind_frame rest r).client events
      → Drains w state (suc k) c (r.events ++ events)
  unfolding Drains receive_loop
  frame-Drains k c opcode is_final payload rest r events at known bound e done again
        (d, left, idle, empty) =
      let on : decodes_frames c.uws_state ≡ true = ap decodes_frames at ∙ decodes in
      let step = receive_frame-server_frame w c opcode is_final payload rest known bound e in
      (
        d,
        rw (receive_round_lem w c c.uws_state on, step, done, again, left, receive_loop) refl,
        idle,
        empty,
      )

  -- Nothing is left.
  nil-Drains : (k : ℕ) (c : UwsClient) → Idle state c → c.stream ≡ [] → Drains w state (suc k) c []
  unfolding Drains receive_loop receive_frame
  nil-Drains k c idle empty =
      let on : decodes_frames c.uws_state ≡ true = ap decodes_frames idle.at_state ∙ decodes in
      (c, rw (receive_round_lem w c c.uws_state on, empty, receive_loop) refl, idle, empty)

  last-Drains :
      (k : ℕ) (c : UwsClient) (kind : ℕ) (got : Bytes) (last rest : Bytes) (events : List Event)
      → ((n : ℕ) → w.got n ≡ true)
      → c.uws_state ≡ state
      → c.fragmented_frame_type ≡ kind
      → kind ≢ 0
      → c.fragments ≡ got
      → Short last
      → c.stream ≡ server_frame 0 true last ++ rest
      → ((d : UwsClient) → Idle state d → d.stream ≡ rest → Drains w state k d events)
      → Drains w state (suc k) c (frame_received kind (got ++ last) ∷ events)
  last-Drains k c kind got last rest events memory at typed known held bound e next =
      let typed_so : (c.fragmented_frame_type == 0) ≡ false = ground (arith, typed, known) in
      let r : Round =
        round (record c { fragments = []; fragmented_frame_type = 0 })
          (frame_received kind (got ++ last) ∷ []) true in
      frame-Drains k c 0 true last rest r events at (omega arith) bound e
        (continuation_last_lem w c last (memory c.clock) typed_so ∙ rw (typed, held) refl) refl
        (next (behind_frame rest r).client
          (record { at_state = at; no_fragments = refl; no_type = refl }) refl)

  continuations-Drains :
      (k : ℕ) (c : UwsClient) (kind : ℕ) (got : Bytes) (ps : List Bytes) (last rest : Bytes)
      (events : List Event)
      → ((n : ℕ) → w.got n ≡ true)
      → c.uws_state ≡ state
      → c.fragmented_frame_type ≡ kind
      → kind ≢ 0
      → c.fragments ≡ got
      → All Short ps
      → Short last
      → c.stream ≡ continuations ps last ++ rest
      → length c.stream < k
      → ((j : ℕ) (d : UwsClient)
          → Idle state d
          → d.stream ≡ rest
          → length rest < j
          → Drains w state j d events)
      → Drains w state k c (frame_received kind (got ++ whole ps last) ∷ events)
  continuations-Drains zero c kind got ps last rest events memory at typed known held small bound e
        fuel next =
      absurd (omega arith)
  continuations-Drains (suc k) c kind got [] last rest events memory at typed known held small bound
        e fuel next =
      last-Drains k c kind got last rest events memory at typed known held bound e
        (λ d idle left. next k d idle left (omega (arith, fuel, stream_size c 0 true last rest e)))
  continuations-Drains (suc k) c kind got (p ∷ ps) last rest events memory at typed known held
        (here, small) bound e fuel next =
      let r : Round = round (record c { fragments = c.fragments ++ p }) [] true in
      let split = e ∙ append_assoc (server_frame 0 false p) (continuations ps last) rest in
      let later = continuations ps last ++ rest in
      coe 0 1
        (i.
          Drains w state (suc k) c
            (frame_received kind (append_assoc got p (whole ps last) i) ∷ events))
        (frame-Drains k c 0 false p later r
          (frame_received kind ((got ++ p) ++ whole ps last) ∷ events) at (omega arith) here split
          (continuation_more_lem w c p (memory c.clock)) refl
          (continuations-Drains k (behind_frame later r).client kind (got ++ p) ps last rest events
            memory at typed known (ap (λ t. t ++ p) held) small bound refl
            (omega (arith, fuel, stream_size c 0 false p later split)) next))

  message-Drains :
      (k : ℕ) (c : UwsClient) (kind : ℕ) (ps : List Bytes) (last rest : Bytes) (events : List Event)
      → ((n : ℕ) → w.got n ≡ true)
      → Idle state c
      → (kind ≡ 1) ⊎ (kind ≡ 2)
      → All Short ps
      → Short last
      → c.stream ≡ frames kind ps last ++ rest
      → length c.stream < k
      → ((j : ℕ) (d : UwsClient)
          → Idle state d
          → d.stream ≡ rest
          → length rest < j
          → Drains w state j d events)
      → Drains w state k c (frame_received kind (whole ps last) ∷ events)
  message-Drains zero c kind ps last rest events memory idle known small bound e fuel next =
      absurd (omega arith)
  message-Drains (suc k) c kind [] last rest events memory idle known small bound e fuel next =
      let r : Round = round c (frame_received kind last ∷ []) true in
      frame-Drains k c kind true last rest r events idle.at_state (ground (arith, known)) bound e
        (data_final_lem w c kind last known) refl
        (next k (behind_frame rest r).client
          (record {
            at_state = idle.at_state;
            no_fragments = idle.no_fragments;
            no_type = idle.no_type;
          })
          refl (omega (arith, fuel, stream_size c kind true last rest e)))
  message-Drains (suc k) c kind (p ∷ ps) last rest events memory idle known (here, small) bound e
        fuel next =
      let r : Round =
        round (record c { fragments = c.fragments ++ p; fragmented_frame_type = kind }) [] true in
      let split = e ∙ append_assoc (server_frame kind false p) (continuations ps last) rest in
      let later = continuations ps last ++ rest in
      frame-Drains k c kind false p later r (frame_received kind (p ++ whole ps last) ∷ events)
        idle.at_state (ground (arith, known)) here split
        (data_first_lem w c kind p known (memory c.clock) idle.no_type) refl
        (continuations-Drains k (behind_frame later r).client kind p ps last rest events memory
          idle.at_state refl (ground (arith, known)) (ap (λ t. t ++ p) idle.no_fragments) small
          bound refl (omega (arith, fuel, stream_size c kind false p later split)) next)

  pub wire-Drains :
      (k : ℕ) (c : UwsClient) (ms : List Message)
      → ((n : ℕ) → w.got n ≡ true)
      → Idle state c
      → All IsMessage ms
      → c.stream ≡ wire ms
      → length (wire ms) < k
      → Drains w state k c (received ms)
  wire-Drains zero c ms memory idle known e fuel = absurd (omega arith)
  wire-Drains (suc k) c [] memory idle known e fuel = nil-Drains k c idle e
  wire-Drains (suc k) c (m ∷ ms) memory idle ((kind, small, bound), known) e fuel =
      let size = ap length e in
      message-Drains (suc k) c m.kind m.parts m.final_part (wire ms) (received ms) memory idle kind
        small bound e (omega (arith, fuel, size))
        (λ j d at left enough. wire-Drains j d ms memory at known left enough)
