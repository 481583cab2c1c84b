-- ===== src/UwsClient/Messages.antt =====
-- Whole messages, in one frame or in fragments, as src/uws_client.c receives them.
use azure_c_shared_utility.Base.{
  ap, ℕ, ◌^◌, ◌<◌, ◌≡◌, ◌⊎◌, refl, inl, inr, true, false, some, List, [], ◌∷◌, ◌++◌, ◌==◌, Bytes,
  length, All,
}
use azure_c_shared_utility.UwsClient.{
  UwsClient, World, round, Event, frame_received, continuation_frame, continuation_last, data_frame,
}
use azure_c_shared_utility.UwsClient.Blocks.{process_frame_fragment_lem}
use azure_c_shared_utility.UwsClient.Receive.{process_frame}
use azure_c_shared_utility.UwsClient.Frames.{server_frame}

-- A text (1) or binary (2) message: the fragments in front of the last one, and the last one.
pub record Message : Type 0 where
  pub kind : ℕ
  pub parts : List Bytes
  pub final_part : Bytes

abbrev pub Short : Bytes → Type 0
Short p = length p < 2 ^ 63

abbrev pub IsMessage : Message → Type 0
IsMessage m = ((m.kind ≡ 1) ⊎ (m.kind ≡ 2)) × All Short m.parts × Short m.final_part

abbrev pub continuations : List Bytes → Bytes → Bytes
continuations [] last = server_frame 0 true last
continuations (p ∷ ps) last = server_frame 0 false p ++ continuations ps last

abbrev pub frames : ℕ → List Bytes → Bytes → Bytes
frames kind [] last = server_frame kind true last
frames kind (p ∷ ps) last = server_frame kind false p ++ continuations ps last

-- The bytes of messages on the wire.
abbrev pub wire : List Message → Bytes
wire [] = []
wire (m ∷ ms) = frames m.kind m.parts m.final_part ++ wire ms

abbrev pub whole : List Bytes → Bytes → Bytes
whole [] last = last
whole (p ∷ ps) last = p ++ whole ps last

abbrev pub received : List Message → List Event
received [] = []
received (m ∷ ms) = frame_received m.kind (whole m.parts m.final_part) ∷ received ms

pub continuation_last_lem :
    (w : World) (c : UwsClient) (payload : Bytes)
    → w.got c.clock ≡ true
    → (c.fragmented_frame_type == 0) ≡ false
    → process_frame w c 0 true payload
      ≡ some (
          round
            (record c { fragments = []; fragmented_frame_type = 0 })
            (frame_received c.fragmented_frame_type (c.fragments ++ payload) ∷ [])
            true)
unfolding process_frame continuation_frame continuation_last
continuation_last_lem w c payload memory typed =
    rw (process_frame_fragment_lem w c payload, memory, typed, continuation_last) refl

pub continuation_more_lem :
    (w : World) (c : UwsClient) (payload : Bytes)
    → w.got c.clock ≡ true
    → process_frame w c 0 false payload
      ≡ some (round (record c { fragments = c.fragments ++ payload }) [] true)
unfolding process_frame continuation_frame
continuation_more_lem w c payload memory = rw (process_frame_fragment_lem w c payload, memory) refl

pub data_final_lem :
    (w : World) (c : UwsClient) (kind : ℕ) (payload : Bytes)
    → (kind ≡ 1) ⊎ (kind ≡ 2)
    → process_frame w c kind true payload ≡ some (round c (frame_received kind payload ∷ []) true)
unfolding process_frame data_frame
data_final_lem w c kind payload (inl e) = rw e refl
data_final_lem w c kind payload (inr e) = rw e refl

pub data_first_lem :
    (w : World) (c : UwsClient) (kind : ℕ) (payload : Bytes)
    → (kind ≡ 1) ⊎ (kind ≡ 2)
    → w.got c.clock ≡ true
    → c.fragmented_frame_type ≡ 0
    → process_frame w c kind false payload
      ≡ some (
          round
            (record c { fragments = c.fragments ++ payload; fragmented_frame_type = kind })
            []
            true)
unfolding process_frame data_frame
data_first_lem w c kind payload (inl e) memory none_yet =
    rw (e, ap (λ t. t == 0) none_yet, process_frame_fragment_lem w c payload, memory) refl
data_first_lem w c kind payload (inr e) memory none_yet =
    rw (e, ap (λ t. t == 0) none_yet, process_frame_fragment_lem w c payload, memory) refl
