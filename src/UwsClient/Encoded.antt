-- ===== src/UwsClient/Encoded.antt =====
-- The frames that src/uws_client.c sends on its own account.
use azure_c_shared_utility.Base.{
  ℕ, ◌+◌, ◌^◌, ◌<◌, ◌≡◌, refl, inl, inr, Bool, true, false, Bool-cases, ◌&&◌, Option, none, some,
  if◌then◌else◌, [], ◌++◌, ltb, ◌==◌, Bytes, length, length-append, copy_out_lem, ◌>>=◌, take_all,
  arith,
}
use azure_c_shared_utility.Buffer.Access
use azure_c_shared_utility.UwsFrameEncoder
use azure_c_shared_utility.UwsFrameEncoder.{
  header_bytes, first_byte, length_code, more_length, mask_key, write_frame, write_payload,
}
use azure_c_shared_utility.UwsFrameEncoder.Spec.{frame, masked}
use azure_c_shared_utility.UwsFrameEncoder.Laws.{holding, encode_lem}
use azure_c_shared_utility.UwsFrameEncoder.Reader.{length-masked}
use azure_c_shared_utility.UwsClient.{World, frame_bytes, encoded}

length-header : (n : ℕ) → length (more_length n) + 6 ≡ header_bytes n true
unfolding header_bytes more_length
length-header n = elim (Bool-cases (ltb 65535 n)) [
  | inl long ↦ rw long refl
  | inr not_long ↦ elim (Bool-cases (ltb 125 n)) [
    | inl middle ↦ rw (not_long, middle) refl
    | inr short ↦ rw (not_long, short) refl
  ]
]

length-frame :
    (rand : ℕ → ℕ) (opcode : ℕ) (payload : Bytes) (is_final : Bool)
    → length (frame rand opcode payload true is_final 0)
      ≡ header_bytes (length payload) true + length payload
unfolding mask_key
length-frame rand opcode payload is_final =
    let tail = length-masked (mask_key rand) 0 payload in
    let long = length-append (more_length (length payload)) (mask_key rand) in
    let all =
      length-append (more_length (length payload) ++ mask_key rand)
        (masked (mask_key rand) 0 payload) in
    omega (arith, tail, long, all, length-header (length payload))

frame_bytes_lem :
    (bytes : Bytes) (n : ℕ)
    → length bytes ≡ n
    → (n == 0) ≡ false
    → frame_bytes (some (holding bytes n)) ≡ some (some bytes)
unfolding frame_bytes Access.u_char Access.buffer_length
frame_bytes_lem bytes n e some_bytes =
    rw (some_bytes, copy_out_lem bytes n (omega (arith, e)), take_all n bytes (omega (arith, e)))
      refl

-- The bytes that are read from the result of uws_frame_encoder_encode: those of the frame.
pub frame_bytes-encode :
    (w : World) (clock opcode : ℕ) (payload : Bytes) (is_final : Bool)
    → opcode < 16
    → length payload < 2 ^ 63
    → (UwsFrameEncoder.encode
          (w.garbage clock)
          (w.requests clock)
          (w.rand clock)
          opcode
          (some payload)
          (length payload)
          true
          is_final
          0
        >>= frame_bytes)
      ≡ some (
          if w.requests clock 0 && w.requests clock 1
          then some (frame (w.rand clock) opcode payload true is_final 0)
          else none)
frame_bytes-encode w clock opcode payload is_final known bound =
    let made =
      encode_lem (w.garbage clock) (w.requests clock) (w.rand clock) opcode payload true is_final 0
        known (omega arith) bound in
    elim (Bool-cases (w.requests clock 0 && w.requests clock 1)) [
      | inr lost ↦ rw (made, lost) (unfold frame_bytes in refl)
      | inl had ↦
          let size = length-frame (w.rand clock) opcode payload is_final in
          let n = header_bytes (length payload) true + length payload in
          let not_empty : (n == 0) ≡ false = ground (arith, length-header (length payload)) in
          rw (made, had)
            (frame_bytes_lem (frame (w.rand clock) opcode payload true is_final 0) n size not_empty)
    ]

pub encoded_total :
    (w : World) (clock opcode : ℕ) (payload : Bytes)
    → opcode < 16
    → length payload < 2 ^ 63
    → (o : Option Bytes) × (encoded w clock opcode (some payload) (length payload) ≡ some o)
unfolding encoded
encoded_total w clock opcode payload known bound =
    (_, frame_bytes-encode w clock opcode payload true known bound)

pub encoded-none :
    (w : World) (clock opcode : ℕ)
    → encoded w clock opcode none 0 ≡ encoded w clock opcode (some []) 0
unfolding encoded UwsFrameEncoder.encode write_frame write_payload
encoded-none w clock opcode = refl
