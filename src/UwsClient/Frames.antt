-- ===== src/UwsClient/Frames.antt =====
-- src/uws_client.c on one frame as a server writes it: unmasked, with the length in its shortest form.
use azure_c_shared_utility.Base.{
  append_assoc, ℕ, suc, ◌+◌, ◌*◌, ◌/◌, ◌%◌, ◌^◌, ◌<◌, ◌≤◌, ◌≡◌, ◌∙◌, sym, ap, refl, inl, inr, Bool,
  true, false, not, Bool-cases, some, ◌∷◌, ◌++◌, ltb, ◌==◌, bit_and, Bytes, length, length-append,
  take, drop, copy_out_lem, take_append, drop_append, ◌>>=◌, arith,
}
use azure_c_shared_utility.Base.Bits.{each_under, each_under_lem, eq_below}
use azure_c_shared_utility.UwsFrameEncoder.{first_byte, length_code, more_length}
use azure_c_shared_utility.UwsFrameEncoder.Spec.{plain_header}
use azure_c_shared_utility.UwsClient.{UwsClient, World, Round, payload_length, frame_length}
use azure_c_shared_utility.UwsClient.Receive.{
  process_frame, frame_at, frame_with, frame_from, frame_checked, receive_frame,
}
use azure_c_shared_utility.UwsClient.Lengths.{parsed, frame_length-parsed, receive_frame-checked}

-- The bytes of a frame that is not masked.
abbrev pub server_frame : ℕ → Bool → Bytes → Bytes
server_frame opcode is_final payload = plain_header opcode is_final 0 (length payload) ++ payload

low_bit : (v : ℕ) → v < 128 → (bit_and v 0x80 == 0) ≡ true
unfolding each_under
low_bit = each_under_lem 128 (λ v. bit_and v 0x80 == 0) refl

not_marked : (n : ℕ) → (bit_and (length_code n) 0x80 == 0) ≡ true
unfolding length_code
not_marked n = low_bit (length_code n) (ground arith)

opcode_back :
    (opcode : ℕ) (is_final : Bool)
    → opcode < 16
    → bit_and (first_byte opcode is_final 0) 0x0F ≡ opcode
unfolding each_under first_byte
opcode_back opcode true known =
    eq_below 16 (λ o. bit_and (first_byte o true 0) 0x0F) (λ o. o) refl opcode known
opcode_back opcode false known =
    eq_below 16 (λ o. bit_and (first_byte o false 0) 0x0F) (λ o. o) refl opcode known

final_back :
    (opcode : ℕ) (is_final : Bool)
    → opcode < 16
    → not (bit_and (first_byte opcode is_final 0) 0x80 == 0) ≡ is_final
unfolding each_under first_byte
final_back opcode true known =
    each_under_lem 16 (λ o. not (bit_and (first_byte o true 0) 0x80 == 0)) refl opcode known
final_back opcode false known =
    ap not (each_under_lem 16 (λ o. bit_and (first_byte o false 0) 0x80 == 0) refl opcode known)

parsed_lem :
    (b0 n : ℕ) (rest : Bytes)
    → n < 2 ^ 63
    → parsed (b0 ∷ length_code n ∷ (more_length n ++ rest))
      ≡ payload_length (2 + length (more_length n)) n
unfolding length_code more_length
parsed_lem b0 n rest bound = elim (Bool-cases (ltb 65535 n)) [
  | inl long ↦
      let sum : n / 2 ^ 56 % 256 * 2 ^ 56
            + n / 2 ^ 48 % 256 * 2 ^ 48
            + n / 2 ^ 40 % 256 * 2 ^ 40
            + n / 2 ^ 32 % 256 * 2 ^ 32
            + n / 2 ^ 24 % 256 * 2 ^ 24
            + n / 2 ^ 16 % 256 * 2 ^ 16
            + n / 2 ^ 8 % 256 * 2 ^ 8
            + n % 256
          ≡ n =
        omega arith in
      let top = low_bit (n / 2 ^ 56 % 256) (omega arith) in
      let allowed : ltb n 65536 ≡ false = ground (arith, long) in rw (long, top, sum, allowed) refl
  | inr not_long ↦ elim (Bool-cases (ltb 125 n)) [
    | inl middle ↦
        let sum : n / 2 ^ 8 % 256 * 256 + n % 256 ≡ n = ground (arith, not_long) in
        let allowed : ltb n 126 ≡ false = ground (arith, middle) in
        rw (not_long, middle, sum, allowed) refl
    | inr short ↦
        let low : n % 256 ≡ n = ground (arith, short) in
        let not_126 : (n == 126) ≡ false = ground (arith, short) in
        let not_127 : (n == 127) ≡ false = ground (arith, short) in
        rw (not_long, short, low, not_126, not_127) refl
  ]
]

-- The client after a frame, with what is left in its stream buffer.
abbrev pub behind_frame : Bytes → Round → Round
behind_frame rest r = record r {
  client = record r.client { stream = rest; clock = r.client.clock + 1 };
}

frame_at_lem :
    (w : World) (c : UwsClient) (b0 : ℕ) (header payload rest : Bytes)
    → c.stream ≡ (header ++ payload) ++ rest
    → frame_at w c b0 (length header) (length payload) ≡ (
        process_frame w c (bit_and b0 0x0F) (not (bit_and b0 0x80 == 0)) payload >>= λ r.
        some (behind_frame rest r))
unfolding frame_at
frame_at_lem w c b0 header payload rest e =
    let size : length c.stream ≡ length header + length payload + length rest =
      ap length e
      ∙ length-append (header ++ payload) rest
      ∙ ap (λ t. t + length rest) (length-append header payload) in
    let whole : ltb (length c.stream) (length header + length payload) ≡ false =
      ground (arith, size) in
    let behind : drop (length header) c.stream ≡ payload ++ rest =
      ap (drop (length header)) (e ∙ append_assoc header payload rest)
      ∙ drop_append header (payload ++ rest) in
    let taken : take (length payload) (drop (length header) c.stream) ≡ payload =
      ap (take (length payload)) behind ∙ take_append payload rest in
    let left : drop (length header + length payload) c.stream ≡ rest =
      ap (drop (length header + length payload)) e
      ∙ ap (λ t. drop t ((header ++ payload) ++ rest)) (sym (length-append header payload))
      ∙ drop_append (header ++ payload) rest in
    let room : length payload ≤ length (drop (length header) c.stream) =
      omega (arith, ap length behind, length-append payload rest) in
    rw (whole, copy_out_lem (drop (length header) c.stream) (length payload) room, taken, left) refl

-- A frame of a server in front of the stream is the frame that the switch gets, and is consumed.
pub receive_frame-server_frame :
    (w : World) (c : UwsClient) (opcode : ℕ) (is_final : Bool) (payload rest : Bytes)
    → opcode < 16
    → length payload < 2 ^ 63
    → c.stream ≡ server_frame opcode is_final payload ++ rest
    → receive_frame w c c.stream
      ≡ (process_frame w c opcode is_final payload >>= λ r. some (behind_frame rest r))
unfolding frame_checked frame_from frame_with
receive_frame-server_frame w c opcode is_final payload rest known bound e =
    let n = length payload in
    let two : 2 + length (more_length n) ≡ suc (suc (length (more_length n))) = omega arith in
    let b0 = first_byte opcode is_final 0 in
    let behind = (more_length n ++ payload) ++ rest in
    let sized : frame_length (b0 ∷ length_code n ∷ behind)
        ≡ some (payload_length (length (plain_header opcode is_final 0 n)) n) =
      frame_length-parsed b0 (length_code n) behind
      ∙ ap (λ t. some (parsed (b0 ∷ length_code n ∷ t))) (append_assoc (more_length n) payload rest)
      ∙ ap some (parsed_lem b0 n (payload ++ rest) bound ∙ ap (λ t. payload_length t n) two) in
    let at =
      frame_at_lem w c (first_byte opcode is_final 0) (plain_header opcode is_final 0 n) payload
        rest e in
    ap (receive_frame w c) e
    ∙ receive_frame-checked w c b0 (length_code n) behind
    ∙ rw
        (
          not_marked n,
          sized,
          at,
          opcode_back opcode is_final known,
          final_back opcode is_final known,
          frame_from,
        )
        refl
