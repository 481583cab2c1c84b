-- ===== src/UwsFrameEncoder/Reader.antt =====
-- A reader of WebSocket frames, from RFC 6455, and the frames of src/uws_frame_encoder.c.
use azure_c_shared_utility.Base.{
  append_assoc, ℕ, zero, suc, ◌+◌, ◌*◌, ◌/◌, ◌%◌, ◌^◌, ◌<◌, ◌≡◌, ◌∙◌, ap, refl, Bool, true, false,
  Option, none, some, [], ◌∷◌, ◌++◌, Bytes, All, IsByte, length, take, drop, get_or, if◌then◌else◌,
  ltb, ◌==◌, ◌>>=◌, arith, Bool-cases, inl, inr, bit_or, bit_xor, Garbage, Outcomes,
}
use azure_c_shared_utility.Base.Bits.{each_under, eq_below, eq_below_two}
use azure_c_shared_utility.Buffer.{Buffer, old_block}
use azure_c_shared_utility.UwsFrameEncoder.{first_byte, length_code, more_length, mask_key, encode}
use azure_c_shared_utility.UwsFrameEncoder.Spec.{masked, frame}
use azure_c_shared_utility.UwsFrameEncoder.Laws.{encode_lem}

pub record Frame : Type 0 where
  pub final : Bool
  pub reserved : ℕ
  pub opcode : ℕ
  pub payload : Bytes

-- A number in network byte order.
abbrev pub big_endian : ℕ → Bytes → ℕ
big_endian n [] = n
big_endian n (b ∷ bytes) = big_endian (n * 256 + b) bytes

-- The payload length and the bytes behind it.
pub read_length : ℕ → Bytes → Option (ℕ × Bytes)
read_length code bytes =
    if code == 127
    then (if ltb (length bytes) 8 then none else some (big_endian 0 (take 8 bytes), drop 8 bytes))
    else if code == 126
    then (if ltb (length bytes) 2 then none else some (big_endian 0 (take 2 bytes), drop 2 bytes))
    else some (code, bytes)

-- The payload, unmasked if there is a key; the frame ends with it.
pub read_payload : (marked : Bool) → ℕ → Bytes → Option Bytes
read_payload false size bytes = if length bytes == size then some bytes else none
read_payload true size bytes =
    if ltb (length bytes) 4
    then none
    else if length bytes == size + 4
    then some (masked (take 4 bytes) 0 (drop 4 bytes))
    else none

unfoldable pub read_frame : Bytes → Option Frame
read_frame (b0 ∷ b1 ∷ rest) = do
  sized ← read_length (b1 % 128) rest
  payload ← read_payload (b1 / 128 == 1) sized.0 sized.1
  some (record {
    final = b0 / 128 == 1;
    reserved = b0 / 16 % 8;
    opcode = b0 % 16;
    payload = payload;
  })
read_frame _ = none

xor_twice : (p key : ℕ) → p < 256 → key < 256 → bit_xor (bit_xor p key) key ≡ p
unfolding each_under
xor_twice p key hp hk =
    eq_below_two 256 256 (λ k q. bit_xor (bit_xor q k) k) (λ k q. q) refl key p hk hp

masked_twice :
    (key : Bytes) (i : ℕ) (payload : Bytes)
    → ((j : ℕ) → get_or key j 0 < 256)
    → All IsByte payload
    → masked key i (masked key i payload) ≡ payload
unfolding masked
masked_twice key i [] small h = refl
masked_twice key i (p ∷ payload) small (hp, h) = λ t.
    xor_twice p (get_or key (i % 4) 0) hp (small (i % 4)) t
    ∷ masked_twice key (i + 1) payload small h t

pub length-masked :
    (key : Bytes) (i : ℕ) (payload : Bytes) → length (masked key i payload) ≡ length payload
unfolding masked
length-masked key i [] = refl
length-masked key i (p ∷ payload) = ap suc (length-masked key (i + 1) payload)

eight_bytes :
    (size : ℕ)
    → size < 2 ^ 63
    → big_endian 0 (
        size / 2 ^ 56 % 256
        ∷ size / 2 ^ 48 % 256
        ∷ size / 2 ^ 40 % 256
        ∷ size / 2 ^ 32 % 256
        ∷ size / 2 ^ 24 % 256
        ∷ size / 2 ^ 16 % 256
        ∷ size / 2 ^ 8 % 256
        ∷ size % 256
        ∷ [])
      ≡ size
eight_bytes size bound = omega arith

read_long :
    (a b c d e f h i : ℕ) (rest : Bytes)
    → read_length 127 (a ∷ b ∷ c ∷ d ∷ e ∷ f ∷ h ∷ i ∷ rest)
      ≡ some (big_endian 0 (a ∷ b ∷ c ∷ d ∷ e ∷ f ∷ h ∷ i ∷ []), rest)
unfolding read_length
read_long a b c d e f h i rest =
    let enough : ltb (suc (suc (suc (suc (suc (suc (suc (suc (length rest))))))))) 8 ≡ false =
      ground arith in
    rw enough

read_middle :
    (a b : ℕ) (rest : Bytes)
    → read_length 126 (a ∷ b ∷ rest) ≡ some (big_endian 0 (a ∷ b ∷ []), rest)
unfolding read_length
read_middle a b rest =
    let enough : ltb (suc (suc (length rest))) 2 ≡ false = ground arith in rw enough

read_short : (size : ℕ) (rest : Bytes) → size < 126 → read_length size rest ≡ some (size, rest)
unfolding read_length
read_short size rest h =
    let not_long : (size == 127) ≡ false = ground arith in
    let not_middle : (size == 126) ≡ false = ground arith in rw (not_long, not_middle)

read_length_lem :
    (size : ℕ) (rest : Bytes)
    → size < 2 ^ 63
    → read_length (length_code size) (more_length size ++ rest) ≡ some (size, rest)
unfolding length_code more_length
read_length_lem size rest bound = elim (Bool-cases (ltb 65535 size)) [
  | inl long ↦
      rw long (read_long _ _ _ _ _ _ _ _ rest ∙ ap (λ t. some (t, rest)) (eight_bytes size bound))
  | inr not_long ↦ elim (Bool-cases (ltb 125 size)) [
    | inl middle ↦
        rw (not_long, middle) (read_middle _ _ rest ∙ ap (λ t. some (t, rest)) (ground arith))
    | inr short ↦
        let same : size % 256 ≡ size = ground arith in
        rw (not_long, short, same) (read_short size rest (ground arith))
  ]
]

length_code-bound : (size : ℕ) → length_code size < 128
unfolding length_code
length_code-bound size = ground arith

mark_bit : (code : ℕ) → code < 128 → bit_or code 0x80 ≡ code + 128
unfolding each_under
mark_bit = eq_below 128 (λ v. bit_or v 0x80) (λ v. v + 128) refl

-- The first byte of a header, read back.
module _ (opcode reserved : ℕ) (is_final : Bool) (known : opcode < 16) (small : reserved < 8) where
  first_byte_lem :
      first_byte opcode is_final reserved ≡ (if is_final then 128 else 0) + reserved * 16 + opcode
  unfolding first_byte each_under
  first_byte_lem = elim (Bool-cases is_final) [
    | inl last ↦ rw last (
        eq_below_two 8 16 (λ r o. first_byte o true r) (λ r o. 128 + r * 16 + o) refl reserved
          opcode small known)
    | inr not_last ↦ rw not_last (
        eq_below_two 8 16 (λ r o. first_byte o false r) (λ r o. 0 + r * 16 + o) refl reserved opcode
          small known)
  ]

  final_back : (first_byte opcode is_final reserved / 128 == 1) ≡ is_final
  final_back = rw first_byte_lem (ground arith)

  reserved_back : first_byte opcode is_final reserved / 16 % 8 ≡ reserved
  reserved_back = rw first_byte_lem (ground arith)

  opcode_back : first_byte opcode is_final reserved % 16 ≡ opcode
  opcode_back = rw first_byte_lem (ground arith)

read_plain :
    (size : ℕ) (payload : Bytes)
    → length payload ≡ size
    → read_payload false size payload ≡ some payload
unfolding read_payload
read_plain size payload e = let whole : (length payload == size) ≡ true = ground arith in rw whole

get_or-IsByte : (bytes : Bytes) (j : ℕ) → All IsByte bytes → get_or bytes j 0 < 256
get_or-IsByte [] j h = omega arith
get_or-IsByte (b ∷ bytes) zero h = h.0
get_or-IsByte (b ∷ bytes) (suc j) h = get_or-IsByte bytes j h.1

read_masked :
    (rand : ℕ → ℕ) (payload : Bytes)
    → All IsByte payload
    → read_payload true (length payload) (mask_key rand ++ masked (mask_key rand) 0 payload)
      ≡ some payload
unfolding read_payload mask_key
read_masked rand payload h =
    let n = length-masked (mask_key rand) 0 payload in
    let enough : ltb (suc (suc (suc (suc (length (masked (mask_key rand) 0 payload)))))) 4 ≡ false =
      ground arith in
    let whole : (suc (suc (suc (suc (length (masked (mask_key rand) 0 payload)))))
          == length payload + 4)
        ≡ true =
      ground arith in
    rw (enough, whole) (ap some (masked_twice (mask_key rand) 0 payload small h))
  where
    small : (j : ℕ) → get_or (mask_key rand) j 0 < 256
    small j =
        get_or-IsByte (mask_key rand) j
          (omega arith, (omega arith, (omega arith, (omega arith, _))))

module _ (rand : ℕ → ℕ) (opcode : ℕ) (payload : Bytes) (is_final : Bool) (reserved : ℕ)
    (known : opcode < 16) (small : reserved < 8) (bound : length payload < 2 ^ 63)
    (h : All IsByte payload) where
  abbrev sent : Frame
  sent = record { final = is_final; reserved = reserved; opcode = opcode; payload = payload }

  read_frame-frame :
      (is_masked : Bool)
      → read_frame (frame rand opcode payload is_masked is_final reserved) ≡ some sent
  unfolding read_frame
  read_frame-frame false =
      let size = length payload in
      let code = length_code-bound size in
      let plain : (length_code size / 128 == 1) ≡ false = ground arith in
      let low : length_code size % 128 ≡ length_code size = omega arith in
      rw (
        plain,
        low,
        read_length_lem size payload bound,
        read_plain size payload refl,
        final_back opcode reserved is_final known small,
        reserved_back opcode reserved is_final known small,
        opcode_back opcode reserved is_final known small,
      )
  read_frame-frame true =
      let size = length payload in
      let code = length_code-bound size in
      let marked : ((length_code size + 128) / 128 == 1) ≡ true = ground arith in
      let low : (length_code size + 128) % 128 ≡ length_code size = omega arith in
      let order =
        append_assoc (more_length size) (mask_key rand) (masked (mask_key rand) 0 payload) in
      rw (
        mark_bit (length_code size) code,
        order,
        marked,
        low,
        read_length_lem size (mask_key rand ++ masked (mask_key rand) 0 payload) bound,
        read_masked rand payload h,
        final_back opcode reserved is_final known small,
        reserved_back opcode reserved is_final known small,
        opcode_back opcode reserved is_final known small,
      )

-- uws_frame_encoder_encode, for a known frame type, three reserved bits and fewer than 2^63
-- payload bytes and when both requests for memory succeed, returns a buffer in which a reader of
-- RFC 6455 finds one whole frame with that type, these reserved bits, the final flag and the
-- payload, unmasked with the key in the frame if it is masked.
pub read_frame-encode :
    (g : Garbage) (ok : Outcomes) (rand : ℕ → ℕ) (opcode : ℕ) (payload : Bytes)
    (is_masked is_final : Bool) (reserved : ℕ)
    → opcode < 16
    → reserved < 8
    → length payload < 2 ^ 63
    → All IsByte payload
    → ok 0 ≡ true
    → ok 1 ≡ true
    → (b : Buffer) × (encode g ok rand opcode
          (some payload)
          (length payload)
          is_masked
          is_final
          reserved
        ≡ some (some b))
      × (read_frame (old_block b.buffer)
          ≡ some (record {
            final = is_final;
            reserved = reserved;
            opcode = opcode;
            payload = payload;
          }))
read_frame-encode g ok rand opcode payload is_masked is_final reserved known small bound h ok0 ok1 =
    let done = encode_lem g ok rand opcode payload is_masked is_final reserved known small bound in
    (
      _,
      rw (ok0, ok1) at done,
      read_frame-frame rand opcode payload is_final reserved known small bound h is_masked,
    )
