-- ===== src/UwsFrameEncoder/Spec.antt =====
-- The frame that src/uws_frame_encoder.c is meant to write, part by part.
use azure_c_shared_utility.Base.{
  ℕ, ◌+◌, ◌%◌, Bool, true, false, [], ◌∷◌, ◌++◌, bit_or, bit_xor, Bytes, length, get_or,
}
use azure_c_shared_utility.UwsFrameEncoder.{first_byte, length_code, more_length, mask_key}

-- The bytes of the payload from index `i` on, masked.
unfoldable pub masked : Bytes → ℕ → Bytes → Bytes
masked key i [] = []
masked key i (p ∷ payload) = bit_xor p (get_or key (i % 4) 0) ∷ masked key (i + 1) payload

abbrev pub plain_header : ℕ → Bool → ℕ → ℕ → Bytes
plain_header opcode is_final reserved size =
    first_byte opcode is_final reserved ∷ length_code size ∷ more_length size

abbrev pub marked_header : ℕ → Bool → ℕ → ℕ → Bytes
marked_header opcode is_final reserved size =
    first_byte opcode is_final reserved ∷ bit_or (length_code size) 0x80 ∷ more_length size

abbrev pub frame : (rand : ℕ → ℕ) → ℕ → Bytes → (is_masked is_final : Bool) → ℕ → Bytes
frame rand opcode payload false is_final reserved =
    plain_header opcode is_final reserved (length payload) ++ payload
frame rand opcode payload true is_final reserved =
    (marked_header opcode is_final reserved (length payload) ++ mask_key rand)
    ++ masked (mask_key rand) 0 payload
