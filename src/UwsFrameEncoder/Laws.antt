-- ===== src/UwsFrameEncoder/Laws.antt =====
-- What src/uws_frame_encoder.c returns.
use azure_c_shared_utility.Base.{
  ℕ, ◌+◌, ◌%◌, ◌^◌, ◌<◌, ◌≤◌, ◌≡◌, ◌∙◌, ap, refl, Bool, true, false, not, ◌&&◌, Option, none, some,
  [], Bytes, length, if◌then◌else◌, ltb, ◌==◌, is_some, arith, Bool-cases, inl, inr, Garbage,
  Outcomes, Exec, resize, length-resize, size_max, safe_add_size_t, safe_add_size_t_fits,
}
use azure_c_shared_utility.Buffer
use azure_c_shared_utility.Buffer.{Buffer, success, failure}
use azure_c_shared_utility.Buffer.Access
use azure_c_shared_utility.UwsFrameEncoder.{
  header_bytes, write_frame, write_enlarged, write_through, encode_into, encode,
}
use azure_c_shared_utility.UwsFrameEncoder.Spec.{frame}
use azure_c_shared_utility.UwsFrameEncoder.Writes.{write_frame_lem}

header_bytes-bounds :
    (size : ℕ) (is_masked : Bool)
    → (2 ≤ header_bytes size is_masked) × (header_bytes size is_masked ≤ 14)
unfolding header_bytes
header_bytes-bounds size true = (ground arith, ground arith)
header_bytes-bounds size false = (ground arith, ground arith)

-- A buffer of exactly these bytes.
abbrev pub holding : Bytes → ℕ → Buffer
holding bytes n = record { buffer = some bytes; size = n }

u_char-holding :
    (block : Bytes) (n : ℕ) → (n == 0) ≡ false → Access.u_char (some (holding block n)) ≡ some block
unfolding Access.u_char
u_char-holding block n h = rw h

module _ (g : Garbage) (ok : Outcomes) (rand : ℕ → ℕ) (opcode : ℕ) (payload : Bytes)
    (is_masked is_final : Bool) (reserved : ℕ) where
  abbrev pub whole_size : ℕ
  whole_size = header_bytes (length payload) is_masked + length payload

  abbrev write : Bytes → Exec Bytes
  write block =
      write_frame rand block opcode (some payload) (length payload) is_masked is_final reserved

  abbrev pub frame_buffer : Option Buffer
  frame_buffer = some (holding (frame rand opcode payload is_masked is_final reserved) whole_size)

  enlarged :
      (n : ℕ)
      → n ≡ whole_size
      → length payload < 2 ^ 63
      → encode_into g (λ i. ok (1 + i)) write n (some (record { buffer = none; size = 0 }))
        ≡ some (if ok 1 then frame_buffer else none)
  unfolding encode_into Buffer.enlarge write_enlarged write_through
  enlarged n e bound =
      let bounds = header_bytes-bounds (length payload) is_masked in
      let some_bytes : (n == 0) ≡ false = ground (arith, bounds.0) in
      let fits : ltb (0 + n) size_max ≡ true = ground (arith, bounds.1) in
      let total : safe_add_size_t 0 n ≡ n = safe_add_size_t_fits 0 n fits ∙ omega arith in
      let small : (n == size_max) ≡ false = ground (arith, bounds.1) in
      let sum : 0 + n ≡ n = omega arith in
      let frame_written =
        write_frame_lem rand (resize g [] n) opcode payload is_masked is_final reserved
          (length-resize g [] n ∙ e) in
      rw (some_bytes, total, small, sum)
        (elim (Bool-cases (ok 1)) [
          | inl had ↦
              rw (had, u_char-holding (resize g [] n) n some_bytes, frame_written)
                (ap
                  (λ t.
                    some (some (holding (frame rand opcode payload is_masked is_final reserved) t)))
                  e)
          | inr lost ↦ rw lost refl
        ])

  -- uws_frame_encoder_encode, for a known frame type, three reserved bits and fewer than 2^63
  -- payload bytes, writes nothing outside of its block and returns a buffer of exactly the frame if
  -- both requests for memory succeed, and NULL if not, masked or not.
  pub encode_lem :
      opcode < 16
      → reserved < 8
      → length payload < 2 ^ 63
      → encode g ok rand opcode (some payload) (length payload) is_masked is_final reserved
        ≡ some (if ok 0 && ok 1 then frame_buffer else none)
  unfolding encode encode_into Buffer.new
  encode_lem known small bound =
      let good_reserved : ltb 7 reserved ≡ false = ground arith in
      let good_opcode : ltb 0x0F opcode ≡ false = ground arith in
      let given : (ltb 0 (length payload) && not (is_some {A = Bytes} (some payload))) ≡ false =
        ground arith in
      let no_wrap : whole_size % 2 ^ 64 ≡ whole_size =
        omega (arith, (header_bytes-bounds (length payload) is_masked).1) in
      rw (good_reserved, good_opcode, given)
        (elim (Bool-cases (ok 0)) [
          | inl had ↦ rw (had) (enlarged _ no_wrap bound)
          | inr lost ↦ rw lost refl
        ])
