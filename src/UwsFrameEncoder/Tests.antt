-- ===== src/UwsFrameEncoder/Tests.antt =====
-- Runs of src/uws_frame_encoder.c.
use azure_c_shared_utility.Base.{
  ℕ, ◌≡◌, ◌+◌, ◌&&◌, refl, true, false, some, none, [], ◌∷◌, arith, Bytes, always, never, Garbage,
  if◌then◌else◌,
}
use azure_c_shared_utility.Buffer.{Buffer, old_block}
use azure_c_shared_utility.UwsFrameEncoder.{encode}
use azure_c_shared_utility.UwsFrameEncoder.Laws.{encode_lem, holding}
use azure_c_shared_utility.UwsFrameEncoder.Reader.{read_frame, read_frame-encode}
use azure_c_shared_utility.UwsFrameEncoder.Spec.{frame}

abbrev hi : Bytes
hi = 0x48 ∷ 0x69 ∷ []

abbrev zeros : Garbage
zeros i = 0

abbrev counting : ℕ → ℕ
counting i = 300 + i

-- A masked text frame.
read_frame-encode_example :
    (b : Buffer) × (encode zeros always counting 1 (some hi) 2 true true 0 ≡ some (some b))
    × (read_frame (old_block b.buffer)
        ≡ some (record { final = true; reserved = 0; opcode = 1; payload = hi }))
read_frame-encode_example =
    read_frame-encode zeros always counting 1 hi true true 0 (omega arith) (omega arith)
      (omega arith) (omega arith, (omega arith, _)) refl refl

encode_lem_example :
    encode zeros never counting 2 (some hi) 2 false false 4
    ≡ some
        (if never 0 && never 1 then some (holding (frame counting 2 hi false false 4) 4) else none)
encode_lem_example =
    encode_lem zeros never counting 2 hi false false 4 (omega arith) (omega arith) (omega arith)
