-- ===== src/Base32/RoundTrip.antt =====
-- The decoder of src/base32.c on the text of the encoder.
use azure_c_shared_utility.Base.{
  ℕ, ◌+◌, ◌-◌, ◌*◌, ◌/◌, ◌<◌, ◌≤◌, ◌≡◌, ◌∙◌, ap, refl, false, some, [], ◌∷◌, ◌++◌, ltb, bit_and,
  Bytes, All, IsByte, length, ◌>>=◌, arith,
}
use azure_c_shared_utility.Base32.{
  pos1, pos2, pos3, pos4, pos5, pos6, pos7, pos8, group, encode_from,
}
use azure_c_shared_utility.Base32.Decode.{
  byte0, byte1, byte2, byte3, byte4, padding, more_bytes, decode_groups,
}
use azure_c_shared_utility.Base32.Groups.{char_back, char-ascii}
use azure_c_shared_utility.Base32.Positions.{
  pos1-bound, pos3-bound, pos6-bound, pos8-bound, pos2-Joins, pos4-Joins, pos5-Joins, pos7-Joins,
  last2-Joins, last4-Joins, last5-Joins, last7-Joins, byte0_back, byte1_back, byte2_back,
  byte3_back, byte4_back, no_padding, padding_one, padding_two, padding_three, padding_four,
}

-- How the decoder reads one group of the alphabet.
read_group :
    (p1 p2 p3 p4 p5 p6 p7 p8 allocation_len dest_size : ℕ) (rest : Bytes)
    → p1 < 33
    → p2 < 33
    → p3 < 33
    → p4 < 33
    → p5 < 33
    → p6 < 33
    → p7 < 33
    → p8 < 33
    → dest_size + 5 ≤ allocation_len
    → decode_groups allocation_len dest_size (group p1 p2 p3 p4 p5 p6 p7 p8 ++ rest) ≡ (
        decode_groups allocation_len (dest_size + 5 - padding p3 p5 p6 p8) rest >>= λ r. some (
          more_bytes
            (byte0 p1 p2 ∷ byte1 p2 p3 p4 ∷ byte2 p4 p5 ∷ byte3 p5 p6 p7 ∷ byte4 p7 p8 ∷ [])
            r))
unfolding decode_groups
read_group p1 p2 p3 p4 p5 p6 p7 p8 allocation_len dest_size rest h1 h2 h3 h4 h5 h6 h7 h8 room =
    let fits : ltb allocation_len (dest_size + 5) ≡ false = ground arith in
    rw
      (
        char-ascii p1 h1,
        char-ascii p2 h2,
        char-ascii p3 h3,
        char-ascii p4 h4,
        char-ascii p5 h5,
        char-ascii p6 h6,
        char-ascii p7 h7,
        char-ascii p8 h8,
        fits,
        char_back p1 h1,
        char_back p2 h2,
        char_back p3 h3,
        char_back p4 h4,
        char_back p5 h5,
        char_back p6 h6,
        char_back p7 h7,
        char_back p8 h8,
      )
      refl

nil_group :
    (allocation_len dest_size : ℕ)
    → decode_groups allocation_len dest_size [] ≡ some (some ([], dest_size))
unfolding decode_groups
nil_group allocation_len dest_size = refl

-- The last group of a text: `kept` is `dest_size` behind it.
read_last :
    (p1 p2 p3 p4 p5 p6 p7 p8 allocation_len dest_size kept : ℕ)
    → p1 < 33
    → p2 < 33
    → p3 < 33
    → p4 < 33
    → p5 < 33
    → p6 < 33
    → p7 < 33
    → p8 < 33
    → dest_size + 5 ≤ allocation_len
    → dest_size + 5 - padding p3 p5 p6 p8 ≡ kept
    → decode_groups allocation_len dest_size (group p1 p2 p3 p4 p5 p6 p7 p8)
      ≡ some (
          some
            (byte0 p1 p2 ∷ byte1 p2 p3 p4 ∷ byte2 p4 p5 ∷ byte3 p5 p6 p7 ∷ byte4 p7 p8 ∷ [], kept))
read_last p1 p2 p3 p4 p5 p6 p7 p8 allocation_len dest_size kept h1 h2 h3 h4 h5 h6 h7 h8 room e =
    read_group p1 p2 p3 p4 p5 p6 p7 p8 allocation_len dest_size [] h1 h2 h3 h4 h5 h6 h7 h8 room
    ∙ ap (λ t. decode_groups allocation_len t [] >>= λ r. some (more_bytes bytes r)) e
    ∙ ap (λ t. t >>= λ r. some (more_bytes bytes r)) (nil_group allocation_len kept)
  where
    bytes : Bytes
    bytes = byte0 p1 p2 ∷ byte1 p2 p3 p4 ∷ byte2 p4 p5 ∷ byte3 p5 p6 p7 ∷ byte4 p7 p8 ∷ []

-- The bytes that the decoder writes for the text of `xs`, and the size that it counts.
unfoldable pub Written : Bytes → (allocation_len dest_size : ℕ) → Type 0
Written xs allocation_len dest_size =
    (slack : Bytes) × (decode_groups allocation_len dest_size (encode_from xs)
      ≡ some (some (xs ++ slack, dest_size + length xs)))
    × (length (xs ++ slack) ≡ length (encode_from xs) / 8 * 5)

module _ (allocation_len dest_size : ℕ) where
  Written-one :
      (b0 : ℕ)
      → b0 < 256
      → dest_size + 5 ≤ allocation_len
      → Written (b0 ∷ []) allocation_len dest_size
  unfolding Written encode_from
  Written-one b0 h0 room =
      let p1 = pos1-bound b0 0 0 0 0 h0 (omega arith) (omega arith) (omega arith) (omega arith) in
      let p2 = last2-Joins b0 h0 in
      let pad = padding_four in
      let e0 = byte0_back b0 _ _ h0 p2 in
      let slack : Bytes =
        byte1 (bit_and b0 0x07 * 4) 32 32 ∷ byte2 32 32 ∷ byte3 32 32 32 ∷ byte4 32 32 ∷ [] in
      (
        slack,
        read_last (pos1 b0) (bit_and b0 0x07 * 4) 32 32 32 32 32 32 allocation_len dest_size
              (dest_size + 1) (omega arith) (omega arith) (omega arith) (omega arith) (omega arith)
              (omega arith) (omega arith) (omega arith) room (omega arith)
            ∙ (λ t. some (some (e0 t ∷ slack, dest_size + 1))),
        refl,
      )

  Written-two :
      (b0 b1 : ℕ)
      → b0 < 256
      → b1 < 256
      → dest_size + 5 ≤ allocation_len
      → Written (b0 ∷ b1 ∷ []) allocation_len dest_size
  unfolding Written encode_from
  Written-two b0 b1 h0 h1 room =
      let p1 = pos1-bound b0 b1 0 0 0 h0 h1 (omega arith) (omega arith) (omega arith) in
      let p2 = pos2-Joins b0 b1 0 0 0 h0 h1 (omega arith) (omega arith) (omega arith) in
      let p3 = pos3-bound b0 b1 0 0 0 h0 h1 (omega arith) (omega arith) (omega arith) in
      let p4 = last4-Joins b1 h1 in
      let pad = padding_three (pos3 b1) p3 in
      let e0 = byte0_back b0 _ _ h0 p2 in
      let e1 = byte1_back b1 _ _ _ _ h1 p2 p4 in
      let slack : Bytes = byte2 (bit_and b1 0x01 * 16) 32 ∷ byte3 32 32 32 ∷ byte4 32 32 ∷ [] in
      (
        slack,
        read_last (pos1 b0) (pos2 b0 b1) (pos3 b1) (bit_and b1 0x01 * 16) 32 32 32 32 allocation_len
              dest_size (dest_size + 2) (omega arith) (omega arith) (omega arith) (omega arith)
              (omega arith) (omega arith) (omega arith) (omega arith) room (omega arith)
            ∙ (λ t. some (some (e0 t ∷ e1 t ∷ slack, dest_size + 2))),
        refl,
      )

  Written-three :
      (b0 b1 b2 : ℕ)
      → b0 < 256
      → b1 < 256
      → b2 < 256
      → dest_size + 5 ≤ allocation_len
      → Written (b0 ∷ b1 ∷ b2 ∷ []) allocation_len dest_size
  unfolding Written encode_from
  Written-three b0 b1 b2 h0 h1 h2 room =
      let p1 = pos1-bound b0 b1 b2 0 0 h0 h1 h2 (omega arith) (omega arith) in
      let p2 = pos2-Joins b0 b1 b2 0 0 h0 h1 h2 (omega arith) (omega arith) in
      let p3 = pos3-bound b0 b1 b2 0 0 h0 h1 h2 (omega arith) (omega arith) in
      let p4 = pos4-Joins b0 b1 b2 0 0 h0 h1 h2 (omega arith) (omega arith) in
      let p5 = last5-Joins b2 h2 in
      let pad = padding_two (pos3 b1) (bit_and b2 0x0F * 2) p5.0 in
      let e0 = byte0_back b0 _ _ h0 p2 in
      let e1 = byte1_back b1 _ _ _ _ h1 p2 p4 in
      let e2 = byte2_back b2 _ _ _ _ h2 p4 p5 in
      let slack : Bytes = byte3 (bit_and b2 0x0F * 2) 32 32 ∷ byte4 32 32 ∷ [] in
      (
        slack,
        read_last (pos1 b0) (pos2 b0 b1) (pos3 b1) (pos4 b1 b2) (bit_and b2 0x0F * 2) 32 32 32
              allocation_len dest_size (dest_size + 3) (omega arith) (omega arith) (omega arith)
              (omega arith) (omega arith) (omega arith) (omega arith) (omega arith) room
              (omega arith)
            ∙ (λ t. some (some (e0 t ∷ e1 t ∷ e2 t ∷ slack, dest_size + 3))),
        refl,
      )

  Written-four :
      (b0 b1 b2 b3 : ℕ)
      → b0 < 256
      → b1 < 256
      → b2 < 256
      → b3 < 256
      → dest_size + 5 ≤ allocation_len
      → Written (b0 ∷ b1 ∷ b2 ∷ b3 ∷ []) allocation_len dest_size
  unfolding Written encode_from
  Written-four b0 b1 b2 b3 h0 h1 h2 h3 room =
      let p1 = pos1-bound b0 b1 b2 b3 0 h0 h1 h2 h3 (omega arith) in
      let p2 = pos2-Joins b0 b1 b2 b3 0 h0 h1 h2 h3 (omega arith) in
      let p3 = pos3-bound b0 b1 b2 b3 0 h0 h1 h2 h3 (omega arith) in
      let p4 = pos4-Joins b0 b1 b2 b3 0 h0 h1 h2 h3 (omega arith) in
      let p5 = pos5-Joins b0 b1 b2 b3 0 h0 h1 h2 h3 (omega arith) in
      let p6 = pos6-bound b0 b1 b2 b3 0 h0 h1 h2 h3 (omega arith) in
      let p7 = last7-Joins b3 h3 in
      let pad = padding_one (pos3 b1) (pos5 b2 b3) (pos6 b3) p6 in
      let e0 = byte0_back b0 _ _ h0 p2 in
      let e1 = byte1_back b1 _ _ _ _ h1 p2 p4 in
      let e2 = byte2_back b2 _ _ _ _ h2 p4 p5 in
      let e3 = byte3_back b3 _ _ _ _ h3 p5 p7 in
      let slack : Bytes = byte4 (bit_and b3 0x03 * 8) 32 ∷ [] in
      (
        slack,
        read_last (pos1 b0) (pos2 b0 b1) (pos3 b1) (pos4 b1 b2) (pos5 b2 b3) (pos6 b3)
              (bit_and b3 0x03 * 8) 32 allocation_len dest_size (dest_size + 4) (omega arith)
              (omega arith) (omega arith) (omega arith) (omega arith) (omega arith) (omega arith)
              (omega arith) room (omega arith)
            ∙ (λ t. some (some (e0 t ∷ e1 t ∷ e2 t ∷ e3 t ∷ slack, dest_size + 4))),
        refl,
      )

Written-five :
    (b0 b1 b2 b3 b4 : ℕ) (xs : Bytes) (allocation_len dest_size : ℕ)
    → b0 < 256
    → b1 < 256
    → b2 < 256
    → b3 < 256
    → b4 < 256
    → dest_size + 5 ≤ allocation_len
    → Written xs allocation_len (dest_size + 5)
    → Written (b0 ∷ b1 ∷ b2 ∷ b3 ∷ b4 ∷ xs) allocation_len dest_size
unfolding Written encode_from
Written-five b0 b1 b2 b3 b4 xs allocation_len dest_size h0 h1 h2 h3 h4 room (slack, rest, size) =
    let p1 = pos1-bound b0 b1 b2 b3 b4 h0 h1 h2 h3 h4 in
    let p2 = pos2-Joins b0 b1 b2 b3 b4 h0 h1 h2 h3 h4 in
    let p3 = pos3-bound b0 b1 b2 b3 b4 h0 h1 h2 h3 h4 in
    let p4 = pos4-Joins b0 b1 b2 b3 b4 h0 h1 h2 h3 h4 in
    let p5 = pos5-Joins b0 b1 b2 b3 b4 h0 h1 h2 h3 h4 in
    let p6 = pos6-bound b0 b1 b2 b3 b4 h0 h1 h2 h3 h4 in
    let p7 = pos7-Joins b0 b1 b2 b3 b4 h0 h1 h2 h3 h4 in
    let p8 = pos8-bound b0 b1 b2 b3 b4 h0 h1 h2 h3 h4 in
    let pad = no_padding (pos3 b1) (pos5 b2 b3) (pos6 b3) (pos8 b4) p8 in
    let e0 = byte0_back b0 _ _ h0 p2 in
    let e1 = byte1_back b1 _ _ _ _ h1 p2 p4 in
    let e2 = byte2_back b2 _ _ _ _ h2 p4 p5 in
    let e3 = byte3_back b3 _ _ _ _ h3 p5 p7 in
    let e4 = byte4_back b4 _ _ h4 p7 in
    let kept : dest_size + 5 - padding (pos3 b1) (pos5 b2 b3) (pos6 b3) (pos8 b4) ≡ dest_size + 5 =
      omega arith in
    let total : dest_size + 5 + length xs ≡ dest_size + length (b0 ∷ b1 ∷ b2 ∷ b3 ∷ b4 ∷ xs) =
      omega arith in
    (
      slack,
      read_group (pos1 b0) (pos2 b0 b1) (pos3 b1) (pos4 b1 b2) (pos5 b2 b3) (pos6 b3) (pos7 b3 b4)
            (pos8 b4) allocation_len dest_size (encode_from xs) (omega arith) (omega arith)
            (omega arith) (omega arith) (omega arith) (omega arith) (omega arith) (omega arith) room
          ∙ rw (kept, rest, total)
              (λ t. some (
                some (
                  e0 t ∷ e1 t ∷ e2 t ∷ e3 t ∷ e4 t ∷ (xs ++ slack),
                  dest_size + length (b0 ∷ b1 ∷ b2 ∷ b3 ∷ b4 ∷ xs),
                ))),
      omega (arith, size),
    )

pub decode_groups-encode_from :
    (xs : Bytes) (allocation_len dest_size : ℕ)
    → All IsByte xs
    → dest_size + length (encode_from xs) / 8 * 5 ≤ allocation_len
    → Written xs allocation_len dest_size
unfolding encode_from
decode_groups-encode_from [] allocation_len dest_size h room =
    let same : dest_size ≡ dest_size + 0 = omega arith in
    unfold Written in
    ([], nil_group allocation_len dest_size ∙ ap (λ t. some (some ([], t))) same, refl)
decode_groups-encode_from (b0 ∷ []) allocation_len dest_size (h0, _) room =
    Written-one allocation_len dest_size b0 h0 room
decode_groups-encode_from (b0 ∷ b1 ∷ []) allocation_len dest_size (h0, (h1, _)) room =
    Written-two allocation_len dest_size b0 b1 h0 h1 room
decode_groups-encode_from (b0 ∷ b1 ∷ b2 ∷ []) allocation_len dest_size (h0, (h1, (h2, _))) room =
    Written-three allocation_len dest_size b0 b1 b2 h0 h1 h2 room
decode_groups-encode_from (b0 ∷ b1 ∷ b2 ∷ b3 ∷ []) allocation_len dest_size
      (h0, (h1, (h2, (h3, _)))) room =
    Written-four allocation_len dest_size b0 b1 b2 b3 h0 h1 h2 h3 room
decode_groups-encode_from (b0 ∷ b1 ∷ b2 ∷ b3 ∷ b4 ∷ xs) allocation_len dest_size
      (h0, (h1, (h2, (h3, (h4, h))))) room =
    Written-five b0 b1 b2 b3 b4 xs allocation_len dest_size h0 h1 h2 h3 h4 (omega arith)
      (decode_groups-encode_from xs allocation_len (dest_size + 5) h (omega arith))
