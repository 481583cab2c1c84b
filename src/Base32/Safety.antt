-- ===== src/Base32/Safety.antt =====
-- What the decoder of src/base32.c does on any text.
use azure_c_shared_utility.Base.{
  ℕ, ◌+◌, ◌-◌, ◌*◌, ◌/◌, ◌%◌, ◌^◌, ◌<◌, ◌≤◌, ◌≡◌, ◌⊎◌, ◌∙◌, refl, Bool, true, false, ◌&&◌, Option,
  none, some, is_some, [], ◌∷◌, ◌++◌, ltb, ◌==◌, Bytes, length, Outcomes, Exec, Garbage, arith, inl,
  inr, Bool-cases, copy_in-fresh,
}
use azure_c_shared_utility.Buffer.{Buffer}
use azure_c_shared_utility.Buffer.Laws.Create.{Creates, create-Creates}
use azure_c_shared_utility.Base32.Decode.{
  decoding_length, convert_value, byte0, byte1, byte2, byte3, byte4, padding, all_ascii,
  decode_groups, create_decoded, decode_impl, decode_string,
}

-- What the loop does: it fails on a character behind 0x7F, or writes five bytes for each group.
Decodes : Bytes → (allocation_len dest_size : ℕ) → Type 0
Decodes s allocation_len dest_size =
    ((all_ascii s ≡ true)
      × (bytes : Bytes) × (size : ℕ) × (decode_groups allocation_len dest_size s
          ≡ some (some (bytes, size)))
      × (length bytes ≡ length s / 8 * 5)
      × (size ≤ dest_size + length bytes))
    ⊎ ((all_ascii s ≡ false) × (decode_groups allocation_len dest_size s ≡ some none))

all_ascii-append : (s t : Bytes) → all_ascii (s ++ t) ≡ (all_ascii s && all_ascii t)
all_ascii-append [] t = refl
all_ascii-append (c ∷ s) t = elim (Bool-cases (ltb c 0x80)) [
  | inl h ↦ rw (h, all_ascii-append s t) refl
  | inr h ↦ rw h refl
]

group-Decodes :
    (c0 c1 c2 c3 c4 c5 c6 c7 : ℕ) (rest : Bytes) (allocation_len dest_size : ℕ)
    → dest_size + 5 ≤ allocation_len
    → ((kept : ℕ) → kept ≤ dest_size + 5 → Decodes rest allocation_len kept)
    → Decodes (c0 ∷ c1 ∷ c2 ∷ c3 ∷ c4 ∷ c5 ∷ c6 ∷ c7 ∷ rest) allocation_len dest_size
unfolding Decodes decode_groups
group-Decodes c0 c1 c2 c3 c4 c5 c6 c7 rest allocation_len dest_size room step =
    let fits : ltb allocation_len (dest_size + 5) ≡ false = ground arith in
    let i0 = convert_value c0 in
    let i1 = convert_value c1 in
    let i2 = convert_value c2 in
    let i3 = convert_value c3 in
    let i4 = convert_value c4 in
    let i5 = convert_value c5 in
    let i6 = convert_value c6 in
    let i7 = convert_value c7 in
    let split = all_ascii-append (c0 ∷ c1 ∷ c2 ∷ c3 ∷ c4 ∷ c5 ∷ c6 ∷ c7 ∷ []) rest in
    elim (Bool-cases (all_ascii (c0 ∷ c1 ∷ c2 ∷ c3 ∷ c4 ∷ c5 ∷ c6 ∷ c7 ∷ []))) [
      | inr bad ↦ inr (split ∙ rw bad refl, rw bad refl)
      | inl good ↦ elim (step (dest_size + 5 - padding i2 i4 i5 i7) (omega arith)) [
        | inr (bad, stop) ↦ inr (split ∙ rw (good, bad) refl, rw (good, fits, stop) refl)
        | inl (ascii, bytes, size, e, l, b) ↦ inl (
          split ∙ rw (good, ascii) refl,
          byte0 i0 i1 ∷ byte1 i1 i2 i3 ∷ byte2 i3 i4 ∷ byte3 i4 i5 i6 ∷ byte4 i6 i7 ∷ bytes,
          size,
          rw (good, fits, e) refl,
          omega (arith, l),
          omega (arith, b),
        )
      ]
    ]

decode_groups-Decodes :
    (s : Bytes) (allocation_len dest_size : ℕ)
    → length s % 8 ≡ 0
    → dest_size + length s / 8 * 5 ≤ allocation_len
    → Decodes s allocation_len dest_size
decode_groups-Decodes [] allocation_len dest_size h room =
    unfold Decodes decode_groups in inl (refl, [], dest_size, refl, refl, omega arith)
decode_groups-Decodes (c0 ∷ c1 ∷ c2 ∷ c3 ∷ c4 ∷ c5 ∷ c6 ∷ c7 ∷ rest) allocation_len dest_size h
      room =
    group-Decodes c0 c1 c2 c3 c4 c5 c6 c7 rest allocation_len dest_size (omega arith)
      (λ kept b. decode_groups-Decodes rest allocation_len kept (omega arith) (omega arith))
decode_groups-Decodes (c0 ∷ []) allocation_len dest_size h room = absurd (omega arith)
decode_groups-Decodes (c0 ∷ c1 ∷ []) allocation_len dest_size h room = absurd (omega arith)
decode_groups-Decodes (c0 ∷ c1 ∷ c2 ∷ []) allocation_len dest_size h room = absurd (omega arith)
decode_groups-Decodes (c0 ∷ c1 ∷ c2 ∷ c3 ∷ []) allocation_len dest_size h room =
    absurd (omega arith)
decode_groups-Decodes (c0 ∷ c1 ∷ c2 ∷ c3 ∷ c4 ∷ []) allocation_len dest_size h room =
    absurd (omega arith)
decode_groups-Decodes (c0 ∷ c1 ∷ c2 ∷ c3 ∷ c4 ∷ c5 ∷ []) allocation_len dest_size h room =
    absurd (omega arith)
decode_groups-Decodes (c0 ∷ c1 ∷ c2 ∷ c3 ∷ c4 ∷ c5 ∷ c6 ∷ []) allocation_len dest_size h room =
    absurd (omega arith)

-- A reply that is no access outside of a block, and a buffer exactly if the test holds.
pub Answers : Exec (Option Buffer) → Bool → Type 0
Answers reply t = (r : Option Buffer) × (reply ≡ some r) × (is_some r ≡ t)

Creates-Answers :
    (reply : Exec (Option Buffer)) (t : Bool) (xs : Bytes) → Creates reply t xs → Answers reply t
unfolding Answers
Creates-Answers reply true xs (b, e, h) = (some b, e, refl)
Creates-Answers reply false xs e = (none, e, refl)

-- Base32_Decode_String (and Base32_Decode), on any text of fewer than 2^60 characters, neither reads
-- behind the terminator nor writes outside of its blocks; it returns a buffer exactly if the length
-- is a multiple of eight, every character is below 0x80 and its three requests for memory succeed.
pub decode_string-Answers :
    (g : Garbage) (ok : Outcomes) (s : Bytes)
    → length s < 2 ^ 60
    → Answers
        (decode_string g ok (some s))
        (length s % 8 == 0 && (all_ascii s && (ok 0 && (ok 1 && ok 2))))
unfolding decode_string decode_impl decoding_length Decodes
decode_string-Answers g ok s bound = elim (Bool-cases (length s % 8 == 0)) [
  | inr odd ↦ rw odd (unfold Answers in (none, refl, refl))
  | inl whole ↦
      elim (decode_groups-Decodes s (length s / 8 * 5) 0 (ground (arith, whole)) (omega arith)) [
        | inr (bad, stop) ↦ elim (Bool-cases (ok 0)) [
          | inr lost ↦ rw (whole, bad, lost) (unfold Answers in (none, refl, refl))
          | inl had ↦
              rw (whole, bad, had, room whole, stop)
                (unfold Answers create_decoded in (none, refl, refl))
        ]
        | inl (ascii, bytes, size, e, l, b) ↦ elim (Bool-cases (ok 0)) [
          | inr lost ↦ rw (whole, ascii, lost) (unfold Answers in (none, refl, refl))
          | inl had ↦
              let temp = copy_in-fresh g bytes (length s / 8 * 5) l in
              let made =
                Creates-Answers _ _ _
                  (create-Creates g (λ i. ok (1 + i)) bytes size (omega arith)) in
              rw (whole, ascii, had, room whole, e) (unfold create_decoded in rw temp made)
        ]
      ]
]
  where
    room : (length s % 8 == 0) ≡ true → length s * 5 % 2 ^ 64 / 8 ≡ length s / 8 * 5
    room whole = let e : length s % 8 ≡ 0 = ground (arith, whole) in omega arith
