-- ===== src/Base64/RoundTrip.antt =====
-- Decoding what was encoded gives the bytes back.
use azure_c_shared_utility.Base.{
  ℕ, ◌+◌, ◌*◌, ◌/◌, ◌%◌, ◌<◌, ◌≡◌, ap, refl, none, some, [], ◌∷◌, arith, bit_and, bit_or, Bytes,
  All, IsByte,
}
use azure_c_shared_utility.Base.Bits.{
  each_under, eq_below, bit_and_3, bit_and_15, bit_and_63, bit_or_4, bit_or_16, bit_or_64,
}
use azure_c_shared_utility.Base64.{base64char, base64b16, base64b8, encode_from}
use azure_c_shared_utility.Base64.Decode.{
  base64_to_value, value, number_of_base64_characters, decode_from, base64decode,
}

-- The decoder's table inverts the encoder's.
base64char-value : (v : ℕ) → v < 64 → base64_to_value (base64char v) ≡ some v
unfolding base64char base64_to_value
base64char-value v h = ground arith

pub base64b16-char : (v : ℕ) → v < 16 → base64b16 v ≡ base64char (v * 4)
unfolding base64b16 base64char each_under
base64b16-char = eq_below 16 base64b16 (λ v. base64char (v * 4)) refl

pub base64b8-char : (v : ℕ) → v < 4 → base64b8 v ≡ base64char (v * 16)
unfolding base64b8 base64char each_under
base64b8-char = eq_below 4 base64b8 (λ v. base64char (v * 16)) refl

-- The characters of a group, by the six bits that each stands for.
second_char :
    (b0 b1 : ℕ) → b0 < 256 → b1 < 256 → bit_or (bit_and b0 3 * 16) (b1 / 16) ≡ b0 % 4 * 16 + b1 / 16
second_char b0 b1 h0 h1 = ground (arith, bit_and_3 b0 h0, bit_or_16 (b0 % 4) (b1 / 16))

third_char :
    (b1 b2 : ℕ)
    → b1 < 256
    → b2 < 256
    → bit_or (bit_and b1 15 * 4) (bit_and (b2 / 64) 3) ≡ b1 % 16 * 4 + b2 / 64
third_char b1 b2 h1 h2 =
    ground (arith, bit_and_15 b1 h1, bit_and_3 (b2 / 64), bit_or_4 (b1 % 16) (b2 / 64))

-- The bytes of a group, from the six bits of its characters.
module _ (v1 v2 : ℕ) (h1 : v1 < 64) (h2 : v2 < 64) where
  first_byte : bit_or (v1 * 4) (v2 / 16) % 256 ≡ v1 * 4 + v2 / 16
  first_byte = ground (arith, bit_or_4 v1 (v2 / 16))

  second_byte : bit_or (bit_and v1 15 * 16) (v2 / 4) % 256 ≡ v1 % 16 * 16 + v2 / 4
  second_byte = ground (arith, bit_and_15 v1, bit_or_16 (v1 % 16) (v2 / 4))

  third_byte : bit_or (bit_and v1 3 * 64) v2 % 256 ≡ v1 % 4 * 64 + v2
  third_byte = ground (arith, bit_and_3 v1, bit_or_64 (v1 % 4) v2)

value_lem : (c v : ℕ) → base64_to_value c ≡ some v → value c ≡ v
unfolding value
value_lem c v e = rw (e, value)

pub not_value : base64_to_value b'=' ≡ none
unfolding base64_to_value
not_value = refl

-- How the decoder reads a group of four, three or two characters.
module _ (c1 c2 v1 v2 : ℕ) (e1 : base64_to_value c1 ≡ some v1) (e2 : base64_to_value c2 ≡ some v2)
    (h1 : v1 < 64) (h2 : v2 < 64) where
  decode_two : (rest : Bytes) → base64decode (c1 ∷ c2 ∷ b'=' ∷ rest) ≡ (v1 * 4 + v2 / 16) ∷ []
  unfolding base64decode number_of_base64_characters decode_from
  decode_two rest =
      rw (e1, e2, not_value, value_lem c1 v1 e1, value_lem c2 v2 e2, first_byte v1 v2 h1 h2)

  decode_three :
      (c3 v3 : ℕ) (rest : Bytes)
      → base64_to_value c3 ≡ some v3
      → v3 < 64
      → base64decode (c1 ∷ c2 ∷ c3 ∷ b'=' ∷ rest)
        ≡ (v1 * 4 + v2 / 16) ∷ (v2 % 16 * 16 + v3 / 4) ∷ []
  unfolding base64decode number_of_base64_characters decode_from
  decode_three c3 v3 rest e3 h3 = rw (
    e1,
    e2,
    e3,
    not_value,
    value_lem c1 v1 e1,
    value_lem c2 v2 e2,
    value_lem c3 v3 e3,
    first_byte v1 v2 h1 h2,
    second_byte v2 v3 h2 h3,
  )

  decode_four :
      (c3 c4 v3 v4 : ℕ) (rest : Bytes)
      → base64_to_value c3 ≡ some v3
      → base64_to_value c4 ≡ some v4
      → v3 < 64
      → v4 < 64
      → base64decode (c1 ∷ c2 ∷ c3 ∷ c4 ∷ rest)
        ≡ (v1 * 4 + v2 / 16) ∷ (v2 % 16 * 16 + v3 / 4) ∷ (v3 % 4 * 64 + v4) ∷ base64decode rest
  unfolding base64decode number_of_base64_characters decode_from
  decode_four c3 c4 v3 v4 rest e3 e4 h3 h4 = rw (
    e1,
    e2,
    e3,
    e4,
    value_lem c1 v1 e1,
    value_lem c2 v2 e2,
    value_lem c3 v3 e3,
    value_lem c4 v4 e4,
    first_byte v1 v2 h1 h2,
    second_byte v2 v3 h2 h3,
    third_byte v3 v4 h3 h4,
  )

-- The characters that the encoder writes, by what they stand for.
abbrev char_of : (v : ℕ) → v < 64 → base64_to_value (base64char v) ≡ some v
char_of = base64char-value

pub decode-encode_from : (xs : Bytes) → All IsByte xs → base64decode (encode_from xs) ≡ xs
unfolding encode_from
decode-encode_from [] h = unfold base64decode number_of_base64_characters decode_from in refl
decode-encode_from (b0 ∷ []) (h0, _) =
    rw
      (
        bit_and_3 b0 h0,
        base64b8-char (b0 % 4) (omega arith),
        decode_two _ _ (b0 / 4) (b0 % 4 * 16) (char_of _ (omega arith)) (char_of _ (omega arith))
            (omega arith) (omega arith),
      )
      (ap (λ t. t ∷ []) (omega arith))
decode-encode_from (b0 ∷ b1 ∷ []) (h0, (h1, _)) =
    rw
      (
        second_char b0 b1 h0 h1,
        bit_and_15 b1 h1,
        base64b16-char (b1 % 16) (omega arith),
        decode_three _ _ (b0 / 4) (b0 % 4 * 16 + b1 / 16) (char_of _ (omega arith))
            (char_of _ (omega arith)) (omega arith) (omega arith) _ (b1 % 16 * 4) []
            (char_of _ (omega arith)) (omega arith),
      )
      (ground arith)
decode-encode_from (b0 ∷ b1 ∷ b2 ∷ xs) (h0, (h1, (h2, hs))) =
    rw
      (
        second_char b0 b1 h0 h1,
        third_char b1 b2 h1 h2,
        bit_and_63 b2 h2,
        decode_four _ _ (b0 / 4) (b0 % 4 * 16 + b1 / 16) (char_of _ (omega arith))
            (char_of _ (omega arith)) (omega arith) (omega arith) _ _ (b1 % 16 * 4 + b2 / 64)
            (b2 % 64) (encode_from xs) (char_of _ (omega arith)) (char_of _ (omega arith))
            (omega arith) (omega arith),
        decode-encode_from xs hs,
      )
      (ground arith)
