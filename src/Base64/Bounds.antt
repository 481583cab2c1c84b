-- ===== src/Base64/Bounds.antt =====
-- The sizes: what the encoder asks for, what the decoder asks for, and that both suffice.
use azure_c_shared_utility.Base.{
  ℕ, suc, ◌+◌, ◌-◌, ◌*◌, ◌/◌, ◌%◌, ◌≤◌, ◌<◌, ◌≡◌, refl, false, [], ◌∷◌, All, IsByte, bit_and, ◌==◌,
  if◌then◌else◌, arith, Bytes, length,
}
use azure_c_shared_utility.Base.Bits.{bit_and_15}
use azure_c_shared_utility.Base64.{base64char, base64b16, encode_from}
use azure_c_shared_utility.Base64.Decode.{
  number_of_base64_characters, decode_len, decode_from, base64decode, ends_with_equals,
}
use azure_c_shared_utility.Base64.RoundTrip.{not_value, base64b16-char}

-- A text of at least one group, behind another group, ends as it does alone.
module _ (c1 c2 c3 c4 d1 d2 d3 d4 : ℕ) (s : Bytes) where
  ends_with_equals_group :
      (i : ℕ)
      → i ≤ 4
      → ends_with_equals (c1 ∷ c2 ∷ c3 ∷ c4 ∷ d1 ∷ d2 ∷ d3 ∷ d4 ∷ s) i
        ≡ ends_with_equals (d1 ∷ d2 ∷ d3 ∷ d4 ∷ s) i
  unfolding ends_with_equals
  ends_with_equals_group i h =
      let n = length (d1 ∷ d2 ∷ d3 ∷ d4 ∷ s) in
      let e : suc (suc (suc (suc n))) - i ≡ suc (suc (suc (suc (n - i)))) = omega arith in rw e refl

  decode_len_group :
      decode_len (c1 ∷ c2 ∷ c3 ∷ c4 ∷ d1 ∷ d2 ∷ d3 ∷ d4 ∷ s)
      ≡ 3 + decode_len (d1 ∷ d2 ∷ d3 ∷ d4 ∷ s)
  unfolding decode_len
  decode_len_group =
      ground (arith, ends_with_equals_group 1 (omega arith), ends_with_equals_group 2 (omega arith))

decode_len_one :
    (c1 c2 c3 c4 : ℕ)
    → decode_len (c1 ∷ c2 ∷ c3 ∷ c4 ∷ [])
      ≡ (if c4 == b'=' then (if c3 == b'=' then 1 else 2) else 3)
unfolding decode_len ends_with_equals
decode_len_one c1 c2 c3 c4 = refl

-- The decoder never writes more than it asked for, whatever the text is.
pub length-base64decode-le : (s : Bytes) → length s % 4 ≡ 0 → length (base64decode s) ≤ decode_len s
unfolding base64decode number_of_base64_characters decode_from
length-base64decode-le [] h = omega arith
length-base64decode-le (c1 ∷ []) h = absurd (omega arith)
length-base64decode-le (c1 ∷ c2 ∷ []) h = absurd (omega arith)
length-base64decode-le (c1 ∷ c2 ∷ c3 ∷ []) h = absurd (omega arith)
length-base64decode-le (c1 ∷ c2 ∷ c3 ∷ c4 ∷ []) h = rw decode_len_one (ground (arith, not_value))
length-base64decode-le (c1 ∷ c2 ∷ c3 ∷ c4 ∷ d1 ∷ []) h = absurd (omega arith)
length-base64decode-le (c1 ∷ c2 ∷ c3 ∷ c4 ∷ d1 ∷ d2 ∷ []) h = absurd (omega arith)
length-base64decode-le (c1 ∷ c2 ∷ c3 ∷ c4 ∷ d1 ∷ d2 ∷ d3 ∷ []) h = absurd (omega arith)
length-base64decode-le (c1 ∷ c2 ∷ c3 ∷ c4 ∷ d1 ∷ d2 ∷ d3 ∷ d4 ∷ s) h =
    let shorter = length-base64decode-le (d1 ∷ d2 ∷ d3 ∷ d4 ∷ s) (omega arith) in
    rw decode_len_group (ground (arith, shorter))

base64char-ne-equals : (v : ℕ) → (base64char v == b'=') ≡ false
unfolding base64char
base64char-ne-equals v = ground arith

base64b16-ne-equals : (v : ℕ) → v < 16 → (base64b16 v == b'=') ≡ false
base64b16-ne-equals v h = rw (base64b16-char v h) (base64char-ne-equals (v * 4))

-- The decoder asks for the size of what was encoded.
pub decode_len-encode_from : (xs : Bytes) → All IsByte xs → decode_len (encode_from xs) ≡ length xs
unfolding encode_from
decode_len-encode_from [] h = unfold decode_len in refl
decode_len-encode_from (b0 ∷ []) h = rw decode_len_one
decode_len-encode_from (b0 ∷ b1 ∷ []) (h0, (h1, _)) =
    rw (decode_len_one, base64b16-ne-equals (bit_and b1 15) (omega (arith, bit_and_15 b1 h1)))
decode_len-encode_from (b0 ∷ b1 ∷ b2 ∷ []) h = rw (decode_len_one, base64char-ne-equals)
decode_len-encode_from (b0 ∷ b1 ∷ b2 ∷ b3 ∷ []) (h0, (h1, (h2, hs))) =
    rw (decode_len_group, decode_len-encode_from (b3 ∷ []) hs)
decode_len-encode_from (b0 ∷ b1 ∷ b2 ∷ b3 ∷ b4 ∷ []) (h0, (h1, (h2, hs))) =
    rw (decode_len_group, decode_len-encode_from (b3 ∷ b4 ∷ []) hs)
decode_len-encode_from (b0 ∷ b1 ∷ b2 ∷ b3 ∷ b4 ∷ b5 ∷ xs) (h0, (h1, (h2, hs))) =
    rw (decode_len_group, decode_len-encode_from (b3 ∷ b4 ∷ b5 ∷ xs) hs) (omega arith)

-- The encoder writes four characters for each three bytes begun.
pub length-encode_from : (xs : Bytes) → length (encode_from xs) ≡ (length xs + 2) / 3 * 4
unfolding encode_from
length-encode_from [] = refl
length-encode_from (b0 ∷ []) = refl
length-encode_from (b0 ∷ b1 ∷ []) = refl
length-encode_from (b0 ∷ b1 ∷ b2 ∷ xs) = omega (arith, length-encode_from xs)
