-- ===== src/Base64/Laws.antt =====
-- The public functions of src/base64.c: no access out of range, and a round trip through them.
use azure_c_shared_utility.Base.{
  ℕ, ◌+◌, ◌%◌, ◌^◌, ◌≤◌, ◌<◌, ◌≡◌, refl, true, false, not, ◌&&◌, ◌||◌, Option, some, none, [], ◌∷◌,
  ◌++◌, append_assoc, append-nil, drop_all, ltb, ◌==◌, ==_iff, Bool-cases, if◌then◌else◌, is_some,
  inl, inr, arith, Bytes, All, IsByte, IsChar, length, length-append, length-fresh, drop, Outcomes,
  Garbage, fresh, copy_in_front, c_string, c_string-append,
}
use azure_c_shared_utility.Base.Bits.{bit_and_3, bit_and_15}
use azure_c_shared_utility.Strings
use azure_c_shared_utility.Buffer
use azure_c_shared_utility.Buffer.{Buffer, old_block}
use azure_c_shared_utility.Buffer.Access
use azure_c_shared_utility.Base64.{base64char, encode_from, encode_internal, needed_size}
use azure_c_shared_utility.Base64.Bounds.{
  length-base64decode-le, decode_len-encode_from, length-encode_from,
}
use azure_c_shared_utility.Base64.Decode.{decoder, decode_len, base64decode}
use azure_c_shared_utility.Base64.RoundTrip.{base64b16-char, base64b8-char, decode-encode_from}

base64char-IsChar : (v : ℕ) → IsChar (base64char v)
unfolding base64char
base64char-IsChar v = ground arith

encode_from-IsChar : (xs : Bytes) → All IsByte xs → All IsChar (encode_from xs)
unfolding encode_from
encode_from-IsChar [] h = tt
encode_from-IsChar (b0 ∷ []) (h0, _) =
    rw (bit_and_3 b0 h0, base64b8-char (b0 % 4) (omega arith))
      (base64char-IsChar _, (base64char-IsChar _, omega arith))
encode_from-IsChar (b0 ∷ b1 ∷ []) (h0, (h1, _)) =
    rw (bit_and_15 b1 h1, base64b16-char (b1 % 16) (omega arith))
      (base64char-IsChar _, (base64char-IsChar _, (base64char-IsChar _, omega arith)))
encode_from-IsChar (b0 ∷ b1 ∷ b2 ∷ xs) (h0, (h1, (h2, hs))) = (
  base64char-IsChar _,
  (base64char-IsChar _, (base64char-IsChar _, (base64char-IsChar _, encode_from-IsChar xs hs))),
)

-- The block has one byte more than the text and its terminator.
needed_size_lem :
    (xs : Bytes)
    → length xs < 2 ^ 62
    → (needed_size (length xs) + 1) % 2 ^ 64 ≡ length (encode_from xs) + 2
unfolding needed_size
needed_size_lem xs short = ground (arith, length-encode_from xs)

-- Base64_Encode_Internal, on fewer than 2^62 bytes, writes nothing outside of its block and
-- returns the encoded text if both requests for memory succeed, and NULL if not.
pub encode_internal_lem :
    (g : Garbage) (ok : Outcomes) (xs : Bytes)
    → All IsByte xs
    → length xs < 2 ^ 62
    → encode_internal g ok xs ≡ some (if ok 0 && ok 1 then some (encode_from xs) else none)
unfolding encode_internal Strings.new_with_memory
encode_internal_lem g ok xs h short = elim (Bool-cases (ok 0)) [
  | inr lost ↦ rw lost
  | inl got ↦
      rw
        (
          got,
          needed_size_lem xs short,
          copy_in_front text (fresh g (length s + 2)) fits,
          terminated,
        )
        refl
]
  where
    s : Bytes
    s = encode_from xs

    text : Bytes
    text = s ++ (0 ∷ [])

    fits : length text ≤ length (fresh g (length s + 2))
    fits = omega (arith, length-append {0} s (0 ∷ []), length-fresh g (length s + 2))

    terminated : c_string (text ++ drop (length text) (fresh g (length s + 2))) ≡ s
    terminated =
        rw (append_assoc s (0 ∷ []) (drop (length text) (fresh g (length s + 2))))
          (c_string-append s _ (encode_from-IsChar xs h))

-- The steps of the decoder that allocate.
new_got : (ok : Outcomes) → ok 0 ≡ true → Buffer.new ok ≡ some (record { buffer = none; size = 0 })
unfolding Buffer.new
new_got ok ok0 = rw ok0

pre_build_got :
    (g : Garbage) (ok : Outcomes) (n : ℕ)
    → ltb 0 n ≡ true
    → ok 0 ≡ true
    → Buffer.pre_build g ok (some (record { buffer = none; size = 0 })) n
      ≡ some (Buffer.success, some (record { buffer = some (fresh g n); size = n }))
unfolding Buffer.pre_build
pre_build_got g ok n pos ok0 = let nz : (n == 0) ≡ false = ground arith in rw (nz, ok0)

u_char_got :
    (block : Bytes) (n : ℕ)
    → ltb 0 n ≡ true
    → Access.u_char (some (record { buffer = some block; size = n })) ≡ some block
unfolding Access.u_char
u_char_got block n pos = ground arith

module _ (g : Garbage) (ok : Outcomes) (s : Bytes) (whole : (length s % 4 == 0) ≡ true) where
  -- The buffer has the size that was asked for, and starts with the decoded bytes.
  decoder_writes :
      ok 0 ≡ true
      → ok 1 ≡ true
      → ltb 0 (decode_len s) ≡ true
      → decoder g ok (some s)
        ≡ some (
            some (record {
              buffer =
                  some (base64decode s ++ drop (length (base64decode s)) (fresh g (decode_len s)));
              size = decode_len s;
            }))
  unfolding decoder
  decoder_writes ok0 ok1 pos =
      let n = decode_len s in
      let fits = length-base64decode-le s ((==_iff _ _).0 whole) in
      let room : length (base64decode s) ≤ length (fresh g n) =
        omega (arith, fits, length-fresh g n) in
      rw
        (
          whole,
          new_got ok ok0,
          pos,
          pre_build_got g (λ i. ok (1 + i)) n pos ok1,
          u_char_got (fresh g n) n pos,
          copy_in_front _ _ room,
        )
        refl

  decoder_empty :
      ok 0 ≡ true
      → ltb 0 (decode_len s) ≡ false
      → decoder g ok (some s) ≡ some (some (record { buffer = none; size = 0 }))
  unfolding decoder
  decoder_empty ok0 no_bytes = rw (whole, new_got ok ok0, no_bytes)

decode_len_pos :
    (s : Bytes) → (length s % 4 == 0) ≡ true → ltb 0 (decode_len s) ≡ not (length s == 0)
unfolding decode_len
decode_len_pos s whole = ground arith

-- The three ways to NULL.
decoder_odd :
    (g : Garbage) (ok : Outcomes) (s : Bytes)
    → (length s % 4 == 0) ≡ false
    → decoder g ok (some s) ≡ some none
unfolding decoder
decoder_odd g ok s odd = rw odd

decoder_no_handle :
    (g : Garbage) (ok : Outcomes) (s : Bytes) → ok 0 ≡ false → decoder g ok (some s) ≡ some none
unfolding decoder Buffer.new
decoder_no_handle g ok s lost = ground arith

decoder_no_block :
    (g : Garbage) (ok : Outcomes) (s : Bytes)
    → ok 0 ≡ true
    → ok 1 ≡ false
    → ltb 0 (decode_len s) ≡ true
    → decoder g ok (some s) ≡ some none
unfolding decoder Buffer.pre_build
decoder_no_block g ok s got lost pos =
    let nz : (decode_len s == 0) ≡ false = ground arith in
    elim (Bool-cases (length s % 4 == 0)) [
      | inr odd ↦ rw odd
      | inl whole ↦ rw (whole, new_got ok got, pos, nz, lost)
    ]

-- Base64_Decoder never writes outside of the buffer that it allocates, whatever the text; it
-- returns a buffer exactly if the length is a multiple of four, the handle is had and, for a text
-- that is not empty, its block is had.
pub decoder_safe :
    (g : Garbage) (ok : Outcomes) (s : Bytes)
    → (r : Option Buffer) × (decoder g ok (some s) ≡ some r)
      × (is_some r ≡ ((length s % 4 == 0) && (ok 0 && ((length s == 0) || ok 1))))
decoder_safe g ok s = elim (Bool-cases (length s % 4 == 0)) [
  | inr odd ↦ (none, decoder_odd g ok s odd, rw odd)
  | inl whole ↦ elim (Bool-cases (ok 0)) [
    | inr lost ↦ (none, decoder_no_handle g ok s lost, rw (whole, lost))
    | inl got ↦ elim (Bool-cases (length s == 0)) [
      | inl nil ↦ (
        _,
        decoder_empty g ok s whole got (rw (decode_len_pos s whole, nil)),
        rw (whole, got, nil),
      )
      | inr more ↦
          let pos = rw more at (decode_len_pos s whole) in
          elim (Bool-cases (ok 1)) [
            | inl got1 ↦ (_, decoder_writes g ok s whole got got1 pos, rw (whole, got, got1, more))
            | inr lost ↦ (none, decoder_no_block g ok s got lost pos, rw (whole, got, lost, more))
          ]
    ]
  ]
]

decoder-nil :
    (g : Garbage) (ok : Outcomes)
    → ok 0 ≡ true
    → decoder g ok (some []) ≡ some (some (record { buffer = none; size = 0 }))
unfolding decode_len
decoder-nil g ok got = decoder_empty g ok [] refl got refl

-- Base64_Decoder on the encoded text of any bytes, when both requests for memory succeed, returns
-- a buffer whose block is exactly those bytes and whose size is their number.
pub decoder-encode :
    (g : Garbage) (ok : Outcomes) (xs : Bytes)
    → All IsByte xs
    → ok 0 ≡ true
    → ok 1 ≡ true
    → (b : Buffer) × (decoder g ok (some (encode_from xs)) ≡ some (some b))
      × (Access.buffer_length (some b) ≡ length xs)
      × (old_block b.buffer ≡ xs)
unfolding Access.buffer_length encode_from
decoder-encode g ok [] h ok0 ok1 = (_, decoder-nil g ok ok0, refl, refl)
decoder-encode g ok (x ∷ xs) h ok0 ok1 =
    let s = encode_from (x ∷ xs) in
    let size = decode_len-encode_from (x ∷ xs) h in
    let bytes = decode-encode_from (x ∷ xs) h in
    let none_left =
      drop_all (length (x ∷ xs)) (fresh g (length (x ∷ xs)))
        (omega (arith, length-fresh g (length (x ∷ xs)))) in
    let whole : (length s % 4 == 0) ≡ true = ground (arith, length-encode_from (x ∷ xs)) in
    (
      _,
      decoder_writes g ok s whole ok0 ok1 (rw size (ground arith)),
      size,
      rw (bytes, size, none_left) (append-nil (x ∷ xs)),
    )
