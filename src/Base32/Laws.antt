-- ===== src/Base32/Laws.antt =====
-- What src/base32.c returns.
use azure_c_shared_utility.Base.{
  ℕ, zero, suc, ◌+◌, ◌-◌, ◌*◌, ◌/◌, ◌%◌, ◌^◌, ◌<◌, ◌≤◌, ◌≡◌, ap, refl, Bool, true, false, ◌&&◌,
  none, some, [], ◌∷◌, ◌++◌, ◌==◌, if◌then◌else◌, Bytes, All, All-append, IsByte, IsChar, length,
  length-append, take_append, replicate, length-replicate, Outcomes, Garbage, arith, inl, inr,
  Bool-cases, copy_in_lem, copy_in-fresh, c_string?-append,
}
use azure_c_shared_utility.Buffer
use azure_c_shared_utility.Buffer.{Buffer}
use azure_c_shared_utility.Buffer.Laws.Create.{Creates, create-Creates}
use azure_c_shared_utility.Base32.{
  base32_char, pos1, pos2, pos3, pos4, pos5, pos6, pos7, pos8, group, encoding_length, encode_from,
  encode_impl,
}
use azure_c_shared_utility.Base32.Decode.{
  decoding_length, decode_groups, create_decoded, decode_impl, decode_string,
}
use azure_c_shared_utility.Base32.Groups.{char-ascii, char-IsChar}
use azure_c_shared_utility.Base32.Positions.{
  pos1-bound, pos3-bound, pos6-bound, pos8-bound, pos2-Joins, pos4-Joins, pos5-Joins, pos7-Joins,
  last2-Joins, last4-Joins, last5-Joins, last7-Joins,
}
use azure_c_shared_utility.Base32.RoundTrip.{Written, decode_groups-encode_from}

length-encode_from : (xs : Bytes) → length (encode_from xs) ≡ (length xs + 4) / 5 * 8
unfolding encode_from
length-encode_from [] = refl
length-encode_from (b0 ∷ []) = refl
length-encode_from (b0 ∷ b1 ∷ []) = refl
length-encode_from (b0 ∷ b1 ∷ b2 ∷ []) = refl
length-encode_from (b0 ∷ b1 ∷ b2 ∷ b3 ∷ []) = refl
length-encode_from (b0 ∷ b1 ∷ b2 ∷ b3 ∷ b4 ∷ xs) = omega (arith, length-encode_from xs)

base32_char-IsChar : (p : ℕ) → p < 33 → IsChar (base32_char p)
base32_char-IsChar p h = (ground (arith, char-IsChar p h), ground (arith, char-ascii p h))

group-IsChar :
    (p1 p2 p3 p4 p5 p6 p7 p8 : ℕ)
    → p1 < 33
    → p2 < 33
    → p3 < 33
    → p4 < 33
    → p5 < 33
    → p6 < 33
    → p7 < 33
    → p8 < 33
    → All IsChar (group p1 p2 p3 p4 p5 p6 p7 p8)
group-IsChar p1 p2 p3 p4 p5 p6 p7 p8 h1 h2 h3 h4 h5 h6 h7 h8 = (
  base32_char-IsChar p1 h1,
  (
    base32_char-IsChar p2 h2,
    (
      base32_char-IsChar p3 h3,
      (
        base32_char-IsChar p4 h4,
        (
          base32_char-IsChar p5 h5,
          (base32_char-IsChar p6 h6, (base32_char-IsChar p7 h7, (base32_char-IsChar p8 h8, _))),
        ),
      ),
    ),
  ),
)

encode_from-IsChar : (xs : Bytes) → All IsByte xs → All IsChar (encode_from xs)
unfolding encode_from
encode_from-IsChar [] h = _
encode_from-IsChar (b0 ∷ []) (h0, _) =
    let p1 = pos1-bound b0 0 0 0 0 h0 (omega arith) (omega arith) (omega arith) (omega arith) in
    let p2 = last2-Joins b0 h0 in
    group-IsChar _ _ _ _ _ _ _ _ (omega arith) (omega arith) (omega arith) (omega arith)
      (omega arith) (omega arith) (omega arith) (omega arith)
encode_from-IsChar (b0 ∷ b1 ∷ []) (h0, (h1, _)) =
    let p1 = pos1-bound b0 b1 0 0 0 h0 h1 (omega arith) (omega arith) (omega arith) in
    let p2 = pos2-Joins b0 b1 0 0 0 h0 h1 (omega arith) (omega arith) (omega arith) in
    let p3 = pos3-bound b0 b1 0 0 0 h0 h1 (omega arith) (omega arith) (omega arith) in
    let p4 = last4-Joins b1 h1 in
    group-IsChar _ _ _ _ _ _ _ _ (omega arith) (omega arith) (omega arith) (omega arith)
      (omega arith) (omega arith) (omega arith) (omega arith)
encode_from-IsChar (b0 ∷ b1 ∷ b2 ∷ []) (h0, (h1, (h2, _))) =
    let p1 = pos1-bound b0 b1 b2 0 0 h0 h1 h2 (omega arith) (omega arith) in
    let p2 = pos2-Joins b0 b1 b2 0 0 h0 h1 h2 (omega arith) (omega arith) in
    let p3 = pos3-bound b0 b1 b2 0 0 h0 h1 h2 (omega arith) (omega arith) in
    let p4 = pos4-Joins b0 b1 b2 0 0 h0 h1 h2 (omega arith) (omega arith) in
    let p5 = last5-Joins b2 h2 in
    group-IsChar _ _ _ _ _ _ _ _ (omega arith) (omega arith) (omega arith) (omega arith)
      (omega arith) (omega arith) (omega arith) (omega arith)
encode_from-IsChar (b0 ∷ b1 ∷ b2 ∷ b3 ∷ []) (h0, (h1, (h2, (h3, _)))) =
    let p1 = pos1-bound b0 b1 b2 b3 0 h0 h1 h2 h3 (omega arith) in
    let p2 = pos2-Joins b0 b1 b2 b3 0 h0 h1 h2 h3 (omega arith) in
    let p3 = pos3-bound b0 b1 b2 b3 0 h0 h1 h2 h3 (omega arith) in
    let p4 = pos4-Joins b0 b1 b2 b3 0 h0 h1 h2 h3 (omega arith) in
    let p5 = pos5-Joins b0 b1 b2 b3 0 h0 h1 h2 h3 (omega arith) in
    let p6 = pos6-bound b0 b1 b2 b3 0 h0 h1 h2 h3 (omega arith) in
    let p7 = last7-Joins b3 h3 in
    group-IsChar _ _ _ _ _ _ _ _ (omega arith) (omega arith) (omega arith) (omega arith)
      (omega arith) (omega arith) (omega arith) (omega arith)
encode_from-IsChar (b0 ∷ b1 ∷ b2 ∷ b3 ∷ b4 ∷ xs) (h0, (h1, (h2, (h3, (h4, h))))) =
    let p1 = pos1-bound b0 b1 b2 b3 b4 h0 h1 h2 h3 h4 in
    let p2 = pos2-Joins b0 b1 b2 b3 b4 h0 h1 h2 h3 h4 in
    let p3 = pos3-bound b0 b1 b2 b3 b4 h0 h1 h2 h3 h4 in
    let p4 = pos4-Joins b0 b1 b2 b3 b4 h0 h1 h2 h3 h4 in
    let p5 = pos5-Joins b0 b1 b2 b3 b4 h0 h1 h2 h3 h4 in
    let p6 = pos6-bound b0 b1 b2 b3 b4 h0 h1 h2 h3 h4 in
    let p7 = pos7-Joins b0 b1 b2 b3 b4 h0 h1 h2 h3 h4 in
    let p8 = pos8-bound b0 b1 b2 b3 b4 h0 h1 h2 h3 h4 in
    All-append IsChar
      (group (pos1 b0) (pos2 b0 b1) (pos3 b1) (pos4 b1 b2) (pos5 b2 b3) (pos6 b3) (pos7 b3 b4)
        (pos8 b4))
      (encode_from xs)
      (group-IsChar (pos1 b0) (pos2 b0 b1) (pos3 b1) (pos4 b1 b2) (pos5 b2 b3) (pos6 b3)
        (pos7 b3 b4) (pos8 b4) (omega arith) (omega arith) (omega arith) (omega arith) (omega arith)
        (omega arith) (omega arith) (omega arith))
      (encode_from-IsChar xs h)

replicate_snoc : (n : ℕ) → replicate {A = ℕ} (n + 1) 0 ≡ replicate n 0 ++ (0 ∷ [])
replicate_snoc zero = refl
replicate_snoc (suc n) =
    let e : suc n + 1 ≡ suc (n + 1) = omega arith in rw e (ap (λ t. 0 ∷ t) (replicate_snoc n))

-- base32_encode_impl, on fewer than 2^60 bytes, writes nothing outside of its block and returns the
-- encoded text if memory is had, and NULL if not.
pub encode_impl_lem :
    (got : Bool) (xs : Bytes)
    → All IsByte xs
    → length xs < 2 ^ 60
    → encode_impl got xs ≡ some (if got then some (encode_from xs) else none)
unfolding encode_impl encoding_length
encode_impl_lem false xs h bound = refl
encode_impl_lem true xs h bound =
    let n : (length xs + 5 - 1) / 5 * 8 % 2 ^ 64 ≡ length (encode_from xs) =
      omega (arith, length-encode_from xs) in
    let block = replicate_snoc (length (encode_from xs)) in
    let stored =
      copy_in_lem [] (replicate (length (encode_from xs)) 0) (encode_from xs) (0 ∷ [])
        (length-replicate {0} (length (encode_from xs)) 0) in
    rw (n, block, stored, c_string?-append (encode_from xs) [] (encode_from-IsChar xs h)) refl

-- Base32_Decode_String (and Base32_Decode) on the encoded text of fewer than 2^60 bytes returns a
-- buffer with exactly those bytes if its three requests for memory succeed, and NULL if not; it
-- keeps to its blocks.
pub decode_string-encode_from :
    (g : Garbage) (ok : Outcomes) (xs : Bytes)
    → All IsByte xs
    → length xs < 2 ^ 60
    → Creates (decode_string g ok (some (encode_from xs))) (ok 0 && (ok 1 && ok 2)) xs
unfolding decode_string decode_impl decoding_length create_decoded
decode_string-encode_from g ok xs h bound = elim (Bool-cases (ok 0)) [
  | inr lost ↦ rw (whole, lost) refl
  | inl had ↦
      let (slack, decoded, size) = written in
      let sum : 0 + length xs ≡ length xs = omega arith in
      let temp = copy_in-fresh g (xs ++ slack) (length (encode_from xs) / 8 * 5) size in
      let fits : length xs ≤ length (xs ++ slack) = omega (arith, length-append {0} xs slack) in
      let made = create-Creates g (λ i. ok (1 + i)) (xs ++ slack) (length xs) fits in
      rw (whole, had, room, decoded, temp, sum)
        (coe 0 1
          (i.
            Creates (Buffer.create g (λ i. ok (1 + i)) (some (xs ++ slack)) (length xs))
              (ok 1 && ok 2) (take_append xs slack i))
          made)
]
  where
    groups : length (encode_from xs) ≡ (length xs + 4) / 5 * 8
    groups = length-encode_from xs

    whole : (length (encode_from xs) % 8 == 0) ≡ true
    whole = ground (arith, groups)

    room : length (encode_from xs) * 5 % 2 ^ 64 / 8 ≡ length (encode_from xs) / 8 * 5
    room = omega (arith, groups)

    written :
        (slack : Bytes) × (decode_groups (length (encode_from xs) / 8 * 5) 0 (encode_from xs)
          ≡ some (some (xs ++ slack, 0 + length xs)))
        × (length (xs ++ slack) ≡ length (encode_from xs) / 8 * 5)
    written =
        unfold Written in
        decode_groups-encode_from xs (length (encode_from xs) / 8 * 5) 0 h (omega arith)
