-- ===== src/UwsClient/Lengths.antt =====
-- The length of a frame in src/uws_client.c, as a function of the list of the bytes received.
use azure_c_shared_utility.Base.{
  ℕ, ◌+◌, ◌*◌, ◌^◌, ◌≡◌, refl, true, false, some, [], ◌∷◌, ltb, ◌==◌, if◌then◌else◌, bit_and, Bytes,
  length, Bool-cases, inl, inr, arith,
}
use azure_c_shared_utility.UwsClient.{
  UwsClient, World, Length, more_needed, bad_length, payload_length, length_16, length_of_8,
  length_64, frame_length,
}
use azure_c_shared_utility.UwsClient.Receive.{frame_checked, receive_frame}

-- The bytes behind the first two.
abbrev pub parsed_16 : Bytes → Length
parsed_16 (b2 ∷ b3 ∷ rest) =
    let n = b2 * 256 + b3 in if ltb n 126 then bad_length else payload_length 4 n
parsed_16 _ = more_needed

abbrev pub parsed_64 : Bytes → Length
parsed_64 (b2 ∷ b3 ∷ b4 ∷ b5 ∷ b6 ∷ b7 ∷ b8 ∷ b9 ∷ rest) =
    let n =
      b2 * 2 ^ 56
      + b3 * 2 ^ 48
      + b4 * 2 ^ 40
      + b5 * 2 ^ 32
      + b6 * 2 ^ 24
      + b7 * 2 ^ 16
      + b8 * 2 ^ 8
      + b9 in
    if bit_and b2 0x80 == 0
    then (if ltb n 65536 then bad_length else payload_length 10 n)
    else bad_length
parsed_64 _ = more_needed

abbrev pub parsed : Bytes → Length
parsed (b0 ∷ b1 ∷ rest) =
    if b1 == 126 then parsed_16 rest else if b1 == 127 then parsed_64 rest else payload_length 2 b1
parsed _ = more_needed

short_16 : (s : Bytes) → ltb (length s) 4 ≡ true → length_16 s ≡ some more_needed
unfolding length_16
short_16 s short = rw short refl

long_16 :
    (b0 b1 b2 b3 : ℕ) (s : Bytes)
    → length_16 (b0 ∷ b1 ∷ b2 ∷ b3 ∷ s) ≡ some (parsed_16 (b2 ∷ b3 ∷ s))
unfolding length_16
long_16 b0 b1 b2 b3 s =
    let enough : ltb (length (b0 ∷ b1 ∷ b2 ∷ b3 ∷ s)) 4 ≡ false = ground arith in rw enough refl

length_16_lem : (b0 b1 : ℕ) (s : Bytes) → length_16 (b0 ∷ b1 ∷ s) ≡ some (parsed_16 s)
length_16_lem b0 b1 [] = short_16 _ refl
length_16_lem b0 b1 (b2 ∷ []) = short_16 _ refl
length_16_lem b0 b1 (b2 ∷ b3 ∷ s) = long_16 b0 b1 b2 b3 s

short_64 : (s : Bytes) → ltb (length s) 10 ≡ true → length_64 s ≡ some more_needed
unfolding length_64
short_64 s short = rw short refl

long_64 :
    (b0 b1 b2 b3 b4 b5 b6 b7 b8 b9 : ℕ) (s : Bytes)
    → length_64 (b0 ∷ b1 ∷ b2 ∷ b3 ∷ b4 ∷ b5 ∷ b6 ∷ b7 ∷ b8 ∷ b9 ∷ s)
      ≡ some (parsed_64 (b2 ∷ b3 ∷ b4 ∷ b5 ∷ b6 ∷ b7 ∷ b8 ∷ b9 ∷ s))
unfolding length_64 length_of_8
long_64 b0 b1 b2 b3 b4 b5 b6 b7 b8 b9 s =
    let enough : ltb (length (b0 ∷ b1 ∷ b2 ∷ b3 ∷ b4 ∷ b5 ∷ b6 ∷ b7 ∷ b8 ∷ b9 ∷ s)) 10 ≡ false =
      ground arith in
    elim (Bool-cases (bit_and b2 0x80 == 0)) [
      | inl clear ↦ rw (enough, clear) refl
      | inr set ↦ rw (enough, set) refl
    ]

length_64_lem : (b0 b1 : ℕ) (s : Bytes) → length_64 (b0 ∷ b1 ∷ s) ≡ some (parsed_64 s)
length_64_lem b0 b1 [] = short_64 _ refl
length_64_lem b0 b1 (b2 ∷ []) = short_64 _ refl
length_64_lem b0 b1 (b2 ∷ b3 ∷ []) = short_64 _ refl
length_64_lem b0 b1 (b2 ∷ b3 ∷ b4 ∷ []) = short_64 _ refl
length_64_lem b0 b1 (b2 ∷ b3 ∷ b4 ∷ b5 ∷ []) = short_64 _ refl
length_64_lem b0 b1 (b2 ∷ b3 ∷ b4 ∷ b5 ∷ b6 ∷ []) = short_64 _ refl
length_64_lem b0 b1 (b2 ∷ b3 ∷ b4 ∷ b5 ∷ b6 ∷ b7 ∷ []) = short_64 _ refl
length_64_lem b0 b1 (b2 ∷ b3 ∷ b4 ∷ b5 ∷ b6 ∷ b7 ∷ b8 ∷ []) = short_64 _ refl
length_64_lem b0 b1 (b2 ∷ b3 ∷ b4 ∷ b5 ∷ b6 ∷ b7 ∷ b8 ∷ b9 ∷ s) =
    long_64 b0 b1 b2 b3 b4 b5 b6 b7 b8 b9 s

-- No byte is read that was not received.
pub frame_length-parsed :
    (b0 b1 : ℕ) (s : Bytes) → frame_length (b0 ∷ b1 ∷ s) ≡ some (parsed (b0 ∷ b1 ∷ s))
unfolding frame_length
frame_length-parsed b0 b1 s = elim (Bool-cases (b1 == 126)) [
  | inl two ↦ rw two (length_16_lem b0 b1 s)
  | inr not_two ↦ elim (Bool-cases (b1 == 127)) [
    | inl eight ↦ rw (not_two, eight) (length_64_lem b0 b1 s)
    | inr short ↦ rw (not_two, short) refl
  ]
]

pub receive_frame-checked :
    (w : World) (c : UwsClient) (b0 b1 : ℕ) (s : Bytes)
    → receive_frame w c (b0 ∷ b1 ∷ s) ≡ frame_checked w c (b0 ∷ b1 ∷ s) b0 b1
unfolding receive_frame
receive_frame-checked w c b0 b1 s =
    let enough : ltb (length (b0 ∷ b1 ∷ s)) 2 ≡ false = ground arith in rw enough refl
