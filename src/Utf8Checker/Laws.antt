-- ===== src/Utf8Checker/Laws.antt =====
-- The bytes that src/utf8_checker.c accepts.
use azure_c_shared_utility.Base.{
  ℕ, zero, suc, ◌+◌, ◌*◌, ◌/◌, ◌%◌, ◌<◌, ◌≤◌, ◌≡◌, ◌∙◌, ap, refl, true, false, none, some, List, [],
  ◌∷◌, ◌++◌, ◌==◌, leb, ltb, if◌then◌else◌, bit_and, Bytes, All, length, length-append, arith,
  Bool-cases, inl, inr,
}
use azure_c_shared_utility.Base.Bits.{bit_and_7, bit_and_15, bit_and_31, bit_and_63}
use azure_c_shared_utility.Utf8Checker.{
  continued, longer_than, four_bytes, three_bytes, two_bytes, sequence, valid_from,
}

-- The shortest sequence for a code point below 2^21, from its definition in RFC 3629.
unfoldable pub encoded : ℕ → Bytes
encoded c =
    if ltb c 0x80
    then c ∷ []
    else if ltb c 0x800
    then (0xC0 + c / 64) ∷ (0x80 + c % 64) ∷ []
    else if ltb c 0x10000
    then (0xE0 + c / 4096) ∷ (0x80 + c / 64 % 64) ∷ (0x80 + c % 64) ∷ []
    else (0xF0 + c / 262144) ∷ (0x80 + c / 4096 % 64) ∷ (0x80 + c / 64 % 64) ∷ (0x80 + c % 64) ∷ []

abbrev pub encoded_all : List ℕ → Bytes
encoded_all [] = []
encoded_all (c ∷ cs) = encoded c ++ encoded_all cs

abbrev pub IsCodePoint : ℕ → Type 0
IsCodePoint c = c < 0x200000

continued_lem :
    (c q : ℕ) (rest : Bytes) → q < 64 → continued (c, (0x80 + q) ∷ rest) ≡ some (c * 64 + q, rest)
unfolding continued
continued_lem c q rest h =
    let top : ((0x80 + q) / 64 == 2) ≡ true = ground arith in
    let low : bit_and (0x80 + q) 63 ≡ q = omega (arith, bit_and_63 (0x80 + q) (omega arith)) in
    rw (top, low)

sequence_two :
    (a q1 : ℕ) (rest : Bytes)
    → a < 32
    → q1 < 64
    → 0x7F < a * 64 + q1
    → sequence (0xC0 + a) ((0x80 + q1) ∷ rest) ≡ some rest
unfolding sequence two_bytes longer_than
sequence_two a q1 rest h h1 long =
    let not_four : ((0xC0 + a) / 8 == 0x1E) ≡ false = ground arith in
    let not_three : ((0xC0 + a) / 16 == 0x0E) ≡ false = ground arith in
    let is_two : ((0xC0 + a) / 32 == 0x06) ≡ true = ground arith in
    let low : bit_and (0xC0 + a) 31 ≡ a = omega (arith, bit_and_31 (0xC0 + a) (omega arith)) in
    let enough : leb (a * 64 + q1) 0x7F ≡ false = ground arith in
    rw (not_four, not_three, is_two, low, continued_lem a q1 rest h1, enough)

sequence_three :
    (a q1 q2 : ℕ) (rest : Bytes)
    → a < 16
    → q1 < 64
    → q2 < 64
    → 0x7FF < (a * 64 + q1) * 64 + q2
    → sequence (0xE0 + a) ((0x80 + q1) ∷ (0x80 + q2) ∷ rest) ≡ some rest
unfolding sequence three_bytes longer_than
sequence_three a q1 q2 rest h h1 h2 long =
    let not_four : ((0xE0 + a) / 8 == 0x1E) ≡ false = ground arith in
    let is_three : ((0xE0 + a) / 16 == 0x0E) ≡ true = ground arith in
    let low : bit_and (0xE0 + a) 15 ≡ a = omega (arith, bit_and_15 (0xE0 + a) (omega arith)) in
    let enough : leb ((a * 64 + q1) * 64 + q2) 0x7FF ≡ false = ground arith in
    rw (
      not_four,
      is_three,
      low,
      continued_lem a q1 _ h1,
      continued_lem (a * 64 + q1) q2 rest h2,
      enough,
    )

sequence_four :
    (a q1 q2 q3 : ℕ) (rest : Bytes)
    → a < 8
    → q1 < 64
    → q2 < 64
    → q3 < 64
    → 0xFFFF < ((a * 64 + q1) * 64 + q2) * 64 + q3
    → sequence (0xF0 + a) ((0x80 + q1) ∷ (0x80 + q2) ∷ (0x80 + q3) ∷ rest) ≡ some rest
unfolding sequence four_bytes longer_than
sequence_four a q1 q2 q3 rest h h1 h2 h3 long =
    let is_four : ((0xF0 + a) / 8 == 0x1E) ≡ true = ground arith in
    let low : bit_and (0xF0 + a) 7 ≡ a = omega (arith, bit_and_7 (0xF0 + a) (omega arith)) in
    let enough : leb (((a * 64 + q1) * 64 + q2) * 64 + q3) 0xFFFF ≡ false = ground arith in
    rw (
      is_four,
      low,
      continued_lem a q1 _ h1,
      continued_lem (a * 64 + q1) q2 _ h2,
      continued_lem ((a * 64 + q1) * 64 + q2) q3 rest h3,
      enough,
    )

sequence_one : (a : ℕ) (rest : Bytes) → a < 0x80 → sequence a rest ≡ some rest
unfolding sequence
sequence_one a rest lt =
    let not_four : (a / 8 == 0x1E) ≡ false = ground arith in
    let not_three : (a / 16 == 0x0E) ≡ false = ground arith in
    let not_two : (a / 32 == 0x06) ≡ false = ground arith in
    let is_one : (a / 128 == 0x00) ≡ true = ground arith in
    rw (not_four, not_three, not_two, is_one)

-- The bytes of a shortest sequence, read back.
record Read (c : ℕ) (rest : Bytes) : Type 0 where
  head : ℕ
  tail : Bytes
  shape : encoded c ≡ head ∷ tail
  next : sequence head (tail ++ rest) ≡ some rest

Read-encoded : (c : ℕ) (rest : Bytes) → IsCodePoint c → Read c rest
unfolding encoded
Read-encoded c rest h = elim (Bool-cases (ltb c 0x80)) [
  | inl one ↦ record {
    head = c;
    tail = [];
    shape = rw one refl;
    next = sequence_one c rest (ground arith);
  }
  | inr not_one ↦ elim (Bool-cases (ltb c 0x800)) [
    | inl two ↦ record {
      head = 0xC0 + c / 64;
      tail = (0x80 + c % 64) ∷ [];
      shape = rw (not_one, two) refl;
      next = sequence_two (c / 64) (c % 64) rest (ground arith) (omega arith) (ground arith);
    }
    | inr not_two ↦ elim (Bool-cases (ltb c 0x10000)) [
      | inl three ↦ record {
        head = 0xE0 + c / 4096;
        tail = (0x80 + c / 64 % 64) ∷ (0x80 + c % 64) ∷ [];
        shape = rw (not_one, not_two, three) refl;
        next =
            sequence_three (c / 4096) (c / 64 % 64) (c % 64) rest (ground arith) (omega arith)
              (omega arith) (ground arith);
      }
      | inr four ↦ record {
        head = 0xF0 + c / 262144;
        tail = (0x80 + c / 4096 % 64) ∷ (0x80 + c / 64 % 64) ∷ (0x80 + c % 64) ∷ [];
        shape = rw (not_one, not_two, four) refl;
        next =
            sequence_four (c / 262144) (c / 4096 % 64) (c / 64 % 64) (c % 64) rest (omega arith)
              (omega arith) (omega arith) (omega arith) (ground arith);
      }
    ]
  ]
]

pub valid_from-sequence :
    (fuel a : ℕ) (rest left : Bytes)
    → sequence a rest ≡ some left
    → valid_from (suc fuel) (a ∷ rest) ≡ valid_from fuel left
unfolding valid_from
valid_from-sequence fuel a rest left e = rw (e, valid_from)

pub valid_from-stopped :
    (fuel a : ℕ) (rest : Bytes) → sequence a rest ≡ none → valid_from (suc fuel) (a ∷ rest) ≡ false
unfolding valid_from
valid_from-stopped fuel a rest e = rw (e, valid_from)

-- The loop accepts encoded text, on any fuel that covers its bytes.
pub valid_from-encoded :
    (cs : List ℕ) (fuel : ℕ)
    → All IsCodePoint cs
    → length (encoded_all cs) ≤ fuel
    → valid_from fuel (encoded_all cs) ≡ true
unfolding valid_from
valid_from-encoded [] fuel h enough = refl
valid_from-encoded (c ∷ cs) zero (hc, h) enough =
    let r = Read-encoded c (encoded_all cs) hc in
    absurd (omega (arith, length-append (encoded c) (encoded_all cs), ap length r.shape))
valid_from-encoded (c ∷ cs) (suc fuel) (hc, h) enough =
    let r = Read-encoded c (encoded_all cs) hc in
    let left : length (encoded_all cs) ≤ fuel =
      omega (arith, length-append (encoded c) (encoded_all cs), ap length r.shape) in
    ap (λ t. valid_from (suc fuel) (t ++ encoded_all cs)) r.shape
    ∙ valid_from-sequence fuel r.head (r.tail ++ encoded_all cs) (encoded_all cs) r.next
    ∙ valid_from-encoded cs fuel h left
