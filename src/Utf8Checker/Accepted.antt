-- ===== src/Utf8Checker/Accepted.antt =====
-- What a step of src/utf8_checker.c that succeeds says of the bytes.
use azure_c_shared_utility.Base.{
  ℕ, zero, suc, ◌+◌, ◌*◌, ◌/◌, ◌%◌, ◌<◌, ◌≡◌, ◌∙◌, ◌↔◌, sym, ap, refl, true, false, some, List, [],
  ◌∷◌, ◌++◌, ◌==◌, ltb, Bytes, All, IsByte, length, arith, Bool-cases, Option-cases, absurd_none,
  bind-inv, guard-inv, reject-inv, inl, inr,
}
use azure_c_shared_utility.Base.Bits.{bit_and_7, bit_and_15, bit_and_31, bit_and_63}
use azure_c_shared_utility.Utf8Checker.{
  continued, longer_than, four_bytes, three_bytes, two_bytes, sequence, valid_from, is_valid_utf8,
}
use azure_c_shared_utility.Utf8Checker.Laws.{
  valid_from-sequence, valid_from-stopped, valid_from-encoded, encoded, encoded_all, IsCodePoint,
}

continued-inv :
    (c : ℕ) (rest : Bytes) (next : ℕ × Bytes)
    → continued (c, rest) ≡ some next
    → All IsByte rest
    → (q : ℕ) × (q < 64) × (rest ≡ (0x80 + q) ∷ next.1) × (next.0 ≡ c * 64 + q) × All IsByte next.1
unfolding continued
continued-inv c [] next e h = absurd_none e
continued-inv c (b ∷ rest) next e (hb, h) =
    let (top, same) = guard-inv _ _ _ e in
    let low = bit_and_63 b hb in
    let whole : b ≡ 0x80 + b % 64 = ground arith in
    (
      b % 64,
      omega arith,
      (λ i. whole i ∷ (same i).1),
      sym (ap (λ t. t.0) same) ∙ ap (λ t. c * 64 + t) low,
      coe 0 1 (i. All IsByte (same i).1) h,
    )

-- The sequence that was read is the shortest one of its code point.
abbrev Shortest : ℕ → Bytes → Bytes → Type 0
Shortest a rest left = (c : ℕ) × IsCodePoint c × (a ∷ rest ≡ encoded c ++ left) × All IsByte left

two_bytes-inv :
    (a : ℕ) (rest left : Bytes)
    → IsByte a
    → All IsByte rest
    → a / 32 ≡ 6
    → two_bytes a rest ≡ some left
    → Shortest a rest left
unfolding two_bytes longer_than encoded
two_bytes-inv a rest left ha h top e =
    let (next, e1, e2) = bind-inv _ _ _ e in
    let (q, hq, shape, value, h') = continued-inv _ _ next e1 h in
    let (long, same) = reject-inv _ _ _ e2 in
    let low = bit_and_31 a ha in
    let not_one : ltb next.0 0x80 ≡ false = ground arith in
    let two : ltb next.0 0x800 ≡ true = ground arith in
    let head : a ≡ 0xC0 + next.0 / 64 = omega arith in
    let last : 0x80 + q ≡ 0x80 + next.0 % 64 = omega arith in
    (
      next.0,
      omega arith,
      rw (not_one, two, shape, same) (λ i. head i ∷ last i ∷ left),
      coe 0 1 (i. All IsByte (same i)) h',
    )

three_bytes-inv :
    (a : ℕ) (rest left : Bytes)
    → IsByte a
    → All IsByte rest
    → a / 16 ≡ 14
    → three_bytes a rest ≡ some left
    → Shortest a rest left
unfolding three_bytes longer_than encoded
three_bytes-inv a rest left ha h top e =
    let (next1, e1, e') = bind-inv _ _ _ e in
    let (q1, h1, shape1, value1, left1) = continued-inv _ _ next1 e1 h in
    let (next, e2, e3) = bind-inv _ _ _ e' in
    let (q2, h2, shape2, value2, left2) = continued-inv _ _ next e2 left1 in
    let (long, same) = reject-inv _ _ _ e3 in
    let low = bit_and_15 a ha in
    let not_one : ltb next.0 0x80 ≡ false = ground arith in
    let not_two : ltb next.0 0x800 ≡ false = ground arith in
    let three : ltb next.0 0x10000 ≡ true = ground arith in
    let head : a ≡ 0xE0 + next.0 / 4096 = omega arith in
    let middle : 0x80 + q1 ≡ 0x80 + next.0 / 64 % 64 = omega arith in
    let last : 0x80 + q2 ≡ 0x80 + next.0 % 64 = omega arith in
    (
      next.0,
      omega arith,
      rw (not_one, not_two, three, shape1, shape2, same) (λ i. head i ∷ middle i ∷ last i ∷ left),
      coe 0 1 (i. All IsByte (same i)) left2,
    )

four_shape :
    (a q1 q2 q3 c : ℕ) (left : Bytes)
    → a ≡ 0xF0 + c / 262144
    → q1 ≡ c / 4096 % 64
    → q2 ≡ c / 64 % 64
    → q3 ≡ c % 64
    → 0xFFFF < c
    → Path Bytes (a ∷ (0x80 + q1) ∷ (0x80 + q2) ∷ (0x80 + q3) ∷ left) (encoded c ++ left)
unfolding encoded
four_shape a q1 q2 q3 c left e e1 e2 e3 long =
    let not_one : ltb c 0x80 ≡ false = ground arith in
    let not_two : ltb c 0x800 ≡ false = ground arith in
    let not_three : ltb c 0x10000 ≡ false = ground arith in
    rw (not_one, not_two, not_three, e, e1, e2, e3)

four_bytes-inv :
    (a : ℕ) (rest left : Bytes)
    → IsByte a
    → All IsByte rest
    → a / 8 ≡ 30
    → four_bytes a rest ≡ some left
    → Shortest a rest left
unfolding four_bytes longer_than
four_bytes-inv a rest left ha h top e =
    let (next1, e1, e') = bind-inv _ _ _ e in
    let (q1, h1, shape1, value1, left1) = continued-inv _ _ next1 e1 h in
    let (next2, e2, e'') = bind-inv _ _ _ e' in
    let (q2, h2, shape2, value2, left2) = continued-inv _ _ next2 e2 left1 in
    let (next, e3, e4) = bind-inv _ _ _ e'' in
    let (q3, h3, shape3, value3, left3) = continued-inv _ _ next e3 left2 in
    let (long, same) = reject-inv _ _ _ e4 in
    let low = bit_and_7 a ha in
    let bytes : rest ≡ (0x80 + q1) ∷ (0x80 + q2) ∷ (0x80 + q3) ∷ left =
      shape1
      ∙ ap (λ t. (0x80 + q1) ∷ t)
          (shape2 ∙ ap (λ t. (0x80 + q2) ∷ t) (shape3 ∙ ap (λ t. (0x80 + q3) ∷ t) same)) in
    (
      next.0,
      omega arith,
      ap (λ t. a ∷ t) bytes
          ∙ four_shape a q1 q2 q3 next.0 left (omega arith) (omega arith) (omega arith)
              (omega arith) (ground arith),
      coe 0 1 (i. All IsByte (same i)) left3,
    )

sequence-inv :
    (a : ℕ) (rest left : Bytes)
    → IsByte a
    → All IsByte rest
    → sequence a rest ≡ some left
    → Shortest a rest left
unfolding sequence encoded
sequence-inv a rest left ha h e = elim (Bool-cases (a / 8 == 0x1E)) [
  | inl four ↦ four_bytes-inv a rest left ha h (ground arith) (rw four at e)
  | inr not_four ↦ elim (Bool-cases (a / 16 == 0x0E)) [
    | inl three ↦ three_bytes-inv a rest left ha h (ground arith) (rw (not_four, three) at e)
    | inr not_three ↦ elim (Bool-cases (a / 32 == 0x06)) [
      | inl two ↦ two_bytes-inv a rest left ha h (ground arith) (rw (not_four, not_three, two) at e)
      | inr not_two ↦
          let (one, same) = guard-inv _ _ _ (rw (not_four, not_three, not_two) at e) in
          let small : ltb a 0x80 ≡ true = ground arith in
          (a, ground arith, rw small (λ i. a ∷ same i), coe 0 1 (i. All IsByte (same i)) h)
    ]
  ]
]

-- The code points of a text that the loop accepts.
pub valid_from-inv :
    (fuel : ℕ) (s : Bytes)
    → All IsByte s
    → valid_from fuel s ≡ true
    → (cs : List ℕ) × All IsCodePoint cs × (s ≡ encoded_all cs)
unfolding valid_from
valid_from-inv fuel [] h e = ([], _, refl)
valid_from-inv zero (a ∷ rest) h e = absurd (ground arith)
valid_from-inv (suc fuel) (a ∷ rest) (ha, h) e = elim (Option-cases (sequence a rest)) [
  | inl none_left ↦ absurd (ground (arith, sym (valid_from-stopped fuel a rest none_left) ∙ e))
  | inr (left, some_left) ↦
      let (c, hc, shape, h') = sequence-inv a rest left ha h some_left in
      let (cs, hcs, rest_shape) =
        valid_from-inv fuel left h' (sym (valid_from-sequence fuel a rest left some_left) ∙ e) in
      (c ∷ cs, (hc, hcs), shape ∙ ap (λ t. encoded c ++ t) rest_shape)
]

-- Bytes that encode code points below 2^21, each in its shortest form.
abbrev pub IsEncodedText : Bytes → Type 0
IsEncodedText s = (cs : List ℕ) × All IsCodePoint cs × (s ≡ encoded_all cs)

-- utf8_checker_is_valid_utf8 accepts a sequence of bytes exactly if it is the concatenation of
-- the shortest encodings of code points below 2^21; the loop ends within one round for each byte.
-- Surrogates and the code points from 0x110000 on, which RFC 3629 forbids, are among those.
pub is_valid_utf8_iff :
    (s : Bytes) → All IsByte s → (is_valid_utf8 (some s) ≡ true) ↔ IsEncodedText s
unfolding is_valid_utf8
is_valid_utf8_iff s h = (
  valid_from-inv (length s) s h,
  λ (cs, hcs, shape).
      ap (λ t. valid_from (length t) t) shape ∙ valid_from-encoded cs _ hcs (omega arith),
)
