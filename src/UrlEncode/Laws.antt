-- ===== src/UrlEncode/Laws.antt =====
-- URL_Encode and URL_Decode of src/urlencode.c.
use azure_c_shared_utility.Base.{
  append_assoc, append-nil, ℕ, zero, suc, ◌+◌, ◌<◌, ◌≤◌, ◌≡◌, ◌∙◌, refl, sym, ap, Bool, true, false,
  ◌&&◌, Option, none, some, is_some, [], ◌∷◌, ◌++◌, ◌==◌, if◌then◌else◌, Bytes, All, All-append,
  length, length-append, drop, drop_all, length-drop, arith, Bool-cases, Option-cases, inl, inr,
  IsChar, Outcomes, Garbage, Exec, ◌>>=◌, copy_in-extend, copy_in-fresh, fresh, length-fresh,
  c_string, c_string-append, bind-inv, absurd_none, some-injective,
}
use azure_c_shared_utility.Strings
use azure_c_shared_utility.UrlEncode.{
  is_printable, printable_char, printable_char_size, result_length, encode_loop, url_encode,
  valid_percent, size_loop, decoded_size, calculate_decoded_string_size, char_from_nibbles,
  decode_loop, create_decoded_string, url_decode,
}
use azure_c_shared_utility.UrlEncode.Chars.{
  length-printable_char, printable_char-IsChar, printable_char-Escaped, printable_plain,
}

-- The encoded text.
unfoldable pub encoded : Bytes → Bytes
encoded [] = []
encoded (c ∷ s) = printable_char c ++ encoded s

result_length_lem : (s : Bytes) → result_length s ≡ length (encoded s) + 1
unfolding result_length encoded printable_char_size is_printable
result_length_lem [] = refl
result_length_lem (c ∷ s) = omega (
  arith,
  result_length_lem s,
  length-printable_char c,
  length-append (printable_char c) (encoded s),
)

encoded-IsChar : (s : Bytes) → All IsChar s → All IsChar (encoded s)
unfolding encoded
encoded-IsChar [] h = tt
encoded-IsChar (c ∷ s) (hc, h) =
    All-append IsChar (printable_char c) (encoded s) (printable_char-IsChar c hc)
      (encoded-IsChar s h)

-- The loop fills the rest of the block exactly.
encode_loop_lem :
    (done rest : Bytes) (position : ℕ) (s : Bytes)
    → position ≡ length done
    → length rest ≡ result_length s
    → encode_loop (done ++ rest) position s ≡ some (done ++ (encoded s ++ (0 ∷ [])))
unfolding encode_loop encoded result_length printable_char is_printable printable_char_size
encode_loop_lem done rest position [] e size =
    let left = drop_all 1 rest (omega (arith, size)) in
    copy_in-extend done rest (0 ∷ []) position e (omega (arith, size))
    ∙ ap some (ap (λ t. (done ++ (0 ∷ [])) ++ t) left ∙ append-nil (done ++ (0 ∷ [])))
encode_loop_lem done rest position (c ∷ s) e size =
    let written = length-printable_char c in
    let room : length (printable_char c) ≤ length rest = omega (arith, size, written) in
    let front = copy_in-extend done rest (printable_char c) position e room in
    let next =
      encode_loop_lem (done ++ printable_char c) (drop (length (printable_char c)) rest)
        (position + length (printable_char c)) s
        (omega (arith, e, length-append done (printable_char c)))
        (omega (arith, size, written, length-drop (length (printable_char c)) rest)) in
    rw front next
    ∙ ap some (
        append_assoc done (printable_char c) (encoded s ++ (0 ∷ []))
        ∙ ap (λ t. done ++ t) (sym (append_assoc (printable_char c) (encoded s) (0 ∷ []))))

-- URL_Encode of any text returns the encoded text if its two requests for memory succeed, and NULL if
-- not; the block that it computes the size of holds the encoded text and its terminator exactly.
pub url_encode_lem :
    (g : Garbage) (ok : Outcomes) (s : Bytes)
    → All IsChar s
    → url_encode g ok (some s) ≡ some (if ok 0 && ok 1 then some (encoded s) else none)
unfolding url_encode Strings.new_with_memory
url_encode_lem g ok s h = elim (Bool-cases (ok 0)) [
  | inr lost ↦ rw lost refl
  | inl had ↦
      let block =
        encode_loop_lem [] (fresh g (result_length s)) 0 s refl
          (length-fresh g (result_length s)) in
      let text = c_string-append (encoded s) [] (encoded-IsChar s h) in rw (had, block, text) refl
]

-- The cases of the two loops of URL_Decode.
size_percent :
    (c : ℕ) (s : Bytes)
    → (c == 37) ≡ true
    → size_loop 0 (c ∷ s) ≡ elim (valid_percent s) as (λ x. Option ℕ) [
      | true ↦ size_loop 2 s >>= λ n. some (suc n)
      | false ↦ none
    ]
unfolding size_loop
size_percent c s h = rw (h, size_loop) refl

size_plain :
    (c : ℕ) (s : Bytes)
    → (c == 37) ≡ false
    → size_loop 0 (c ∷ s) ≡ elim (is_printable c) as (λ x. Option ℕ) [
      | true ↦ size_loop 0 s >>= λ n. some (suc n)
      | false ↦ none
    ]
unfolding size_loop
size_plain c s h = rw (h, size_loop) refl

decode_percent :
    (c big little : ℕ) (s : Bytes)
    → (c == 37) ≡ true
    → decode_loop 0 (c ∷ big ∷ little ∷ s)
      ≡ (decode_loop 0 s >>= λ rest. some (char_from_nibbles big little ∷ rest))
unfolding decode_loop
decode_percent c big little s h = rw (h, decode_loop) refl

decode_plain :
    (c : ℕ) (s : Bytes)
    → (c == 37) ≡ false
    → decode_loop 0 (c ∷ s) ≡ (decode_loop 0 s >>= λ rest. some (c ∷ rest))
unfolding decode_loop
decode_plain c s h = rw (h, decode_loop) refl

two_more :
    (s : Bytes)
    → valid_percent s ≡ true
    → (big : ℕ) × (little : ℕ) × (rest : Bytes) × (s ≡ big ∷ little ∷ rest)
unfolding valid_percent
two_more [] h = absurd (ground (arith, h))
two_more (b ∷ []) h = absurd (ground (arith, h))
two_more (b ∷ l ∷ rest) h = (b, l, rest, refl)

-- What the first loop of URL_Decode accepts the second writes, and not more.
abbrev Decoded : ℕ → Bytes → ℕ → Type 0
Decoded skip s n =
    (bytes : Bytes) × (decode_loop skip (s ++ (0 ∷ [])) ≡ some bytes) × (length bytes ≡ n + 1)

Decoded-more :
    (x : ℕ) (skip skip' : ℕ) (s s' : Bytes) (m n : ℕ)
    → decode_loop skip' (s' ++ (0 ∷ []))
      ≡ (decode_loop skip (s ++ (0 ∷ [])) >>= λ rest. some (x ∷ rest))
    → some (suc m) ≡ some n
    → Decoded skip s m
    → Decoded skip' s' n
Decoded-more x skip skip' s s' m n step size (bytes, e, l) =
    let z = some-injective size in (x ∷ bytes, step ∙ rw e refl, omega (arith, l, z))

decode_loop-Decoded :
    (skip : ℕ) (s : Bytes) (n : ℕ) → skip ≤ length s → size_loop skip s ≡ some n → Decoded skip s n
unfolding size_loop decode_loop
decode_loop-Decoded zero [] n fits e = let z = some-injective e in (0 ∷ [], refl, omega (arith, z))
decode_loop-Decoded (suc skip) [] n fits e = absurd (omega arith)
decode_loop-Decoded (suc skip) (c ∷ s) n fits e = decode_loop-Decoded skip s n (omega arith) e
decode_loop-Decoded zero (c ∷ s) n fits e = elim (Bool-cases (c == 37)) [
  | inl percent ↦
      let cases = sym (size_percent c s percent) ∙ e in
      elim (Bool-cases (valid_percent s)) [
        | inr bad ↦ absurd_none (rw bad at cases)
        | inl valid ↦
            let (m, found, size) =
              bind-inv (λ (k : ℕ). some (suc k)) (size_loop 2 s) n (rw valid at cases) in
            let (big, little, rest, shape) = two_more s valid in
            let fits' : 2 ≤ length s = omega (arith, ap length shape) in
            Decoded-more (char_from_nibbles big little) 2 0 s (c ∷ s) m n
              (rw shape (decode_percent c big little (rest ++ (0 ∷ [])) percent)) size
              (decode_loop-Decoded 2 s m fits' found)
      ]
  | inr plain ↦
      let cases = sym (size_plain c s plain) ∙ e in
      elim (Bool-cases (is_printable c)) [
        | inr bad ↦ absurd_none (rw bad at cases)
        | inl valid ↦
            let (m, found, size) =
              bind-inv (λ (k : ℕ). some (suc k)) (size_loop 0 s) n (rw valid at cases) in
            Decoded-more c 0 0 s (c ∷ s) m n (decode_plain c (s ++ (0 ∷ [])) plain) size
              (decode_loop-Decoded 0 s m (omega arith) found)
      ]
]

calculate_lem : (s : Bytes) → calculate_decoded_string_size s ≡ decoded_size (size_loop 0 s)
unfolding calculate_decoded_string_size decoded_size size_loop
calculate_lem [] = refl
calculate_lem (c ∷ s) = let more : (length (c ∷ s) == 0) ≡ false = ground arith in rw more refl

-- URL_Decode when the encoding is accepted: `bytes` is what the second loop writes.
url_decode_good :
    (g : Garbage) (ok : Outcomes) (s : Bytes) (n : ℕ) (bytes : Bytes)
    → size_loop 0 s ≡ some n
    → decode_loop 0 (s ++ (0 ∷ [])) ≡ some bytes
    → length bytes ≡ n + 1
    → url_decode g ok (some s) ≡ some (if ok 0 && ok 1 then some (c_string bytes) else none)
unfolding url_decode create_decoded_string Strings.new_with_memory
url_decode_good g ok s n bytes good read size =
    let total : calculate_decoded_string_size s ≡ n + 1 =
      calculate_lem s ∙ rw good (unfold decoded_size in refl) in
    let not_zero : (n + 1 == 0) ≡ false = ground arith in
    let block = copy_in-fresh g bytes (n + 1) size in
    elim (Bool-cases (ok 0)) [
      | inr lost ↦ rw (total, not_zero, lost) refl
      | inl had ↦ rw (total, not_zero, had, read, block) refl
    ]

-- A reply that is no access outside of a block, and a text exactly if the test holds.
pub Answers : Exec Strings.Text → Bool → Type 0
Answers reply t = (r : Strings.Text) × (reply ≡ some r) × (is_some r ≡ t)

is_some_if : {A : Type 0} (b : Bool) (x : A) → is_some (if b then some x else none) ≡ b
is_some_if true x = refl
is_some_if false x = refl

-- URL_Decode of any text keeps to its block, whose size the first loop computes, and to the text; it
-- returns a text exactly if that loop accepts the encoding and both requests for memory succeed.
pub url_decode-Answers :
    (g : Garbage) (ok : Outcomes) (s : Bytes)
    → Answers (url_decode g ok (some s)) (is_some (size_loop 0 s) && (ok 0 && ok 1))
unfolding url_decode decoded_size Answers
url_decode-Answers g ok s = elim (Option-cases (size_loop 0 s)) [
  | inl bad ↦ (none, rw (calculate_lem s, bad) refl, rw bad refl)
  | inr (n, good) ↦
      let (bytes, read, size) = decode_loop-Decoded 0 s n (omega arith) good in
      (
        if ok 0 && ok 1 then some (c_string bytes) else none,
        url_decode_good g ok s n bytes good read size,
        rw good (is_some_if (ok 0 && ok 1) (c_string bytes)),
      )
]

-- An encoded text is accepted, and read back.
read_back :
    (s : Bytes)
    → All (λ c. (0 < c) × (c < 128)) s
    → (size_loop 0 (encoded s) ≡ some (length s))
      × (decode_loop 0 (encoded s ++ (0 ∷ [])) ≡ some (s ++ (0 ∷ [])))
unfolding encoded size_loop decode_loop
read_back [] h = (refl, refl)
read_back (c ∷ s) ((positive, small), h) =
    let (size, back) = read_back s h in
    elim (Bool-cases (is_printable c)) [
      | inl printed ↦
          let shape : printable_char c ≡ c ∷ [] = unfold printable_char in rw printed refl in
          let plain = printable_plain c printed in
          (
            rw shape (size_plain c (encoded s) plain ∙ rw (printed, size) refl),
            rw shape (decode_plain c (encoded s ++ (0 ∷ [])) plain ∙ rw back refl),
          )
      | inr hidden ↦
          let (big, little, shape, valid, value) = printable_char-Escaped c small hidden in
          (
            rw shape (
                size_percent 37 (big ∷ little ∷ encoded s) refl
                ∙ rw (valid (encoded s), size) refl),
            rw shape
                (decode_percent 37 big little (encoded s ++ (0 ∷ [])) refl ∙ rw (back, value) refl),
          )
    ]

ascii_IsChar : (s : Bytes) → All (λ c. (0 < c) × (c < 128)) s → All IsChar s
ascii_IsChar [] h = tt
ascii_IsChar (c ∷ s) ((positive, small), h) = ((positive, omega (arith, small)), ascii_IsChar s h)

-- URL_Decode of what URL_Encode returned for any ASCII text, with the four requests for memory of the
-- two calls granted, returns that text; nothing outside of the blocks is accessed.
pub url_decode-url_encode :
    (g g' : Garbage) (ok ok' : Outcomes) (s : Bytes)
    → All (λ c. (0 < c) × (c < 128)) s
    → ok 0 ≡ true
    → ok 1 ≡ true
    → ok' 0 ≡ true
    → ok' 1 ≡ true
    → (url_encode g ok (some s) >>= url_decode g' ok') ≡ some (some s)
url_decode-url_encode g g' ok ok' s h a b c d =
    let (size, back) = read_back s h in
    let total : length (s ++ (0 ∷ [])) ≡ length s + 1 = length-append s (0 ∷ []) in
    rw (url_encode_lem g ok s (ascii_IsChar s h), a, b)
      (url_decode_good g' ok' (encoded s) (length s) (s ++ (0 ∷ [])) size back total
        ∙ rw (c, d, c_string-append s [] (ascii_IsChar s h)) refl)
