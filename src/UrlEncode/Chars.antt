-- ===== src/UrlEncode/Chars.antt =====
-- Single characters of src/urlencode.c.
use azure_c_shared_utility.Base.{
  ℕ, ◌<◌, ◌≡◌, ◌∙◌, refl, sym, ap, Bool, true, false, ◌&&◌, ◌||◌, [], ◌∷◌, ltb, ◌==◌, Bytes, All,
  length, drop, get_or, arith, Bool-cases, inl, inr, IsChar,
}
use azure_c_shared_utility.Base.Bits.{each_under, each_under_lem}
use azure_c_shared_utility.UrlEncode.{
  is_printable, is_hexdigit, is_in_ascii_range, nibble_to_string, toupper, nibble_from_string,
  printable_char, printable_char_size, valid_percent, char_from_nibbles,
}

-- The size is that of what is written.
pub length-printable_char : (c : ℕ) → length (printable_char c) ≡ printable_char_size c
unfolding printable_char printable_char_size
length-printable_char c = elim (Bool-cases (is_printable c)) [
  | inl p ↦ rw p refl
  | inr q ↦ elim (Bool-cases (ltb c 0x80)) [ inl a ↦ rw (q, a) refl | inr b ↦ rw (q, b) refl ]
]

-- An ASCII character that is not printed as it is: three characters that are read back.
abbrev escape_ok : ℕ → Bool
escape_ok c =
    is_printable c
    || ((get_or (printable_char c) 0 0 == 37)
        && ((valid_percent (drop 1 (printable_char c)) && (length (printable_char c) == 3))
            && ((char_from_nibbles (get_or (printable_char c) 1 0) (get_or (printable_char c) 2 0)
                  == c)
                && (ltb 0 (get_or (printable_char c) 1 0)
                    && (ltb (get_or (printable_char c) 1 0) 128
                        && (ltb 0 (get_or (printable_char c) 2 0)
                            && ltb (get_or (printable_char c) 2 0) 128))))))

pub escape_lem : (c : ℕ) → c < 128 → escape_ok c ≡ true
unfolding each_under is_printable is_hexdigit is_in_ascii_range nibble_to_string toupper
    nibble_from_string printable_char valid_percent char_from_nibbles
escape_lem = each_under_lem 128 escape_ok refl

pub percent_lem : is_printable 37 ≡ false
unfolding is_printable
percent_lem = refl

abbrev all_chars : Bytes → Bool
all_chars [] = true
all_chars (c ∷ s) = (ltb 0 c && ltb c 256) && all_chars s

all_chars_sound : (s : Bytes) → all_chars s ≡ true → All IsChar s
all_chars_sound [] h = tt
all_chars_sound (c ∷ s) h = (ground arith, all_chars_sound s (ground arith))

printable_char-table : each_under (λ c. (c == 0) || all_chars (printable_char c)) 256 ≡ true
unfolding each_under is_printable nibble_to_string printable_char
printable_char-table = refl

pub printable_char-IsChar : (c : ℕ) → IsChar c → All IsChar (printable_char c)
printable_char-IsChar c h =
    all_chars_sound (printable_char c)
      (ground (arith, each_under_lem 256 _ printable_char-table c h.1))

three : (l : Bytes) → length l ≡ 3 → l ≡ get_or l 0 0 ∷ get_or l 1 0 ∷ get_or l 2 0 ∷ []
three [] h = absurd (omega arith)
three (a ∷ []) h = absurd (omega arith)
three (a ∷ b ∷ []) h = absurd (omega arith)
three (a ∷ b ∷ c ∷ []) h = refl
three (a ∷ b ∷ c ∷ d ∷ l) h = absurd (omega arith)

-- How a character that is not printed as it is stands in the encoded text.
abbrev pub Escaped : ℕ → Type 0
Escaped c =
    (big : ℕ) × (little : ℕ) × (printable_char c ≡ 37 ∷ big ∷ little ∷ [])
    × ((s : Bytes) → valid_percent (big ∷ little ∷ s) ≡ true)
    × (char_from_nibbles big little ≡ c)

pub printable_char-Escaped : (c : ℕ) → c < 128 → is_printable c ≡ false → Escaped c
unfolding valid_percent
printable_char-Escaped c small hidden =
    let ok : escape_ok c ≡ true = escape_lem c small in
    let l = printable_char c in
    let size : length l ≡ 3 = ground (arith, ok, hidden) in
    let shape = three l size in
    let percent : get_or l 0 0 ≡ 37 = ground (arith, ok, hidden) in
    let valid : valid_percent (drop 1 l) ≡ true = ground (arith, ok, hidden) in
    let valid_here : valid_percent (get_or l 1 0 ∷ get_or l 2 0 ∷ []) ≡ true =
      ap (λ t. valid_percent (drop 1 t)) (sym shape) ∙ valid in
    let back : char_from_nibbles (get_or l 1 0) (get_or l 2 0) ≡ c = ground (arith, ok, hidden) in
    (
      get_or l 1 0,
      get_or l 2 0,
      shape ∙ ap (λ t. t ∷ get_or l 1 0 ∷ get_or l 2 0 ∷ []) percent,
      λ s. valid_here,
      back,
    )

pub printable_plain : (c : ℕ) → is_printable c ≡ true → (c == 37) ≡ false
printable_plain c printed = elim (Bool-cases (c == 37)) [
  | inr other ↦ other
  | inl same ↦
      let at : c ≡ 37 = ground (arith, same) in
      let clash : true ≡ false = sym printed ∙ ap is_printable at ∙ percent_lem in
      absurd (ground (arith, clash))
]
