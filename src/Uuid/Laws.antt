-- ===== src/Uuid/Laws.antt =====
-- Reading back the text of a UUID.
use azure_c_shared_utility.Base.{
  ℕ, zero, suc, ◌+◌, ◌*◌, ◌/◌, ◌%◌, ◌<◌, ◌≡◌, ◌∙◌, sym, ap, refl, Bool, true, false, not, ◌&&◌,
  none, some, [], ◌∷◌, ◌++◌, append_assoc, append-nil, Bytes, All, IsByte, IsChar, All-append,
  Bool-cases, inl, inr, copy_in-fresh, c_string?-append, length, length-append, ◌==◌, if◌then◌else◌,
  Outcomes, ◌>>=◌, Garbage, copy_in, copy_in_lem, arith,
}
use azure_c_shared_utility.Buffer.{success}
use azure_c_shared_utility.Uuid.{
  hexa_digit_val, must_be_dash, store_pair, read_from, from_string, hex_digit, hex_text, uuid_text,
  to_string,
}

digit_back : (v : ℕ) → v < 16 → hexa_digit_val (hex_digit v) ≡ some v
unfolding hexa_digit_val hex_digit
digit_back v h = ground arith

digit_no_dash : (v : ℕ) → v < 16 → (hex_digit v == b'-') ≡ false
unfolding hex_digit
digit_no_dash v h = ground arith

-- No dash is due in the next `n` pairs.
abbrev pairs_from : ℕ → ℕ → Bool
pairs_from i zero = true
pairs_from i (suc n) = not (must_be_dash i) && pairs_from (i + 2) n

read_from-pair :
    (i j b : ℕ) (rest uuid uuid' : Bytes)
    → IsByte b
    → must_be_dash i ≡ false
    → copy_in uuid j (b ∷ []) ≡ some uuid'
    → read_from i j (hex_digit (b / 16) ∷ hex_digit (b % 16) ∷ rest) uuid
      ≡ read_from (i + 2) (j + 1) rest uuid'
unfolding read_from store_pair
read_from-pair i j b rest uuid uuid' h no_dash stored =
    let high : b / 16 < 16 = omega arith in
    let low : b % 16 < 16 = omega arith in
    let value : (b / 16 * 16 + b % 16) % 256 ≡ b = omega arith in
    rw (
      no_dash,
      digit_no_dash (b / 16) high,
      digit_no_dash (b / 16) high,
      digit_back (b / 16) high,
      digit_back (b % 16) low,
      value,
      stored,
      read_from,
    )

read_from-group :
    (bytes : Bytes) (i j : ℕ) (rest done mid post : Bytes)
    → All IsByte bytes
    → pairs_from i (length bytes) ≡ true
    → length done ≡ j
    → length mid ≡ length bytes
    → read_from i j (hex_text bytes ++ rest) (done ++ (mid ++ post))
      ≡ read_from (i + 2 * length bytes) (j + length bytes) rest ((done ++ bytes) ++ post)
unfolding hex_text
read_from-group [] i j rest done [] post h p d m =
    let same_i : i + 0 ≡ i = omega arith in
    let same_j : j + 0 ≡ j = omega arith in rw (same_i, same_j, append-nil done) refl
read_from-group [] i j rest done (x ∷ mid) post h p d m = absurd (omega arith)
read_from-group (b ∷ bytes) i j rest done [] post h p d m = absurd (omega arith)
read_from-group (b ∷ bytes) i j rest done (x ∷ mid) post (hb, h) p d m =
    let no_dash : must_be_dash i ≡ false = ground arith in
    let stored : copy_in (done ++ (x ∷ (mid ++ post))) j (b ∷ [])
        ≡ some (done ++ (b ∷ (mid ++ post))) =
      rw (sym d) (copy_in_lem done (x ∷ []) (b ∷ []) (mid ++ post) refl) in
    read_from-pair i j b (hex_text bytes ++ rest) (done ++ (x ∷ (mid ++ post))) _ hb no_dash stored
    ∙ ap (read_from (i + 2) (j + 1) (hex_text bytes ++ rest))
        (sym (append_assoc done (b ∷ []) (mid ++ post)))
    ∙ read_from-group bytes (i + 2) (j + 1) rest (done ++ (b ∷ [])) mid post h (ground arith)
        (omega (arith, length-append {0} done (b ∷ []))) (omega arith)
    ∙ (λ t. read_from (end_i t) (end_j t) rest (append_assoc done (b ∷ []) bytes t ++ post))
  where
    end_i : i + 2 + 2 * length bytes ≡ i + 2 * suc (length bytes)
    end_i = omega arith

    end_j : j + 1 + length bytes ≡ j + suc (length bytes)
    end_j = omega arith

read_from-dash :
    (i j : ℕ) (rest uuid : Bytes)
    → must_be_dash i ≡ true
    → read_from i j (b'-' ∷ rest) uuid ≡ read_from (i + 1) j rest uuid
unfolding read_from
read_from-dash i j [] uuid due = rw due
read_from-dash i j (c ∷ rest) uuid due = rw (due, read_from)

-- The bytes of a UUID by their index.
abbrev pub block_of : (ℕ → ℕ) → Bytes
block_of u =
    u 0
    ∷ u 1
    ∷ u 2
    ∷ u 3
    ∷ u 4
    ∷ u 5
    ∷ u 6
    ∷ u 7
    ∷ u 8
    ∷ u 9
    ∷ u 10
    ∷ u 11
    ∷ u 12
    ∷ u 13
    ∷ u 14
    ∷ u 15
    ∷ []

-- `count` bytes from index `i` on.
abbrev part : (ℕ → ℕ) → ℕ → ℕ → Bytes
part u i zero = []
part u i (suc count) = u i ∷ part u (i + 1) count

part-IsByte : (u : ℕ → ℕ) → ((i : ℕ) → IsByte (u i)) → (i count : ℕ) → All IsByte (part u i count)
part-IsByte u h i zero = _
part-IsByte u h i (suc count) = (h i, part-IsByte u h (i + 1) count)

length-uuid_text : (u : ℕ → ℕ) → length (uuid_text (block_of u)) ≡ 36
unfolding uuid_text hex_text
length-uuid_text u = refl

module _ (u old : ℕ → ℕ) (h : (i : ℕ) → IsByte (u i)) where
  read_from-uuid_text :
      read_from 0 0 (uuid_text (block_of u)) (block_of old) ≡ some (success, block_of u)
  unfolding uuid_text must_be_dash
  read_from-uuid_text =
      read_from-group (part u 0 4) 0 0 _ [] (part old 0 4) (part old 4 12) (part-IsByte u h 0 4)
        refl refl refl
      ∙ read_from-dash 8 4 _ _ refl
      ∙ read_from-group (part u 4 2) 9 4 _ (part u 0 4) (part old 4 2) (part old 6 10)
          (part-IsByte u h 4 2) refl refl refl
      ∙ read_from-dash 13 6 _ _ refl
      ∙ read_from-group (part u 6 2) 14 6 _ (part u 0 6) (part old 6 2) (part old 8 8)
          (part-IsByte u h 6 2) refl refl refl
      ∙ read_from-dash 18 8 _ _ refl
      ∙ read_from-group (part u 8 2) 19 8 _ (part u 0 8) (part old 8 2) (part old 10 6)
          (part-IsByte u h 8 2) refl refl refl
      ∙ read_from-dash 23 10 _ _ refl
      ∙ ap (λ t. read_from 24 10 t (part u 0 10 ++ part old 10 6))
          (sym (append-nil (hex_text (part u 10 6))))
      ∙ read_from-group (part u 10 6) 24 10 [] (part u 0 10) (part old 10 6) []
          (part-IsByte u h 10 6) refl refl refl
      ∙ ended
    where
      ended : read_from 36 16 [] (block_of u) ≡ some (success, block_of u)
      ended = unfold read_from in refl

hex_digit-IsChar : (v : ℕ) → v < 16 → IsChar (hex_digit v)
unfolding hex_digit
hex_digit-IsChar v h = (ground arith, ground arith)

hex_text-IsChar : (bytes : Bytes) → All IsByte bytes → All IsChar (hex_text bytes)
unfolding hex_text
hex_text-IsChar [] h = _
hex_text-IsChar (b ∷ bytes) (hb, h) = (
  hex_digit-IsChar (b / 16) (omega arith),
  (hex_digit-IsChar (b % 16) (omega arith), hex_text-IsChar bytes h),
)

module _ (u : ℕ → ℕ) (h : (i : ℕ) → IsByte (u i)) where
  group-IsChar :
      (i count : ℕ) (rest : Bytes)
      → All IsChar rest
      → All IsChar (hex_text (part u i count) ++ rest)
  group-IsChar i count rest hr =
      All-append IsChar (hex_text (part u i count)) rest
        (hex_text-IsChar (part u i count) (part-IsByte u h i count)) hr

  dash-IsChar : IsChar b'-'
  dash-IsChar = (omega arith, omega arith)

  uuid_text-IsChar : All IsChar (uuid_text (block_of u))
  unfolding uuid_text
  uuid_text-IsChar = group-IsChar 0 4 _ (
    dash-IsChar,
    group-IsChar 4 2 _ (
      dash-IsChar,
      group-IsChar 6 2 _ (
        dash-IsChar,
        group-IsChar 8 2 _ (dash-IsChar, hex_text-IsChar (part u 10 6) (part-IsByte u h 10 6)),
      ),
    ),
  )

  -- UUID_to_string, on a UUID of 16 bytes, writes nothing outside of its block and returns the text
  -- of 36 characters if memory is had, and NULL if not.
  pub to_string_lem :
      (g : Garbage) (ok : Outcomes)
      → to_string g ok (some (block_of u))
        ≡ some (if ok 0 then some (uuid_text (block_of u)) else none)
  unfolding to_string
  to_string_lem g ok =
      let size : length (uuid_text (block_of u) ++ (0 ∷ [])) ≡ 37 =
        length-append {0} (uuid_text (block_of u)) (0 ∷ [])
        ∙ ap (λ t. t + 1) (length-uuid_text u) in
      elim (Bool-cases (ok 0)) [
        | inr lost ↦ rw lost refl
        | inl had ↦
            rw
              (
                had,
                copy_in-fresh g (uuid_text (block_of u) ++ (0 ∷ [])) 37 size,
                c_string?-append (uuid_text (block_of u)) [] uuid_text-IsChar,
                length-uuid_text u,
              )
              refl
      ]

-- UUID_from_string, into a UUID of any 16 bytes, gets the bytes back from the text that
-- UUID_to_string returns for them, when memory is had, and reports success.
pub from_string-to_string :
    (g : Garbage) (ok : Outcomes) (u old : ℕ → ℕ)
    → ((i : ℕ) → IsByte (u i))
    → ok 0 ≡ true
    → (to_string g ok (some (block_of u)) >>= λ s. from_string s (some (block_of old)))
      ≡ some (success, some (block_of u))
unfolding from_string
from_string-to_string g ok u old h had =
    rw (to_string_lem u h g ok, had, length-uuid_text u, read_from-uuid_text u old h) refl
