-- ===== src/Strings/Json/Reader.antt =====
-- A reader of JSON string literals, as RFC 8259 describes the escapes, and the round trip.
use azure_c_shared_utility.Base.{
  ap, sym, ◌&&◌, ◌||◌, ltb, Bool, ℕ, zero, suc, ◌+◌, ◌-◌, ◌*◌, ◌^◌, ◌<◌, ◌≡◌, refl, true, Option,
  none, some, [], ◌∷◌, ◌++◌, append_assoc, leb, ◌==◌, ==_iff, if◌then◌else◌, arith, Bytes, All,
  length, ◌>>=◌, Garbage, Outcomes, Bool-cases, inl, inr, bit_and, get_or, codes, ◌/◌, false,
}
use azure_c_shared_utility.Base.Bits.{each_under, each_under_lem}
use azure_c_shared_utility.Strings.Json.{new_json, json_char, json_chars}
use azure_c_shared_utility.Strings.Json.Laws.{IsAscii, new_json_lem}

-- The value of a hexadecimal digit.
hex_value : ℕ → Option ℕ
hex_value c =
    if leb b'0' c && leb c b'9'
    then some (c - b'0')
    else (if leb b'A' c && leb c b'F'
        then some (c - b'A' + 10)
        else (if leb b'a' c && leb c b'f' then some (c - b'a' + 10) else none))

-- The number of four hexadecimal digits, and what follows it.
four_hex : Bytes → Option (ℕ × Bytes)
unfolding hex_value
four_hex (a ∷ b ∷ c ∷ d ∷ rest) = do
  n3 ← hex_value a
  n2 ← hex_value b
  n1 ← hex_value c
  n0 ← hex_value d
  some (((n3 * 16 + n2) * 16 + n1) * 16 + n0, rest)
four_hex _ = none

-- The escapes of one character.
escape_value : ℕ → Option ℕ
escape_value x =
    if x == b'"' || x == b'\\' || x == b'/'
    then some x
    else (if x == b'b'
        then some 8
        else (if x == b'f'
            then some 12
            else (if x == b'n'
                then some 10
                else (if x == b'r' then some 13 else (if x == b't' then some 9 else none)))))

-- What follows a backslash.
read_escape : Bytes → Option (ℕ × Bytes)
unfolding four_hex escape_value
read_escape [] = none
read_escape (x ∷ rest) = elim (x == b'u') [
  | true ↦ four_hex rest
  | false ↦ (do value ← escape_value x; some (value, rest))
]

-- One character of the literal, escaped or not, and what follows it. A control character is not
-- one.
read_char : Bytes → Option (ℕ × Bytes)
unfolding read_escape
read_char [] = none
read_char (c ∷ rest) = elim (c == b'\\') [
  | true ↦ read_escape rest
  | false ↦ if ltb c 32 then none else some (c, rest)
]

-- The characters up to the closing quote, which ends the text.
read_chars : ℕ → Bytes → Option Bytes
unfolding read_char
read_chars zero s = none
read_chars (suc fuel) [] = none
read_chars (suc fuel) (c ∷ s) = elim (c == b'"') [
  | true ↦ elim s [ [] ↦ some [] | _ ∷ _ ↦ none ]
  | false ↦ elim (read_char (c ∷ s)) [
    | none ↦ none
    | some (d, rest) ↦ (do ds ← read_chars fuel rest; some (d ∷ ds))
  ]
]

pub read_literal : ℕ → Bytes → Option Bytes
unfolding read_chars
read_literal fuel [] = none
read_literal fuel (c ∷ s) = if c == b'"' then read_chars fuel s else none

-- The digits of each control character.
is_number : Option ℕ → Option ℕ → ℕ → Bool
is_number (some high) (some low) c = high * 16 + low == c
is_number _ _ c = false

abbrev high_digit : ℕ → Option ℕ
high_digit c = hex_value (get_or (codes "0123456789ABCDEF") (bit_and c 0xF0 / 16) 0)

abbrev low_digit : ℕ → Option ℕ
low_digit c = hex_value (get_or (codes "0123456789ABCDEF") (bit_and c 0x0F) 0)

control-table : each_under (λ c. is_number (high_digit c) (low_digit c) c) 32 ≡ true
unfolding each_under hex_value is_number
control-table = refl

-- What four_hex does with two digits behind two zeros.
two_digits : Option ℕ → Option ℕ → Bytes → Option (ℕ × Bytes)
two_digits high low rest = do n1 ← high; n0 ← low; some (((0 * 16 + 0) * 16 + n1) * 16 + n0, rest)

two_digits_lem :
    (high low : Option ℕ) (c : ℕ) (rest : Bytes)
    → is_number high low c ≡ true
    → two_digits high low rest ≡ some (c, rest)
unfolding is_number two_digits
two_digits_lem (some high) (some low) c rest number =
    let value : ((0 * 16 + 0) * 16 + high) * 16 + low ≡ c = ground arith in rw value
two_digits_lem (some high) none c rest number = absurd (ground arith)
two_digits_lem none low c rest number = absurd (ground arith)

-- The reader undoes the escape of each character.
read_char-json_char : (c : ℕ) (rest : Bytes) → read_char (json_char c ++ rest) ≡ some (c, rest)
unfolding read_char read_escape json_char four_hex escape_value two_digits
read_char-json_char c rest = elim (Bool-cases (leb c 0x1F)) [
  | inl control ↦ rw control (
      two_digits_lem (high_digit c) (low_digit c) c rest
        (each_under_lem 32 _ control-table c (ground arith)))
  | inr other ↦ rw other (elim (Bool-cases (c == b'"')) [
    | inl e ↦ rw e (ap (λ d. some (d, rest)) (sym ((==_iff c b'"').0 e)))
    | inr not_quote ↦ rw not_quote (elim (Bool-cases (c == b'\\')) [
      | inl e ↦ rw e (ap (λ d. some (d, rest)) (sym ((==_iff c b'\\').0 e)))
      | inr not_backslash ↦ rw not_backslash (elim (Bool-cases (c == b'/')) [
        | inl e ↦ rw e (ap (λ d. some (d, rest)) (sym ((==_iff c b'/').0 e)))
        | inr plain ↦
            let printable : ltb c 32 ≡ false = ground arith in
            rw plain (rw (not_backslash, printable, read_char))
      ])
    ])
  ])
]

json_char_head : (c : ℕ) → (h : ℕ) × (t : Bytes) × (json_char c ≡ h ∷ t) × ((h == b'"') ≡ false)
unfolding json_char
json_char_head c = elim (Bool-cases (leb c 0x1F)) [
  | inl control ↦ rw control (_, _, refl, refl)
  | inr other ↦ rw other (elim (Bool-cases (c == b'"')) [
    | inl e ↦ rw e (_, _, refl, refl)
    | inr ne ↦ rw ne (elim (Bool-cases (c == b'\\')) [
      | inl e ↦ rw e (_, _, refl, refl)
      | inr not_backslash ↦ rw not_backslash (elim (Bool-cases (c == b'/')) [
        | inl e ↦ rw e (_, _, refl, refl)
        | inr plain ↦ rw plain (_, _, refl, ne)
      ])
    ])
  ])
]

read_chars-json_chars :
    (s : Bytes) (fuel : ℕ)
    → length s < fuel
    → read_chars fuel (json_chars s ++ (b'"' ∷ [])) ≡ some s
unfolding read_chars json_chars
read_chars-json_chars s zero h = absurd (omega arith)
read_chars-json_chars [] (suc fuel) h = refl
read_chars-json_chars (c ∷ s) (suc fuel) h =
    let (first, others, e, ne) = json_char_head c in
    let one = read_char-json_char c (json_chars s ++ (b'"' ∷ [])) in
    rw (append_assoc (json_char c) (json_chars s) (b'"' ∷ []), e, ne, rw e at one, read_chars)
      (rw (read_chars-json_chars s fuel (omega arith)))

-- A reader of JSON string literals gets the source back from the result of STRING_new_JSON, for
-- every text of ASCII characters without NUL whose escaped size fits size_t, when both requests
-- for memory succeed.
pub read_literal-new_json :
    (g : Garbage) (ok : Outcomes) (s : Bytes)
    → All IsAscii s
    → 6 * length s + 3 < 2 ^ 64
    → ok 0 ≡ true
    → ok 1 ≡ true
    → (new_json g ok (some s) >>= λ text. text >>= λ t. read_literal (length s + 1) t) ≡ some s
read_literal-new_json g ok s h short ok0 ok1 =
    rw (new_json_lem g ok s h short ok0 ok1)
      (unfold read_literal in read_chars-json_chars s (length s + 1) (omega arith))
