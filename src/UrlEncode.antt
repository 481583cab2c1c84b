-- ===== src/UrlEncode.antt =====
-- src/urlencode.c: percent encoding. Characters are unsigned; a block starts with any bytes.
pub mod Chars
pub mod Laws
mod Tests
use azure_c_shared_utility.Base.{
  ℕ, zero, suc, ◌+◌, ◌-◌, ◌*◌, ◌/◌, ◌%◌, Bool, true, false, not, ◌&&◌, ◌||◌, Option, none, some, [],
  ◌∷◌, ◌++◌, ltb, leb, ◌==◌, if◌then◌else◌, bit_and, bit_or, Bytes, codes, length, get_elem?,
  Outcomes, Garbage, Exec, ◌>>=◌, copy_in, fresh,
}
use azure_c_shared_utility.Strings

abbrev pub between : ℕ → ℕ → ℕ → Bool
between low high c = leb low c && leb c high

abbrev pub one_of : Bytes → ℕ → Bool
one_of [] c = false
one_of (x ∷ xs) c = (c == x) || one_of xs c

unfoldable pub is_hexdigit : ℕ → Bool
is_hexdigit c = between 48 57 c || (between 65 70 c || between 97 102 c)

unfoldable pub is_printable : ℕ → Bool
is_printable c =
    (c == 0)
    || (one_of (codes "!*'();:@&=+$,/?#[]") c
        || (between 65 90 c
            || (between 97 122 c
                || (between 48 57 c || one_of (b'-' ∷ b'_' ∷ b'.' ∷ b'~' ∷ b'"' ∷ b'\\' ∷ []) c))))

unfoldable pub is_in_ascii_range : ℕ → Bool
is_in_ascii_range c = between 48 55 c

unfoldable pub nibble_to_string : ℕ → ℕ
nibble_to_string c = if ltb c 10 then c + 48 else c - 10 + 97

unfoldable pub toupper : ℕ → ℕ
toupper c = if between 97 122 c then c - 97 + 65 else c

unfoldable pub nibble_from_string : ℕ → ℕ
nibble_from_string c = if between 48 57 c then c - 48 else toupper c + 10 - 65

-- What URL_PrintableChar writes.
unfoldable pub printable_char : ℕ → Bytes
printable_char c =
    if is_printable c
    then c ∷ []
    else (let big = if leb 0x0C (c / 16) then c / 16 - 4 else c / 16 in
        if ltb c 0x80
        then 37 ∷ nibble_to_string big ∷ nibble_to_string (bit_and c 0x0F) ∷ []
        else 37
          ∷ 99
          ∷ (if ltb c 0xC0 then 50 else 51)
          ∷ 37
          ∷ nibble_to_string big
          ∷ nibble_to_string (bit_and c 0x0F)
          ∷ [])

unfoldable pub printable_char_size : ℕ → ℕ
printable_char_size c = if is_printable c then 1 else if ltb c 0x80 then 3 else 6

-- The first loop of URL_Encode, on the text with its terminator.
unfoldable pub result_length : Bytes → ℕ
result_length [] = printable_char_size 0
result_length (c ∷ s) = printable_char_size c + result_length s

-- The second loop, from a position on.
unfoldable pub encode_loop : (block : Bytes) → (position : ℕ) → Bytes → Exec Bytes
encode_loop block position [] = copy_in block position (printable_char 0)
encode_loop block position (c ∷ s) = do
  written ← copy_in block position (printable_char c)
  encode_loop written (position + length (printable_char c)) s

unfoldable pub url_encode : Garbage → Outcomes → Strings.Text → Exec Strings.Text
url_encode g ok none = some none
url_encode g ok (some input) =
    if ok 0
    then (do
      block ← encode_loop (fresh g (result_length input)) 0 input
      some (Strings.new_with_memory (λ i. ok (1 + i)) (some block)))
    else some none

-- The checks of a percent encoding, on what follows the `%`.
unfoldable pub valid_percent : Bytes → Bool
valid_percent (big ∷ little ∷ s) = (is_hexdigit big && is_hexdigit little) && is_in_ascii_range big
valid_percent _ = false

-- The loop of calculateDecodedStringSize; `skip` of the characters are passed over, and `none` is
-- a break.
unfoldable pub size_loop : (skip : ℕ) → Bytes → Option ℕ
size_loop skip [] = some 0
size_loop (suc skip) (c ∷ s) = size_loop skip s
size_loop zero (c ∷ s) = elim (c == 37) [
  | true ↦ elim (valid_percent s) [ true ↦ do n ← size_loop 2 s; some (suc n) | false ↦ none ]
  | false ↦ elim (is_printable c) [ true ↦ do n ← size_loop 0 s; some (suc n) | false ↦ none ]
]

-- 0 is an error.
unfoldable pub decoded_size : Option ℕ → ℕ
decoded_size none = 0
decoded_size (some n) = n + 1

unfoldable pub calculate_decoded_string_size : Bytes → ℕ
calculate_decoded_string_size s = if length s == 0 then 1 else decoded_size (size_loop 0 s)

unfoldable pub char_from_nibbles : ℕ → ℕ → ℕ
char_from_nibbles big little =
    bit_or (nibble_from_string big * 16 % 256) (nibble_from_string little)

-- What createDecodedString writes for the characters from the current one on, the terminator
-- included; `none` is a read behind it.
unfoldable pub decode_loop : (skip : ℕ) → Bytes → Exec Bytes
decode_loop skip [] = some []
decode_loop (suc skip) (c ∷ s) = decode_loop skip s
decode_loop zero (c ∷ s) = elim (c == 37) [
  | true ↦ do
    big ← get_elem? s 0
    little ← get_elem? s 1
    rest ← decode_loop 2 s
    some (char_from_nibbles big little ∷ rest)
  | false ↦ do rest ← decode_loop 0 s; some (c ∷ rest)
]

unfoldable pub create_decoded_string : Bytes → (output : Bytes) → Exec Bytes
create_decoded_string s output = do bytes ← decode_loop 0 (s ++ (0 ∷ [])); copy_in output 0 bytes

unfoldable pub url_decode : Garbage → Outcomes → Strings.Text → Exec Strings.Text
url_decode g ok none = some none
url_decode g ok (some input) =
    let size = calculate_decoded_string_size input in
    if size == 0
    then some none
    else if ok 0
    then (do
      block ← create_decoded_string input (fresh g size)
      some (Strings.new_with_memory (λ i. ok (1 + i)) (some block)))
    else some none

-- URL_EncodeString and URL_DecodeString: over a copy of the text, with the two requests of
-- STRING_construct first.
unfoldable pub url_encode_string : Garbage → Outcomes → Option Bytes → Exec Strings.Text
url_encode_string g ok none = some none
url_encode_string g ok (some text) =
    url_encode g (λ i. ok (2 + i)) (Strings.construct ok (some text))

unfoldable pub url_decode_string : Garbage → Outcomes → Option Bytes → Exec Strings.Text
url_decode_string g ok none = some none
url_decode_string g ok (some text) =
    url_decode g (λ i. ok (2 + i)) (Strings.construct ok (some text))
