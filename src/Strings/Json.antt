-- ===== src/Strings/Json.antt =====
-- STRING_new_JSON of src/strings.c, with the block that it allocates and fills.
pub mod Laws
pub mod Reader
use azure_c_shared_utility.Base.{
  ℕ, zero, suc, ◌+◌, ◌*◌, ◌/◌, ◌%◌, ◌^◌, Bool, true, false, ◌&&◌, ◌||◌, Option, none, some, [], ◌∷◌,
  ◌++◌, ltb, leb, ◌==◌, if◌then◌else◌, bit_and, Bytes, length, Outcomes, Exec, ◌>>=◌, Garbage,
  fresh, copy_in, c_string?, get_or, codes,
}

abbrev hex_to_ascii : Bytes
hex_to_ascii = codes "0123456789ABCDEF"

-- The two counters of the first loop; `none` if it stops at a byte of 128 or more.
abbrev pub Counts : Type 0
Counts = ℕ × ℕ

count_loop : Bytes → ℕ → ℕ → Option Counts
count_loop [] control escape = some (control, escape)
count_loop (c ∷ s) control escape =
    let is_control = leb c 0x1F in
    let is_escape = (c == b'"') || ((c == b'\\') || (c == b'/')) in
    let rest =
      count_loop s (if is_control then control + 1 else control)
        (if is_control then escape else if is_escape then escape + 1 else escape) in
    if leb 128 c then none else rest

-- What the second loop writes for one character.
pub json_char : ℕ → Bytes
json_char c =
    if leb c 0x1F
    then b'\\'
      ∷ b'u'
      ∷ b'0'
      ∷ b'0'
      ∷ get_or hex_to_ascii (bit_and c 0xF0 / 16) 0
      ∷ get_or hex_to_ascii (bit_and c 0x0F) 0
      ∷ []
    else if c == b'"'
    then b'\\' ∷ b'"' ∷ []
    else if c == b'\\'
    then b'\\' ∷ b'\\' ∷ []
    else if c == b'/'
    then b'\\' ∷ b'/' ∷ []
    else c ∷ []

pub json_chars : Bytes → Bytes
json_chars [] = []
json_chars (c ∷ s) = json_char c ++ json_chars s

-- All that is written, the terminator included.
json_text : Bytes → Bytes
json_text s = b'"' ∷ (json_chars s ++ (b'"' ∷ 0 ∷ []))

build_json : Garbage → Outcomes → Bytes → Option Counts → Exec (Option Bytes)
build_json g ok source none = some none
build_json g ok source (some (control, escape)) =
    let allocation = (length source + 5 * control + escape + 3) % 2 ^ 64 in
    if ok 0
    then (if ok 1
        then (do
          block ← copy_in (fresh g allocation) 0 (json_text source)
          s ← c_string? block
          some (some s))
        else some none)
    else some none

-- The outer `none` is a write outside of the block or a text with no terminator.
unfoldable pub new_json : Garbage → Outcomes → Option Bytes → Exec (Option Bytes)
unfolding count_loop json_text json_chars json_char build_json
new_json g ok none = some none
new_json g ok (some source) = build_json g ok source (count_loop source 0 0)
