-- ===== src/Strings/Json/Laws.antt =====
-- STRING_new_JSON fills its block exactly, and its text can be read back.
use azure_c_shared_utility.Base.{
  ℕ, ◌+◌, ◌*◌, ◌%◌, ◌^◌, ◌≤◌, ◌<◌, ◌≡◌, ◌∙◌, ap, sym, refl, Bool, true, ◌&&◌, ◌||◌, some, [], ◌∷◌,
  ◌++◌, append_assoc, ltb, leb, ◌==◌, if◌then◌else◌, arith, Bytes, All, All-append, length,
  length-append, Outcomes, Garbage, copy_in-fresh, c_string?-append, IsChar,
}
use azure_c_shared_utility.Base.Bits.{each_under, each_under_lem}
use azure_c_shared_utility.Strings.Json.{
  new_json, count_loop, build_json, json_char, json_chars, json_text,
}

-- Nonzero ASCII.
abbrev pub IsAscii : ℕ → Type 0
IsAscii c = (0 < c) × (c < 128)

-- By how many bytes a character grows: 5 if it is a control character, 1 if it is escaped.
abbrev control_of : ℕ → ℕ
control_of c = if leb c 0x1F then 1 else 0

abbrev escape_of : ℕ → ℕ
escape_of c =
    if leb c 0x1F then 0 else if (c == b'"') || ((c == b'\\') || (c == b'/')) then 1 else 0

abbrev sum_of : (ℕ → ℕ) → Bytes → ℕ
sum_of f [] = 0
sum_of f (c ∷ s) = f c + sum_of f s

count_loop_lem :
    (s : Bytes) (control escape : ℕ)
    → All IsAscii s
    → count_loop s control escape
      ≡ some (control + sum_of control_of s, escape + sum_of escape_of s)
unfolding count_loop
count_loop_lem [] control escape h = ground arith
count_loop_lem (c ∷ s) control escape (hc, hs) =
    ground (arith, count_loop_lem s (control + control_of c) (escape + escape_of c) hs)

length-json_char : (c : ℕ) → length (json_char c) ≡ 1 + 5 * control_of c + escape_of c
unfolding json_char
length-json_char c = ground arith

length-json_chars :
    (s : Bytes) → length (json_chars s) ≡ length s + 5 * sum_of control_of s + sum_of escape_of s
unfolding json_chars
length-json_chars [] = refl
length-json_chars (c ∷ s) =
    omega (
      arith,
      length-append {0} (json_char c) (json_chars s),
      length-json_char c,
      length-json_chars s,
    )

abbrev all_chars : Bytes → Bool
all_chars [] = true
all_chars (c ∷ s) = (ltb 0 c && ltb c 256) && all_chars s

all_chars_sound : (s : Bytes) → all_chars s ≡ true → All IsChar s
all_chars_sound [] h = tt
all_chars_sound (c ∷ s) h = (ground arith, all_chars_sound s (ground arith))

json_char-table : each_under (λ c. (c == 0) || all_chars (json_char c)) 128 ≡ true
unfolding json_char each_under
json_char-table = refl

json_char-IsChar : (c : ℕ) → IsAscii c → All IsChar (json_char c)
json_char-IsChar c h =
    all_chars_sound (json_char c) (ground (arith, each_under_lem 128 _ json_char-table c h.1))

json_chars-IsChar : (s : Bytes) → All IsAscii s → All IsChar (json_chars s)
unfolding json_chars
json_chars-IsChar [] h = tt
json_chars-IsChar (c ∷ s) (hc, hs) =
    All-append IsChar (json_char c) (json_chars s) (json_char-IsChar c hc) (json_chars-IsChar s hs)

-- The text of the result.
abbrev pub quoted_json : Bytes → Bytes
quoted_json s = b'"' ∷ (json_chars s ++ (b'"' ∷ []))

growth_bound : (s : Bytes) → 5 * sum_of control_of s + sum_of escape_of s ≤ 5 * length s
growth_bound [] = omega arith
growth_bound (c ∷ s) = ground (arith, growth_bound s)

-- The block is asked for in the size of what is written to it, and holds a terminated text.
build_json_lem :
    (g : Garbage) (ok : Outcomes) (s : Bytes)
    → All IsAscii s
    → 6 * length s + 3 < 2 ^ 64
    → ok 0 ≡ true
    → ok 1 ≡ true
    → build_json g ok s (some (sum_of control_of s, sum_of escape_of s))
      ≡ some (some (quoted_json s))
unfolding build_json
build_json_lem g ok s h short ok0 ok1 = rw (
  ok0,
  ok1,
  copy_in-fresh g (json_text s) _ size,
  split,
  c_string?-append (quoted_json s) [] chars,
)
  where
    split : json_text s ≡ quoted_json s ++ (0 ∷ [])
    split =
        unfold json_text in
        ap (λ t. b'"' ∷ t) (sym (append_assoc (json_chars s) (b'"' ∷ []) (0 ∷ [])))

    size :
        length (json_text s)
        ≡ (length s + 5 * sum_of control_of s + sum_of escape_of s + 3) % 2 ^ 64
    size =
        unfold json_text in
        omega (
          arith,
          length-append {0} (json_chars s) (b'"' ∷ 0 ∷ []),
          length-json_chars s,
          growth_bound s,
        )

    chars : All IsChar (quoted_json s)
    chars = (
      omega arith,
      All-append IsChar (json_chars s) (b'"' ∷ []) (json_chars-IsChar s h) (omega arith),
    )

-- STRING_new_JSON, on a text of ASCII characters without NUL whose escaped size fits size_t and
-- when both requests for memory succeed, writes nothing outside of the block that it asks for and
-- returns the quoted and escaped text.
pub new_json_lem :
    (g : Garbage) (ok : Outcomes) (s : Bytes)
    → All IsAscii s
    → 6 * length s + 3 < 2 ^ 64
    → ok 0 ≡ true
    → ok 1 ≡ true
    → new_json g ok (some s) ≡ some (some (quoted_json s))
unfolding new_json
new_json_lem g ok s h short ok0 ok1 =
    let counts : count_loop s 0 0 ≡ some (sum_of control_of s, sum_of escape_of s) =
      ground (arith, count_loop_lem s 0 0 h) in
    ap (build_json g ok s) counts ∙ build_json_lem g ok s h short ok0 ok1
