-- ===== src/Strings.antt =====
-- src/strings.c: strings behind a handle. A handle is an `Option`, `none` for NULL, of the text
-- that `s` points to, up to its terminator. The blocks behind the texts are modelled where their
-- size is computed from the content, in `Strings.Json`; elsewhere the code asks for the length of
-- the new text and one byte more. The formatted prints and STRING_compare call the C library for
-- all they do and are left out.
pub mod Json
mod Tests
use azure_c_shared_utility.Base.{
  ℕ, ◌+◌, ◌-◌, Bool, true, false, Option, none, some, [], ◌∷◌, ◌++◌, ltb, ◌==◌, if◌then◌else◌,
  Bytes, length, take, Outcomes, Exec, ◌>>=◌, copy_out, c_string,
}

-- `failure` is any nonzero result.
pub data Status : Type 0 where
  success failure : Status

abbrev pub Text : Type 0
Text = Option Bytes

-- Two requests, for the STRING and for its characters.
abbrev pub two : Outcomes → Bytes → Text
two ok s = if ok 0 then (if ok 1 then some s else none) else none

unfoldable pub new : Outcomes → Text
new ok = two ok []

unfoldable pub clone : Outcomes → Text → Text
clone ok none = none
clone ok (some s) = two ok s

unfoldable pub construct : Outcomes → Option Bytes → Text
construct ok none = none
construct ok (some psz) = two ok psz

-- The memory that is handed over holds a terminated text.
unfoldable pub new_with_memory : Outcomes → Option Bytes → Text
new_with_memory ok none = none
new_with_memory ok (some memory) = if ok 0 then some (c_string memory) else none

unfoldable pub new_quoted : Outcomes → Option Bytes → Text
new_quoted ok none = none
new_quoted ok (some source) = two ok ((b'"' ∷ source) ++ (b'"' ∷ []))

unfoldable pub construct_n : Outcomes → Option Bytes → ℕ → Text
construct_n ok none n = none
construct_n ok (some psz) n = if ltb (length psz) n then none else two ok (take n psz)

-- A zero byte of the source ends the text.
from_bytes : Outcomes → Bytes → ℕ → Exec Text
from_bytes ok source size =
    if ok 0
    then (if ok 1 then (do read ← copy_out source size; some (some (c_string read))) else some none)
    else some none

unfoldable pub from_byte_array : Outcomes → Option Bytes → ℕ → Exec Text
unfolding from_bytes
from_byte_array ok none size = if ltb 0 size then some none else from_bytes ok [] size
from_byte_array ok (some source) size = from_bytes ok source size

-- A changed text, if the request for its memory succeeds.
abbrev pub changed : Outcomes → Bytes → Bytes → Status × Text
changed ok old s = if ok 0 then (success, some s) else (failure, some old)

unfoldable pub concat : Outcomes → Text → Option Bytes → Status × Text
concat ok none s2 = (failure, none)
concat ok (some s1) none = (failure, some s1)
concat ok (some s1) (some s2) = changed ok s1 (s1 ++ s2)

unfoldable pub concat_with_string : Outcomes → Text → Text → Status × Text
concat_with_string ok none s2 = (failure, none)
concat_with_string ok (some s1) none = (failure, some s1)
concat_with_string ok (some s1) (some s2) = changed ok s1 (s1 ++ s2)

-- `same` says whether the source is the string's own memory.
unfoldable pub copy : Outcomes → Bool → Text → Option Bytes → Status × Text
copy ok same none s2 = (failure, none)
copy ok same (some s1) none = (failure, some s1)
copy ok same (some s1) (some s2) = if same then (success, some s1) else changed ok s1 s2

unfoldable pub copy_n : Outcomes → Text → Option Bytes → ℕ → Status × Text
copy_n ok none s2 n = (failure, none)
copy_n ok (some s1) none n = (failure, some s1)
copy_n ok (some s1) (some s2) n =
    changed ok s1 (take (if ltb n (length s2) then n else length s2) s2)

unfoldable pub quote : Outcomes → Text → Status × Text
quote ok none = (failure, none)
quote ok (some s) = changed ok s (b'"' ∷ (s ++ (b'"' ∷ [])))

unfoldable pub empty : Outcomes → Text → Status × Text
empty ok none = (failure, none)
empty ok (some s) = changed ok s []

unfoldable pub c_str : Text → Option Bytes
c_str handle = handle

unfoldable pub string_length : Text → ℕ
string_length none = 0
string_length (some s) = length s

replace_loop : ℕ → ℕ → Bytes → Bytes
replace_loop target by [] = []
replace_loop target by (c ∷ s) = (if c == target then by else c) ∷ replace_loop target by s

-- A replacement by zero bytes ends the text at the first of them.
unfoldable pub replace : Text → ℕ → ℕ → Status × Text
unfolding replace_loop
replace none target by = (failure, none)
replace (some s) target by =
    if target == by
    then (success, some s)
    else (success, some (c_string (replace_loop target by s)))
