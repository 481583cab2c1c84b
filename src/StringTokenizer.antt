-- ===== src/StringTokenizer.antt =====
-- src/string_tokenizer.c: the text of a tokenizer without its terminator, and the index of currentPos.
pub mod Laws
mod Tests
use azure_c_shared_utility.Base.{
  ℕ, suc, ◌+◌, ◌-◌, Bool, true, false, ◌&&◌, Option, none, some, [], ◌∷◌, ltb, ◌==◌, if◌then◌else◌,
  Bytes, length, drop, Outcomes, Exec, ◌>>=◌,
}
use azure_c_shared_utility.Strings.{Status, success, failure}
use azure_c_shared_utility.Strings

pub record StringToken : Type 0 where
  pub input : Bytes
  pub position : ℕ

unfoldable pub create_from_char : Outcomes → Option Bytes → Option StringToken
create_from_char got none = none
create_from_char got (some input) =
    if got 0 && got 1 then some (record { input = input; position = 0 }) else none

unfoldable pub create : Outcomes → Strings.Text → Option StringToken
create got none = none
create got (some text) = create_from_char got (Strings.c_str (some text))

-- The loop over the delimiters.
unfoldable pub is_delimiter : Bytes → ℕ → Bool
is_delimiter [] c = false
is_delimiter (d ∷ delimiters) c = elim (c == d) [ true ↦ true | false ↦ is_delimiter delimiters c ]

-- How many characters at the start of the text are delimiters.
unfoldable pub skip : Bytes → Bytes → ℕ
skip delimiters [] = 0
skip delimiters (c ∷ s) = elim (is_delimiter delimiters c) [
  | true ↦ suc (skip delimiters s)
  | false ↦ 0
]

-- strchr: the index of the first such character.
unfoldable pub strchr : Bytes → ℕ → Option ℕ
strchr [] d = none
strchr (c ∷ s) d = elim (c == d) [ true ↦ some 0 | false ↦ do i ← strchr s d; some (suc i) ]

-- The first delimiter that the text has anywhere, and where.
unfoldable pub end_of_token : Bytes → Bytes → Option ℕ
end_of_token [] s = none
end_of_token (d ∷ delimiters) s = elim (strchr s d) [
  | none ↦ end_of_token delimiters s
  | some i ↦ some i
]

pub record TokenResult : Type 0 where
  pub status : Status
  pub token : StringToken
  pub output : Strings.Text

-- The characters to copy, and those to step over.
unfoldable pub amount_of : Option ℕ → (remaining : ℕ) → ℕ
amount_of none remaining = remaining
amount_of (some i) remaining = i

unfoldable pub step_of : Option ℕ → (remaining : ℕ) → ℕ
step_of none remaining = remaining
step_of (some i) remaining = i + 1

unfoldable pub copied : StringToken → (step : ℕ) → Status × Strings.Text → TokenResult
copied t step (success, output) = record {
  status = success;
  token = record t { position = t.position + step };
  output = output;
}
copied t step (failure, output) = record { status = failure; token = t; output = output }

-- From the start of a token on.
unfoldable pub copy_token :
    Outcomes → StringToken → Strings.Text → (delimiters rest : Bytes) → TokenResult
copy_token got t output delimiters rest =
    let found = end_of_token delimiters rest in
    copied t (step_of found (length rest))
      (Strings.copy_n got output (some rest) (amount_of found (length rest)))

unfoldable pub get_next_token :
    Outcomes → StringToken → (output : Strings.Text) → (delimiters : Option Bytes) → TokenResult
get_next_token got t output none = record { status = failure; token = t; output = output }
get_next_token got t none (some delimiters) = record { status = failure; token = t; output = none }
get_next_token got t (some old) (some delimiters) =
    let rest = drop t.position t.input in
    if length rest == 0
    then record { status = failure; token = t; output = some old }
    else if length delimiters == 0
    then record { status = failure; token = t; output = some old }
    else (let i = skip delimiters rest in
        let started = record t { position = t.position + i } in
        if length rest - i == 0
        then record { status = failure; token = started; output = some old }
        else copy_token got started (some old) delimiters (drop i rest))
