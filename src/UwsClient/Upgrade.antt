-- ===== src/UwsClient/Upgrade.antt =====
-- src/uws_client.c: the response to the upgrade request.
use azure_c_shared_utility.Base.{
  ltb, ◌-◌, ◌%◌, ◌^◌, ℕ, suc, ◌+◌, Bool, true, false, not, ◌&&◌, Option, none, some, [], ◌∷◌, ◌==◌,
  if◌then◌else◌, Bytes, codes, drop, ◌>>=◌,
}
use azure_c_shared_utility.UwsClient.{
  uws_open, ws_open_ok, open_bad_upgrade_response, open_bad_response_status, open_completed,
  UwsClient, World, Round, round, indicate_ws_open_complete_error_and_close,
}

-- The text in front of its first 0.
abbrev pub text_of : Bytes → Bytes
text_of [] = []
text_of (c ∷ s) = elim (c == 0) [ true ↦ [] | false ↦ c ∷ text_of s ]

abbrev pub starts_with : Bytes → Bytes → Bool
starts_with [] s = true
starts_with (p ∷ prefix) [] = false
starts_with (p ∷ prefix) (c ∷ s) = (p == c) && starts_with prefix s

abbrev pub empty_line : Bytes
empty_line = 13 ∷ 10 ∷ 13 ∷ 10 ∷ []

-- strstr of the empty line: how many bytes the response has.
unfoldable pub response_length : Bytes → Option ℕ
response_length [] = none
response_length (c ∷ s) = elim (starts_with empty_line (c ∷ s)) [
  | true ↦ some 4
  | false ↦ do n ← response_length s; some (suc n)
]

-- The text from the first character that is `stop`.
unfoldable pub skip_to : (stop : ℕ) → Bytes → Option Bytes
skip_to stop [] = none
skip_to stop (c ∷ s) = elim (c == stop) [ true ↦ some (c ∷ s) | false ↦ skip_to stop s ]

-- The conversion of a long to a 32-bit int, as a sign and a magnitude.
unfoldable pub to_int : Bool × ℕ → Bool × ℕ
to_int (negative, n) =
    let bits = if negative then (2 ^ 32 - n % 2 ^ 32) % 2 ^ 32 else n % 2 ^ 32 in
    if ltb bits (2 ^ 31) then (false, bits) else (true, 2 ^ 32 - bits)

-- INT_MAX or INT_MIN.
unfoldable pub is_int_limit : Bool × ℕ → Bool
is_int_limit (negative, n) = n == (if negative then 2 ^ 31 else 2 ^ 31 - 1)

-- ParseStringToDecimal: the number, if one was read and it is not out of range.
unfoldable pub parse_string_to_decimal : World → Bytes → Option (Bool × ℕ)
unfolding to_int is_int_limit
parse_string_to_decimal w src = do
  parsed ← w.strtol src
  if is_int_limit (to_int parsed.0) && parsed.1 then none else some (to_int parsed.0)

-- ParseHttpResponse of a text: the status code.
unfoldable pub parse_http_response : World → Bytes → Option (Bool × ℕ)
parse_http_response w src =
    if starts_with (codes "HTTP/") src
    then (do
      version ← skip_to 46 (drop 5 src)
      code ← skip_to 32 version
      parse_string_to_decimal w code)
    else none

-- The response is there; `n` is its length.
unfoldable pub upgraded : World → UwsClient → ℕ → Round
upgraded w c n = elim (parse_http_response w (text_of c.stream)) [
  | none ↦ indicate_ws_open_complete_error_and_close c open_bad_upgrade_response
  | some code ↦
      if not code.0 && code.1 == 101
      then round (record c { uws_state = uws_open; stream = drop n c.stream; clock = c.clock + 1 })
          (open_completed ws_open_ok ∷ []) true
      else indicate_ws_open_complete_error_and_close c
          (open_bad_response_status code.0 code.1 c.stream)
]

-- The case of UWS_STATE_WAITING_FOR_UPGRADE_RESPONSE in the loop.
unfoldable pub upgrade_response : World → UwsClient → Round
upgrade_response w c = elim (response_length (text_of c.stream)) [
  | none ↦ round c [] false
  | some n ↦ upgraded w c n
]
