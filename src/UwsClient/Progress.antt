-- ===== src/UwsClient/Progress.antt =====
-- One round of the loop of src/uws_client.c, on any bytes.
use azure_c_shared_utility.Base.{
  ℕ, suc, ◌+◌, ◌*◌, ◌/◌, ◌%◌, ◌^◌, ◌<◌, ◌≤◌, ◌≡◌, ◌∙◌, sym, refl, inl, inr, Bool, true, false,
  Bool-cases, not, some, [], ◌∷◌, ◌++◌, ltb, ◌==◌, if◌then◌else◌, bit_and, Bytes, length,
  length-take, length-drop, take, drop, copy_out_lem, Exec, bind-inv, Option-cases, ◌&&◌,
  some-injective, absurd_none, arith,
}
use azure_c_shared_utility.UwsClient.{
  UwsState, uws_closed, uws_opening_underlying_io, uws_waiting_for_upgrade_response, uws_open,
  uws_closing_waiting_for_close, uws_closing_sending_close, uws_closing_underlying_io, uws_error,
  UwsClient, World, Round, round, open_bad_upgrade_response, open_bad_response_status,
  open_completed, ws_open_ok, sends, error_indicated, bad_frame_received, indicate_ws_error,
  indicate_ws_error_and_close, Length, more_needed, bad_length, payload_length,
  indicate_ws_open_complete_error_and_close,
}
use azure_c_shared_utility.UwsClient.Upgrade.{
  text_of, response_length, empty_line, starts_with, upgraded, upgrade_response,
  parse_http_response,
}
use azure_c_shared_utility.UwsClient.Receive.{
  consume, frame_at, frame_with, frame_from, frame_checked, receive_frame, receive_round,
}
use azure_c_shared_utility.UwsClient.Lengths.{
  parsed_16, parsed_64, parsed, frame_length-parsed, receive_frame-checked,
}
use azure_c_shared_utility.UwsClient.Encoded.{encoded_total}
use azure_c_shared_utility.UwsClient.Opens.{
  response_length-size, response_length-found, response_length-next,
}
use azure_c_shared_utility.UwsClient.Total.{process_frame-Returns}

-- A round of the loop that is followed by another has taken bytes from the stream buffer.
abbrev pub Progress : UwsClient → Exec Round → Type 0
Progress c r =
    (x : Round) × (r ≡ some x)
    × (length x.client.stream ≤ length c.stream)
    × (x.decode_stream ≡ true → length x.client.stream < length c.stream)

pub frame_at-Progress :
    (w : World) (c : UwsClient) (b0 header size : ℕ)
    → 0 < header
    → length c.stream < 2 ^ 63
    → Progress c (frame_at w c b0 header size)
unfolding frame_at
frame_at-Progress w c b0 header size some_bytes bound =
    elim (Bool-cases (ltb (length c.stream) (header + size))) [
      | inl short ↦ (round c [] false, rw short refl, omega arith, λ e. absurd (ground (arith, e)))
      | inr whole ↦
          let taken : length (take size (drop header c.stream)) < 2 ^ 63 =
            omega (
              arith,
              length-take size (drop header c.stream),
              length-drop header c.stream,
              bound,
            ) in
          let (r, e) =
            process_frame-Returns w c (bit_and b0 0x0F) (not (bit_and b0 0x80 == 0))
              (take size (drop header c.stream)) taken in
          let left = length-drop (header + size) c.stream in
          let fits : header + size ≤ length c.stream = ground (arith, whole) in
          let room : size ≤ length (drop header c.stream) =
            omega (arith, length-drop header c.stream, fits) in
          (
            consume (header + size) c.stream r,
            rw (whole, copy_out_lem (drop header c.stream) size room, e) refl,
            omega (arith, left),
            λ again. omega (arith, left, fits, some_bytes),
          )
    ]

-- A header has bytes.
abbrev Sized : Length → Type 0
Sized more_needed = Unit
Sized bad_length = Unit
Sized (payload_length header size) = 0 < header

pub if-Sized : (b : Bool) (x y : Length) → Sized x → Sized y → Sized (if b then x else y)
if-Sized true x y sx sy = sx
if-Sized false x y sx sy = sy

pub parsed_16-Sized : (s : Bytes) → Sized (parsed_16 s)
parsed_16-Sized [] = _
parsed_16-Sized (b2 ∷ []) = _
parsed_16-Sized (b2 ∷ b3 ∷ s) =
    if-Sized (ltb (b2 * 256 + b3) 126) bad_length (payload_length 4 (b2 * 256 + b3)) _ (omega arith)

pub parsed_64-Sized : (s : Bytes) → Sized (parsed_64 s)
parsed_64-Sized [] = _
parsed_64-Sized (b2 ∷ []) = _
parsed_64-Sized (b2 ∷ b3 ∷ []) = _
parsed_64-Sized (b2 ∷ b3 ∷ b4 ∷ []) = _
parsed_64-Sized (b2 ∷ b3 ∷ b4 ∷ b5 ∷ []) = _
parsed_64-Sized (b2 ∷ b3 ∷ b4 ∷ b5 ∷ b6 ∷ []) = _
parsed_64-Sized (b2 ∷ b3 ∷ b4 ∷ b5 ∷ b6 ∷ b7 ∷ []) = _
parsed_64-Sized (b2 ∷ b3 ∷ b4 ∷ b5 ∷ b6 ∷ b7 ∷ b8 ∷ []) = _
parsed_64-Sized (b2 ∷ b3 ∷ b4 ∷ b5 ∷ b6 ∷ b7 ∷ b8 ∷ b9 ∷ s) =
    if-Sized (bit_and b2 0x80 == 0) _ _
      (if-Sized _ bad_length (payload_length 10 _) _ (omega arith)) _

pub parsed-Sized : (s : Bytes) → Sized (parsed s)
parsed-Sized [] = _
parsed-Sized (b0 ∷ []) = _
parsed-Sized (b0 ∷ b1 ∷ s) =
    if-Sized (b1 == 126) _ _ (parsed_16-Sized s)
      (if-Sized (b1 == 127) _ _ (parsed_64-Sized s) (omega arith))

pub frame_with-Progress :
    (w : World) (c : UwsClient) (b0 : ℕ) (l : Length)
    → Sized l
    → length c.stream < 2 ^ 63
    → Progress c (frame_with w c b0 l)
unfolding frame_with indicate_ws_error
frame_with-Progress w c b0 more_needed sized bound =
    (_, refl, omega arith, λ e. absurd (ground (arith, e)))
frame_with-Progress w c b0 bad_length sized bound =
    (_, refl, omega arith, λ e. absurd (ground (arith, e)))
frame_with-Progress w c b0 (payload_length header size) sized bound =
    frame_at-Progress w c b0 header size sized bound

frame_checked-Progress :
    (w : World) (c : UwsClient) (b0 b1 : ℕ) (s : Bytes)
    → length c.stream < 2 ^ 63
    → Progress c (frame_checked w c (b0 ∷ b1 ∷ s) b0 b1)
unfolding frame_checked frame_from indicate_ws_error_and_close
frame_checked-Progress w c b0 b1 s bound =
    let sized = frame_length-parsed b0 b1 s in
    elim (Bool-cases (bit_and b1 0x80 == 0)) [
      | inl plain ↦
          rw (plain, sized)
            (frame_with-Progress w c b0 (parsed (b0 ∷ b1 ∷ s)) (parsed-Sized (b0 ∷ b1 ∷ s)) bound)
      | inr marked ↦
          let (f, e) =
            encoded_total w c.clock 8 (1002 / 256 % 256 ∷ bit_and 1002 0xFF ∷ []) (omega arith)
              (omega arith) in
          let d : UwsClient = record c { uws_state = uws_error; clock = c.clock + 1 } in
          let (r, again, less, strict) =
            frame_with-Progress w d b0 (parsed (b0 ∷ b1 ∷ s)) (parsed-Sized (b0 ∷ b1 ∷ s)) bound in
          let events = sends f ++ (error_indicated bad_frame_received ∷ []) in
          (
            round r.client (events ++ r.events) r.decode_stream,
            rw (marked, e, sized, again) refl,
            less,
            strict,
          )
    ]

pub receive_frame-Progress :
    (w : World) (c : UwsClient) (s : Bytes)
    → length c.stream < 2 ^ 63
    → Progress c (receive_frame w c s)
unfolding receive_frame
receive_frame-Progress w c [] bound = (_, refl, omega arith, λ e. absurd (ground (arith, e)))
receive_frame-Progress w c (b0 ∷ []) bound = (_, refl, omega arith, λ e. absurd (ground (arith, e)))
receive_frame-Progress w c (b0 ∷ b1 ∷ s) bound =
    coe 1 0 (i. Progress c (receive_frame-checked w c b0 b1 s i))
      (frame_checked-Progress w c b0 b1 s bound)

text_of-size : (s : Bytes) → length (text_of s) ≤ length s
text_of-size [] = omega arith
text_of-size (c ∷ s) = elim (Bool-cases (c == 0)) [
  | inl stop ↦ rw (stop, text_of) (omega arith)
  | inr more ↦ rw (more, text_of) (omega (arith, text_of-size s))
]

response_length-bound : (s : Bytes) (n : ℕ) → response_length s ≡ some n → 4 ≤ n
unfolding response_length
response_length-bound [] n e = absurd_none e
response_length-bound (c ∷ s) n e = elim (Bool-cases (starts_with empty_line (c ∷ s))) [
  | inl hit ↦
      let same = some-injective (sym (response_length-found c s hit) ∙ e) in omega (arith, same)
  | inr miss ↦
      let (m, found, same) =
        bind-inv (λ (k : ℕ). some (suc k)) (response_length s) n
          (sym (response_length-next c s miss) ∙ e) in
      let rest = response_length-bound s m found in
      let one = some-injective same in omega (arith, rest, one)
]

pub upgraded-Progress :
    (w : World) (c : UwsClient) (n : ℕ)
    → 4 ≤ n
    → 4 ≤ length c.stream
    → Progress c (some (upgraded w c n))
unfolding upgraded indicate_ws_open_complete_error_and_close
upgraded-Progress w c n some_bytes enough =
    elim (Option-cases (parse_http_response w (text_of c.stream))) [
      | inl bad ↦ (
        indicate_ws_open_complete_error_and_close c open_bad_upgrade_response,
        rw (bad, upgraded) refl,
        omega arith,
        λ e. absurd (ground (arith, e)),
      )
      | inr (code, e) ↦ elim (Bool-cases (not code.0 && code.1 == 101)) [
        | inl good ↦
            let left = length-drop n c.stream in
            (
              round
                  (record c { uws_state = uws_open; stream = drop n c.stream; clock = c.clock + 1 })
                  (open_completed ws_open_ok ∷ []) true,
              rw (e, good, upgraded) refl,
              omega (arith, left),
              λ again. omega (arith, left, some_bytes, enough),
            )
        | inr other ↦ (
          indicate_ws_open_complete_error_and_close c
              (open_bad_response_status code.0 code.1 c.stream),
          rw (e, other, upgraded) refl,
          omega arith,
          λ again. absurd (ground (arith, again)),
        )
      ]
    ]

pub upgrade-Progress : (w : World) (c : UwsClient) → Progress c (some (upgrade_response w c))
unfolding upgrade_response
upgrade-Progress w c = elim (Option-cases (response_length (text_of c.stream))) [
  | inl missing ↦ (
    round c [] false,
    rw (missing, upgrade_response) refl,
    omega arith,
    λ e. absurd (ground (arith, e)),
  )
  | inr (n, found) ↦
      let size = response_length-size (text_of c.stream) n found in
      let whole = text_of-size c.stream in
      let (r, e, less, strict) =
        upgraded-Progress w c n (response_length-bound (text_of c.stream) n found)
          (omega (arith, size, whole)) in
      (r, rw (found, upgrade_response) e, less, strict)
]

pub receive_round-Progress :
    (w : World) (c : UwsClient) (s : UwsState)
    → length c.stream < 2 ^ 63
    → Progress c (receive_round w c s)
unfolding receive_round indicate_ws_open_complete_error_and_close
receive_round-Progress w c uws_opening_underlying_io bound =
    (_, refl, omega arith, λ e. absurd (ground (arith, e)))
receive_round-Progress w c uws_waiting_for_upgrade_response bound = upgrade-Progress w c
receive_round-Progress w c uws_open bound = receive_frame-Progress w c c.stream bound
receive_round-Progress w c uws_closing_waiting_for_close bound =
    receive_frame-Progress w c c.stream bound
receive_round-Progress w c uws_closed bound =
    (_, refl, omega arith, λ e. absurd (ground (arith, e)))
receive_round-Progress w c uws_closing_sending_close bound =
    (_, refl, omega arith, λ e. absurd (ground (arith, e)))
receive_round-Progress w c uws_closing_underlying_io bound =
    (_, refl, omega arith, λ e. absurd (ground (arith, e)))
receive_round-Progress w c uws_error bound = (_, refl, omega arith, λ e. absurd (ground (arith, e)))
