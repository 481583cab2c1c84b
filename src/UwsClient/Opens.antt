-- ===== src/UwsClient/Opens.antt =====
-- src/uws_client.c: the upgrade response, and the messages that come with it.
use azure_c_shared_utility.Base.{
  ℕ, suc, ◌+◌, ◌≤◌, ◌≡◌, ◌∙◌, sym, ap, refl, inl, inr, true, false, Bool-cases, some, List, [], ◌∷◌,
  ◌++◌, ◌==◌, Bytes, length, length-append, drop_append, drop, All, ◌>>=◌, bind-inv, absurd_none,
  arith,
}
use azure_c_shared_utility.UwsClient.{
  uws_open, uws_waiting_for_upgrade_response, UwsClient, World, round, open_completed, ws_open_ok,
}
use azure_c_shared_utility.UwsClient.Upgrade.{
  text_of, starts_with, empty_line, response_length, parse_http_response, upgraded,
  upgrade_response,
}
use azure_c_shared_utility.UwsClient.Blocks.{add_to_stream_lem}
use azure_c_shared_utility.UwsClient.Receive.{
  receive_round, receive_loop, append_bytes, bytes_in_state, on_bytes_received,
}
use azure_c_shared_utility.UwsClient.Messages.{Message, IsMessage, wire, received}
use azure_c_shared_utility.UwsClient.Drains.{Idle}
use azure_c_shared_utility.UwsClient.Runs.{Receives, loop-Receives}

abbrev pub IsText : Bytes → Type 0
IsText s = All (λ c. (c == 0) ≡ false) s

text_of-append : (s t : Bytes) → IsText s → text_of (s ++ t) ≡ s ++ text_of t
text_of-append [] t h = refl
text_of-append (c ∷ s) t (hc, h) = rw (hc, text_of) (ap (λ u. c ∷ u) (text_of-append s t h))

starts_with-append :
    (prefix s t : Bytes)
    → length prefix ≤ length s
    → starts_with prefix (s ++ t) ≡ starts_with prefix s
starts_with-append [] s t h = refl
starts_with-append (p ∷ prefix) [] t h = absurd (omega arith)
starts_with-append (p ∷ prefix) (c ∷ s) t h = rw (starts_with-append prefix s t (omega arith)) refl

starts_with-size : (prefix s : Bytes) → starts_with prefix s ≡ true → length prefix ≤ length s
starts_with-size [] s h = omega arith
starts_with-size (p ∷ prefix) [] h = absurd (ground arith)
starts_with-size (p ∷ prefix) (c ∷ s) h =
    let rest = starts_with-size prefix s (ground (arith, h)) in omega (arith, rest)

pub response_length-found :
    (c : ℕ) (s : Bytes) → starts_with empty_line (c ∷ s) ≡ true → response_length (c ∷ s) ≡ some 4
unfolding response_length
response_length-found c s hit = rw (hit, response_length) refl

pub response_length-next :
    (c : ℕ) (s : Bytes)
    → starts_with empty_line (c ∷ s) ≡ false
    → response_length (c ∷ s) ≡ (response_length s >>= λ k. some (suc k))
unfolding response_length
response_length-next c s miss = rw (miss, response_length) refl

pub response_length-size : (s : Bytes) (n : ℕ) → response_length s ≡ some n → 4 ≤ length s
unfolding response_length
response_length-size [] n e = absurd_none e
response_length-size (c ∷ s) n e = elim (Bool-cases (starts_with empty_line (c ∷ s))) [
  | inl hit ↦ starts_with-size empty_line (c ∷ s) hit
  | inr miss ↦
      let (m, found, same) =
        bind-inv (λ (k : ℕ). some (suc k)) (response_length s) n
          (sym (response_length-next c s miss) ∙ e) in
      let rest = response_length-size s m found in omega (arith, rest)
]

response_length-append :
    (s t : Bytes) (n : ℕ) → response_length s ≡ some n → response_length (s ++ t) ≡ some n
unfolding response_length
response_length-append [] t n e = absurd_none e
response_length-append (c ∷ s) t n e =
    let alike = starts_with-append empty_line (c ∷ s) t (response_length-size (c ∷ s) n e) in
    elim (Bool-cases (starts_with empty_line (c ∷ s))) [
      | inl hit ↦
          response_length-found c (s ++ t) (alike ∙ hit) ∙ sym (response_length-found c s hit) ∙ e
      | inr miss ↦
          let (m, found, same) =
            bind-inv (λ (k : ℕ). some (suc k)) (response_length s) n
              (sym (response_length-next c s miss) ∙ e) in
          response_length-next c (s ++ t) (alike ∙ miss)
          ∙ ap (λ o. o >>= λ k. some (suc k)) (response_length-append s t m found)
          ∙ same
    ]

upgrade_response_lem :
    (w : World) (c : UwsClient) (n : ℕ)
    → response_length (text_of c.stream) ≡ some n
    → parse_http_response w (text_of c.stream) ≡ some (false, 101)
    → upgrade_response w c
      ≡ round
          (record c { uws_state = uws_open; stream = drop n c.stream; clock = c.clock + 1 })
          (open_completed ws_open_ok ∷ [])
          true
unfolding upgrade_response upgraded
upgrade_response_lem w c n found status = rw (found, upgrade_response, status, upgraded) refl

-- on_underlying_io_bytes_received of a client that waits for the upgrade response, with an empty
-- stream buffer, on a response without NUL that ends with its first empty line, and on any messages
-- behind it in the same bytes, as on_underlying_io_bytes_received of an open client gets them: if the
-- status read from the bytes is 101 and each realloc succeeds, it ends, keeps to its blocks and calls
-- on_ws_open_complete with WS_OPEN_OK and then on_ws_frame_received once for each message, in order,
-- with its type and content; the client is then open and between two messages.
pub on_bytes_received-opens :
    (w : World) (c : UwsClient) (response : Bytes) (ms : List Message)
    → ((n : ℕ) → w.got n ≡ true)
    → Idle uws_waiting_for_upgrade_response c
    → c.stream ≡ []
    → IsText response
    → response_length response ≡ some (length response)
    → parse_http_response w (text_of (response ++ wire ms)) ≡ some (false, 101)
    → All IsMessage ms
    → Receives uws_open
        (on_bytes_received w c (response ++ wire ms))
        (open_completed ws_open_ok ∷ received ms)
unfolding on_bytes_received bytes_in_state append_bytes receive_loop receive_round Receives
on_bytes_received-opens w c response ms memory idle empty is_text ends status known =
    let bytes : Bytes = response ++ wire ms in
    let size = response_length-size response (length response) ends in
    let total = length-append response (wire ms) in
    let given : (length bytes == 0) ≡ false = ground (arith, size, total) in
    let fuel : length bytes + 1 ≡ suc (length bytes) = omega arith in
    let found : response_length (text_of bytes) ≡ some (length response) =
      ap response_length (text_of-append response (wire ms) is_text)
      ∙ response_length-append response (text_of (wire ms)) (length response) ends in
    let d : UwsClient = record c {
      uws_state = uws_open;
      stream = drop (length response) bytes;
      clock = c.clock + 1 + 1;
    } in
    let at : Idle uws_open d = record {
      at_state = refl;
      no_fragments = idle.no_fragments;
      no_type = idle.no_type;
    } in
    let e : UwsClient = record c { stream = bytes; clock = c.clock + 1 } in
    let opened = upgrade_response_lem w e (length response) found status in
    let left =
      loop-Receives w uws_open (length bytes) d ms refl memory at known
        (drop_append response (wire ms)) (omega (arith, size, total)) in
    (
      left.0,
      rw
          (
            given,
            idle.at_state,
            bytes_in_state,
            append_bytes,
            memory c.clock,
            empty,
            add_to_stream_lem (w.garbage c.clock) [] bytes,
            fuel,
            receive_loop,
            idle.at_state,
            receive_round,
            opened,
            left.1,
          )
          refl,
      left.2,
      left.3,
    )
