-- ===== src/UwsClient/Request/Text.antt =====
-- The text of the upgrade request of src/uws_client.c, and that it is what is prepared.
use azure_c_shared_utility.Base.{
  ℕ, suc, ◌+◌, ◌%◌, ◌^◌, ◌<◌, ◌≡◌, ◌∙◌, ap, sym, refl, Bool, true, false, ◌&&◌, Option, none, some,
  List, [], ◌∷◌, ◌++◌, append_assoc, append-nil, ltb, ◌==◌, if◌then◌else◌, Bool-cases, inl, inr,
  All, IsByte, Bytes, codes, length, length-append, Garbage, Outcomes, fresh, fresh-All,
  length-fresh, size_max, write_all-Holds, terminate_lem, join, join_append, arith,
}
use azure_c_shared_utility.Base64
use azure_c_shared_utility.Base64.Laws.{encode_internal_lem}
use azure_c_shared_utility.HostUtils.Spec.{authority}
use azure_c_shared_utility.UwsClient.{
  open_not_enough_memory, open_base64_failed, open_constructing_request,
}
use azure_c_shared_utility.UwsClient.Session.Calls.{Prepared, prepared, not_prepared}
use azure_c_shared_utility.UwsClient.Request.{
  Target, headers_length, header_parts, get_request_headers, line_end, port_length, has_protocol,
  protocol_parts, protocols_of, parts_after_port, separator, nonce_bytes, prepare_request,
}
use azure_c_shared_utility.UwsClient.Request.Sizes.{
  headers_length_lem, Printed, port_length-Printed,
}
use azure_c_shared_utility.UwsClient.Request.Laws.{
  before_port, needed, outcome, upgrade_request_lem,
}

-- The text of an upgrade request, line by line.
unfoldable pub more_protocols : List Bytes → Bytes
more_protocols [] = []
more_protocols (p ∷ ps) = codes ", " ++ (p ++ more_protocols ps)

unfoldable pub protocol_line : Option (List Bytes) → Bytes
protocol_line none = []
protocol_line (some []) = []
protocol_line (some (p ∷ ps)) =
    codes "Sec-WebSocket-Protocol: " ++ (p ++ (more_protocols ps ++ line_end))

unfoldable pub header_lines : List (Bytes × Bytes) → Bytes
header_lines [] = []
header_lines (h ∷ hs) = h.0 ++ (codes ": " ++ (h.1 ++ (line_end ++ header_lines hs)))

unfoldable pub request_text : Target → (port_text nonce : Bytes) → Bytes
request_text t port_text nonce =
    codes "GET "
    ++ (t.resource_name
        ++ (codes " HTTP/1.1"
            ++ (line_end
                ++ (codes "Host: "
                    ++ (authority t.hostname
                        ++ (codes ":"
                            ++ (port_text
                                ++ (line_end
                                    ++ (codes "Upgrade: websocket"
                                        ++ (line_end
                                            ++ (codes "Connection: Upgrade"
                                                ++ (line_end
                                                    ++ (codes "Sec-WebSocket-Key: "
                                                        ++ (nonce
                                                            ++ (line_end
                                                            ++ (codes "Sec-WebSocket-Version: 13"
                                                            ++ (line_end
                                                            ++ (header_lines t.request_headers
                                                            ++ (protocol_line t.protocols
                                                            ++ line_end)))))))))))))))))))

join-header_parts : (hs : List (Bytes × Bytes)) → join (header_parts hs) ≡ header_lines hs
unfolding header_parts header_lines
join-header_parts [] = refl
join-header_parts (h ∷ hs) = rw (join-header_parts hs) refl

join-more_protocols :
    (ps : List Bytes) → join (protocol_parts false ps) ≡ more_protocols ps ++ line_end
unfolding protocol_parts more_protocols
join-more_protocols [] = refl
join-more_protocols (p ∷ ps) =
    ap (λ s. codes ", " ++ (p ++ s)) (join-more_protocols ps)
    ∙ ap (λ s. codes ", " ++ s) (sym (append_assoc p (more_protocols ps) line_end))

join-protocols :
    (protocols : Option (List Bytes))
    → join (
        (if has_protocol protocols then protocol_parts true (protocols_of protocols) else [])
        ++ (line_end ∷ []))
      ≡ protocol_line protocols ++ line_end
unfolding has_protocol protocol_parts protocol_line
join-protocols none = refl
join-protocols (some []) = refl
join-protocols (some (p ∷ ps)) =
    let there : ltb 0 (suc (length ps)) ≡ true = ground arith in
    rw there (
      join_append (separator true ∷ p ∷ protocol_parts false ps) (line_end ∷ [])
      ∙ ap (λ s. (codes "Sec-WebSocket-Protocol: " ++ (p ++ s)) ++ line_end)
          (join-more_protocols ps))

whole_text :
    (t : Target) (port_text nonce : Bytes)
    → (before_port t ++ port_text)
        ++ join (parts_after_port t nonce (header_lines t.request_headers))
      ≡ request_text t port_text nonce
unfolding parts_after_port request_text
whole_text t port_text nonce =
    rw (join-protocols t.protocols) (simp (append_assoc, append-nil) refl)

get_request_headers_lem :
    (g : Garbage) (got : Bool) (hs : List (Bytes × Bytes))
    → length (header_lines hs) + 1 < 2 ^ 64
    → get_request_headers g got hs ≡ some (if got then some (header_lines hs) else none)
unfolding get_request_headers
get_request_headers_lem g got hs bound = elim (Bool-cases got) [
  | inr lost ↦ rw lost refl
  | inl had ↦
      let n = length (header_lines hs) in
      let same = ap (length {0}) (join-header_parts hs) in
      let size : (headers_length 0 hs + 1) % 2 ^ 64 ≡ n + 1 =
        omega (arith, headers_length_lem 0 hs (omega (arith, same)), same) in
      let (rest, e, l) =
        write_all-Holds (header_parts hs) [] (fresh g (n + 1)) 1
          (omega (arith, length-fresh g (n + 1), same)) in
      let (block, ended, text) = terminate_lem (join (header_parts hs)) rest (omega (arith, l)) in
      rw (had, size, e, ended, text, join-header_parts hs) refl
]

nonce-IsByte : (rand : ℕ → ℕ) → All IsByte (nonce_bytes rand)
nonce-IsByte rand = fresh-All IsByte (λ i. rand i % 256) 16 (λ i. omega arith)

encode_nonce :
    (g : Garbage) (got : Outcomes) (rand : ℕ → ℕ)
    → Base64.encode_bytes g got (some (nonce_bytes rand))
      ≡ some (if got 0 && got 1 then some (Base64.encode_from (nonce_bytes rand)) else none)
unfolding Base64.encode_bytes
encode_nonce g got rand =
    let size = length-fresh (λ i. rand i % 256) 16 in
    let some_bytes : (length (nonce_bytes rand) == 0) ≡ false = ground (arith, size) in
    rw some_bytes
      (encode_internal_lem g got (nonce_bytes rand) (nonce-IsByte rand) (omega (arith, size)))

-- What is prepared once the nonce and the headers are there.
abbrev pub request_or_error : Target → (got : Bool) → (port_text nonce : Bytes) → Prepared
request_or_error t got port_text nonce =
    if ltb (length (request_text t port_text nonce) + 1) size_max
    then (if got
        then prepared (request_text t port_text nonce)
        else not_prepared open_not_enough_memory)
    else not_prepared open_constructing_request

outcome_lem :
    (t : Target) (got : Bool) (port_text nonce : Bytes)
    → port_length t.port_negative t.port ≡ length port_text
    → outcome t got (some port_text) nonce (header_lines t.request_headers)
      ≡ request_or_error t got port_text nonce
unfolding outcome
outcome_lem t got port_text nonce printed =
    let parts = join (parts_after_port t nonce (header_lines t.request_headers)) in
    let size : needed t nonce (header_lines t.request_headers)
        ≡ length (request_text t port_text nonce) =
      omega (
        arith,
        printed,
        ap (length {0}) (whole_text t port_text nonce),
        length-append {0} (before_port t ++ port_text) parts,
        length-append {0} (before_port t) port_text,
      ) in
    let counted : (length port_text == port_length t.port_negative t.port) ≡ true =
      ground (arith, printed) in
    rw (size, counted, whole_text t port_text nonce) refl

-- What on_underlying_io_open_complete does between IO_OPEN_OK and xio_send, for any host, resource
-- name, port of at most ten digits, protocols and headers whose texts fit a size_t, any random numbers and any
-- outcome of each malloc, with an snprintf that prints the port as a decimal numeral, behind a minus
-- sign if it is negative: it ends and keeps to its blocks, and xio_send is given exactly the text of the
-- request, line by line, with the host as HostUtils.Spec states it and the base64 text of the
-- nonce. It reports an error, the one of the first step that fails, if a malloc fails or if
-- the request does not fit a size_t.
pub prepare_request-text :
    (t : Target) (g : Garbage) (got : Outcomes) (rand : ℕ → ℕ)
    (text_of_int : Bool → ℕ → Option Bytes) (port_text : Bytes)
    → length t.hostname + 2 < size_max
    → length (header_lines t.request_headers) + 1 < 2 ^ 64
    → t.port < 10 ^ 10
    → text_of_int t.port_negative t.port ≡ some port_text
    → Printed t.port_negative t.port port_text
    → prepare_request t g got rand text_of_int
      ≡ some (
          if got 0 && got 1
          then (if got 2
              then request_or_error t (got 3) port_text (Base64.encode_from (nonce_bytes rand))
              else not_prepared open_constructing_request)
          else not_prepared open_base64_failed)
unfolding prepare_request
prepare_request-text t g got rand text_of_int port_text host_bound headers_bound port_bound given
      printed =
    rw (encode_nonce g got rand) (elim (Bool-cases (got 0 && got 1)) [
      | inr lost ↦ rw lost refl
      | inl had ↦
          rw (had, get_request_headers_lem g (got 2) t.request_headers headers_bound)
            (elim (Bool-cases (got 2)) [
              | inr lost ↦ rw lost refl
              | inl there ↦
                  let nonce = Base64.encode_from (nonce_bytes rand) in
                  let headers = header_lines t.request_headers in
                  rw there (
                    upgrade_request_lem t g (got 3) text_of_int nonce headers host_bound
                    ∙ ap (λ p. some (outcome t (got 3) p nonce headers)) given
                    ∙ ap some (
                        outcome_lem t (got 3) port_text nonce
                          (port_length-Printed printed port_bound)))
            ])
    ])
