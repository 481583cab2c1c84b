-- ===== src/UwsClient/Request.antt =====
-- src/uws_client.c: the upgrade request. A C string is the list of its characters, without the
-- terminator. `text_of_int` is the text that snprintf makes of an int for "%d", given by its sign and
-- its magnitude, or `none` for a negative result. A position in the request stays inside its block, so its sum does not wrap; the
-- sum of the sizes of the headers is a size_t that does.
pub mod Sizes
pub mod Laws
pub mod Text
mod Tests
use azure_c_shared_utility.Base.{
  ℕ, zero, suc, ◌+◌, ◌/◌, ◌%◌, ◌^◌, Bool, true, false, ◌&&◌, Option, none, some, List, [], ◌∷◌,
  ◌++◌, ltb, ◌==◌, if◌then◌else◌, Bytes, codes, length, take, Garbage, fresh, Outcomes, after, Exec,
  ◌>>=◌, size_max, safe_add_size_t, copy_in, copy_out, write_all,
}
use azure_c_shared_utility.Base64
use azure_c_shared_utility.Buffer.{Status, success, failure}
use azure_c_shared_utility.HostUtils.{authority_host_length, format_host_for_authority}
use azure_c_shared_utility.UwsClient.{
  open_not_enough_memory, open_base64_failed, open_constructing_request,
}
use azure_c_shared_utility.UwsClient.Session.Calls.{Prepared, prepared, not_prepared}

-- What the instance says of the connection. `protocols` is none for NULL.
pub record Target : Type 0 where
  pub hostname : Bytes
  pub resource_name : Bytes
  pub port_negative : Bool
  pub port : ℕ
  pub protocols : Option (List Bytes)
  pub request_headers : List (Bytes × Bytes)

abbrev pub http_header_key_value_separator : Bytes
http_header_key_value_separator = codes ": "

abbrev pub http_header_terminator : Bytes
http_header_terminator = 13 ∷ 10 ∷ []

-- The loop that adds up the sizes.
unfoldable pub headers_length : ℕ → List (Bytes × Bytes) → ℕ
headers_length n [] = n
headers_length n (h ∷ hs) = headers_length ((n + (length h.0 + length h.1 + 4)) % 2 ^ 64) hs

-- What the loop writes of each header.
unfoldable pub header_parts : List (Bytes × Bytes) → List Bytes
header_parts [] = []
header_parts (h ∷ hs) =
    h.0 ∷ http_header_key_value_separator ∷ h.1 ∷ http_header_terminator ∷ header_parts hs

-- get_request_headers: the block up to the terminator.
unfoldable pub get_request_headers : Garbage → Bool → List (Bytes × Bytes) → Exec (Option Bytes)
get_request_headers g got headers =
    if got
    then (do
      at ← write_all (header_parts headers) (fresh g ((headers_length 0 headers + 1) % 2 ^ 64), 0)
      block ← copy_in at.0 at.1 (0 ∷ [])
      some (some (take at.1 block)))
    else some none

abbrev pub upgrade_request_method : Bytes
upgrade_request_method = codes "GET "

abbrev pub upgrade_request_host : Bytes
upgrade_request_host = codes " HTTP/1.1" ++ (13 ∷ 10 ∷ codes "Host: ")

abbrev pub upgrade_request_after_port : Bytes
upgrade_request_after_port =
    13
    ∷ 10
    ∷ (codes "Upgrade: websocket"
        ++ (13 ∷ 10 ∷ (codes "Connection: Upgrade" ++ (13 ∷ 10 ∷ codes "Sec-WebSocket-Key: "))))

abbrev pub upgrade_request_after_nonce : Bytes
upgrade_request_after_nonce = 13 ∷ 10 ∷ (codes "Sec-WebSocket-Version: 13" ++ (13 ∷ 10 ∷ []))

abbrev pub web_socket_protocol_prefix : Bytes
web_socket_protocol_prefix = codes "Sec-WebSocket-Protocol: "

abbrev pub web_socket_protocol_separator : Bytes
web_socket_protocol_separator = codes ", "

abbrev pub line_end : Bytes
line_end = 13 ∷ 10 ∷ []

abbrev pub host_port_separator : Bytes
host_port_separator = codes ":"

-- The do loop that counts the digits of the port, whose magnitude is below 10 ^ 10.
unfoldable pub port_digits : (fuel : ℕ) → ℕ → ℕ
port_digits zero n = 0
port_digits (suc fuel) n =
    let rest = port_digits fuel (n / 10) in if n / 10 == 0 then 1 else suc rest

unfoldable pub port_length : Bool → ℕ → ℕ
port_length negative n = (if negative then 1 else 0) + port_digits 10 n

-- safe_add_size_t, one size after the other.
unfoldable pub safe_sum : ℕ → List ℕ → ℕ
safe_sum n [] = n
safe_sum n (size ∷ sizes) = safe_sum (safe_add_size_t n size) sizes

unfoldable pub has_protocol : Option (List Bytes) → Bool
has_protocol none = false
has_protocol (some protocols) = ltb 0 (length protocols)

abbrev pub separator : (is_first : Bool) → Bytes
separator is_first = if is_first then web_socket_protocol_prefix else web_socket_protocol_separator

-- The loop over the protocols, for their sizes and for what is written.
unfoldable pub protocol_sizes : Bool → List Bytes → List ℕ
protocol_sizes is_first [] = length line_end ∷ []
protocol_sizes is_first (p ∷ ps) = length (separator is_first) ∷ length p ∷ protocol_sizes false ps

unfoldable pub protocol_parts : Bool → List Bytes → List Bytes
protocol_parts is_first [] = line_end ∷ []
protocol_parts is_first (p ∷ ps) = separator is_first ∷ p ∷ protocol_parts false ps

abbrev pub protocols_of : Option (List Bytes) → List Bytes
protocols_of none = []
protocols_of (some protocols) = protocols

abbrev pub request_sizes :
    Target → (authority_length : ℕ) → (nonce request_headers : Bytes) → List ℕ
request_sizes t authority_length nonce request_headers =
    length upgrade_request_method
    ∷ length t.resource_name
    ∷ length upgrade_request_host
    ∷ authority_length
    ∷ length host_port_separator
    ∷ port_length t.port_negative t.port
    ∷ length upgrade_request_after_port
    ∷ length nonce
    ∷ length upgrade_request_after_nonce
    ∷ length request_headers
    ∷ ((if has_protocol t.protocols then protocol_sizes true (protocols_of t.protocols) else [])
        ++ (length line_end ∷ []))

unfoldable pub upgrade_request_length :
    Target → (authority_length : ℕ) → (nonce request_headers : Bytes) → ℕ
upgrade_request_length t authority_length nonce request_headers =
    safe_sum 0 (request_sizes t authority_length nonce request_headers)

-- What is written behind the port.
unfoldable pub parts_after_port : Target → (nonce request_headers : Bytes) → List Bytes
parts_after_port t nonce request_headers =
    upgrade_request_after_port
    ∷ nonce
    ∷ upgrade_request_after_nonce
    ∷ request_headers
    ∷ ((if has_protocol t.protocols then protocol_parts true (protocols_of t.protocols) else [])
        ++ (line_end ∷ []))

-- Behind the port: the rest, the terminator, and the bytes that xio_send is given.
unfoldable pub write_after_port :
    Target → (nonce request_headers : Bytes) → (request_length : ℕ) → Bytes × ℕ → Exec Prepared
write_after_port t nonce request_headers request_length at = do
  end ← write_all (parts_after_port t nonce request_headers) at
  done ← copy_in end.0 end.1 (0 ∷ [])
  sent ← copy_out done request_length
  some (prepared sent)

-- From snprintf of the port on; it gives `none` if its result is negative, and writes no more than
-- its size, with the terminator.
unfoldable pub write_from_port :
    Target
    → Option Bytes
    → (nonce request_headers : Bytes) → (request_length : ℕ) → Bytes × ℕ
    → Exec Prepared
write_from_port t none nonce request_headers request_length at =
    some (not_prepared open_constructing_request)
write_from_port t (some port_text) nonce request_headers request_length at = do
  let size = port_length t.port_negative t.port
  block ← copy_in at.0 at.1 (take size port_text ++ (0 ∷ []))
  if length port_text == size
      then write_after_port t nonce request_headers request_length (block, at.1 + size)
      else some (not_prepared open_constructing_request)

-- From the host on.
unfoldable pub write_from_host :
    Target
    → Option Bytes
    → (nonce request_headers : Bytes) → (authority_length request_length : ℕ) → Bytes × ℕ
    → Exec Prepared
write_from_host t port_text nonce request_headers authority_length request_length at = do
  host ← format_host_for_authority (some t.hostname) at.0 at.1 ((authority_length + 1) % 2 ^ 64)
  elim (host.0) [
    | failure ↦ some (not_prepared open_constructing_request)
    | success ↦ do
      next ← write_all (host_port_separator ∷ []) (host.1, at.1 + authority_length)
      write_from_port t port_text nonce request_headers request_length next
  ]

-- From the block of the request on.
unfoldable pub write_request :
    Target
    → Option Bytes
    → (nonce request_headers : Bytes) → (authority_length request_length : ℕ) → Bytes
    → Exec Prepared
write_request t port_text nonce request_headers authority_length request_length block = do
  at ← write_all (upgrade_request_method ∷ t.resource_name ∷ upgrade_request_host ∷ []) (block, 0)
  write_from_host t port_text nonce request_headers authority_length request_length at

-- From the sizes on; `got` says whether malloc succeeds.
unfoldable pub upgrade_request :
    Target
    → Garbage
    → Bool
    → (text_of_int : Bool → ℕ → Option Bytes) → (nonce request_headers : Bytes) → Exec Prepared
upgrade_request t g got text_of_int nonce request_headers =
    let authority_length = authority_host_length (some t.hostname) in
    let n = upgrade_request_length t authority_length nonce request_headers in
    let size = safe_add_size_t n 1 in
    if size == size_max
    then some (not_prepared open_constructing_request)
    else if got
    then write_request t (text_of_int t.port_negative t.port) nonce request_headers authority_length
        n (fresh g size)
    else some (not_prepared open_not_enough_memory)

-- on_underlying_io_open_complete of IO_OPEN_OK up to xio_send: `rand` is gb_rand, `got` says of
-- each malloc whether it succeeds.
abbrev pub nonce_bytes : (ℕ → ℕ) → Bytes
nonce_bytes rand = fresh (λ i. rand i % 256) 16

unfoldable pub prepare_request :
    Target
    → Garbage
    → Outcomes
    → (rand : ℕ → ℕ) → (text_of_int : Bool → ℕ → Option Bytes) → Exec Prepared
prepare_request t g got rand text_of_int = do
  nonce ← Base64.encode_bytes g got (some (nonce_bytes rand))
  elim nonce [
    | none ↦ some (not_prepared open_base64_failed)
    | some base64_nonce ↦ do
      headers ← get_request_headers g (got 2) t.request_headers
      elim headers [
        | none ↦ some (not_prepared open_constructing_request)
        | some request_headers ↦
            upgrade_request t g (got 3) text_of_int base64_nonce request_headers
      ]
  ]
