-- ===== src/UwsClient/Request/Laws.antt =====
-- What src/uws_client.c writes as the upgrade request.
use azure_c_shared_utility.Base.{
  none, copy_out_lem, ℕ, ◌+◌, ◌-◌, ◌%◌, ◌^◌, ◌≤◌, ◌<◌, ◌≡◌, ◌∙◌, ap, sym, refl, Bool, true, false,
  Option, some, List, [], ◌∷◌, ◌++◌, append_assoc, ltb, leb, ◌==◌, if◌then◌else◌, Bool-cases, inl,
  inr, Bytes, length, take, take_all, drop, length-append, length-take, length-drop, Garbage, fresh,
  length-fresh, size_max, safe_add_size_t, safe_add_size_t_max, safe_add_size_t_fits, copy_in,
  copy_in-extend, write_all-Holds, terminate_lem, join, arith,
}
use azure_c_shared_utility.HostUtils.{format_host_for_authority}
use azure_c_shared_utility.HostUtils.Spec.{authority}
use azure_c_shared_utility.HostUtils.Laws.{
  authority_host_length_lem, Formats, format_host_for_authority-Formats,
}
use azure_c_shared_utility.UwsClient.{open_not_enough_memory, open_constructing_request}
use azure_c_shared_utility.UwsClient.Session.Calls.{Prepared, prepared, not_prepared}
use azure_c_shared_utility.UwsClient.Request.{
  Target, upgrade_request_method, upgrade_request_host, upgrade_request_after_nonce, line_end,
  host_port_separator, port_length, has_protocol, protocol_sizes, protocol_parts, protocols_of,
  request_sizes, upgrade_request_length, parts_after_port, write_after_port, write_from_port,
  write_from_host, write_request, upgrade_request,
}
use azure_c_shared_utility.UwsClient.Request.Sizes.{
  total, saturated, safe_sum_lem, total-append, length-join_append, protocol_sizes-total,
}

-- What is written in front of the host.
abbrev pub in_front : Target → Bytes
in_front t = join (upgrade_request_method ∷ t.resource_name ∷ upgrade_request_host ∷ [])

-- What is written in front of the port.
abbrev pub before_port : Target → Bytes
before_port t = (in_front t ++ authority t.hostname) ++ join (host_port_separator ∷ [])

-- What is prepared behind `done`.
abbrev pub written_behind :
    Bytes → Target → Option Bytes → (nonce request_headers : Bytes) → Prepared
written_behind done t none nonce request_headers = not_prepared open_constructing_request
written_behind done t (some port_text) nonce request_headers =
    if length port_text == port_length t.port_negative t.port
    then prepared ((done ++ port_text) ++ join (parts_after_port t nonce request_headers))
    else not_prepared open_constructing_request

-- The block from behind the port on has place for the parts and the terminator.
after_port :
    (t : Target) (nonce request_headers done rest : Bytes)
    → length rest ≡ length (join (parts_after_port t nonce request_headers)) + 1
    → write_after_port t nonce request_headers
        (length (done ++ join (parts_after_port t nonce request_headers)))
        (done ++ rest, length done)
      ≡ some (prepared (done ++ join (parts_after_port t nonce request_headers)))
unfolding write_after_port
after_port t nonce request_headers done rest room =
    let parts = parts_after_port t nonce request_headers in
    let text : Bytes = done ++ join parts in
    let (r1, e1, l1) = write_all-Holds parts done rest 1 room in
    let (block, e2, kept) = terminate_lem text r1 (omega (arith, l1)) in
    let inside : length text ≤ length block =
      omega (arith, length-take {0} (length text) block, ap (length {0}) kept) in
    rw (e1, e2, copy_out_lem block (length text) inside, kept) refl

-- From the port on: the rest has place for the port, the parts and the terminator.
from_port :
    (t : Target) (port_text : Option Bytes) (nonce request_headers done rest : Bytes)
    → length rest
      ≡ port_length t.port_negative t.port
        + (length (join (parts_after_port t nonce request_headers)) + 1)
    → write_from_port t port_text nonce request_headers
        (length done
          + (port_length t.port_negative t.port
              + length (join (parts_after_port t nonce request_headers))))
        (done ++ rest, length done)
      ≡ some (written_behind done t port_text nonce request_headers)
unfolding write_from_port
from_port t none nonce request_headers done rest room = refl
from_port t (some port_text) nonce request_headers done rest room =
    let size = port_length t.port_negative t.port in
    let parts = parts_after_port t nonce request_headers in
    let shown : Bytes = take size port_text in
    let short : length shown ≤ size = omega (arith, length-take {0} size port_text) in
    let first =
      copy_in-extend done rest (shown ++ (0 ∷ [])) (length done) refl
        (omega (arith, length-append {0} shown (0 ∷ []))) in
    elim (Bool-cases (length port_text == size)) [
      | inr other ↦ rw (first, other) refl
      | inl whole ↦
          let all : shown ≡ port_text = take_all size port_text (ground arith) in
          let same : length port_text ≡ size = ground arith in
          let left : Bytes = drop (length (shown ++ (0 ∷ []))) rest in
          let there : copy_in (done ++ rest) (length done) (shown ++ (0 ∷ []))
              ≡ some ((done ++ port_text) ++ (0 ∷ left)) =
            first
            ∙ ap (λ s. some ((done ++ (s ++ (0 ∷ []))) ++ left)) all
            ∙ ap (λ b. some (b ++ left)) (sym (append_assoc done port_text (0 ∷ [])))
            ∙ ap some (append_assoc (done ++ port_text) (0 ∷ []) left) in
          let position : length done + size ≡ length (done ++ port_text) =
            omega (arith, length-append {0} done port_text, same) in
          let total : length done + (size + length (join parts))
              ≡ length ((done ++ port_text) ++ join parts) =
            omega (arith, position, length-append {0} (done ++ port_text) (join parts)) in
          let finished = after_port t nonce request_headers (done ++ port_text) (0 ∷ left) (
            omega (
              arith,
              length-drop {0} (length (shown ++ (0 ∷ []))) rest,
              length-append {0} shown (0 ∷ []),
              ap (length {0}) all,
            )) in
          rw (there, whole, total, position) finished
    ]

-- The characters of the request, with as many for the port as its digits.
abbrev pub needed : Target → (nonce request_headers : Bytes) → ℕ
needed t nonce request_headers =
    length (before_port t)
    + (port_length t.port_negative t.port
        + length (join (parts_after_port t nonce request_headers)))

-- The request, or why there is none, once it has its block.
abbrev pub written : Target → Option Bytes → (nonce request_headers : Bytes) → Prepared
written t port_text nonce request_headers =
    written_behind (before_port t) t port_text nonce request_headers

-- From the host on, behind what stands in front of it.
written_from_host :
    (t : Target) (port_text : Option Bytes) (nonce request_headers rest : Bytes)
    → length t.hostname + 2 < size_max
    → length rest
      ≡ length (authority t.hostname)
        + (1
            + (port_length t.port_negative t.port
                + (length (join (parts_after_port t nonce request_headers)) + 1)))
    → length rest < 2 ^ 64
    → write_from_host t port_text nonce request_headers
        (length (authority t.hostname))
        (needed t nonce request_headers)
        (in_front t ++ rest, length (in_front t))
      ≡ some (written t port_text nonce request_headers)
unfolding write_from_host
written_from_host t port_text nonce request_headers rest bound room fits =
    let n = length (authority t.hostname) in
    let no_wrap : (n + 1) % 2 ^ 64 ≡ n + 1 = omega arith in
    let enough : leb (n + 1) n ≡ false = ground arith in
    let formats : Formats false t.hostname (in_front t) rest (
        format_host_for_authority (some t.hostname) (in_front t ++ rest) (length (in_front t))
          (n + 1)) =
      rw enough at (
        format_host_for_authority-Formats t.hostname (in_front t) rest (n + 1) bound
          (omega arith)) in
    let (left, e1, l1) = formats in
    let position : length (in_front t) + n ≡ length (in_front t ++ authority t.hostname) =
      omega (arith, length-append {0} (in_front t) (authority t.hostname)) in
    let (r2, e2, l2) =
      write_all-Holds (host_port_separator ∷ []) (in_front t ++ authority t.hostname) (0 ∷ left)
        (port_length t.port_negative t.port
          + (length (join (parts_after_port t nonce request_headers)) + 1))
        (omega arith) in
    rw (no_wrap, e1, position, e2)
      (from_port t port_text nonce request_headers (before_port t) r2 l2)

protocols-total :
    (protocols : Option (List Bytes))
    → total (
        (if has_protocol protocols then protocol_sizes true (protocols_of protocols) else [])
        ++ (length line_end ∷ []))
      ≡ length (
          join (
            (if has_protocol protocols then protocol_parts true (protocols_of protocols) else [])
            ++ (line_end ∷ [])))
protocols-total protocols = elim (Bool-cases (has_protocol protocols)) [
  | inl there ↦
      let ps = protocols_of protocols in
      rw there (
        omega (
          arith,
          total-append (protocol_sizes true ps) (length line_end ∷ []),
          length-join_append (protocol_parts true ps) (line_end ∷ []),
          protocol_sizes-total true ps,
        ))
  | inr missing ↦ rw missing refl
]

request_sizes-total :
    (t : Target) (nonce request_headers : Bytes)
    → total (request_sizes t (length (authority t.hostname)) nonce request_headers)
      ≡ needed t nonce request_headers
unfolding parts_after_port
request_sizes-total t nonce request_headers =
    let tail =
      (if has_protocol t.protocols then protocol_parts true (protocols_of t.protocols) else [])
      ++ (line_end ∷ []) in
    omega (
      arith,
      protocols-total t.protocols,
      length-append {0} t.resource_name (upgrade_request_host ++ []),
      length-append {0} (in_front t) (authority t.hostname),
      length-append {0} (in_front t ++ authority t.hostname) (join (host_port_separator ∷ [])),
      length-append {0} nonce (upgrade_request_after_nonce ++ (request_headers ++ join tail)),
      length-append {0} request_headers (join tail),
    )

length_lem :
    (t : Target) (nonce request_headers : Bytes)
    → upgrade_request_length t (length (authority t.hostname)) nonce request_headers
      ≡ saturated (needed t nonce request_headers)
unfolding upgrade_request_length
length_lem t nonce request_headers =
    let sizes = request_sizes t (length (authority t.hostname)) nonce request_headers in
    let sum : 0 + total sizes ≡ needed t nonce request_headers =
      omega (arith, request_sizes-total t nonce request_headers) in
    safe_sum_lem 0 sizes (omega arith) ∙ ap saturated sum

write_request_lem :
    (t : Target) (g : Garbage) (port_text : Option Bytes) (nonce request_headers : Bytes)
    → length t.hostname + 2 < size_max
    → needed t nonce request_headers + 1 < size_max
    → write_request t port_text nonce request_headers
        (length (authority t.hostname))
        (needed t nonce request_headers)
        (fresh g (needed t nonce request_headers + 1))
      ≡ some (written t port_text nonce request_headers)
unfolding write_request
write_request_lem t g port_text nonce request_headers bound fits =
    let n = needed t nonce request_headers in
    let host = length-append {0} (in_front t) (authority t.hostname) in
    let all =
      length-append {0} (in_front t ++ authority t.hostname) (join (host_port_separator ∷ [])) in
    let (rest, e, l) =
      write_all-Holds (upgrade_request_method ∷ t.resource_name ∷ upgrade_request_host ∷ []) []
        (fresh g (n + 1)) (n + 1 - length (in_front t))
        (omega (arith, length-fresh g (n + 1), host, all)) in
    rw e (
      written_from_host t port_text nonce request_headers rest bound (omega (arith, l, host, all))
        (omega (arith, l)))

-- The request that is prepared, or why there is none.
unfoldable pub outcome :
    Target → (got : Bool) → Option Bytes → (nonce request_headers : Bytes) → Prepared
outcome t got port_text nonce request_headers =
    if ltb (needed t nonce request_headers + 1) size_max
    then (if got
        then written t port_text nonce request_headers
        else not_prepared open_not_enough_memory)
    else not_prepared open_constructing_request

pub upgrade_request_lem :
    (t : Target) (g : Garbage) (got : Bool) (text_of_int : Bool → ℕ → Option Bytes)
    (nonce request_headers : Bytes)
    → length t.hostname + 2 < size_max
    → upgrade_request t g got text_of_int nonce request_headers
      ≡ some (outcome t got (text_of_int t.port_negative t.port) nonce request_headers)
unfolding upgrade_request write_request outcome
upgrade_request_lem t g got text_of_int nonce request_headers bound =
    let n = needed t nonce request_headers in
    let size = authority_host_length_lem t.hostname bound in
    elim (Bool-cases (ltb (n + 1) size_max)) [
      | inr over ↦
          let full : (safe_add_size_t (saturated n) 1 == size_max) ≡ true =
            safe_add_size_t_max (saturated n) 1 ∙ ground arith in
          rw (size, length_lem t nonce request_headers, full, over) refl
      | inl fits ↦
          let exact : saturated n ≡ n = ground arith in
          let sum : safe_add_size_t n 1 ≡ n + 1 = safe_add_size_t_fits n 1 fits in
          let room : (n + 1 == size_max) ≡ false = ground arith in
          rw (size, length_lem t nonce request_headers, exact, sum, room, fits)
            (elim (Bool-cases got) [
              | inr lost ↦ rw lost refl
              | inl had ↦ rw had (
                  write_request_lem t g (text_of_int t.port_negative t.port) nonce request_headers
                    bound (ground arith))
            ])
    ]
