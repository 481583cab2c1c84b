-- ===== src/HostUtils/Laws.antt =====
-- What src/host_utils.c writes: the host of an code_host.
use azure_c_shared_utility.Base.{
  ℕ, suc, ◌+◌, ◌-◌, ◌≤◌, ◌<◌, ◌≡◌, ◌∙◌, ap, refl, Bool, true, false, Option, none, some, List, [],
  ◌∷◌, ◌++◌, append_assoc, append-nil, leb, ◌==◌, if◌then◌else◌, Bytes, length, take, take_all,
  drop, length-append, length-take, length-take_le, absurd_none, some-injective, bind-inv,
  length-drop, Exec, ◌>>=◌, size_max, safe_add_size_t, safe_add_size_t_fits, copy_in, copy_out_lem,
  copy_in-extend, write_all, write_all-Holds, join, Bool-cases, Option-cases, inl, inr, arith,
}
use azure_c_shared_utility.Buffer.{Status, success, failure}
use azure_c_shared_utility.HostUtils.Spec.{authority, code_host-authority}
use azure_c_shared_utility.HostUtils.{
  index_of, scope_at, host_without_ipv6_scope_length, AuthorityHostInfo, unbracketed, has_colon,
  get_authority_host_info, authority_host_length, write_host, format_host_for_authority,
}

-- The host as the code puts it together.
abbrev code_host : Bytes → Bytes
code_host host =
    if has_colon (unbracketed host)
    then b'['
      ∷ (take (host_without_ipv6_scope_length (unbracketed host)) (unbracketed host) ++ (b']' ∷ []))
    else unbracketed host

index_of_le : (c : ℕ) (s : Bytes) (i : ℕ) → index_of c s ≡ some i → i < length s
unfolding index_of
index_of_le c [] i e = absurd_none e
index_of_le c (x ∷ s) i e = elim (Bool-cases (x == c)) [
  | inl here ↦ let same : 0 ≡ i = some-injective (rw (here, index_of) at e) in omega (arith, same)
  | inr further ↦
      let later : (index_of c s >>= λ i. some (suc i)) ≡ some i = rw (further, index_of) at e in
      let (k, e1, e2) = bind-inv _ (index_of c s) i later in
      let same : suc k ≡ i = some-injective e2 in omega (arith, index_of_le c s k e1, same)
]

scope_at_le :
    (host : Bytes) (scope : Option ℕ)
    → ((i : ℕ) → scope ≡ some i → i < length host)
    → scope_at host scope ≤ length host
unfolding scope_at
scope_at_le host none inside = omega arith
scope_at_le host (some scope) inside = elim (Option-cases (index_of b':' (take scope host))) [
  | inl missing ↦ rw (missing, scope_at) (omega arith)
  | inr (colon, there) ↦ rw (there, scope_at) (omega (arith, inside scope refl))
]

scope_length_le : (host : Bytes) → host_without_ipv6_scope_length host ≤ length host
unfolding host_without_ipv6_scope_length
scope_length_le host = scope_at_le host (index_of b'%' host) (index_of_le b'%' host)

unbracketed_le : (host : Bytes) → length (unbracketed host) ≤ length host
unfolding unbracketed
unbracketed_le host =
    if_le _ (take (length host - 2) (drop 1 host)) host
      (omega (arith, length-take {0} (length host - 2) (drop 1 host), length-drop {0} 1 host))
  where
    if_le : (b : Bool) (x y : Bytes) → length x ≤ length y → length (if b then x else y) ≤ length y
    if_le true x y h = h
    if_le false x y h = omega arith

-- The sizes that the code computes.
pub host_info_lem :
    (host : Bytes)
    → length host + 2 < size_max
    → get_authority_host_info (some host)
      ≡ some (record {
        address = unbracketed host;
        address_length =
            (if has_colon (unbracketed host)
              then host_without_ipv6_scope_length (unbracketed host)
              else length (unbracketed host));
        formatted_length = length (code_host host);
        is_ipv6 = has_colon (unbracketed host);
      })
unfolding get_authority_host_info
host_info_lem host bound = elim (Bool-cases (has_colon (unbracketed host))) [
  | inr name ↦
      let fits : (length (unbracketed host) == size_max) ≡ false =
        ground (arith, unbracketed_le host) in
      rw (name, fits) refl
  | inl ipv6 ↦
      let n = host_without_ipv6_scope_length (unbracketed host) in
      let size : n + 2 ≡ length (b'[' ∷ (take n (unbracketed host) ++ (b']' ∷ []))) = omega (
        arith,
        length-append {0} (take n (unbracketed host)) (b']' ∷ []),
        length-take_le n (unbracketed host) (scope_length_le (unbracketed host)),
      ) in
      let sum : safe_add_size_t n 2 ≡ n + 2 =
        safe_add_size_t_fits n 2
          (ground (arith, unbracketed_le host, scope_length_le (unbracketed host))) in
      let fits : (n + 2 == size_max) ≡ false =
        ground (arith, unbracketed_le host, scope_length_le (unbracketed host)) in
      rw (ipv6, sum, fits, size) refl
]

pub authority_host_length_lem :
    (host : Bytes)
    → length host + 2 < size_max
    → authority_host_length (some host) ≡ length (authority host)
unfolding authority_host_length
authority_host_length_lem host bound =
    rw (host_info_lem host bound, authority_host_length)
      (ap (length {0}) (code_host-authority host))

-- Pieces that make up a text, and the terminator.
abbrev terminated : Bytes × ℕ → Exec (Status × Bytes)
terminated at = do written ← copy_in at.0 at.1 (0 ∷ []); some (success, written)

pieces_written :
    (parts : List Bytes) (text done rest : Bytes)
    → join parts ≡ text
    → length text + 1 ≤ length rest
    → (left : Bytes) × ((write_all parts (done ++ rest, length done) >>= terminated)
        ≡ some (success, (done ++ text) ++ (0 ∷ left)))
      × (length left + 1 + length text ≡ length rest)
pieces_written parts text done rest same room =
    let (r1, e1, l1) =
      write_all-Holds parts done rest (length rest - length text) (omega (arith, ap length same)) in
    let whole : write_all parts (done ++ rest, length done)
        ≡ some ((done ++ text) ++ r1, length (done ++ text)) =
      e1 ∙ ap (λ t. some ((done ++ t) ++ r1, length (done ++ t))) same in
    let last =
      copy_in-extend (done ++ text) r1 (0 ∷ []) (length (done ++ text)) refl (omega (arith, l1)) in
    rw (whole, last, append_assoc (done ++ text) (0 ∷ []) (drop 1 r1))
      (drop 1 r1, refl, omega (arith, l1, length-drop {0} 1 r1))

-- The host that the code finds.
abbrev found : Bytes → AuthorityHostInfo
found host = record {
  address = unbracketed host;
  address_length =
      (if has_colon (unbracketed host)
        then host_without_ipv6_scope_length (unbracketed host)
        else length (unbracketed host));
  formatted_length = length (code_host host);
  is_ipv6 = has_colon (unbracketed host);
}

host_written :
    (host done rest : Bytes)
    → length (code_host host) + 1 ≤ length rest
    → (left : Bytes) × (write_host (found host) (done ++ rest) (length done)
        ≡ some (success, (done ++ code_host host) ++ (0 ∷ left)))
      × (length left + 1 + length (code_host host) ≡ length rest)
unfolding write_host
host_written host done rest room =
    let address = unbracketed host in
    let n = host_without_ipv6_scope_length address in
    elim (Bool-cases (has_colon address)) [
      | inr name ↦
          let (left, e, size) =
            pieces_written (address ∷ []) address done rest (append-nil address)
              (rw name at room) in
          rw
            (
              name,
              copy_out_lem address (length address) (omega arith),
              take_all (length address) address (omega arith),
            )
            (left, e, size)
      | inl ipv6 ↦
          let (left, e, size) =
            pieces_written ((b'[' ∷ []) ∷ take n address ∷ (b']' ∷ []) ∷ [])
              (b'[' ∷ (take n address ++ (b']' ∷ []))) done rest refl (rw ipv6 at room) in
          rw (ipv6, copy_out_lem address n (scope_length_le address)) (left, e, size)
    ]

-- What format_host_for_authority comes to, by whether the size is too small.
abbrev pub Formats : (small : Bool) → (host done rest : Bytes) → Exec (Status × Bytes) → Type 0
Formats true host done rest r = r ≡ some (failure, done ++ rest)
Formats false host done rest r =
    (left : Bytes) × (r ≡ some (success, (done ++ authority host) ++ (0 ∷ left)))
    × (length left + 1 + length (authority host) ≡ length rest)

-- format_host_for_authority at a position of a block with room for the host as it stands in a URL:
-- it writes that host, as HostUtils.Spec states it, and the terminator behind what is there, leaves
-- what is in front of it, and stays in the block; exactly if the size it is given has no place for them, it fails and writes nothing.
pub format_host_for_authority-Formats :
    (host done rest : Bytes) (output_size : ℕ)
    → length host + 2 < size_max
    → length (authority host) + 1 ≤ length rest
    → Formats
        (leb output_size (length (authority host)))
        host
        done
        rest
        (format_host_for_authority (some host) (done ++ rest) (length done) output_size)
unfolding format_host_for_authority
format_host_for_authority-Formats host done rest output_size bound room =
    let same = code_host-authority host in
    let (left, e, size) = host_written host done rest (omega (arith, ap (length {0}) same)) in
    let small = ap (λ t. leb output_size (length t)) same in
    rw (host_info_lem host bound, format_host_for_authority, small)
      (if_Formats (leb output_size (length (authority host)))
        (write_host (found host) (done ++ rest) (length done))
        (
          left,
          e ∙ ap (λ t. some (success, (done ++ t) ++ (0 ∷ left))) same,
          omega (arith, size, ap (length {0}) same),
        ))
  where
    if_Formats :
        (small : Bool) (r : Exec (Status × Bytes))
        → Formats false host done rest r
        → Formats small host done rest (if small then some (failure, done ++ rest) else r)
    if_Formats true r h = refl
    if_Formats false r h = h
