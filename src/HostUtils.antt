-- ===== src/HostUtils.antt =====
-- src/host_utils.c: the host of a URL authority. A host is the list of its characters, without the
-- terminator; an outer `none` is an access outside of a block.
pub mod Spec
pub mod Laws
mod Tests
use azure_c_shared_utility.Base.{
  ℕ, suc, ◌+◌, ◌-◌, Bool, true, false, ◌&&◌, Option, none, some, List, [], ◌∷◌, leb, ◌==◌,
  if◌then◌else◌, Bytes, length, take, drop, get_or, Exec, ◌>>=◌, size_max, safe_add_size_t, copy_in,
  copy_out, write_all,
}
use azure_c_shared_utility.Buffer.{Status, success, failure}

-- memchr: the index of the first such character.
unfoldable pub index_of : ℕ → Bytes → Option ℕ
index_of c [] = none
index_of c (x ∷ s) = elim (x == c) [ true ↦ some 0 | false ↦ do i ← index_of c s; some (suc i) ]

unfoldable pub scope_at : Bytes → Option ℕ → ℕ
scope_at host none = length host
scope_at host (some scope) = elim (index_of b':' (take scope host)) [
  | none ↦ length host
  | some colon ↦ scope
]

-- Of a host of `host_length` bytes.
unfoldable pub host_without_ipv6_scope_length : Bytes → ℕ
host_without_ipv6_scope_length host = scope_at host (index_of b'%' host)

pub record AuthorityHostInfo : Type 0 where
  pub address : Bytes
  pub address_length : ℕ
  pub formatted_length : ℕ
  pub is_ipv6 : Bool

unfoldable pub unbracketed : Bytes → Bytes
unbracketed host =
    if leb 2 (length host)
      && ((get_or host 0 0 == b'[') && (get_or host (length host - 1) 0 == b']'))
    then take (length host - 2) (drop 1 host)
    else host

-- The loop that looks for a colon.
unfoldable pub has_colon : Bytes → Bool
has_colon [] = false
has_colon (c ∷ address) = elim (c == b':') [ true ↦ true | false ↦ has_colon address ]

-- The information, with its formatted length; `none` if this is SIZE_MAX.
unfoldable pub get_authority_host_info : Option Bytes → Option AuthorityHostInfo
get_authority_host_info none = none
get_authority_host_info (some host) =
    let address = unbracketed host in
    let is_ipv6 = has_colon address in
    let n = if is_ipv6 then host_without_ipv6_scope_length address else length address in
    let formatted = if is_ipv6 then safe_add_size_t n 2 else n in
    if formatted == size_max
    then none
    else some (record {
      address = address;
      address_length = n;
      formatted_length = formatted;
      is_ipv6 = is_ipv6;
    })

unfoldable pub authority_host_length : Option Bytes → ℕ
authority_host_length host = elim (get_authority_host_info host) [
  | none ↦ 0
  | some info ↦ info.formatted_length
]

-- The characters of the host and the terminator, from `offset` of the block on.
unfoldable pub write_host : AuthorityHostInfo → Bytes → (offset : ℕ) → Exec (Status × Bytes)
write_host info block offset = do
  bytes ← copy_out info.address info.address_length
  at ←
      write_all (if info.is_ipv6 then (b'[' ∷ []) ∷ bytes ∷ (b']' ∷ []) ∷ [] else bytes ∷ [])
        (block, offset)
  written ← copy_in at.0 at.1 (0 ∷ [])
  some (success, written)

unfoldable pub format_host_for_authority :
    Option Bytes → (block : Bytes) → (offset output_size : ℕ) → Exec (Status × Bytes)
format_host_for_authority host block offset output_size = elim (get_authority_host_info host) [
  | none ↦ some (failure, block)
  | some info ↦
      if leb output_size info.formatted_length
      then some (failure, block)
      else write_host info block offset
]
