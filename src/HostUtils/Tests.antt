-- ===== src/HostUtils/Tests.antt =====
-- Hosts of src/host_utils.c.
use azure_c_shared_utility.Base.{◌≡◌, refl, ◌++◌, leb, Bytes, codes, length, arith, some}
use azure_c_shared_utility.HostUtils.{format_host_for_authority}
use azure_c_shared_utility.HostUtils.Spec.{
  authority, host_of, without_zone, inside_brackets, without_bracket, contains, in_front_of,
}
use azure_c_shared_utility.HostUtils.Laws.{Formats, format_host_for_authority-Formats}

abbrev local : Bytes
local = codes "fe80::1%eth0"

authority-local : authority local ≡ codes "[fe80::1]"
unfolding authority host_of without_zone inside_brackets without_bracket contains in_front_of
authority-local = refl

abbrev bracketed : Bytes
bracketed = codes "[a.net]"

authority-bracketed : authority bracketed ≡ codes "a.net"
unfolding authority host_of inside_brackets without_bracket contains
authority-bracketed = refl

format_host_for_authority-Formats_example :
    Formats (leb 10 (length (authority local))) local (codes "x") (codes "0123456789") (
      format_host_for_authority
        (some local)
        (codes "x" ++ codes "0123456789")
        (length (codes "x"))
        10)
unfolding authority host_of without_zone inside_brackets without_bracket contains in_front_of
format_host_for_authority-Formats_example =
    format_host_for_authority-Formats local (codes "x") (codes "0123456789") 10 (omega arith)
      (omega arith)
