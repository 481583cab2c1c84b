-- ===== src/UwsClient/Request/Sizes.antt =====
-- The sizes that src/uws_client.c computes for the upgrade request.
use azure_c_shared_utility.Base.{
  true, Bool, ◌∙◌, ap, ℕ, zero, suc, ◌+◌, ◌*◌, ◌/◌, ◌%◌, ◌^◌, ◌≤◌, ◌<◌, ◌≡◌, ◌∙◌, ap, refl, Bool,
  false, List, [], ◌∷◌, ◌++◌, ltb, ◌==◌, if◌then◌else◌, Bool-cases, inl, inr, Bytes, length,
  length-append, size_max, safe_add_size_t_lem, join, arith,
}
use azure_c_shared_utility.UwsClient.Request.{
  headers_length, header_parts, safe_sum, port_digits, port_length, protocol_sizes, protocol_parts,
  separator,
}

abbrev pub total : List ℕ → ℕ
total [] = 0
total (size ∷ sizes) = size + total sizes

abbrev pub saturated : ℕ → ℕ
saturated n = if ltb n size_max then n else size_max

-- The sum of the sizes, or SIZE_MAX if it does not fit.
pub safe_sum_lem :
    (n : ℕ) (sizes : List ℕ) → n ≤ size_max → safe_sum n sizes ≡ saturated (n + total sizes)
unfolding safe_sum
safe_sum_lem n [] bound = ground arith
safe_sum_lem n (size ∷ sizes) bound =
    rw (safe_add_size_t_lem n size) (elim (Bool-cases (ltb (n + size) size_max)) [
      | inl fits ↦
          let same : n + size + total sizes ≡ n + (size + total sizes) = omega arith in
          rw fits (safe_sum_lem (n + size) sizes (ground arith) ∙ ap saturated same)
      | inr over ↦ rw over (safe_sum_lem size_max sizes (omega arith) ∙ ground arith)
    ])

pub total-append : (xs ys : List ℕ) → total (xs ++ ys) ≡ total xs + total ys
total-append [] ys = omega arith
total-append (x ∷ xs) ys = omega (arith, total-append xs ys)

pub length-join_append :
    (xs ys : List Bytes) → length (join (xs ++ ys)) ≡ length (join xs) + length (join ys)
length-join_append [] ys = omega arith
length-join_append (x ∷ xs) ys =
    omega (
      arith,
      length-join_append xs ys,
      length-append x (join (xs ++ ys)),
      length-append x (join xs),
    )

pub protocol_sizes-total :
    (is_first : Bool) (ps : List Bytes)
    → total (protocol_sizes is_first ps) ≡ length (join (protocol_parts is_first ps))
unfolding protocol_sizes protocol_parts
protocol_sizes-total is_first [] = refl
protocol_sizes-total is_first (p ∷ ps) = omega (
  arith,
  protocol_sizes-total false ps,
  length-append (separator is_first) (p ++ join (protocol_parts false ps)),
  length-append p (join (protocol_parts false ps)),
)

-- The size of the headers does not wrap while their text fits a size_t.
pub headers_length_lem :
    (n : ℕ) (headers : List (Bytes × Bytes))
    → n + length (join (header_parts headers)) < 2 ^ 64
    → headers_length n headers ≡ n + length (join (header_parts headers))
unfolding headers_length header_parts
headers_length_lem n [] fits = omega arith
headers_length_lem n (h ∷ hs) fits =
    let tail = join (header_parts hs) in
    let size = length-append h.0 (58 ∷ 32 ∷ (h.1 ++ (13 ∷ 10 ∷ tail))) in
    let value_size = length-append h.1 (13 ∷ 10 ∷ tail) in
    let step : (n + (length h.0 + length h.1 + 4)) % 2 ^ 64 ≡ n + (length h.0 + length h.1 + 4) =
      omega (arith, size, value_size) in
    ap (λ k. headers_length k hs) step
    ∙ headers_length_lem (n + (length h.0 + length h.1 + 4)) hs (omega (arith, size, value_size))
    ∙ omega (arith, size, value_size)

-- The decimal numeral of a number, without leading zeros.
pub data Decimal : ℕ → Bytes → Type 0 where
  one_digit : {n : ℕ} → n < 10 → Decimal n ((b'0' + n) ∷ [])
  more_digits :
      {n : ℕ} {s : Bytes} → 10 ≤ n → Decimal (n / 10) s → Decimal n (s ++ ((b'0' + n % 10) ∷ []))

-- What snprintf documents for "%d": a minus sign if the int is negative, and the decimal numeral.
pub data Printed : Bool → ℕ → Bytes → Type 0 where
  printed_plain : {n : ℕ} {s : Bytes} → Decimal n s → Printed false n s
  printed_negative : {n : ℕ} {s : Bytes} → Decimal n s → Printed true n (b'-' ∷ s)

-- The code counts the digits of the numeral, and the fuel is enough for them.
port_digits-Decimal :
    {n : ℕ} {s : Bytes}
    → Decimal n s
    → (fuel : ℕ) → n < 10 ^ suc fuel
    → port_digits (suc fuel) n ≡ length s
unfolding port_digits
port_digits-Decimal (one_digit {n} small) fuel bound =
    let last : (n / 10 == 0) ≡ true = ground arith in rw last refl
port_digits-Decimal (more_digits {n} {s} big d) zero bound = absurd (omega arith)
port_digits-Decimal (more_digits {n} {s} big d) (suc fuel) bound =
    let further : (n / 10 == 0) ≡ false = ground arith in
    let power : 10 ^ suc (suc fuel) ≡ 10 * 10 ^ suc fuel = omega arith in
    let rest = port_digits-Decimal d fuel (omega (arith, power)) in
    rw further (ap suc rest ∙ omega (arith, length-append {0} s ((b'0' + n % 10) ∷ [])))

-- The size that the code computes for the port is that of its text.
pub port_length-Printed :
    {negative : Bool} {n : ℕ} {s : Bytes}
    → Printed negative n s
    → n < 10 ^ 10
    → port_length negative n ≡ length s
unfolding port_length
port_length-Printed (printed_plain {n} d) bound = omega (arith, port_digits-Decimal d 9 bound)
port_length-Printed (printed_negative {n} d) bound = omega (arith, port_digits-Decimal d 9 bound)
