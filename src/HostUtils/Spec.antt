-- ===== src/HostUtils/Spec.antt =====
-- The host of an authority as a URL wants it, apart from how src/host_utils.c finds it: brackets
-- that stand around the host are taken off, an address with colons gets them again, and its
-- zone, from the first '%' on, is left out if a colon stands in front of it.
use azure_c_shared_utility.Base.{
  ℕ, suc, ◌-◌, ◌≡◌, ◌∙◌, sym, ap, refl, Bool, true, false, ◌||◌, Option, none, some, [], ◌∷◌, ◌++◌,
  leb, ◌==◌, if◌then◌else◌, Bytes, length, take, take_all, get_or, Bool-cases, inl, inr, ◌>>=◌,
  Option-cases, arith,
}
use azure_c_shared_utility.HostUtils.{
  index_of, scope_at, host_without_ipv6_scope_length, unbracketed, has_colon,
}

unfoldable pub contains : ℕ → Bytes → Bool
contains c [] = false
contains c (x ∷ s) = (x == c) || contains c s

-- The text in front of the first `c`.
unfoldable pub in_front_of : ℕ → Bytes → Bytes
in_front_of c [] = []
in_front_of c (x ∷ s) = elim (x == c) [ true ↦ [] | false ↦ x ∷ in_front_of c s ]

-- The text without a ']' that ends it.
unfoldable pub without_bracket : Bytes → Option Bytes
without_bracket [] = none
without_bracket (c ∷ []) = if c == b']' then some [] else none
without_bracket (c ∷ d ∷ s) = do inner ← without_bracket (d ∷ s); some (c ∷ inner)

unfoldable pub inside_brackets : Bytes → Bytes
inside_brackets [] = []
inside_brackets (c ∷ s) =
    if c == b'[' then elim (without_bracket s) [ none ↦ c ∷ s | some inner ↦ inner ] else c ∷ s

unfoldable pub without_zone : Bytes → Bytes
without_zone address =
    if contains b':' (in_front_of b'%' address) then in_front_of b'%' address else address

unfoldable pub host_of : Bytes → Bytes
host_of address =
    if contains b':' address then b'[' ∷ (without_zone address ++ (b']' ∷ [])) else address

unfoldable pub authority : Bytes → Bytes
authority host = host_of (inside_brackets host)

has_colon-contains : (s : Bytes) → has_colon s ≡ contains b':' s
unfolding has_colon contains
has_colon-contains [] = refl
has_colon-contains (c ∷ s) = elim (Bool-cases (c == b':')) [
  | inl here ↦ rw (here, has_colon) refl
  | inr other ↦ rw (other, has_colon) (has_colon-contains s)
]

-- Whether a character was found.
abbrev found : Option ℕ → Bool
found none = false
found (some i) = true

found_next : (o : Option ℕ) → found (o >>= λ i. some (suc i)) ≡ found o
found_next none = refl
found_next (some i) = refl

index_of-contains : (c : ℕ) (s : Bytes) → found (index_of c s) ≡ contains c s
unfolding index_of contains
index_of-contains c [] = refl
index_of-contains c (x ∷ s) = elim (Bool-cases (x == c)) [
  | inl here ↦ rw (here, index_of) refl
  | inr other ↦ rw (other, index_of) (found_next (index_of c s) ∙ index_of-contains c s)
]

-- What stands up to an index, or all of the text.
abbrev up_to : Bytes → Option ℕ → Bytes
up_to s none = s
up_to s (some i) = take i s

up_to_next :
    (x : ℕ) (s : Bytes) (o : Option ℕ) → up_to (x ∷ s) (o >>= λ i. some (suc i)) ≡ x ∷ up_to s o
up_to_next x s none = refl
up_to_next x s (some i) = refl

up_to-index_of : (c : ℕ) (s : Bytes) → up_to s (index_of c s) ≡ in_front_of c s
unfolding index_of in_front_of
up_to-index_of c [] = refl
up_to-index_of c (x ∷ s) = elim (Bool-cases (x == c)) [
  | inl here ↦ rw (here, index_of, in_front_of) refl
  | inr other ↦
      rw (other, index_of, in_front_of)
        (up_to_next x s (index_of c s) ∙ ap (λ t. x ∷ t) (up_to-index_of c s))
]

scope-without_zone : (s : Bytes) → take (host_without_ipv6_scope_length s) s ≡ without_zone s
unfolding host_without_ipv6_scope_length without_zone scope_at
scope-without_zone s =
    let cut = up_to-index_of b'%' s in
    elim (Option-cases (index_of b'%' s)) [
      | inl missing ↦
          let whole : in_front_of b'%' s ≡ s = sym cut ∙ ap (up_to s) missing in
          rw (missing, whole) (take_all (length s) s (omega arith) ∙ sym (same (contains b':' s) s))
      | inr (i, there) ↦
          let short : in_front_of b'%' s ≡ take i s = sym cut ∙ ap (up_to s) there in
          let has = index_of-contains b':' (take i s) in
          rw (there, short)
            (elim (Option-cases (index_of b':' (take i s))) [
              | inl missing ↦
                  let none_there : contains b':' (take i s) ≡ false = sym has ∙ ap found missing in
                  rw (none_there, missing, scope_at) (take_all (length s) s (omega arith))
              | inr (k, colon) ↦
                  let there : contains b':' (take i s) ≡ true = sym has ∙ ap found colon in
                  rw (there, colon, scope_at) refl
            ])
    ]
  where
    same : (b : Bool) (t : Bytes) → (if b then t else t) ≡ t
    same true t = refl
    same false t = refl

without_bracket_lem :
    (d : ℕ) (s : Bytes)
    → without_bracket (d ∷ s)
      ≡ (if get_or (d ∷ s) (length s) 0 == b']' then some (take (length s) (d ∷ s)) else none)
unfolding without_bracket
without_bracket_lem d [] = refl
without_bracket_lem d (e ∷ s) = elim (Bool-cases (get_or (e ∷ s) (length s) 0 == b']')) [
  | inl there ↦ rw (without_bracket_lem e s, there) refl
  | inr missing ↦ rw (without_bracket_lem e s, missing) refl
]

unbracketed-inside_brackets : (host : Bytes) → unbracketed host ≡ inside_brackets host
unfolding unbracketed inside_brackets
unbracketed-inside_brackets [] = refl
unbracketed-inside_brackets (c ∷ []) = elim (Bool-cases (c == b'[')) [
  | inl opens ↦ rw (opens, unbracketed, inside_brackets) (unfold without_bracket in refl)
  | inr other ↦ rw (other, unbracketed, inside_brackets) refl
]
unbracketed-inside_brackets (c ∷ d ∷ s) =
    let n : ℕ = length s in
    let last : suc (suc n) - 1 ≡ suc n = omega arith in
    let two : leb 2 (suc (suc n)) ≡ true = ground arith in
    let rest : suc (suc n) - 2 ≡ n = omega arith in
    elim (Bool-cases (c == b'[')) [
      | inr other ↦ rw (other, two) refl
      | inl opens ↦
          rw (opens, last, two, rest, without_bracket_lem d s)
            (elim (Bool-cases (get_or (d ∷ s) n 0 == b']')) [
              | inl there ↦ rw there refl
              | inr missing ↦ rw missing refl
            ])
    ]

-- The host as the code puts it together.
pub code_host-authority :
    (host : Bytes)
    → (if has_colon (unbracketed host)
        then b'['
          ∷ (take (host_without_ipv6_scope_length (unbracketed host)) (unbracketed host)
              ++ (b']' ∷ []))
        else unbracketed host)
      ≡ authority host
unfolding authority host_of
code_host-authority host =
    rw
      (
        has_colon-contains (unbracketed host),
        scope-without_zone (unbracketed host),
        unbracketed-inside_brackets host,
      )
      refl
