-- ===== src/Buffer/Laws/Shrink.antt =====
-- BUFFER_shrink does what its specification says.
use mathlib.Core.Path.{subst}
use azure_c_shared_utility.Base.{
  ℕ, ◌-◌, ◌≤◌, ◌≡◌, refl, sym, not, inl, inr, Bool, true, false, none, some, ltb, ltb→le, ◌==◌,
  if◌then◌else◌, Bool-cases, arith, Bytes, length, take, drop, length-drop, drop-append_le,
  take_all, Outcomes, Garbage, copy_out-append, copy_in-fresh, length-take_le,
}
use azure_c_shared_utility.Buffer.{success, Buffer, shrink, shrink_to}
use azure_c_shared_utility.Buffer.Spec.{
  Content, Holds, Holds-exact, Holds-held, Holds-blank, held, blank, Refines, unless, shrink_spec,
}

module _ (g : Garbage) (ok : Outcomes) (xs rest : Bytes) (n : ℕ) where
  -- The temporary block takes what is kept of the content.
  shrink_to-Refines :
      (from_end : Bool)
      → n ≤ length xs
      → (length xs - n == 0) ≡ false
      → ok 0 ≡ true
      → Refines
          (shrink_to g ok (held xs rest) n from_end (length xs - n))
          (success, some (if from_end then take (length xs - n) xs else drop n xs))
  unfolding shrink_to
  shrink_to-Refines true le nz got =
      let kept = length xs - n in
      let len = length-take_le kept xs (omega arith) in
      rw (nz, got, copy_out-append xs rest kept (omega arith), copy_in-fresh g _ _ len)
        (record { buffer = some (take kept xs); size = kept }, refl, Holds-exact _ _ (sym len))
  shrink_to-Refines false le nz got =
      let kept = length xs - n in
      let len = length-drop {0} n xs in
      let read = copy_out-append (drop n xs) rest kept (omega (arith, len)) in
      let all = take_all kept (drop n xs) (omega (arith, len)) in
      rw (nz, got, drop-append_le n xs rest le, read, all, copy_in-fresh g _ _ len)
        (record { buffer = some (drop n xs); size = kept }, refl, Holds-exact _ _ (sym len))

  shrink-held :
      (from_end : Bool)
      → Refines
          (shrink g ok (some (held xs rest)) n from_end)
          (shrink_spec (ok 0) (some xs) n from_end)
  unfolding shrink
  shrink-held from_end = elim (Bool-cases (n == 0)) [
    | inl z ↦ rw z (held xs rest, refl, (rest, refl, refl))
    | inr nz ↦ rw nz (elim (Bool-cases (ltb (length xs) n)) [
      | inl more ↦ rw more (held xs rest, refl, (rest, refl, refl))
      | inr le ↦ rw le (elim (Bool-cases (length xs == n)) [
        | inl all ↦
            let gone : (length xs - n == 0) ≡ true = ground arith in
            rw (all, shrink_to, gone) (blank, refl, (refl, refl))
        | inr part ↦
            let left : (length xs - n == 0) ≡ false = ground (arith, ltb→le _ _ le) in
            rw part (elim (Bool-cases (ok 0)) [
              | inl got ↦
                  subst
                    (λ t. Refines (shrink_to g ok (held xs rest) n from_end (length xs - n)) (
                      unless (not t) (some xs)
                        (some (if from_end then take (length xs - n) xs else drop n xs))))
                    (sym got) (shrink_to-Refines from_end (ltb→le _ _ le) left got)
              | inr lost ↦ rw (lost, shrink_to, left) (held xs rest, refl, (rest, refl, refl))
            ])
      ])
    ])
  ]

shrink-blank :
    (g : Garbage) (ok : Outcomes) (n : ℕ) (from_end : Bool)
    → Refines (shrink g ok (some blank) n from_end) (shrink_spec (ok 0) none n from_end)
unfolding shrink
shrink-blank g ok n from_end = elim (Bool-cases (n == 0)) [
  | inl z ↦ rw z (blank, refl, (refl, refl))
  | inr nz ↦ let more : ltb 0 n ≡ true = ground arith in rw (nz, more) (blank, refl, (refl, refl))
]

-- BUFFER_shrink on a buffer that holds a content keeps to its blocks and ends as its specification
-- says: it takes the bytes off the end or the start, frees the content if all are taken, and fails
-- with the content as it was for no bytes, for more than there are, and if memory is not had.
pub shrink-Refines :
    (g : Garbage) (ok : Outcomes) (b : Buffer) (c : Content) (n : ℕ) (from_end : Bool)
    → Holds b c
    → Refines (shrink g ok (some b) n from_end) (shrink_spec (ok 0) c n from_end)
shrink-Refines g ok b none n from_end (is_null, is_empty) =
    rw (Holds-blank is_null is_empty) (shrink-blank g ok n from_end)
shrink-Refines g ok b (some xs) n from_end (rest, block, size) =
    rw (Holds-held xs rest block size) (shrink-held g ok xs rest n from_end)
