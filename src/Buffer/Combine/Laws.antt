-- ===== src/Buffer/Combine/Laws.antt =====
-- BUFFER_append, BUFFER_prepend and BUFFER_clone do what their specifications say.
use azure_c_shared_utility.Base.{
  ℕ, ◌+◌, ◌≤◌, ◌≡◌, ◌∙◌, ap, refl, sym, inl, inr, Bool, true, false, not, none, some, [], ◌++◌,
  append_assoc, ltb, ◌==◌, Bool-cases, arith, Bytes, length, length-append, take_all, Outcomes,
  size_max, Garbage, fresh, copy_in, copy_out, length-fresh, copy_in_lem, copy_out-append,
  copy_in-resize, split_at, safe_add_size_t, safe_add_size_t_lem, safe_add_size_t_fits,
  safe_add_size_t_max,
}
use azure_c_shared_utility.Buffer.{Buffer}
use azure_c_shared_utility.Buffer.Combine.{append, append_blocks, prepend, prepend_blocks}
use azure_c_shared_utility.Buffer.Spec.{
  Content, Holds, Holds-exact, Holds-held, Holds-blank, held, blank, Refines, append_spec,
  prepend_spec,
}

-- memcpy reads back exactly the content.
copy_out_all : (xs rest : Bytes) → copy_out (xs ++ rest) (length xs) ≡ some xs
copy_out_all xs rest =
    copy_out-append xs rest (length xs) (omega arith) ∙ ap some (take_all _ xs (omega arith))

-- Two copies into one block, the second behind the first.
record Copied (block ys xs : Bytes) : Type 0 where
  temp : Bytes
  last : Bytes
  first_copy : copy_in block 0 ys ≡ some temp
  second_copy : copy_in temp (length ys) xs ≡ some (ys ++ (xs ++ last))

copied :
    (block ys xs first second last : Bytes)
    → block ≡ first ++ (second ++ last)
    → length first ≡ length ys
    → length second ≡ length xs
    → Copied block ys xs
copied block ys xs first second last e l l' = record {
  temp = ys ++ (second ++ last);
  last = last;
  first_copy = rw e (copy_in_lem [] first ys (second ++ last) l);
  second_copy = copy_in_lem ys second xs last l';
}

block-Copied : (block ys xs : Bytes) → length ys + length xs ≤ length block → Copied block ys xs
block-Copied block ys xs h =
    let (first, others, e, l) = split_at (length ys) block (omega arith) in
    let both : length block ≡ length first + length others =
      ap length e ∙ length-append first others in
    let (second, last, e', l') = split_at (length xs) others (omega arith) in
    copied block ys xs first second last (e ∙ ap (λ t. first ++ t) e') l l'

-- The size of the new block of BUFFER_prepend.
module _ (m n : ℕ) where
  prepend_fits :
      ltb (m + n + 1) size_max ≡ true → safe_add_size_t (safe_add_size_t m n) 1 ≡ m + n + 1
  prepend_fits small =
      let inner = safe_add_size_t_fits m n (ground arith) in
      rw inner (safe_add_size_t_fits (m + n) 1 small)

  prepend_max :
      (safe_add_size_t (safe_add_size_t m n) 1 == size_max) ≡ not (ltb (m + n + 1) size_max)
  prepend_max = ground (arith, safe_add_size_t_lem m n, safe_add_size_t_lem (safe_add_size_t m n) 1)

module _ (g : Garbage) (ok : Outcomes) (xs rest ys rest' : Bytes) where
  append-held :
      Refines
        (append g ok false (some (held xs rest)) (some (held ys rest')))
        (append_spec (ok 0) false (some xs) (some ys))
  unfolding append
  append-held = elim (Bool-cases (length ys == 0)) [
    | inl z ↦ rw (z, append_blocks) (held xs rest, refl, (rest, refl, refl))
    | inr nz ↦
        rw (nz, safe_add_size_t_max (length xs) (length ys))
          (elim (Bool-cases (ltb (length xs + length ys) size_max)) [
            | inr big ↦ rw (big, append_blocks) (held xs rest, refl, (rest, refl, refl))
            | inl small ↦
                rw (small, safe_add_size_t_fits _ _ small)
                  (elim (Bool-cases (ok 0)) [
                    | inr lost ↦ rw (lost, append_blocks) (held xs rest, refl, (rest, refl, refl))
                    | inl got ↦
                        rw (got, copy_out_all ys rest', copy_in-resize g xs rest ys _ refl)
                          (
                            record { buffer = some (xs ++ ys); size = length xs + length ys },
                            refl,
                            Holds-exact _ _ (sym (length-append xs ys)),
                          )
                  ])
          ])
  ]

  prepend-held :
      Refines
        (prepend g ok false (some (held xs rest)) (some (held ys rest')))
        (prepend_spec (ok 0) false (some xs) (some ys))
  unfolding prepend
  prepend-held = elim (Bool-cases (length ys == 0)) [
    | inl z ↦ rw (z, prepend_blocks) (held xs rest, refl, (rest, refl, refl))
    | inr nz ↦
        rw (nz, prepend_max (length xs) (length ys))
          (elim (Bool-cases (ltb (length xs + length ys + 1) size_max)) [
            | inr big ↦ rw (big, prepend_blocks) (held xs rest, refl, (rest, refl, refl))
            | inl small ↦
                rw (small, prepend_fits _ _ small)
                  (elim (Bool-cases (ok 0)) [
                    | inr lost ↦ rw (lost, prepend_blocks) (held xs rest, refl, (rest, refl, refl))
                    | inl got ↦
                        let c =
                          block-Copied (fresh g (length xs + length ys + 1)) ys xs
                            (omega (arith, length-fresh g (length xs + length ys + 1))) in
                        rw
                          (
                            got,
                            copy_out_all ys rest',
                            c.first_copy,
                            copy_out_all xs rest,
                            c.second_copy,
                          )
                          (
                            record {
                              buffer = some (ys ++ (xs ++ c.last));
                              size = length xs + length ys;
                            },
                            refl,
                            (
                              c.last,
                              ap some (sym (append_assoc ys xs c.last)),
                              omega (arith, length-append ys xs),
                            ),
                          )
                  ])
          ])
  ]

-- BUFFER_append on two buffers that hold a content each keeps to its blocks and ends as its
-- specification says: the second content behind the first; a failure, with the first buffer as it
-- was, if either was never built, if both are the same handle, if the size is not below SIZE_MAX
-- or if memory is not had; and no change for an empty second content.
pub append-Refines :
    (g : Garbage) (ok : Outcomes) (same : Bool) (b1 b2 : Buffer) (c1 c2 : Content)
    → Holds b1 c1
    → Holds b2 c2
    → Refines (append g ok same (some b1) (some b2)) (append_spec (ok 0) same c1 c2)
append-Refines g ok true b1 b2 none c2 h1 h2 = unfold append in (b1, refl, h1)
append-Refines g ok true b1 b2 (some xs) none h1 h2 = unfold append in (b1, refl, h1)
append-Refines g ok true b1 b2 (some xs) (some ys) h1 h2 = unfold append in (b1, refl, h1)
append-Refines g ok false b1 b2 none c2 (is_null, is_empty) h2 =
    rw (Holds-blank is_null is_empty) (unfold append in (blank, refl, (refl, refl)))
append-Refines g ok false b1 b2 (some xs) none (rest, block, size) (is_null, is_empty) =
    rw (Holds-held xs rest block size, Holds-blank is_null is_empty)
      (unfold append in (held xs rest, refl, (rest, refl, refl)))
append-Refines g ok false b1 b2 (some xs) (some ys) (rest, block, size) (rest', block', size') =
    rw (Holds-held xs rest block size, Holds-held ys rest' block' size')
      (append-held g ok xs rest ys rest')

-- BUFFER_prepend on two buffers that hold a content each keeps to its blocks and ends as its
-- specification says: the second content in front of the first; a failure, with the first buffer
-- as it was, if either was never built, if both are the same handle, if the size and one more byte
-- are not below SIZE_MAX or if memory is not had; and no change for an empty second content.
pub prepend-Refines :
    (g : Garbage) (ok : Outcomes) (same : Bool) (b1 b2 : Buffer) (c1 c2 : Content)
    → Holds b1 c1
    → Holds b2 c2
    → Refines (prepend g ok same (some b1) (some b2)) (prepend_spec (ok 0) same c1 c2)
prepend-Refines g ok true b1 b2 none c2 h1 h2 = unfold prepend in (b1, refl, h1)
prepend-Refines g ok true b1 b2 (some xs) none h1 h2 = unfold prepend in (b1, refl, h1)
prepend-Refines g ok true b1 b2 (some xs) (some ys) h1 h2 = unfold prepend in (b1, refl, h1)
prepend-Refines g ok false b1 b2 none c2 (is_null, is_empty) h2 =
    rw (Holds-blank is_null is_empty) (unfold prepend in (blank, refl, (refl, refl)))
prepend-Refines g ok false b1 b2 (some xs) none (rest, block, size) (is_null, is_empty) =
    rw (Holds-held xs rest block size, Holds-blank is_null is_empty)
      (unfold prepend in (held xs rest, refl, (rest, refl, refl)))
prepend-Refines g ok false b1 b2 (some xs) (some ys) (rest, block, size) (rest', block', size') =
    rw (Holds-held xs rest block size, Holds-held ys rest' block' size')
      (prepend-held g ok xs rest ys rest')
