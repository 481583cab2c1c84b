-- ===== src/Buffer/Laws/Storage.antt =====
-- BUFFER_enlarge does what its specification says.
use azure_c_shared_utility.Base.{
  ℕ, ◌+◌, ◌≡◌, refl, ap, inl, inr, Bool, not, ◌||◌, none, some, [], ◌++◌, ltb, ◌==◌, Bool-cases,
  arith, Bytes, length, length-append, resize-append, Outcomes, size_max, Garbage,
  safe_add_size_t_fits, safe_add_size_t_max,
}
use azure_c_shared_utility.Buffer.{Status, Buffer, enlarge, old_block}
use azure_c_shared_utility.Buffer.Spec.{Content, Holds, Holds-exact, Refines, bytes_of, unless}

-- `extra` are the bytes that the allocator added, which are not set.
abbrev pub enlarge_spec : Bool → Content → Bytes → ℕ → Status × Content
enlarge_spec got c extra n =
    unless ((n == 0) || (not (ltb (length (bytes_of c) + n) size_max) || not got)) c
      (some (bytes_of c ++ extra))

-- The block of a buffer starts with its content.
pub old_block-Holds :
    (b : Buffer) (c : Content)
    → Holds b c
    → (rest : Bytes) × (old_block b.buffer ≡ bytes_of c ++ rest) × (b.size ≡ length (bytes_of c))
old_block-Holds b none (block, size) = ([], ap old_block block, size)
old_block-Holds b (some xs) (rest, block, size) = (rest, ap old_block block, size)

-- BUFFER_enlarge on a buffer that holds a content, built or not, ends as its specification says:
-- the content and behind it as many further bytes as were asked for, or a failure with the content
-- as it was for no bytes, for a size not below SIZE_MAX and if memory is not had.
pub enlarge-Refines :
    (g : Garbage) (ok : Outcomes) (b : Buffer) (c : Content) (n : ℕ)
    → Holds b c
    → (extra : Bytes) × (length extra ≡ n)
      × Refines (enlarge g ok (some b) n) (enlarge_spec (ok 0) c extra n)
unfolding enlarge
enlarge-Refines g ok b c n h =
    let (rest, block, size) = old_block-Holds b c h in
    let (extra, resized, added) = resize-append g (bytes_of c) rest n in
    (
      extra,
      added,
      elim (Bool-cases (n == 0)) [
        | inl z ↦ rw z (b, refl, h)
        | inr nz ↦
            rw (nz, size, safe_add_size_t_max (length (bytes_of c)) n)
              (elim (Bool-cases (ltb (length (bytes_of c) + n) size_max)) [
                | inr big ↦ rw big (as_sized, refl, sized c h)
                | inl small ↦
                    rw (small, safe_add_size_t_fits (length (bytes_of c)) n small)
                      (elim (Bool-cases (ok 0)) [
                        | inr lost ↦ rw lost (as_sized, refl, sized c h)
                        | inl got ↦
                            rw (got, block, resized)
                              (
                                _,
                                refl,
                                Holds-exact (bytes_of c ++ extra) _
                                    (omega (arith, length-append {0} (bytes_of c) extra)),
                              )
                      ])
              ])
      ],
    )
  where
    as_sized : Buffer
    as_sized = record { buffer = b.buffer; size = length (bytes_of c) }

    sized :
        (c : Content)
        → Holds b c
        → Holds (record { buffer = b.buffer; size = length (bytes_of c) }) c
    sized none (block, size) = (block, refl)
    sized (some xs) (rest, block, size) = (rest, block, refl)
