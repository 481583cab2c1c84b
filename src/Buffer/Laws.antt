-- ===== src/Buffer/Laws.antt =====
-- BUFFER_build and BUFFER_append_build do what their specifications say.
pub mod Shrink
pub mod Storage
pub mod Create
use azure_c_shared_utility.Base.{
  ℕ, ◌+◌, ◌-◌, ◌≤◌, ◌≡◌, refl, sym, ap, inl, inr, Bool, true, false, none, some, [], ◌++◌,
  append-nil, ltb, ltb→le, ◌==◌, ==_iff, Bool-cases, arith, Bytes, length, take, drop,
  length-append, length-drop, drop-append_le, take_all, copy_out-append, if◌then◌else◌, ◌∙◌,
  copy_in, resize, copy_in-append, length-resize, Outcomes, size_max, Garbage, copy_out_lem,
  copy_in-resize, copy_in-fresh, length-take_le, safe_add_size_t_fits, safe_add_size_t_max,
}
use azure_c_shared_utility.Buffer.{
  success, Buffer, build, build_from, append_build, append_build_from, shrink, shrink_to, old_block,
}
use azure_c_shared_utility.Buffer.Spec.{
  Content, Holds, Holds-exact, Refines, build_spec, append_build_spec,
}

module _ (g : Garbage) (ok : Outcomes) (b : Buffer) where
  -- BUFFER_append_build, from a source with at least the bytes asked for, ends as its
  -- specification says on a buffer that was never built and on one that was: the bytes behind the
  -- content, or a failure with the content as it was for no bytes, for a size not below SIZE_MAX
  -- and if memory is not had; it keeps to its blocks.
  pub append_build-Refines :
      (c : Content) (source : Bytes) (n : ℕ)
      → n ≤ length source
      → Holds b c
      → Refines (append_build g ok (some b) (some source) n) (append_build_spec (ok 0) c source n)
  unfolding append_build
  append_build-Refines none source n fits (is_null, is_empty) = elim (Bool-cases (n == 0)) [
    | inl z ↦ rw z (b, refl, (is_null, is_empty))
    | inr nz ↦
        rw (nz, is_null)
          (elim (Bool-cases (ok 0)) [
            | inl got ↦
                let len = length-take_le n source fits in
                rw (got, append_build_from, copy_out_lem source n fits, nz, copy_in-fresh g _ n len)
                  (
                    record { buffer = some (take n source); size = n },
                    refl,
                    Holds-exact _ n (sym len),
                  )
            | inr lost ↦
                rw (lost, append_build_from)
                  (record { buffer = none; size = b.size }, refl, (refl, is_empty))
          ])
  ]
  append_build-Refines (some xs) source n fits (rest, block, size) = elim (Bool-cases (n == 0)) [
    | inl z ↦ rw z (b, refl, (rest, block, size))
    | inr nz ↦
        rw (nz, block, size, safe_add_size_t_max (length xs) n)
          (elim (Bool-cases (ltb (length xs + n) size_max)) [
            | inr big ↦ rw (big, append_build_from) (unchanged, refl, (rest, refl, refl))
            | inl small ↦
                rw (small, safe_add_size_t_fits (length xs) n small)
                  (elim (Bool-cases (ok 0)) [
                    | inr lost ↦ rw (lost, append_build_from) (unchanged, refl, (rest, refl, refl))
                    | inl got ↦
                        let len = length-take_le n source fits in
                        rw (got, copy_out_lem source n fits, copy_in-resize g xs rest _ n len)
                          (
                            record { buffer = some (xs ++ take n source); size = length xs + n },
                            refl,
                            Holds-exact _ _
                                (omega (arith, length-append {0} xs (take n source), len)),
                          )
                  ])
          ])
  ]
    where
      unchanged : Buffer
      unchanged = record { buffer = some (xs ++ rest); size = length xs }

  -- BUFFER_build, from a source with at least the bytes asked for, ends as its specification says
  -- whatever the content was: the bytes of the source, no content at size 0, and a failure with
  -- the content as it was if memory is not had; it keeps to its blocks.
  pub build-Refines :
      (c : Content) (source : Bytes) (n : ℕ)
      → n ≤ length source
      → Holds b c
      → Refines (build g ok (some b) (some source) n) (build_spec (ok 0) c source n)
  unfolding build
  build-Refines c source n fits h = elim (Bool-cases (n == 0)) [
    | inl z ↦ rw z (record { buffer = none; size = 0 }, refl, (refl, refl))
    | inr nz ↦ rw nz (elim (Bool-cases (ok 0)) [
      | inr lost ↦ rw (lost, build_from) (b, refl, h)
      | inl got ↦
          let len = length-take_le n source fits in
          rw
            (
              got,
              copy_out_lem source n fits,
              copy_in-resized n (old_block b.buffer) (take n source) len,
            )
            (record { buffer = some (take n source); size = n }, refl, Holds-exact _ n (sym len))
    ])
  ]
    where
      copy_in-resized :
          (n : ℕ) (old src : Bytes) → length src ≡ n → copy_in (resize g old n) 0 src ≡ some src
      copy_in-resized n old src len =
          copy_in-append [] (resize g old n) src (length-resize g old n ∙ sym len)
