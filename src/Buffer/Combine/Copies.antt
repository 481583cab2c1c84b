-- ===== src/Buffer/Combine/Copies.antt =====
-- BUFFER_clone does what its specification says.
use azure_c_shared_utility.Base.{
  ℕ, ◌+◌, ◌≡◌, ◌∙◌, refl, ap, inl, inr, Bool, true, false, ◌&&◌, Option, none, some, ◌++◌, ◌==◌,
  Bool-cases, arith, Bytes, length, drop, take_all, if◌then◌else◌, Exec, copy_in, copy_out, fresh,
  length-fresh, Outcomes, Garbage, copy_out-append, copy_in_front,
}
use azure_c_shared_utility.Buffer.{Buffer, old_block, safemalloc}
use azure_c_shared_utility.Buffer.Combine.{clone, clone_block}
use azure_c_shared_utility.Buffer.Laws.Storage.{old_block-Holds}
use azure_c_shared_utility.Buffer.Spec.{Content, Holds, bytes_of}

-- The block of a clone is had in the second request; the clone of a buffer that was never built
-- has an empty content.
abbrev pub Clones : Exec (Option Buffer) → Bool → Bytes → Type 0
Clones reply true xs = (b : Buffer) × (reply ≡ some (some b)) × Holds b (some xs)
Clones reply false xs = reply ≡ some none

-- BUFFER_clone of a buffer that holds a content keeps to the blocks; it returns a buffer with the
-- same bytes if both requests for memory succeed, and NULL if not.
pub clone-Clones :
    (g : Garbage) (ok : Outcomes) (b : Buffer) (c : Content)
    → Holds b c
    → Clones (clone g ok (some b)) (ok 0 && ok 1) (bytes_of c)
unfolding clone clone_block safemalloc
clone-Clones g ok b c h = elim (Bool-cases (ok 0)) [
  | inr lost ↦ rw lost refl
  | inl first ↦ elim (Bool-cases (ok 1)) [
    | inr lost ↦ rw (first, missed lost, lost) refl
    | inl second ↦ rw (first, copied second, second) (_, refl, (_, refl, refl))
  ]
]
  where
    xs : Bytes
    xs = bytes_of c

    rest : Bytes
    rest = (old_block-Holds b c h).0

    block : old_block b.buffer ≡ xs ++ rest
    block = (old_block-Holds b c h).1

    size : b.size ≡ length xs
    size = (old_block-Holds b c h).2

    source : copy_out (xs ++ rest) (length xs) ≡ some xs
    source =
        copy_out-append xs rest (length xs) (omega arith)
        ∙ ap some (take_all (length xs) xs (omega arith))

    room : ℕ
    room = if length xs == 0 then 1 else length xs

    stored : copy_in (fresh g room) 0 xs ≡ some (xs ++ drop (length xs) (fresh g room))
    stored = copy_in_front xs (fresh g room) (ground (arith, length-fresh g room))

    missed : ok 1 ≡ false → clone_block g (λ i. ok (1 + i)) b ≡ some none
    missed lost = rw (lost, clone_block)

    copied :
        ok 1 ≡ true
        → clone_block g (λ i. ok (1 + i)) b
          ≡ some (
              some (record {
                buffer = some (xs ++ drop (length xs) (fresh g room));
                size = length xs;
              }))
    copied had = rw (had, clone_block, block, size, source, stored)
