-- ===== src/Buffer/Laws/Create.antt =====
-- BUFFER_create does what its specification says.
use azure_c_shared_utility.Base.{
  ℕ, ◌+◌, ◌≤◌, ◌≡◌, refl, sym, inl, inr, Bool, true, false, ◌&&◌, Option, none, some, ◌++◌, ◌==◌,
  Bool-cases, arith, Bytes, length, take, drop, if◌then◌else◌, Exec, copy_in, fresh, length-fresh,
  Outcomes, Garbage, copy_out_lem, copy_in_front, length-take_le,
}
use azure_c_shared_utility.Buffer.{Buffer, create, create_from, safemalloc}
use azure_c_shared_utility.Buffer.Spec.{Holds}

-- A new buffer with these bytes, or NULL.
abbrev pub Creates : Exec (Option Buffer) → Bool → Bytes → Type 0
Creates reply true xs = (b : Buffer) × (reply ≡ some (some b)) × Holds b (some xs)
Creates reply false xs = reply ≡ some none

-- BUFFER_create, from a source with at least the bytes asked for, keeps to its blocks; it returns a
-- buffer with those bytes if both requests for memory succeed, and NULL if not.
pub create-Creates :
    (g : Garbage) (ok : Outcomes) (source : Bytes) (n : ℕ)
    → n ≤ length source
    → Creates (create g ok (some source) n) (ok 0 && ok 1) (take n source)
unfolding create create_from safemalloc
create-Creates g ok source n fits = elim (Bool-cases (ok 0)) [
  | inr lost ↦ rw lost refl
  | inl first ↦ elim (Bool-cases (ok 1)) [
    | inr lost ↦ rw (first, missed lost, lost) refl
    | inl second ↦
        rw (first, copied second, second) (_, refl, (_, refl, sym (length-take_le n source fits)))
  ]
]
  where
    room : ℕ
    room = if n == 0 then 1 else n

    stored :
        copy_in (fresh g room) 0 (take n source)
        ≡ some (take n source ++ drop (length (take n source)) (fresh g room))
    stored =
        copy_in_front (take n source) (fresh g room)
          (ground (arith, length-fresh g room, length-take_le n source fits))

    missed : ok 1 ≡ false → create_from g (λ i. ok (1 + i)) source n ≡ some none
    missed lost = rw (lost, create_from)

    copied :
        ok 1 ≡ true
        → create_from g (λ i. ok (1 + i)) source n
          ≡ some (
              some (record {
                buffer = some (take n source ++ drop (length (take n source)) (fresh g room));
                size = n;
              }))
    copied had = rw (had, create_from, copy_out_lem source n fits, stored)
