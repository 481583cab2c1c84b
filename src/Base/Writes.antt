-- ===== src/Base/Writes.antt =====
-- Writing one piece of bytes behind the other into a block: the block and the position.
use Prim.Native.Nat.{ℕ, ◌+◌, ◌≤◌}
use mathlib.Core.Path.{◌≡◌, refl, ap, sym, ◌∙◌}
use mathlib.Core.List.{List, [], ◌∷◌, ◌++◌, append_assoc, append-nil}
use mathlib.Core.Option.{some}
use native.Mathlib.Omega.{arith}
use azure_c_shared_utility.Base.Lists.{
  Bytes, length, take, take_all, drop, length-append, length-drop, take-append_le,
}
use azure_c_shared_utility.Base.Blocks.{Exec, ◌>>=◌, copy_in, copy_in-extend}

-- memcpy to the position, which moves behind the bytes.
unfoldable pub write : Bytes → Bytes × ℕ → Exec (Bytes × ℕ)
write src at = do block ← copy_in at.0 at.1 src; some (block, at.1 + length src)

unfoldable pub write_all : List Bytes → Bytes × ℕ → Exec (Bytes × ℕ)
write_all [] at = some at
write_all (src ∷ rest) at = do next ← write src at; write_all rest next

abbrev pub join : List Bytes → Bytes
join [] = []
join (src ∷ rest) = src ++ join rest

-- The block and the position behind `done`, with `left` bytes of room.
abbrev pub Holds : Exec (Bytes × ℕ) → Bytes → ℕ → Type 0
Holds r done left = (rest : Bytes) × (r ≡ some (done ++ rest, length done)) × (length rest ≡ left)

pub write-Holds :
    (src done rest : Bytes) (left : ℕ)
    → length rest ≡ length src + left
    → Holds (write src (done ++ rest, length done)) (done ++ src) left
unfolding write
write-Holds src done rest left room = (
  drop (length src) rest,
  rw (copy_in-extend done rest src (length done) refl (omega arith))
      (ap (λ n. some ((done ++ src) ++ drop (length src) rest, n)) (sym (length-append done src))),
  omega (arith, length-drop {0} (length src) rest),
)

pub write_all-Holds :
    (parts : List Bytes) (done rest : Bytes) (left : ℕ)
    → length rest ≡ length (join parts) + left
    → Holds (write_all parts (done ++ rest, length done)) (done ++ join parts) left
unfolding write_all
write_all-Holds [] done rest left room =
    let whole : done ++ [] ≡ done = append-nil done in (rest, rw (whole) refl, omega arith)
write_all-Holds (src ∷ parts) done rest left room =
    let first_size = length-append src (join parts) in
    let (r1, e1, l1) =
      write-Holds src done rest (length (join parts) + left) (omega (arith, first_size)) in
    let (r2, e2, l2) = write_all-Holds parts (done ++ src) r1 left l1 in
    let regroup : (done ++ src) ++ join parts ≡ done ++ (src ++ join parts) =
      append_assoc done src (join parts) in
    (r2, rw e1 (e2 ∙ ap (λ t. some (t ++ r2, length t)) regroup), l2)

-- The terminator behind what was written, and the text in front of it.
pub terminate_lem :
    (done rest : Bytes)
    → 1 ≤ length rest
    → (block : Bytes) × (copy_in (done ++ rest) (length done) (0 ∷ []) ≡ some block)
      × (take (length done) block ≡ done)
terminate_lem done rest room = (
  (done ++ (0 ∷ [])) ++ drop 1 rest,
  copy_in-extend done rest (0 ∷ []) (length done) refl room,
  ap (take (length done)) (append_assoc done (0 ∷ []) (drop 1 rest))
      ∙ take-append_le (length done) done (0 ∷ drop 1 rest) (omega arith)
      ∙ take_all (length done) done (omega arith),
)

pub join_append : (xs ys : List Bytes) → join (xs ++ ys) ≡ join xs ++ join ys
join_append [] ys = refl
join_append (x ∷ xs) ys =
    ap (λ t. x ++ t) (join_append xs ys) ∙ sym (append_assoc x (join xs) (join ys))
