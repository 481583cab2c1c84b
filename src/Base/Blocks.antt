-- ===== src/Base/Blocks.antt =====
-- Blocks of memory as lists of bytes, whose length is the allocated size. An access outside of a
-- block, which C leaves undefined, is `none`.
use Prim.Native.Nat.{ℕ, zero, suc, ◌+◌, ◌≤◌, ◌<◌}
use mathlib.Core.Path.{◌≡◌, refl, ap, sym, ◌∙◌}
use mathlib.Core.List.{[], ◌∷◌, ◌++◌}
use mathlib.Core.Bool.{false}
use mathlib.Core.Option.{Option, none, some}
use native.Mathlib.Omega.{arith}
use azure_c_shared_utility.Base.Tests.{ltb, ◌==◌, if◌then◌else◌}
use azure_c_shared_utility.Base.Lists.{
  Bytes, All, length, take, drop, take-append-drop, length-append, length-take, take-append_le,
}

-- The outcome of code that may access memory out of range: `none` is such an access.
abbrev pub Exec {ℓ} : Type ℓ → Type ℓ
Exec A = Option A

infixl 5 ◌>>=◌
abbrev pub ◌>>=◌ {ℓ κ} : {A : Type ℓ} {B : Type κ} → Option A → (A → Option B) → Option B
none >>= f = none
some a >>= f = f a

-- What a fresh block holds at each index before it is written.
abbrev pub Garbage : Type 0
Garbage = ℕ → ℕ

pub fresh : Garbage → ℕ → Bytes
fresh g zero = []
fresh g (suc n) = g 0 ∷ fresh (λ i. g (suc i)) n

-- `realloc(old, n)`: the bytes that fit stay, and those behind them are not set.
unfoldable pub resize : Garbage → Bytes → ℕ → Bytes
resize g old zero = []
resize g [] (suc n) = g 0 ∷ resize (λ i. g (suc i)) [] n
resize g (x ∷ old) (suc n) = x ∷ resize (λ i. g (suc i)) old n

-- The bytes of `src`, written from the start of a block on.
unfoldable pub overlay : Bytes → Bytes → Exec Bytes
overlay [] block = some block
overlay (x ∷ src) [] = none
overlay (x ∷ src) (y ∷ block) = do rest ← overlay src block; some (x ∷ rest)

-- memcpy(block + offset, src, size of src)
unfoldable pub copy_in : Bytes → ℕ → Bytes → Exec Bytes
unfolding overlay
copy_in block zero src = overlay src block
copy_in [] (suc k) [] = some []
copy_in [] (suc k) (x ∷ src) = none
copy_in (y ∷ block) (suc k) src = do rest ← copy_in block k src; some (y ∷ rest)

-- The first `n` bytes of a block, for memcpy to read.
unfoldable pub copy_out : Bytes → ℕ → Exec Bytes
copy_out block n = if ltb (length block) n then none else some (take n block)

pub length-fresh : (g : Garbage) (n : ℕ) → length (fresh g n) ≡ n
unfolding fresh
length-fresh g zero = refl
length-fresh g (suc n) = ap suc (length-fresh (λ i. g (suc i)) n)

pub fresh-All : (P : ℕ → Type 0) (g : Garbage) (n : ℕ) → ((i : ℕ) → P (g i)) → All P (fresh g n)
unfolding fresh
fresh-All P g zero h = _
fresh-All P g (suc n) h = (h 0, fresh-All P (λ i. g (suc i)) n (λ i. h (suc i)))

pub length-resize : (g : Garbage) (old : Bytes) (n : ℕ) → length (resize g old n) ≡ n
unfolding resize
length-resize g old zero = refl
length-resize g [] (suc n) = ap suc (length-resize (λ i. g (suc i)) [] n)
length-resize g (x ∷ old) (suc n) = ap suc (length-resize (λ i. g (suc i)) old n)

pub resize-append :
    (g : Garbage) (xs ys : Bytes) (n : ℕ)
    → (rest : Bytes) × (resize g (xs ++ ys) (length xs + n) ≡ xs ++ rest) × (length rest ≡ n)
unfolding resize
resize-append g [] ys n = (resize g ys (0 + n), refl, length-resize g ys (0 + n) ∙ omega arith)
resize-append g (x ∷ xs) ys n =
    let (rest, e, l) = resize-append (λ i. g (suc i)) xs ys n in
    let s : length (x ∷ xs) + n ≡ suc (length xs + n) = omega arith in
    (rest, rw s (ap (λ t. x ∷ t) e), l)

pub overlay_lem :
    (src mid post : Bytes)
    → length mid ≡ length src
    → overlay src (mid ++ post) ≡ some (src ++ post)
unfolding overlay
overlay_lem [] [] post h = refl
overlay_lem [] (y ∷ mid) post h = absurd (omega arith)
overlay_lem (x ∷ src) [] post h = absurd (omega arith)
overlay_lem (x ∷ src) (y ∷ mid) post h = rw (overlay_lem src mid post (omega arith))

pub copy_in_lem :
    (pre mid src post : Bytes)
    → length mid ≡ length src
    → copy_in (pre ++ (mid ++ post)) (length pre) src ≡ some (pre ++ (src ++ post))
unfolding copy_in
copy_in_lem [] mid src post h = overlay_lem src mid post h
copy_in_lem (y ∷ pre) mid src post h = rw (copy_in_lem pre mid src post h)

pub copy_out_lem :
    (block : Bytes) (n : ℕ) → n ≤ length block → copy_out block n ≡ some (take n block)
unfolding copy_out
copy_out_lem block n h = ground arith

-- A list is split at any length that it has.
pub split_at :
    (n : ℕ) (xs : Bytes)
    → n ≤ length xs
    → (pre post : Bytes) × (xs ≡ pre ++ post) × (length pre ≡ n)
split_at n xs h =
    (take n xs, drop n xs, sym (take-append-drop n xs), omega (arith, length-take {0} n xs))

pub overlay_exact : (src block : Bytes) → length block ≡ length src → overlay src block ≡ some src
unfolding overlay
overlay_exact [] [] h = refl
overlay_exact [] (y ∷ block) h = absurd (omega arith)
overlay_exact (x ∷ src) [] h = absurd (omega arith)
overlay_exact (x ∷ src) (y ∷ block) h = rw (overlay_exact src block (omega arith))

pub copy_in-append :
    (xs mid src : Bytes)
    → length mid ≡ length src
    → copy_in (xs ++ mid) (length xs) src ≡ some (xs ++ src)
unfolding copy_in
copy_in-append [] mid src h = overlay_exact src mid h
copy_in-append (x ∷ xs) mid src h = rw (copy_in-append xs mid src h)

-- realloc to a larger size, and a copy behind the old content.
pub copy_in-resize :
    (g : Garbage) (xs ys src : Bytes) (n : ℕ)
    → length src ≡ n
    → copy_in (resize g (xs ++ ys) (length xs + n)) (length xs) src ≡ some (xs ++ src)
copy_in-resize g xs ys src n h =
    let (rest, e, l) = resize-append g xs ys n in rw e (copy_in-append xs rest src (l ∙ sym h))

-- malloc of exactly the size of what is copied to the start.
pub copy_in-fresh :
    (g : Garbage) (src : Bytes) (n : ℕ) → length src ≡ n → copy_in (fresh g n) 0 src ≡ some src
copy_in-fresh g src n h = copy_in-append [] (fresh g n) src (length-fresh g n ∙ sym h)

pub length-take_le : (n : ℕ) (xs : Bytes) → n ≤ length xs → length (take n xs) ≡ n
length-take_le n xs h = omega (arith, length-take {0} n xs)

-- Reading no further than the content that stands at the start of a block.
pub copy_out-append :
    (xs rest : Bytes) (n : ℕ) → n ≤ length xs → copy_out (xs ++ rest) n ≡ some (take n xs)
copy_out-append xs rest n h =
    copy_out_lem (xs ++ rest) n (omega (arith, length-append {0} xs rest))
    ∙ ap some (take-append_le n xs rest h)

-- The text in front of the first zero byte.
unfoldable pub c_string : Bytes → Bytes
c_string [] = []
c_string (c ∷ block) = if c == 0 then [] else c ∷ c_string block

-- The text that a block holds, and `none` where the block has no terminator: a reader of the
-- text would leave the block.
unfoldable pub c_string? : Bytes → Exec Bytes
c_string? [] = none
c_string? (c ∷ block) = if c == 0 then some [] else (do rest ← c_string? block; some (c ∷ rest))

pub c_string?-append :
    (s rest : Bytes) → All (λ c. (0 < c) × (c < 256)) s → c_string? (s ++ (0 ∷ rest)) ≡ some s
unfolding c_string?
c_string?-append [] rest h = refl
c_string?-append (c ∷ s) rest (hc, hs) =
    let more : (c == 0) ≡ false = ground arith in rw (more, c_string?-append s rest hs)

pub c_string_lem : (s : Bytes) → All (λ c. (0 < c) × (c < 256)) s → c_string s ≡ s
unfolding c_string
c_string_lem [] h = refl
c_string_lem (c ∷ s) (hc, hs) =
    let more : (c == 0) ≡ false = ground arith in rw (more, c_string_lem s hs)

-- A copy to the start of a block leaves what is behind it.
overlay_front :
    (src block : Bytes)
    → length src ≤ length block
    → overlay src block ≡ some (src ++ drop (length src) block)
unfolding overlay
overlay_front [] block h = refl
overlay_front (x ∷ src) [] h = absurd (omega arith)
overlay_front (x ∷ src) (y ∷ block) h = rw (overlay_front src block (omega arith))

pub copy_in_front :
    (src block : Bytes)
    → length src ≤ length block
    → copy_in block 0 src ≡ some (src ++ drop (length src) block)
unfolding copy_in
copy_in_front = overlay_front

-- A write behind what was written.
pub copy_in-extend :
    (done rest src : Bytes) (at_end : ℕ)
    → at_end ≡ length done
    → length src ≤ length rest
    → copy_in (done ++ rest) at_end src ≡ some ((done ++ src) ++ drop (length src) rest)
unfolding copy_in
copy_in-extend done rest src at_end e h = rw e (extend done)
  where
    extend :
        (done : Bytes)
        → copy_in (done ++ rest) (length done) src ≡ some ((done ++ src) ++ drop (length src) rest)
    extend [] = copy_in_front src rest h
    extend (x ∷ done) = rw (extend done)

pub c_string-append :
    (s rest : Bytes) → All (λ c. (0 < c) × (c < 256)) s → c_string (s ++ (0 ∷ rest)) ≡ s
unfolding c_string
c_string-append [] rest h = refl
c_string-append (c ∷ s) rest (hc, hs) =
    let more : (c == 0) ≡ false = ground arith in rw (more, c_string-append s rest hs)
