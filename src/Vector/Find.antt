-- ===== src/Vector/Find.antt =====
-- VECTOR_element and VECTOR_find_if of src/vector.c on the sequence of elements.
use azure_c_shared_utility.Base.{
  ℕ, ◌+◌, ◌*◌, ◌^◌, ◌<◌, ◌≡◌, ◌∙◌, ap, sym, refl, Bool, true, false, Option, none, some, List, [],
  ◌∷◌, ◌++◌, append_assoc, Bytes, length, length-append, take_all, drop, drop_append,
  copy_out-append, copy_out, join, join_append, Bool-cases, inl, inr, arith,
}
use azure_c_shared_utility.Vector.{Vector, block_of, times_size, find_from, find_if}
use azure_c_shared_utility.Vector.Spec.{
  Represents, times_size_lem, length-join, All-front, All-back,
}

-- An element, where the vector has it.
element_there :
    (v : Vector) (pre : List Bytes) (e : Bytes) (post : List Bytes)
    → Represents v (pre ++ (e ∷ post))
    → (times_size v (length pre) ≡ length (join pre))
      × (copy_out (drop (length (join pre)) (block_of v.storage)) v.element_size ≡ some e)
element_there v pre e post r =
    let whole = join_append pre (e ∷ post) in
    let fits : length (join pre) < 2 ^ 64 =
      omega (arith, r.fits, ap (length {0}) whole, length-append {0} (join pre) (e ++ join post)) in
    let size = (All-back (λ (x : Bytes). length x ≡ v.element_size) pre (e ∷ post) r.sized).0 in
    let block : block_of v.storage ≡ join pre ++ (e ++ (join post ++ r.slack)) =
      r.stored
      ∙ ap (λ t. t ++ r.slack) whole
      ∙ append_assoc (join pre) (e ++ join post) r.slack
      ∙ ap (λ t. join pre ++ t) (append_assoc e (join post) r.slack) in
    (
      times_size_lem v pre
          (All-front (λ (x : Bytes). length x ≡ v.element_size) pre (e ∷ post) r.sized) fits,
      rw (block, drop_append (join pre) (e ++ (join post ++ r.slack)))
          (copy_out-append e (join post ++ r.slack) v.element_size (omega (arith, size))
            ∙ ap some (take_all v.element_size e (omega (arith, size)))),
    )

-- Where the first element is that `pred` takes, from the index `i` on.
abbrev pub first_at : (size : ℕ) → (Bytes → Bool) → ℕ → List Bytes → Option ℕ
first_at size pred i [] = none
first_at size pred i (e ∷ es) = elim (pred e) [
  | true ↦ some (size * i)
  | false ↦ first_at size pred (i + 1) es
]

find_from-first :
    (v : Vector) (pred : Bytes → Bool) (pre post : List Bytes)
    → Represents v (pre ++ post)
    → find_from v pred (length post) (length pre)
      ≡ some (first_at v.element_size pred (length pre) post)
unfolding find_from
find_from-first v pred pre [] r = refl
find_from-first v pred pre (e ∷ post) r =
    let (offset, bytes) = element_there v pre e post r in
    let product =
      length-join v.element_size pre
        (All-front (λ (x : Bytes). length x ≡ v.element_size) pre (e ∷ post) r.sized) in
    let regroup : pre ++ (e ∷ post) ≡ (pre ++ (e ∷ [])) ++ post =
      sym (append_assoc pre (e ∷ []) post) in
    let next : length (pre ++ (e ∷ [])) ≡ length pre + 1 =
      length-append {0} pre (e ∷ []) ∙ omega arith in
    elim (Bool-cases (pred e)) [
      | inl here ↦ rw (offset, bytes, here, first_at) (ap (λ n. some (some n)) (offset ∙ product))
      | inr other ↦
          let rest =
            find_from-first v pred (pre ++ (e ∷ [])) post
              (coe 0 1 (i. Represents v (regroup i)) r) in
          rw (offset, bytes, other, first_at)
            (ap (λ n. find_from v pred (length post) n) (sym next)
              ∙ rest
              ∙ ap (λ n. some (first_at v.element_size pred n post)) next)
    ]

-- VECTOR_find_if with a predicate, on any vector: it reads within its block, asks the predicate
-- of the elements in their order, and returns the address of the first one that it takes, which
-- is the size of the elements times the index, or NULL if it takes none.
pub find_if-first :
    (v : Vector) (elements : List Bytes) (pred : Bytes → Bool)
    → Represents v elements
    → find_if v (some pred) ≡ some (first_at v.element_size pred 0 elements)
unfolding find_if
find_if-first v elements pred r =
    ap (λ n. find_from v pred n 0) r.counted ∙ find_from-first v pred [] elements r
