-- ===== src/Vector/Spec.antt =====
-- The sequence of elements that a vector of src/vector.c stands for.
use azure_c_shared_utility.Base.{
  ℕ, suc, ◌+◌, ◌*◌, ◌^◌, ◌≤◌, ◌<◌, ◌≡◌, List, [], ◌∷◌, ◌++◌, All, Bytes, length, length-append,
  join, arith,
}
use azure_c_shared_utility.Vector.{Vector, block_of, times_size}

-- The storage starts with the elements, each of the vector's size; behind them there may be bytes
-- that a realloc has not given back.
pub record Represents (v : Vector) (elements : List Bytes) : Type 0 where
  pub slack : Bytes
  pub stored : block_of v.storage ≡ join elements ++ slack
  pub counted : v.count ≡ length elements
  pub sized : All (λ (e : Bytes). length e ≡ v.element_size) elements
  pub positive : 0 < v.element_size
  pub fits : length (join elements) < 2 ^ 64

pub length-join :
    (size : ℕ) (elements : List Bytes)
    → All (λ (e : Bytes). length e ≡ size) elements
    → length (join elements) ≡ size * length elements
length-join size [] sized = omega arith
length-join size (e ∷ es) sized =
    let more : size * suc (length es) ≡ size + size * length es = omega arith in
    omega (arith, more, sized.0, length-append {0} e (join es), length-join size es sized.1)

pub length_le-join :
    (size : ℕ) (elements : List Bytes)
    → 0 < size
    → All (λ (e : Bytes). length e ≡ size) elements
    → length elements ≤ length (join elements)
length_le-join size [] positive sized = omega arith
length_le-join size (e ∷ es) positive sized =
    omega (arith, sized.0, length-append {0} e (join es), length_le-join size es positive sized.1)

-- The product of the size and a count of elements does not wrap while their bytes fit a size_t.
pub times_size_lem :
    (v : Vector) (elements : List Bytes)
    → All (λ (e : Bytes). length e ≡ v.element_size) elements
    → length (join elements) < 2 ^ 64
    → times_size v (length elements) ≡ length (join elements)
times_size_lem v elements sized fits = omega (arith, length-join v.element_size elements sized)

pub All-front : {A : Type 0} (P : A → Type 0) (xs ys : List A) → All P (xs ++ ys) → All P xs
All-front P [] ys h = _
All-front P (x ∷ xs) ys h = (h.0, All-front P xs ys h.1)

pub All-back : {A : Type 0} (P : A → Type 0) (xs ys : List A) → All P (xs ++ ys) → All P ys
All-back P [] ys h = h
All-back P (x ∷ xs) ys h = All-back P xs ys h.1
