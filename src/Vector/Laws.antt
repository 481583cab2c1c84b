-- ===== src/Vector/Laws.antt =====
-- VECTOR_push_back and VECTOR_element of src/vector.c on the sequence of elements.
use azure_c_shared_utility.Base.{
  suc, ◌+◌, ◌%◌, ◌^◌, ◌<◌, ◌≡◌, ◌∙◌, ap, sym, refl, Bool, true, false, some, List, [], ◌∷◌, ◌++◌,
  ◌==◌, append-nil, All, All-append, Bytes, length, length-append, take_all, Garbage, Exec,
  copy_out, copy_out_lem, copy_in-resize, join, join_append, arith,
}
use azure_c_shared_utility.Buffer.{Status, success, failure}
use azure_c_shared_utility.Vector.{Vector, times_size, push_back}
use azure_c_shared_utility.Vector.Spec.{Represents, times_size_lem, length_le-join}

-- Pushing new elements, as the code gives them: their bytes, one after the other.
abbrev pub Pushes : Vector → List Bytes → List Bytes → Bool → Exec (Status × Vector) → Type 0
Pushes v elements more false r = r ≡ some (failure, v)
Pushes v elements more true r =
    (w : Vector) × (r ≡ some (success, w)) × Represents w (elements ++ more)

-- VECTOR_push_back of one or more elements of the vector's size, as the bytes that follow one another, on
-- any vector whose bytes with theirs fit a size_t: if realloc succeeds, the vector stands for its
-- elements with the new ones behind them, also when an earlier realloc left it a larger block; if
-- it fails, so does the call, and the vector stays.
pub push_back-Refines :
    (g : Garbage) (got : Bool) (v : Vector) (elements : List Bytes) (e : Bytes) (more : List Bytes)
    → Represents v elements
    → All (λ (x : Bytes). length x ≡ v.element_size) (e ∷ more)
    → length (join elements) + length (join (e ∷ more)) < 2 ^ 64
    → Pushes v elements
        (e ∷ more)
        got
        (push_back g got v (some (join (e ∷ more))) (length (e ∷ more)))
unfolding push_back
push_back-Refines g false v elements e more r sized bound =
    let some_elements : (suc (length more) == 0) ≡ false = ground arith in rw some_elements refl
push_back-Refines g true v elements e more r sized bound =
    let old : Bytes = join elements in
    let new : Bytes = join (e ∷ more) in
    let some_elements : (suc (length more) == 0) ≡ false = ground arith in
    let cur : times_size v v.count ≡ length old =
      ap (times_size v) r.counted ∙ times_size_lem v elements r.sized r.fits in
    let app : times_size v (suc (length more)) ≡ length new =
      times_size_lem v (e ∷ more) sized (omega arith) in
    let total : (length old + length new) % 2 ^ 64 ≡ length old + length new = omega arith in
    let numbers : (v.count + suc (length more)) % 2 ^ 64 ≡ v.count + suc (length more) = omega (
      arith,
      r.counted,
      length_le-join v.element_size elements r.positive r.sized,
      length_le-join v.element_size (e ∷ more) r.positive sized,
    ) in
    let copied : copy_out new (length new) ≡ some new =
      copy_out_lem new (length new) (omega arith)
      ∙ ap some (take_all (length new) new (omega arith)) in
    let whole : old ++ new ≡ join (elements ++ (e ∷ more)) =
      sym (join_append elements (e ∷ more)) in
    rw
      (
        some_elements,
        cur,
        app,
        total,
        numbers,
        copied,
        r.stored,
        copy_in-resize g old r.slack new (length new) refl,
      )
      (
        record v { storage = some (old ++ new); count = v.count + suc (length more) },
        refl,
        record {
          slack = [];
          stored = whole ∙ sym (append-nil (join (elements ++ (e ∷ more))));
          counted = omega (arith, r.counted, length-append {0} elements (e ∷ more));
          sized =
              All-append (λ (x : Bytes). length x ≡ v.element_size) elements (e ∷ more) r.sized
                sized;
          positive = r.positive;
          fits = omega (arith, ap (length {0}) whole, length-append {0} old new);
        },
      )
