-- ===== src/Vector/Erase.antt =====
-- VECTOR_erase of src/vector.c on the sequence of elements.
use azure_c_shared_utility.Base.{
  suc, ◌+◌, ◌-◌, ◌*◌, ◌%◌, ◌^◌, ◌<◌, ◌≡◌, ◌∙◌, ap, sym, refl, Bool, false, none, some, List, [],
  ◌∷◌, ◌++◌, append_assoc, append-nil, append_assoc, All, All-append, Bytes, length, length-append,
  take_all, drop, drop_append, copy_out-append, Garbage, resize, resize-append, copy_in-extend,
  copy_out, join, join_append, Bool-cases, inl, inr, arith, ltb, ◌==◌,
}
use azure_c_shared_utility.Vector.{Vector, at_offset, block_of, times_size, close_gap, erase}
use azure_c_shared_utility.Vector.Spec.{
  Represents, times_size_lem, length-join, All-front, All-back,
}
use native.Mathlib.Nat.{mul-mod_right}

no_length : (xs : Bytes) → length xs ≡ 0 → xs ≡ []
no_length [] e = refl
no_length (x ∷ xs) e = absurd (omega arith)

resize_exact : (g : Garbage) (xs ys : Bytes) → resize g (xs ++ ys) (length xs) ≡ xs
resize_exact g xs ys =
    let (rest, e, l) = resize-append g xs ys 0 in
    let plain : length xs + 0 ≡ length xs = omega arith in
    ap (resize g (xs ++ ys)) (sym plain) ∙ e ∙ ap (λ t. xs ++ t) (no_length rest l) ∙ append-nil xs

module _ (v : Vector) (pre mid post : List Bytes) (r : Represents v (pre ++ (mid ++ post))) where
  all_bytes : join (pre ++ (mid ++ post)) ≡ join pre ++ (join mid ++ join post)
  all_bytes = join_append pre (mid ++ post) ∙ ap (λ t. join pre ++ t) (join_append mid post)

  all_length :
      length (join (pre ++ (mid ++ post)))
      ≡ length (join pre) + (length (join mid) + length (join post))
  all_length =
      ap (length {0}) all_bytes
      ∙ omega (
        arith,
        length-append {0} (join pre) (join mid ++ join post),
        length-append {0} (join mid) (join post),
      )

  block_around : block_of v.storage ≡ join pre ++ (join mid ++ (join post ++ r.slack))
  block_around =
      r.stored
      ∙ ap (λ t. t ++ r.slack) all_bytes
      ∙ append_assoc (join pre) (join mid ++ join post) r.slack
      ∙ ap (λ t. join pre ++ t) (append_assoc (join mid) (join post) r.slack)

  sized_pre : All (λ (x : Bytes). length x ≡ v.element_size) pre
  sized_pre = All-front (λ (x : Bytes). length x ≡ v.element_size) pre (mid ++ post) r.sized

  sized_rest : All (λ (x : Bytes). length x ≡ v.element_size) (mid ++ post)
  sized_rest = All-back (λ (x : Bytes). length x ≡ v.element_size) pre (mid ++ post) r.sized

  sized_mid : All (λ (x : Bytes). length x ≡ v.element_size) mid
  sized_mid = All-front (λ (x : Bytes). length x ≡ v.element_size) mid post sized_rest

  sized_post : All (λ (x : Bytes). length x ≡ v.element_size) post
  sized_post = All-back (λ (x : Bytes). length x ≡ v.element_size) mid post sized_rest

  sized_left : All (λ (x : Bytes). length x ≡ v.element_size) (pre ++ post)
  sized_left = All-append (λ (x : Bytes). length x ≡ v.element_size) pre post sized_pre sized_post

  left_bytes : join (pre ++ post) ≡ join pre ++ join post
  left_bytes = join_append pre post

  left_length : length (join (pre ++ post)) ≡ length (join pre) + length (join post)
  left_length = ap (length {0}) left_bytes ∙ length-append {0} (join pre) (join post)

  -- The bytes behind the gap.
  moved : drop (length (join pre) + length (join mid)) (block_of v.storage) ≡ join post ++ r.slack
  moved =
      let position : length (join pre) + length (join mid) ≡ length (join pre ++ join mid) =
        omega (arith, length-append {0} (join pre) (join mid)) in
      rw (position, block_around ∙ sym (append_assoc (join pre) (join mid) (join post ++ r.slack)))
        (drop_append (join pre ++ join mid) (join post ++ r.slack))

  left_represented :
      (w : Vector) (slack : Bytes)
      → w.element_size ≡ v.element_size
      → w.count ≡ length (pre ++ post)
      → block_of w.storage ≡ (join pre ++ join post) ++ slack
      → Represents w (pre ++ post)
  left_represented w slack same counted stored = record {
    slack = slack;
    stored = stored ∙ ap (λ t. t ++ slack) (sym left_bytes);
    counted = counted;
    sized = coe 1 0 (i. All (λ (x : Bytes). length x ≡ same i) (pre ++ post)) sized_left;
    positive = coe 1 0 (i. 0 < same i) r.positive;
    fits = omega (arith, r.fits, all_length, left_length);
  }

  close_gap-Represents :
      (g : Garbage) (got : Bool)
      → (w : Vector) × (close_gap g got v
            (length (join pre))
            (length (join pre) + length (join mid))
            (length (join (pre ++ (mid ++ post))))
            (length (pre ++ post))
          ≡ some w)
        × Represents w (pre ++ post)
  unfolding close_gap
  close_gap-Represents g got = elim (Bool-cases (length (pre ++ post) == 0)) [
    | inl none_left ↦
        let w : Vector = record v { storage = none; count = 0 } in
        let few : length (join (pre ++ post)) ≡ v.element_size * length (pre ++ post) =
          length-join v.element_size (pre ++ post) sized_left in
        let nothing : length (pre ++ post) ≡ 0 = ground arith in
        let empty : length (join pre ++ join post) ≡ 0 =
          ap (length {0}) (sym left_bytes)
          ∙ few
          ∙ ap (λ n. v.element_size * n) nothing
          ∙ omega arith in
        rw none_left (
          w,
          refl,
          left_represented w [] refl (sym nothing)
              (sym (append-nil (join pre ++ join post) ∙ no_length _ empty)),
        )
    | inr some_left ↦
        let gap : length (join (pre ++ (mid ++ post))) - (length (join pre) + length (join mid))
            ≡ length (join post) =
          omega (arith, all_length) in
        let read : copy_out (join post ++ r.slack) (length (join post)) ≡ some (join post) =
          copy_out-append (join post) r.slack (length (join post)) (omega arith)
          ∙ ap some (take_all (length (join post)) (join post) (omega arith)) in
        let old : Bytes = join mid ++ (join post ++ r.slack) in
        let wrote = copy_in-extend (join pre) old (join post) (length (join pre)) refl (
          omega (
            arith,
            length-append {0} (join mid) (join post ++ r.slack),
            length-append {0} (join post) r.slack,
          )) in
        let behind : Bytes = drop (length (join post)) old in
        let shrunk : resize g ((join pre ++ join post) ++ behind)
              (times_size v (length (pre ++ post)))
            ≡ join pre ++ join post =
          ap (resize g ((join pre ++ join post) ++ behind)) (
            times_size_lem v (pre ++ post) sized_left
              (omega (arith, r.fits, all_length, left_length))
            ∙ ap (length {0}) left_bytes)
          ∙ resize_exact g (join pre ++ join post) behind in
        rw (some_left, moved, gap, read, block_around, wrote)
          (elim (Bool-cases got) [
            | inl had ↦ rw had (
              _,
              refl,
              left_represented
                  (record v {
                    storage = some (
                        resize g ((join pre ++ join post) ++ behind)
                          (times_size v (length (pre ++ post))));
                    count = length (pre ++ post);
                  })
                  [] refl refl (shrunk ∙ sym (append-nil (join pre ++ join post))),
            )
            | inr lost ↦ rw lost (
              _,
              refl,
              left_represented
                  (record v {
                    storage = some ((join pre ++ join post) ++ behind);
                    count = length (pre ++ post);
                  })
                  behind refl refl refl,
            )
          ])
  ]

-- VECTOR_erase of one or more elements of a vector, from the address of the first of them on: it
-- reads and writes within its block, and the vector stands for the elements in front of them and those behind
-- them, whether or not the realloc to the smaller size succeeds.
pub erase-Refines :
    (g : Garbage) (got : Bool) (v : Vector) (pre : List Bytes) (e : Bytes) (mid post : List Bytes)
    → Represents v (pre ++ ((e ∷ mid) ++ post))
    → (w : Vector) × (erase g got v (at_offset (v.element_size * length pre)) (length (e ∷ mid))
        ≡ some w)
      × Represents w (pre ++ post)
unfolding erase
erase-Refines g got v pre e mid post r =
    let gone : List Bytes = e ∷ mid in
    let all = all_length v pre gone post r in
    let start : v.element_size * length pre ≡ length (join pre) =
      sym (length-join v.element_size pre (sized_pre v pre gone post r)) in
    let aligned : (v.element_size * length pre) % v.element_size ≡ 0 =
      mul-mod_right v.element_size (length pre) in
    let whole : length (join pre) % v.element_size ≡ 0 =
      ap (λ n. n % v.element_size) (sym start) ∙ aligned in
    let behind : times_size v (length gone) ≡ length (join gone) =
      times_size_lem v gone (sized_mid v pre gone post r) (omega (arith, r.fits, all)) in
    let no_wrap : (length (join pre) + length (join gone)) % 2 ^ 64
        ≡ length (join pre) + length (join gone) =
      omega (arith, r.fits, all) in
    let end : times_size v v.count ≡ length (join (pre ++ (gone ++ post))) =
      ap (times_size v) r.counted ∙ times_size_lem v (pre ++ (gone ++ post)) r.sized r.fits in
    let inside : ltb (length (join (pre ++ (gone ++ post))))
          (length (join pre) + length (join gone))
        ≡ false =
      ground (arith, all) in
    let left : v.count - length gone ≡ length (pre ++ post) = omega (
      arith,
      r.counted,
      length-append {0} pre (gone ++ post),
      length-append {0} gone post,
      length-append {0} pre post,
    ) in
    let some_gone : (suc (length mid) == 0) ≡ false = ground arith in
    rw (start, behind, no_wrap, end, some_gone, whole, inside, left)
      (close_gap-Represents v pre gone post r g got)
