-- ===== src/Buffer/Access/Laws.antt =====
-- BUFFER_fill does what its specification says.
use azure_c_shared_utility.Base.{
  ℕ, ◌+◌, ◌≡◌, ◌∙◌, refl, sym, ap, none, some, [], ◌∷◌, ◌++◌, append_assoc, arith, Bytes, length,
  length-append, replicate, length-replicate, copy_in, copy_in_lem,
}
use azure_c_shared_utility.Buffer.{Buffer}
use azure_c_shared_utility.Buffer.Access.{fill, fill_loop, stored}
use azure_c_shared_utility.Buffer.Spec.{Content, Holds, Refines, fill_spec}

fill_loop_lem :
    (c index : ℕ) (done mid rest : Bytes)
    → index ≡ length done
    → fill_loop c (length mid) index (done ++ (mid ++ rest))
      ≡ some (done ++ (replicate (length mid) c ++ rest))
unfolding fill_loop
fill_loop_lem c index done [] rest e = refl
fill_loop_lem c index done (m ∷ mid) rest e =
    let written : copy_in (done ++ (m ∷ (mid ++ rest))) index (c ∷ [])
        ≡ some (done ++ (c ∷ (mid ++ rest))) =
      rw e (copy_in_lem done (m ∷ []) (c ∷ []) (mid ++ rest) refl) in
    let shifted = append_assoc done (c ∷ []) (mid ++ rest) in
    let size : index + 1 ≡ length (done ++ (c ∷ [])) =
      omega (arith, length-append {0} done (c ∷ [])) in
    rw written (
      ap (fill_loop c (length mid) (index + 1)) (sym shifted)
      ∙ fill_loop_lem c (index + 1) (done ++ (c ∷ [])) mid rest size
      ∙ ap some (append_assoc done (c ∷ []) (replicate (length mid) c ++ rest)))

-- BUFFER_fill on a buffer that holds a content writes nothing outside of it and sets each of its
-- bytes, and changes nothing if the buffer was never built.
pub fill-Refines :
    (b : Buffer) (content : Content) (c : ℕ)
    → Holds b content
    → Refines (fill (some b) c) (fill_spec content c)
unfolding fill stored fill_loop
fill-Refines b none c (block, size) = rw (block, size) (_, refl, (refl, refl))
fill-Refines b (some xs) c (rest, block, size) =
    rw (block, size, fill_loop_lem c 0 [] xs rest refl)
      (_, refl, (rest, refl, sym (length-replicate {0} (length xs) c)))
