-- ===== src/SinglyLinkedList/RemoveIf.antt =====
-- singlylinkedlist_remove_if on the cells that a list stands for.
use azure_c_shared_utility.Base.{
  ℕ, zero, suc, ◌<◌, ◌≡◌, refl, ap, ◌∙◌, inl, inr, true, false, Bool-cases, none, some, [], ◌∷◌,
  ◌==◌, Exec, length, arith,
}
use azure_c_shared_utility.Buffer.{Status, success}
use azure_c_shared_utility.SinglyLinkedList.{
  Heap, ListInstance, Answer, Reply, reply, remove_if_loop, remove_if,
}
use azure_c_shared_utility.SinglyLinkedList.Chain.{Cells, has, first, Distinct, Represents}
use azure_c_shared_utility.SinglyLinkedList.Scan.{
  Previous, address, Scan, Stands, Stands-linked, unlink-Scan, Scan-stop, Stands-skip, Scan-skip,
  Stands-unlink, Scan-unlink,
}
use azure_c_shared_utility.SinglyLinkedList.Remove.{Leaves, Represents-Stands, Scan-Leaves}

module _ {S : Type 0} (condition : S → ℕ → Answer S) where
  -- The cells that are left, and the context: the condition is asked for each item in order until it
  -- says stop.
  unfoldable pub kept : S → Cells → Cells
  kept s [] = []
  kept s ((p, v) ∷ xs) =
      let a = condition s v in
      let rest : Cells = elim a.continue_processing [ true ↦ kept a.context xs | false ↦ xs ] in
      elim a.matched [ true ↦ rest | false ↦ (p, v) ∷ rest ]

  unfoldable pub context_left : S → Cells → S
  context_left s [] = s
  context_left s ((p, v) ∷ xs) =
      let a = condition s v in
      elim a.continue_processing [ true ↦ context_left a.context xs | false ↦ a.context ]

  has-kept : (b : ℕ) (s : S) (xs : Cells) → has b xs ≡ false → has b (kept s xs) ≡ false
  unfolding kept
  has-kept b s [] out = refl
  has-kept b s ((p, v) ∷ xs) out =
      let a = condition s v in
      let rest = has-kept b a.context xs (ground (arith, out)) in
      elim (Bool-cases a.matched) [
        | inl m ↦ elim (Bool-cases a.continue_processing) [
          | inl c ↦ rw (m, c, kept) rest
          | inr c ↦ rw (m, c, kept) (ground (arith, out))
        ]
        | inr m ↦ elim (Bool-cases a.continue_processing) [
          | inl c ↦ rw (m, c, kept) (ground (arith, out, rest))
          | inr c ↦ rw (m, c, kept) out
        ]
      ]

  Distinct-kept : (s : S) (xs : Cells) → Distinct xs → Distinct (kept s xs)
  unfolding kept
  Distinct-kept s [] d = _
  Distinct-kept s ((p, v) ∷ xs) (o, d) =
      let a = condition s v in
      let rest = Distinct-kept a.context xs d in
      elim (Bool-cases a.matched) [
        | inl m ↦ elim (Bool-cases a.continue_processing) [
          | inl c ↦ rw (m, c, kept) rest
          | inr c ↦ rw (m, c, kept) d
        ]
        | inr m ↦ elim (Bool-cases a.continue_processing) [
          | inl c ↦ rw (m, c, kept) (has-kept p a.context xs o, rest)
          | inr c ↦ rw (m, c, kept) (o, d)
        ]
      ]

  remove_if_loop-Scan :
      (k : ℕ) (h : Heap) (l : ListInstance) (start : ℕ) (prev : Previous) (s : S) (xs : Cells)
      → Stands h start prev xs l
      → length xs < k
      → (m : ListInstance) × (g : Heap) × (remove_if_loop k h l condition s
            (address prev)
            (first xs)
          ≡ some (context_left s xs, m, g))
        × Scan h start prev xs (kept s xs) m g
  unfolding remove_if_loop kept context_left
  remove_if_loop-Scan zero h l start prev s xs st fuel = absurd (omega arith)
  remove_if_loop-Scan (suc k) h l start prev s [] st fuel =
      (l, h, refl, Scan-stop h start prev [] l st)
  remove_if_loop-Scan (suc k) h l start prev s ((p, v) ∷ xs) st fuel =
      let (ne, at_p) = Stands-linked st in
      let not_null : (p == 0) ≡ false = ground (arith, ne) in
      let a = condition s v in
      elim (Bool-cases a.matched) [
        | inl m ↦
            let (l1, h1, e, out) = unlink-Scan h start prev p v xs l st in
            let left = Stands-unlink st out in
            elim (Bool-cases a.continue_processing) [
              | inl c ↦
                  let (l2, h2, e2, more) =
                    remove_if_loop-Scan k h1 l1 start prev a.context xs left
                      (omega (arith, fuel)) in
                  (
                    l2,
                    h2,
                    rw (not_null, at_p, m, e, c, remove_if_loop, context_left) e2,
                    rw (m, c, kept) (Scan-unlink st out more),
                  )
              | inr c ↦ (
                l1,
                h1,
                rw (not_null, at_p, m, e, c, remove_if_loop, context_left) refl,
                rw (m, c, kept) out,
              )
            ]
        | inr m ↦ elim (Bool-cases a.continue_processing) [
          | inl c ↦
              let (l2, h2, e2, more) =
                remove_if_loop-Scan k h l l.head (some (p, v)) a.context xs (Stands-skip st)
                  (omega (arith, fuel)) in
              (
                l2,
                h2,
                rw (not_null, at_p, m, c, remove_if_loop, context_left) e2,
                rw (m, c, kept) (Scan-skip st more),
              )
          | inr c ↦ (
            l,
            h,
            rw (not_null, at_p, m, c, remove_if_loop, context_left) refl,
            rw (m, c, kept) (Scan-stop h start prev ((p, v) ∷ xs) l st),
          )
        ]
      ]

  abbrev pub RemovesIf : Heap → S → Cells → Exec (Reply (Status × S)) → Type 0
  RemovesIf h s xs r =
      (m : ListInstance) × (g : Heap) × (r ≡ some (reply (success, context_left s xs) (some m) g))
      × Leaves h xs (kept s xs) m g

-- singlylinkedlist_remove_if, with more fuel than the list has items, ends and keeps to the items of
-- the list; it asks the condition for each item in order until an answer says to stop, and exactly
-- the items that matched are taken out of the list, which stays whole, and freed; nothing else has
-- changed.
pub remove_if-RemovesIf :
    {S : Type 0} (condition : S → ℕ → Answer S) (fuel : ℕ) (h : Heap) (l : ListInstance)
    (xs : Cells) (s : S)
    → Represents h l xs
    → length xs < fuel
    → RemovesIf condition h s xs (remove_if fuel h (some l) (some condition) s)
unfolding remove_if
remove_if-RemovesIf condition fuel h l xs s is enough =
    let (m, g, e, left) =
      remove_if_loop-Scan condition fuel h l 0 none s xs (Represents-Stands is) enough in
    let done = ap (λ t. remove_if_loop fuel h l condition s 0 t) is.at_head ∙ e in
    (m, g, rw done refl, Scan-Leaves (Distinct-kept condition s xs is.distinct) left)
