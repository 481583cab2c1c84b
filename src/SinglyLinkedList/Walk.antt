-- ===== src/SinglyLinkedList/Walk.antt =====
-- The loops of src/singlylinkedlist.c that only read: find, foreach, and the one that destroys.
use azure_c_shared_utility.Base.{
  ℕ, zero, suc, ◌<◌, ◌≡◌, refl, ap, ◌∙◌, inl, inr, Bool, true, false, Bool-cases, none, some, [],
  ◌∷◌, ◌==◌, if◌then◌else◌, Exec, ◌>>=◌, length, arith,
}
use azure_c_shared_utility.Buffer.{success}
use azure_c_shared_utility.SinglyLinkedList.{
  Heap, write, ListInstance, free, find_loop, find, foreach_loop, foreach, destroy_loop, destroy,
}
use azure_c_shared_utility.SinglyLinkedList.Chain.{
  Cells, has, first, Linked, Linked-frame, Distinct, SameOutside, Represents, write-other,
  write-same,
}

-- The address of the first cell that matches, 0 if there is none.
abbrev pub first_match : (ℕ → Bool) → Cells → ℕ
first_match matches [] = 0
first_match matches ((p, v) ∷ xs) = if matches p then p else first_match matches xs

find_loop_lem :
    (k : ℕ) (h : Heap) (match_function : Heap → ℕ → Bool) (xs : Cells)
    → Linked h xs
    → length xs < k
    → find_loop k h match_function (first xs) ≡ some (first_match (match_function h) xs)
unfolding find_loop
find_loop_lem zero h match_function xs s fuel = absurd (omega arith)
find_loop_lem (suc k) h match_function [] s fuel = refl
find_loop_lem (suc k) h match_function ((p, v) ∷ xs) (ne, at_p, s) fuel =
    let not_null : (p == 0) ≡ false = ground (arith, ne) in
    elim (Bool-cases (match_function h p)) [
      | inl hit ↦ rw (not_null, hit, find_loop) refl
      | inr miss ↦
          rw (not_null, miss, at_p, find_loop)
            (find_loop_lem k h match_function xs s (omega (arith, fuel)))
    ]

-- singlylinkedlist_find, with more fuel than the list has items, ends, keeps to the items of the list
-- and returns the handle of the first one that matches, NULL if none does.
pub find_lem :
    (fuel : ℕ) (h : Heap) (l : ListInstance) (xs : Cells) (match_function : Heap → ℕ → Bool)
    → Represents h l xs
    → length xs < fuel
    → find fuel h (some l) (some match_function) ≡ some (first_match (match_function h) xs)
unfolding find
find_lem fuel h l xs match_function is enough =
    ap (λ t. find_loop fuel h match_function t) is.at_head
    ∙ find_loop_lem fuel h match_function xs is.linked enough

-- The actions on the items in order, until one says stop.
unfoldable pub acted : {S : Type 0} → (S → ℕ → S × Bool) → S → Cells → S
acted action s [] = s
acted action s ((p, v) ∷ xs) =
    let r = action s v in elim r.1 [ true ↦ acted action r.0 xs | false ↦ r.0 ]

foreach_loop_lem :
    {S : Type 0} (k : ℕ) (h : Heap) (action : S → ℕ → S × Bool) (s : S) (xs : Cells)
    → Linked h xs
    → length xs < k
    → foreach_loop k h action s (first xs) ≡ some (acted action s xs)
unfolding foreach_loop acted
foreach_loop_lem zero h action s xs linked fuel = absurd (omega arith)
foreach_loop_lem (suc k) h action s [] linked fuel = refl
foreach_loop_lem (suc k) h action s ((p, v) ∷ xs) (ne, at_p, linked) fuel =
    let not_null : (p == 0) ≡ false = ground (arith, ne) in
    elim (Bool-cases (action s v).1) [
      | inl more ↦
          rw (not_null, at_p, more, foreach_loop, acted)
            (foreach_loop_lem k h action (action s v).0 xs linked (omega (arith, fuel)))
      | inr stop ↦ rw (not_null, at_p, stop, foreach_loop, acted) refl
    ]

-- singlylinkedlist_foreach, with more fuel than the list has items, ends, keeps to the items of the
-- list and applies the action to them in order, until one says to stop.
pub foreach_lem :
    {S : Type 0} (fuel : ℕ) (h : Heap) (l : ListInstance) (xs : Cells) (action : S → ℕ → S × Bool)
    (s : S)
    → Represents h l xs
    → length xs < fuel
    → foreach fuel h (some l) (some action) s ≡ some (success, acted action s xs)
unfolding foreach
foreach_lem fuel h l xs action s is enough =
    ap (λ t. foreach_loop fuel h action s t >>= λ r. some (success, r)) is.at_head
    ∙ rw (foreach_loop_lem fuel h action s xs is.linked enough) refl

-- The memory without the items.
abbrev pub Destroys : Heap → Cells → Exec Heap → Type 0
Destroys h xs r =
    (g : Heap) × (r ≡ some g) × SameOutside xs h g × ((a : ℕ) → has a xs ≡ true → g a ≡ none)

destroy_loop-Destroys :
    (k : ℕ) (h : Heap) (xs : Cells)
    → Linked h xs
    → Distinct xs
    → length xs < k
    → Destroys h xs (destroy_loop k h (first xs))
unfolding destroy_loop free
destroy_loop-Destroys zero h xs s d fuel = absurd (omega arith)
destroy_loop-Destroys (suc k) h [] s d fuel = (h, refl, λ a o. refl, λ a i. ground (arith, i))
destroy_loop-Destroys (suc k) h ((p, v) ∷ xs) (ne, at_p, s) (o, d) fuel =
    let not_null : (p == 0) ≡ false = ground (arith, ne) in
    let left =
      Linked-frame h (write h p none) xs s (λ a i. write-other h p none a (ground (arith, i, o))) in
    let (g, e, same, gone) =
      destroy_loop-Destroys k (write h p none) xs left d (omega (arith, fuel)) in
    (
      g,
      rw (not_null, at_p, destroy_loop) e,
      λ a out. same a (ground (arith, out)) ∙ write-other h p none a (ground (arith, out)),
      λ a i. elim (Bool-cases (has a xs)) [
        | inl inside ↦ gone a inside
        | inr outside ↦
            let hit : a ≡ p = ground (arith, i, outside) in rw hit (same p o ∙ write-same h p none)
      ],
    )

-- singlylinkedlist_destroy, with more fuel than the list has items, ends and frees each item of the
-- list once and nothing else.
pub destroy-Destroys :
    (fuel : ℕ) (h : Heap) (l : ListInstance) (xs : Cells)
    → Represents h l xs
    → length xs < fuel
    → Destroys h xs (destroy fuel h (some l))
unfolding destroy
destroy-Destroys fuel h l xs is enough =
    coe 1 0 (i. Destroys h xs (destroy_loop fuel h (is.at_head i)))
      (destroy_loop-Destroys fuel h xs is.linked is.distinct enough)
