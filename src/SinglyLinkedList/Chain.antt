-- ===== src/SinglyLinkedList/Chain.antt =====
-- What a list of src/singlylinkedlist.c stands for: the addresses and the items, in order.
use azure_c_shared_utility.Base.{
  ℕ, ◌≡◌, ◌≢◌, refl, ◌∙◌, Bool, true, false, ◌||◌, Option, some, List, [], ◌∷◌, ◌++◌, ◌==◌, arith,
}
use azure_c_shared_utility.SinglyLinkedList.{
  ListItem, list_item, Heap, write, ListInstance, set_next,
}

abbrev pub Cells : Type 0
Cells = List (ℕ × ℕ)

abbrev pub has : ℕ → Cells → Bool
has a [] = false
has a ((p, v) ∷ xs) = (a == p) || has a xs

abbrev pub first : Cells → ℕ
first [] = 0
first ((p, v) ∷ xs) = p

abbrev pub last : ℕ → Cells → ℕ
last d [] = d
last d ((p, v) ∷ xs) = last p xs

abbrev pub Linked : Heap → Cells → Type 0
Linked h [] = Unit
Linked h ((p, v) ∷ xs) = (p ≢ 0) × (h p ≡ some (list_item v (first xs))) × Linked h xs

abbrev pub Distinct : Cells → Type 0
Distinct [] = Unit
Distinct ((p, v) ∷ xs) = (has p xs ≡ false) × Distinct xs

-- `g` differs from `h` at most at the addresses of `xs`.
abbrev pub SameOutside : Cells → Heap → Heap → Type 0
SameOutside xs h g = (a : ℕ) → has a xs ≡ false → g a ≡ h a

-- The list instance stands for the cells.
pub record Represents (h : Heap) (l : ListInstance) (xs : Cells) : Type 0 where
  pub linked : Linked h xs
  pub distinct : Distinct xs
  pub at_head : l.head ≡ first xs
  pub at_tail : l.tail ≡ last 0 xs

pub has-append : (a : ℕ) (xs ys : Cells) → has a (xs ++ ys) ≡ (has a xs || has a ys)
has-append a [] ys = refl
has-append a ((p, v) ∷ xs) ys = ground (arith, has-append a xs ys)

pub Linked-frame :
    (h g : Heap) (xs : Cells) → Linked h xs → ((a : ℕ) → has a xs ≡ true → g a ≡ h a) → Linked g xs
Linked-frame h g [] s same = _
Linked-frame h g ((p, v) ∷ xs) (ne, e, s) same =
    (ne, same p (ground arith) ∙ e, Linked-frame h g xs s (λ a i. same a (ground (arith, i))))

pub has-snoc :
    (a p v : ℕ) (xs : Cells)
    → has a (xs ++ ((p, v) ∷ [])) ≡ false
    → (has a xs ≡ false) × ((a == p) ≡ false)
has-snoc a p v [] o = (refl, ground (arith, o))
has-snoc a p v ((q, w) ∷ xs) o =
    let rest = has-snoc a p v xs (ground (arith, o)) in (ground (arith, o, rest.0), rest.1)

pub write-other :
    (h : Heap) (p : ℕ) (c : Option ListItem) (a : ℕ) → (a == p) ≡ false → write h p c a ≡ h a
unfolding write
write-other h p c a e = rw e refl

pub write-same : (h : Heap) (p : ℕ) (c : Option ListItem) → write h p c p ≡ c
unfolding write
write-same h p c = ground arith

pub last-has : (d p v : ℕ) (xs : Cells) → has (last d ((p, v) ∷ xs)) ((p, v) ∷ xs) ≡ true
last-has d p v [] = ground arith
last-has d p v ((q, w) ∷ xs) = ground (arith, last-has p q w xs)

pub last-ne_null : (h : Heap) (p v : ℕ) (xs : Cells) → Linked h ((p, v) ∷ xs) → last p xs ≢ 0
last-ne_null h p v [] (ne, e, s) = ne
last-ne_null h p v ((q, w) ∷ xs) (ne, e, s) = last-ne_null h q w xs s

pub last-append : (d p v : ℕ) (xs : Cells) → last d (xs ++ ((p, v) ∷ [])) ≡ p
last-append d p v [] = refl
last-append d p v ((q, w) ∷ xs) = last-append q p v xs

pub Distinct-append :
    (xs : Cells) (p v : ℕ) → Distinct xs → has p xs ≡ false → Distinct (xs ++ ((p, v) ∷ []))
Distinct-append [] p v d out = (refl, _)
Distinct-append ((q, w) ∷ xs) p v (o, d) out = (
  ground (arith, has-append q xs ((p, v) ∷ []), o, out),
  Distinct-append xs p v d (ground (arith, out)),
)

-- The next pointer of the last cell is set to a further item.
pub set_next-last :
    (h : Heap) (q w : ℕ) (xs : Cells) (p v : ℕ)
    → Linked h ((q, w) ∷ xs)
    → Distinct ((q, w) ∷ xs)
    → has p ((q, w) ∷ xs) ≡ false
    → p ≢ 0
    → h p ≡ some (list_item v 0)
    → (g : Heap) × (set_next h (last q xs) p ≡ some g)
      × Linked g ((q, w) ∷ (xs ++ ((p, v) ∷ [])))
      × SameOutside ((q, w) ∷ xs) h g
unfolding set_next write
set_next-last h q w [] p v (ne, e, s) d out np at_p = (
  write h q (some (list_item w p)),
  rw e refl,
  (ne, ground arith, (np, ground (arith, at_p), _)),
  ground arith,
)
set_next-last h q w ((r, u) ∷ xs) p v (ne, e, s) (o, d) out np at_p =
    let (g, set, linked, same) = set_next-last h r u xs p v s d (ground (arith, out)) np at_p in
    (g, set, (ne, same q o ∙ e, linked), λ a i. same a (ground (arith, i)))
