-- ===== src/SinglyLinkedList/Remove.antt =====
-- singlylinkedlist_remove on the cells that a list stands for.
use azure_c_shared_utility.Base.{
  ℕ, zero, suc, ◌<◌, ◌≡◌, ◌≢◌, refl, ap, ◌∙◌, inl, inr, Bool, true, false, Bool-cases, none, some,
  [], ◌∷◌, ◌==◌, if◌then◌else◌, Exec, length, arith,
}
use azure_c_shared_utility.Buffer.{Status, success, failure}
use azure_c_shared_utility.SinglyLinkedList.{Heap, ListInstance, Reply, reply, remove_loop, remove}
use azure_c_shared_utility.SinglyLinkedList.Scan.{
  Previous, address, Scan, Stands, Stands-linked, unlink-Scan, Scan-stop, Stands-skip, Scan-skip,
}
use azure_c_shared_utility.SinglyLinkedList.Chain.{
  Cells, has, first, Distinct, SameOutside, Represents,
}

unfoldable pub erase : Cells → ℕ → Cells
erase [] a = []
erase ((p, v) ∷ xs) a = if p == a then xs else (p, v) ∷ erase xs a

has-erase : (b : ℕ) (xs : Cells) (a : ℕ) → has b xs ≡ false → has b (erase xs a) ≡ false
unfolding erase
has-erase b [] a out = refl
has-erase b ((p, v) ∷ xs) a out = ground (arith, has-erase b xs a)

Distinct-erase : (xs : Cells) (a : ℕ) → Distinct xs → Distinct (erase xs a)
unfolding erase
Distinct-erase [] a d = _
Distinct-erase ((p, v) ∷ xs) a (o, d) = elim (Bool-cases (p == a)) [
  | inl hit ↦ rw hit d
  | inr miss ↦ rw miss (has-erase p xs a o, Distinct-erase xs a d)
]

-- The removed items are freed, and nothing outside of the list has changed.
pub record Leaves (h : Heap) (xs ys : Cells) (l : ListInstance) (g : Heap) : Type 0 where
  pub represents : Represents g l ys
  pub same : SameOutside xs h g
  pub freed : (a : ℕ) → has a xs ≡ true → has a ys ≡ false → g a ≡ none

pub Represents-Stands :
    {h : Heap} {l : ListInstance} {xs : Cells} → Represents h l xs → Stands h 0 none xs l
Represents-Stands is = record {
  linked = is.linked;
  distinct = is.distinct;
  at_head = is.at_head;
  at_tail = is.at_tail;
}

pub Scan-Leaves :
    {h g : Heap} {xs ys : Cells} {l : ListInstance}
    → Distinct ys
    → Scan h 0 none xs ys l g
    → Leaves h xs ys l g
Scan-Leaves d s = record {
  represents = record { linked = s.linked; distinct = d; at_head = s.at_head; at_tail = s.at_tail };
  same = s.same;
  freed = s.freed;
}

abbrev pub found : Bool → Status
found b = if b then success else failure

remove_loop-Scan :
    (k : ℕ) (h : Heap) (l : ListInstance) (start : ℕ) (prev : Previous) (xs : Cells) (item : ℕ)
    → Stands h start prev xs l
    → length xs < k
    → (m : ListInstance) × (g : Heap) × (remove_loop k h l item (address prev) (first xs)
        ≡ some (reply (found (has item xs)) (some m) g))
      × Scan h start prev xs (erase xs item) m g
unfolding remove_loop erase
remove_loop-Scan zero h l start prev xs item st fuel = absurd (omega arith)
remove_loop-Scan (suc k) h l start prev [] item st fuel =
    (l, h, refl, Scan-stop h start prev [] l st)
remove_loop-Scan (suc k) h l start prev ((p, v) ∷ xs) item st fuel =
    let (ne, at_p) = Stands-linked st in
    let not_null : (p == 0) ≡ false = ground (arith, ne) in
    elim (Bool-cases (p == item)) [
      | inl hit ↦
          let (m, g, e, s) = unlink-Scan h start prev p v xs l st in
          let there : has item ((p, v) ∷ xs) ≡ true = ground (arith, hit) in
          (m, g, rw (not_null, at_p, hit, e, there, remove_loop) refl, rw hit s)
      | inr miss ↦
          let (m, g, e, s) =
            remove_loop-Scan k h l l.head (some (p, v)) xs item (Stands-skip st)
              (omega (arith, fuel)) in
          let there : has item ((p, v) ∷ xs) ≡ has item xs = ground (arith, miss) in
          (m, g, rw (not_null, at_p, miss, there, remove_loop) e, rw miss (Scan-skip st s))
    ]

abbrev pub Removes : Heap → Cells → (item : ℕ) → Exec (Reply Status) → Type 0
Removes h xs item r =
    (m : ListInstance) × (g : Heap) × (r ≡ some (reply (found (has item xs)) (some m) g))
    × Leaves h xs (erase xs item) m g

-- singlylinkedlist_remove, with more fuel than the list has items, ends and keeps to the items of the
-- list; it returns success exactly if the handle, which is not NULL, is that of an item of the list;
-- that item is taken out of the list and freed, wherever it stands, and nothing else has changed.
pub remove-Removes :
    (fuel : ℕ) (h : Heap) (l : ListInstance) (xs : Cells) (item : ℕ)
    → Represents h l xs
    → length xs < fuel
    → item ≢ 0
    → Removes h xs item (remove fuel h (some l) item)
unfolding remove
remove-Removes fuel h l xs item is enough ne =
    let (m, g, e, s) = remove_loop-Scan fuel h l 0 none xs item (Represents-Stands is) enough in
    let given : (item == 0) ≡ false = ground arith in
    (
      m,
      g,
      rw given (ap (λ t. remove_loop fuel h l item 0 t) is.at_head ∙ e),
      Scan-Leaves (Distinct-erase xs item is.distinct) s,
    )
