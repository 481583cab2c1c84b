-- ===== src/SinglyLinkedList/Add.antt =====
-- singlylinkedlist_add on the cells that a list stands for.
use azure_c_shared_utility.Base.{
  ℕ, ◌≡◌, ◌≢◌, refl, sym, ◌∙◌, true, false, ◌||◌, none, some, [], ◌∷◌, ◌++◌, ◌==◌, Exec, arith,
}
use azure_c_shared_utility.SinglyLinkedList.{
  list_item, Heap, write, ListInstance, Reply, reply, add,
}
use azure_c_shared_utility.SinglyLinkedList.Chain.{
  Cells, has, has-snoc, write-other, Linked, SameOutside, Represents, Linked-frame, last-append,
  Distinct-append, set_next-last,
}

-- The item is at the end, and nothing but the list has changed.
pub Adds : Heap → Cells → (result item : ℕ) → Exec (Reply ℕ) → Type 0
Adds h xs result item r =
    (l : ListInstance) × (g : Heap) × (r ≡ some (reply result (some l) g))
    × Represents g l (xs ++ ((result, item) ∷ []))
    × SameOutside (xs ++ ((result, item) ∷ [])) h g

-- singlylinkedlist_add, given an item and an address for it that is not NULL and not in use, keeps to
-- the items of the list, returns the address, and has added the item at the end of the list; nothing
-- outside of the list has changed.
pub add-Adds :
    (h : Heap) (l : ListInstance) (xs : Cells) (result item : ℕ)
    → Represents h l xs
    → result ≢ 0
    → h result ≡ none
    → has result xs ≡ false
    → item ≢ 0
    → Adds h xs result item (add result h (some l) item)
unfolding add Adds write
add-Adds h l [] result item is ne unused out has_item =
    let given : ((item == 0) || (result == 0)) ≡ false = ground arith in
    let empty : (l.head == 0) ≡ true = ground (arith, is.at_head) in
    (
      record { head = result; tail = result },
      write h result (some (list_item item 0)),
      rw (given, empty) refl,
      record {
        linked = (ne, ground arith, _);
        distinct = (refl, _);
        at_head = refl;
        at_tail = refl;
      },
      ground arith,
    )
add-Adds h l ((p, v) ∷ xs) result item is ne unused out has_item =
    let given : ((item == 0) || (result == 0)) ≡ false = ground arith in
    let full : (l.head == 0) ≡ false = ground (arith, is.at_head, is.linked.0) in
    let k : Heap = write h result (some (list_item item 0)) in
    let linked : Linked k ((p, v) ∷ xs) =
      Linked-frame h k ((p, v) ∷ xs) is.linked (λ a i. ground (arith, i, out)) in
    let (g, set, chain, same) =
      set_next-last k p v xs result item linked is.distinct out ne (ground arith) in
    (
      record { head = l.head; tail = result },
      g,
      rw (given, full, is.at_tail, set) refl,
      record {
        linked = chain;
        distinct = Distinct-append ((p, v) ∷ xs) result item is.distinct out;
        at_head = is.at_head;
        at_tail = sym (last-append 0 result item ((p, v) ∷ xs));
      },
      λ a o.
          let (out_xs, apart) = has-snoc a result item ((p, v) ∷ xs) o in
          same a out_xs ∙ write-other h result (some (list_item item 0)) a apart,
    )
