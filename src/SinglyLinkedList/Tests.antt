-- ===== src/SinglyLinkedList/Tests.antt =====
-- Runs of src/singlylinkedlist.c, and the theorems about it at concrete inputs.
use azure_c_shared_utility.Base.{ℕ, ◌+◌, ◌==◌, refl, Bool, true, false, none, some, [], ◌∷◌, arith}
use azure_c_shared_utility.SinglyLinkedList.{
  list_item, Heap, write, ListInstance, Answer, add, remove, remove_if, destroy,
}
use azure_c_shared_utility.SinglyLinkedList.Chain.{Cells, Represents}
use azure_c_shared_utility.SinglyLinkedList.Add.{Adds, add-Adds}
use azure_c_shared_utility.SinglyLinkedList.Remove.{Removes, remove-Removes}
use azure_c_shared_utility.SinglyLinkedList.RemoveIf.{RemovesIf, remove_if-RemovesIf}
use azure_c_shared_utility.SinglyLinkedList.Walk.{Destroys, destroy-Destroys}

abbrev no_items : Heap
no_items a = none

abbrev three_items : Heap
three_items =
    write (write (write no_items 8 (some (list_item 100 24))) 24 (some (list_item 200 16))) 16
      (some (list_item 300 0))

abbrev three : ListInstance
three = record { head = 8; tail = 16 }

abbrev three_cells : Cells
three_cells = (8, 100) ∷ (24, 200) ∷ (16, 300) ∷ []

three-Represents : Represents three_items three three_cells
unfolding write
three-Represents = record {
  linked = (omega arith, refl, (omega arith, refl, (omega arith, refl, _)));
  distinct = (refl, (refl, (refl, _)));
  at_head = refl;
  at_tail = refl;
}

add-Adds_example : Adds three_items three_cells 40 400 (add 40 three_items (some three) 400)
unfolding write
add-Adds_example =
    add-Adds three_items three three_cells 40 400 three-Represents (omega arith) refl refl
      (omega arith)

remove-Removes_example : Removes three_items three_cells 16 (remove 4 three_items (some three) 16)
remove-Removes_example =
    remove-Removes 4 three_items three three_cells 16 three-Represents (omega arith) (omega arith)

-- Removes the items below 300 and counts them; stops at 200.
abbrev below : ℕ → ℕ → Answer ℕ
below n v = record {
  context = n + 1;
  matched = elim (v == 300) [ true ↦ false | false ↦ true ];
  continue_processing = elim (v == 200) [ true ↦ false | false ↦ true ];
}

remove_if-RemovesIf_example :
    RemovesIf below three_items 0 three_cells (remove_if 4 three_items (some three) (some below) 0)
remove_if-RemovesIf_example =
    remove_if-RemovesIf below 4 three_items three three_cells 0 three-Represents (omega arith)

-- Looks for the item 200 through its handle.
abbrev is_200 : Heap → ℕ → Bool
is_200 h p = elim (h p) [ none ↦ false | some n ↦ n.item == 200 ]

destroy-Destroys_example : Destroys three_items three_cells (destroy 4 three_items (some three))
destroy-Destroys_example =
    destroy-Destroys 4 three_items three three_cells three-Represents (omega arith)
