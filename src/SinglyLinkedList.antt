-- ===== src/SinglyLinkedList.antt =====
-- src/singlylinkedlist.c: items at addresses, 0 for NULL. A list handle is an `Option`, `none` for
-- NULL; an item of the user is a pointer, a number. An outer `none` is an access to an address that
-- holds no item, or a loop that is out of fuel. The functions that the user passes do not call the
-- list; what they keep in their context is a state that is passed on.
pub mod Chain
pub mod Add
mod Scan
pub mod Remove
pub mod RemoveIf
pub mod Walk
mod Tests
use azure_c_shared_utility.Base.{
  ℕ, zero, suc, ◌+◌, Bool, true, false, ◌||◌, Option, none, some, List, [], ◌∷◌, ◌==◌,
  if◌then◌else◌, Exec, ◌>>=◌,
}
use azure_c_shared_utility.Buffer.{Status, success, failure}

pub record ListItem : Type 0 where
  pub item : ℕ
  pub next : ℕ

abbrev pub list_item : ℕ → ℕ → ListItem
list_item v q = record { item = v; next = q }

abbrev pub Heap : Type 0
Heap = ℕ → Option ListItem

unfoldable pub write : Heap → ℕ → Option ListItem → Heap
write h p c a = if a == p then c else h a

pub record ListInstance : Type 0 where
  pub head : ℕ
  pub tail : ℕ

pub record Reply (A : Type 0) : Type 0 where
  pub result : A
  pub list : Option ListInstance
  pub heap : Heap

abbrev pub reply : {A : Type 0} → A → Option ListInstance → Heap → Reply A
reply r l h = record { result = r; list = l; heap = h }

unfoldable pub set_next : Heap → ℕ → ℕ → Exec Heap
set_next h p q = do n ← h p; some (write h p (some (record n { next = q })))

unfoldable pub free : Heap → ℕ → Exec Heap
free h p = do n ← h p; some (write h p none)

-- singlylinkedlist_create
unfoldable pub create : (got : Bool) → Option ListInstance
create got = if got then some (record { head = 0; tail = 0 }) else none

-- The loop of singlylinkedlist_destroy from `head` on.
unfoldable pub destroy_loop : (fuel : ℕ) → Heap → (head : ℕ) → Exec Heap
destroy_loop zero h head = none
destroy_loop (suc k) h head = elim (head == 0) [
  | true ↦ some h
  | false ↦ do n ← h head; g ← free h head; destroy_loop k g n.next
]

unfoldable pub destroy : (fuel : ℕ) → Heap → Option ListInstance → Exec Heap
destroy fuel h none = some h
destroy fuel h (some l) = destroy_loop fuel h l.head

-- singlylinkedlist_add; `result` is what malloc gives, 0 for NULL.
unfoldable pub add : (result : ℕ) → Heap → Option ListInstance → (item : ℕ) → Exec (Reply ℕ)
add result h none item = some (reply 0 none h)
add result h (some l) item =
    if item == 0 || result == 0
    then some (reply 0 (some l) h)
    else (let g = write h result (some (list_item item 0)) in
        if l.head == 0
        then some (reply result (some (record { head = result; tail = result })) g)
        else (do
          k ← set_next g l.tail result
          some (reply result (some (record l { tail = result })) k)))

-- An item and the one in front of it are found: the item is taken out and freed.
unfoldable pub unlink :
    Heap → ListInstance → (previous_item current_item next : ℕ) → Exec (ListInstance × Heap)
unlink h l previous_item current_item next =
    let tail = if current_item == l.tail then previous_item else l.tail in
    if previous_item == 0
    then (do g ← free h current_item; some (record { head = next; tail = tail }, g))
    else (do
      k ← set_next h previous_item next
      g ← free k current_item
      some (record l { tail = tail }, g))

unfoldable pub remove_loop :
    (fuel : ℕ) → Heap → ListInstance → (item previous_item current_item : ℕ) → Exec (Reply Status)
remove_loop zero h l item previous_item current_item = none
remove_loop (suc k) h l item previous_item current_item = elim (current_item == 0) [
  | true ↦ some (reply failure (some l) h)
  | false ↦ do
    n ← h current_item
    elim (current_item == item) [
      | true ↦ do
        r ← unlink h l previous_item current_item n.next
        some (reply success (some r.0) r.1)
      | false ↦ remove_loop k h l item current_item n.next
    ]
]

-- singlylinkedlist_remove
unfoldable pub remove : (fuel : ℕ) → Heap → Option ListInstance → (item : ℕ) → Exec (Reply Status)
remove fuel h none item = some (reply failure none h)
remove fuel h (some l) item =
    if item == 0 then some (reply failure (some l) h) else remove_loop fuel h l item 0 l.head

unfoldable pub get_head_item : Option ListInstance → ℕ
get_head_item none = 0
get_head_item (some l) = l.head

unfoldable pub get_next_item : Heap → (item_handle : ℕ) → Exec ℕ
get_next_item h item_handle =
    if item_handle == 0 then some 0 else (do n ← h item_handle; some n.next)

unfoldable pub item_get_value : Heap → (item_handle : ℕ) → Exec ℕ
item_get_value h item_handle =
    if item_handle == 0 then some 0 else (do n ← h item_handle; some n.item)

-- The match function is given an item's handle, through which it reads the item in memory.
unfoldable pub find_loop : (fuel : ℕ) → Heap → (Heap → ℕ → Bool) → (current : ℕ) → Exec ℕ
find_loop zero h match_function current = none
find_loop (suc k) h match_function current = elim (current == 0) [
  | true ↦ some 0
  | false ↦ elim (match_function h current) [
    | true ↦ some current
    | false ↦ do n ← h current; find_loop k h match_function n.next
  ]
]

-- singlylinkedlist_find
unfoldable pub find : (fuel : ℕ) → Heap → Option ListInstance → Option (Heap → ℕ → Bool) → Exec ℕ
find fuel h none match_function = some 0
find fuel h (some l) none = some 0
find fuel h (some l) (some match_function) = find_loop fuel h match_function l.head

-- What a function of the user answers, and its context afterwards.
pub record Answer (S : Type 0) : Type 0 where
  pub context : S
  pub matched : Bool
  pub continue_processing : Bool

unfoldable pub remove_if_loop :
    {S : Type 0}
    → (fuel : ℕ) → Heap
    → ListInstance
    → (S → ℕ → Answer S)
    → S
    → (previous_item current_item : ℕ) → Exec (S × ListInstance × Heap)
remove_if_loop zero h l condition s previous_item current_item = none
remove_if_loop (suc k) h l condition s previous_item current_item = elim (current_item == 0) [
  | true ↦ some (s, l, h)
  | false ↦ do
    n ← h current_item
    let a = condition s n.item in
        elim a.matched [
          | true ↦ do
            r ← unlink h l previous_item current_item n.next
            elim a.continue_processing [
              | true ↦ remove_if_loop k r.1 r.0 condition a.context previous_item n.next
              | false ↦ some (a.context, r.0, r.1)
            ]
          | false ↦ elim a.continue_processing [
            | true ↦ remove_if_loop k h l condition a.context current_item n.next
            | false ↦ some (a.context, l, h)
          ]
        ]
]

-- singlylinkedlist_remove_if; the reply has the context afterwards.
unfoldable pub remove_if :
    {S : Type 0}
    → (fuel : ℕ) → Heap
    → Option ListInstance
    → Option (S → ℕ → Answer S)
    → S
    → Exec (Reply (Status × S))
remove_if fuel h none condition s = some (reply (failure, s) none h)
remove_if fuel h (some l) none s = some (reply (failure, s) (some l) h)
remove_if fuel h (some l) (some condition) s = do
  r ← remove_if_loop fuel h l condition s 0 l.head
  some (reply (success, r.0) (some r.1) r.2)

-- An action has no use for `matched`.
unfoldable pub foreach_loop :
    {S : Type 0} → (fuel : ℕ) → Heap → (S → ℕ → S × Bool) → S → (list_item : ℕ) → Exec S
foreach_loop zero h action s list_item = none
foreach_loop (suc k) h action s list_item = elim (list_item == 0) [
  | true ↦ some s
  | false ↦ do
    n ← h list_item
    let r = action s n.item in
        elim r.1 [ true ↦ foreach_loop k h action r.0 n.next | false ↦ some r.0 ]
]

-- singlylinkedlist_foreach
unfoldable pub foreach :
    {S : Type 0}
    → (fuel : ℕ) → Heap
    → Option ListInstance
    → Option (S → ℕ → S × Bool)
    → S
    → Exec (Status × S)
foreach fuel h none action s = some (failure, s)
foreach fuel h (some l) none s = some (failure, s)
foreach fuel h (some l) (some action) s = do
  r ← foreach_loop fuel h action s l.head
  some (success, r)
