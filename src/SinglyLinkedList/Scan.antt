-- ===== src/SinglyLinkedList/Scan.antt =====
-- The loops of singlylinkedlist_remove and singlylinkedlist_remove_if: what they have done to the
-- items from the current one on, behind the previous one.
use azure_c_shared_utility.Base.{
  ℕ, ◌≡◌, ◌≢◌, refl, ◌∙◌, inl, inr, true, false, Bool-cases, Option, none, some, [], ◌∷◌, ◌==◌,
  if◌then◌else◌, arith,
}
use azure_c_shared_utility.SinglyLinkedList.{
  ListItem, list_item, Heap, write, ListInstance, set_next, free, unlink,
}
use azure_c_shared_utility.SinglyLinkedList.Chain.{
  Cells, has, first, last, Linked, Distinct, SameOutside, Linked-frame, last-has, write-other,
  write-same,
}

-- The previous item, if there is one.
abbrev pub Previous : Type 0
Previous = Option (ℕ × ℕ)

abbrev pub address : Previous → ℕ
address none = 0
address (some (q, w)) = q

abbrev pub behind : Previous → Cells → Cells
behind none xs = xs
behind (some c) xs = c ∷ xs

-- The head of the list: `start` while there is a previous item.
abbrev pub front : Previous → (start : ℕ) → Cells → ℕ
front none start xs = first xs
front (some c) start xs = start

-- The items `xs` from the current one on have become `ys`.
pub record Scan (h : Heap) (start : ℕ) (prev : Previous) (xs ys : Cells) (l : ListInstance)
    (g : Heap) : Type 0 where
  pub linked : Linked g (behind prev ys)
  pub at_head : l.head ≡ front prev start ys
  pub at_tail : l.tail ≡ last (address prev) ys
  pub same : SameOutside (behind prev xs) h g
  pub freed : (a : ℕ) → has a xs ≡ true → has a ys ≡ false → g a ≡ none

tail_left :
    (p q : ℕ) (xs : Cells)
    → has p xs ≡ false
    → (if p == last p xs then q else last p xs) ≡ last q xs
tail_left p q [] out = ground arith
tail_left p q ((r, u) ∷ xs) out = ground (arith, out, last-has p r u xs)

Linked-write :
    (h : Heap) (p : ℕ) (c : Option ListItem) (xs : Cells)
    → has p xs ≡ false
    → Linked h xs
    → Linked (write h p c) xs
Linked-write h p c xs out s =
    Linked-frame h (write h p c) xs s (λ a i. write-other h p c a (ground (arith, i, out)))

unlink-first :
    (h : Heap) (l : ListInstance) (start p v : ℕ) (xs : Cells)
    → Linked h ((p, v) ∷ xs)
    → Distinct ((p, v) ∷ xs)
    → l.tail ≡ last p xs
    → (k : ListInstance) × (g : Heap) × (unlink h l 0 p (first xs) ≡ some (k, g))
      × Scan h start none ((p, v) ∷ xs) xs k g
unfolding unlink free
unlink-first h l start p v xs (np, ep, s) (op, d) t = (
  record { head = first xs; tail = if p == l.tail then 0 else l.tail },
  write h p none,
  rw ep refl,
  record {
    linked = Linked-write h p none xs op s;
    at_head = refl;
    at_tail = rw t (tail_left p 0 xs op);
    same = λ a o. write-other h p none a (ground (arith, o));
    freed = λ a i o. let hit : a ≡ p = ground (arith, i, o) in rw hit (write-same h p none);
  },
)

unlink_behind :
    (h : Heap) (l : ListInstance) (q w p v : ℕ) (xs : Cells)
    → Linked h ((q, w) ∷ (p, v) ∷ xs)
    → Distinct ((q, w) ∷ (p, v) ∷ xs)
    → l.tail ≡ last p xs
    → (k : ListInstance) × (g : Heap) × (unlink h l q p (first xs) ≡ some (k, g))
      × Scan h l.head (some (q, w)) ((p, v) ∷ xs) xs k g
unfolding unlink set_next free
unlink_behind h l q w p v xs (nq, eq, (np, ep, s)) (oq, (op, d)) t =
    let not_null : (q == 0) ≡ false = ground (arith, nq) in
    let apart : (q == p) ≡ false = ground (arith, oq) in
    let apart_back : (p == q) ≡ false = ground (arith, oq) in
    let out_q : has q xs ≡ false = ground (arith, oq) in
    let k : Heap = write h q (some (list_item w (first xs))) in
    let at_p : k p ≡ some (list_item v (first xs)) =
      write-other h q (some (list_item w (first xs))) p apart_back ∙ ep in
    (
      record { head = l.head; tail = if p == l.tail then q else l.tail },
      write k p none,
      rw (not_null, eq, at_p) refl,
      record {
        linked = (
          nq,
          write-other k p none q apart ∙ write-same h q (some (list_item w (first xs))),
          Linked-write k p none xs op (Linked-write h q (some (list_item w (first xs))) xs out_q s),
        );
        at_head = refl;
        at_tail = rw t (tail_left p q xs op);
        same = λ a o.
            write-other k p none a (ground (arith, o))
            ∙ write-other h q (some (list_item w (first xs))) a (ground (arith, o));
        freed = λ a i o. let hit : a ≡ p = ground (arith, i, o) in rw hit (write-same k p none);
      },
    )

-- A loop stands in front of the items `xs`.
pub record Stands (h : Heap) (start : ℕ) (prev : Previous) (xs : Cells) (l : ListInstance)
    : Type 0 where
  pub linked : Linked h (behind prev xs)
  pub distinct : Distinct (behind prev xs)
  pub at_head : l.head ≡ front prev start xs
  pub at_tail : l.tail ≡ last (address prev) xs

pub Stands-linked :
    {h : Heap} {start : ℕ} {prev : Previous} {p v : ℕ} {xs : Cells} {l : ListInstance}
    → Stands h start prev ((p, v) ∷ xs) l
    → (p ≢ 0) × (h p ≡ some (list_item v (first xs)))
Stands-linked {prev = none} st = (st.linked.0, st.linked.1)
Stands-linked {prev = some (q, w)} st = (st.linked.2.0, st.linked.2.1)

-- The current item is taken out.
pub unlink-Scan :
    (h : Heap) (start : ℕ) (prev : Previous) (p v : ℕ) (xs : Cells) (l : ListInstance)
    → Stands h start prev ((p, v) ∷ xs) l
    → (k : ListInstance) × (g : Heap) × (unlink h l (address prev) p (first xs) ≡ some (k, g))
      × Scan h start prev ((p, v) ∷ xs) xs k g
unlink-Scan h start none p v xs l st =
    unlink-first h l start p v xs st.linked st.distinct st.at_tail
unlink-Scan h start (some (q, w)) p v xs l st =
    coe 0 1
      (i.
        (k : ListInstance) × (g : Heap) × (unlink h l q p (first xs) ≡ some (k, g))
        × Scan h (st.at_head i) (some (q, w)) ((p, v) ∷ xs) xs k g)
      (unlink_behind h l q w p v xs st.linked st.distinct st.at_tail)

-- The loop stops in front of the items.
pub Scan-stop :
    (h : Heap) (start : ℕ) (prev : Previous) (xs : Cells) (l : ListInstance)
    → Stands h start prev xs l
    → Scan h start prev xs xs l h
Scan-stop h start prev xs l st = record {
  linked = st.linked;
  at_head = st.at_head;
  at_tail = st.at_tail;
  same = λ a o. refl;
  freed = λ a i o. ground (arith, i, o);
}

-- The loop goes on behind the current item.
pub Stands-skip :
    {h : Heap} {start : ℕ} {prev : Previous} {p v : ℕ} {xs : Cells} {l : ListInstance}
    → Stands h start prev ((p, v) ∷ xs) l
    → Stands h l.head (some (p, v)) xs l
Stands-skip {prev = none} st = record {
  linked = st.linked;
  distinct = st.distinct;
  at_head = refl;
  at_tail = st.at_tail;
}
Stands-skip {prev = some (q, w)} st = record {
  linked = st.linked.2;
  distinct = st.distinct.1;
  at_head = refl;
  at_tail = st.at_tail;
}

pub Scan-skip :
    {h g : Heap} {start : ℕ} {prev : Previous} {p v : ℕ} {xs ys : Cells} {l k : ListInstance}
    → Stands h start prev ((p, v) ∷ xs) l
    → Scan h l.head (some (p, v)) xs ys k g
    → Scan h start prev ((p, v) ∷ xs) ((p, v) ∷ ys) k g
Scan-skip {prev = none} st s = record {
  linked = s.linked;
  at_head = s.at_head ∙ st.at_head;
  at_tail = s.at_tail;
  same = s.same;
  freed = λ a i o. s.freed a (ground (arith, i, o)) (ground (arith, i, o));
}
Scan-skip {prev = some (q, w)} st s = record {
  linked = (st.linked.0, s.same q st.distinct.0 ∙ st.linked.1, s.linked);
  at_head = s.at_head ∙ st.at_head;
  at_tail = s.at_tail;
  same = λ a o. s.same a (ground (arith, o));
  freed = λ a i o. s.freed a (ground (arith, i, o)) (ground (arith, i, o));
}

-- The loop goes on when the current item is taken out.
pub Stands-unlink :
    {h g : Heap} {start : ℕ} {prev : Previous} {p v : ℕ} {xs : Cells} {l k : ListInstance}
    → Stands h start prev ((p, v) ∷ xs) l
    → Scan h start prev ((p, v) ∷ xs) xs k g
    → Stands g start prev xs k
Stands-unlink {prev = none} st s = record {
  linked = s.linked;
  distinct = st.distinct.1;
  at_head = s.at_head;
  at_tail = s.at_tail;
}
Stands-unlink {prev = some (q, w)} st s = record {
  linked = s.linked;
  distinct = (ground (arith, st.distinct.0), st.distinct.1.1);
  at_head = s.at_head;
  at_tail = s.at_tail;
}

not-behind :
    {h : Heap} {start : ℕ} {prev : Previous} {p v : ℕ} {xs : Cells} {l : ListInstance}
    → Stands h start prev ((p, v) ∷ xs) l
    → has p (behind prev xs) ≡ false
not-behind {prev = none} st = st.distinct.0
not-behind {prev = some (q, w)} st = ground (arith, st.distinct.0, st.distinct.1.0)

has-behind :
    (a : ℕ) (prev : Previous) (p v : ℕ) (xs : Cells)
    → has a (behind prev ((p, v) ∷ xs)) ≡ false
    → has a (behind prev xs) ≡ false
has-behind a none p v xs o = ground (arith, o)
has-behind a (some (q, w)) p v xs o = ground (arith, o)

pub Scan-unlink :
    {h g g' : Heap} {start : ℕ} {prev : Previous} {p v : ℕ} {xs ys : Cells} {l k k' : ListInstance}
    → Stands h start prev ((p, v) ∷ xs) l
    → Scan h start prev ((p, v) ∷ xs) xs k g
    → Scan g start prev xs ys k' g'
    → Scan h start prev ((p, v) ∷ xs) ys k' g'
Scan-unlink {h} {g} {g'} {prev = prev} {p} {v} {xs} {ys} st s t = record {
  linked = t.linked;
  at_head = t.at_head;
  at_tail = t.at_tail;
  same = λ a o. t.same a (has-behind a prev p v xs o) ∙ s.same a o;
  freed = λ a i o. elim (Bool-cases (has a xs)) [
    | inl inside ↦ t.freed a inside o
    | inr outside ↦
        let hit : a ≡ p = ground (arith, i, outside) in
        rw hit (t.same p (not-behind st) ∙ s.freed p (ground arith) (ground (arith, hit, outside)))
  ];
}
