-- ===== src/Map/Slots.antt =====
-- The arrays of src/map.c under the entries that they hold.
use azure_c_shared_utility.Base.{
  ℕ, suc, ◌+◌, ◌-◌, ◌≡◌, ◌∙◌, sym, ap, refl, true, false, Option, none, some, [], ◌∷◌, ◌++◌,
  append_assoc, arith, Bytes, length, drop, take_append, drop_append_suc, Bool-cases, inl, inr,
}
use azure_c_shared_utility.Map.{Slots, bytes_eq, store, find_loop, moved_down}
use azure_c_shared_utility.Map.Spec.{
  Entries, key_slots, value_slots, index_of, lookup, removed, replaced,
}

pub length-key_slots : (es : Entries) → length (key_slots es) ≡ length es
length-key_slots [] = refl
length-key_slots ((k, v) ∷ es) = ap suc (length-key_slots es)

pub length-value_slots : (es : Entries) → length (value_slots es) ≡ length es
length-value_slots [] = refl
length-value_slots ((k, v) ∷ es) = ap suc (length-value_slots es)

abbrev pub shift : ℕ → Option ℕ → Option ℕ
shift i none = none
shift i (some j) = some (i + j)

-- findKey finds the first pair with the key.
pub find_loop_lem :
    (key : Bytes) (es : Entries) (i : ℕ) (spare : Slots)
    → find_loop key (length es) i (key_slots es ++ spare) ≡ some (shift i (index_of key es))
unfolding find_loop index_of
find_loop_lem key [] i spare = refl
find_loop_lem key ((k, v) ∷ es) i spare = elim (Bool-cases (bytes_eq k key)) [
  | inl e ↦ rw e (ap (λ t. some (some t)) (omega arith))
  | inr ne ↦ rw ne (find_loop_lem key es (i + 1) spare ∙ ap some (next (index_of key es)))
]
  where
    next :
        (o : Option ℕ) → shift (i + 1) o ≡ shift i (elim o [ none ↦ none | some j ↦ some (suc j) ])
    next none = refl
    next (some j) = ap some (omega arith)

-- A key that is found splits the entries at its pair.
pub record Found (key : Bytes) (es : Entries) : Type 0 where
  pub pre : Entries
  pub k : Bytes
  pub v : Bytes
  pub post : Entries
  pub split : es ≡ pre ++ ((k, v) ∷ post)
  pub index : index_of key es ≡ some (length pre)
  pub hit : lookup key es ≡ some v
  pub remove : removed key es ≡ pre ++ post
  pub replace : (value : Bytes) → replaced key value es ≡ pre ++ ((k, value) ∷ post)

pub data Search (key : Bytes) (es : Entries) : Type 0 where
  missing : index_of key es ≡ none → lookup key es ≡ none → Search key es
  found : Found key es → Search key es

Found-first : (key k v : Bytes) (es : Entries) → bytes_eq k key ≡ true → Found key ((k, v) ∷ es)
unfolding index_of lookup removed replaced
Found-first key k v es e = record {
  pre = [];
  k = k;
  v = v;
  post = es;
  split = refl;
  index = rw e;
  hit = rw e;
  remove = rw e;
  replace = λ value. rw e;
}

Found-later :
    (key k v : Bytes) (es : Entries)
    → bytes_eq k key ≡ false
    → Found key es
    → Found key ((k, v) ∷ es)
unfolding index_of lookup removed replaced
Found-later key k v es ne f = record {
  pre = (k, v) ∷ f.pre;
  k = f.k;
  v = f.v;
  post = f.post;
  split = ap (λ t. (k, v) ∷ t) f.split;
  index = rw (ne, f.index);
  hit = rw ne f.hit;
  remove = rw ne (ap (λ t. (k, v) ∷ t) f.remove);
  replace = λ value. rw ne (ap (λ t. (k, v) ∷ t) (f.replace value));
}

missing_later :
    (key k v : Bytes) (es : Entries)
    → bytes_eq k key ≡ false
    → index_of key es ≡ none
    → lookup key es ≡ none
    → Search key ((k, v) ∷ es)
unfolding index_of lookup
missing_later key k v es ne i l = missing (rw (ne, i)) (rw ne l)

pub Search-entries : (key : Bytes) (es : Entries) → Search key es
Search-entries key [] = missing (unfold index_of in refl) (unfold lookup in refl)
Search-entries key ((k, v) ∷ es) =
    let rest = Search-entries key es in
    elim (Bool-cases (bytes_eq k key)) [
      | inl e ↦ found (Found-first key k v es e)
      | inr ne ↦ elim rest [
        | missing i l ↦ missing_later key k v es ne i l
        | found f ↦ found (Found-later key k v es ne f)
      ]
    ]

pub key_slots-append : (xs ys : Entries) → key_slots (xs ++ ys) ≡ key_slots xs ++ key_slots ys
key_slots-append [] ys = refl
key_slots-append ((k, v) ∷ xs) ys = ap (λ t. some k ∷ t) (key_slots-append xs ys)

pub value_slots-append :
    (xs ys : Entries) → value_slots (xs ++ ys) ≡ value_slots xs ++ value_slots ys
value_slots-append [] ys = refl
value_slots-append ((k, v) ∷ xs) ys = ap (λ t. some v ∷ t) (value_slots-append xs ys)

-- The memmove of Map_Delete takes the slot behind `xs` out.
pub moved_down_lem :
    (xs ys spare : Slots) (p : Option Bytes) (n : ℕ)
    → n ≡ length xs + suc (length ys)
    → (rest : Slots) × (moved_down (xs ++ (p ∷ (ys ++ spare))) (length xs) n ≡ (xs ++ ys) ++ rest)
unfolding moved_down
moved_down_lem xs ys spare p n e =
    let count : n - length xs - 1 ≡ length ys = omega arith in
    (
      drop (n - 1) (xs ++ (p ∷ (ys ++ spare))),
      rw (take_append xs _, drop_append_suc xs (ys ++ spare) p, count, take_append ys spare)
          (sym (append_assoc xs ys _)),
    )

-- A store into the slot behind `xs`.
pub store_lem :
    (xs spare : Slots) (p q : Option Bytes)
    → store (xs ++ (p ∷ spare)) (length xs) q ≡ some (xs ++ (q ∷ spare))
unfolding store
store_lem [] spare p q = refl
store_lem (x ∷ xs) spare p q = rw (store_lem xs spare p q)
