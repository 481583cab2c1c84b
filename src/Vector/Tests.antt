-- ===== src/Vector/Tests.antt =====
-- Vectors of src/vector.c.
use azure_c_shared_utility.Base.{
  ◌*◌, ◌≡◌, refl, Bool, true, false, some, List, [], ◌∷◌, ◌==◌, Bytes, Garbage, get_or, join, arith,
}
use azure_c_shared_utility.Vector.{Vector, at_offset, push_back, erase, find_if}
use azure_c_shared_utility.Vector.Spec.{Represents}
use azure_c_shared_utility.Vector.Laws.{Pushes, push_back-Refines}
use azure_c_shared_utility.Vector.Erase.{erase-Refines}
use azure_c_shared_utility.Vector.Find.{first_at, find_if-first}

abbrev pairs : List Bytes
pairs = (1 ∷ 2 ∷ []) ∷ (3 ∷ 4 ∷ []) ∷ (5 ∷ 6 ∷ []) ∷ []

-- Three elements of two bytes, in a block that is larger.
abbrev three : Vector
three = record { storage = some (1 ∷ 2 ∷ 3 ∷ 4 ∷ 5 ∷ 6 ∷ 9 ∷ 9 ∷ []); count = 3; element_size = 2 }

three-Represents : Represents three pairs
three-Represents = record {
  slack = 9 ∷ 9 ∷ [];
  stored = refl;
  counted = refl;
  sized = (refl, (refl, (refl, _)));
  positive = omega arith;
  fits = omega arith;
}

abbrev zeros : Garbage
zeros i = 0

push_back-Refines_example :
    Pushes three pairs
      ((7 ∷ 8 ∷ []) ∷ [])
      true
      (push_back zeros true three (some (join ((7 ∷ 8 ∷ []) ∷ []))) 1)
push_back-Refines_example =
    push_back-Refines zeros true three pairs (7 ∷ 8 ∷ []) [] three-Represents (refl, _)
      (omega arith)

erase-Refines_example :
    (w : Vector) × (erase zeros false three (at_offset (2 * 1)) 1 ≡ some w)
    × Represents w ((1 ∷ 2 ∷ []) ∷ (5 ∷ 6 ∷ []) ∷ [])
erase-Refines_example =
    erase-Refines zeros false three ((1 ∷ 2 ∷ []) ∷ []) (3 ∷ 4 ∷ []) [] ((5 ∷ 6 ∷ []) ∷ [])
      three-Represents

abbrev starts_with_five : Bytes → Bool
starts_with_five e = get_or e 0 0 == 5

find_if-first_example :
    find_if three (some starts_with_five) ≡ some (first_at 2 starts_with_five 0 pairs)
find_if-first_example = find_if-first three pairs starts_with_five three-Represents

find_five : find_if three (some starts_with_five) ≡ some (some 4)
find_five = find_if-first three pairs starts_with_five three-Represents
