-- ===== src/Map/Clone.antt =====
-- src/map.c: Map_Clone and Map_CloneVector. Each copy of a string is a request for memory.
pub mod Laws
use azure_c_shared_utility.Base.{
  ℕ, zero, suc, ◌+◌, Bool, true, false, Option, none, some, [], ◌∷◌, ◌==◌, if◌then◌else◌, Bytes,
  Outcomes, Exec, ◌>>=◌,
}
use azure_c_shared_utility.Map.{MapData, Slots}

abbrev pub in_front : Bytes → Option Slots → Option Slots
in_front s none = none
in_front s (some copies) = some (some s ∷ copies)

-- The copies from a slot on, `none` if one fails; mallocAndStrcpy_s fails on NULL too.
pub copy_strings : Outcomes → (left : ℕ) → Slots → Exec (Option Slots)
copy_strings got zero source = some (some [])
copy_strings got (suc left) [] = none
copy_strings got (suc left) (none ∷ source) = some none
copy_strings got (suc left) (some s ∷ source) = elim (got 0) [
  | false ↦ some none
  | true ↦ do copies ← copy_strings (λ i. got (1 + i)) left source; some (in_front s copies)
]

pub clone_vector : Outcomes → Slots → ℕ → Exec (Option Slots)
clone_vector got source count =
    if got 0 then copy_strings (λ i. got (1 + i)) count source else some none

abbrev pub with_keys : Outcomes → MapData → Option Slots → Exec (Option MapData)
with_keys got m none = some none
with_keys got m (some keys) = do
  values ← clone_vector got m.values m.count
  some (elim values [
    | none ↦ none
    | some values' ↦ some (record m { keys = keys; values = values' })
  ])

unfoldable pub clone : Outcomes → Option MapData → Exec (Option MapData)
clone got none = some none
clone got (some m) =
    if got 0
    then (if m.count == 0
        then some (some (record { keys = []; values = []; count = 0; filter = none }))
        else (do
          keys ← clone_vector (λ i. got (1 + i)) m.keys m.count
          with_keys (λ i. got (2 + m.count + i)) m keys))
    else some none
