-- ===== src/Buffer/Tests.antt =====
-- Runs of src/buffer.c, and the theorems about it at concrete inputs.
use azure_c_shared_utility.Base.{refl, false, some, [], ◌∷◌, arith, codes, always, Garbage}
use azure_c_shared_utility.Buffer.{Buffer, append_build}
use azure_c_shared_utility.Buffer.Combine.{append, prepend}
use azure_c_shared_utility.Buffer.Combine.Laws.{append-Refines, prepend-Refines}
use azure_c_shared_utility.Buffer.Laws.{append_build-Refines}
use azure_c_shared_utility.Buffer.Spec.{Refines, held, append_spec, prepend_spec, append_build_spec}

abbrev zeros : Garbage
zeros i = 0

abbrev ab : Buffer
ab = held (codes "ab") (7 ∷ [])

abbrev cd : Buffer
cd = held (codes "cd") []

append-Refines_example :
    Refines
      (append zeros always false (some ab) (some cd))
      (append_spec (always 0) false (some (codes "ab")) (some (codes "cd")))
append-Refines_example =
    append-Refines zeros always false ab cd (some (codes "ab")) (some (codes "cd"))
      (7 ∷ [], refl, refl) ([], refl, refl)

prepend-Refines_example :
    Refines
      (prepend zeros always false (some ab) (some cd))
      (prepend_spec (always 0) false (some (codes "ab")) (some (codes "cd")))
prepend-Refines_example =
    prepend-Refines zeros always false ab cd (some (codes "ab")) (some (codes "cd"))
      (7 ∷ [], refl, refl) ([], refl, refl)

append_build-Refines_example :
    Refines
      (append_build zeros always (some ab) (some (codes "xyz")) 2)
      (append_build_spec (always 0) (some (codes "ab")) (codes "xyz") 2)
append_build-Refines_example =
    append_build-Refines zeros always ab (some (codes "ab")) (codes "xyz") 2 (omega arith)
      (7 ∷ [], refl, refl)
