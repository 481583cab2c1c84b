-- ===== src/Strings/Tests.antt =====
-- Runs of src/strings.c, and the theorems about it at concrete inputs.
use azure_c_shared_utility.Base.{◌+◌, ◌≡◌, refl, some, arith, codes, length, always, Garbage, ◌>>=◌}
use azure_c_shared_utility.Strings.Json.{new_json}
use azure_c_shared_utility.Strings.Json.Laws.{new_json_lem, quoted_json}
use azure_c_shared_utility.Strings.Json.Reader.{read_literal, read_literal-new_json}

abbrev zeros : Garbage
zeros i = 0

new_json_lem_example :
    new_json zeros always (some (codes "a\"b")) ≡ some (some (quoted_json (codes "a\"b")))
new_json_lem_example =
    new_json_lem zeros always (codes "a\"b") (omega arith) (omega arith) refl refl

read_literal-new_json_example :
    (new_json zeros always (some (codes "a/b")) >>= λ text.
    text >>= λ t. read_literal (length (codes "a/b") + 1) t)
    ≡ some (codes "a/b")
read_literal-new_json_example =
    read_literal-new_json zeros always (codes "a/b") (omega arith) (omega arith) refl refl
