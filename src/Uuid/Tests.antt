-- ===== src/Uuid/Tests.antt =====
-- Runs of src/uuid.c.
use azure_c_shared_utility.Base.{
  ℕ, ◌≡◌, ◌<◌, ◌%◌, ◌*◌, ◌+◌, ◌>>=◌, refl, some, arith, Garbage, always,
}
use azure_c_shared_utility.Buffer.{success}
use azure_c_shared_utility.Uuid.{from_string, to_string}
use azure_c_shared_utility.Uuid.Laws.{block_of, from_string-to_string}

abbrev zeros : Garbage
zeros i = 0

abbrev spread : ℕ → ℕ
spread i = (i * 37 + 5) % 256

spread-IsByte : (i : ℕ) → spread i < 256
spread-IsByte i = omega arith

from_string-to_string_example :
    (to_string zeros always (some (block_of spread)) >>= λ s. from_string s (some (block_of zeros)))
    ≡ some (success, some (block_of spread))
from_string-to_string_example = from_string-to_string zeros always spread zeros spread-IsByte refl
