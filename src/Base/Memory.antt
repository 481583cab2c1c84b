-- ===== src/Base/Memory.antt =====
-- The allocator, which is not part of the library, as the outcomes of its calls: `ok i` says
-- whether the request number `i` of an operation (malloc, calloc or realloc) gets memory. An
-- operation that is given every such function is modelled under every pattern of failures.
use Prim.Native.Nat.{ℕ, ◌+◌, ◌-◌, ◌^◌}
use mathlib.Core.Bool.{Bool, true, false, not}
use mathlib.Core.Path.{◌≡◌}
use native.Mathlib.Omega.{arith}
use azure_c_shared_utility.Base.Tests.{ltb, ◌==◌, if◌then◌else◌}

abbrev pub Outcomes : Type 0
Outcomes = ℕ → Bool

-- The outcomes that are left when `k` requests have been made.
abbrev pub after : ℕ → Outcomes → Outcomes
after k ok i = ok (k + i)

abbrev pub always : Outcomes
always i = true

abbrev pub never : Outcomes
never i = false

-- size_t has 64 bits.
abbrev pub size_max : ℕ
size_max = 2 ^ 64 - 1

-- The macro safe_add_size_t of inc/azure_c_shared_utility/safe_math.h.
pub safe_add_size_t : ℕ → ℕ → ℕ
safe_add_size_t a b = if ltb a (size_max - b) then a + b else size_max

pub safe_add_size_t_fits : (a b : ℕ) → ltb (a + b) size_max ≡ true → safe_add_size_t a b ≡ a + b
unfolding safe_add_size_t
safe_add_size_t_fits a b h = ground arith

pub safe_add_size_t_max : (a b : ℕ) → (safe_add_size_t a b == size_max) ≡ not (ltb (a + b) size_max)
unfolding safe_add_size_t
safe_add_size_t_max a b = ground arith

pub safe_add_size_t_lem :
    (a b : ℕ) → safe_add_size_t a b ≡ (if ltb (a + b) size_max then a + b else size_max)
unfolding safe_add_size_t
safe_add_size_t_lem a b = ground arith
