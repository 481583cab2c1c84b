-- ===== src/Base/Bits.antt =====
-- The bit operations on bytes, as arithmetic: each law is checked on all 256 bytes.
use Prim.Native.Nat.{ℕ, zero, suc, ◌+◌, ◌*◌, ◌/◌, ◌%◌, ◌<◌, bit_and, bit_or}
use mathlib.Core.Path.{◌≡◌, ◌∙◌, refl, ap}
use mathlib.Core.Bool.{Bool, true, false}
use native.Mathlib.Omega.{arith}
use azure_c_shared_utility.Base.Tests.{◌==◌, ==_iff, Bool-cases, if◌then◌else◌}
use mathlib.Core.Logic.{inl, inr}

-- Whether a test holds on the numbers from `n - 1` down.
unfoldable pub each_under : (test : ℕ → Bool) → ℕ → Bool
each_under test zero = true
each_under test (suc last) = if test last then each_under test last else false

pub each_under_lem :
    (n : ℕ) (test : ℕ → Bool) → each_under test n ≡ true → (v : ℕ) → v < n → test v ≡ true
unfolding each_under
each_under_lem zero test passed v small = absurd (omega arith)
each_under_lem (suc last) test passed v small =
    let here : test last ≡ true = ground arith in
    elim (Bool-cases (v == last)) [
      | inl top ↦ let at_last : v ≡ last = ground arith in ap test at_last ∙ here
      | inr below ↦ each_under_lem last test (rw here at passed) v (ground arith)
    ]

-- Two functions that agree on every byte below `n`.
pub eq_below :
    (n : ℕ) (f g : ℕ → ℕ) → each_under (λ v. f v == g v) n ≡ true → (v : ℕ) → v < n → f v ≡ g v
eq_below n f g same v small = (==_iff (f v) (g v)).0 (each_under_lem n _ same v small)

-- The same for functions of two numbers.
pub eq_below_two :
    (m n : ℕ) (f g : ℕ → ℕ → ℕ)
    → each_under (λ v. each_under (λ w. f v w == g v w) n) m ≡ true
    → (v w : ℕ) → v < m
    → w < n
    → f v w ≡ g v w
eq_below_two m n f g same v w small_v small_w =
    eq_below n (f v) (g v)
      (each_under_lem m (λ v. each_under (λ w. f v w == g v w) n) same v small_v) w small_w

pub eq_below_three :
    (k m n : ℕ) (f g : ℕ → ℕ → ℕ → ℕ)
    → each_under (λ u. each_under (λ v. each_under (λ w. f u v w == g u v w) n) m) k ≡ true
    → (u v w : ℕ) → u < k
    → v < m
    → w < n
    → f u v w ≡ g u v w
eq_below_three k m n f g same u v w small_u small_v small_w =
    eq_below_two m n (f u) (g u)
      (each_under_lem k (λ u. each_under (λ v. each_under (λ w. f u v w == g u v w) n) m) same u
        small_u)
      v w small_v small_w

pub bit_and_1 : (x : ℕ) → x < 256 → bit_and x 1 ≡ x % 2
unfolding each_under
bit_and_1 = eq_below 256 (λ x. bit_and x 1) (λ x. x % 2) refl

pub bit_and_3 : (x : ℕ) → x < 256 → bit_and x 3 ≡ x % 4
unfolding each_under
bit_and_3 = eq_below 256 (λ x. bit_and x 3) (λ x. x % 4) refl

pub bit_and_7 : (x : ℕ) → x < 256 → bit_and x 7 ≡ x % 8
unfolding each_under
bit_and_7 = eq_below 256 (λ x. bit_and x 7) (λ x. x % 8) refl

pub bit_and_15 : (x : ℕ) → x < 256 → bit_and x 15 ≡ x % 16
unfolding each_under
bit_and_15 = eq_below 256 (λ x. bit_and x 15) (λ x. x % 16) refl

pub bit_and_31 : (x : ℕ) → x < 256 → bit_and x 31 ≡ x % 32
unfolding each_under
bit_and_31 = eq_below 256 (λ x. bit_and x 31) (λ x. x % 32) refl

pub bit_and_63 : (x : ℕ) → x < 256 → bit_and x 63 ≡ x % 64
unfolding each_under
bit_and_63 = eq_below 256 (λ x. bit_and x 63) (λ x. x % 64) refl

-- `(q << k) | r` is a sum where `r` is below `1 << k` and the result is a byte.
module _ (q r : ℕ) where
  pub bit_or_2 : r < 2 → q * 2 + r < 256 → bit_or (q * 2) r ≡ q * 2 + r
  unfolding each_under
  bit_or_2 h lt =
      let joined = eq_below 256 (λ x. bit_or (x / 2 * 2) (x % 2)) (λ x. x) refl in
      ground (arith, joined (q * 2 + r) lt)

  pub bit_or_4 : r < 4 → q * 4 + r < 256 → bit_or (q * 4) r ≡ q * 4 + r
  unfolding each_under
  bit_or_4 h lt =
      let joined = eq_below 256 (λ x. bit_or (x / 4 * 4) (x % 4)) (λ x. x) refl in
      ground (arith, joined (q * 4 + r) lt)

  pub bit_or_8 : r < 8 → q * 8 + r < 256 → bit_or (q * 8) r ≡ q * 8 + r
  unfolding each_under
  bit_or_8 h lt =
      let joined = eq_below 256 (λ x. bit_or (x / 8 * 8) (x % 8)) (λ x. x) refl in
      ground (arith, joined (q * 8 + r) lt)

  pub bit_or_16 : r < 16 → q * 16 + r < 256 → bit_or (q * 16) r ≡ q * 16 + r
  unfolding each_under
  bit_or_16 h lt =
      let joined = eq_below 256 (λ x. bit_or (x / 16 * 16) (x % 16)) (λ x. x) refl in
      ground (arith, joined (q * 16 + r) lt)

  pub bit_or_32 : r < 32 → q * 32 + r < 256 → bit_or (q * 32) r ≡ q * 32 + r
  unfolding each_under
  bit_or_32 h lt =
      let joined = eq_below 256 (λ x. bit_or (x / 32 * 32) (x % 32)) (λ x. x) refl in
      ground (arith, joined (q * 32 + r) lt)

  pub bit_or_64 : r < 64 → q * 64 + r < 256 → bit_or (q * 64) r ≡ q * 64 + r
  unfolding each_under
  bit_or_64 h lt =
      let joined = eq_below 256 (λ x. bit_or (x / 64 * 64) (x % 64)) (λ x. x) refl in
      ground (arith, joined (q * 64 + r) lt)

  pub bit_or_128 : r < 128 → q * 128 + r < 256 → bit_or (q * 128) r ≡ q * 128 + r
  unfolding each_under
  bit_or_128 h lt =
      let joined = eq_below 256 (λ x. bit_or (x / 128 * 128) (x % 128)) (λ x. x) refl in
      ground (arith, joined (q * 128 + r) lt)
