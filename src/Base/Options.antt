-- ===== src/Base/Options.antt =====
-- What an optional result that is there says of the code that gave it.
use mathlib.Core.Path.{◌≡◌, refl, ap}
use mathlib.Core.Bool.{Bool, true, false}
use mathlib.Core.Option.{Option, none, some}
use native.Mathlib.Omega.{arith}
use azure_c_shared_utility.Base.Tests.{if◌then◌else◌}
use azure_c_shared_utility.Base.Blocks.{◌>>=◌}

abbrev get_from {ℓ} : {A : Type ℓ} → A → Option A → A
get_from d none = d
get_from d (some x) = x

pub some-injective {ℓ} : {A : Type ℓ} {x y : A} → some x ≡ some y → x ≡ y
some-injective {x = x} e = ap (get_from x) e

pub absurd_none {ℓ κ} : {A : Type ℓ} {P : Type κ} {y : A} → none ≡ some y → P
absurd_none e = absurd (ground arith)

pub bind-inv {ℓ κ} :
    {A : Type ℓ} {B : Type κ} (f : A → Option B) (o : Option A) (y : B)
    → (o >>= f) ≡ some y
    → (x : A) × (o ≡ some x) × (f x ≡ some y)
bind-inv f none y e = absurd_none e
bind-inv f (some x) y e = (x, refl, e)

pub guard-inv {ℓ} :
    {A : Type ℓ} (b : Bool) (x y : A) → (if b then some x else none) ≡ some y → (b ≡ true) × (x ≡ y)
guard-inv true x y e = (refl, some-injective e)
guard-inv false x y e = absurd_none e

pub reject-inv {ℓ} :
    {A : Type ℓ} (b : Bool) (x y : A)
    → (if b then none else some x) ≡ some y
    → (b ≡ false) × (x ≡ y)
reject-inv true x y e = absurd_none e
reject-inv false x y e = (refl, some-injective e)
