-- ===== src/Prelude/Run.antt =====
-- Code that may stop in `BUG` or `BUG_ON` of src/inc/debug.h, which never return.
use mathlib.Core.Path.{◌≡◌, refl}
use mathlib.Core.Logic.{◌⊎◌, inl, inr}
use mathlib.Core.Bool.{Bool, true, false}

pub data Run {ℓ} (A : Type ℓ) : Type ℓ where
  ok : A → Run A
  bug : Run A

infixl 5 ◌>>=◌ ◌>>◌
abbrev pub ◌>>=◌ {ℓ κ} : {A : Type ℓ} {B : Type κ} → Run A → (A → Run B) → Run B
ok a >>= f = f a
bug >>= f = bug

abbrev pub ◌>>◌ {ℓ} : {B : Type ℓ} → Run (Unit {0}) → Run B → Run B
m >> k = m >>= λ _. k

-- `BUG_ON(cond)`
abbrev pub bug_on : Bool → Run (Unit {0})
bug_on true = bug
bug_on false = ok tt

pub ok-injective {ℓ} : {A : Type ℓ} {a b : A} → ◌≡◌ {A = Run A} (ok a) (ok b) → a ≡ b
ok-injective h = cc

pub Run-cases {ℓ} : {A : Type ℓ} (r : Run A) → (r ≡ bug) ⊎ ((a : A) × (r ≡ ok a))
Run-cases bug = inl refl
Run-cases (ok a) = inr (a, refl)
