-- ===== src/Prelude/Without.antt =====
-- Unlinking an entry, on the list that a ring stands for.
use Prim.Native.Nat.{ℕ}
use mathlib.Core.Path.{◌≡◌, refl, sym, ap}
use mathlib.Core.List.{List, [], ◌∷◌, ◌++◌}
use spbau_os_hw.Prelude.Tests.{◌==◌, if◌then◌else◌, ==_refl, ==_ne}
use spbau_os_hw.Prelude.Lists.{Avoids}

-- The list without its first `a`: what unlinking an entry leaves of the list that it is on.
unfoldable pub without : ℕ → List ℕ → List ℕ
without a [] = []
without a (x ∷ xs) = let rest = without a xs in if x == a then xs else x ∷ rest

pub without_first : (x : ℕ) (xs : List ℕ) → without x (x ∷ xs) ≡ xs
unfolding without
without_first x xs = rw (==_refl x)

pub without_absent : (x : ℕ) (xs : List ℕ) → Avoids x xs → without x xs ≡ xs
unfolding without
without_absent x [] a = refl
without_absent x (y ∷ ys) a =
    rw (==_ne y x (λ t. a.0 (sym t))) (ap (λ zs. y ∷ zs) (without_absent x ys a.1))

pub without_last : (x : ℕ) (xs : List ℕ) → Avoids x xs → without x (xs ++ x ∷ []) ≡ xs
unfolding without
without_last x [] a = rw (==_refl x)
without_last x (y ∷ ys) a =
    rw (==_ne y x (λ t. a.0 (sym t))) (ap (λ zs. y ∷ zs) (without_last x ys a.1))
