-- ===== src/RbTree/Search.antt =====
-- The two descents in a tree by which src/src/balloc.c finds a place, and the place they find. A node
-- is given by what it holds.
use mathlib.Core.List.{append_assoc, append-nil}
use spbau_os_hw.Prelude.{
  ℕ, zero, suc, ◌≡◌, refl, sym, ap, ◌∙◌, ◌⊎◌, Bool, true, false, not, List, [], ◌∷◌, ◌++◌, Option,
  none, some, if◌then◌else◌, Bool-cases, inl, inr, All, All-append_left, All-append_right,
}
use spbau_os_hw.RbTree.{red, black, Tree, nil, node, in_left, in_right, Way, rb_insert}
use spbau_os_hw.RbTree.Order.{in_order, before, behind}
use spbau_os_hw.RbTree.Balance.{IsBlack, IsRb, AllowsRed, Fits, IsBalanced}
use spbau_os_hw.RbTree.Insert.{Gives, rb_insert-Gives, regrouped}
use spbau_os_hw.RbTree.Walk.{first_of}

module _ {ℓ} {A : Type ℓ} where
  -- The first entries of a list, as long as the test holds; and the others.
  abbrev pub upto : (A → Bool) → List A → List A
  upto p [] = []
  upto p (x ∷ xs) = let rest = upto p xs in if p x then x ∷ rest else []

  abbrev pub from : (A → Bool) → List A → List A
  from p [] = []
  from p (x ∷ xs) = let rest = from p xs in if p x then rest else x ∷ xs

  -- Once the test fails, it fails for all that follow.
  abbrev pub IsCut : (A → Bool) → List A → Type 0
  IsCut p [] = Unit
  IsCut p (x ∷ xs) = (p x ≡ false → All (λ y. p y ≡ false) xs) × IsCut p xs

  IsCut-append_left : (p : A → Bool) (xs ys : List A) → IsCut p (xs ++ ys) → IsCut p xs
  IsCut-append_left p [] ys c = tt
  IsCut-append_left p (x ∷ xs) ys c =
      ((λ e. All-append_left _ xs ys (c.0 e)), IsCut-append_left p xs ys c.1)

  IsCut-append_right : (p : A → Bool) (xs ys : List A) → IsCut p (xs ++ ys) → IsCut p ys
  IsCut-append_right p [] ys c = c
  IsCut-append_right p (x ∷ xs) ys c = IsCut-append_right p xs ys c.1

  held :
      (p : A → Bool) (xs : List A) (y : A) (ys : List A)
      → IsCut p (xs ++ y ∷ ys)
      → p y ≡ true
      → All (λ x. p x ≡ true) xs
  held p [] y ys c e = tt
  held p (x ∷ xs) y ys c e = elim (Bool-cases (p x)) [
    | inl t ↦ (t, held p xs y ys c.1 e)
    | inr f ↦
        let w : true ≡ false =
          sym e ∙ (All-append_right (λ z. p z ≡ false) xs (y ∷ ys) (c.0 f)).0 in
        cc
  ]

  upto_held :
      (p : A → Bool) (xs ys : List A)
      → All (λ x. p x ≡ true) xs
      → (upto p (xs ++ ys) ≡ xs ++ upto p ys) × (from p (xs ++ ys) ≡ from p ys)
  upto_held p [] ys a = (refl, refl)
  upto_held p (x ∷ xs) ys a = let (u, v) = upto_held p xs ys a.1 in rw (a.0) (ap (x ∷◌) u, v)

  upto_failed :
      (p : A → Bool) (xs : List A) (y : A) (ys : List A)
      → p y ≡ false
      → (upto p (xs ++ y ∷ ys) ≡ upto p xs) × (from p (xs ++ y ∷ ys) ≡ from p xs ++ y ∷ ys)
  upto_failed p [] y ys e = rw e (refl, refl)
  upto_failed p (x ∷ xs) y ys e = elim (Bool-cases (p x)) [
    | inl t ↦ let (u, v) = upto_failed p xs y ys e in rw t (ap (x ∷◌) u, v)
    | inr f ↦ rw f (refl, refl)
  ]

  -- The walk of `__balloc_add_range` to an empty place: right where the test holds, else left.
  unfoldable pub link_path : (A → Bool) → Tree A → Way A → Way A
  link_path right nil path = path
  link_path right (node c l x r) path =
      let on_right = link_path right r (in_right c l x ∷ path) in
      let on_left = link_path right l (in_left c x r ∷ path) in
      if right x then on_right else on_left

  -- The walk of `__balloc_remove_range` and `__balloc_alloc`: left where the test holds, which
  -- makes the node the best so far, else right.
  unfoldable pub first_where : (A → Bool) → Tree A → Option A → Option A
  first_where test nil best = best
  first_where test (node c l x r) best =
      let on_left = first_where test l (some x) in
      let on_right = first_where test r best in if test x then on_left else on_right

  link_path_lem :
      (p : A → Bool) (t : Tree A) (path : Way A)
      → IsCut p (in_order t)
      → (before (link_path p t path) ≡ before path ++ upto p (in_order t))
        × (behind (link_path p t path) ≡ from p (in_order t) ++ behind path)
  unfolding link_path in_order before behind
  link_path_lem p nil path c = (sym (append-nil (before path)), refl)
  link_path_lem p (node d l x r) path c = elim (Bool-cases (p x)) [
    | inl t ↦
        let (u, v) =
          link_path_lem p r (in_right d l x ∷ path)
            (IsCut-append_right p (in_order l) (x ∷ in_order r) c).1 in
        let (a, b) =
          upto_held p (in_order l) (x ∷ in_order r) (held p (in_order l) x (in_order r) c t) in
        rw (a, b, t) (u ∙ (simp append_assoc), v)
    | inr f ↦
        let (u, v) =
          link_path_lem p l (in_left d x r ∷ path)
            (IsCut-append_left p (in_order l) (x ∷ in_order r) c) in
        let (a, b) = upto_failed p (in_order l) x (in_order r) f in
        rw (a, b, f) (u, v ∙ (simp append_assoc))
  ]

  link_path-Fits :
      (p : A → Bool) (t : Tree A) (path : Way A) (h : ℕ)
      → IsRb t h
      → Fits path h
      → (IsBlack t) ⊎ (AllowsRed path)
      → Fits (link_path p t path) 0
  unfolding link_path
  link_path-Fits p nil path zero b f k = f
  link_path-Fits p nil path (suc h) b f k = absurd b
  link_path-Fits p (node red l x r) path h b f (inl k) = cc k
  link_path-Fits p (node red l x r) path h b f (inr k) = elim (Bool-cases (p x)) [
    | inl t ↦ rw t (link_path-Fits p r (in_right red l x ∷ path) h b.3 (b.0, b.2, k, f) (inl b.1))
    | inr t ↦ rw t (link_path-Fits p l (in_left red x r ∷ path) h b.2 (b.1, b.3, k, f) (inl b.0))
  ]
  link_path-Fits p (node black l x r) path zero b f k = absurd b
  link_path-Fits p (node black l x r) path (suc h) b f k = elim (Bool-cases (p x)) [
    | inl t ↦ rw t (link_path-Fits p r (in_right black l x ∷ path) h b.1 (b.0, f) (inr refl))
    | inr t ↦ rw t (link_path-Fits p l (in_left black x r ∷ path) h b.0 (b.1, f) (inr refl))
  ]

  -- In a red-black tree whose nodes for which the test holds come first, linking a node at the place
  -- that the walk finds, and `rb_insert`, give a red-black tree with the new node behind those.
  pub rb_insert-link_path :
      (p : A → Bool) (t : Tree A) (x : A)
      → IsBalanced t
      → IsCut p (in_order t)
      → Gives (rb_insert x (link_path p t [])) (upto p (in_order t) ++ x ∷ from p (in_order t))
  unfolding before behind
  rb_insert-link_path p t x b c =
      let (u, v) = link_path_lem p t [] c in
      let f = link_path-Fits p t [] b.height b.is_rb tt (inl b.black_root) in
      regrouped (rb_insert-Gives x (link_path p t []) f) (
        rw (u, v)
          (ap (λ (ys : List A). upto p (in_order t) ++ x ∷ ys) (append-nil (from p (in_order t)))))

  first_where_from :
      (p test : A → Bool) (t : Tree A) (ys : List A)
      → ((x : A) → test x ≡ not (p x))
      → IsCut p (in_order t)
      → first_where test t (first_of ys) ≡ first_of (from p (in_order t) ++ ys)
  unfolding first_where in_order
  first_where_from p test nil ys e c = refl
  first_where_from p test (node d l x r) ys e c = elim (Bool-cases (p x)) [
    | inl t ↦
        let (a, b) =
          upto_held p (in_order l) (x ∷ in_order r) (held p (in_order l) x (in_order r) c t) in
        rw (e x, b, t)
          (first_where_from p test r ys e (IsCut-append_right p (in_order l) (x ∷ in_order r) c).1)
    | inr f ↦
        let (a, b) = upto_failed p (in_order l) x (in_order r) f in
        rw (e x, b, f)
          (first_where_from p test l (x ∷ in_order r ++ ys) e
              (IsCut-append_left p (in_order l) (x ∷ in_order r) c)
            ∙ ap first_of (sym (append_assoc (from p (in_order l)) (x ∷ in_order r) ys)))
  ]

  -- In a tree whose nodes for which the test fails come first, the walk finds the first node for
  -- which it holds.
  pub first_where_lem :
      (p test : A → Bool) (t : Tree A)
      → ((x : A) → test x ≡ not (p x))
      → IsCut p (in_order t)
      → first_where test t none ≡ first_of (from p (in_order t))
  first_where_lem p test t e c =
      first_where_from p test t [] e c ∙ ap first_of (append-nil (from p (in_order t)))
