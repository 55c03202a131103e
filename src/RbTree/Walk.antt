-- ===== src/RbTree/Walk.antt =====
-- Walks in the tree: the first and the last node, the next and the previous one. A node is given by
-- what it holds.
use mathlib.Core.List.{append_assoc, append-nil}
use spbau_os_hw.Prelude.{◌≡◌, refl, sym, ap, ◌∙◌, List, [], ◌∷◌, ◌++◌, Option, none, some}
use spbau_os_hw.RbTree.{Color, Tree, nil, node, in_left, in_right, Way}
use spbau_os_hw.RbTree.Order.{in_order, before, behind}

module _ {ℓ} {A : Type ℓ} where
  abbrev pub first_of : List A → Option A
  first_of [] = none
  first_of (x ∷ xs) = some x

  abbrev pub last_of : List A → Option A
  last_of [] = none
  last_of (x ∷ []) = some x
  last_of (x ∷ y ∷ xs) = last_of (y ∷ xs)

  -- `__rb_leftmost` and `__rb_rightmost`
  unfoldable pub rb_leftmost : Tree A → Option A
  rb_leftmost nil = none
  rb_leftmost (node c nil x r) = some x
  rb_leftmost (node c (node d ll y lr) x r) = rb_leftmost (node d ll y lr)

  unfoldable pub rb_rightmost : Tree A → Option A
  rb_rightmost nil = none
  rb_rightmost (node c l x nil) = some x
  rb_rightmost (node c l x (node d rl y rr)) = rb_rightmost (node d rl y rr)

  -- The loops of `rb_next` and `rb_prev`: up as long as the place is a right, or a left, child.
  unfoldable pub climb_next : Way A → Option A
  climb_next [] = none
  climb_next (in_left c x r ∷ path) = some x
  climb_next (in_right c l x ∷ path) = climb_next path

  unfoldable pub climb_prev : Way A → Option A
  climb_prev [] = none
  climb_prev (in_left c x r ∷ path) = climb_prev path
  climb_prev (in_right c l x ∷ path) = some x

  -- Of the node with the right child `r`, or the left child `l`, at `path`.
  unfoldable pub rb_next : (r : Tree A) → Way A → Option A
  rb_next nil path = climb_next path
  rb_next (node c l x r) path = rb_leftmost (node c l x r)

  unfoldable pub rb_prev : (l : Tree A) → Way A → Option A
  rb_prev nil path = climb_prev path
  rb_prev (node c l x r) path = rb_rightmost (node c l x r)

  first_leftmost :
      (c : Color) (l : Tree A) (x : A) (r : Tree A) (ys : List A)
      → rb_leftmost (node c l x r) ≡ first_of (in_order (node c l x r) ++ ys)
  unfolding rb_leftmost in_order
  first_leftmost c nil x r ys = refl
  first_leftmost c (node d ll y lr) x r ys =
      first_leftmost d ll y lr (x ∷ in_order r ++ ys) ∙ ap first_of (simp append_assoc)

  last-append : (ys : List A) (x : A) (xs : List A) → last_of (ys ++ x ∷ xs) ≡ last_of (x ∷ xs)
  last-append [] x xs = refl
  last-append (y ∷ []) x xs = refl
  last-append (y ∷ z ∷ ys) x xs = last-append (z ∷ ys) x xs

  last_rightmost :
      (c : Color) (l : Tree A) (x : A) (r : Tree A)
      → rb_rightmost (node c l x r) ≡ last_of (in_order (node c l x r))
  unfolding rb_rightmost in_order
  last_rightmost c l x nil = sym (last-append (in_order l) x [])
  last_rightmost c l x (node d rl y rr) =
      last_rightmost d rl y rr
      ∙ last-append (in_order rl) y (in_order rr)
      ∙ sym (last-append (in_order l ++ x ∷ in_order rl) y (in_order rr))
      ∙ ap last_of (append_assoc (in_order l) (x ∷ in_order rl) (y ∷ in_order rr))

  climb_next_first : (path : Way A) → climb_next path ≡ first_of (behind path)
  unfolding climb_next behind
  climb_next_first [] = refl
  climb_next_first (in_left c x r ∷ path) = refl
  climb_next_first (in_right c l x ∷ path) = climb_next_first path

  climb_prev_last : (path : Way A) → climb_prev path ≡ last_of (before path)
  unfolding climb_prev before
  climb_prev_last [] = refl
  climb_prev_last (in_left c x r ∷ path) = climb_prev_last path
  climb_prev_last (in_right c l x ∷ path) = sym (last-append (before path ++ in_order l) x [])

  -- `rb_next` and `rb_prev` of a node find its neighbours in the order of the tree, and nothing at
  -- the ends of it.
  pub rb_next-rb_prev :
      (l r : Tree A) (path : Way A)
      → (rb_next r path ≡ first_of (in_order r ++ behind path))
        × (rb_prev l path ≡ last_of (before path ++ in_order l))
  unfolding rb_next rb_prev in_order
  rb_next-rb_prev l r path = (next r, prev l)
    where
      next : (r : Tree A) → rb_next r path ≡ first_of (in_order r ++ behind path)
      next nil = climb_next_first path
      next (node c l x r) = first_leftmost c l x r (behind path)

      prev : (l : Tree A) → rb_prev l path ≡ last_of (before path ++ in_order l)
      prev nil = climb_prev_last path ∙ ap last_of (sym (append-nil (before path)))
      prev (node c l x r) =
          last_rightmost c l x r
          ∙ last-append (in_order l) x (in_order r)
          ∙ sym (last-append (before path ++ in_order l) x (in_order r))
          ∙ ap last_of (append_assoc (before path) (in_order l) (x ∷ in_order r))
