-- ===== src/RbTree.antt =====
-- The red-black tree of src/src/rbtree.c. A tree is its shape, and a pointer to a node is a place in
-- it: the subtree below the node, and the path from its parent to the root. `rb_parent` is the
-- nearest frame of the path; writing the pointers of a node and of its neighbours is putting a
-- subtree together. `none` is a read or a write through a null pointer.
mod Tests
pub mod Order
pub mod Balance
pub mod Insert
pub mod Erase
pub mod Walk
pub mod Search
use spbau_os_hw.Prelude.{Bool, true, false, Option, none, some, List, [], ◌∷◌, if◌then◌else◌}
use spbau_os_hw.Prelude.Partial.{◌>>=◌}

pub data Color : Type 0 where
  red black : Color

pub data Tree {ℓ} (A : Type ℓ) : Type ℓ where
  nil : Tree A
  node : Color → Tree A → A → Tree A → Tree A

-- The parent of a place: its color, what it holds, and its other child; the place is its left or its
-- right child.
pub data Frame {ℓ} (A : Type ℓ) : Type ℓ where
  in_left : Color → A → Tree A → Frame A
  in_right : Color → Tree A → A → Frame A

abbrev pub Way {ℓ} : Type ℓ → Type ℓ
Way A = List (Frame A)

module _ {ℓ} {A : Type ℓ} where
  -- `rb_red`; no child is black.
  abbrev pub is_red : Tree A → Bool
  is_red (node red l x r) = true
  is_red (node black l x r) = false
  is_red nil = false

  abbrev pub set_color : Color → Tree A → Tree A
  set_color c nil = nil
  set_color c (node d l x r) = node c l x r

  abbrev pub set_red : Tree A → Tree A
  set_red t = set_color red t

  abbrev pub set_black : Tree A → Tree A
  set_black t = set_color black t

  abbrev pub parent_red : Frame A → Bool
  parent_red (in_left red x r) = true
  parent_red (in_left black x r) = false
  parent_red (in_right red l x) = true
  parent_red (in_right black l x) = false

  abbrev pub sibling : Frame A → Tree A
  sibling (in_left c x r) = r
  sibling (in_right c l x) = l

  -- The parent with the subtree as its child.
  abbrev pub up : Frame A → Tree A → Tree A
  up (in_left c x r) t = node c t x r
  up (in_right c l x) t = node c l x t

  -- The whole tree.
  unfoldable pub plug : Way A → Tree A → Tree A
  plug [] t = t
  plug (f ∷ path) t = plug path (up f t)

  -- `rb_rotate_left` and `rb_rotate_right` of the node `x`; each node keeps its color.
  unfoldable pub rotate_left : Tree A → Option (Tree A)
  rotate_left (node c l x (node d rl r rr)) = some (node d (node c l x rl) r rr)
  rotate_left (node c l x nil) = none
  rotate_left nil = none

  unfoldable pub rotate_right : Tree A → Option (Tree A)
  rotate_right (node c (node d ll l lr) x r) = some (node d ll l (node c lr x r))
  rotate_right (node c nil x r) = none
  rotate_right nil = none

  -- Both loops end with a black root.
  unfoldable pub finish : Way A → Tree A → Tree A
  finish path t = set_black (plug path t)

  -- `rb_set_red(g)`, and both children of `g` black: `p` and its sibling.
  unfoldable pub recolor : Frame A → Tree A → Tree A
  recolor (in_left c x r) p = node red (set_black p) x (set_black r)
  recolor (in_right c l x) p = node red (set_black l) x (set_black p)

  -- If the node is the inner child of `p`, `p` is turned away; the new `p` is in its place.
  unfoldable pub straighten : (g f : Frame A) → Tree A → Option (Tree A)
  straighten (in_left d y r) (in_right c l x) n = rotate_left (node c l x n)
  straighten (in_left d y s) (in_left c x r) n = some (node c n x r)
  straighten (in_right d s y) (in_left c x r) n = rotate_right (node c n x r)
  straighten (in_right d s y) (in_right c l x) n = some (node c l x n)

  abbrev pub black_over_red_right : Tree A → Tree A
  black_over_red_right nil = nil
  black_over_red_right (node c l x r) = node black l x (set_red r)

  abbrev pub black_over_red_left : Tree A → Tree A
  black_over_red_left nil = nil
  black_over_red_left (node c l x r) = node black (set_red l) x r

  -- `g` is turned away below `p`, which becomes black, and `g` red.
  unfoldable pub turn_grandparent : Frame A → Tree A → Option (Tree A)
  turn_grandparent (in_left c x r) p = do
    t ← rotate_right (node c p x r)
    some (black_over_red_right t)
  turn_grandparent (in_right c l x) p = do
    t ← rotate_left (node c l x p)
    some (black_over_red_left t)

  -- The loop of `rb_insert`, from the node `n` on.
  unfoldable pub insert_fix : Tree A → Way A → Option (Tree A)
  insert_fix n [] = some (finish [] n)
  insert_fix n (f ∷ []) = if parent_red f then none else some (finish (f ∷ []) n)
  insert_fix n (f ∷ g ∷ path) =
      let rest = insert_fix (recolor g (up f n)) path in
      let turned = (do p ← straighten g f n; t ← turn_grandparent g p; some (finish path t)) in
      if parent_red f
      then if is_red (sibling g) then rest else turned
      else some (finish (f ∷ g ∷ path) n)

  -- `rb_link` of a new node at a place without one, and `rb_insert` of it.
  unfoldable pub rb_insert : A → Way A → Option (Tree A)
  rb_insert x path = insert_fix (node red nil x nil) path
