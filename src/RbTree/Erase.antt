-- ===== src/RbTree/Erase.antt =====
-- `rb_erase` of src/src/rbtree.c: the node is taken out, and the loop of `rb_erase_fix` restores the
-- black heights. A round of the loop ends it, or goes on at another place; the loop runs on fuel.
pub mod Fix
pub mod Laws
use spbau_os_hw.Prelude.{
  ℕ, zero, suc, Bool, true, false, not, ◌&&◌, Option, none, some, List, [], ◌∷◌, ◌++◌,
  if◌then◌else◌, length,
}
use spbau_os_hw.Prelude.Partial.{◌>>=◌}
use spbau_os_hw.RbTree.{
  Color, red, black, Tree, nil, node, Frame, in_left, in_right, Way, is_red, set_color, set_red,
  set_black, plug, finish, rotate_left, rotate_right,
}

-- What a round comes to: the loop is left with the whole tree, or it goes on at `child`.
pub data Round {ℓ} (A : Type ℓ) : Type ℓ where
  stop : Tree A → Round A
  again : Tree A → Way A → Round A

-- The leftmost node below a node: its color, what it holds, its right child, and the path to it.
pub record Leftmost {ℓ} (A : Type ℓ) : Type ℓ where
  pub color : Color
  pub entry : A
  pub right : Tree A
  pub path : Way A

module _ {ℓ} {A : Type ℓ} where
  -- `rb_color` of a node.
  abbrev pub color_of : Tree A → Color
  color_of nil = black
  color_of (node c l x r) = c

  abbrev pub set_right_black : Tree A → Tree A
  set_right_black nil = nil
  set_right_black (node c l x r) = node c l x (set_black r)

  abbrev pub set_left_black : Tree A → Tree A
  set_left_black nil = nil
  set_left_black (node c l x r) = node c (set_black l) x r

  -- The rest of a round where `child` is the left child of `x` and its sibling `b` is black. If the
  -- far child of `b` is black, `b` is turned away below its near child first.
  unfoldable pub fix_left : Color → A → (t b : Tree A) → Way A → Option (Round A)
  fix_left c x t nil path = none
  fix_left c x t (node cb bl y br) path =
      let turned = (do
        b ←
            if is_red br
            then some (node cb bl y br)
            else rotate_right (node red (set_black bl) y br)
        whole ← rotate_left (node black t x (set_right_black (set_color c b)))
        some (stop (finish path whole))) in
      if not (is_red bl) && not (is_red br)
      then some (again (node c t x (node red bl y br)) path)
      else turned

  unfoldable pub fix_right : Color → A → (t b : Tree A) → Way A → Option (Round A)
  fix_right c x t nil path = none
  fix_right c x t (node cb bl y br) path =
      let turned = (do
        b ← if is_red bl then some (node cb bl y br) else rotate_left (node red bl y (set_black br))
        whole ← rotate_right (node black (set_left_black (set_color c b)) x t)
        some (stop (finish path whole))) in
      if not (is_red br) && not (is_red bl)
      then some (again (node c (node red bl y br) x t) path)
      else turned

  -- The round goes on below the sibling that was turned up, at the parent and its new sibling.
  unfoldable pub below_left : (t : Tree A) → Way A → Option (Round A)
  below_left (node d (node c t x b) y r) path = fix_left c x t b (in_left d y r ∷ path)
  below_left (node d nil y r) path = none
  below_left nil path = none

  unfoldable pub below_right : (t : Tree A) → Way A → Option (Round A)
  below_right (node d l y (node c b x t)) path = fix_right c x t b (in_right d l y ∷ path)
  below_right (node d l y nil) path = none
  below_right nil path = none

  -- A round of the loop, at the child `t` of a parent.
  unfoldable pub fix_round : Tree A → Frame A → Way A → Option (Round A)
  fix_round t (in_left c x b) path =
      if is_red b
      then (rotate_left (node red t x (set_black b)) >>= λ u. below_left u path)
      else fix_left c x t b path
  fix_round t (in_right c b x) path =
      if is_red b
      then (rotate_right (node red (set_black b) x t) >>= λ u. below_right u path)
      else fix_right c x t b path

  -- `rb_erase_fix`: the loop ends at a red child or at the root, which becomes black.
  unfoldable pub erase_fix : (fuel : ℕ) → Tree A → Way A → Option (Tree A)
  erase_fix zero t path = none
  erase_fix (suc n) t [] = some (set_black t)
  erase_fix (suc n) t (f ∷ path) =
      if is_red t then some (plug (f ∷ path) (set_black t)) else elim (fix_round t f path) [
        | none ↦ none
        | some (stop whole) ↦ some whole
        | some (again child place) ↦ erase_fix n child place
      ]

  -- The walk of `__rb_leftmost` from a node with these fields, below `path`.
  unfoldable pub leftmost : Color → Tree A → A → Tree A → Way A → Leftmost A
  leftmost c nil x r path = record { color = c; entry = x; right = r; path = path }
  leftmost c (node d ll y lr) x r path = leftmost d ll y lr (in_left c x r ∷ path)

  -- The loop is needed where a black node was taken away. As many rounds as the path is long, and
  -- two more, are enough.
  unfoldable pub repair : Color → Tree A → Way A → Option (Tree A)
  repair red c path = some (plug path c)
  repair black c path = erase_fix (suc (suc (length path))) c path

  -- `rb_erase` of the node at a place: with two children, the next node in order takes its place and
  -- its color, and the loop starts where that one was.
  unfoldable pub rb_erase : Tree A → Way A → Option (Tree A)
  rb_erase nil path = none
  rb_erase (node color nil x r) path = repair color r path
  rb_erase (node color (node c ll y lr) x nil) path = repair color (node c ll y lr) path
  rb_erase (node color (node c ll y lr) x (node d rl z rr)) path =
      let next = leftmost d rl z rr [] in
      repair next.color next.right (next.path ++ in_right color (node c ll y lr) next.entry ∷ path)
