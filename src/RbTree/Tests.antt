-- ===== src/RbTree/Tests.antt =====
-- Uses of the theorems on the red-black tree at concrete trees.
use spbau_os_hw.Prelude.{ℕ, zero, suc, refl, inl, Bool, [], ◌∷◌, ◌++◌, ltb}
use spbau_os_hw.RbTree.{red, black, Tree, nil, node, in_left, in_right, Way, rb_insert}
use spbau_os_hw.RbTree.Order.{in_order, before, behind}
use spbau_os_hw.RbTree.Balance.{IsBalanced}
use spbau_os_hw.RbTree.Insert.{Gives, rb_insert-Gives}
use spbau_os_hw.RbTree.Erase.{rb_erase}
use spbau_os_hw.RbTree.Erase.Laws.{rb_erase-Gives}
use spbau_os_hw.RbTree.Search.{upto, from, IsCut, link_path, rb_insert-link_path}

-- Below the right child 2 of the root 1, on the right.
abbrev place_of_3 : Way ℕ
place_of_3 = in_right red nil 2 ∷ in_right black nil 1 ∷ []

rb_insert-Gives_example :
    Gives (rb_insert 3 place_of_3) (before place_of_3 ++ 3 ∷ behind place_of_3)
rb_insert-Gives_example = rb_insert-Gives 3 place_of_3 (refl, tt, refl, (tt, tt))

-- The left child of the root 2, whose other child is 3.
abbrev place_of_1 : Way ℕ
place_of_1 = in_left black 2 (node black nil 3 nil) ∷ []

rb_erase-Gives_example :
    Gives
      (rb_erase (node black nil 1 nil) place_of_1)
      (before place_of_1 ++ (in_order nil ++ in_order nil) ++ behind place_of_1)
rb_erase-Gives_example =
    rb_erase-Gives black nil 1 nil place_of_1 (suc zero) (tt, tt) ((tt, tt), tt) (inl refl)

abbrev tree_1_3 : Tree ℕ
tree_1_3 = node black (node red nil 1 nil) 3 nil

tree_1_3-IsBalanced : IsBalanced tree_1_3
tree_1_3-IsBalanced = record {
  height = suc zero;
  is_rb = ((refl, refl, tt, tt), tt);
  black_root = refl;
}

abbrev below_2 : ℕ → Bool
below_2 y = ltb y 2

tree_1_3-IsCut : IsCut below_2 (in_order tree_1_3)
unfolding in_order
tree_1_3-IsCut = (λ e. (refl, tt), (λ e. tt, tt))

rb_insert-link_path_example :
    Gives
      (rb_insert 2 (link_path below_2 tree_1_3 []))
      (upto below_2 (in_order tree_1_3) ++ 2 ∷ from below_2 (in_order tree_1_3))
rb_insert-link_path_example =
    rb_insert-link_path below_2 tree_1_3 2 tree_1_3-IsBalanced tree_1_3-IsCut
