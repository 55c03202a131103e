-- ===== src/RbTree/Order.antt =====
-- What the tree's nodes are in order, and that turning and putting together keep it.
use mathlib.Core.List.{append_assoc, append-nil}
use spbau_os_hw.Prelude.{◌≡◌, refl, sym, ◌∙◌, List, [], ◌∷◌, ◌++◌}
use spbau_os_hw.RbTree.{
  Tree, nil, node, black, in_left, in_right, Way, plug, set_color, finish, Color,
}

module _ {ℓ} {A : Type ℓ} where
  unfoldable pub in_order : Tree A → List A
  in_order nil = []
  in_order (node c l x r) = in_order l ++ x ∷ in_order r

  -- What lies before a place, and what lies behind it.
  unfoldable pub before : Way A → List A
  before [] = []
  before (in_left c x r ∷ path) = before path
  before (in_right c l x ∷ path) = before path ++ in_order l ++ x ∷ []

  unfoldable pub behind : Way A → List A
  behind [] = []
  behind (in_left c x r ∷ path) = x ∷ in_order r ++ behind path
  behind (in_right c l x ∷ path) = behind path

  pub in_order-plug :
      (path : Way A) (t : Tree A)
      → in_order (plug path t) ≡ before path ++ in_order t ++ behind path
  unfolding in_order plug before behind
  in_order-plug [] t = sym (append-nil (in_order t))
  in_order-plug (in_left c x r ∷ path) t = in_order-plug path (node c t x r) ∙ simp append_assoc
  in_order-plug (in_right c l x ∷ path) t = in_order-plug path (node c l x t) ∙ simp append_assoc

  pub in_order-set_color : (c : Color) (t : Tree A) → in_order (set_color c t) ≡ in_order t
  unfolding in_order
  in_order-set_color c nil = refl
  in_order-set_color c (node d l x r) = refl

  pub in_order-finish :
      (path : Way A) (t : Tree A)
      → in_order (finish path t) ≡ before path ++ in_order t ++ behind path
  unfolding finish
  in_order-finish path t = in_order-set_color black (plug path t) ∙ in_order-plug path t
