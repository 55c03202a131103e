-- ===== src/RbTree/Erase/Fix.antt =====
-- A round of `rb_erase_fix`: the subtree at the child is one black node short. Either the round ends
-- with a balanced tree, or the same holds at the place where it goes on.
use mathlib.Core.List.{append_assoc}
use spbau_os_hw.Prelude.{ℕ, suc, ◌≡◌, refl, ap, ◌∙◌, ◌⊎◌, inl, inr, true, List, ◌++◌, Option, some}
use spbau_os_hw.Prelude.Partial.{some-injective}
use spbau_os_hw.RbTree.{
  Color, red, black, Tree, nil, node, Way, is_red, set_black, finish, rotate_left, rotate_right,
}
use spbau_os_hw.RbTree.Order.{in_order, before, behind}
use spbau_os_hw.RbTree.Balance.{IsBlack, IsRb, AllowsRed, Fits, IsBalanced}
use spbau_os_hw.RbTree.Insert.{Gives, finished}
use spbau_os_hw.RbTree.Erase.{Round, stop, again, fix_left, fix_right}

-- One black node short of `suc h`; a red root makes up for it.
abbrev pub Short {ℓ} : {A : Type ℓ} → Tree A → ℕ → Type 0
Short t h = (IsBlack t × IsRb t h) ⊎ ((is_red t ≡ true) × IsRb (set_black t) (suc h))

-- What stands above a node of color `c` whose children have black height `h`.
abbrev pub FitsColor {ℓ} : {A : Type ℓ} → Color → Way A → ℕ → Type 0
FitsColor red path h = AllowsRed path × Fits path h
FitsColor black path h = Fits path (suc h)

-- The round ended.
pub record Ended {ℓ} {A : Type ℓ} (o : Option (Round A)) (xs : List A) : Type ℓ where
  pub whole : Tree A
  pub stops : o ≡ some (stop whole)
  pub balanced : IsBalanced whole
  pub order : in_order whole ≡ xs

-- The loop goes on below `path`; where the parent was red, it ends at once.
pub record GoesOn {ℓ} {A : Type ℓ} (c : Color) (path : Way A) (o : Option (Round A)) (xs : List A)
    : Type ℓ where
  pub child : Tree A
  pub height : ℕ
  pub goes : o ≡ some (again child path)
  pub short : Short child height
  pub fits : Fits path (suc height)
  pub order : before path ++ in_order child ++ behind path ≡ xs
  pub last : (is_red child ≡ true) ⊎ (c ≡ black)

module _ {ℓ} {A : Type ℓ} where
  -- A node of color `c` with balanced black children, put together and finished.
  pub finished_color :
      (c : Color) (path : Way A) (l : Tree A) (x : A) (r : Tree A) (h : ℕ)
      → FitsColor c path h
      → IsBlack l × IsRb l h
      → IsBlack r × IsRb r h
      → Gives
          (some (finish path (node c l x r)))
          (before path ++ in_order (node c l x r) ++ behind path)
  finished_color red path l x r h (a, f) bl br =
      finished path (node red l x r) h _ f (bl.0, br.0, bl.1, br.1) (inr a) refl
  finished_color black path l x r h f bl br =
      finished path (node black l x r) (suc h) _ f (bl.1, br.1) (inl refl) refl

  pub ended :
      (path : Way A) (t : Tree A) {xs ys : List A} {o : Option (Round A)}
      → Gives (some (finish path t)) xs
      → o ≡ some (stop (finish path t))
      → xs ≡ ys
      → Ended o ys
  ended path t g e q = record {
    whole = g.tree;
    stops = e ∙ ap (λ (u : Tree A). some (stop u)) (some-injective g.ends);
    balanced = g.balanced;
    order = g.order ∙ q;
  }

  module _ (c : Color) (x : A) (t : Tree A) (y : A) (path : Way A) where
    both_black_left :
        (bn bf : Tree A)
        → IsBlack bn
        → IsBlack bf
        → fix_left c x t (node black bn y bf) path
          ≡ some (again (node c t x (node red bn y bf)) path)
    unfolding fix_left
    both_black_left nil nil k m = refl
    both_black_left nil (node black cl v cr) k m = refl
    both_black_left nil (node red cl v cr) k m = cc m
    both_black_left (node black al u ar) nil k m = refl
    both_black_left (node black al u ar) (node black cl v cr) k m = refl
    both_black_left (node black al u ar) (node red cl v cr) k m = cc m
    both_black_left (node red al u ar) bf k m = cc k

    far_red_left :
        (bn fl : Tree A) (z : A) (fr : Tree A)
        → fix_left c x t (node black bn y (node red fl z fr)) path
          ≡ some (stop (finish path (node c (node black t x bn) y (node black fl z fr))))
    unfolding fix_left rotate_left rotate_right
    far_red_left nil fl z fr = refl
    far_red_left (node black al u ar) fl z fr = refl
    far_red_left (node red al u ar) fl z fr = refl

    near_red_left :
        (nl : Tree A) (w : A) (nr bf : Tree A)
        → IsBlack bf
        → fix_left c x t (node black (node red nl w nr) y bf) path
          ≡ some (stop (finish path (node c (node black t x nl) w (node black nr y bf))))
    unfolding fix_left rotate_left rotate_right
    near_red_left nl w nr nil k = refl
    near_red_left nl w nr (node black al u ar) k = refl
    near_red_left nl w nr (node red al u ar) k = cc k

  -- Both children of the black sibling are black: it becomes red, and the loop goes on at the parent.
  GoesOn-left :
      (c : Color) (x : A) (t : Tree A) (bn : Tree A) (y : A) (bf : Tree A) (path : Way A) (h : ℕ)
      → IsBlack t × IsRb t h
      → IsRb bn h × IsRb bf h
      → IsBlack bn
      → IsBlack bf
      → FitsColor c path (suc h)
      → GoesOn c path
          (fix_left c x t (node black bn y bf) path)
          (before path ++ in_order (node c t x (node black bn y bf)) ++ behind path)
  unfolding in_order
  GoesOn-left red x t bn y bf path h bt bb kn kf f = record {
    child = (node red t x (node red bn y bf));
    height = h;
    goes = both_black_left red x t y path bn bf kn kf;
    short = inr (refl, (bt.1, (kn, kf, bb.0, bb.1)));
    fits = f.1;
    order = refl;
    last = inl refl;
  }
  GoesOn-left black x t bn y bf path h bt bb kn kf f = record {
    child = (node black t x (node red bn y bf));
    height = suc h;
    goes = both_black_left black x t y path bn bf kn kf;
    short = inl (refl, (bt.1, (kn, kf, bb.0, bb.1)));
    fits = f;
    order = refl;
    last = inr refl;
  }

  -- A round at a left child whose sibling is black.
  pub fix_left_lem :
      (c : Color) (x : A) (t b : Tree A) (path : Way A) (h : ℕ)
      → IsBlack t × IsRb t h
      → IsBlack b × IsRb b (suc h)
      → FitsColor c path (suc h)
      → (Ended (fix_left c x t b path) (before path ++ in_order (node c t x b) ++ behind path))
        ⊎ (GoesOn c path
            (fix_left c x t b path)
            (before path ++ in_order (node c t x b) ++ behind path))
  unfolding in_order
  fix_left_lem c x t nil path h bt bb f = absurd bb.1
  fix_left_lem c x t (node red bl y br) path h bt bb f = cc bb.0
  fix_left_lem c x t (node black bn y (node red fl z fr)) path h bt bb f = inl (
      ended path (node c (node black t x bn) y (node black fl z fr))
        (finished_color c path (node black t x bn) y (node black fl z fr) (suc h) f
          (refl, (bt.1, bb.1.0)) (refl, (bb.1.1.2, bb.1.1.3)))
        (far_red_left c x t y path bn fl z fr) (simp append_assoc))
  fix_left_lem c x t (node black (node red nl w nr) y nil) path h bt bb f = inl (
      ended path (node c (node black t x nl) w (node black nr y nil))
        (finished_color c path (node black t x nl) w (node black nr y nil) (suc h) f
          (refl, (bt.1, bb.1.0.2)) (refl, (bb.1.0.3, bb.1.1)))
        (near_red_left c x t y path nl w nr nil refl) (simp append_assoc))
  fix_left_lem c x t (node black nil y nil) path h bt bb f =
      inr (GoesOn-left c x t nil y nil path h bt bb.1 refl refl f)
  fix_left_lem c x t (node black (node black cl v cr) y nil) path h bt bb f =
      inr (GoesOn-left c x t (node black cl v cr) y nil path h bt bb.1 refl refl f)
  fix_left_lem c x t (node black (node red nl w nr) y (node black al u ar)) path h bt bb f = inl (
      ended path (node c (node black t x nl) w (node black nr y (node black al u ar)))
        (finished_color c path (node black t x nl) w (node black nr y (node black al u ar)) (suc h)
          f (refl, (bt.1, bb.1.0.2)) (refl, (bb.1.0.3, bb.1.1)))
        (near_red_left c x t y path nl w nr (node black al u ar) refl) (simp append_assoc))
  fix_left_lem c x t (node black nil y (node black al u ar)) path h bt bb f =
      inr (GoesOn-left c x t nil y (node black al u ar) path h bt bb.1 refl refl f)
  fix_left_lem c x t (node black (node black cl v cr) y (node black al u ar)) path h bt bb f =
      inr (GoesOn-left c x t (node black cl v cr) y (node black al u ar) path h bt bb.1 refl refl f)

  module _ (c : Color) (x : A) (t : Tree A) (y : A) (path : Way A) where
    both_black_right :
        (bn bf : Tree A)
        → IsBlack bn
        → IsBlack bf
        → fix_right c x t (node black bf y bn) path
          ≡ some (again (node c (node red bf y bn) x t) path)
    unfolding fix_right
    both_black_right nil nil k m = refl
    both_black_right nil (node black cl v cr) k m = refl
    both_black_right nil (node red cl v cr) k m = cc m
    both_black_right (node black al u ar) nil k m = refl
    both_black_right (node black al u ar) (node black cl v cr) k m = refl
    both_black_right (node black al u ar) (node red cl v cr) k m = cc m
    both_black_right (node red al u ar) bf k m = cc k

    far_red_right :
        (bn fl : Tree A) (z : A) (fr : Tree A)
        → fix_right c x t (node black (node red fl z fr) y bn) path
          ≡ some (stop (finish path (node c (node black fl z fr) y (node black bn x t))))
    unfolding fix_right rotate_left rotate_right
    far_red_right nil fl z fr = refl
    far_red_right (node black al u ar) fl z fr = refl
    far_red_right (node red al u ar) fl z fr = refl

    near_red_right :
        (nl : Tree A) (w : A) (nr bf : Tree A)
        → IsBlack bf
        → fix_right c x t (node black bf y (node red nl w nr)) path
          ≡ some (stop (finish path (node c (node black bf y nl) w (node black nr x t))))
    unfolding fix_right rotate_left rotate_right
    near_red_right nl w nr nil k = refl
    near_red_right nl w nr (node black al u ar) k = refl
    near_red_right nl w nr (node red al u ar) k = cc k

  -- Both children of the black sibling are black: it becomes red, and the loop goes on at the parent.
  GoesOn-right :
      (c : Color) (x : A) (t : Tree A) (bn : Tree A) (y : A) (bf : Tree A) (path : Way A) (h : ℕ)
      → IsBlack t × IsRb t h
      → IsRb bf h × IsRb bn h
      → IsBlack bn
      → IsBlack bf
      → FitsColor c path (suc h)
      → GoesOn c path
          (fix_right c x t (node black bf y bn) path)
          (before path ++ in_order (node c (node black bf y bn) x t) ++ behind path)
  unfolding in_order
  GoesOn-right red x t bn y bf path h bt bb kn kf f = record {
    child = (node red (node red bf y bn) x t);
    height = h;
    goes = both_black_right red x t y path bn bf kn kf;
    short = inr (refl, ((kf, kn, bb.0, bb.1), bt.1));
    fits = f.1;
    order = refl;
    last = inl refl;
  }
  GoesOn-right black x t bn y bf path h bt bb kn kf f = record {
    child = (node black (node red bf y bn) x t);
    height = suc h;
    goes = both_black_right black x t y path bn bf kn kf;
    short = inl (refl, ((kf, kn, bb.0, bb.1), bt.1));
    fits = f;
    order = refl;
    last = inr refl;
  }

  -- A round at a right child whose sibling is black.
  pub fix_right_lem :
      (c : Color) (x : A) (t b : Tree A) (path : Way A) (h : ℕ)
      → IsBlack t × IsRb t h
      → IsBlack b × IsRb b (suc h)
      → FitsColor c path (suc h)
      → (Ended (fix_right c x t b path) (before path ++ in_order (node c b x t) ++ behind path))
        ⊎ (GoesOn c path
            (fix_right c x t b path)
            (before path ++ in_order (node c b x t) ++ behind path))
  unfolding in_order
  fix_right_lem c x t nil path h bt bb f = absurd bb.1
  fix_right_lem c x t (node red bl y br) path h bt bb f = cc bb.0
  fix_right_lem c x t (node black (node red fl z fr) y bn) path h bt bb f = inl (
      ended path (node c (node black fl z fr) y (node black bn x t))
        (finished_color c path (node black fl z fr) y (node black bn x t) (suc h) f
          (refl, (bb.1.0.2, bb.1.0.3)) (refl, (bb.1.1, bt.1)))
        (far_red_right c x t y path bn fl z fr) (simp append_assoc))
  fix_right_lem c x t (node black nil y (node red nl w nr)) path h bt bb f = inl (
      ended path (node c (node black nil y nl) w (node black nr x t))
        (finished_color c path (node black nil y nl) w (node black nr x t) (suc h) f
          (refl, (bb.1.0, bb.1.1.2)) (refl, (bb.1.1.3, bt.1)))
        (near_red_right c x t y path nl w nr nil refl) (simp append_assoc))
  fix_right_lem c x t (node black nil y nil) path h bt bb f =
      inr (GoesOn-right c x t nil y nil path h bt bb.1 refl refl f)
  fix_right_lem c x t (node black nil y (node black cl v cr)) path h bt bb f =
      inr (GoesOn-right c x t (node black cl v cr) y nil path h bt bb.1 refl refl f)
  fix_right_lem c x t (node black (node black al u ar) y (node red nl w nr)) path h bt bb f = inl (
      ended path (node c (node black (node black al u ar) y nl) w (node black nr x t))
        (finished_color c path (node black (node black al u ar) y nl) w (node black nr x t) (suc h)
          f (refl, (bb.1.0, bb.1.1.2)) (refl, (bb.1.1.3, bt.1)))
        (near_red_right c x t y path nl w nr (node black al u ar) refl) (simp append_assoc))
  fix_right_lem c x t (node black (node black al u ar) y nil) path h bt bb f =
      inr (GoesOn-right c x t nil y (node black al u ar) path h bt bb.1 refl refl f)
  fix_right_lem c x t (node black (node black al u ar) y (node black cl v cr)) path h bt bb f =
      inr
        (GoesOn-right c x t (node black cl v cr) y (node black al u ar) path h bt bb.1 refl refl f)
