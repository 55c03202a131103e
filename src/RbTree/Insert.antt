-- ===== src/RbTree/Insert.antt =====
-- `rb_insert` keeps the tree red-black, puts the new node in its place in order, and reads through
-- no null pointer.
use mathlib.Core.List.{append_assoc, append-nil}
use spbau_os_hw.Prelude.{
  ℕ, suc, ◌≡◌, refl, sym, ap, subst, ◌∙◌, ◌⊎◌, inl, inr, List, [], ◌∷◌, ◌++◌, Option, some,
}
use spbau_os_hw.Prelude.Partial.{◌>>=◌}
use spbau_os_hw.RbTree.{
  red, black, Tree, nil, node, Frame, in_left, in_right, Way, plug, finish, insert_fix, rb_insert,
  recolor, straighten, turn_grandparent, rotate_left, rotate_right,
}
use spbau_os_hw.RbTree.Order.{in_order, before, behind, in_order-finish}
use spbau_os_hw.RbTree.Balance.{IsBlack, IsRb, AllowsRed, Fits, IsBalanced, finish-IsBalanced}

-- The operation ends with a balanced tree whose nodes are `xs`, in order.
pub record Gives {ℓ} {A : Type ℓ} (result : Option (Tree A)) (xs : List A) : Type ℓ where
  pub tree : Tree A
  pub ends : result ≡ some tree
  pub balanced : IsBalanced tree
  pub order : in_order tree ≡ xs

module _ {ℓ} {A : Type ℓ} where
  -- A tree that is put together and finished.
  pub finished :
      (path : Way A) (t : Tree A) (h : ℕ) (xs : List A)
      → Fits path h
      → IsRb t h
      → (IsBlack t) ⊎ (AllowsRed path)
      → in_order t ≡ xs
      → Gives (some (finish path t)) (before path ++ xs ++ behind path)
  finished path t h xs f b k e = record {
    tree = finish path t;
    ends = refl;
    balanced = finish-IsBalanced path t h f b k;
    order = in_order-finish path t ∙ ap (λ (ys : List A). before path ++ ys ++ behind path) e;
  }

  pub regrouped : {o : Option (Tree A)} {xs ys : List A} → Gives o xs → xs ≡ ys → Gives o ys
  regrouped {o} g e = subst (λ zs. Gives o zs) e g

  -- The subtree that turning leaves, and that it holds the nodes that stood there.
  placed :
      (path : Way A) (t : Tree A) (h : ℕ) {ys : List A} {o : Option (Tree A)}
      → Fits path (suc h)
      → IsRb t (suc h)
      → IsBlack t
      → o ≡ some (finish path t)
      → before path ++ in_order t ++ behind path ≡ ys
      → Gives o ys
  placed path t h {ys} f b k q e =
      subst (λ o. Gives o ys) (sym q) (regrouped (finished path t (suc h) _ f b (inl k) refl) e)

  -- The four ways in which `p` and `g` are turned, for a sibling `u` of `p` that is black.
  module _ (l : Tree A) (x : A) (r : Tree A) (y z : A) (s u : Tree A) (path : Way A) (h : ℕ)
      (b : IsRb (node red l x r) h) (k : IsBlack u) where
    -- What the loop does after it has found a black sibling.
    turns : Frame A → Frame A → Option (Tree A)
    turns g f = do
      p ← straighten g f (node red l x r)
      t ← turn_grandparent g p
      some (finish path t)

    Wanted : Frame A → Frame A → Type ℓ
    Wanted g f =
        Gives (turns g f)
          (before (f ∷ g ∷ path) ++ in_order (node red l x r) ++ behind (f ∷ g ∷ path))

    outer_left :
        Fits (in_left red y s ∷ in_left black z u ∷ path) h
        → Wanted (in_left black z u) (in_left red y s)
    unfolding Wanted turns straighten turn_grandparent rotate_left rotate_right in_order before
        behind
    outer_left f =
        placed path (node black (node red l x r) y (node red s z u)) h f.3.1
          (b, (f.0, k, f.1, f.3.0)) refl refl (simp append_assoc)

    inner_left :
        Fits (in_right red s y ∷ in_left black z u ∷ path) h
        → Wanted (in_left black z u) (in_right red s y)
    unfolding Wanted turns straighten turn_grandparent rotate_left rotate_right in_order before
        behind
    inner_left f =
        placed path (node black (node red s y l) x (node red r z u)) h f.3.1
          ((f.0, b.0, f.1, b.2), (b.1, k, b.3, f.3.0)) refl refl (simp append_assoc)

    outer_right :
        Fits (in_right red s y ∷ in_right black u z ∷ path) h
        → Wanted (in_right black u z) (in_right red s y)
    unfolding Wanted turns straighten turn_grandparent rotate_left rotate_right in_order before
        behind
    outer_right f =
        placed path (node black (node red u z s) y (node red l x r)) h f.3.1
          ((k, f.0, f.3.0, f.1), b) refl refl (simp append_assoc)

    inner_right :
        Fits (in_left red y s ∷ in_right black u z ∷ path) h
        → Wanted (in_right black u z) (in_left red y s)
    unfolding Wanted turns straighten turn_grandparent rotate_left rotate_right in_order before
        behind
    inner_right f =
        placed path (node black (node red u z l) x (node red r y s)) h f.3.1
          ((k, b.0, f.3.0, b.2), (b.1, f.0, b.3, f.1)) refl refl (simp append_assoc)

  -- What the loop gives for a red node.
  insert_fix_lem :
      (l : Tree A) (x : A) (r : Tree A) (path : Way A) (h : ℕ)
      → IsRb (node red l x r) h
      → Fits path h
      → Gives
          (insert_fix (node red l x r) path)
          (before path ++ in_order (node red l x r) ++ behind path)
  unfolding insert_fix finish plug recolor in_order before behind Wanted turns
  insert_fix_lem l x r [] h b f = record {
    tree = node black l x r;
    ends = refl;
    balanced = record { height = suc h; is_rb = (b.2, b.3); black_root = refl };
    order = sym (append-nil _);
  }
  insert_fix_lem l x r (in_left black y s ∷ []) h b f =
      finished (in_left black y s ∷ []) (node red l x r) h _ f b (inr refl) refl
  insert_fix_lem l x r (in_left black y s ∷ g ∷ path) h b f =
      finished (in_left black y s ∷ g ∷ path) (node red l x r) h _ f b (inr refl) refl
  insert_fix_lem l x r (in_right black s y ∷ []) h b f =
      finished (in_right black s y ∷ []) (node red l x r) h _ f b (inr refl) refl
  insert_fix_lem l x r (in_right black s y ∷ g ∷ path) h b f =
      finished (in_right black s y ∷ g ∷ path) (node red l x r) h _ f b (inr refl) refl
  insert_fix_lem l x r (in_left red y s ∷ []) h b f = absurd f.2
  insert_fix_lem l x r (in_left red y s ∷ in_left red z u ∷ path) h b f = cc f.2
  insert_fix_lem l x r (in_left red y s ∷ in_right red u z ∷ path) h b f = cc f.2
  insert_fix_lem l x r (in_right red s y ∷ []) h b f = absurd f.2
  insert_fix_lem l x r (in_right red s y ∷ in_left red z u ∷ path) h b f = cc f.2
  insert_fix_lem l x r (in_right red s y ∷ in_right red u z ∷ path) h b f = cc f.2
  insert_fix_lem l x r (in_left red y s ∷ in_left black z (node red ul w ur) ∷ path) h b f =
      regrouped
        (insert_fix_lem (node black (node red l x r) y s) z (node black ul w ur) path (suc h)
          (refl, refl, (b, f.1), (f.3.0.2, f.3.0.3)) f.3.1)
        (simp append_assoc)
  insert_fix_lem l x r (in_left red y s ∷ in_left black z nil ∷ path) h b f =
      outer_left l x r y z s nil path h b refl f
  insert_fix_lem l x r (in_left red y s ∷ in_left black z (node black ul w ur) ∷ path) h b f =
      outer_left l x r y z s (node black ul w ur) path h b refl f
  insert_fix_lem l x r (in_left red y s ∷ in_right black (node red ul w ur) z ∷ path) h b f =
      regrouped
        (insert_fix_lem (node black ul w ur) z (node black (node red l x r) y s) path (suc h)
          (refl, refl, (f.3.0.2, f.3.0.3), (b, f.1)) f.3.1)
        (simp append_assoc)
  insert_fix_lem l x r (in_left red y s ∷ in_right black nil z ∷ path) h b f =
      inner_right l x r y z s nil path h b refl f
  insert_fix_lem l x r (in_left red y s ∷ in_right black (node black ul w ur) z ∷ path) h b f =
      inner_right l x r y z s (node black ul w ur) path h b refl f
  insert_fix_lem l x r (in_right red s y ∷ in_left black z (node red ul w ur) ∷ path) h b f =
      regrouped
        (insert_fix_lem (node black s y (node red l x r)) z (node black ul w ur) path (suc h)
          (refl, refl, (f.1, b), (f.3.0.2, f.3.0.3)) f.3.1)
        (simp append_assoc)
  insert_fix_lem l x r (in_right red s y ∷ in_left black z nil ∷ path) h b f =
      inner_left l x r y z s nil path h b refl f
  insert_fix_lem l x r (in_right red s y ∷ in_left black z (node black ul w ur) ∷ path) h b f =
      inner_left l x r y z s (node black ul w ur) path h b refl f
  insert_fix_lem l x r (in_right red s y ∷ in_right black (node red ul w ur) z ∷ path) h b f =
      regrouped
        (insert_fix_lem (node black ul w ur) z (node black s y (node red l x r)) path (suc h)
          (refl, refl, (f.3.0.2, f.3.0.3), (f.1, b)) f.3.1)
        (simp append_assoc)
  insert_fix_lem l x r (in_right red s y ∷ in_right black nil z ∷ path) h b f =
      outer_right l x r y z s nil path h b refl f
  insert_fix_lem l x r (in_right red s y ∷ in_right black (node black ul w ur) z ∷ path) h b f =
      outer_right l x r y z s (node black ul w ur) path h b refl f

  -- A new node at an empty place of a red-black tree: `rb_insert` ends, reads through no null
  -- pointer, and gives a red-black tree whose nodes are the old ones with the new one at that place.
  pub rb_insert-Gives :
      (x : A) (path : Way A)
      → Fits path 0
      → Gives (rb_insert x path) (before path ++ x ∷ behind path)
  unfolding rb_insert in_order
  rb_insert-Gives x path f =
      regrouped (insert_fix_lem nil x nil path 0 (refl, refl, tt, tt) f) (simp append_assoc)
