-- ===== src/RbTree/Erase/Laws.antt =====
-- `rb_erase_fix` ends with a balanced tree, and so `rb_erase` keeps the tree red-black and takes just
-- the one node out.
use mathlib.Core.List.{append_assoc, append-nil}
use spbau_os_hw.Prelude.{
  ℕ, zero, suc, ◌+◌, ◌≤◌, ◌≡◌, refl, sym, ap, subst, ◌∙◌, ◌⊎◌, inl, inr, arith, true, false, List,
  [], ◌∷◌, ◌++◌, Option, some, length,
}
use spbau_os_hw.RbTree.{
  Color, red, black, Tree, nil, node, Frame, in_left, in_right, Way, is_red, set_black, plug,
  rotate_left, rotate_right,
}
use spbau_os_hw.RbTree.Order.{in_order, before, behind, in_order-set_color}
use spbau_os_hw.RbTree.Balance.{
  IsBlack, IsRb, AllowsRed, Fits, finish-plug, set_black-IsBlack, set_black-IsBalanced,
}
use spbau_os_hw.RbTree.Insert.{Gives, finished, regrouped}
use spbau_os_hw.RbTree.Erase.{
  Round, again, below_left, below_right, fix_round, erase_fix, Leftmost, leftmost, repair, rb_erase,
}
use spbau_os_hw.RbTree.Erase.Fix.{Short, Ended, GoesOn, fix_left_lem, fix_right_lem}

-- The loop goes on at a place that is nearer to the root, or at a red child, where it ends.
record Continues {ℓ} {A : Type ℓ} (n : ℕ) (o : Option (Round A)) (xs : List A) : Type ℓ where
  place : Way A
  child : Tree A
  height : ℕ
  goes : o ≡ some (again child place)
  short : Short child height
  fits : Fits place (suc height)
  order : before place ++ in_order child ++ behind place ≡ xs
  nearer : (is_red child ≡ true) ⊎ (length place ≡ n)

module _ {ℓ} {A : Type ℓ} where
  Outcome : ℕ → Option (Round A) → List A → Type ℓ
  Outcome n o xs = (Ended o xs) ⊎ (Continues n o xs)

  outcome :
      {c : Color} {path : Way A} {o : Option (Round A)} {xs ys : List A} (n : ℕ)
      → (Ended o xs) ⊎ (GoesOn c path o xs)
      → xs ≡ ys
      → (length path ≡ n) ⊎ (c ≡ red)
      → Outcome n o ys
  unfolding Outcome
  outcome n (inl e) q r =
      inl (record { whole = e.whole; stops = e.stops; balanced = e.balanced; order = e.order ∙ q })
  outcome {c} {path} n (inr g) q r = inr (record {
    place = path;
    child = g.child;
    height = g.height;
    goes = g.goes;
    short = g.short;
    fits = g.fits;
    order = g.order ∙ q;
    nearer = nearer g.last r;
  })
    where
      nearer :
          (is_red g.child ≡ true) ⊎ (c ≡ black)
          → (length path ≡ n) ⊎ (c ≡ red)
          → (is_red g.child ≡ true) ⊎ (length path ≡ n)
      nearer (inl a) b = inl a
      nearer (inr a) (inl b) = inr b
      nearer (inr a) (inr b) = absurd (cc)

  fix_round_lem :
      (t : Tree A) (f : Frame A) (path : Way A) (h : ℕ)
      → IsBlack t × IsRb t h
      → Fits (f ∷ path) (suc h)
      → Outcome
          (length path)
          (fix_round t f path)
          (before (f ∷ path) ++ in_order t ++ behind (f ∷ path))
  unfolding fix_round below_left below_right rotate_left rotate_right before behind in_order
  fix_round_lem t (in_left red x b) path h bt f = rw f.0 (
      outcome (length path) (fix_left_lem red x t b path h bt (f.0, f.1) (f.2, f.3))
        (simp append_assoc) (inl refl))
  fix_round_lem t (in_right red b x) path h bt f = rw f.0 (
      outcome (length path) (fix_right_lem red x t b path h bt (f.0, f.1) (f.2, f.3))
        (simp append_assoc) (inl refl))
  fix_round_lem t (in_left black x nil) path h bt f = absurd f.0
  fix_round_lem t (in_right black nil x) path h bt f = absurd f.0
  fix_round_lem t (in_left black x (node black bl y br)) path h bt f =
      outcome (length path) (fix_left_lem black x t (node black bl y br) path h bt (refl, f.0) f.1)
        (simp append_assoc) (inl refl)
  fix_round_lem t (in_right black (node black bl y br) x) path h bt f =
      outcome (length path) (fix_right_lem black x t (node black bl y br) path h bt (refl, f.0) f.1)
        (simp append_assoc) (inl refl)
  fix_round_lem t (in_left black x (node red bl y br)) path h bt f =
      outcome (length path)
        (fix_left_lem red x t bl (in_left black y br ∷ path) h bt (f.0.0, f.0.2)
          (refl, (f.0.3, f.1)))
        (simp append_assoc) (inr refl)
  fix_round_lem t (in_right black (node red bl y br) x) path h bt f =
      outcome (length path)
        (fix_right_lem red x t br (in_right black bl y ∷ path) h bt (f.0.1, f.0.3)
          (refl, (f.0.2, f.1)))
        (simp append_assoc) (inr refl)

  -- A subtree with a black root, put together.
  plugged :
      (path : Way A) (t : Tree A) (h : ℕ)
      → Fits path h
      → IsRb t h
      → IsBlack t
      → Gives (some (plug path t)) (before path ++ in_order t ++ behind path)
  plugged path t h f b k =
      subst (λ u. Gives (some u) (before path ++ in_order t ++ behind path))
        (finish-plug path t h f (inl k)) (finished path t h (in_order t) f b (inl k) refl)

  Enough : ℕ → Tree A → Way A → Type 0
  Enough n t path = ((is_red t ≡ true) × (1 ≤ n)) ⊎ (length path + 2 ≤ n)

  erase_fix_lem :
      (n : ℕ) (t : Tree A) (path : Way A) (h : ℕ)
      → Enough n t path
      → Short t h
      → Fits path (suc h)
      → Gives (erase_fix n t path) (before path ++ in_order t ++ behind path)
  unfolding Enough Outcome erase_fix before behind
  erase_fix_lem zero t path h e s f =
      absurd (elim e [ inl a ↦ (omega (arith, a.1)) | inr a ↦ (omega (arith, a)) ])
  erase_fix_lem (suc n) t [] h e s f = record {
    tree = set_black t;
    ends = refl;
    balanced = elim s [
      | inl a ↦ set_black-IsBalanced t h a.1
      | inr a ↦ record { height = suc h; is_rb = a.1; black_root = set_black-IsBlack t }
    ];
    order = in_order-set_color black t ∙ sym (append-nil (in_order t));
  }
  erase_fix_lem (suc n) t (f ∷ path) h e (inr (r, b)) k = rw r (
      regrouped (plugged (f ∷ path) (set_black t) (suc h) k b (set_black-IsBlack t)) (
        ap (λ (ys : List A). before (f ∷ path) ++ ys ++ behind (f ∷ path))
          (in_order-set_color black t)))
  erase_fix_lem (suc n) t (f ∷ path) h e (inl bt) k =
      rw bt.0 (elim (fix_round_lem t f path h bt k) [
        | inl d ↦
            rw d.stops
              (record { tree = d.whole; ends = refl; balanced = d.balanced; order = d.order })
        | inr g ↦ rw g.goes (
            regrouped
              (erase_fix_lem n g.child g.place g.height (rounds e bt.0 g.child g.place g.nearer)
                g.short g.fits)
              g.order)
      ])
    where
      rounds :
          Enough (suc n) t (f ∷ path)
          → IsBlack t
          → (child : Tree A) (place : Way A) → (is_red child ≡ true) ⊎ (length place ≡ length path)
          → Enough n child place
      rounds (inl a) k child place m = let w : true ≡ false = sym a.0 ∙ k in cc
      rounds (inr a) k child place (inl r) = inl (r, omega (arith, a))
      rounds (inr a) k child place (inr q) = inr (omega (arith, a, q))

  Short-of : (t : Tree A) (h : ℕ) → IsRb t h → Short t h
  Short-of nil h b = inl (refl, b)
  Short-of (node black l x r) h b = inl (refl, b)
  Short-of (node red l x r) h b = inr (refl, (b.2, b.3))

  -- A node without a left child was taken out, and its other child stands in its place.
  repair_lem :
      (color : Color) (e : A) (c : Tree A) (path : Way A) (h : ℕ)
      → IsRb (node color nil e c) h
      → Fits path h
      → Gives (repair color c path) (before path ++ in_order c ++ behind path)
  unfolding repair Enough
  repair_lem red e c path h b f = plugged path c h f b.3 b.1
  repair_lem black e c path zero b f = absurd b
  repair_lem black e c path (suc h) b f =
      erase_fix_lem (suc (suc (length path))) c path h (inr (omega arith)) (Short-of c h b.1) f

  -- The walk to the leftmost node, above `rest`.
  record Next (rest : Way A) (xs : List A) (m : Leftmost A) : Type ℓ where
    height : ℕ
    is_rb : IsRb (node m.color nil m.entry m.right) height
    fits : Fits (m.path ++ rest) height
    same_before : before (m.path ++ rest) ≡ before rest
    order : m.entry ∷ in_order m.right ++ behind (m.path ++ rest) ≡ xs

  regrouped-Next :
      {rest : Way A} {xs ys : List A} {m : Leftmost A} → Next rest xs m → xs ≡ ys → Next rest ys m
  regrouped-Next {rest} {m = m} g e = subst (λ zs. Next rest zs m) e g

  leftmost_lem :
      (d : Color) (l : Tree A) (x : A) (r : Tree A) (path rest : Way A) (h : ℕ)
      → IsRb (node d l x r) h
      → Fits (path ++ rest) h
      → (IsBlack (node d l x r)) ⊎ (AllowsRed (path ++ rest))
      → before (path ++ rest) ≡ before rest
      → Next rest (in_order (node d l x r) ++ behind (path ++ rest)) (leftmost d l x r path)
  unfolding leftmost in_order before behind
  leftmost_lem d nil x r path rest h b f k q = record {
    height = h;
    is_rb = b;
    fits = f;
    same_before = q;
    order = refl;
  }
  leftmost_lem red (node red ll y lr) x r path rest h b f k q = cc b.0
  leftmost_lem red (node black ll y lr) x r path rest h b f (inl k) q = cc k
  leftmost_lem red (node black ll y lr) x r path rest h b f (inr k) q =
      regrouped-Next
        (leftmost_lem black ll y lr (in_left red x r ∷ path) rest h b.2 (b.1, b.3, k, f) (inl refl)
          q)
        (simp append_assoc)
  leftmost_lem black (node c ll y lr) x r path rest zero b f k q = absurd b
  leftmost_lem black (node c ll y lr) x r path rest (suc h) b f k q =
      regrouped-Next
        (leftmost_lem c ll y lr (in_left black x r ∷ path) rest h b.0 (b.1, f) (inr refl) q)
        (simp append_assoc)

  -- A node with two children, before its left child and behind.
  two_children :
      (color : Color) (l : Tree A) (x : A) (d : Color) (rl : Tree A) (z : A) (rr : Tree A)
      (path : Way A) (h : ℕ)
      → Fits (in_right color l x ∷ path) h
      → IsRb (node d rl z rr) h
      → (IsBlack (node d rl z rr)) ⊎ (color ≡ black)
      → (let next = leftmost d rl z rr [] in
          Gives
            (repair next.color next.right (next.path ++ in_right color l next.entry ∷ path))
            (before path ++ (in_order l ++ in_order (node d rl z rr)) ++ behind path))
  unfolding in_order before behind
  two_children color l x d rl z rr path h f b k =
      let m = leftmost d rl z rr [] in
      let rest = in_right color l m.entry ∷ path in
      let n =
        leftmost_lem d rl z rr [] rest h b (same_fits color m.entry f) (allowed color m.entry k)
          refl in
      regrouped (repair_lem m.color m.entry m.right (m.path ++ rest) n.height n.is_rb n.fits) (
        ap (λ (ys : List A). ys ++ in_order m.right ++ behind (m.path ++ rest)) n.same_before
        ∙ (simp append_assoc)
        ∙ ap (λ (ys : List A). before path ++ in_order l ++ ys) n.order
        ∙ (simp append_assoc))
    where
      same_fits :
          (c : Color) (e : A) → Fits (in_right c l x ∷ path) h → Fits (in_right c l e ∷ path) h
      same_fits red e f = f
      same_fits black e f = f

      allowed :
          (c : Color) (e : A)
          → (IsBlack (node d rl z rr)) ⊎ (c ≡ black)
          → (IsBlack (node d rl z rr)) ⊎ (AllowsRed (in_right c l e ∷ path))
      allowed c e (inl a) = inl a
      allowed red e (inr a) = absurd (cc)
      allowed black e (inr a) = inr refl

  -- Taking a node out of a red-black tree: `rb_erase` ends, reads through no null pointer, and gives
  -- a red-black tree with the other nodes, in order.
  pub rb_erase-Gives :
      (color : Color) (l : Tree A) (x : A) (r : Tree A) (path : Way A) (h : ℕ)
      → IsRb (node color l x r) h
      → Fits path h
      → (IsBlack (node color l x r)) ⊎ (AllowsRed path)
      → Gives
          (rb_erase (node color l x r) path)
          (before path ++ (in_order l ++ in_order r) ++ behind path)
  unfolding rb_erase in_order
  rb_erase-Gives color nil x r path h b f k = repair_lem color x r path h b f
  rb_erase-Gives color (node c ll y lr) x nil path h b f k =
      regrouped (repair_lem color x (node c ll y lr) path h (mirrored color h b) f)
        (simp append_assoc)
    where
      mirrored :
          (color : Color) (h : ℕ)
          → IsRb (node color (node c ll y lr) x nil) h
          → IsRb (node color nil x (node c ll y lr)) h
      mirrored red h b = (b.1, b.0, b.3, b.2)
      mirrored black zero b = b
      mirrored black (suc h) b = (b.1, b.0)
  rb_erase-Gives red (node c ll y lr) x (node d rl z rr) path h b f (inl k) = cc k
  rb_erase-Gives red (node c ll y lr) x (node d rl z rr) path h b f (inr k) =
      two_children red (node c ll y lr) x d rl z rr path h (b.0, b.2, k, f) b.3 (inl b.1)
  rb_erase-Gives black (node c ll y lr) x (node d rl z rr) path zero b f k = absurd b
  rb_erase-Gives black (node c ll y lr) x (node d rl z rr) path (suc h) b f k =
      two_children black (node c ll y lr) x d rl z rr path h (b.0, f) b.1 (inr refl)
