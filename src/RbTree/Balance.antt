-- ===== src/RbTree/Balance.antt =====
-- The red-black invariant of a tree, and of what surrounds a place in it.
use spbau_os_hw.Prelude.{ℕ, zero, suc, ◌≡◌, refl, ◌⊎◌, inl, inr, false, [], ◌∷◌}
use spbau_os_hw.RbTree.{
  red, black, Tree, nil, node, in_left, in_right, Way, is_red, set_black, parent_red, plug, finish,
}

module _ {ℓ} {A : Type ℓ} where
  abbrev pub IsBlack : Tree A → Type 0
  IsBlack t = is_red t ≡ false

  -- No red node has a red child, and each way down meets `h` black nodes.
  abbrev pub IsRb : Tree A → ℕ → Type 0
  IsRb nil zero = Unit
  IsRb nil (suc h) = ⊥
  IsRb (node red l x r) h = IsBlack l × IsBlack r × IsRb l h × IsRb r h
  IsRb (node black l x r) zero = ⊥
  IsRb (node black l x r) (suc h) = IsRb l h × IsRb r h

  -- A red node may stand at the place: its parent is there, and is black.
  abbrev pub AllowsRed : Way A → Type 0
  AllowsRed [] = ⊥
  AllowsRed (f ∷ path) = parent_red f ≡ false

  -- With a subtree of black height `h`, black where the path asks for it, the whole is a red-black
  -- tree.
  abbrev pub Fits : Way A → ℕ → Type 0
  Fits [] h = Unit
  Fits (in_left red x r ∷ path) h = IsBlack r × IsRb r h × AllowsRed path × Fits path h
  Fits (in_left black x r ∷ path) h = IsRb r h × Fits path (suc h)
  Fits (in_right red l x ∷ path) h = IsBlack l × IsRb l h × AllowsRed path × Fits path h
  Fits (in_right black l x ∷ path) h = IsRb l h × Fits path (suc h)

  -- A red-black tree with a black root.
  pub record IsBalanced (t : Tree A) : Type 0 where
    pub height : ℕ
    pub is_rb : IsRb t height
    pub black_root : IsBlack t

  pub set_black-IsBalanced : (t : Tree A) (h : ℕ) → IsRb t h → IsBalanced (set_black t)
  set_black-IsBalanced nil h b = record { height = h; is_rb = b; black_root = refl }
  set_black-IsBalanced (node red l x r) h b = record {
    height = suc h;
    is_rb = (b.2, b.3);
    black_root = refl;
  }
  set_black-IsBalanced (node black l x r) h b = record { height = h; is_rb = b; black_root = refl }

  -- What is put together fits, if the place allows its color.
  pub finish-IsBalanced :
      (path : Way A) (t : Tree A) (h : ℕ)
      → Fits path h
      → IsRb t h
      → (IsBlack t) ⊎ (AllowsRed path)
      → IsBalanced (finish path t)
  unfolding finish plug
  finish-IsBalanced [] t h f b c = set_black-IsBalanced t h b
  finish-IsBalanced (in_left red x r ∷ path) t h (kr, br, a, f) b (inl k) =
      finish-IsBalanced path (node red t x r) h f (k, kr, b, br) (inr a)
  finish-IsBalanced (in_left red x r ∷ path) t h f b (inr k) = cc k
  finish-IsBalanced (in_left black x r ∷ path) t h (br, f) b c =
      finish-IsBalanced path (node black t x r) (suc h) f (b, br) (inl refl)
  finish-IsBalanced (in_right red l x ∷ path) t h (kl, bl, a, f) b (inl k) =
      finish-IsBalanced path (node red l x t) h f (kl, k, bl, b) (inr a)
  finish-IsBalanced (in_right red l x ∷ path) t h f b (inr k) = cc k
  finish-IsBalanced (in_right black l x ∷ path) t h (bl, f) b c =
      finish-IsBalanced path (node black l x t) (suc h) f (bl, b) (inl refl)

  pub set_black-IsBlack : (t : Tree A) → IsBlack (set_black t)
  set_black-IsBlack nil = refl
  set_black-IsBlack (node c l x r) = refl

  set_black_same : (t : Tree A) → IsBlack t → set_black t ≡ t
  set_black_same nil k = refl
  set_black_same (node red l x r) k = cc k
  set_black_same (node black l x r) k = refl

  plug-IsBlack :
      (path : Way A) (t : Tree A) (h : ℕ)
      → Fits path h
      → (IsBlack t) ⊎ (AllowsRed path)
      → IsBlack (plug path t)
  unfolding plug
  plug-IsBlack [] t h f (inl k) = k
  plug-IsBlack [] t h f (inr k) = absurd k
  plug-IsBlack (in_left red x r ∷ path) t h f k = plug-IsBlack path (node red t x r) h f.3 (inr f.2)
  plug-IsBlack (in_right red l x ∷ path) t h f k =
      plug-IsBlack path (node red l x t) h f.3 (inr f.2)
  plug-IsBlack (in_left black x r ∷ path) t h f k =
      plug-IsBlack path (node black t x r) (suc h) f.1 (inl refl)
  plug-IsBlack (in_right black l x ∷ path) t h f k =
      plug-IsBlack path (node black l x t) (suc h) f.1 (inl refl)

  -- A root that is black is not changed by the last step.
  pub finish-plug :
      (path : Way A) (t : Tree A) (h : ℕ)
      → Fits path h
      → (IsBlack t) ⊎ (AllowsRed path)
      → finish path t ≡ plug path t
  unfolding finish
  finish-plug path t h f k = set_black_same (plug path t) (plug-IsBlack path t h f k)
