-- ===== src/PageAlloc/Moves.antt =====
-- The steps that the operations of memory.c are made of, and that they keep the invariant.
use spbau_os_hw.Prelude.{
  ℕ, ◌+◌, ◌≤◌, ◌≡◌, ◌≢◌, refl, sym, ap, subst, ◌∙◌, true, false, arith, ◌==◌, List, [], ◌∷◌, ◌++◌,
  All-append, All, All-zip, update, ==_ne, ==_iff, ==_refl, Bool-cases, inl, inr,
}
use spbau_os_hw.Prelude.Run.{ok, bug, Run-cases, ok-injective}
use spbau_os_hw.PageAlloc.{Page, Zone, max_order, page_is_free, page_order, take_out}
use spbau_os_hw.PageAlloc.Cover.{
  is_at_self, is_at_ne, covers, inside, is_at, sum_list, sum_orders, covers_self,
  covers-is_at-inside, sum_orders-update, take_out-sum,
}
use spbau_os_hw.PageAlloc.Invariant.{
  Block, sum_blocks, IsBlock, IsMarked, IsListed, IsHeld, Inv, not_listed, not_held,
}

take_out_here : (p x : ℕ) (xs : List ℕ) → (x == p) ≡ true → take_out p (x ∷ xs) ≡ ok xs
unfolding take_out
take_out_here p x xs h = rw h

pub take_out_first : (p : ℕ) (xs : List ℕ) → take_out p (p ∷ xs) ≡ ok xs
take_out_first p xs = take_out_here p p xs (==_refl p)

take_out_there :
    (p x : ℕ) (xs ys : List ℕ)
    → (x == p) ≡ false
    → take_out p xs ≡ ok ys
    → take_out p (x ∷ xs) ≡ ok (x ∷ ys)
unfolding take_out
take_out_there p x xs ys h e = ground (arith, h, e)

take_out_fails :
    (p x : ℕ) (xs : List ℕ) → (x == p) ≡ false → take_out p xs ≡ bug → take_out p (x ∷ xs) ≡ bug
unfolding take_out
take_out_fails p x xs h e = ground (arith, h, e)

-- The entry and the rest have what all entries had.
pub All-take_out :
    (P : ℕ → Type 0) (p : ℕ) (ps rest : List ℕ)
    → take_out p ps ≡ ok rest
    → All P ps
    → P p × All P rest
unfolding take_out
All-take_out P p [] rest e a = cc
All-take_out P p (x ∷ xs) rest e a = elim (Bool-cases (x == p)) [
  | inl here ↦ (
    subst P ((==_iff x p).0 here) a.0,
    subst (All P) (ok-injective (sym (take_out_here p x xs here) ∙ e)) a.1,
  )
  | inr there ↦ elim (Run-cases (take_out p xs)) [
    | inl fails ↦ cc (take_out_fails p x xs there fails)
    | inr (ys, found) ↦
        let (h, t) = All-take_out P p xs ys found a.1 in
        (h, subst (All P) (ok-injective (sym (take_out_there p x xs ys there found) ∙ e)) (a.0, t))
  ]
]

-- `P` of the value at `j`: the new one, or the old one where `j` is not `k`.
pub update-cases :
    {A : Type 0} (P : ℕ → A → Type 0) (f : ℕ → A) (k : ℕ) (ps : A) (j : ℕ)
    → (j ≡ k → P j ps)
    → ((j ≡ k → ⊥) → P j (f j))
    → P j (update f k ps j)
update-cases P f k ps j at other = elim (Bool-cases (j == k)) [
  | inl e ↦ rw e (at ((==_iff j k).0 e))
  | inr e ↦ rw e (other (ground arith))
]

-- The blocks at work are grouped anew.
pub regroup :
    {T : ℕ → ℕ} {z : Zone} {W A : List Block} (V : List Block)
    → Inv T z W A
    → All (IsBlock z) V
    → ((g : ℕ) → sum_blocks covers V g ≡ sum_blocks covers W g)
    → Inv T z V A
regroup V inv b same = record {
  listed = inv.listed;
  work = b;
  held = inv.held;
  total = λ g. omega (arith, inv.total g, same g);
  once = inv.once;
  known = λ p l u f. omega (arith, inv.known p l u f, same p);
}

-- A block at work is handed out.
pub hold :
    {T : ℕ → ℕ} {z : Zone} {W A : List Block} (p k : ℕ)
    → page_is_free (z.pages p) ≡ false
    → Inv T z ((p, k) ∷ W) A
    → Inv T z W ((p, k) ∷ A)
hold {z} p k busy inv = record {
  listed = inv.listed;
  work = inv.work.1;
  held = ((inv.work.0, busy), inv.held);
  total = λ g. omega (arith, inv.total g);
  once = inv.once;
  known = λ q l u f.
      omega (arith, inv.known q l u f, covers-is_at-inside p k q, is_at_ne p q (λ t. not_free t f));
}
  where
    not_free : {q : ℕ} → p ≡ q → page_is_free (z.pages q) ≡ true → ⊥
    not_free t f = cc

-- A held block is taken back to be worked on.
pub release :
    {T : ℕ → ℕ} {z : Zone} {W A : List Block} (p k : ℕ)
    → Inv T z W ((p, k) ∷ A)
    → Inv T z ((p, k) ∷ W) A
release p k inv = record {
  listed = inv.listed;
  work = (inv.held.0.0, inv.work);
  held = inv.held.1;
  total = λ g. omega (arith, inv.total g);
  once = inv.once;
  known = λ q l u f. omega (arith, inv.known q l u f, covers-is_at-inside p k q);
}

-- A free block is taken off its list.
pub unlist :
    {T : ℕ → ℕ} {z : Zone} {W A : List Block} (b k : ℕ) (rest : List ℕ)
    → k ≤ max_order
    → take_out b (z.order k) ≡ ok rest
    → Inv T z W A
    → Inv T (record z { order = update z.order k rest }) ((b, k) ∷ W) A
unlist {z} {W} {A} b k rest l e inv =
    let at = All-take_out (IsListed z k) b (z.order k) rest e (inv.listed k l) in
    record {
      listed = λ j h.
          update-cases (λ i ps. All (IsListed z i) ps) z.order k rest j
            (λ t. subst (λ i. All (IsListed z i) rest) (sym t) at.1) (λ _. inv.listed j h);
      work = (at.0.0, inv.work);
      held = inv.held;
      total = λ g. omega (
        arith,
        inv.total g,
        sum_orders-update covers 19 z.order k rest g (omega arith),
        take_out-sum (λ p. covers p k) b (z.order k) rest g e,
      );
      once = inv.once;
      known = λ q lo hi f.
          update-cases
            (λ i ps.
              1
              ≤ sum_list is_at ps q
                + sum_orders inside 19 (update z.order k rest) q
                + sum_blocks inside A q
                + (covers b k q + sum_blocks covers W q))
            z.order k rest (page_order (z.pages q))
            (λ t. omega (
              arith,
              inv.known q lo hi f,
              ap (λ i. sum_list is_at (z.order i) q) t,
              covers-is_at-inside b k q,
              sum_orders-update inside 19 z.order k rest q (omega arith),
              take_out-sum (λ p. inside p k) b (z.order k) rest q e,
              take_out-sum is_at b (z.order k) rest q e,
            ))
            (λ _. omega (
              arith,
              inv.known q lo hi f,
              covers-is_at-inside b k q,
              sum_orders-update inside 19 z.order k rest q (omega arith),
              take_out-sum (λ p. inside p k) b (z.order k) rest q e,
            ));
    }

-- A page that the blocks at work cover gets other flags.
module _ (z : Zone) (b : ℕ) (page : Page) where
  abbrev pages_after : ℕ → Page
  pages_after = update z.pages b page

  kept_in_lists :
      (k : ℕ) (ps : List ℕ)
      → All (λ p. p ≢ b) ps
      → All (IsListed z k) ps
      → All (IsListed (record z { pages = pages_after }) k) ps
  kept_in_lists k ps ne a = All-zip (λ p n t. (t.0, rw (==_ne p b n) t.1)) ps ne a

  kept_by_callers :
      (bs : List Block)
      → All (λ (q : Block). q.0 ≢ b) bs
      → All (IsHeld z) bs
      → All (IsHeld (record z { pages = pages_after })) bs
  kept_by_callers bs ne a = All-zip (λ p n t. (t.0, rw (==_ne p.0 b n) t.1)) bs ne a

-- A page that the blocks at work cover is marked busy.
pub make_busy :
    {T : ℕ → ℕ} {z : Zone} {W A : List Block} (b : ℕ) (page : Page)
    → page_is_free page ≡ false
    → 1 ≤ sum_blocks covers W b
    → Inv T z W A
    → Inv T (record z { pages = update z.pages b page }) W A
make_busy {z} {W} {A} b page busy c inv = record {
  listed = λ k l. kept_in_lists z b page k (z.order k) (not_listed inv b c k l) (inv.listed k l);
  work = inv.work;
  held = kept_by_callers z b page A (not_held inv b c) inv.held;
  total = inv.total;
  once = inv.once;
  known = λ q lo hi.
      update-cases
        (λ _ (pg : Page).
          page_is_free pg ≡ true
          → 1
            ≤ sum_list is_at (z.order (page_order pg)) q
              + sum_orders inside 19 z.order q
              + sum_blocks inside A q
              + sum_blocks covers W q)
        z.pages b page q (λ _ f. cc) (λ _. inv.known q lo hi);
}

-- `ps` holds the entries of `qs`, and `b`.
pub record Inserted (b : ℕ) (qs ps : List ℕ) : Type 1 where
  pub sums : (w : ℕ → ℕ → ℕ) (g : ℕ) → sum_list w ps g ≡ w b g + sum_list w qs g
  pub alls : (P : ℕ → Type 0) → P b → All P qs → All P ps

pub Inserted-first : (b : ℕ) (qs : List ℕ) → Inserted b qs (b ∷ qs)
Inserted-first b qs = record { sums = λ w g. refl; alls = λ P h t. (h, t) }

sum_list-append :
    (w : ℕ → ℕ → ℕ) (b : ℕ) (qs : List ℕ) (g : ℕ)
    → sum_list w (qs ++ b ∷ []) g ≡ w b g + sum_list w qs g
sum_list-append w b [] g = omega arith
sum_list-append w b (q ∷ qs) g = omega (arith, sum_list-append w b qs g)

pub Inserted-last : (b : ℕ) (qs : List ℕ) → Inserted b qs (qs ++ b ∷ [])
Inserted-last b qs = record {
  sums = λ w g. sum_list-append w b qs g;
  alls = λ P h t. All-append P qs (b ∷ []) t (h, tt);
}

heads_grow :
    (f : ℕ → List ℕ) (b k : ℕ) (ps : List ℕ) (j g : ℕ)
    → Inserted b (f k) ps
    → sum_list is_at (f j) g ≤ sum_list is_at (update f k ps j) g
heads_grow f b k ps j g h =
    update-cases (λ i qs. sum_list is_at (f j) g ≤ sum_list is_at qs g) f k ps j
      (λ t. omega (arith, ap (λ i. sum_list is_at (f i) g) t, h.sums is_at g)) (λ _. omega arith)

-- A block at work is put on the list of its order, which then is `ps`.
pub put :
    {T : ℕ → ℕ} {z : Zone} {W A : List Block} (b k : ℕ) (ps : List ℕ) (page : Page)
    → Inserted b (z.order k) ps
    → IsMarked page k
    → Inv T z ((b, k) ∷ W) A
    → Inv T (record z { order = update z.order k ps; pages = update z.pages b page }) W A
put {z} {W} {A} b k ps page ins m inv =
    let c : 1 ≤ covers b k b + sum_blocks covers W b = omega (arith, covers_self b k) in
    record {
      listed = λ j h.
          update-cases
            (λ i qs.
              All
                (IsListed (record z { order = update z.order k ps; pages = update z.pages b page })
                  i)
                qs)
            z.order k ps j
            (λ t.
              subst (λ i. All (λ p. IsBlock z (p, i) × IsMarked (update z.pages b page p) i) ps)
                (sym t)
                (ins.alls (λ p. IsBlock z (p, k) × IsMarked (update z.pages b page p) k)
                  (inv.work.0, rw (==_refl b) m)
                  (kept_in_lists z b page k (z.order k) (not_listed inv b c k inv.work.0.3)
                    (inv.listed k inv.work.0.3))))
            (λ _. kept_in_lists z b page j (z.order j) (not_listed inv b c j h) (inv.listed j h));
      work = inv.work.1;
      held = kept_by_callers z b page A (not_held inv b c) inv.held;
      total = λ g. omega (
        arith,
        inv.total g,
        sum_orders-update covers 19 z.order k ps g (omega (arith, inv.work.0.3)),
        ins.sums (λ p. covers p k) g,
      );
      once = inv.once;
      known = λ q lo hi.
          update-cases
            (λ _ (pg : Page).
              page_is_free pg ≡ true
              → 1
                ≤ sum_list is_at (update z.order k ps (page_order pg)) q
                  + sum_orders inside 19 (update z.order k ps) q
                  + sum_blocks inside A q
                  + sum_blocks covers W q)
            z.pages b page q
            (λ t _.
              rw (m.1, ==_refl k)
                (omega (arith, is_at_self b, ap (λ (i : ℕ). is_at b i) t, ins.sums is_at q)))
            (λ t f. omega (
              arith,
              inv.known q lo hi f,
              heads_grow z.order b k ps (page_order (z.pages q)) q ins,
              covers-is_at-inside b k q,
              is_at_ne b q (λ e. t (sym e)),
              sum_orders-update inside 19 z.order k ps q (omega (arith, inv.work.0.3)),
              ins.sums (λ p. inside p k) q,
            ));
    }
