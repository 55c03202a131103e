-- ===== src/Kmap/Release.antt =====
-- Freeing a range: `kmap_free_range` of src/src/paging.c.
use spbau_os_hw.Prelude.{
  ℕ, ◌+◌, ◌-◌, ◌<◌, ◌≡◌, refl, sym, ap, subst, ◌∙◌, inl, inr, arith, Bool, true, false, List, [],
  ◌∷◌, ◌++◌, if◌then◌else◌, Bool-cases, ltb, lt→ltb, ge→ltb, ==_refl, ==_ne,
}
use spbau_os_hw.Kmap.{
  Kmap, kmap_pages, Freed, take_off, join_prev, join_next, put_free, kmap_free_range,
}
use spbau_os_hw.Kmap.Tiles.{
  Tile, Tiled, Tiled-le, Tiled-append, SameMarks, Tiled-SameMarks, join_left, join_right,
}
use spbau_os_hw.Kmap.Lists.{left_st, right_st}

if_false {ℓ} : {A : Type ℓ} (b : Bool) (x y : A) → b ≡ false → (if b then x else y) ≡ y
if_false true x y e = cc
if_false false x y e = refl

pub record LeftJoined (st : Kmap) (base : ℕ) (pre : List Tile) (mid n : ℕ) (g : Freed)
    : Type 0 where
  pub reach : g.range + g.count ≡ mid + n
  pub count_eq : g.count ≡ (join_left pre n).1
  pub tiles : Tiled st base (join_left pre n).0 g.range
  pub same_pages : g.st.pages ≡ st.pages
  pub same_linked : g.st.linked ≡ st.linked
  pub left_state : g.st ≡ left_st st base pre

abbrev pub freed : (range count : ℕ) → Kmap → Freed
freed range count st = record { range = range; count = count; st = st }

pub join_prev_lem :
    (st : Kmap) (base : ℕ) (pre : List Tile) (mid n : ℕ)
    → (pre ≡ [] → base ≡ 0)
    → Tiled st base pre mid
    → LeftJoined st base pre mid n (join_prev (freed mid n st))
unfolding join_prev take_off
join_prev_lem st base [] mid n z h =
    let e : ltb 0 mid ≡ false = ground (arith, z refl, h) in
    rw e (record {
      reach = refl;
      count_eq = refl;
      tiles = h;
      same_pages = refl;
      same_linked = refl;
      left_state = refl;
    })
join_prev_lem st base (t ∷ []) mid n z h =
    let m = h.0 in
    let p = m.some_pages in
    let e : ltb 0 mid ≡ true = ground (arith, p, h.1) in
    let back : mid - st.pages (mid - 1) ≡ base =
      omega (arith, ap (λ (i : ℕ). st.pages (i - 1)) (sym h.1) ∙ m.last_page, h.1) in
    elim (Bool-cases t.is_free) [
      | inl f ↦
          rw (e, back, m.on_list, f, m.first_page)
            (record {
              reach = omega (arith, h.1);
              count_eq = refl;
              tiles = refl;
              same_pages = refl;
              same_linked = refl;
              left_state = refl;
            })
      | inr f ↦
          rw (e, back, m.on_list)
            (simp f (record {
              reach = refl;
              count_eq =
                  ap (λ (p : List Tile × ℕ). p.1)
                    (sym (if_false t.is_free ([], n + t.size) (t ∷ [], n) f));
              tiles =
                  subst (λ (p : List Tile × ℕ). Tiled st base p.0 mid)
                    (sym (if_false t.is_free ([], n + t.size) (t ∷ [], n) f)) h;
              same_pages = refl;
              same_linked = refl;
              left_state = sym (if_false t.is_free (take_off base st) st f);
            }))
    ]
join_prev_lem st base (t ∷ u ∷ ts) mid n z h =
    let g = join_prev_lem st (base + t.size) (u ∷ ts) mid n (λ e. cc) h.1 in
    record {
      reach = g.reach;
      count_eq = g.count_eq;
      tiles = (h.0, g.tiles);
      same_pages = g.same_pages;
      same_linked = g.same_linked;
      left_state = g.left_state;
    }

pub record RightJoined (st : Kmap) (post : List Tile) (range n : ℕ) (g : Freed) : Type 0 where
  pub start : g.range ≡ range
  pub count_eq : g.count ≡ (join_right n post).0
  pub tiles : Tiled st (g.range + g.count) (join_right n post).1 kmap_pages
  pub same_pages : g.st.pages ≡ st.pages
  pub same_linked : g.st.linked ≡ st.linked
  pub right_state : g.st ≡ right_st st (range + n) post

pub join_next_lem :
    (st : Kmap) (post : List Tile) (range n : ℕ)
    → Tiled st (range + n) post kmap_pages
    → RightJoined st post range n (join_next (freed range n st))
unfolding join_next take_off
join_next_lem st [] range n h =
    let e : ltb (range + n) kmap_pages ≡ false = ge→ltb (range + n) kmap_pages (omega (arith, h)) in
    rw e (record {
      start = refl;
      count_eq = refl;
      tiles = h;
      same_pages = refl;
      same_linked = refl;
      right_state = refl;
    })
join_next_lem st (t ∷ ts) range n h =
    let m = h.0 in
    let e : ltb (range + n) kmap_pages ≡ true =
      lt→ltb (range + n) kmap_pages
        (omega (arith, m.some_pages, Tiled-le st (range + n + t.size) ts kmap_pages h.1)) in
    elim (Bool-cases t.is_free) [
      | inl f ↦
          rw (e, m.on_list, f, m.first_page)
            (record {
              start = refl;
              count_eq = refl;
              tiles =
                  subst (λ b. Tiled st b ts kmap_pages)
                    (let q : range + n + t.size ≡ range + (n + t.size) = omega arith in q) h.1;
              same_pages = refl;
              same_linked = refl;
              right_state = refl;
            })
      | inr f ↦
          rw (e, m.on_list)
            (simp f (record {
              start = refl;
              count_eq =
                  ap (λ (p : ℕ × List Tile). p.0)
                    (sym (if_false t.is_free (n + t.size, ts) (n, t ∷ ts) f));
              tiles =
                  subst (λ (p : ℕ × List Tile). Tiled st (range + n) p.1 kmap_pages)
                    (sym (if_false t.is_free (n + t.size, ts) (n, t ∷ ts) f)) h;
              same_pages = refl;
              same_linked = refl;
              right_state = sym (if_false t.is_free (take_off (range + n) st) st f);
            }))
    ]

-- What freeing `n` pages between two lists of tiles makes of them.
abbrev pub released : List Tile → ℕ → List Tile → List Tile
released pre n post =
    let left = join_left pre n in
    let right = join_right left.1 post in
    left.0 ++ record { size = right.0; is_free = true } ∷ right.1

put_free-Tiled :
    (st : Kmap) (g : Freed) (xs ys : List Tile)
    → 0 < g.count
    → g.st.pages ≡ st.pages
    → g.st.linked ≡ st.linked
    → Tiled st 0 xs g.range
    → Tiled st (g.range + g.count) ys kmap_pages
    → Tiled (put_free g) 0 (xs ++ record { size = g.count; is_free = true } ∷ ys) kmap_pages
unfolding put_free
put_free-Tiled st g xs ys some_pages p l h k =
    let below : SameMarks 0 g.range st (put_free g) = record {
      same_pages = λ i a b.
          rw (==_ne i (g.range + g.count - 1) (omega arith), ==_ne i g.range (omega arith))
            (ap (λ (f : ℕ → ℕ). f i) p);
      same_linked = λ i a b. rw (==_ne i g.range (omega arith)) (ap (λ (f : ℕ → Bool). f i) l);
    } in
    let above : SameMarks (g.range + g.count) kmap_pages st (put_free g) = record {
      same_pages = λ i a b.
          rw (==_ne i (g.range + g.count - 1) (omega arith), ==_ne i g.range (omega arith))
            (ap (λ (f : ℕ → ℕ). f i) p);
      same_linked = λ i a b. rw (==_ne i g.range (omega arith)) (ap (λ (f : ℕ → Bool). f i) l);
    } in
    Tiled-append (put_free g) 0 xs g.range _ kmap_pages
      (Tiled-SameMarks st (put_free g) 0 0 xs g.range g.range (omega arith) (omega arith) below h)
      (
        record {
          some_pages = some_pages;
          first_page = ground arith;
          last_page = rw (==_refl (g.range + g.count - 1)) refl;
          on_list = rw (==_refl g.range) refl;
        },
        Tiled-SameMarks st (put_free g) (g.range + g.count) (g.range + g.count) ys kmap_pages
            kmap_pages (omega arith) (omega arith) above k,
      )

count_pos : (n : ℕ) (pre : List Tile) → 0 < n → 0 < (join_left pre n).1
count_pos n [] h = h
count_pos n (t ∷ []) h = elim (Bool-cases t.is_free) [ inl f ↦ rw f (omega arith) | inr f ↦ rw f h ]
count_pos n (t ∷ u ∷ ts) h = count_pos n (u ∷ ts) h

count_pos_right : (n : ℕ) (post : List Tile) → 0 < n → 0 < (join_right n post).0
count_pos_right n [] h = h
count_pos_right n (t ∷ ts) h = elim (Bool-cases t.is_free) [
  | inl f ↦ rw f (omega arith)
  | inr f ↦ rw f h
]

-- If tiles fill the pages before and behind a range that is not empty, then freeing the range merges it with the free
-- tile on its left and the one on its right, if there are such, and tiles fill all pages again, with
-- the marks that belong to them.
pub kmap_free_range-Tiled :
    (st : Kmap) (pre post : List Tile) (range n : ℕ)
    → 0 < n
    → Tiled st 0 pre range
    → Tiled st (range + n) post kmap_pages
    → Tiled (kmap_free_range range n st) 0 (released pre n post) kmap_pages
unfolding kmap_free_range
kmap_free_range-Tiled st pre post range n some_pages h k =
    let g = join_prev (freed range n st) in
    let a = join_prev_lem st 0 pre range n (λ e. refl) h in
    let marks : SameMarks 0 kmap_pages st g.st = record {
      same_pages = λ i x y. ap (λ (f : ℕ → ℕ). f i) a.same_pages;
      same_linked = λ i x y. ap (λ (f : ℕ → Bool). f i) a.same_linked;
    } in
    let left = join_left pre n in
    let top = Tiled-le st (range + n) post kmap_pages k in
    let lower : Tiled g.st 0 left.0 g.range =
      Tiled-SameMarks st g.st 0 0 left.0 g.range kmap_pages (omega arith)
        (omega (arith, a.reach, top)) marks a.tiles in
    let upper : Tiled g.st (g.range + g.count) post kmap_pages =
      subst (λ b. Tiled g.st b post kmap_pages) (sym a.reach)
        (Tiled-SameMarks st g.st 0 (range + n) post kmap_pages kmap_pages (omega arith)
          (omega arith) marks k) in
    let r = join_next g in
    let b = join_next_lem g.st post g.range g.count upper in
    let pos : 0 < g.count = subst (λ c. 0 < c) (sym a.count_eq) (count_pos n pre some_pages) in
    let whole =
      put_free-Tiled g.st r left.0 (join_right g.count post).1
        (subst (λ c. 0 < c) (sym b.count_eq) (count_pos_right g.count post pos)) b.same_pages
        b.same_linked (subst (Tiled g.st 0 left.0) (sym b.start) lower) b.tiles in
    subst
      (λ c.
        Tiled (put_free r) 0
          (left.0
            ++ record { size = (join_right c post).0; is_free = true } ∷ (join_right c post).1)
          kmap_pages)
      a.count_eq
      (subst
        (λ c.
          Tiled (put_free r) 0
            (left.0 ++ record { size = c; is_free = true } ∷ (join_right g.count post).1)
            kmap_pages)
        b.count_eq whole)
