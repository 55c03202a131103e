-- ===== src/PageTables/Window.antt =====
-- The window of `kmap` of src/src/paging.c: its loop maps the pages one behind the other.
use spbau_os_hw.Prelude.{
  ℕ, zero, suc, ◌+◌, ◌-◌, ◌*◌, ◌/◌, ◌%◌, ◌^◌, ◌≤◌, ◌<◌, ◌≡◌, refl, ◌∙◌, ap, ◌⊎◌, inl, arith, List,
  [], ◌∷◌, length, get_or, some, All,
}
use native.Mathlib.Decide.{dec_lt}
use spbau_os_hw.Prelude.Run.{ok}
use spbau_os_hw.PageTables.{Tables, Paging, slot, set_pte, set_entry, leaf_entry, map_each, no_pool}
use spbau_os_hw.PageTables.Cells.{cell, IsLevel}
use spbau_os_hw.PageTables.Translation.{Labels, AreLabelled, translate}
use spbau_os_hw.PageTables.Ranges.{map_flags, map_flags_small, map_flags_present}
use spbau_os_hw.PageTables.Prepared.{
  IsPrepared, IsPrepared-IsWalked, slot-label, slot-Mapped, IsPrepared-set_entry,
}
use spbau_os_hw.PageTables.Page.{pt_map_pages-page}

-- Where the tables are there for as many pages from `a` on as there are in the list.
pub record IsWindow (label : Labels) (t : Tables) (pml4 a : ℕ) (ps : List ℕ) : Type 0 where
  pub labelled : AreLabelled label t
  pub place : label pml4 ≡ (4, cell 4 a / 512)
  pub pages : All (λ p. (p % 4096 ≡ 0) × (p < 2 ^ 52)) ps
  pub prepared : (i : ℕ) → i < length ps → IsPrepared t 4 pml4 (a + i * 4096)
  pub begin_page : a % 4096 ≡ 0
  pub top : a + length ps * 4096 < 2 ^ 64
  pub half : (a + length ps * 4096) / 2 ^ 48 ≡ a / 2 ^ 48

-- Behind the first page.
IsWindow-rest :
    (label : Labels) (t : Tables) (pml4 a p : ℕ) (ps : List ℕ)
    → IsWindow label t pml4 a (p ∷ ps)
    → let s = slot t 4 pml4 a in
      IsWindow label (set_entry s.0 s.1 (leaf_entry 1 p (map_flags 2)) t) pml4 (a + 4096) ps
IsWindow-rest label t pml4 a p ps w =
    let il : IsLevel 4 = (omega arith, omega arith) in
    let here : a + 0 * 4096 ≡ a = omega arith in
    let r : IsPrepared t 4 pml4 a = rw here at (w.prepared 0 (omega arith)) in
    let walked = IsPrepared-IsWalked t 4 pml4 a r in
    let m =
      slot-Mapped (map_flags 2) 4 pml4 a p label t il w.labelled w.place w.begin_page
        (omega (arith, w.top)) w.pages.0.0 w.pages.0.1 (map_flags_small 2 (omega arith)) walked in
    let same_half : (b : ℕ)
        → a ≤ b
        → b ≤ a + suc (length ps) * 4096
        → cell 4 a / 512 ≡ cell 4 b / 512 =
      λ b h k. omega (arith, w.half, h, k) in
    let (label_1, index) = slot-label 4 pml4 a label t il w.labelled w.place walked in
    record {
      labelled = m.sound.labelled;
      place = w.place ∙ ap (λ k. (4, k)) (same_half (a + 4096) (omega arith) (omega arith));
      pages = w.pages.1;
      prepared = λ i l.
          let next : a + suc i * 4096 ≡ a + 4096 + i * 4096 = omega arith in
          let b = a + suc i * 4096 in
          let prepared : IsPrepared
              (set_entry (slot t 4 pml4 a).0 (slot t 4 pml4 a).1 (leaf_entry 1 p (map_flags 2)) t) 4
              pml4 b =
            IsPrepared-set_entry 4 pml4 a b _ _ _ label t il w.labelled
              (w.place ∙ ap (λ k. (4, k)) (same_half b (omega arith) (omega (arith, l))))
              (w.prepared (suc i) (omega (arith, l))) label_1 index (λ e. omega (arith, e)) in
          rw next at prepared;
      begin_page = omega (arith, w.begin_page);
      top = omega (arith, w.top);
      half = omega (arith, w.half);
    }

-- The loop of `kmap` ends, without a pool. Each address of the window is translated to its place in
-- the page of the list that stands there, and every other address of the half as before.
pub map_each_lem {ℓ} :
    {S : Type ℓ} (label : Labels) (pml4 a : ℕ) (ps : List ℕ) (st : Paging S)
    → IsWindow label st.tables pml4 a ps
    → (s : Paging S) × (map_each ps pml4 a st ≡ ok s)
      × ((x : ℕ)
          → a ≤ x
          → x < a + length ps * 4096
          → translate s.tables 4 pml4 x ≡ some (get_or ps ((x - a) / 4096) 0 + (x - a) % 4096))
      × ((x : ℕ)
          → x / 2 ^ 48 ≡ a / 2 ^ 48
          → (x < a) ⊎ (a + length ps * 4096 ≤ x)
          → translate s.tables 4 pml4 x ≡ translate st.tables 4 pml4 x)
unfolding map_each
map_each_lem label pml4 a [] st w =
    (st, refl, (λ x h k. absurd (omega (arith, h, k))), (λ x h o. refl))
map_each_lem label pml4 a (p ∷ ps) st w =
    let il : IsLevel 4 = (omega arith, omega arith) in
    let here : a + 0 * 4096 ≡ a = omega arith in
    let r : IsPrepared st.tables 4 pml4 a = rw here at (w.prepared 0 (omega arith)) in
    let top : a + 4095 < 2 ^ 64 = omega (arith, w.top) in
    let place = slot st.tables 4 pml4 a in
    let st1 = set_pte place.0 place.1 (leaf_entry 1 p (map_flags 2)) st in
    let run1 = pt_map_pages-page no_pool 2 pml4 a p st r w.begin_page top w.pages.0.0 in
    let walked = IsPrepared-IsWalked st.tables 4 pml4 a r in
    let m =
      slot-Mapped (map_flags 2) 4 pml4 a p label st.tables il w.labelled w.place w.begin_page top
        w.pages.0.0 w.pages.0.1 (map_flags_small 2 (omega arith)) walked in
    let (s, run, mapped, others) =
      map_each_lem label pml4 (a + 4096) ps st1 (IsWindow-rest label st.tables pml4 a p ps w) in
    let next : (a + 4096) % 2 ^ 64 ≡ a + 4096 = omega (arith, w.top) in
    (
      s,
      rw (run1, next) run,
      (λ x h k. elim (dec_lt x (a + 4096)) [
        | yes l ↦
            let first : (x - a) / 4096 ≡ zero = omega (arith, h, l) in
            let rest : x - a ≡ (x - a) % 4096 = omega (arith, h, l) in
            others x (omega (arith, h, k, w.half)) (inl l)
            ∙ m.mapped x h (omega (arith, l))
            ∙ rw (map_flags_present 2, first) (ap (λ d. some (p + d)) rest)
        | no l ↦
            let more : (x - a) / 4096 ≡ suc ((x - (a + 4096)) / 4096) = omega (arith, h, l) in
            let same : (x - a) % 4096 ≡ (x - (a + 4096)) % 4096 = omega (arith, h, l) in
            mapped x (omega (arith, l)) (omega (arith, k)) ∙ rw (more, same) refl
      ]),
      (λ x h o.
          let key : cell 4 a / 512 ≡ cell 4 x / 512 = omega (arith, h) in
          others x (omega (arith, h, w.half)) (omega (arith, o))
          ∙ m.others x 4 pml4 (il, w.place ∙ ap (λ k. (4, k)) key) (omega (arith, o))),
    )
