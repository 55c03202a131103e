-- ===== src/PageTables/Clear.antt =====
-- The last loop of `kunmap` of src/src/paging.c: the pages of a range are cleared one behind the other.
use spbau_os_hw.Prelude.{
  ℕ, zero, suc, ◌+◌, ◌*◌, ◌/◌, ◌%◌, ◌^◌, ◌≤◌, ◌<◌, ◌≡◌, refl, ◌∙◌, ap, ◌⊎◌, inl, arith, none,
}
use native.Mathlib.Decide.{dec_lt}
use spbau_os_hw.Prelude.Words.{word_or}
use spbau_os_hw.PageTables.{Tables, phys_of, slot, set_entry, unmap_page, unmap_pages}
use spbau_os_hw.PageTables.Cells.{cell, IsLevel}
use spbau_os_hw.PageTables.Translation.{Labels, AreLabelled, translate}
use spbau_os_hw.PageTables.Prepared.{IsWalked, IsWalked-set_entry, slot-label, slot-Mapped}

-- Where the tables are there for `n` pages from `a` on.
pub record IsCovered (label : Labels) (t : Tables) (pml4 a n : ℕ) : Type 0 where
  pub labelled : AreLabelled label t
  pub place : label pml4 ≡ (4, cell 4 a / 512)
  pub root : phys_of pml4 ≡ pml4
  pub walked : (i : ℕ) → i < n → IsWalked t 4 pml4 (a + i * 4096)
  pub begin_page : a % 4096 ≡ 0
  pub top : a + n * 4096 < 2 ^ 64
  pub half : (a + n * 4096) / 2 ^ 48 ≡ a / 2 ^ 48

-- `kunmap` of some pages whose tables are there: no address of the pages is translated then, and every
-- other address of the half as before.
pub unmap_pages_lem :
    (label : Labels) (pml4 a n : ℕ) (t : Tables)
    → IsCovered label t pml4 a n
    → ((x : ℕ) → a ≤ x → x < a + n * 4096 → translate (unmap_pages n pml4 a t) 4 pml4 x ≡ none)
      × ((x : ℕ)
          → x / 2 ^ 48 ≡ a / 2 ^ 48
          → (x < a) ⊎ (a + n * 4096 ≤ x)
          → translate (unmap_pages n pml4 a t) 4 pml4 x ≡ translate t 4 pml4 x)
unfolding unmap_pages unmap_page word_or
unmap_pages_lem label pml4 a zero t w = ((λ x h k. absurd (omega (arith, h, k))), (λ x h o. refl))
unmap_pages_lem label pml4 a (suc n) t w =
    let il : IsLevel 4 = (omega arith, omega arith) in
    let here : a + 0 * 4096 ≡ a = omega arith in
    let r : IsWalked t 4 pml4 a = rw here at (w.walked 0 (omega arith)) in
    let s = slot t 4 pml4 a in
    let u : Tables = set_entry s.0 s.1 0 t in
    let m =
      slot-Mapped 0 4 pml4 a 0 label t il w.labelled w.place w.begin_page (omega (arith, w.top))
        (omega arith) (omega arith) (omega arith) r in
    let label_1 = ap (λ (p : ℕ × ℕ). p.0) (slot-label 4 pml4 a label t il w.labelled w.place r).0 in
    let next : (a + 4096) % 2 ^ 64 ≡ a + 4096 = omega (arith, w.top) in
    let rest : IsCovered label u pml4 (a + 4096) n = record {
      labelled = m.sound.labelled;
      place =
          w.place
          ∙ ap (λ k. (4, k))
              (let c : cell 4 a / 512 ≡ cell 4 (a + 4096) / 512 = omega (arith, w.half) in c);
      root = w.root;
      walked = λ i l.
          let later : a + suc i * 4096 ≡ a + 4096 + i * 4096 = omega arith in
          let b = a + suc i * 4096 in
          let c : cell 4 a / 512 ≡ cell 4 b / 512 = omega (arith, w.half, l) in
          let walked : IsWalked u 4 pml4 b =
            IsWalked-set_entry 4 pml4 b s.0 s.1 0 label t il w.labelled
              (w.place ∙ ap (λ k. (4, k)) c) (w.walked (suc i) (omega (arith, l))) label_1 in
          rw later at walked;
      begin_page = omega (arith, w.begin_page);
      top = omega (arith, w.top);
      half = omega (arith, w.half);
    } in
    let (cleared, others) = unmap_pages_lem label pml4 (a + 4096) n u rest in
    rw (w.root, next)
      (
        (λ x h k. elim (dec_lt x (a + 4096)) [
          | yes l ↦ others x (omega (arith, h, k, w.half)) (inl l) ∙ m.mapped x h (omega (arith, l))
          | no l ↦ cleared x (omega (arith, l)) (omega (arith, k))
        ]),
        (λ x h o.
            let key : cell 4 a / 512 ≡ cell 4 x / 512 = omega (arith, h) in
            others x (omega (arith, h, w.half)) (omega (arith, o))
            ∙ m.others x 4 pml4 (il, w.place ∙ ap (λ k. (4, k)) key) (omega (arith, o))),
      )
