-- ===== src/IntrusiveList/Splice.antt =====
-- `list_splice`: the entries of one ring move to the front of another.
use mathlib.Core.List.{append-nil}
use spbau_os_hw.Prelude.{
  ◌≡◌, ◌≢◌, List, [], ◌∷◌, ◌++◌, All, Avoids, Distinct, All-zip, All-append, arith, All-map,
  append-Distinct, sym, ◌∙◌, subst, ==_ne,
}
use spbau_os_hw.IntrusiveList.{Addr, Links, set_next, set_prev, list_init, list_splice}
use spbau_os_hw.IntrusiveList.Ring.{
  Chain, Ring, Chain-frame, Chain-append, last_or, Chain-last, Avoids-last, list_init-Ring,
}
use spbau_os_hw.IntrusiveList.Walk.{list_empty-Ring}

-- The memory after the writes of `list_splice`, with the pointers that it has read.
module _ (m : Links) (l h x w q : Addr) where
  spliced : Links
  unfolding set_next set_prev list_init
  spliced = list_init l (set_prev q w (set_next w q (set_next h x (set_prev x h m))))

  next_other : (z : Addr) → l ≢ z → w ≢ z → h ≢ z → spliced.next z ≡ m.next z
  unfolding spliced
  next_other z a b c = ground arith

  prev_other : (z : Addr) → l ≢ z → q ≢ z → x ≢ z → spliced.prev z ≡ m.prev z
  unfolding spliced
  prev_other z a b c = ground arith

  next_last : l ≢ w → spliced.next w ≡ q
  unfolding spliced
  next_last a = ground arith

  next_head : l ≢ h → w ≢ h → spliced.next h ≡ x
  unfolding spliced
  next_head a b = ground arith

  prev_behind : l ≢ q → spliced.prev q ≡ w
  unfolding spliced
  prev_behind a = ground arith

  prev_first : l ≢ x → q ≢ x → spliced.prev x ≡ h
  unfolding spliced
  prev_first a b = ground arith

-- The moved entries from `a` on, now with `q` behind the last.
moved :
    (m : Links) (l h x q a : Addr) (xs : List Addr)
    → l ≢ a
    → h ≢ a
    → Avoids l xs
    → Avoids h xs
    → Avoids x xs
    → Avoids q xs
    → Avoids a xs
    → Distinct xs
    → l ≢ q
    → Chain m a xs l
    → Chain (spliced m l h x (last_or a xs) q) a xs q
moved m l h x q a [] la ha lx hx xx qx ax d lq c =
    (next_last m l h x a q la, prev_behind m l h x a q lq)
moved m l h x q a (y ∷ xs) la ha lx hx xx qx ax d lq c = (
  next_other m l h x (last_or y xs) q a la (λ e. Avoids-last a y xs ax.0 ax.1 (sym e)) ha ∙ c.0,
  prev_other m l h x (last_or y xs) q y lx.0 qx.0 xx.0 ∙ c.1,
  moved m l h x q y xs lx.0 hx.0 lx.1 hx.1 xx.1 qx.1 d.0 d.1 lq c.2,
)

-- The entries that `h` had before, behind their first, `q`.
kept :
    (m : Links) (l h x w q : Addr) (ys : List Addr)
    → l ≢ h
    → q ≢ h
    → x ≢ h
    → l ≢ q
    → w ≢ q
    → h ≢ q
    → Avoids l ys
    → Avoids w ys
    → Avoids h ys
    → Avoids q ys
    → Avoids x ys
    → Chain m q ys h
    → Chain (spliced m l h x w q) q ys h
kept m l h x w q ys lh qh xh lq wq hq ly wy hy qy xy c =
    Chain-frame m (spliced m l h x w q) q ys h (next_other m l h x w q q lq wq hq)
      (All-zip (λ z a. λ (b : (w ≢ z) × (h ≢ z)). next_other m l h x w q z a b.0 b.1) ys ly
        (All-zip (λ z a b. (a, b)) ys wy hy))
      (All-zip (λ z a. λ (b : (q ≢ z) × (x ≢ z)). prev_other m l h x w q z a b.0 b.1) ys ly
        (All-zip (λ z a b. (a, b)) ys qy xy))
      (prev_other m l h x w q h lh qh xh) c

-- Where the first ring has an entry, `list_splice` makes these writes.
splice_writes :
    (m : Links) (l h x q : Addr) (xs : List Addr)
    → l ≢ x
    → Chain m l (x ∷ xs) l
    → m.next h ≡ q
    → list_splice l h m ≡ spliced m l h x (last_or x xs) q
unfolding list_splice spliced
splice_writes m l h x q xs lx c hq = rw (==_ne (m.next l) l (λ t. lx (sym t ∙ c.0))) (
    let first : m.next l ≡ x = c.0 in
    let last : m.prev l ≡ last_or x xs = Chain-last m x xs l c.2 in
    λ i. list_init l (
      set_prev (hq i) (last i)
        (set_next (last i) (hq i) (set_next h (first i) (set_prev (first i) h m)))))

All-last : (P : Addr → Type 0) (a : Addr) (xs : List Addr) → P a → All P xs → P (last_or a xs)
All-last P a [] p t = p
All-last P a (x ∷ xs) p t = All-last P x xs t.0 t.1

spliced_path :
    (m : Links) (l h x : Addr) (xs ys : List Addr)
    → l ≢ h
    → Ring m l (x ∷ xs)
    → Ring m h ys
    → Avoids h (x ∷ xs)
    → Avoids l ys
    → All (λ z. Avoids z ys) (x ∷ xs)
    → Chain (list_splice l h m) h (x ∷ xs ++ ys) h
spliced_path m l h x xs [] lh r s hx ly cross =
    let e = splice_writes m l h x h xs r.apart.0 r.chain s.chain.0 in
    let n = spliced m l h x (last_or x xs) h in
    let far : last_or x xs ≢ h = λ t. Avoids-last h x xs hx.0 hx.1 (sym t) in
    subst (λ k. Chain k h (x ∷ xs ++ []) h) (sym e)
      (subst (λ zs. Chain n h zs h) (sym (append-nil (x ∷ xs)))
        (
          next_head m l h x (last_or x xs) h lh far,
          prev_first m l h x (last_or x xs) h r.apart.0 hx.0,
          moved m l h x h x xs r.apart.0 hx.0 r.apart.1 hx.1 r.distinct.0 hx.1 r.distinct.0
              r.distinct.1 lh r.chain.2,
        ))
spliced_path m l h x xs (y ∷ ys) lh r s hx ly cross =
    let e = splice_writes m l h x y xs r.apart.0 r.chain s.chain.0 in
    let w : Addr = last_or x xs in
    let far : w ≢ h = λ t. Avoids-last h x xs hx.0 hx.1 (sym t) in
    let qx : Avoids y xs = All-map (λ z a t. a.0 (sym t)) xs cross.1 in
    let wy : Avoids w (y ∷ ys) = All-last (λ z. Avoids z (y ∷ ys)) x xs cross.0 cross.1 in
    subst (λ k. Chain k h (x ∷ xs ++ y ∷ ys) h) (sym e)
      (Chain-append (spliced m l h x w y) h (x ∷ xs) y ys h
        (
          next_head m l h x w y lh far,
          prev_first m l h x w y r.apart.0 (λ t. cross.0.0 (sym t)),
          moved m l h x y x xs r.apart.0 hx.0 r.apart.1 hx.1 r.distinct.0 qx r.distinct.0
              r.distinct.1 ly.0 r.chain.2,
        )
        (kept m l h x w y ys lh (λ t. s.apart.0 (sym t)) (λ t. hx.0 (sym t)) ly.0 wy.0 s.apart.0
          ly.1 wy.1 s.apart.1 s.distinct.0 cross.0.1 s.chain.2))

-- After `list_splice list head` the ring of `head` holds the entries of `list`, then its own, and
-- the ring of `list` is empty, if the two rings share no address.
pub list_splice-Ring :
    {m : Links} (l h : Addr) (xs ys : List Addr)
    → l ≢ h
    → Ring m l xs
    → Ring m h ys
    → Avoids h xs
    → Avoids l ys
    → All (λ z. Avoids z ys) xs
    → Ring (list_splice l h m) h (xs ++ ys) × Ring (list_splice l h m) l []
unfolding list_splice
list_splice-Ring {m} l h [] ys lh r s hx ly cross = rw (list_empty-Ring r) (s, r)
list_splice-Ring {m} l h (x ∷ xs) ys lh r s hx ly cross = (
  record {
    chain = spliced_path m l h x xs ys lh r s hx ly cross;
    apart = All-append _ (x ∷ xs) ys hx s.apart;
    distinct = append-Distinct (x ∷ xs) ys r.distinct s.distinct cross;
  },
  rw (list_empty-Ring r) (list_init-Ring l _),
)
