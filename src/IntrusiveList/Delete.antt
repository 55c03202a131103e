-- ===== src/IntrusiveList/Delete.antt =====
-- `list_del`: the entry is taken out of its ring, and its own pointers are cleared.
use spbau_os_hw.Prelude.{
  ◌≡◌, ◌≢◌, List, [], ◌∷◌, ◌++◌, Avoids, Distinct, All-zip, All-append, All-append_left,
  All-append_right, Distinct-append, append-Distinct, arith, All-map, sym, ◌∙◌, subst,
}
use spbau_os_hw.IntrusiveList.{Addr, Links, null, list_del}
use spbau_os_hw.IntrusiveList.Ring.{
  Chain, Ring, Chain-frame, Chain-split, last_or, Chain-last, Avoids-last, Chain-first_ne,
}

module _ (m : Links) (e : Addr) where
  del_next : (x : Addr) → e ≢ x → m.prev e ≢ x → (list_del e m).next x ≡ m.next x
  unfolding list_del
  del_next x a b = ground arith

  del_prev : (x : Addr) → e ≢ x → m.next e ≢ x → (list_del e m).prev x ≡ m.prev x
  unfolding list_del
  del_prev x a b = ground arith

  -- The two ends that are joined.
  del_join :
      e ≢ m.prev e
      → e ≢ m.next e
      → ((list_del e m).next (m.prev e) ≡ m.next e) × ((list_del e m).prev (m.next e) ≡ m.prev e)
  unfolding list_del
  del_join a b = ground arith

-- The chain from `a` past `e` to `b`, with the entries `ys` before `e` and `zs` after it.
delete_first :
    (m : Links) (e a : Addr) (zs : List Addr) (b : Addr)
    → e ≢ a
    → e ≢ b
    → Avoids e zs
    → Avoids a zs
    → Distinct zs
    → Avoids b zs
    → Chain m a [] e
    → Chain m e zs b
    → Chain (list_del e m) a zs b
delete_first m e a [] b ea eb ez az d bz p q =
    let j = del_join m e (λ t. ea (t ∙ p.1)) (λ t. eb (t ∙ q.0)) in
    (
      subst (λ x. (list_del e m).next x ≡ b) p.1 (j.0 ∙ q.0),
      subst (λ x. (list_del e m).prev x ≡ a) q.0 (j.1 ∙ p.1),
    )
delete_first m e a (z ∷ zs) b ea eb ez az d bz p q =
    let j = del_join m e (λ t. ea (t ∙ p.1)) (λ t. ez.0 (t ∙ q.0)) in
    (
      subst (λ x. (list_del e m).next x ≡ z) p.1 (j.0 ∙ q.0),
      subst (λ x. (list_del e m).prev x ≡ a) q.0 (j.1 ∙ p.1),
      Chain-frame m (list_del e m) z zs b (del_next m e z ez.0 (λ t. az.0 (sym p.1 ∙ t)))
          (All-zip (λ x s t. del_next m e x s (λ u. t (sym p.1 ∙ u))) zs ez.1 az.1)
          (All-zip (λ x s t. del_prev m e x s (λ u. t (sym q.0 ∙ u))) zs ez.1 d.0)
          (del_prev m e b eb (λ t. bz.0 (sym t ∙ q.0))) q.2,
    )

delete_path :
    (m : Links) (e a : Addr) (ys zs : List Addr) (b : Addr)
    → e ≢ a
    → e ≢ b
    → Avoids e ys
    → Avoids e zs
    → Avoids a (ys ++ zs)
    → Distinct (ys ++ zs)
    → Avoids b (ys ++ zs)
    → Chain m a ys e
    → Chain m e zs b
    → Chain (list_del e m) a (ys ++ zs) b
delete_path m e a [] zs b ea eb ey ez az d bz p q = delete_first m e a zs b ea eb ez az d bz p q
delete_path m e a (y ∷ ys) zs b ea eb ey ez az d bz p q =
    let before : m.prev e ≡ last_or y ys = Chain-last m y ys e p.2 in
    let far : a ≢ last_or y ys = Avoids-last a y ys az.0 (All-append_left _ ys zs az.1) in
    (
      (del_next m e a ea (λ t. far (sym t ∙ before))) ∙ p.0,
      del_prev m e y ey.0
            (Chain-first_ne m e y zs b (λ t. bz.0 (sym t)) (All-append_right _ ys zs d.0) q)
          ∙ p.1,
      delete_path m e y ys zs b ey.0 eb ey.1 ez d.0 d.1 bz.1 p.2 q,
    )

Distinct-drop :
    (ys : List Addr) (e : Addr) (zs : List Addr)
    → Distinct (ys ++ e ∷ zs)
    → Distinct (ys ++ zs) × Avoids e ys × Avoids e zs
Distinct-drop ys e zs d =
    let (p, q, r) = Distinct-append ys (e ∷ zs) d in
    (
      append-Distinct ys zs p q.1 (All-map (λ x t. t.1) ys r),
      All-map (λ x t u. t.0 (sym u)) ys r,
      q.0,
    )

-- If the ring of `h` holds `e` between `ys` and `zs`, then `list_del e` leaves the ring with `ys`
-- and `zs`, in order, and both pointers of `e` at NULL.
pub list_del-Ring :
    {m : Links} {h : Addr} (ys : List Addr) (e : Addr) (zs : List Addr)
    → Ring m h (ys ++ e ∷ zs)
    → Ring (list_del e m) h (ys ++ zs)
      × ((list_del e m).next e ≡ null)
      × ((list_del e m).prev e ≡ null)
unfolding list_del
list_del-Ring {m} {h} ys e zs r =
    let (p, q) = Chain-split m h ys e zs h r.chain in
    let (d, ey, ez) = Distinct-drop ys e zs r.distinct in
    let hy = All-append_left _ ys (e ∷ zs) r.apart in
    let hz = All-append_right _ ys (e ∷ zs) r.apart in
    let ap : Avoids h (ys ++ zs) = All-append _ ys zs hy hz.1 in
    let eh : e ≢ h = λ t. hz.0 (sym t) in
    (
      record {
        chain = delete_path m e h ys zs h eh eh ey ez ap d ap p q;
        apart = ap;
        distinct = d;
      },
      ground arith,
      ground arith,
    )
