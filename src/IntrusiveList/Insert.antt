-- ===== src/IntrusiveList/Insert.antt =====
-- `list_add` and `list_add_tail`: the new entry stands first, or last.
use spbau_os_hw.Prelude.{
  ◌≡◌, ◌≢◌, List, [], ◌∷◌, ◌++◌, Avoids, Distinct, All-zip, All-append, append-Distinct, arith,
  All-map, sym, subst,
}
use spbau_os_hw.IntrusiveList.{Addr, Links, list_insert, list_add, list_add_tail}
use spbau_os_hw.IntrusiveList.Ring.{
  Chain, Ring, Chain-frame, Chain-append, last_or, Chain-last, Avoids-last,
}

module _ (m : Links) (new p q : Addr) where
  insert_next : (x : Addr) → new ≢ x → p ≢ x → (list_insert new p q m).next x ≡ m.next x
  unfolding list_insert
  insert_next x a b = ground arith

  insert_prev : (x : Addr) → new ≢ x → q ≢ x → (list_insert new p q m).prev x ≡ m.prev x
  unfolding list_insert
  insert_prev x a b = ground arith

  -- A chain that holds neither `new` nor `q`, and `p` only as the last, is not touched.
  insert_before :
      (a : Addr) (xs : List Addr)
      → new ≢ a
      → p ≢ a
      → Avoids new xs
      → Avoids p xs
      → Avoids q xs
      → (b : Addr) → new ≢ b
      → q ≢ b
      → Chain m a xs b
      → Chain (list_insert new p q m) a xs b
  insert_before a xs na pa nx px qx b nb qb =
      Chain-frame m _ a xs b (insert_next a na pa) (All-zip insert_next xs nx px)
        (All-zip insert_prev xs nx qx) (insert_prev b nb qb)

-- An entry that is put behind the last of `xs`.
insert_last :
    (m : Links) (new a : Addr) (xs : List Addr) (b : Addr)
    → new ≢ a
    → new ≢ b
    → Avoids new xs
    → Avoids a xs
    → Distinct xs
    → Avoids b xs
    → Chain m a xs b
    → Chain (list_insert new (last_or a xs) b m) a (xs ++ new ∷ []) b
unfolding list_insert
insert_last m new a [] b na nb nx ax d bx c = ground arith
insert_last m new a (x ∷ xs) b na nb nx ax d bx c =
    let far : a ≢ last_or x xs = Avoids-last a x xs ax.0 ax.1 in
    (
      ground (arith, far),
      ground arith,
      insert_last m new x xs b (λ e. nx.0 e) nb nx.1 d.0 d.1 bx.1 c.2,
    )

add_path :
    (m : Links) (new h : Addr) (xs : List Addr)
    → new ≢ h
    → Avoids new xs
    → Avoids h xs
    → Distinct xs
    → Chain m h xs h
    → Chain (list_add new h m) h (new ∷ xs) h
unfolding list_add
add_path m new h [] nh nx ax d c =
    subst (λ q. Chain (list_insert new h q m) h (new ∷ []) h) (sym c.0)
      (insert_last m new h [] h nh nh tt tt tt tt c)
add_path m new h (x ∷ xs) nh nx ax d c =
    subst (λ q. Chain (list_insert new h q m) h (new ∷ x ∷ xs) h) (sym c.0)
      (Chain-append (list_insert new h x m) h (new ∷ []) x xs h
        (insert_last m new h [] x nh nx.0 tt tt tt tt (c.0, c.1))
        (insert_before m new h x x xs nx.0 ax.0 nx.1 ax.1 d.0 h nh (λ e. ax.0 (sym e)) c.2))

module _ {m : Links} {h : Addr} {xs : List Addr} (new : Addr) (r : Ring m h xs) (nh : new ≢ h)
    (nx : Avoids new xs) where
  -- In a ring with head `h`, `list_add` puts an entry that is neither `h` nor in the ring in front
  -- of the others.
  pub list_add-Ring : Ring (list_add new h m) h (new ∷ xs)
  list_add-Ring = record {
    chain = add_path m new h xs nh nx r.apart r.distinct r.chain;
    apart = (λ e. nh (sym e), r.apart);
    distinct = (nx, r.distinct);
  }

  -- In a ring with head `h`, `list_add_tail` puts an entry that is neither `h` nor in the ring
  -- behind the others.
  pub list_add_tail-Ring : Ring (list_add_tail new h m) h (xs ++ new ∷ [])
  unfolding list_add_tail
  list_add_tail-Ring = record {
    chain =
        let e : m.prev h ≡ last_or h xs = Chain-last m h xs h r.chain in
        rw e (insert_last m new h xs h nh nh nx r.apart r.distinct r.apart r.chain);
    apart = All-append _ xs (new ∷ []) r.apart (λ e. nh (sym e), tt);
    distinct =
        append-Distinct xs (new ∷ []) r.distinct (tt, tt)
          (All-map (λ x n. (λ e. n (sym e), tt)) xs nx);
  }
