-- ===== src/SlabAlloc/Caches/Invariant.antt =====
-- The invariant of a cache, and that handing out an object of a pool keeps it.
use native.Mathlib.Decide.{ℕ_discrete}
use spbau_os_hw.Prelude.{
  refl, ◌⊎◌, inl, inr, ℕ, ◌+◌, ◌*◌, ◌≤◌, ◌<◌, ◌≡◌, ◌≢◌, sym, ap, ◌∙◌, subst, arith, Bool, true,
  false, ◌||◌, ◌==◌, ◌&&◌, Option, some, List, [], ◌∷◌, All, All-map, All-zip, Avoids, Distinct,
  update, is_nil, if◌then◌else◌, ==_refl, ==_ne, ==_iff,
}
use spbau_os_hw.Prelude.Without.{without_first, without_absent}
use spbau_os_hw.Prelude.Run.{ok}
use spbau_os_hw.SlabAlloc.{Layout, Pool}
use spbau_os_hw.SlabAlloc.Objects.{bit_at, Taken, IsPool, mem_pool_alloc-IsPool}
use spbau_os_hw.SlabAlloc.Caches.{
  Cache, alloc_in, unlist, alloc_partial, alloc_free, alloc_from, mem_cache_alloc,
}

abbrev pub IsFreePool : Layout → Pool → Type 0
IsFreePool l p = IsPool l p × (p.free ≡ l.obj_count)

abbrev pub IsPartialPool : Layout → Pool → Type 0
IsPartialPool l p = IsPool l p × (1 ≤ p.free) × (p.free < l.obj_count)

abbrev pub IsBusyPool : Layout → Pool → Type 0
IsBusyPool l p = IsPool l p × (p.free ≡ 0)

-- Each pool is on the list that its count of free objects asks for, and on no other; a pool has at
-- least two objects.
pub record IsCache (c : Cache) : Type 0 where
  pub objects : 2 ≤ c.layout.obj_count
  pub free_ok : All (λ a. IsFreePool c.layout (c.pools a)) c.free_pools
  pub partial_ok : All (λ a. IsPartialPool c.layout (c.pools a)) c.partial_pools
  pub busy_ok : All (λ a. IsBusyPool c.layout (c.pools a)) c.busy_pools
  pub free_once : Distinct c.free_pools
  pub partial_once : Distinct c.partial_pools
  pub busy_once : Distinct c.busy_pools
  pub free_apart : All (λ a. Avoids a c.partial_pools × Avoids a c.busy_pools) c.free_pools
  pub partial_apart : All (λ a. Avoids a c.busy_pools) c.partial_pools

-- A new value at one pool leaves what holds of the others.
others :
    (P : Pool → Type 0) (f : ℕ → Pool) (a : ℕ) (q : Pool) (xs : List ℕ)
    → Avoids a xs
    → All (λ x. P (f x)) xs
    → All (λ x. P (update f a q x)) xs
others P f a q xs n h =
    All-zip
      (λ x (m : a ≢ x) (p : P (f x)).
        subst (λ (b : Bool). P (if b then q else f x)) (sym (==_ne x a (λ e. m (sym e)))) p)
      xs n h

itself : (P : Pool → Type 0) (f : ℕ → Pool) (a : ℕ) (q : Pool) → P q → P (update f a q a)
itself P f a q h = subst (λ (b : Bool). P (if b then q else f a)) (sym (==_refl a)) h

flipped : (a : ℕ) (xs : List ℕ) → Avoids a xs → All (λ x. Avoids x (a ∷ [])) xs
flipped a xs n = All-map (λ x (m : a ≢ x). ((λ e. m (sym e)), tt)) xs n

-- Is the pool on one of the lists?
abbrev pub listed : ℕ → List ℕ → Bool
listed x [] = false
listed x (y ∷ ys) = x == y || listed x ys

abbrev pub in_cache : Cache → ℕ → Bool
in_cache c x = listed x c.free_pools || listed x c.partial_pools || listed x c.busy_pools

-- `p` is the address of an object that is not in use in `c`, in the first partial or the first free
-- pool, and in use in `c'`. Nothing else is different: the other objects of the pool are in use or not as
-- before, one less is free, the other pools are as before, and the same pools are listed.
pub record IsHanded (c c' : Cache) (p : ℕ) : Type 0 where
  pub pool : ℕ
  pub place : ℕ
  pub address : p ≡ (c.pools pool).base + place * c.layout.obj_size
  pub inside : place < c.layout.obj_count
  pub off : bit_at (c.pools pool).bitmask place ≡ false
  pub rest : List ℕ
  pub first : (c.partial_pools ≡ pool ∷ rest) ⊎ (c.free_pools ≡ pool ∷ rest)
  pub on : bit_at (c'.pools pool).bitmask place ≡ true
  pub same_objects :
      (j : ℕ) → j ≢ place → bit_at (c'.pools pool).bitmask j ≡ bit_at (c.pools pool).bitmask j
  pub less_free : (c'.pools pool).free + 1 ≡ (c.pools pool).free
  pub same_base : (c'.pools pool).base ≡ (c.pools pool).base
  pub same_pools : (x : ℕ) → x ≢ pool → c'.pools x ≡ c.pools x
  pub same_layout : c'.layout ≡ c.layout
  pub same_listed : (x : ℕ) → in_cache c' x ≡ in_cache c x

-- Handing out from the pool `a`, which becomes `q`.
handed :
    (c c' : Cache) (a i : ℕ) (q : Pool) (rest : List ℕ)
    → i < c.layout.obj_count
    → Taken (c.pools a).bitmask q.bitmask i
    → q.free + 1 ≡ (c.pools a).free
    → q.base ≡ (c.pools a).base
    → (c.partial_pools ≡ a ∷ rest) ⊎ (c.free_pools ≡ a ∷ rest)
    → c'.pools ≡ update c.pools a q
    → c'.layout ≡ c.layout
    → ((x : ℕ) → in_cache c' x ≡ in_cache c x)
    → IsHanded c c' ((c.pools a).base + i * c.layout.obj_size)
handed c c' a i q rest lt taken count base first pools layout lists =
    let new : c'.pools a ≡ q =
      ap (λ (f : ℕ → Pool). f a) pools
      ∙ ap (λ (b : Bool). if b then q else c.pools a) (==_refl a) in
    record {
      pool = a;
      place = i;
      address = refl;
      inside = lt;
      off = taken.off;
      rest = rest;
      first = first;
      on = ap (λ (p : Pool). bit_at p.bitmask i) new ∙ taken.on;
      same_objects = λ j n. ap (λ (p : Pool). bit_at p.bitmask j) new ∙ taken.same j n;
      less_free = ap (λ (p : Pool). p.free + 1) new ∙ count;
      same_base = ap (λ (p : Pool). p.base) new ∙ base;
      same_pools = λ x n.
          ap (λ (f : ℕ → Pool). f x) pools
          ∙ ap (λ (b : Bool). if b then q else c.pools x) (==_ne x a n);
      same_layout = layout;
      same_listed = lists;
    }

-- The cache with these lists and pools.
abbrev pub cache_of : Layout → (ℕ → Bool) → (fs ps bs : List ℕ) → (ℕ → Pool) → Cache
cache_of l o fs ps bs f = record {
  free_pools = fs;
  partial_pools = ps;
  busy_pools = bs;
  layout = l;
  pools = f;
  owned = o;
}

module _ (l : Layout) (o : ℕ → Bool) (f : ℕ → Pool) (a : ℕ) where
  -- A partial pool, the first, after one of its objects was handed out.
  from_partial :
      (fs ps bs : List ℕ)
      → IsCache (cache_of l o fs (a ∷ ps) bs f)
      → (p : ℕ) × (c' : Cache) × (alloc_partial a (cache_of l o fs (a ∷ ps) bs f) ≡ ok (some p, c'))
        × IsHanded (cache_of l o fs (a ∷ ps) bs f) c' p
        × IsCache c'
  unfolding alloc_partial alloc_in unlist
  from_partial fs ps bs h =
      let c : Cache = cache_of l o fs (a ∷ ps) bs f in
      let (ok_a, pos, less) = h.partial_ok.0 in
      let (i, q, e, lt, taken, count, pq, base) = mem_pool_alloc-IsPool l (f a) ok_a pos in
      let afs : Avoids a fs = All-map (λ x n. (λ e. n.0.0 (sym e))) fs h.free_apart in
      let free_ok = others (IsFreePool l) f a q fs afs h.free_ok in
      let partial_ok = others (IsPartialPool l) f a q ps h.partial_once.0 h.partial_ok.1 in
      let busy_ok = others (IsBusyPool l) f a q bs h.partial_apart.0 h.busy_ok in
      elim (ℕ_discrete q.free 0) [
        | yes z ↦ (
          (f a).base + i * l.obj_size,
          cache_of l o fs ps (a ∷ bs) (update f a q),
          rw e (
              rw (
                ==_refl a,
                (==_iff q.free 0).1 z,
                without_absent a fs afs,
                without_first a ps,
                without_absent a bs h.partial_apart.0,
              )),
          handed c (cache_of l o fs ps (a ∷ bs) (update f a q)) a i q ps lt taken count base
              (inl refl) refl refl (λ x. ground arith),
          record {
            objects = h.objects;
            free_ok = free_ok;
            partial_ok = partial_ok;
            busy_ok = (itself (IsBusyPool l) f a q (pq, z), busy_ok);
            free_once = h.free_once;
            partial_once = h.partial_once.1;
            busy_once = (h.partial_apart.0, h.busy_once);
            free_apart = All-map (λ x n. (n.0.1, (n.0.0, n.1))) fs h.free_apart;
            partial_apart =
                All-zip (λ x (m : a ≢ x) n. ((λ e. m (sym e)), n)) ps h.partial_once.0
                  h.partial_apart.1;
          },
        )
        | no n ↦ (
          (f a).base + i * l.obj_size,
          cache_of l o fs (a ∷ ps) bs (update f a q),
          rw e (rw (==_refl a, ==_ne q.free 0 n)),
          handed c (cache_of l o fs (a ∷ ps) bs (update f a q)) a i q ps lt taken count base
              (inl refl) refl refl (λ x. refl),
          record {
            objects = h.objects;
            free_ok = free_ok;
            partial_ok = (
              itself (IsPartialPool l) f a q (pq, omega arith, omega (arith, count)),
              partial_ok,
            );
            busy_ok = busy_ok;
            free_once = h.free_once;
            partial_once = h.partial_once;
            busy_once = h.busy_once;
            free_apart = h.free_apart;
            partial_apart = h.partial_apart;
          },
        )
      ]

  -- A free pool, the first, after one of its objects was handed out; there is no partial pool.
  from_free :
      (fs bs : List ℕ)
      → IsCache (cache_of l o (a ∷ fs) [] bs f)
      → (p : ℕ) × (c' : Cache) × (alloc_free a (cache_of l o (a ∷ fs) [] bs f) ≡ ok (some p, c'))
        × IsHanded (cache_of l o (a ∷ fs) [] bs f) c' p
        × IsCache c'
  unfolding alloc_free alloc_in unlist
  from_free fs bs h =
      let c : Cache = cache_of l o (a ∷ fs) [] bs f in
      let (ok_a, full) = h.free_ok.0 in
      let two : 2 ≤ l.obj_count = h.objects in
      let (i, q, e, lt, taken, count, pq, base) =
        mem_pool_alloc-IsPool l (f a) ok_a (omega (arith, full, two)) in
      let abs : Avoids a bs = h.free_apart.0.1 in
      (
        (f a).base + i * l.obj_size,
        cache_of l o fs (a ∷ []) bs (update f a q),
        rw e (
            rw (
              ==_refl a,
              ==_ne q.free l.obj_count (λ t. absurd (omega (arith, count, full, t))),
              without_first a fs,
              without_absent a [] tt,
              without_absent a bs abs,
            )),
        handed c (cache_of l o fs (a ∷ []) bs (update f a q)) a i q fs lt taken count base
            (inr refl) refl refl (λ x. ground arith),
        record {
          objects = h.objects;
          free_ok = others (IsFreePool l) f a q fs h.free_once.0 h.free_ok.1;
          partial_ok = (
            itself (IsPartialPool l) f a q
                (pq, omega (arith, count, full, two), omega (arith, count, full)),
            tt,
          );
          busy_ok = others (IsBusyPool l) f a q bs abs h.busy_ok;
          free_once = h.free_once.1;
          partial_once = (tt, tt);
          busy_once = h.busy_once;
          free_apart =
              All-zip (λ x (m : a ≢ x) n. (((λ e. m (sym e)), tt), n.1)) fs h.free_once.0
                h.free_apart.1;
          partial_apart = (abs, tt);
        },
      )

allocated :
    (l : Layout) (o : ℕ → Bool) (f : ℕ → Pool) (page : Option ℕ) (ps fs bs : List ℕ)
    → IsCache (cache_of l o fs ps bs f)
    → (is_nil ps && is_nil fs) ≡ false
    → (p : ℕ) × (c' : Cache) × (alloc_from ps fs page (cache_of l o fs ps bs f) ≡ ok (some p, c'))
      × IsHanded (cache_of l o fs ps bs f) c' p
      × IsCache c'
unfolding alloc_from
allocated l o f page (a ∷ ps) fs bs h n = from_partial l o f a fs ps bs h
allocated l o f page [] (a ∷ fs) bs h n = from_free l o f a fs bs h
allocated l o f page [] [] bs h n = absurd (cc)

-- If a cache has a partial or a free pool, `mem_cache_alloc` ends without a `BUG`, hands out an
-- object that was not in use, of the first partial or the first free pool, and marks it as in use,
-- and no other. One less object of that pool is free, the other pools are as before, and the pools on
-- the lists are the same; each is on the list that its count of free objects asks for, and on no other.
pub mem_cache_alloc-IsCache :
    (page : Option ℕ) (c : Cache)
    → IsCache c
    → (is_nil c.partial_pools && is_nil c.free_pools) ≡ false
    → (p : ℕ) × (c' : Cache) × (mem_cache_alloc page c ≡ ok (some p, c'))
      × IsHanded c c' p
      × IsCache c'
unfolding mem_cache_alloc
mem_cache_alloc-IsCache page c h n =
    allocated c.layout c.owned c.pools page c.partial_pools c.free_pools c.busy_pools h n
