-- ===== src/IntrusiveList/Walk.antt =====
-- `list_empty`, `list_first` and `list_size` read the ring.
use spbau_os_hw.Prelude.{
  ℕ, zero, suc, ◌+◌, ◌<◌, ◌≡◌, List, [], ◌∷◌, some, ap, length, is_nil, Avoids, arith, sym, ==_refl,
  ==_ne, ◌∙◌,
}
use spbau_os_hw.IntrusiveList.{Addr, Links, list_empty, list_first, size_loop, list_size}
use spbau_os_hw.IntrusiveList.Ring.{Chain, Ring}

empty_path :
    (m : Links) (h : Addr) (xs : List Addr)
    → Avoids h xs
    → Chain m h xs h
    → list_empty h m ≡ is_nil xs
unfolding list_empty
empty_path m h [] a c = rw c.0 (==_refl h)
empty_path m h (x ∷ xs) a c = rw c.0 (==_ne x h (λ e. a.0 (sym e)))

-- `list_empty` of the head of a ring tells whether the ring has no entry.
pub list_empty-Ring :
    {m : Links} {h : Addr} {xs : List Addr} → Ring m h xs → list_empty h m ≡ is_nil xs
list_empty-Ring {m} {h} {xs} r = empty_path m h xs r.apart r.chain

-- In a ring with an entry `list_first` is the first one.
pub list_first-Ring :
    {m : Links} {h x : Addr} {xs : List Addr} → Ring m h (x ∷ xs) → list_first h m ≡ x
unfolding list_first
list_first-Ring r = r.chain.0

size_path :
    (m : Links) (h a : Addr) (xs : List Addr) (f n : ℕ)
    → Avoids h xs
    → Chain m a xs h
    → length xs < f
    → size_loop f h (m.next a) n m ≡ some (n + length xs)
unfolding size_loop
size_path m h a [] zero n av c l = absurd (omega arith)
size_path m h a [] (suc f) n av c l = rw c.0 (ground arith)
size_path m h a (x ∷ xs) zero n av c l = absurd (omega arith)
size_path m h a (x ∷ xs) (suc f) n av c l = rw c.0 (
    rw (==_ne x h (λ e. av.0 (sym e)))
      (size_path m h x xs f (suc n) av.1 c.2 (omega arith) ∙ ap some (omega arith)))

-- With more rounds than the ring has entries, `list_size` of its head returns the number of entries.
pub list_size-Ring :
    {m : Links} {h : Addr} {xs : List Addr} (f : ℕ)
    → Ring m h xs
    → length xs < f
    → list_size f h m ≡ some (length xs)
unfolding list_size
list_size-Ring {m} {h} {xs} f r l = ground (arith, size_path m h h xs f 0 r.apart r.chain l)
