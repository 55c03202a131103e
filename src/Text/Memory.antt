-- ===== src/Text/Memory.antt =====
-- src/src/string.c on a memory of bytes, a function from addresses.
use spbau_os_hw.Prelude.{
  ℕ, zero, suc, ◌+◌, ◌%◌, ◌≤◌, ◌<◌, ◌≡◌, ◌≢◌, refl, ◌∙◌, arith, ◌⊎◌, inl, update, ◌==◌,
  if◌then◌else◌, List, [], ◌∷◌, Option, none, some, length, ltb, leb, ◌&&◌, ==_iff, ==_ne, ap,
}

abbrev pub Bytes : Type 0
Bytes = ℕ → ℕ

-- `memcpy`, which returns `to`; the memory is what it leaves.
unfoldable pub memcpy : (to from size : ℕ) → Bytes → Bytes
memcpy to from zero m = m
memcpy to from (suc n) m = memcpy (suc to) (suc from) n (update m to (m from))

unfoldable pub memset : (to fill size : ℕ) → Bytes → Bytes
memset to fill zero m = m
memset to fill (suc n) m = memset (suc to) fill n (update m to (fill % 256))

-- `strlen` with at most `f` rounds of the loop; `n` is how far `str` has moved.
unfoldable pub strlen_loop : (f str n : ℕ) → Bytes → Option ℕ
strlen_loop zero str n m = none
strlen_loop (suc f) str n m =
    let rest = strlen_loop f (suc str) (suc n) m in if m str == 0 then some n else rest

unfoldable pub strlen : (f str : ℕ) → Bytes → Option ℕ
strlen f str m = strlen_loop f str 0 m

-- The string with the characters `cs` and its NUL stands at `a`.
abbrev pub Stored : Bytes → ℕ → List ℕ → Type 0
Stored m a [] = m a ≡ 0
Stored m a (c ∷ cs) = (m a ≡ c) × (c ≢ 0) × Stored m (suc a) cs

strlen_text :
    (f a n : ℕ) (m : Bytes) (cs : List ℕ)
    → Stored m a cs
    → length cs < f
    → strlen_loop f a n m ≡ some (n + length cs)
unfolding strlen_loop
strlen_text zero a n m cs s l = absurd (omega arith)
strlen_text (suc f) a n m [] s l = rw s (ap some (omega arith))
strlen_text (suc f) a n m (c ∷ cs) (e, z, s) l =
    rw e (
      rw (==_ne c 0 z) (strlen_text f (suc a) (suc n) m cs s (omega arith) ∙ ap some (omega arith)))

-- With more rounds than characters, `strlen` of a string is the number of its characters.
pub strlen-Stored :
    (f a : ℕ) (m : Bytes) (cs : List ℕ)
    → Stored m a cs
    → length cs < f
    → strlen f a m ≡ some (length cs)
unfolding strlen
strlen-Stored f a m cs s l = strlen_text f a 0 m cs s l ∙ ap some (omega arith)

-- `memset` fills its area with the low byte of `fill`, and leaves every other address.
pub memset_lem :
    (to fill size : ℕ) (m : Bytes) (a : ℕ)
    → memset to fill size m a ≡ (if leb to a && ltb a (to + size) then fill % 256 else m a)
unfolding memset
memset_lem to fill zero m a = ground arith
memset_lem to fill (suc n) m a =
    memset_lem (suc to) fill n (update m to (fill % 256)) a ∙ ground arith

-- If the source does not begin before an area that it overlaps, `memcpy` puts the bytes that stood
-- at the source at the target, in their order, and leaves every other address.
pub memcpy_lem :
    (to from size : ℕ) (m : Bytes)
    → (to ≤ from) ⊎ (from + size ≤ to)
    → ((i : ℕ) → i < size → memcpy to from size m (to + i) ≡ m (from + i))
      × ((a : ℕ) → (a < to) ⊎ (to + size ≤ a) → memcpy to from size m a ≡ m a)
unfolding memcpy
memcpy_lem to from zero m d = ((λ i l. absurd (omega arith)), λ a o. refl)
memcpy_lem to from (suc n) m d =
    let w : Bytes = update m to (m from) in
    let (inside, outside) = memcpy_lem (suc to) (suc from) n w (shift d) in
    ((λ i l. copied i l inside outside), λ a o. outside a (beside a o) ∙ ground arith)
  where
    shift : (to ≤ from) ⊎ (from + suc n ≤ to) → (suc to ≤ suc from) ⊎ (suc from + n ≤ suc to)
    shift d = ground arith

    beside : (a : ℕ) → (a < to) ⊎ (to + suc n ≤ a) → (a < suc to) ⊎ (suc to + n ≤ a)
    beside a o = ground arith

    copied :
        (i : ℕ)
        → i < suc n
        → ((i : ℕ)
            → i < n
            → memcpy (suc to) (suc from) n (update m to (m from)) (suc to + i)
              ≡ update m to (m from) (suc from + i))
        → ((a : ℕ)
            → (a < suc to) ⊎ (suc to + n ≤ a)
            → memcpy (suc to) (suc from) n (update m to (m from)) a ≡ update m to (m from) a)
        → memcpy (suc to) (suc from) n (update m to (m from)) (to + i) ≡ m (from + i)
    copied zero l inside outside =
        outside (to + 0) (inl (omega arith))
        ∙ rw ((==_iff (to + 0) to).1 (omega arith)) (ap m (omega arith))
    copied (suc i) l inside outside =
        ap (memcpy (suc to) (suc from) n (update m to (m from))) (omega arith)
        ∙ inside i (omega arith)
        ∙ rw (==_ne (suc from + i) to (apart i l)) (ap m (omega arith))
      where
        apart : (i : ℕ) → suc i < suc n → suc from + i ≢ to
        apart i l = ground arith
