-- ===== src/IntrusiveList/Ring.antt =====
-- What the pointers of list.c stand for: a ring through a head and distinct entries.
use spbau_os_hw.Prelude.{◌≡◌, ◌≢◌, List, [], ◌∷◌, ◌++◌, All, Avoids, Distinct, arith, sym, ◌∙◌}
use spbau_os_hw.IntrusiveList.{Addr, Links, list_init}

-- From `a` the `next` pointers lead through `xs` to `b`, and the `prev` pointers lead back.
abbrev pub Chain : Links → Addr → List Addr → Addr → Type 0
Chain m a [] b = (m.next a ≡ b) × (m.prev b ≡ a)
Chain m a (x ∷ xs) b = (m.next a ≡ x) × (m.prev x ≡ a) × Chain m x xs b

-- The list with head `h` holds the entries `xs`, in order.
pub record Ring (m : Links) (h : Addr) (xs : List Addr) : Type 0 where
  pub chain : Chain m h xs h
  pub apart : Avoids h xs
  pub distinct : Distinct xs

-- A chain rests on `next` at `a` and the entries, and on `prev` at the entries and `b`.
pub Chain-frame :
    (m n : Links) (a : Addr) (xs : List Addr) (b : Addr)
    → n.next a ≡ m.next a
    → All (λ x. n.next x ≡ m.next x) xs
    → All (λ x. n.prev x ≡ m.prev x) xs
    → n.prev b ≡ m.prev b
    → Chain m a xs b
    → Chain n a xs b
Chain-frame m n a [] b ha hn hp hb c = ground arith
Chain-frame m n a (x ∷ xs) b ha hn hp hb c =
    (ground arith, ground arith, Chain-frame m n x xs b hn.0 hn.1 hp.1 hb c.2)

-- The two halves of a chain through `x`.
pub Chain-append :
    (m : Links) (a : Addr) (xs : List Addr) (x : Addr) (ys : List Addr) (b : Addr)
    → Chain m a xs x
    → Chain m x ys b
    → Chain m a (xs ++ x ∷ ys) b
Chain-append m a [] x ys b p q = (p.0, p.1, q)
Chain-append m a (w ∷ xs) x ys b p q = (p.0, p.1, Chain-append m w xs x ys b p.2 q)

pub Chain-split :
    (m : Links) (a : Addr) (xs : List Addr) (x : Addr) (ys : List Addr) (b : Addr)
    → Chain m a (xs ++ x ∷ ys) b
    → Chain m a xs x × Chain m x ys b
Chain-split m a [] x ys b c = ((c.0, c.1), c.2)
Chain-split m a (w ∷ xs) x ys b c = let (p, q) = Chain-split m w xs x ys b c.2 in ((c.0, c.1, p), q)

-- The last of `a` and `xs`.
abbrev pub last_or : Addr → List Addr → Addr
last_or a [] = a
last_or a (x ∷ xs) = last_or x xs

pub Chain-last :
    (m : Links) (a : Addr) (xs : List Addr) (b : Addr) → Chain m a xs b → m.prev b ≡ last_or a xs
Chain-last m a [] b c = c.1
Chain-last m a (x ∷ xs) b c = Chain-last m x xs b c.2

pub Chain-first_ne :
    (m : Links) (a y : Addr) (xs : List Addr) (b : Addr)
    → y ≢ b
    → Avoids y xs
    → Chain m a xs b
    → m.next a ≢ y
Chain-first_ne m a y [] b h t c e = h (sym e ∙ c.0)
Chain-first_ne m a y (x ∷ xs) b h t c e = t.0 (sym e ∙ c.0)

pub Avoids-last : (y a : Addr) (xs : List Addr) → y ≢ a → Avoids y xs → y ≢ last_or a xs
Avoids-last y a [] h t = h
Avoids-last y a (x ∷ xs) h t = Avoids-last y x xs t.0 t.1

-- `list_init` makes an empty ring.
pub list_init-Ring : (h : Addr) (m : Links) → Ring (list_init h m) h []
unfolding list_init
list_init-Ring h m = record { chain = ground arith; apart = tt; distinct = tt }
