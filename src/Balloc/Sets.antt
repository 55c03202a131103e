-- ===== src/Balloc/Sets.antt =====
-- The addresses that a set of ranges of src/src/balloc.c covers, and its order: each range is not
-- empty, and a gap lies between it and the next.
use spbau_os_hw.Prelude.{
  ℕ, suc, ◌+◌, ◌≤◌, ◌<◌, ◌≡◌, refl, sym, ap, ◌∙◌, Bool, true, false, ◌&&◌, ◌||◌, List, [], ◌∷◌,
  ◌++◌, ltb, leb, All, arith, length, if◌then◌else◌, gt→leb, leb→le, Bool-cases, inl, inr, All-map,
}
use spbau_os_hw.RbTree.Search.{from}
use spbau_os_hw.Balloc.{Range, Ranges}

abbrev pub inside : (begin end x : ℕ) → Bool
inside begin end x = leb begin x && ltb x end

-- Does a range of the list cover the address?
abbrev pub has : List Range → ℕ → Bool
has [] x = false
has (r ∷ rs) x = inside r.begin r.end x || has rs x

-- The ranges lie from `b` on, in order, with gaps between them.
abbrev pub Above : ℕ → List Range → Type 0
Above b [] = Unit
Above b (r ∷ rs) = (b ≤ r.begin) × (r.begin < r.end) × Above (suc r.end) rs

abbrev pub IsSeparated : List Range → Type 0
IsSeparated rs = Above 0 rs

pub below-Above : (a b : ℕ) (rs : List Range) → a ≤ b → Above b rs → Above a rs
below-Above a b [] h s = tt
below-Above a b (r ∷ rs) h s = (omega arith, s.1, s.2)

pub Above-All :
    (b : ℕ) (rs : List Range) → Above b rs → All (λ r. (b ≤ r.begin) × (r.begin < r.end)) rs
Above-All b [] s = tt
Above-All b (r ∷ rs) s =
    ((s.0, s.1), Above-All b rs (below-Above b (suc r.end) rs (omega arith) s.2))

pub has-below : (b : ℕ) (rs : List Range) (x : ℕ) → Above b rs → x < b → has rs x ≡ false
has-below b [] x s h = refl
has-below b (r ∷ rs) x s h =
    rw (has-below (suc r.end) rs x s.2 (omega arith), gt→leb r.begin x (omega arith)) refl

pub or_assoc : (a b c : Bool) → ((a || b) || c) ≡ (a || (b || c))
or_assoc a b c = ground arith

pub or_comm : (a b : Bool) → (a || b) ≡ (b || a)
or_comm a b = ground arith

pub or_swap : (a b c : Bool) → (a || (b || c)) ≡ (b || (a || c))
or_swap a b c = ground arith

pub or_gain :
    (a b c d : Bool) → (a || b) ≡ true → (b ≡ true → (c || d) ≡ true) → (c || (a || d)) ≡ true
or_gain true b c d e f = ground arith
or_gain false b c d e f = f e

-- Two parts of a range that touch or overlap cover it.
pub inside_join :
    (a e c d x : ℕ) (h : Bool)
    → a ≤ c
    → c ≤ e
    → e ≤ d
    → (inside a d x || h) ≡ (inside a e x || (inside c d x || h))
inside_join a e c d x h p q r = ground arith

pub inside_sub :
    (a d e c x : ℕ) (h : Bool)
    → a ≤ c
    → c ≤ e
    → (inside a d x || h) ≡ true
    → (inside a e x || (inside c d x || h)) ≡ true
inside_sub a d e c x h p q t = ground arith

-- A range taken into one that begins before it.
pub inside_absorb :
    (a e c d x : ℕ) (h : Bool)
    → c ≤ a
    → a ≤ d
    → (inside c (if ltb e d then d else e) x || h) ≡ (inside a e x || (inside c d x || h))
inside_absorb a e c d x h p q = ground arith

pub has-append : (xs ys : List Range) (x : ℕ) → has (xs ++ ys) x ≡ (has xs x || has ys x)
has-append [] ys x = refl
has-append (r ∷ xs) ys x =
    ap (inside r.begin r.end x ||◌) (has-append xs ys x)
    ∙ sym (or_assoc (inside r.begin r.end x) _ _)

-- The nodes of a set that are in use, and those left.
abbrev pub all_nodes : Ranges → ℕ
all_nodes s = s.nodes + length s.set

-- All ranges of the list lie before an address, with a gap.
abbrev pub Below : ℕ → List Range → Type 0
Below b rs = All (λ r. (r.begin < r.end) × (r.end < b)) rs

-- A set where a search for the first range that ends behind an address `low` divides it.
pub record Divided (low : ℕ) (b : ℕ) (rs : List Range) : Type 0 where
  pub first : List Range
  pub others : List Range
  pub at : ℕ
  pub all_rs : rs ≡ first ++ others
  pub found : from (λ r. leb r.end low) rs ≡ others
  pub before_low : All (λ r. r.end ≤ low) first
  pub behind_low : All (λ r. low < r.end) others
  pub below : Below at first
  pub above : Above at others
  pub later : b ≤ at

pub divide : (low b : ℕ) (rs : List Range) → Above b rs → Divided low b rs
divide low b [] s = record {
  first = [];
  others = [];
  at = b;
  all_rs = refl;
  found = refl;
  before_low = tt;
  behind_low = tt;
  below = tt;
  above = tt;
  later = omega arith;
}
divide low b (r ∷ rs) s = elim (Bool-cases (leb r.end low)) [
  | inl t ↦
      let d = divide low (suc r.end) rs s.2 in
      record {
        first = r ∷ d.first;
        others = d.others;
        at = d.at;
        all_rs = ap (r ∷◌) d.all_rs;
        found = rw t d.found;
        before_low = (leb→le r.end low t, d.before_low);
        behind_low = d.behind_low;
        below = ((s.1, d.later), d.below);
        above = d.above;
        later = omega (arith, d.later);
      }
  | inr f ↦ record {
    first = [];
    others = r ∷ rs;
    at = b;
    all_rs = refl;
    found = rw f refl;
    before_low = tt;
    behind_low =
        let far : low < r.end = ground arith in
        (far, All-map (λ q u. omega (arith, u.0, u.1)) rs (Above-All (suc r.end) rs s.2));
    below = tt;
    above = s;
    later = omega arith;
  }
]
