-- ===== src/Text/Ctype.antt =====
-- The character classes of src/src/ctype.c: a table of 256 bytes, a bit for each class.
use spbau_os_hw.Prelude.{
  ℕ, zero, suc, ◌+◌, ◌-◌, ◌%◌, ◌<◌, ◌≡◌, refl, Bool, true, false, not, ◌&&◌, ◌||◌, List, ◌∷◌, arith,
  get_or, replicate, leb, ◌==◌, if◌then◌else◌,
}
use spbau_os_hw.Prelude.Bits.{test_bit}

-- Entries are sums of 1 (space), 2 (digit), 4 (lower case), 8 (upper case), 16 (hexadecimal digit),
-- 32 (punctuation) and 64 (the printable space).
abbrev pub ctype : List ℕ
ctype =
    0
    ∷ 0
    ∷ 0
    ∷ 0
    ∷ 0
    ∷ 0
    ∷ 0
    ∷ 0
    ∷ 0
    ∷ 1
    ∷ 1
    ∷ 1
    ∷ 1
    ∷ 1
    ∷ 0
    ∷ 0
    ∷ 0
    ∷ 0
    ∷ 0
    ∷ 0
    ∷ 0
    ∷ 0
    ∷ 0
    ∷ 0
    ∷ 0
    ∷ 0
    ∷ 0
    ∷ 0
    ∷ 0
    ∷ 0
    ∷ 0
    ∷ 0
    ∷ 65
    ∷ 32
    ∷ 32
    ∷ 32
    ∷ 32
    ∷ 32
    ∷ 32
    ∷ 32
    ∷ 32
    ∷ 32
    ∷ 32
    ∷ 32
    ∷ 32
    ∷ 32
    ∷ 32
    ∷ 32
    ∷ 18
    ∷ 18
    ∷ 18
    ∷ 18
    ∷ 18
    ∷ 18
    ∷ 18
    ∷ 18
    ∷ 18
    ∷ 18
    ∷ 32
    ∷ 32
    ∷ 32
    ∷ 32
    ∷ 32
    ∷ 32
    ∷ 32
    ∷ 24
    ∷ 24
    ∷ 24
    ∷ 24
    ∷ 24
    ∷ 24
    ∷ 8
    ∷ 8
    ∷ 8
    ∷ 8
    ∷ 8
    ∷ 8
    ∷ 8
    ∷ 8
    ∷ 8
    ∷ 8
    ∷ 8
    ∷ 8
    ∷ 8
    ∷ 8
    ∷ 8
    ∷ 8
    ∷ 8
    ∷ 8
    ∷ 8
    ∷ 8
    ∷ 32
    ∷ 32
    ∷ 32
    ∷ 32
    ∷ 32
    ∷ 32
    ∷ 20
    ∷ 20
    ∷ 20
    ∷ 20
    ∷ 20
    ∷ 20
    ∷ 4
    ∷ 4
    ∷ 4
    ∷ 4
    ∷ 4
    ∷ 4
    ∷ 4
    ∷ 4
    ∷ 4
    ∷ 4
    ∷ 4
    ∷ 4
    ∷ 4
    ∷ 4
    ∷ 4
    ∷ 4
    ∷ 4
    ∷ 4
    ∷ 4
    ∷ 4
    ∷ 32
    ∷ 32
    ∷ 32
    ∷ 32
    ∷ 0
    ∷ replicate 128 0

-- The entry for the byte that `(unsigned char)c` is, with bit `k` tested.
unfoldable pub class_bit : ℕ → ℕ → Bool
class_bit k c = test_bit (get_or ctype (c % 256) 0) k

unfoldable pub isspace : ℕ → Bool
unfolding class_bit
isspace = class_bit 0

unfoldable pub isdigit : ℕ → Bool
unfolding class_bit
isdigit = class_bit 1

unfoldable pub islower : ℕ → Bool
unfolding class_bit
islower = class_bit 2

unfoldable pub isupper : ℕ → Bool
unfolding class_bit
isupper = class_bit 3

unfoldable pub isxdigit : ℕ → Bool
unfolding class_bit
isxdigit = class_bit 4

unfoldable pub isalpha : ℕ → Bool
unfolding class_bit
isalpha c = class_bit 2 c || class_bit 3 c

unfoldable pub isprint : ℕ → Bool
unfolding class_bit
isprint c = class_bit 2 c || class_bit 3 c || class_bit 1 c || class_bit 5 c || class_bit 6 c

unfoldable pub toupper : ℕ → ℕ
unfolding islower
toupper c = if islower c then c - 0x20 else c

unfoldable pub tolower : ℕ → ℕ
unfolding isupper
tolower c = if isupper c then c + 0x20 else c

-- Every byte is checked by evaluation.
abbrev pub all_below : ℕ → (ℕ → Bool) → Bool
all_below zero p = true
all_below (suc n) p = p n && all_below n p

pub all_below_sound : (n : ℕ) (p : ℕ → Bool) (x : ℕ) → all_below n p ≡ true → x < n → p x ≡ true
all_below_sound zero p x h lt = absurd (omega arith)
all_below_sound (suc n) p x h lt = ground (arith, all_below_sound n p x)

-- Two tests are the same test.
abbrev pub same : Bool → Bool → Bool
same true b = b
same false true = false
same false false = true

pub same_eq : (a b : Bool) → same a b ≡ true → a ≡ b
same_eq true true h = refl
same_eq true false h = cc
same_eq false true h = cc
same_eq false false h = refl

abbrev pub between : ℕ → ℕ → ℕ → Bool
between lo hi c = leb lo c && leb c hi

-- What the table says of a byte, by ranges of ASCII codes.
abbrev pub IsAscii : ℕ → Type 0
IsAscii c =
    (isspace c ≡ (between 9 13 c || c == 32))
    × (isdigit c ≡ between 48 57 c)
    × (islower c ≡ between 97 122 c)
    × (isupper c ≡ between 65 90 c)
    × (isxdigit c ≡ (between 48 57 c || between 65 70 c || between 97 102 c))
    × (isalpha c ≡ (between 65 90 c || between 97 122 c))
    × (isprint c ≡ between 32 126 c)

-- Two tests that agree on all bytes.
by_table :
    (p q : ℕ → Bool) → all_below 256 (λ c. same (p c) (q c)) ≡ true → (c : ℕ) → c < 256 → p c ≡ q c
by_table p q t c h = same_eq (p c) (q c) (all_below_sound 256 (λ c. same (p c) (q c)) c t h)

-- For every byte the class functions are the tests of ASCII ranges.
pub class-IsAscii : (c : ℕ) → c < 256 → IsAscii c
unfolding isspace isdigit islower isupper isxdigit isalpha isprint test_bit
class-IsAscii c h = (
  by_table isspace (λ c. between 9 13 c || c == 32) refl c h,
  by_table isdigit (between 48 57) refl c h,
  by_table islower (between 97 122) refl c h,
  by_table isupper (between 65 90) refl c h,
  by_table isxdigit (λ c. between 48 57 c || between 65 70 c || between 97 102 c) refl c h,
  by_table isalpha (λ c. between 65 90 c || between 97 122 c) refl c h,
  by_table isprint (between 32 126) refl c h,
)

abbrev case_check : ℕ → Bool
case_check c =
    (not (islower c) || (isupper (toupper c) && tolower (toupper c) == c))
    && (not (isupper c) || (islower (tolower c) && toupper (tolower c) == c))
    && (isalpha c || (toupper c == c && tolower c == c))

case_table : all_below 256 case_check ≡ true
unfolding toupper tolower isalpha test_bit
case_table = refl

-- Changing the case of a byte twice gives the byte back, for the letters that are changed; a byte
-- that is no letter is left alone.
pub case_round_trip :
    (c : ℕ)
    → c < 256
    → (islower c ≡ true → (isupper (toupper c) ≡ true) × (tolower (toupper c) ≡ c))
      × (isupper c ≡ true → (islower (tolower c) ≡ true) × (toupper (tolower c) ≡ c))
      × (isalpha c ≡ false → (toupper c ≡ c) × (tolower c ≡ c))
case_round_trip c h =
    let t = all_below_sound 256 case_check c case_table h in
    (λ l. ground (arith, l, t), λ u. ground (arith, u, t), λ n. ground (arith, n, t))
