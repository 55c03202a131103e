-- ===== src/Print/Format.antt =====
-- Formats as text and directives, and what src/src/print.c makes of them.
use mathlib.Core.List.{append_assoc}
use spbau_os_hw.Prelude.{
  ℕ, ◌≡◌, refl, inl, inr, true, false, ◌||◌, List, [], ◌∷◌, ◌++◌, ◌==◌, All, Bool-cases,
}
use spbau_os_hw.Prelude.Bits.{test_bit}
use spbau_os_hw.Text.Ctype.{isdigit, class_bit}
use spbau_os_hw.Print.{
  FormatType, fmt_str, fmt_char, fmt_int, fmt_percent, Spec, no_spec, Decoded, skip_flag,
  skip_digits, skip_precision, decode_length, decode_conversion, decode_directive,
}

pub data Modifier : Type 0 where
  none_given long_given llong_given short_given sshort_given : Modifier

pub data Conversion : Type 0 where
  signed_d signed_i unsigned_u hex_x hex_X octal pointer string character percent : Conversion

pub record Directive : Type 0 where
  pub width : List ℕ
  pub modifier : Modifier
  pub conversion : Conversion

abbrev pub modifier_text : Modifier → List ℕ
modifier_text none_given = []
modifier_text long_given = 108 ∷ []
modifier_text llong_given = 108 ∷ 108 ∷ []
modifier_text short_given = 104 ∷ []
modifier_text sshort_given = 104 ∷ 104 ∷ []

abbrev pub modifier_spec : Modifier → Spec
modifier_spec none_given = no_spec
modifier_spec long_given = record no_spec { long = true }
modifier_spec llong_given = record no_spec { llong = true }
modifier_spec short_given = record no_spec { short = true }
modifier_spec sshort_given = record no_spec { sshort = true }

abbrev pub letter : Conversion → ℕ
letter signed_d = 100
letter signed_i = 105
letter unsigned_u = 117
letter hex_x = 120
letter hex_X = 88
letter octal = 111
letter pointer = 112
letter string = 115
letter character = 99
letter percent = 37

abbrev pub conversion_type : Conversion → FormatType
conversion_type string = fmt_str
conversion_type character = fmt_char
conversion_type percent = fmt_percent
conversion_type _ = fmt_int

abbrev pub conversion_spec : Conversion → Spec → Spec
conversion_spec unsigned_u s = record s { unsigned = true }
conversion_spec hex_x s = record s { hex = true; unsigned = true }
conversion_spec hex_X s = record s { hex = true; unsigned = true }
conversion_spec octal s = record s { oct = true; unsigned = true }
conversion_spec pointer s = record s { long = true; hex = true; unsigned = true }
conversion_spec _ s = s

-- A directive as it is written, behind its `%`.
abbrev pub spelling : Directive → List ℕ
spelling d = d.width ++ (modifier_text d.modifier ++ letter d.conversion ∷ [])

-- A format: directives, each with the text before it, and the text at the end.
abbrev pub spell : List (List ℕ × Directive) → List ℕ → List ℕ
spell [] last = last
spell (p ∷ ps) last = p.0 ++ (37 ∷ (spelling p.1 ++ spell ps last))

-- No letter of a conversion is a flag, a dot, a digit or a modifier.
pub record IsLetter (c : ℕ) : Type 0 where
  pub no_flag : (c == 45 || (c == 43) || (c == 32) || (c == 35) || (c == 48)) ≡ false
  pub no_dot : (c == 46) ≡ false
  pub no_digit : isdigit c ≡ false
  pub no_l : (c == 108) ≡ false
  pub no_h : (c == 104) ≡ false

letter-IsLetter : (c : Conversion) → IsLetter (letter c)
unfolding isdigit test_bit class_bit
letter-IsLetter signed_d = record {
  no_flag = refl;
  no_dot = refl;
  no_digit = refl;
  no_l = refl;
  no_h = refl;
}
letter-IsLetter signed_i = record {
  no_flag = refl;
  no_dot = refl;
  no_digit = refl;
  no_l = refl;
  no_h = refl;
}
letter-IsLetter unsigned_u = record {
  no_flag = refl;
  no_dot = refl;
  no_digit = refl;
  no_l = refl;
  no_h = refl;
}
letter-IsLetter hex_x = record {
  no_flag = refl;
  no_dot = refl;
  no_digit = refl;
  no_l = refl;
  no_h = refl;
}
letter-IsLetter hex_X = record {
  no_flag = refl;
  no_dot = refl;
  no_digit = refl;
  no_l = refl;
  no_h = refl;
}
letter-IsLetter octal = record {
  no_flag = refl;
  no_dot = refl;
  no_digit = refl;
  no_l = refl;
  no_h = refl;
}
letter-IsLetter pointer = record {
  no_flag = refl;
  no_dot = refl;
  no_digit = refl;
  no_l = refl;
  no_h = refl;
}
letter-IsLetter string = record {
  no_flag = refl;
  no_dot = refl;
  no_digit = refl;
  no_l = refl;
  no_h = refl;
}
letter-IsLetter character = record {
  no_flag = refl;
  no_dot = refl;
  no_digit = refl;
  no_l = refl;
  no_h = refl;
}
letter-IsLetter percent = record {
  no_flag = refl;
  no_dot = refl;
  no_digit = refl;
  no_l = refl;
  no_h = refl;
}

decode_conversion-letter :
    (c : Conversion) (s : Spec)
    → decode_conversion (letter c) s ≡ (conversion_type c, conversion_spec c s)
unfolding decode_conversion
decode_conversion-letter signed_d s = refl
decode_conversion-letter signed_i s = refl
decode_conversion-letter unsigned_u s = refl
decode_conversion-letter hex_x s = refl
decode_conversion-letter hex_X s = refl
decode_conversion-letter octal s = refl
decode_conversion-letter pointer s = refl
decode_conversion-letter string s = refl
decode_conversion-letter character s = refl
decode_conversion-letter percent s = refl

skip_flag_other : (c : ℕ) (cs : List ℕ) → IsLetter c → skip_flag (c ∷ cs) ≡ c ∷ cs
skip_flag_other c cs l = rw (l.no_flag) refl

skip_digits-append :
    (ds : List ℕ) (c : ℕ) (cs : List ℕ)
    → All (λ d. isdigit d ≡ true) ds
    → isdigit c ≡ false
    → skip_digits (ds ++ c ∷ cs) ≡ c ∷ cs
unfolding skip_digits
skip_digits-append [] c cs h e = rw e refl
skip_digits-append (d ∷ ds) c cs h e = rw (h.0) (skip_digits-append ds c cs h.1 e)

-- The character behind the width: of the modifier, or the letter.
abbrev IsBehindWidth : ℕ → Type 0
IsBehindWidth c =
    ((c == 45 || (c == 43) || (c == 32) || (c == 35) || (c == 48)) ≡ false)
    × (isdigit c ≡ false)
    × ((c == 46) ≡ false)

skip_width :
    (ds : List ℕ) (c : ℕ) (cs : List ℕ)
    → All (λ d. isdigit d ≡ true) ds
    → IsBehindWidth c
    → skip_precision (skip_digits (skip_flag (ds ++ c ∷ cs))) ≡ c ∷ cs
unfolding skip_digits
skip_width [] c cs h (f, d, o) = rw (f, d, o) refl
skip_width (x ∷ ds) c cs h (f, d, o) =
    elim (Bool-cases (x == 45 || (x == 43) || (x == 32) || (x == 35) || (x == 48))) [
      | inl t ↦ rw (t, skip_digits-append ds c cs h.1 d, o) refl
      | inr t ↦ rw (t, skip_digits-append (x ∷ ds) c cs h d, o) refl
    ]

decode_length-modifier :
    (m : Modifier) (c : ℕ) (cs : List ℕ)
    → IsLetter c
    → decode_length (modifier_text m ++ (c ∷ cs)) ≡ (modifier_spec m, c ∷ cs)
unfolding decode_length
decode_length-modifier none_given c cs l = rw (l.no_l, l.no_h) refl
decode_length-modifier long_given c cs l = rw (l.no_l) refl
decode_length-modifier llong_given c cs l = refl
decode_length-modifier short_given c cs l = rw (l.no_h) refl
decode_length-modifier sshort_given c cs l = refl

behind_width :
    (m : Modifier) (c : ℕ) (cs : List ℕ)
    → IsLetter c
    → (x : ℕ) × (xs : List ℕ) × (modifier_text m ++ (c ∷ cs) ≡ x ∷ xs) × IsBehindWidth x
unfolding isdigit class_bit test_bit
behind_width none_given c cs l = (c, cs, refl, (l.no_flag, l.no_digit, l.no_dot))
behind_width long_given c cs l = (108, c ∷ cs, refl, (refl, refl, refl))
behind_width llong_given c cs l = (108, 108 ∷ c ∷ cs, refl, (refl, refl, refl))
behind_width short_given c cs l = (104, c ∷ cs, refl, (refl, refl, refl))
behind_width sshort_given c cs l = (104, 104 ∷ c ∷ cs, refl, (refl, refl, refl))

abbrev pub IsWritten : Directive → Type 0
IsWritten d = All (λ c. isdigit c ≡ true) d.width

abbrev pub meant : Directive → List ℕ → Decoded
meant d rest = record {
  type = conversion_type d.conversion;
  spec = conversion_spec d.conversion (modifier_spec d.modifier);
  rest = rest;
}

-- A directive is decoded as what it means; the width is read over.
pub decode_directive-spelling :
    (d : Directive) (rest : List ℕ)
    → IsWritten d
    → decode_directive (spelling d ++ rest) ≡ meant d rest
unfolding decode_directive
decode_directive-spelling d rest h =
    let c = letter d.conversion in
    let l = letter-IsLetter d.conversion in
    let (x, xs, e, b) = behind_width d.modifier c rest l in
    let regroup : spelling d ++ rest ≡ d.width ++ (modifier_text d.modifier ++ (c ∷ rest)) =
      simp append_assoc in
    rw
      (
        regroup,
        e,
        skip_width d.width x xs h b,
        ← e,
        decode_length-modifier d.modifier c rest l,
        decode_conversion-letter d.conversion (modifier_spec d.modifier),
      )
      refl
