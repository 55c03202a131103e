-- ===== src/Print/Meaning.antt =====
-- What a format prints: `__vprintf` of src/src/print.c on formats of text and directives.
use mathlib.Core.List.{append-nil}
use spbau_os_hw.Prelude.{
  ℕ, zero, suc, ◌-◌, ◌%◌, ◌<◌, ◌≡◌, refl, ap, ◌∙◌, arith, true, false, List, [], ◌∷◌, ◌++◌, ◌==◌,
  length, length-append, All,
}
use spbau_os_hw.Print.{
  fmt_none, Spec, no_spec, decode_loop, decode_format, PrintResult, count, failed, undefined, Piece,
  text, invalid, no_arg, take, piece, piece_of, number_text, print_piece, print_loop, serial_out,
  vprintf, vprintf_to,
}
use spbau_os_hw.Print.Format.{
  conversion_type, Conversion, signed_d, signed_i, unsigned_u, hex_x, hex_X, octal, pointer, string,
  character, percent, Directive, modifier_spec, conversion_spec, spelling, spell, IsWritten,
  decode_directive-spelling,
}

-- The text of a directive, and the arguments that it leaves.
abbrev number : Spec → List ℕ → Piece
number spec [] = no_arg
number spec (a ∷ rest) = piece_of rest (number_text spec a)

abbrev pub directive_text : (ℕ → List ℕ) → Conversion → Spec → List ℕ → Piece
directive_text text_of percent spec args = text (37 ∷ []) args
directive_text text_of string spec [] = no_arg
directive_text text_of string spec (a ∷ rest) = text (text_of a) rest
directive_text text_of character spec [] = no_arg
directive_text text_of character spec (a ∷ rest) = text (a % 256 ∷ []) rest
directive_text text_of signed_d spec args = number spec args
directive_text text_of signed_i spec args = number spec args
directive_text text_of unsigned_u spec args = number spec args
directive_text text_of hex_x spec args = number spec args
directive_text text_of hex_X spec args = number spec args
directive_text text_of octal spec args = number spec args
directive_text text_of pointer spec args = number spec args

abbrev pub spec_of : Directive → Spec
spec_of d = conversion_spec d.conversion (modifier_spec d.modifier)

-- What a format of directives and text prints behind `sent`: the pieces in turn, up to a directive
-- without an argument.
unfoldable pub expected :
    (ℕ → List ℕ) → List (List ℕ × Directive) → (last args sent : List ℕ) → PrintResult × List ℕ
expected text_of [] last args sent = (count (length (sent ++ last)), sent ++ last)
expected text_of (p ∷ ps) last args sent =
    elim (directive_text text_of p.1.conversion (spec_of p.1) args) [
      | invalid ↦ (failed, sent ++ p.0)
      | no_arg ↦ (undefined, sent ++ p.0)
      | text t rest ↦ expected text_of ps last rest ((sent ++ p.0) ++ t)
    ]

abbrev pub HasNoPercent : List ℕ → Type 0
HasNoPercent t = All (λ c. (c == 37) ≡ false) t

-- The end of a format, or a directive.
abbrev IsBoundary : List ℕ → Type 0
IsBoundary [] = Unit
IsBoundary (c ∷ cs) = (c == 37) ≡ true

decode_loop-text :
    (t rest : List ℕ)
    → HasNoPercent t
    → IsBoundary rest
    → decode_loop fmt_none (t ++ rest) ≡ record { type = fmt_none; spec = no_spec; rest = rest }
unfolding decode_loop
decode_loop-text [] [] h b = refl
decode_loop-text [] (c ∷ rest) h b = rw b refl
decode_loop-text (c ∷ t) rest h b = rw (h.0) (decode_loop-text t rest h.1 b)

take-append : (t rest : List ℕ) → take (length (t ++ rest) - length rest) (t ++ rest) ≡ t
take-append t rest =
    let e : length (t ++ rest) - length rest ≡ length t = omega (arith, length-append t rest) in
    rw e (whole t rest)
  where
    whole : (t rest : List ℕ) → take (length t) (t ++ rest) ≡ t
    whole [] rest = refl
    whole (c ∷ t) rest = ap (c ∷◌) (whole t rest)

abbrev loop : (ℕ → List ℕ) → ℕ → (fmt args sent : List ℕ) → PrintResult × List ℕ
loop text_of f fmt args sent = print_loop text_of serial_out f fmt args (length sent) sent

-- One round of the loop on text, and one on a directive.
loop_text :
    (text_of : ℕ → List ℕ) (f c : ℕ) (t rest args sent : List ℕ)
    → HasNoPercent (c ∷ t)
    → IsBoundary rest
    → loop text_of (suc f) ((c ∷ t) ++ rest) args sent ≡ loop text_of f rest args (sent ++ c ∷ t)
unfolding print_loop decode_format decode_loop piece
loop_text text_of f c t rest args sent h b =
    rw (h.0, decode_loop-text t rest h.1 b, take-append (c ∷ t) rest, length-append sent (c ∷ t))
      refl

piece-meant :
    (text_of : ℕ → List ℕ) (start : List ℕ) (c : Conversion) (spec : Spec) (rest args : List ℕ)
    → piece text_of start
        (record { type = conversion_type c; spec = conversion_spec c spec; rest = rest })
        args
      ≡ directive_text text_of c (conversion_spec c spec) args
unfolding piece
piece-meant text_of start signed_d spec rest [] = refl
piece-meant text_of start signed_d spec rest (a ∷ args) = refl
piece-meant text_of start signed_i spec rest [] = refl
piece-meant text_of start signed_i spec rest (a ∷ args) = refl
piece-meant text_of start unsigned_u spec rest [] = refl
piece-meant text_of start unsigned_u spec rest (a ∷ args) = refl
piece-meant text_of start hex_x spec rest [] = refl
piece-meant text_of start hex_x spec rest (a ∷ args) = refl
piece-meant text_of start hex_X spec rest [] = refl
piece-meant text_of start hex_X spec rest (a ∷ args) = refl
piece-meant text_of start octal spec rest [] = refl
piece-meant text_of start octal spec rest (a ∷ args) = refl
piece-meant text_of start pointer spec rest [] = refl
piece-meant text_of start pointer spec rest (a ∷ args) = refl
piece-meant text_of start string spec rest [] = refl
piece-meant text_of start string spec rest (a ∷ args) = refl
piece-meant text_of start character spec rest [] = refl
piece-meant text_of start character spec rest (a ∷ args) = refl
piece-meant text_of start percent spec rest args = refl

loop_directive :
    (text_of : ℕ → List ℕ) (f : ℕ) (d : Directive) (rest args sent : List ℕ)
    → IsWritten d
    → loop text_of (suc f) (37 ∷ (spelling d ++ rest)) args sent
      ≡ print_piece serial_out
          (length sent)
          sent
          (print_loop text_of serial_out f rest)
          (directive_text text_of d.conversion (spec_of d) args)
unfolding print_loop decode_format decode_loop
loop_directive text_of f d rest args sent h =
    rw
      (
        decode_directive-spelling d rest h,
        piece-meant text_of (37 ∷ (spelling d ++ rest)) d.conversion (modifier_spec d.modifier) rest
            args,
      )
      refl

-- The loop on a text, which may be empty.
loop-text :
    (text_of : ℕ → List ℕ) (f : ℕ) (t rest args sent : List ℕ)
    → HasNoPercent t
    → IsBoundary rest
    → length (t ++ rest) < f
    → (g : ℕ) × (length rest < g)
      × (loop text_of f (t ++ rest) args sent ≡ loop text_of g rest args (sent ++ t))
loop-text text_of f [] rest args sent h b l = (f, l, rw (append-nil) refl)
loop-text text_of zero (c ∷ t) rest args sent h b l = absurd (omega (arith, l))
loop-text text_of (suc f) (c ∷ t) rest args sent h b l =
    (f, omega (arith, l, length-append t rest), loop_text text_of f c t rest args sent h b)

-- A format is well written: no text has a `%`, and the widths are of digits.
abbrev pub AreWritten : List (List ℕ × Directive) → Type 0
AreWritten ps = All (λ p. HasNoPercent p.0 × IsWritten p.1) ps

above_zero : {n g : ℕ} → n < g → (f : ℕ) × (g ≡ suc f)
above_zero {g = zero} h = absurd (omega (arith, h))
above_zero {g = suc f} h = (f, refl)

loop-last :
    (text_of : ℕ → List ℕ) (f : ℕ) (last args sent : List ℕ)
    → HasNoPercent last
    → length last < f
    → loop text_of f last args sent ≡ (count (length (sent ++ last)), sent ++ last)
unfolding print_loop
loop-last text_of f last args sent h l =
    let e : last ++ [] ≡ last = append-nil last in
    let (g, k, r) = loop-text text_of f last [] args sent h tt (rw e l) in
    let (g', eg) = above_zero k in (rw e at r) ∙ rw eg refl

-- `next` behind each piece of text.
print_piece-next :
    (sent : List ℕ) (next : List ℕ → ℕ → List ℕ → PrintResult × List ℕ)
    (onward : List ℕ → List ℕ → PrintResult × List ℕ) (p : Piece)
    → ((args sent : List ℕ) → next args (length sent) sent ≡ onward args sent)
    → print_piece serial_out (length sent) sent next p ≡ (elim p [
      | invalid ↦ (failed, sent)
      | no_arg ↦ (undefined, sent)
      | text t rest ↦ onward rest (sent ++ t)
    ])
print_piece-next sent next onward invalid h = refl
print_piece-next sent next onward no_arg h = refl
print_piece-next sent next onward (text t rest) h = rw (← length-append sent t) (h rest (sent ++ t))

loop-expected :
    (text_of : ℕ → List ℕ) (ps : List (List ℕ × Directive)) (last : List ℕ) (f : ℕ)
    (args sent : List ℕ)
    → AreWritten ps
    → HasNoPercent last
    → length (spell ps last) < f
    → loop text_of f (spell ps last) args sent ≡ expected text_of ps last args sent
unfolding expected
loop-expected text_of [] last f args sent w h l = loop-last text_of f last args sent h l
loop-expected text_of (p ∷ ps) last f args sent w h l =
    let d = p.1 in
    let (g, k, r) =
      loop-text text_of f p.0 (37 ∷ (spelling d ++ spell ps last)) args sent w.0.0 refl l in
    let (g', eg) = above_zero k in
    r
    ∙ rw eg (
        loop_directive text_of g' d (spell ps last) args (sent ++ p.0) w.0.1
        ∙ print_piece-next (sent ++ p.0) (print_loop text_of serial_out g' (spell ps last))
            (expected text_of ps last) (directive_text text_of d.conversion (spec_of d) args)
            (λ args sent.
              loop-expected text_of ps last g' args sent w.1 h
                (omega (arith, k, eg, length-append (spelling d) (spell ps last)))))

-- On a format of texts without `%` and of directives whose widths are of digits, `vprintf` prints the
-- texts, and for each directive what it means of the next argument, up to the first directive that has
-- no argument; it returns the count of the characters if all have.
pub vprintf-expected :
    (text_of : ℕ → List ℕ) (ps : List (List ℕ × Directive)) (last args : List ℕ)
    → AreWritten ps
    → HasNoPercent last
    → vprintf text_of (spell ps last) args [] ≡ expected text_of ps last args []
unfolding vprintf vprintf_to
vprintf-expected text_of ps last args w h =
    loop-expected text_of ps last (suc (length (spell ps last))) args [] w h (omega arith)
