-- ===== src/Print/Tests.antt =====
-- Formatted printing on examples.
use spbau_os_hw.Prelude.{
  ℕ, true, ◌≡◌, ◌≢◌, refl, arith, ◌⊎◌, List, [], ◌∷◌, length, get_or, ltb, leb, ◌==◌, if◌then◌else◌,
  ◌&&◌, ◌<◌, ◌≤◌, ◌+◌, ◌-◌,
}
use spbau_os_hw.Prelude.Bits.{test_bit}
use spbau_os_hw.Text.Ctype.{isdigit, class_bit}
use spbau_os_hw.Text.Memory.{Bytes, strlen, strlen_loop}
use spbau_os_hw.Text.Digits.{lltoa, ulltoa, ulltoa_end, write_digits, turn_round}
use spbau_os_hw.Print.{
  Spec, no_spec, count, failed, vprintf, vsnprintf, vprintf_to, print_loop, decode_format,
  decode_loop, decode_directive, decode_length, decode_conversion, piece, skip_digits, number_text,
}
use spbau_os_hw.Print.Output.{min, vsnprintf-vprintf, vsnprintf-outside}
use spbau_os_hw.Print.Format.{Directive, none_given, long_given, signed_d, string, percent, spell}
use spbau_os_hw.Print.Numbers.{IsPrinted, number_text_lem}
use spbau_os_hw.Print.Meaning.{expected, AreWritten, vprintf-expected}

abbrev blank : Bytes
blank = λ a. 1

-- The string at 7 is "no", and all other strings are empty.
abbrev strings : ℕ → List ℕ
strings a = if a == 7 then 110 ∷ 111 ∷ [] else []

-- "n=%5ld%%, %s!", in pieces
abbrev pieces : List (List ℕ × Directive)
pieces =
    (110 ∷ 61 ∷ [], record { width = 53 ∷ []; modifier = long_given; conversion = signed_d })
    ∷ ([], record { width = []; modifier = none_given; conversion = percent })
    ∷ (44 ∷ 32 ∷ [], record { width = []; modifier = none_given; conversion = string })
    ∷ []

abbrev line : List ℕ
line = spell pieces (33 ∷ [])

line_lem :
    vprintf strings line (42 ∷ 7 ∷ []) []
    ≡ (count 10, 110 ∷ 61 ∷ 52 ∷ 50 ∷ 37 ∷ 44 ∷ 32 ∷ 110 ∷ 111 ∷ 33 ∷ [])
unfolding vprintf vprintf_to print_loop decode_format decode_loop decode_directive decode_length
    decode_conversion piece skip_digits isdigit class_bit test_bit number_text lltoa ulltoa
    ulltoa_end write_digits turn_round strlen strlen_loop
line_lem = refl

-- `%d` of the word of -1, and a directive without a conversion
minus_one : vprintf strings (37 ∷ 100 ∷ []) (0xFFFFFFFF ∷ []) [] ≡ (count 2, 45 ∷ 49 ∷ [])
unfolding vprintf vprintf_to print_loop decode_format decode_loop decode_directive decode_length
    decode_conversion piece skip_digits isdigit class_bit test_bit number_text lltoa ulltoa
    ulltoa_end write_digits turn_round strlen strlen_loop
minus_one = refl

no_conversion : vprintf strings (97 ∷ 37 ∷ []) [] [] ≡ (failed, 97 ∷ [])
unfolding vprintf vprintf_to print_loop decode_format decode_loop decode_directive decode_length
    decode_conversion piece skip_digits isdigit class_bit test_bit number_text lltoa ulltoa
    ulltoa_end write_digits turn_round strlen strlen_loop
no_conversion = refl

pieces-AreWritten : AreWritten pieces
unfolding isdigit class_bit test_bit
pieces-AreWritten = (((refl, (refl, tt)), (refl, tt)), ((tt, tt), (((refl, (refl, tt)), tt), tt)))

vprintf-expected_example :
    vprintf strings line (42 ∷ 7 ∷ []) [] ≡ expected strings pieces (33 ∷ []) (42 ∷ 7 ∷ []) []
vprintf-expected_example =
    vprintf-expected strings pieces (33 ∷ []) (42 ∷ 7 ∷ []) pieces-AreWritten (refl, tt)

abbrev line_text : List ℕ
line_text = 110 ∷ 61 ∷ 52 ∷ 50 ∷ 37 ∷ 44 ∷ 32 ∷ 110 ∷ 111 ∷ 33 ∷ []

vsnprintf-vprintf_example :
    ((vsnprintf strings 100 6 line (42 ∷ 7 ∷ []) blank).0 ≡ count 10)
    × (10 ≡ length line_text)
    × ((i : ℕ)
        → (vsnprintf strings 100 6 line (42 ∷ 7 ∷ []) blank).1 i ≡ (
            if i == 100 + min 10 6 - 1
            then 0
            else if leb 100 i && ltb i (100 + min 10 6)
            then get_or line_text (i - 100) 0
            else blank i))
vsnprintf-vprintf_example =
    vsnprintf-vprintf strings 100 6 line (42 ∷ 7 ∷ []) blank line_text 9 (omega arith) (omega arith)
      line_lem

line_count : (vprintf strings line (42 ∷ 7 ∷ []) []).0 ≢ count 0
line_count e = let c : count 10 ≡ count 0 = rw line_lem at e in cc

vsnprintf-outside_example :
    ((vsnprintf strings 100 6 line (42 ∷ 7 ∷ []) blank).0
      ≡ (vprintf strings line (42 ∷ 7 ∷ []) []).0)
    × ((i : ℕ)
        → (i < 100) ⊎ (106 ≤ i)
        → (vsnprintf strings 100 6 line (42 ∷ 7 ∷ []) blank).1 i ≡ blank i)
vsnprintf-outside_example =
    vsnprintf-outside strings 100 6 line (42 ∷ 7 ∷ []) blank (omega arith) (omega arith) line_count

-- %x of 0xbeef
abbrev hex_spec : Spec
hex_spec = record no_spec { hex = true; unsigned = true }

number_text_lem_example : IsPrinted true 0xbeef 16 (number_text hex_spec 0xbeef)
number_text_lem_example = number_text_lem hex_spec 0xbeef (omega arith)
