-- ===== src/Text/Case.antt =====
-- Go's package strings: ToLower. Of the letters beyond ASCII it maps two to ASCII letters, the Kelvin sign
-- and the dotted capital I; these are mapped here, and the other letters beyond ASCII, which stay
-- beyond ASCII, are left as they are: a comparison with an ASCII text does not see the difference.
use Prim.Native.Char.{Char, char, code, IsScalar}
use Prim.Native.Nat.{compare, Ordering}
use uptime_robot_operator.Prelude.{
  ◌≡◌, refl, sym, ap, ℕ, ◌+◌, ◌-◌, ◌%◌, ◌<◌, String, true, false, ◌&&◌, leb, ◌==◌, if◌then◌else◌,
  arith, Bool-cases, inl, inr, when_true, when_false, ◌∙◌,
}

pub compare_small : (n : ℕ) → n < 55296 → compare n 55296 ≡ Ordering.lt
compare_small n h = ground arith

abbrev pub small : (n : ℕ) → n < 55296 → IsScalar n
small n h = rw (compare_small n h) tt

pub letter_small : (n : ℕ) → 97 + (n - 65) % 26 < 55296
letter_small n = omega arith

-- the small letter of the capital letter with the number n, from 65 to 90
unfoldable pub small_letter : ℕ → Char
small_letter n = char (97 + (n - 65) % 26) (small _ (letter_small n))

-- unicode.ToLower(c), as far as the result is in ASCII
unfoldable pub lower_char : Char → Char
unfolding small_letter
lower_char c =
    if leb 65 (code c) && leb (code c) 90
    then small_letter (code c)
    else if code c == 0x212a
    then "k"
    else if code c == 0x130
    then "i"
    else c

-- strings.ToLower(s)
unfoldable pub to_lower : String → String
unfolding lower_char
to_lower String.[] = ""
to_lower (String.◌∷◌ c s) = String.◌∷◌ (lower_char c) (to_lower s)

small_letter_small : (n : ℕ) → lower_char (small_letter n) ≡ small_letter n
unfolding lower_char small_letter
small_letter_small n = ground arith

lower_capital :
    (c : Char) → (leb 65 (code c) && leb (code c) 90) ≡ true → lower_char c ≡ small_letter (code c)
unfolding lower_char
lower_capital c e = when_true _ _ _ e

lower_other :
    (c : Char)
    → (leb 65 (code c) && leb (code c) 90) ≡ false
    → lower_char c ≡ (if code c == 0x212a then "k" else if code c == 0x130 then "i" else c)
unfolding lower_char
lower_other c e = when_false _ _ _ e

fixed :
    (c d : Char) → lower_char c ≡ d → lower_char d ≡ d → lower_char (lower_char c) ≡ lower_char c
fixed c d e f = ap lower_char e ∙ f ∙ sym e

lower_other_twice :
    (c : Char)
    → (leb 65 (code c) && leb (code c) 90) ≡ false
    → lower_char (lower_char c) ≡ lower_char c
unfolding lower_char
lower_other_twice c e = elim (Bool-cases (code c == 0x212a)) [
  | inl k ↦ fixed c "k" (lower_other c e ∙ when_true _ _ _ k) refl
  | inr k ↦ elim (Bool-cases (code c == 0x130)) [
    | inl i ↦ fixed c "i" (lower_other c e ∙ when_false _ _ _ k ∙ when_true _ _ _ i) refl
    | inr i ↦
        let same = lower_other c e ∙ when_false _ _ _ k ∙ when_false _ _ _ i in fixed c c same same
  ]
]

lower_char_twice : (c : Char) → lower_char (lower_char c) ≡ lower_char c
lower_char_twice c = elim (Bool-cases (leb 65 (code c) && leb (code c) 90)) [
  | inl e ↦ fixed c _ (lower_capital c e) (small_letter_small (code c))
  | inr e ↦ lower_other_twice c e
]

-- What is in lower case stays as it is.
pub to_lower_twice : (s : String) → to_lower (to_lower s) ≡ to_lower s
unfolding to_lower
to_lower_twice String.[] = refl
to_lower_twice (String.◌∷◌ c s) = rw (lower_char_twice c, to_lower_twice s) refl
