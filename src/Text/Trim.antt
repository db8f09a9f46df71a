-- ===== src/Text/Trim.antt =====
-- Laws of trimming: TrimSpace is idempotent, and leaves a text alone that neither begins nor ends
-- with a space.
use Prim.Native.Char.{Char, code}
use Prim.Native.String.{◌++◌}
use text.Mathlib.TextLemmas.{nil-append, cons-append, append-ne-nil_of_right_ne-nil}
use uptime_robot_operator.Prelude.{String, ◌≡◌, ◌≢◌, refl, ◌∙◌, ap, inl, inr, false, Bool-cases}
use uptime_robot_operator.Text.{is_space, trim_left, trim_right, trim_space, cons_unless_blank}

-- nothing to trim at the end
abbrev pub Ends : String → Type 0
Ends s = trim_right s ≡ s

cons_unless_blank_solid :
    (c : Char) (s : String) → is_space (code c) ≡ false → cons_unless_blank c s ≡ String.◌∷◌ c s
unfolding cons_unless_blank
cons_unless_blank_solid c String.[] h = rw h
cons_unless_blank_solid c (String.◌∷◌ d s) h = refl

cons_unless_blank_nonempty :
    (c : Char) (s : String) → s ≢ "" → cons_unless_blank c s ≡ String.◌∷◌ c s
unfolding cons_unless_blank
cons_unless_blank_nonempty c String.[] h = absurd (h refl)
cons_unless_blank_nonempty c (String.◌∷◌ d s) h = refl

-- A text that ends well ends well behind any other.
pub Ends-append : (s t : String) → t ≢ "" → Ends t → Ends (s ++ t)
unfolding trim_right
Ends-append String.[] t n e = rw (nil-append t) e
Ends-append (String.◌∷◌ c s) t n e = rw (cons-append c s t) (
    ap (cons_unless_blank c) (Ends-append s t n e)
    ∙ cons_unless_blank_nonempty c (s ++ t) (append-ne-nil_of_right_ne-nil s n))

Ends-cons_unless_blank : (c : Char) (s : String) → Ends s → Ends (cons_unless_blank c s)
unfolding trim_right
Ends-cons_unless_blank c String.[] e = elim (Bool-cases (is_space (code c))) [
  | inl b ↦ rw b
  | inr b ↦ rw b (rw b)
]
Ends-cons_unless_blank c (String.◌∷◌ d s) e = ap (cons_unless_blank c) e

pub Ends-trim_right : (s : String) → Ends (trim_right s)
unfolding trim_right
Ends-trim_right String.[] = refl
Ends-trim_right (String.◌∷◌ c s) = Ends-cons_unless_blank c (trim_right s) (Ends-trim_right s)

-- a text with no space in front
abbrev pub Starts : String → Type 0
Starts s = trim_left s ≡ s

Starts-trim_left : (s : String) → Starts (trim_left s)
unfolding trim_left
Starts-trim_left String.[] = refl
Starts-trim_left (String.◌∷◌ c s) = elim (Bool-cases (is_space (code c))) [
  | inl b ↦ rw b (Starts-trim_left s)
  | inr b ↦ rw b (rw b)
]

pub trim_space_of : (s : String) → Starts s → Ends s → trim_space s ≡ s
unfolding trim_space
trim_space_of s p q = ap trim_right p ∙ q

pub Ends-trim_space : (s : String) → Ends (trim_space s)
unfolding trim_space
Ends-trim_space s = Ends-trim_right (trim_left s)
