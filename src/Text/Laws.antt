-- ===== src/Text/Laws.antt =====
-- Laws of the text functions: what concatenation does to prefixes and substrings.
use Prim.Native.Char.{code}
use Prim.Native.String.{◌++◌}
use text.Mathlib.TextLemmas.{nil-append, cons-append}
use uptime_robot_operator.Prelude.{
  and_true_left, and_true_right, and_true, or_true_right, ℕ, String, ◌≡◌, refl, Bool, true, ◌||◌,
  arith, ◌==◌,
}
use uptime_robot_operator.Text.{has_prefix, contains}

or_left :
    (a b c d : Bool)
    → (a ≡ true → c ≡ true)
    → (b ≡ true → d ≡ true)
    → (a || b) ≡ true
    → (c || d) ≡ true
or_left a b c d p q h = ground arith

code_refl : (n : ℕ) → (n == n) ≡ true
code_refl n = ground arith

pub has_prefix-append : (p s : String) → has_prefix (p ++ s) p ≡ true
unfolding has_prefix
has_prefix-append String.[] s = refl
has_prefix-append (String.◌∷◌ c p) s =
    rw (cons-append c p s) (and_true _ _ (code_refl (code c)) (has_prefix-append p s))

contains_of_has_prefix : (s sub : String) → has_prefix s sub ≡ true → contains s sub ≡ true
unfolding contains
contains_of_has_prefix String.[] sub h = h
contains_of_has_prefix (String.◌∷◌ c s) sub h = ground arith

pub contains-append_right :
    (a s sub : String) → contains s sub ≡ true → contains (a ++ s) sub ≡ true
unfolding contains
contains-append_right String.[] s sub h = rw (nil-append s) h
contains-append_right (String.◌∷◌ c a) s sub h =
    rw (cons-append c a s) (or_true_right _ _ (contains-append_right a s sub h))

pub has_prefix-append_left : (s t p : String) → has_prefix s p ≡ true → has_prefix (s ++ t) p ≡ true
unfolding has_prefix
has_prefix-append_left s t String.[] h = refl
has_prefix-append_left String.[] t (String.◌∷◌ c p) h = ground arith
has_prefix-append_left (String.◌∷◌ d s) t (String.◌∷◌ c p) h = rw (cons-append d s t) (
    and_true _ _ (and_true_left _ _ h)
      (has_prefix-append_left s t p (and_true_right (code d == code c) _ h)))

pub contains-append_left : (s t sub : String) → contains s sub ≡ true → contains (s ++ t) sub ≡ true
unfolding contains
contains-append_left String.[] t sub h =
    contains_of_has_prefix _ sub (has_prefix-append_left String.[] t sub h)
contains-append_left (String.◌∷◌ c s) t sub h = rw (cons-append c s t) (
    or_left _ _ _ _
      (λ p. rw (cons-append c s t) at (has_prefix-append_left (String.◌∷◌ c s) t sub p))
      (λ q. contains-append_left s t sub q) h)

-- Every part of a concatenation is a substring of it.
pub contains-append_middle : (a sub b : String) → contains (a ++ (sub ++ b)) sub ≡ true
contains-append_middle a sub b =
    contains-append_right a (sub ++ b) sub
      (contains_of_has_prefix (sub ++ b) sub (has_prefix-append sub b))
