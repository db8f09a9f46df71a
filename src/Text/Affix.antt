-- ===== src/Text/Affix.antt =====
-- Go's package strings: TrimPrefix and TrimSuffix.
use Prim.Native.Char.{code}
use Prim.Native.String.{◌++◌}
use text.Mathlib.TextLemmas.{nil-append, cons-append}
use uptime_robot_operator.Prelude.{
  ◌≡◌, refl, ap, ◌∙◌, ℕ, String, true, Option, none, some, ◌==◌, same_text, if◌then◌else◌,
  when_true, arith,
}

-- what follows a prefix
unfoldable pub after_prefix : String → String → Option String
after_prefix s String.[] = some s
after_prefix String.[] (String.◌∷◌ d p) = none
after_prefix (String.◌∷◌ c s) (String.◌∷◌ d p) =
    let rest = after_prefix s p in if code c == code d then rest else none

abbrev pub rest_or : String → Option String → String
rest_or s none = s
rest_or s (some rest) = rest

-- strings.TrimPrefix(s, p)
unfoldable pub trim_prefix : String → String → String
unfolding after_prefix
trim_prefix s p = rest_or s (after_prefix s p)

-- strings.TrimSuffix(s, p): the suffix starts where what is left of the text equals it
unfoldable pub trim_suffix : String → String → String
trim_suffix String.[] p = ""
trim_suffix (String.◌∷◌ c s) p =
    let rest = trim_suffix s p in if same_text (String.◌∷◌ c s) p then "" else String.◌∷◌ c rest

code_refl : (n : ℕ) → (n == n) ≡ true
code_refl n = ground arith

after_prefix-append : (p s : String) → after_prefix (p ++ s) p ≡ some s
unfolding after_prefix
after_prefix-append String.[] s = rw (nil-append s) refl
after_prefix-append (String.◌∷◌ c p) s =
    rw (cons-append c p s) (when_true _ _ _ (code_refl (code c)) ∙ after_prefix-append p s)

pub trim_prefix-append : (p s : String) → trim_prefix (p ++ s) p ≡ s
unfolding trim_prefix
trim_prefix-append p s = ap (rest_or (p ++ s)) (after_prefix-append p s)
