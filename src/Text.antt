-- ===== src/Text.antt =====
-- What the operator uses of Go's package strings: HasPrefix, Contains, TrimSpace, TrimSuffix and
-- TrimPrefix, and the concatenation that fmt.Sprintf makes. A text is a sequence of code points.
pub mod Laws
pub mod Trim
pub mod Case
pub mod Affix
use Prim.Native.Char.{Char, code}
use Prim.Native.String.{◌++◌}
use uptime_robot_operator.Prelude.{
  ℕ, String, Bool, true, false, ◌&&◌, ◌||◌, List, [], ◌∷◌, leb, ◌==◌, same_text, if◌then◌else◌,
}

-- strings.HasPrefix(s, p)
unfoldable pub has_prefix : String → String → Bool
has_prefix s String.[] = true
has_prefix String.[] (String.◌∷◌ c p) = false
has_prefix (String.◌∷◌ d s) (String.◌∷◌ c p) = code d == code c && has_prefix s p

-- strings.Contains(s, sub)
unfoldable pub contains : String → String → Bool
unfolding has_prefix
contains String.[] sub = has_prefix String.[] sub
contains (String.◌∷◌ c s) sub = has_prefix (String.◌∷◌ c s) sub || contains s sub

-- unicode.IsSpace(c)
unfoldable pub is_space : ℕ → Bool
is_space c =
    (leb 9 c && leb c 13)
    || c == 32
    || c == 0x85
    || c == 0xa0
    || c == 0x1680
    || (leb 0x2000 c && leb c 0x200a)
    || c == 0x2028
    || c == 0x2029
    || c == 0x202f
    || c == 0x205f
    || c == 0x3000

unfoldable pub trim_left : String → String
unfolding is_space
trim_left String.[] = ""
trim_left (String.◌∷◌ c s) =
    let rest = trim_left s in if is_space (code c) then rest else String.◌∷◌ c s

-- A space is dropped where nothing but spaces follows it.
unfoldable pub cons_unless_blank : Char → String → String
unfolding is_space
cons_unless_blank c String.[] = if is_space (code c) then "" else String.◌∷◌ c ""
cons_unless_blank c (String.◌∷◌ d s) = String.◌∷◌ c (String.◌∷◌ d s)

unfoldable pub trim_right : String → String
unfolding cons_unless_blank
trim_right String.[] = ""
trim_right (String.◌∷◌ c s) = cons_unless_blank c (trim_right s)

-- strings.TrimSpace(s)
unfoldable pub trim_space : String → String
unfolding trim_left trim_right
trim_space s = trim_right (trim_left s)

-- strings.TrimSuffix(s, "/"): at most one slash goes.
unfoldable pub trim_slash : String → String
trim_slash String.[] = ""
trim_slash (String.◌∷◌ c String.[]) = if code c == b'/' then "" else String.◌∷◌ c ""
trim_slash (String.◌∷◌ c (String.◌∷◌ d s)) = String.◌∷◌ c (trim_slash (String.◌∷◌ d s))

-- strings.TrimPrefix(s, "/")
unfoldable pub trim_leading_slash : String → String
trim_leading_slash String.[] = ""
trim_leading_slash (String.◌∷◌ c s) = if code c == b'/' then s else String.◌∷◌ c s

-- fmt.Sprintf of texts: the parts one after another.
unfoldable pub concat : List String → String
concat [] = ""
concat (s ∷ ss) = s ++ concat ss

abbrev pub is_blank : String → Bool
is_blank s = same_text s ""
