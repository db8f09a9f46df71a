-- ===== src/Urtypes/Enumer.antt =====
-- The methods of internal/uptimerobot/urtypes/*_enumer.go, which are alike for the seven enumerations but
-- for their tables. A value is a uint8.
pub mod Tables
pub mod Laws
use Prim.Native.String.{slice}
use uptime_robot_operator.Prelude.{
  ℕ, zero, suc, ◌+◌, ◌-◌, ◌%◌, String, Bool, true, false, ◌||◌, Option, none, some, List, [], ◌∷◌,
  leb, ◌==◌, length, same_text, if◌then◌else◌,
}
use uptime_robot_operator.Prelude.Int.{pos}
use uptime_robot_operator.Text.{concat}
use uptime_robot_operator.Text.Case.{to_lower}
use uptime_robot_operator.Strconv.{itoa}
use uptime_robot_operator.Failure.{Failure, Result, ok, err, failure}

-- the constants of a file: _XName, _XLowerName, _XIndex and _XValues, where `first` is what String
-- subtracts from a value
pub record Table : Type 0 where
  pub type : String
  pub names : String
  pub lower_names : String
  pub index : List ℕ
  pub first : ℕ
  pub values : List ℕ

-- names[index[n]:index[n+1]], for an n that the caller has tested
unfoldable pub slice_at : String → List ℕ → ℕ → String
slice_at names (a ∷ b ∷ more) zero = slice names a b
slice_at names (a ∷ more) (suc n) = slice_at names more n
slice_at names _ _ = ""

-- String
unfoldable pub to_string : Table → ℕ → String
unfolding slice_at
to_string e i =
    let n = (i + 256 - e.first) % 256 in
    if leb (length e.index - 1) n
    then concat (e.type ∷ "(" ∷ itoa (pos ((n + e.first) % 256)) ∷ ")" ∷ [])
    else slice_at e.names e.index n

-- the slices of the names between the entries of an index that follow an entry
unfoldable pub slices : String → ℕ → List ℕ → List String
slices names a [] = []
slices names a (b ∷ more) = slice names a b ∷ slices names b more

abbrev pub all_slices : String → List ℕ → List String
all_slices names [] = []
all_slices names (a ∷ more) = slices names a more

abbrev pub entries : List String → List String → List ℕ → List (String × ℕ)
entries (n ∷ ns) (l ∷ ls) (v ∷ vs) = (n, v) ∷ (l, v) ∷ entries ns ls vs
entries _ _ _ = []

-- _XNameToValueMap: where a key comes twice, it comes with one value
unfoldable pub name_to_value : Table → List (String × ℕ)
unfolding slices
name_to_value e = entries (all_slices e.names e.index) (all_slices e.lower_names e.index) e.values

unfoldable pub value_of : String → List (String × ℕ) → Option ℕ
value_of s [] = none
value_of s ((n, v) ∷ more) = let rest = value_of s more in if same_text n s then some v else rest

abbrev pub found_or : Option ℕ → Result ℕ → Result ℕ
found_or (some v) r = ok v
found_or none r = r

-- XString
unfoldable pub from_string : Table → String → Result ℕ
unfolding name_to_value value_of
from_string e s = found_or (value_of s (name_to_value e)) (
    found_or (value_of (to_lower s) (name_to_value e))
      (err (failure (concat (s ∷ " does not belong to " ∷ e.type ∷ " values" ∷ [])) [])))

abbrev pub listed : ℕ → List ℕ → Bool
listed i [] = false
listed i (v ∷ more) = i == v || listed i more

-- IsAX
unfoldable pub is_a : Table → ℕ → Bool
is_a e i = listed i e.values

-- the value that is assigned, and the error
abbrev pub assigned : Result ℕ → ℕ × Option Failure
assigned (ok v) = (v, none)
assigned (err f) = (0, some f)

-- UnmarshalText; MarshalText is String
unfoldable pub unmarshal_text : Table → String → ℕ × Option Failure
unfolding from_string
unmarshal_text e text = assigned (from_string e text)

-- what is done with the answer of json.Unmarshal into a string: a value of another kind leaves the value
abbrev pub unmarshal_decoded : Table → ℕ → String → Result String → ℕ × Option Failure
unmarshal_decoded e i json (ok s) = unmarshal_text e s
unmarshal_decoded e i json (err f) =
    (i, some (failure (concat (e.type ∷ " should be a string, got " ∷ json ∷ [])) []))

-- UnmarshalJSON, on a value and for what json.Unmarshal answers; MarshalJSON is json.Marshal of String
unfoldable pub unmarshal_json : Table → (String → Result String) → ℕ → String → ℕ × Option Failure
unfolding unmarshal_text
unmarshal_json e decode i json = unmarshal_decoded e i json (decode json)
