-- ===== src/Urtypes/Enumer/Laws.antt =====
-- Which texts an enumeration of internal/uptimerobot/urtypes/*_enumer.go reads. What a proof needs of the
-- tables is tested by computation.
use mathlib.Core.Path.{subst}
use uptime_robot_operator.Prelude.{
  ◌≡◌, refl, sym, ap, ◌∙◌, ◌≢◌, ℕ, String, Bool, true, false, ◌&&◌, Option, none, some, List, [],
  ◌∷◌, ◌↔◌, inl, inr, ◌==◌, same_text, same_text_iff, Bool-cases, Option-cases, and_true_left,
  and_true_right, when_true, when_false, ==_iff, or_true-cases,
}
use uptime_robot_operator.Text.Case.{to_lower, to_lower_twice}
use uptime_robot_operator.Failure.{ok}
use uptime_robot_operator.Urtypes.Enumer.{
  Table, to_string, name_to_value, value_of, from_string, is_a, listed,
}
use uptime_robot_operator.Urtypes.Enumer.Tables.{Enumeration, table}

abbrev all_of {ℓ} : {A : Type ℓ} → (A → Bool) → List A → Bool
all_of p [] = true
all_of p (x ∷ xs) = p x && all_of p xs

all_of-listed :
    (p : ℕ → Bool) (vs : List ℕ) (i : ℕ) → all_of p vs ≡ true → listed i vs ≡ true → p i ≡ true
all_of-listed p [] i h l = absurd cc
all_of-listed p (v ∷ vs) i h l = elim (or_true-cases (i == v) (listed i vs) l) [
  | inl e ↦ subst (λ n. p n ≡ true) (sym ((==_iff i v).0 e)) (and_true_left (p v) (all_of p vs) h)
  | inr m ↦ all_of-listed p vs i (and_true_right (p v) (all_of p vs) h) m
]

same_value : (u v : ℕ) → some u ≡ some v → u ≡ v
same_value u v e = cc

same_ok : (u v : ℕ) → ok u ≡ ok v → u ≡ v
same_ok u v e = cc

all_of_found :
    (p : String × ℕ → Bool) (es : List (String × ℕ)) (s : String) (v : ℕ)
    → all_of p es ≡ true
    → value_of s es ≡ some v
    → p (s, v) ≡ true
unfolding value_of
all_of_found p [] s v h e = absurd cc
all_of_found p ((n, u) ∷ es) s v h e = elim (Bool-cases (same_text n s)) [
  | inl t ↦
      let same = same_value u v (sym (when_true _ _ _ t) ∙ e) in
      subst (λ q. p q ≡ true) (λ i. ((same_text_iff n s).0 t i, same i))
        (and_true_left (p (n, u)) (all_of p es) h)
  | inr t ↦
      all_of_found p es s v (and_true_right (p (n, u)) (all_of p es) h)
        (sym (when_false _ _ _ t) ∙ e)
]

-- the value is that of a text
abbrev is_value : Option ℕ → ℕ → Bool
is_value none v = false
is_value (some u) v = u == v

is_value-some : (o : Option ℕ) (v : ℕ) → is_value o v ≡ true → o ≡ some v
is_value-some none v h = absurd cc
is_value-some (some u) v h = ap some ((==_iff u v).0 h)

-- A key stands for its value, and so does the key in lower case, which is the name of the value.
abbrev entry_fits : Table → String × ℕ → Bool
entry_fits e (n, v) =
    is_a e v
    && (same_text (to_lower n) (to_lower (to_string e v))
        && is_value (value_of (to_lower n) (name_to_value e)) v)

abbrev value_fits : Table → ℕ → Bool
value_fits e v = is_value (value_of (to_lower (to_string e v)) (name_to_value e)) v

fits :
    (k : Enumeration)
    → (all_of (entry_fits (table k)) (name_to_value (table k)) ≡ true)
      × (all_of (value_fits (table k)) ((table k).values) ≡ true)
unfolding table name_to_value value_of to_lower to_string is_a same_text
fits Enumeration.monitor_type = (refl, refl)
fits Enumeration.http_method = (refl, refl)
fits Enumeration.keyword_type = (refl, refl)
fits Enumeration.monitor_auth_type = (refl, refl)
fits Enumeration.port_type = (refl, refl)
fits Enumeration.post_content_type = (refl, refl)
fits Enumeration.post_type = (refl, refl)

-- the texts of a value, in any case
abbrev pub Names : Table → String → ℕ → Type 0
Names e s i = (is_a e i ≡ true) × (to_lower s ≡ to_lower (to_string e i))

module _ (k : Enumeration) where
  abbrev e : Table
  e = table k

  value_of_name :
      (i : ℕ) → is_a e i ≡ true → value_of (to_lower (to_string e i)) (name_to_value e) ≡ some i
  unfolding is_a
  value_of_name i a = is_value-some _ i (all_of-listed (value_fits e) e.values i (fits k).1 a)

  found_fits :
      (s : String) (i : ℕ) → value_of s (name_to_value e) ≡ some i → entry_fits e (s, i) ≡ true
  found_fits s i h = all_of_found (entry_fits e) (name_to_value e) s i (fits k).0 h

  found-Names : (s : String) (i : ℕ) → value_of s (name_to_value e) ≡ some i → Names e s i
  found-Names s i h =
      let f = found_fits s i h in
      (and_true_left _ _ f, (same_text_iff _ _).0 (and_true_left _ _ (and_true_right _ _ f)))

  found_lower :
      (s : String) (i : ℕ)
      → value_of s (name_to_value e) ≡ some i
      → value_of (to_lower s) (name_to_value e) ≡ some i
  found_lower s i h = is_value-some _ i (and_true_right _ _ (and_true_right _ _ (found_fits s i h)))

  exactly : (s : String) (v : ℕ) → value_of s (name_to_value e) ≡ some v → from_string e s ≡ ok v
  unfolding from_string
  exactly s v h = rw h refl

  in_lower_case :
      (s : String) (v : ℕ)
      → value_of s (name_to_value e) ≡ none
      → value_of (to_lower s) (name_to_value e) ≡ some v
      → from_string e s ≡ ok v
  unfolding from_string
  in_lower_case s v n h = rw (n, h) refl

  refused :
      (s : String) (i : ℕ)
      → value_of s (name_to_value e) ≡ none
      → value_of (to_lower s) (name_to_value e) ≡ none
      → from_string e s ≢ ok i
  unfolding from_string
  refused s i n h = rw (n, h) (λ p. absurd cc)

  read-Names : (s : String) (i : ℕ) → from_string e s ≡ ok i → Names e s i
  read-Names s i r = elim (Option-cases (value_of s (name_to_value e))) [
    | inr (v, h) ↦ subst (Names e s) (same_ok v i (sym (exactly s v h) ∙ r)) (found-Names s v h)
    | inl n ↦ elim (Option-cases (value_of (to_lower s) (name_to_value e))) [
      | inl l ↦ absurd (refused s i n l r)
      | inr (v, h) ↦
          let f = found-Names (to_lower s) v h in
          subst (Names e s) (same_ok v i (sym (in_lower_case s v n h) ∙ r))
            (f.0, sym (to_lower_twice s) ∙ f.1)
    ]
  ]

  Names-read : (s : String) (i : ℕ) → Names e s i → from_string e s ≡ ok i
  Names-read s i (a, l) =
      let low = ap (λ t. value_of t (name_to_value e)) l ∙ value_of_name i a in
      elim (Option-cases (value_of s (name_to_value e))) [
        | inl n ↦ in_lower_case s i n low
        | inr (v, h) ↦ exactly s v h ∙ ap ok (same_value v i (sym (found_lower s v h) ∙ low))
      ]

  -- The reader of an enumeration accepts a text as a value just where the value is one of the enumeration
  -- and strings.ToLower makes the same of the text as of what String writes for the value: it reads what
  -- String writes, in any mixture of cases, and takes no other text.
  pub from_string-Names : (s : String) (i : ℕ) → (from_string e s ≡ ok i) ↔ Names e s i
  from_string-Names s i = (read-Names s i, Names-read s i)
