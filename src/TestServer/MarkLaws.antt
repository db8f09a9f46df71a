-- ===== src/TestServer/MarkLaws.antt =====
-- The marks of deleted monitors, after one is put in or taken out
-- (internal/uptimerobot/uptimerobottest/server.go).
use uptime_robot_operator.Prelude.{
  ◌≡◌, refl, sym, ap, ◌∙◌, String, Bool, true, false, ◌||◌, not, List, [], ◌∷◌, keep, inl, inr,
  same_text, same_text_iff, Bool-cases, if◌then◌else◌,
}
use uptime_robot_operator.TestServer.{among}

taken_out : (t a : Bool) → (if t then false else a) ≡ (if t then false else (t || a))
taken_out true a = refl
taken_out false a = refl

none_left : (t : Bool) → false ≡ (if t then false else false)
none_left true = refl
none_left false = refl

left_in :
    (t c a : Bool)
    → (t ≡ true → c ≡ false)
    → (c || (if t then false else a)) ≡ (if t then false else (c || a))
left_in true c a f = rw (f refl) refl
left_in false c a f = refl

module _ (id i : String) where
  abbrev pub others : List String → List String
  others ds = keep (λ d. not (same_text d i)) ds

  among_out :
      (d : String) (ds : List String)
      → same_text d i ≡ true
      → among id (others (d ∷ ds)) ≡ among id (others ds)
  unfolding keep
  among_out d ds e = ap (λ b. among id (if not b then d ∷ others ds else others ds)) e

  among_in :
      (d : String) (ds : List String)
      → same_text d i ≡ false
      → among id (others (d ∷ ds)) ≡ (same_text d id || among id (others ds))
  unfolding keep
  among_in d ds e = ap (λ b. among id (if not b then d ∷ others ds else others ds)) e

  -- what is left of the marks is what is among them and is not taken out
  pub among-others :
      (ds : List String) → among id (others ds) ≡ (if same_text i id then false else among id ds)
  unfolding keep
  among-others [] = none_left (same_text i id)
  among-others (d ∷ ds) = elim (Bool-cases (same_text d i)) [
    | inl e ↦
        let same : same_text d id ≡ same_text i id =
          ap (λ t. same_text t id) ((same_text_iff d i).0 e) in
        among_out d ds e ∙ among-others ds ∙ rw same (taken_out (same_text i id) (among id ds))
    | inr e ↦
        among_in d ds e
        ∙ ap (λ b. same_text d id || b) (among-others ds)
        ∙ left_in (same_text i id) (same_text d id) (among id ds)
            (λ t. sym (ap (same_text d) ((same_text_iff i id).0 t)) ∙ e)
  ]

pub is_or : (a b : Bool) → (a || b) ≡ (if a then true else b)
is_or true b = refl
is_or false b = refl
