-- ===== src/Api/Account/Laws.antt =====
-- Which contact FindContactID finds (internal/uptimerobot/client.go).
use uptime_robot_operator.Prelude.{
  ◌≡◌, refl, String, true, false, Option, none, some, List, [], ◌∷◌, Bool-cases, inl, inr, ap,
  same_text, same_text_iff, ◌⊎◌, arith,
}
use uptime_robot_operator.Strconv.{itoa}
use uptime_robot_operator.Failure.{Result, ok, err}
use uptime_robot_operator.Api.Wire.{AlertContactResponse}
use uptime_robot_operator.Api.Account.{contact_not_found, is_named, first_named}

-- What a search for a name comes to: a contact of that name before which no other has it, or the error
-- that says that none has it.
pub data Search (name : String) : List AlertContactResponse → Result String → Type 0 where
  nowhere : Search name [] (err contact_not_found)
  here :
      {c : AlertContactResponse} {cs : List AlertContactResponse}
      → c.friendly_name ≡ some name
      → Search name (c ∷ cs) (ok (itoa c.id))
  later :
      {c : AlertContactResponse} {cs : List AlertContactResponse} {r : Result String}
      → ¬ (c.friendly_name ≡ some name)
      → Search name cs r
      → Search name (c ∷ cs) r

named_iff :
    (name : String) (o : Option String)
    → ((is_named name o ≡ true) × (o ≡ some name)) ⊎ ((is_named name o ≡ false) × ¬ (o ≡ some name))
named_iff name none = inr (refl, λ e. cc)
named_iff name (some n) = elim (Bool-cases (same_text n name)) [
  | inl e ↦ inl (e, ap some ((same_text_iff n name).0 e))
  | inr e ↦ inr (e, λ (q : some n ≡ some name). ground (arith, same_text_iff n name))
]

pub first_named-Search :
    (name : String) (cs : List AlertContactResponse) → Search name cs (first_named name cs)
unfolding first_named
first_named-Search name [] = nowhere
first_named-Search name (c ∷ cs) = elim (named_iff name c.friendly_name) [
  | inl h ↦ rw h.0 (here h.1)
  | inr h ↦ rw h.0 (later h.1 (first_named-Search name cs))
]
