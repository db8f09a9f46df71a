-- ===== src/Conditions/Laws.antt =====
-- Laws of internal/controller/conditions.go: what SetCondition does to each condition of the list.
use uptime_robot_operator.Prelude.{
  String, ◌≡◌, refl, inl, inr, Bool-cases, true, false, ◌&&◌, Option, none, some, List, [], ◌∷◌,
  arith, same_text, same_text_iff, same_text_refl, if◌then◌else◌,
}
use uptime_robot_operator.Prelude.Int.{ℤ}
use uptime_robot_operator.Conditions.{
  Condition, ConditionStatus, same_status, refresh, set_condition, find_condition,
}

-- What a client reads of a condition after it is set, given what it read before.
abbrev pub written :
    String → ConditionStatus → String → String → ℤ → ℤ → Option Condition → Condition
written type status reason message generation now none = record {
  type = type;
  status = status;
  observed_generation = generation;
  last_transition_time = now;
  reason = reason;
  message = message;
}
written type status reason message generation now (some c) = record {
  type = type;
  status = status;
  observed_generation = generation;
  last_transition_time =
      if same_status c.status status && same_text c.reason reason && same_text c.message message
      then c.last_transition_time
      else now;
  reason = reason;
  message = message;
}

module _ (type : String) (status : ConditionStatus) (reason message : String) where
  -- Setting a condition of one type makes a client read, at that type, the new status, reason,
  -- message and generation, with the transition time moved only if one of the first three changed,
  -- and leaves what is read at every other type as it was.
  pub find_condition-set_condition :
      (generation now : ℤ) (cs : List Condition) (t : String)
      → find_condition t (set_condition type status reason message generation now cs) ≡ (
          if same_text type t
          then some (written type status reason message generation now (find_condition type cs))
          else find_condition t cs)
  unfolding find_condition set_condition
  find_condition-set_condition generation now [] t = refl
  find_condition-set_condition generation now (c ∷ cs) t = ground (
    arith,
    same_text_iff c.type type,
    same_text_iff c.type t,
    same_text_iff type t,
    same_text_iff c.reason reason,
    same_text_iff c.message message,
    find_condition-set_condition generation now cs t,
  )

-- No two conditions of the list have one type.
abbrev pub Distinct : List Condition → Type 0
Distinct [] = Unit
Distinct (c ∷ cs) = (find_condition c.type cs ≡ none) × Distinct cs

module _ (type : String) (status : ConditionStatus) (reason message : String) where
  type-head :
      (generation now : ℤ) (c : Condition)
      → (refresh status reason message generation now c).type ≡ c.type
  unfolding refresh
  type-head generation now c = ground arith

  still_absent :
      (generation now : ℤ) (cs : List Condition) (t : String)
      → same_text t type ≡ false
      → find_condition t cs ≡ none
      → find_condition t (set_condition type status reason message generation now cs) ≡ none
  still_absent generation now cs t e h = ground (
    arith,
    find_condition-set_condition type status reason message generation now cs t,
    same_text_iff t type,
    same_text_iff type t,
  )

  -- Setting a condition never makes a second condition of a type.
  pub set_condition-Distinct :
      (generation now : ℤ) (cs : List Condition)
      → Distinct cs
      → Distinct (set_condition type status reason message generation now cs)
  set_condition-Distinct generation now [] d = unfold set_condition find_condition in (refl, tt)
  set_condition-Distinct generation now (c ∷ cs) d = elim (Bool-cases (same_text c.type type)) [
    | inl e ↦ found e
    | inr e ↦ skip e (set_condition-Distinct generation now cs d.1)
  ]
    where
      found :
          same_text c.type type ≡ true
          → Distinct (set_condition type status reason message generation now (c ∷ cs))
      found e = unfold set_condition in rw e (rw (type-head generation now c) d.0, d.1)

      skip :
          same_text c.type type ≡ false
          → Distinct (set_condition type status reason message generation now cs)
          → Distinct (set_condition type status reason message generation now (c ∷ cs))
      skip e ds =
          let absent = still_absent generation now cs c.type e d.0 in
          unfold set_condition in rw e (absent, ds)

  -- Setting the same condition again, later, keeps the first transition time and takes over the
  -- later generation only.
  pub set_condition_again :
      (g₁ now₁ g₂ now₂ : ℤ) (cs : List Condition)
      → set_condition type status reason message g₂ now₂
          (set_condition type status reason message g₁ now₁ cs)
        ≡ set_condition type status reason message g₂ now₁ cs
  unfolding set_condition
  set_condition_again g₁ now₁ g₂ now₂ [] =
      ground (arith, same_text_refl type, same_text_refl reason, same_text_refl message)
  set_condition_again g₁ now₁ g₂ now₂ (c ∷ cs) = ground (
    arith,
    same_text_refl type,
    same_text_refl reason,
    same_text_refl message,
    same_text_iff c.type type,
    set_condition_again g₁ now₁ g₂ now₂ cs,
  )
