-- ===== src/Admission/Laws.antt =====
-- What the admission keeps true of the resources that are stored, where each sees the store as it is,
-- and what it does not where two are under way (api/v1alpha1/account_webhook.go and
-- contact_webhook.go, with GetAccount of internal/controller/account_controller.go).
use uptime_robot_operator.Prelude.{
  ◌≡◌, refl, ap, ◌≤◌, String, true, false, none, List, [], ◌∷◌, arith, length, same_text,
  if◌then◌else◌, Bool-cases, inl, inr,
}
use uptime_robot_operator.Failure.{Failure, ok, err}
use uptime_robot_operator.Admission.{
  Resource, Kind, default_count, counted, validate_unique_default,
}
use uptime_robot_operator.Reconcile.Access.{only_default}

-- The API server keeps one resource for each name: a write replaces it.
abbrev pub without : String → List Resource → List Resource
without name [] = []
without name (r ∷ store) =
    let rest = without name store in if same_text r.name name then rest else r ∷ rest

abbrev pub put : Resource → List Resource → List Resource
put r store = r ∷ without r.name store

-- the resources that a list with the field selector spec.isDefault=true has
abbrev pub defaults : List Resource → List Resource
defaults [] = []
defaults (r ∷ store) = let rest = defaults store in if r.is_default then r ∷ rest else rest

-- One request after another: a write that is admitted on the store as it is, or a deletion.
pub data Admitted (kind : Kind) : List Resource → List Resource → Type 0 where
  written :
      {store : List Resource} (r : Resource)
      → validate_unique_default kind r (ok store) ≡ none
      → Admitted kind store (put r store)
  deleted : {store : List Resource} (name : String) → Admitted kind store (without name store)

pub data Reachable (kind : Kind) : List Resource → Type 0 where
  empty : Reachable kind []
  after :
      {store next : List Resource}
      → Reachable kind store
      → Admitted kind store next
      → Reachable kind next

length-without :
    (name : String) (store : List Resource)
    → length (defaults (without name store)) ≡ default_count name store
unfolding default_count
length-without name [] = refl
length-without name (r ∷ store) = ground (arith, length-without name store)

default_count-le :
    (name : String) (store : List Resource) → default_count name store ≤ length (defaults store)
unfolding default_count
default_count-le name [] = omega arith
default_count-le name (r ∷ store) = ground (arith, default_count-le name store)

admitted_count :
    (kind : Kind) (r : Resource) (store : List Resource)
    → r.is_default ≡ true
    → validate_unique_default kind r (ok store) ≡ none
    → default_count r.name store ≡ 0
unfolding validate_unique_default counted
admitted_count kind r store d h = ground arith

put_one :
    (kind : Kind) (r : Resource) (store : List Resource)
    → validate_unique_default kind r (ok store) ≡ none
    → length (defaults store) ≤ 1
    → length (defaults (put r store)) ≤ 1
put_one kind r store h n = elim (Bool-cases r.is_default) [
  | inl d ↦
      let zero_others = admitted_count kind r store d h in
      rw d (omega (arith, length-without r.name store, zero_others))
  | inr d ↦ rw d (omega (arith, length-without r.name store, default_count-le r.name store, n))
]

-- Whatever writes are admitted one after another, and whatever is deleted between them, at most one of
-- the resources that are stored is the default.
pub defaults_le_one :
    (kind : Kind) {store : List Resource} → Reachable kind store → length (defaults store) ≤ 1
defaults_le_one kind empty = omega arith
defaults_le_one kind (after {store} p (written r h)) =
    put_one kind r store h (defaults_le_one kind p)
defaults_le_one kind (after {store} p (deleted name)) =
    omega (arith, length-without name store, default_count-le name store, defaults_le_one kind p)

no_defaults :
    (name : String) (store : List Resource) → defaults store ≡ [] → default_count name store ≡ 0
no_defaults name store h = omega (arith, default_count-le name store, ap length h)

-- Two defaults of different names, each of which is admitted on a store with no default before the other
-- is written, are both admitted; after both writes the search for the default fails with
-- "more than 1 default".
pub admission_race :
    (kind : Kind) (a b : Resource) (store : List Resource) (none_there several : Failure)
    → a.is_default ≡ true
    → b.is_default ≡ true
    → same_text a.name b.name ≡ false
    → defaults store ≡ []
    → (validate_unique_default kind a (ok store) ≡ none)
      × (validate_unique_default kind b (ok store) ≡ none)
      × (only_default none_there several (defaults (put b (put a store))) ≡ err several)
unfolding validate_unique_default counted only_default
admission_race kind a b store none_there several da db d h = (
  rw da (rw (no_defaults a.name store h) refl),
  rw db (rw (no_defaults b.name store h) refl),
  rw db (rw d (rw da refl)),
)
