-- ===== src/Reconcile/Publish/Laws.antt =====
-- What is written where a heartbeat URL is published (internal/controller/monitor_controller.go).
use uptime_robot_operator.Prelude.{
  ◌≡◌, refl, ◌∙◌, sym, ap, String, Bool, true, false, ◌&&◌, ◌||◌, not, Option, none, some, List, [],
  ◌∷◌, arith, same_text, same_text_iff, if◌then◌else◌, Bool-cases, inl, inr, and_true_left,
  and_true_right,
}
use uptime_robot_operator.Text.{is_blank}
use uptime_robot_operator.Finalizer.Annotations.{lookup, lookup-insert}
use uptime_robot_operator.Reconcile.Publish.Object.{
  remove, with_url, without_previous, needs_update, or_empty, is_there,
}

lookup-remove :
    (k j : String) (m : List (String × String))
    → lookup j (remove k m) ≡ (if same_text k j then none else lookup j m)
unfolding lookup remove
lookup-remove k j [] = ground arith
lookup-remove k j ((i, v) ∷ m) =
    ground (arith, same_text_iff k j, same_text_iff i k, same_text_iff i j, lookup-remove k j m)

present :
    (u : String) (o : Option String)
    → is_blank u ≡ false
    → same_text (or_empty o) u ≡ true
    → o ≡ some u
present u none b h = ground (arith, same_text_iff "" u, same_text_iff u "")
present u (some v) b h = ap some ((same_text_iff v u).0 h)

kept_url :
    (key url j : String) (m : List (String × String))
    → lookup key m ≡ some url
    → lookup j m ≡ (if same_text key j then some url else lookup j m)
kept_url key url j m h = elim (Bool-cases (same_text key j)) [
  | inl e ↦ rw e (ap (λ x. lookup x m) (sym ((same_text_iff key j).0 e)) ∙ h)
  | inr e ↦ rw e refl
]

lookup-with_url :
    (key url j : String) (m : List (String × String))
    → is_blank url ≡ false
    → lookup j (with_url key url m) ≡ (if same_text key j then some url else lookup j m)
unfolding with_url
lookup-with_url key url j m b = elim (Bool-cases (same_text (or_empty (lookup key m)) url)) [
  | inl e ↦ rw e (kept_url key url j m (present url (lookup key m) b e))
  | inr e ↦ rw e (lookup-insert key j url m)
]

lookup-without_previous :
    (key previous j : String) (m : List (String × String))
    → lookup j (without_previous key previous m) ≡ (
        if not (is_blank previous) && not (same_text previous key) && same_text previous j
        then none
        else lookup j m)
unfolding without_previous
lookup-without_previous key previous j m =
    elim (Bool-cases (not (is_blank previous) && not (same_text previous key))) [
      | inl e ↦ rw e (lookup-remove previous j m)
      | inr e ↦ rw e refl
    ]

abbrev refreshed : String → String → String → List (String × String) → List (String × String)
refreshed key previous url m = without_previous key previous (with_url key url m)

-- what is read at a key of the refreshed entries
abbrev pub value_after : String → String → String → String → Option String → Option String
value_after key previous url j old =
    if same_text key j
    then some url
    else if not (is_blank previous) && not (same_text previous key) && same_text previous j
    then none
    else old

reorder :
    (blank prev_key prev_j key_j : Bool) (u old : Option String)
    → (prev_j && key_j) ≡ (prev_j && key_j && prev_key)
    → (if not blank && not prev_key && prev_j then none else if key_j then u else old)
      ≡ (if key_j then u else if not blank && not prev_key && prev_j then none else old)
reorder blank prev_key prev_j key_j u old h = ground arith

same_three :
    (previous key j : String)
    → (same_text previous j && same_text key j)
      ≡ (same_text previous j && same_text key j && same_text previous key)
same_three previous key j =
    ground (arith, same_text_iff previous j, same_text_iff key j, same_text_iff previous key)

lookup-refreshed :
    (key previous url j : String) (m : List (String × String))
    → is_blank url ≡ false
    → lookup j (refreshed key previous url m) ≡ value_after key previous url j (lookup j m)
lookup-refreshed key previous url j m b =
    lookup-without_previous key previous j (with_url key url m)
    ∙ (rw (lookup-with_url key url j m b) (
        reorder (is_blank previous) (same_text previous key) (same_text previous j)
          (same_text key j) (some url) (lookup j m) (same_three previous key j)))

not_there : (o : Option String) → is_there o ≡ false → o ≡ none
not_there none h = refl
not_there (some v) h = cc

second_false : (a b : Bool) → a ≡ true → (a && b) ≡ false → b ≡ false
second_false a b p h = ground arith

gone :
    (replaced : Bool) (previous j : String) (m : List (String × String))
    → (replaced && is_there (lookup previous m)) ≡ false
    → (if replaced && same_text previous j then none else lookup j m) ≡ lookup j m
gone replaced previous j m h = elim (Bool-cases (replaced && same_text previous j)) [
  | inl e ↦
      let r = and_true_left _ _ e in
      let same = (same_text_iff previous j).0 (and_true_right replaced _ e) in
      rw e (sym (not_there (lookup previous m) (second_false _ _ r h)) ∙ ap (λ x. lookup x m) same)
  | inr e ↦ rw e refl
]

split_or : (a b : Bool) → (not a || b) ≡ false → (a ≡ true) × (b ≡ false)
split_or a b h = ground arith

with_url_same :
    (key url : String) (m : List (String × String))
    → same_text (or_empty (lookup key m)) url ≡ true
    → with_url key url m ≡ m
unfolding with_url
with_url_same key url m h = rw h refl

up_to_date :
    (key previous url j : String) (m : List (String × String))
    → needs_update key previous url m ≡ false
    → lookup j (refreshed key previous url m) ≡ lookup j m
unfolding needs_update
up_to_date key previous url j m n =
    let (same, rest) = split_or (same_text (or_empty (lookup key m)) url) _ n in
    let entries = with_url_same key url m same in
    lookup-without_previous key previous j (with_url key url m)
    ∙ (rw entries (
        gone (not (is_blank previous) && not (same_text previous key)) previous j m (
          sym (
            ap
              (λ x.
                not (is_blank previous)
                && not (same_text previous key)
                && is_there (lookup previous x))
              entries)
          ∙ rest)))

-- The entries of an object that is controlled by the Monitor, after a reconcile without an error.
abbrev pub entries_after :
    String → String → String → List (String × String) → List (String × String)
entries_after key previous url m =
    if needs_update key previous url m
    then without_previous key previous (with_url key url m)
    else m

pub lookup-entries_after :
    (key previous url j : String) (m : List (String × String))
    → is_blank url ≡ false
    → lookup j (entries_after key previous url m) ≡ value_after key previous url j (lookup j m)
lookup-entries_after key previous url j m b = elim (Bool-cases (needs_update key previous url m)) [
  | inl n ↦ rw n (lookup-refreshed key previous url j m b)
  | inr n ↦ rw n (sym (up_to_date key previous url j m n) ∙ lookup-refreshed key previous url j m b)
]
