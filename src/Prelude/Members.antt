-- ===== src/Prelude/Members.antt =====
-- The members of a list that a test keeps, and of a mapped list.
use mathlib.Core.List.{Memᴰ, List, [], ◌∷◌, map}
use mathlib.Core.Path.{◌≡◌, refl, sym, ap, ◌∙◌, subst}
use mathlib.Core.Logic.{◌↔◌, inl, inr}
use mathlib.Core.Bool.{Bool, true, false}
use uptime_robot_operator.Prelude.Tests.{if◌then◌else◌, Bool-cases, when_true, when_false}

module _ {ℓ} {A : Type ℓ} (p : A → Bool) where
  unfoldable pub keep : List A → List A
  keep [] = []
  keep (x ∷ xs) = let rest = keep xs in if p x then x ∷ rest else rest

  keep_head : (x : A) (xs : List A) → p x ≡ true → keep (x ∷ xs) ≡ x ∷ keep xs
  unfolding keep
  keep_head x xs e = when_true _ _ _ e

  keep_tail : (x : A) (xs : List A) → p x ≡ false → keep (x ∷ xs) ≡ keep xs
  unfolding keep
  keep_tail x xs e = when_false _ _ _ e

  abbrev Kept : A → List A → Type ℓ
  Kept a xs = Memᴰ a xs × (p a ≡ true)

  head_or_later :
      (a x : A) (xs : List A)
      → p x ≡ true
      → (Memᴰ a (keep xs) → Kept a xs)
      → Memᴰ a (x ∷ keep xs)
      → Kept a (x ∷ xs)
  head_or_later a x xs e f (Memᴰ.head q) = (Memᴰ.head q, subst (λ y. p y ≡ true) (sym q) e)
  head_or_later a x xs e f (Memᴰ.tail t) = (Memᴰ.tail (f t).0, (f t).1)

  kept : (a : A) (xs : List A) → Memᴰ a (keep xs) → Kept a xs
  unfolding keep
  kept a [] m = elim m [ ]
  kept a (x ∷ xs) m = elim (Bool-cases (p x)) [
    | inl e ↦ head_or_later a x xs e (kept a xs) (subst (Memᴰ a) (keep_head x xs e) m)
    | inr e ↦
        let later = kept a xs (subst (Memᴰ a) (keep_tail x xs e) m) in (Memᴰ.tail later.0, later.1)
  ]

  keeps : (a : A) (xs : List A) → Memᴰ a xs → p a ≡ true → Memᴰ a (keep xs)
  keeps a [] m e = elim m [ ]
  keeps a (x ∷ xs) (Memᴰ.head q) e =
      subst (Memᴰ a) (sym (keep_head x xs (sym (ap p q) ∙ e))) (Memᴰ.head q)
  keeps a (x ∷ xs) (Memᴰ.tail t) e = elim (Bool-cases (p x)) [
    | inl h ↦ subst (Memᴰ a) (sym (keep_head x xs h)) (Memᴰ.tail (keeps a xs t e))
    | inr h ↦ subst (Memᴰ a) (sym (keep_tail x xs h)) (keeps a xs t e)
  ]

  pub keep_members : (a : A) (xs : List A) → Memᴰ a (keep xs) ↔ (Memᴰ a xs × (p a ≡ true))
  keep_members a xs = (kept a xs, λ (m, e). keeps a xs m e)

module _ {ℓ κ} {A : Type ℓ} {B : Type κ} (f : A → B) where
  abbrev Image : B → List A → Type (ℓ ⊔ κ)
  Image b xs = (a : A) × Memᴰ a xs × (b ≡ f a)

  mapped : (b : B) (xs : List A) → Memᴰ b (map f xs) → Image b xs
  mapped b [] m = elim m [ ]
  mapped b (x ∷ xs) (Memᴰ.head q) = (x, Memᴰ.head refl, q)
  mapped b (x ∷ xs) (Memᴰ.tail t) =
      let later = mapped b xs t in (later.0, Memᴰ.tail later.1, later.2)

  maps : (b : B) (xs : List A) (a : A) → Memᴰ a xs → b ≡ f a → Memᴰ b (map f xs)
  maps b [] a m e = elim m [ ]
  maps b (x ∷ xs) a (Memᴰ.head q) e = Memᴰ.head (e ∙ ap f q)
  maps b (x ∷ xs) a (Memᴰ.tail t) e = Memᴰ.tail (maps b xs a t e)

  pub map_members : (b : B) (xs : List A) → Memᴰ b (map f xs) ↔ ((a : A) × Memᴰ a xs × (b ≡ f a))
  map_members b xs = (mapped b xs, λ (a, m, e). maps b xs a m e)
