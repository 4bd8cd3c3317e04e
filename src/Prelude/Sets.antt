-- ===== src/Prelude/Sets.antt =====
-- Membership and inclusion of lists, by recursion.
use mathlib.Core.Path.{◌≡◌, subst}
use mathlib.Core.Logic.{◌⊎◌, inl, inr}
use mathlib.Core.List.{List, [], ◌∷◌, ◌++◌}

module _ {A : Type 0} where
  abbrev pub In : A → List A → Type 0
  In a [] = ⊥
  In a (x ∷ xs) = (a ≡ x) ⊎ In a xs

  abbrev pub Subset : List A → List A → Type 0
  Subset xs ys = (a : A) → In a xs → In a ys

  -- No element stands twice.
  abbrev pub Distinct : List A → Type 0
  Distinct [] = Unit
  Distinct (x ∷ xs) = (¬ In x xs) × Distinct xs

  pub In-append_left : (a : A) (xs ys : List A) → In a xs → In a (xs ++ ys)
  In-append_left a (x ∷ xs) ys (inl e) = inl e
  In-append_left a (x ∷ xs) ys (inr h) = inr (In-append_left a xs ys h)
  In-append_left a [] ys h = absurd h

  pub In-append_right : (a : A) (xs ys : List A) → In a ys → In a (xs ++ ys)
  In-append_right a [] ys h = h
  In-append_right a (x ∷ xs) ys h = inr (In-append_right a xs ys h)

  pub In-append : (a : A) (xs ys : List A) → In a (xs ++ ys) → In a xs ⊎ In a ys
  In-append a [] ys h = inr h
  In-append a (x ∷ xs) ys (inl e) = inl (inl e)
  In-append a (x ∷ xs) ys (inr h) = elim (In-append a xs ys h) [
    | inl p ↦ inl (inr p)
    | inr q ↦ inr q
  ]

  -- Both parts of a union lie in a set.
  pub Subset-append : (xs ys zs : List A) → Subset xs zs → Subset ys zs → Subset (xs ++ ys) zs
  Subset-append xs ys zs p q a h = elim (In-append a xs ys h) [ inl l ↦ p a l | inr r ↦ q a r ]

  pub Subset-left : (xs ys zs : List A) → Subset xs ys → Subset xs (ys ++ zs)
  Subset-left xs ys zs p a h = In-append_left a ys zs (p a h)

  pub Subset-right : (xs ys zs : List A) → Subset xs zs → Subset xs (ys ++ zs)
  Subset-right xs ys zs p a h = In-append_right a ys zs (p a h)

  pub Subset-refl : (xs : List A) → Subset xs xs
  Subset-refl xs a h = h

  pub Subset-nil : (xs : List A) → Subset [] xs
  Subset-nil xs a h = absurd h

  pub Subset-cons : (x : A) (xs : List A) → Subset xs (x ∷ xs)
  Subset-cons x xs a h = inr h

  pub Subset_one : (x : A) (xs : List A) → Subset (x ∷ []) (x ∷ xs)
  Subset_one x xs a (inl e) = inl e
  Subset_one x xs a (inr h) = absurd h

  pub Subset_trans : (xs ys zs : List A) → Subset xs ys → Subset ys zs → Subset xs zs
  Subset_trans xs ys zs p q a h = q a (p a h)

  pub Subset_of_eq : (xs ys : List A) → xs ≡ ys → Subset xs ys
  Subset_of_eq xs ys e a h = subst (In a) e h

pub ruleset subset_laws =
    (Subset-append, Subset-left, Subset-right, Subset-refl, Subset-nil, Subset-cons, Subset_one)
