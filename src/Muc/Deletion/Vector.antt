-- ===== src/Muc/Deletion/Vector.antt =====
-- The vector operations at an index that splits the vector.
use seahorn.Prelude.{
  suc, ◌≡◌, refl, ap, sym, subst, inl, inr, some, none, List, [], ◌∷◌, ◌++◌, length, get_elem?,
}
use seahorn.Muc.Sets.{In, Subset}
use seahorn.Muc.Deletion.{set, back, init}

module _ {A : Type 0} where
  pub get_elem?-split :
      (pre rest : List A) (y : A) → get_elem? (pre ++ y ∷ rest) (length pre) ≡ some y
  get_elem?-split [] rest y = refl
  get_elem?-split (x ∷ pre) rest y = get_elem?-split pre rest y

  pub get_elem?-end : (xs : List A) → get_elem? xs (length xs) ≡ none
  get_elem?-end [] = refl
  get_elem?-end (x ∷ xs) = get_elem?-end xs

  pub set-split :
      (pre rest : List A) (y v : A) → set (pre ++ y ∷ rest) (length pre) v ≡ pre ++ v ∷ rest
  set-split [] rest y v = refl
  set-split (x ∷ pre) rest y v = ap (λ r. x ∷ r) (set-split pre rest y v)

  pub back-split : (pre rest : List A) (y d : A) → back (pre ++ y ∷ rest) d ≡ back rest y
  back-split [] rest y d = refl
  back-split (x ∷ pre) rest y d = back-split pre rest y x

  init-cons :
      (x : A) (pre rest : List A) (v : A)
      → init (x ∷ (pre ++ v ∷ rest)) ≡ x ∷ init (pre ++ v ∷ rest)
  init-cons x [] rest v = refl
  init-cons x (y ∷ pre) rest v = refl

  pub init-split : (pre rest : List A) (v : A) → init (pre ++ v ∷ rest) ≡ pre ++ init (v ∷ rest)
  init-split [] rest v = refl
  init-split (x ∷ pre) rest v =
      rw (init-cons x pre rest v) (ap (λ r. x ∷ r) (init-split pre rest v))

  pub length-init : (v : A) (rest : List A) → length (init (v ∷ rest)) ≡ length rest
  length-init v [] = refl
  length-init v (r ∷ rest) = ap suc (length-init r rest)

  -- `out[i] = out.back()` and the removal of the end keep the other elements.
  pub turn : A → List A → List A
  turn y rest = init (back rest y ∷ rest)

  init-Subset : (xs : List A) → Subset (init xs) xs
  init-Subset [] a h = h
  init-Subset (x ∷ []) a h = absurd h
  init-Subset (x ∷ y ∷ ys) a (inl e) = inl e
  init-Subset (x ∷ y ∷ ys) a (inr h) = inr (init-Subset (y ∷ ys) a h)

  back-In : (xs : List A) (x : A) → In (back xs x) (x ∷ xs)
  back-In [] x = inl refl
  back-In (y ∷ xs) x = inr (back-In xs y)

  -- An element is the last one or stands before it.
  In-init : (xs : List A) (x a : A) → In a (x ∷ xs) → In a (back xs x ∷ init (x ∷ xs))
  In-init [] x a h = h
  In-init (y ∷ xs) x a (inl e) = inr (inl e)
  In-init (y ∷ xs) x a (inr h) = elim (In-init xs y a h) [ inl e ↦ inl e | inr r ↦ inr (inr r) ]

  pub turn-Subset : (y : A) (rest : List A) → Subset (turn y rest) rest
  unfolding turn
  turn-Subset y [] a h = h
  turn-Subset y (r ∷ rest) a (inl e) = subst (λ z. In z (r ∷ rest)) (sym e) (back-In rest r)
  turn-Subset y (r ∷ rest) a (inr h) = init-Subset (r ∷ rest) a h

  pub Subset-turn : (y : A) (rest : List A) → Subset rest (turn y rest)
  unfolding turn
  Subset-turn y [] a h = h
  Subset-turn y (r ∷ rest) a h = In-init rest r a h

  pub length-turn : (y : A) (rest : List A) → length (turn y rest) ≡ length rest
  unfolding turn
  length-turn y rest = length-init (back rest y) rest

  pub init-set-back :
      (pre rest : List A) (y d : A)
      → init (set (pre ++ y ∷ rest) (length pre) (back (pre ++ y ∷ rest) d)) ≡ pre ++ turn y rest
  unfolding turn
  init-set-back pre rest y d =
      rw (back-split pre rest y d)
        (rw (set-split pre rest y (back rest y)) (init-split pre rest (back rest y)))

  pub set-set-back :
      (pre rest : List A) (y d : A)
      → set (set (pre ++ y ∷ rest) (length pre) (back (pre ++ y ∷ rest) d)) (length pre) y
        ≡ pre ++ y ∷ rest
  set-set-back pre rest y d =
      rw (set-split pre rest y (back (pre ++ y ∷ rest) d)) (set-split pre rest _ y)
