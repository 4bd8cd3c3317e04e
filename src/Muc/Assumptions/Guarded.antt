-- ===== src/Muc/Assumptions/Guarded.antt =====
-- Formulas that are refuted because their constants are assumed.
use seahorn.Prelude.{◌≡◌, refl, sym, ap, subst, inl, inr, List, [], ◌∷◌, ◌++◌, map}
use seahorn.Muc.Sets.{In, Subset, Theory, Critical, subset_laws}
use mathlib.Core.List.{append_assoc}
use seahorn.Muc.Assumptions.{Asm, asm, formula_of, assume}

module _ {A : Type 0} (t : Theory A) (f : List A) where
  open t use {Unsat, unsat_mono}

  -- Formulas of `f` that are refuted, and whose constants are all assumed.
  abbrev pub Refuted : List (Asm A) → Type 0
  Refuted cs = (ys : List A) × Unsat ys × ((y : A) → In y ys → In y f × In (asm y) cs)

  abbrev pub guarded : Theory (Asm A)
  guarded = record {
    Unsat = Refuted;
    unsat_mono = λ xs ys sub u. (u.0, u.1, λ y h. ((u.2 y h).0, sub (asm y) ((u.2 y h).1)));
  }

  pub In-assume : (y : A) (g : List A) → In y g → In (asm y) (assume g)
  In-assume y [] h = absurd h
  In-assume y (x ∷ g) (inl e) = inl (ap asm e)
  In-assume y (x ∷ g) (inr h) = inr (In-assume y g h)

  pub assume-In : (c : Asm A) (g : List A) → In c (assume g) → In (formula_of c) g
  assume-In c [] h = absurd h
  assume-In c (x ∷ g) (inl e) = inl (ap formula_of e)
  assume-In c (x ∷ g) (inr h) = inr (assume-In c g h)

  In-formulas : (c : Asm A) (cs : List (Asm A)) → In c cs → In (formula_of c) (map formula_of cs)
  In-formulas c [] h = absurd h
  In-formulas c (x ∷ cs) (inl e) = inl (ap formula_of e)
  In-formulas c (x ∷ cs) (inr h) = inr (In-formulas c cs h)

  formulas-In : (y : A) (cs : List (Asm A)) → In y (map formula_of cs) → In (asm y) cs
  formulas-In y [] h = absurd h
  formulas-In y (asm x ∷ cs) (inl e) = inl (ap asm e)
  formulas-In y (asm x ∷ cs) (inr h) = inr (formulas-In y cs h)

  pub Refuted-Unsat : (cs : List (Asm A)) → Refuted cs → Unsat (map formula_of cs)
  Refuted-Unsat cs (ys, u, inside) =
      unsat_mono ys (map formula_of cs) (λ y h. In-formulas (asm y) cs ((inside y h).1)) u

  Unsat-Refuted :
      (cs : List (Asm A)) → Subset (map formula_of cs) f → Unsat (map formula_of cs) → Refuted cs
  Unsat-Refuted cs sub u = (map formula_of cs, u, λ y h. (sub y h, formulas-In y cs h))

  map-append :
      (xs ys : List (Asm A)) → map formula_of (xs ++ ys) ≡ map formula_of xs ++ map formula_of ys
  map-append [] ys = refl
  map-append (x ∷ xs) ys = ap (λ r. formula_of x ∷ r) (map-append xs ys)

  all_of : (g : List A) → map formula_of (assume g) ≡ g
  all_of [] = refl
  all_of (x ∷ g) = ap (λ r. x ∷ r) (all_of g)

  pub formulas-Subset : (cs : List (Asm A)) → Subset cs (assume f) → Subset (map formula_of cs) f
  formulas-Subset cs sub y h = assume-In (asm y) f (sub (asm y) (formulas-In y cs h))

  pub Critical-formulas :
      (base cs : List (Asm A))
      → Subset (map formula_of (base ++ cs)) f
      → Critical guarded base cs
      → Critical t (map formula_of base) (map formula_of cs)
  Critical-formulas base [] sub h = tt
  Critical-formulas base (c ∷ cs) sub h = (
    λ u. h.0 (
        Unsat-Refuted (base ++ cs) (λ y q. sub y (fewer y q))
          (subst Unsat (sym (map-append base cs)) u)),
    subst (λ b. Critical t b (map formula_of cs)) (map-append base (c ∷ []))
        (Critical-formulas (base ++ c ∷ []) cs
          (subst (λ r. Subset (map formula_of r) f) (sym (append_assoc base (c ∷ []) cs)) sub) h.1),
  )
    where
      less : Subset (base ++ cs) (base ++ c ∷ cs)
      less = search subset_laws depth 8

      fewer : Subset (map formula_of (base ++ cs)) (map formula_of (base ++ c ∷ cs))
      fewer y q = In-formulas (asm y) (base ++ c ∷ cs) (less (asm y) (formulas-In y (base ++ cs) q))

pub nothing_split : {A : Type 0} (xs ys : List A) (y : A) → [] ≡ xs ++ y ∷ ys → ⊥
nothing_split [] ys y e = cc
nothing_split (x ∷ xs) ys y e = cc
