-- ===== src/Muc/Sets.antt =====
-- Lists of formulas as sets, unsatisfiability, and what makes a core minimal.
use seahorn.Prelude.{◌≡◌, sym, subst, ◌⊎◌, List, [], ◌∷◌, ◌++◌}
use mathlib.Core.List.{append_assoc}
use seahorn.Muc.{SolverResult, sat, unsat}
pub use seahorn.Prelude.{
  In, Subset, In-append_left, In-append_right, In-append, Subset-append, Subset-left, Subset-right,
  Subset-refl, Subset-nil, Subset-cons, Subset_one, Subset_trans, Subset_of_eq, subset_laws,
}

-- What the formulas mean: unsatisfiability, which more formulas keep.
pub record Theory (A : Type 0) : Type 1 where
  pub Unsat : List A → Type 0
  pub unsat_mono : (xs ys : List A) → Subset xs ys → Unsat xs → Unsat ys

-- The answer of the solver is right where it is `sat` or `unsat`.
pub record IsSound {A : Type 0} (t : Theory A) (check : List A → SolverResult) : Type 0 where
  pub unsat_sound : (xs : List A) → check xs ≡ unsat → t.Unsat xs
  pub sat_sound : (xs : List A) → check xs ≡ sat → ¬ t.Unsat xs

-- No timeout and no other failure.
abbrev pub IsComplete : {A : Type 0} → (List A → SolverResult) → Type 0
IsComplete {A} check = (xs : List A) → (check xs ≡ sat) ⊎ (check xs ≡ unsat)

module _ {A : Type 0} (t : Theory A) where
  open t use {Unsat, unsat_mono}

  -- Each formula of the core is needed beside the base and the rest of the core.
  abbrev pub Critical : List A → List A → Type 0
  Critical base [] = Unit
  Critical base (c ∷ cs) = (¬ Unsat (base ++ cs)) × Critical (base ++ c ∷ []) cs

  pub Critical-mono :
      (base base' cs : List A) → Subset base' base → Critical base cs → Critical base' cs
  Critical-mono base base' [] s h = tt
  Critical-mono base base' (c ∷ cs) s h = (
    λ u. h.0 (
        unsat_mono (base' ++ cs) (base ++ cs)
          (Subset-append base' cs (base ++ cs) (Subset-left base' base cs s)
            (Subset-right cs base cs (Subset-refl cs)))
          u),
    Critical-mono (base ++ c ∷ []) (base' ++ c ∷ []) cs
        (Subset-append base' (c ∷ []) (base ++ c ∷ []) (Subset-left base' base (c ∷ []) s)
          (Subset-right (c ∷ []) base (c ∷ []) (Subset-refl (c ∷ []))))
        h.1,
  )

  pub Critical-append :
      (base cs ds rest : List A)
      → Subset ds rest
      → Critical (base ++ rest) cs
      → Critical (base ++ cs) ds
      → Critical base (cs ++ ds)
  Critical-append base [] ds rest s h k =
      Critical-mono (base ++ []) base ds (Subset-left base base [] (Subset-refl base)) k
  Critical-append base (c ∷ cs) ds rest s h k = (
    λ u. h.0 (unsat_mono (base ++ (cs ++ ds)) ((base ++ rest) ++ cs) inside u),
    Critical-append (base ++ c ∷ []) cs ds rest s
        (Critical-mono ((base ++ rest) ++ c ∷ []) ((base ++ c ∷ []) ++ rest) cs shuffle h.1)
        (Critical-mono (base ++ c ∷ cs) ((base ++ c ∷ []) ++ cs) ds
          (Subset_of_eq _ _ (append_assoc base (c ∷ []) cs)) k),
  )
    where
      inside : Subset (base ++ (cs ++ ds)) ((base ++ rest) ++ cs)
      inside = search (subset_laws, s) depth 8

      shuffle : Subset ((base ++ c ∷ []) ++ rest) ((base ++ rest) ++ c ∷ [])
      shuffle = search subset_laws depth 8

  -- A critical formula cannot be left out.
  pub Critical-remove :
      (base xs ys : List A) (y : A) → Critical base (xs ++ y ∷ ys) → ¬ Unsat (base ++ (xs ++ ys))
  Critical-remove base [] ys y h u = h.0 u
  Critical-remove base (x ∷ xs) ys y h u =
      Critical-remove (base ++ x ∷ []) xs ys y h.1
        (subst Unsat (sym (append_assoc base (x ∷ []) (xs ++ ys))) u)
