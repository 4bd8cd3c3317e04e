-- ===== src/Muc/Assumptions/Correct.antt =====
-- The core from assumptions is one of the formulas, and simplifying it makes it minimal.
use seahorn.Prelude.{
  ℕ, zero, suc, ◌+◌, ◌<◌, ◌≡◌, refl, ◌∙◌, subst, inl, inr, Bool, true, false, some, List, [], ◌∷◌,
  ◌++◌, length, get_elem?, map, ltb, arith, Bool-cases, Option-cases,
}
use seahorn.Muc.{SolverResult, sat, unsat}
use seahorn.Muc.Sets.{
  Subset, Subset-refl, Subset_trans, Theory, IsSound, IsComplete, Critical, Critical-remove,
}
use seahorn.Muc.Deletion.{set, back, init, shrink}
use seahorn.Muc.Deletion.Correct.{Ends, Kept, shrink-Ends}
use seahorn.Muc.Assumptions.{
  Asm, formula_of, implications, assume, reduce, minimize, finish, unsat_core,
}
use seahorn.Muc.Assumptions.Guarded.{
  Refuted, guarded, In-assume, Refuted-Unsat, formulas-Subset, Critical-formulas, nothing_split,
}

module _ {A : Type 0} (t : Theory A) (f : List A) where
  module _ (check_with : List (Asm A × A) → List (Asm A) → SolverResult)
      (core_of : List (Asm A × A) → List (Asm A) → List (Asm A))
      (sound : IsSound (guarded t f) (check_with (implications f)))
      (complete : IsComplete (check_with (implications f)))
      (names : (cs : List (Asm A))
        → check_with (implications f) cs ≡ unsat
        → Subset (core_of (implications f) cs) cs × Refuted t f (core_of (implications f) cs)) where
    answers : (cs : List (Asm A)) → Refuted t f cs → check_with (implications f) cs ≡ unsat
    answers cs u = elim (complete cs) [ inl s ↦ absurd (sound.sat_sound cs s u) | inr r ↦ r ]

    reduce_next :
        (n : ℕ) (cs core : List (Asm A))
        → ltb (length core) (length cs) ≡ true
        → check_with (implications f) core ≡ unsat
        → reduce check_with core_of (suc n) (implications f) cs core
          ≡ reduce check_with core_of n (implications f) core (core_of (implications f) core)
    unfolding reduce
    reduce_next n cs core h r = simp (reduce, h, r)

    reduce_end :
        (n : ℕ) (cs core : List (Asm A))
        → ltb (length core) (length cs) ≡ false
        → reduce check_with core_of (suc n) (implications f) cs core ≡ some core
    unfolding reduce
    reduce_end n cs core h = simp (reduce, h)

    reduce_total :
        (n : ℕ) (cs core : List (Asm A))
        → length cs < n
        → Refuted t f core
        → (less : List (Asm A)) × (reduce check_with core_of n (implications f) cs core ≡ some less)
          × Subset less core
          × Refuted t f less
    reduce_total zero cs core lt u = absurd (omega (arith, lt))
    reduce_total (suc n) cs core lt u = elim (Bool-cases (ltb (length core) (length cs))) [
      | inl smaller ↦
          let r = answers core u in
          let (sub, refuted) = names core r in
          let (less, out, inside, u') =
            reduce_total n core (core_of (implications f) core) (ground (arith, smaller, lt))
              refuted in
          (
            less,
            reduce_next n cs core smaller r ∙ out,
            Subset_trans less (core_of (implications f) core) core inside sub,
            u',
          )
      | inr done ↦ (core, reduce_end n cs core done, Subset-refl core, u)
    ]

    -- Where the solver always answers, the loop is that of deletion with no further assumptions.
    minimize-shrink :
        (g : List (Asm A)) (n i : ℕ) (core : List (Asm A))
        → minimize check_with core_of n (implications f) i core
          ≡ shrink (check_with (implications f)) [] g n i core
    unfolding minimize shrink
    minimize-shrink g zero i core = refl
    minimize-shrink g (suc n) i core = elim (Option-cases (get_elem? core i)) [
      | inl missing ↦ simp (minimize, shrink, missing)
      | inr (saved, found) ↦
          let moved = set core i (back core saved) in
          elim (complete (init moved)) [
            | inl s ↦
                simp (minimize, shrink, found, s, minimize-shrink g n (i + 1) (set moved i saved))
            | inr r ↦ simp (minimize, shrink, found, r, minimize-shrink g n i (init moved))
          ]
    ]

    -- What finish makes of a core that is refuted.
    abbrev Finished : Bool → List (Asm A) → Type 0
    Finished simplify cs =
        Subset cs (assume f) × Refuted t f cs × (simplify ≡ true → Critical (guarded t f) [] cs)

    finish_plain :
        (cs : List (Asm A))
        → finish check_with core_of false (implications f) (assume f) cs ≡ some cs
    unfolding finish
    finish_plain cs = refl

    finish_reduced :
        (cs less core : List (Asm A))
        → reduce check_with core_of (suc (length (assume f))) (implications f) (assume f) cs
          ≡ some less
        → minimize check_with core_of (suc (length less)) (implications f) 0 less ≡ some core
        → finish check_with core_of true (implications f) (assume f) cs ≡ some core
    unfolding finish
    finish_reduced cs less core h k = simp (finish, h, k)

    finish_total :
        (simplify : Bool) (cs : List (Asm A))
        → Subset cs (assume f)
        → Refuted t f cs
        → (core : List (Asm A)) × (finish check_with core_of simplify (implications f) (assume f) cs
            ≡ some core)
          × Finished simplify core
    unfolding Ends Kept
    finish_total false cs sub u = (cs, finish_plain cs, (sub, u, λ h. cc))
    finish_total true cs sub u =
        let (less, reduced, inside, refuted) =
          reduce_total (suc (length (assume f))) (assume f) cs (omega arith) u in
        let (core, shrunk, k) =
          shrink-Ends (guarded t f) (check_with (implications f)) sound [] less (suc (length less))
            [] less (omega arith) (λ c. tt) in
        (
          core,
          finish_reduced cs less core reduced
              (minimize-shrink less (suc (length less)) 0 less ∙ shrunk),
          (
            Subset_trans core less (assume f) (k.part (Subset-refl less))
                (Subset_trans less cs (assume f) inside sub),
            k.refutes refuted refuted,
            λ _. k.critical complete,
          ),
        )

    unsat_core_answered :
        (simplify : Bool) (cs : List (Asm A))
        → check_with (implications f) (assume f) ≡ unsat
        → finish check_with core_of simplify
            (implications f)
            (assume f)
            (core_of (implications f) (assume f))
          ≡ some cs
        → unsat_core check_with core_of f simplify ≡ some (map formula_of cs)
    unfolding unsat_core
    unsat_core_answered simplify cs r h = simp (unsat_core, r, h)

    unsat_core_sat :
        (simplify : Bool)
        → check_with (implications f) (assume f) ≡ sat
        → unsat_core check_with core_of f simplify ≡ some []
    unfolding unsat_core
    unsat_core_sat simplify r = simp (unsat_core, r)

-- With a solver that always answers, rightly, and names a core among the assumptions that it refuted,
-- unsat_core returns a subset of the formulas, which is unsatisfiable if the formulas are; when it is
-- told to simplify, no formula of it can then be left out.
pub unsat_core_correct :
    {A : Type 0} (t : Theory A) (f : List A)
    (check_with : List (Asm A × A) → List (Asm A) → SolverResult)
    (core_of : List (Asm A × A) → List (Asm A) → List (Asm A))
    → IsSound (guarded t f) (check_with (implications f))
    → IsComplete (check_with (implications f))
    → ((cs : List (Asm A))
        → check_with (implications f) cs ≡ unsat
        → Subset (core_of (implications f) cs) cs × Refuted t f (core_of (implications f) cs))
    → (simplify : Bool)
    → (core : List A) × (unsat_core check_with core_of f simplify ≡ some core)
      × Subset core f
      × (t.Unsat f → t.Unsat core)
      × (simplify ≡ true → (xs ys : List A) (y : A) → core ≡ xs ++ y ∷ ys → ¬ t.Unsat (xs ++ ys))
unsat_core_correct t f check_with core_of sound complete names simplify =
    elim (complete (assume f)) [
      | inl s ↦ (
        [],
        unsat_core_sat t f check_with core_of sound complete names simplify s,
        λ a n. absurd n,
        λ u. absurd (sound.sat_sound (assume f) s (f, u, λ y h. (h, In-assume t f y f h))),
        λ _ xs ys y e. absurd (nothing_split xs ys y e),
      )
      | inr r ↦
          let (sub, refuted) = names (assume f) r in
          let (cs, out, (inside, u, minimal)) =
            finish_total t f check_with core_of sound complete names simplify
              (core_of (implications f) (assume f)) sub refuted in
          let within = formulas-Subset t f cs inside in
          (
            map formula_of cs,
            unsat_core_answered t f check_with core_of sound complete names simplify cs r out,
            within,
            λ _. Refuted-Unsat t f cs u,
            λ simp_on xs ys y e.
                Critical-remove t [] xs ys y
                  (subst (Critical t []) e (Critical-formulas t f [] cs within (minimal simp_on))),
          )
    ]
