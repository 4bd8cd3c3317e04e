-- ===== src/Muc/Deletion/Correct.antt =====
-- The deletion loop ends with a core, which is minimal if the solver always answers.
use seahorn.Prelude.{
  ℕ, zero, suc, ◌+◌, ◌<◌, ◌≡◌, refl, ◌∙◌, subst, ◌⊎◌, inl, inr, some, List, [], ◌∷◌, ◌++◌, length,
  arith, length-append,
}
use mathlib.Core.List.{append-nil, append_assoc}
use seahorn.Muc.{SolverResult, sat, unsat, unknown, error}
use seahorn.Muc.Sets.{
  Subset, Subset-refl, Subset_trans, subset_laws, Theory, IsSound, IsComplete, Critical,
  Critical-append, Critical-mono, Critical-remove,
}
use seahorn.Muc.Deletion.{shrink, run}
use seahorn.Muc.Deletion.Vector.{
  get_elem?-split, get_elem?-end, turn, turn-Subset, Subset-turn, length-turn, init-set-back,
  set-set-back,
}

data Verdict (r : SolverResult) : Type 0 where
  is_sat : r ≡ sat → Verdict r
  is_unsat : r ≡ unsat → Verdict r
  is_failure : (r ≡ unknown) ⊎ (r ≡ error) → Verdict r

verdict : (r : SolverResult) → Verdict r
verdict sat = is_sat refl
verdict unsat = is_unsat refl
verdict unknown = is_failure (inl refl)
verdict error = is_failure (inr refl)

module _ {A : Type 0} (t : Theory A) (check : List A → SolverResult) (sound : IsSound t check)
    (assumptions f : List A) where
  open t use {Unsat, unsat_mono}

  never_fails : (xs : List A) → IsComplete check → (check xs ≡ unknown) ⊎ (check xs ≡ error) → ⊥
  never_fails xs complete r = ground (arith, complete xs)

  -- What the loop delivers from the formulas `out`.
  pub record IsCore (out core : List A) : Type 0 where
    pub part : Subset out f → Subset core f
    pub refutes :
        Unsat (assumptions ++ f) → Unsat (assumptions ++ out) → Unsat (assumptions ++ core)
    pub critical : IsComplete check → Critical t assumptions core

  -- The formulas before the index were found critical beside those from it on.
  unfoldable pub Kept : List A → List A → Type 0
  Kept pre rest = IsComplete check → Critical t (assumptions ++ rest) pre

  unfoldable pub Ends : ℕ → List A → List A → Type 0
  Ends n pre rest =
      (core : List A) × (shrink check assumptions f n (length pre) (pre ++ rest) ≡ some core)
      × IsCore (pre ++ rest) core

  -- The formula at the index is needed: it joins those before.
  keep_step :
      (pre rest : List A) (y : A)
      → check (assumptions ++ (pre ++ turn y rest)) ≡ sat
      → Kept pre (y ∷ rest)
      → Kept (pre ++ y ∷ []) rest
  unfolding Kept
  keep_step pre rest y answer kept complete =
      Critical-append t (assumptions ++ rest) pre (y ∷ []) (y ∷ []) (Subset-refl (y ∷ []))
        (Critical-mono t (assumptions ++ y ∷ rest) ((assumptions ++ rest) ++ y ∷ []) pre regroup
          (kept complete))
        (
          λ u. sound.sat_sound (assumptions ++ (pre ++ turn y rest)) answer (
              unsat_mono (((assumptions ++ rest) ++ pre) ++ [])
                (assumptions ++ (pre ++ turn y rest)) inside u),
          tt,
        )
    where
      regroup : Subset ((assumptions ++ rest) ++ y ∷ []) (assumptions ++ y ∷ rest)
      regroup = search subset_laws depth 8

      inside : Subset (((assumptions ++ rest) ++ pre) ++ []) (assumptions ++ (pre ++ turn y rest))
      inside = search (subset_laws, Subset-turn y rest) depth 8

  -- The formula at the index is dropped.
  drop_step : (pre rest : List A) (y : A) → Kept pre (y ∷ rest) → Kept pre (turn y rest)
  unfolding Kept
  drop_step pre rest y kept complete =
      Critical-mono t (assumptions ++ y ∷ rest) (assumptions ++ turn y rest) pre inside
        (kept complete)
    where
      dropped : Subset (turn y rest) (y ∷ rest)
      dropped a h = inr (turn-Subset y rest a h)

      inside : Subset (assumptions ++ turn y rest) (assumptions ++ y ∷ rest)
      inside = search (subset_laws, dropped) depth 8

  pre_turn-Subset : (pre rest : List A) (y : A) → Subset (pre ++ turn y rest) (pre ++ y ∷ rest)
  pre_turn-Subset pre rest y = search (subset_laws, dropped) depth 8
    where
      dropped : Subset (turn y rest) (y ∷ rest)
      dropped a h = inr (turn-Subset y rest a h)

  module _ (n : ℕ) (pre rest : List A) (y : A) where
    abbrev Answer : SolverResult → Type 0
    Answer r = check (assumptions ++ (pre ++ turn y rest)) ≡ r

    shrink_sat :
        Answer sat
        → shrink check assumptions f (suc n) (length pre) (pre ++ y ∷ rest)
          ≡ shrink check assumptions f n (length pre + 1) (pre ++ y ∷ rest)
    unfolding shrink
    shrink_sat r = simp (
      shrink,
      get_elem?-split pre rest y,
      init-set-back pre rest y y,
      r,
      set-set-back pre rest y y,
    )

    shrink_unsat :
        Answer unsat
        → shrink check assumptions f (suc n) (length pre) (pre ++ y ∷ rest)
          ≡ shrink check assumptions f n (length pre) (pre ++ turn y rest)
    unfolding shrink
    shrink_unsat r = simp (shrink, get_elem?-split pre rest y, init-set-back pre rest y y, r)

    shrink_failure :
        (r : SolverResult)
        → Answer r
        → (r ≡ unknown) ⊎ (r ≡ error)
        → shrink check assumptions f (suc n) (length pre) (pre ++ y ∷ rest) ≡ some f
    unfolding shrink
    shrink_failure r a (inl e) =
        simp (shrink, get_elem?-split pre rest y, init-set-back pre rest y y, a, e)
    shrink_failure r a (inr e) =
        simp (shrink, get_elem?-split pre rest y, init-set-back pre rest y y, a, e)

  shrink_end :
      (n : ℕ) (pre : List A)
      → shrink check assumptions f (suc n) (length pre) (pre ++ []) ≡ some pre
  unfolding shrink
  shrink_end n pre = simp (shrink, append-nil, get_elem?-end)

  length-next : (pre : List A) (y : A) → length (pre ++ y ∷ []) ≡ length pre + 1
  length-next pre y = omega (arith, length-append pre (y ∷ []))

  pub shrink-Ends : (n : ℕ) (pre rest : List A) → length rest < n → Kept pre rest → Ends n pre rest
  unfolding Ends Kept
  shrink-Ends zero pre rest h kept = absurd (omega arith)
  shrink-Ends (suc n) pre [] h kept = (
    pre,
    shrink_end n pre,
    record {
      part = λ s. Subset_trans pre (pre ++ []) f (search subset_laws) s;
      refutes = λ u v. subst (λ r. Unsat (assumptions ++ r)) (append-nil pre) v;
      critical = λ complete. subst (λ r. Critical t r pre) (append-nil assumptions) (kept complete);
    },
  )
  shrink-Ends (suc n) pre (y ∷ rest) h kept =
      elim (verdict (check (assumptions ++ (pre ++ turn y rest)))) [
        | is_sat r ↦
            let (core, e, k) =
              shrink-Ends n (pre ++ y ∷ []) rest (omega arith) (keep_step pre rest y r kept) in
            let whole : (pre ++ y ∷ []) ++ rest ≡ pre ++ y ∷ rest =
              append_assoc pre (y ∷ []) rest in
            (
              core,
              shrink_sat n pre rest y r ∙ (rw (← length-next pre y, ← whole) e),
              subst (λ out. IsCore out core) whole k,
            )
        | is_unsat r ↦
            let (core, e, k) =
              shrink-Ends n pre (turn y rest) (omega (arith, length-turn y rest))
                (drop_step pre rest y kept) in
            (
              core,
              shrink_unsat n pre rest y r ∙ e,
              record {
                part = λ s. k.part (Subset_trans _ _ f (pre_turn-Subset pre rest y) s);
                refutes =
                    λ u v. k.refutes u (sound.unsat_sound (assumptions ++ (pre ++ turn y rest)) r);
                critical = k.critical;
              },
            )
        | is_failure r ↦ (
          f,
          shrink_failure n pre rest y _ refl r,
          record {
            part = λ s. Subset-refl f;
            refutes = λ u v. u;
            critical = λ complete. absurd (never_fails _ complete r);
          },
        )
      ]

-- Deletion from an empty `out` returns a core of the formulas: a subset of them that, beside the
-- assumptions, is unsatisfiable if all of them are, timeouts or not. If the solver always answers, no
-- formula of the core can be left out. The solver's answers are right where it gives one.
pub deletion_correct :
    {A : Type 0} (t : Theory A) (check : List A → SolverResult) (assumptions f : List A)
    → IsSound t check
    → (core : List A) × (run check assumptions f [] ≡ some core)
      × (Subset core f
          × (t.Unsat (assumptions ++ f) → t.Unsat (assumptions ++ core))
          × (IsComplete check
              → (xs ys : List A) (y : A) → core ≡ xs ++ y ∷ ys
              → ¬ t.Unsat (assumptions ++ (xs ++ ys))))
unfolding run Ends Kept
deletion_correct t check assumptions f sound =
    let (core, e, k) =
      shrink-Ends t check sound assumptions f (suc (length f)) [] f (omega arith)
        (λ complete. tt) in
    (
      core,
      e,
      (
        k.part (Subset-refl f),
        λ u. k.refutes u u,
        λ complete xs ys y eq.
            Critical-remove t assumptions xs ys y
              (subst (Critical t assumptions) eq (k.critical complete)),
      ),
    )
