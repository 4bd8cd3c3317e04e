-- ===== src/Muc/Tests.antt =====
-- A solver that refutes a set when it holds both 1 and 2, and the cores found with it.
use seahorn.Prelude.{
  ℕ, ◌≡◌, refl, Bool, true, false, ◌&&◌, some, List, [], ◌∷◌, ◌++◌, ◌==◌, if◌then◌else◌, arith,
  ◌||◌, ℕ_discrete, inl, inr, ap, subst, sym,
}
use seahorn.Muc.{SolverResult, sat, unsat, reset}
use seahorn.Muc.Sets.{In, Subset, Theory, IsSound, IsComplete}
use seahorn.Muc.QuickXplain
use seahorn.Muc.QuickXplain.Slices.{Subseq}
use seahorn.Muc.QuickXplain.Correct.{quick_xplain_correct}
use seahorn.Muc.Deletion
use seahorn.Muc.Deletion.Correct.{deletion_correct}
use seahorn.Muc.Assumptions.{Asm, asm, formula_of, implications, unsat_core}
use seahorn.Muc.Assumptions.Guarded.{Refuted, guarded}
use seahorn.Muc.Assumptions.Correct.{unsat_core_correct}

abbrev holds : ℕ → List ℕ → Bool
holds a [] = false
holds a (x ∷ xs) = a == x || holds a xs

abbrev toy_check : List ℕ → SolverResult
toy_check xs = if holds 1 xs && holds 2 xs then unsat else sat

abbrev toy : Theory ℕ
toy = record { Unsat = λ xs. In 1 xs × In 2 xs; unsat_mono = λ xs ys s u. (s 1 u.0, s 2 u.1) }

holds-In : (a : ℕ) (xs : List ℕ) → holds a xs ≡ true → In a xs
holds-In a [] h = cc
holds-In a (x ∷ xs) h = ground (arith, holds-In a xs)

In-holds : (a : ℕ) (xs : List ℕ) → In a xs → holds a xs ≡ true
In-holds a [] h = absurd h
In-holds a (x ∷ xs) h = ground (arith, In-holds a xs)

toy_check-IsSound : IsSound toy toy_check
toy_check-IsSound = record {
  unsat_sound = λ xs h. ground (arith, holds-In 1 xs, holds-In 2 xs);
  sat_sound = λ xs h u. ground (arith, In-holds 1 xs, In-holds 2 xs);
}

abbrev sample : List ℕ
sample = 3 ∷ 1 ∷ 4 ∷ 2 ∷ 5 ∷ []

quick_xplain_run : QuickXplain.run toy_check sample [] ≡ some (reset, 1 ∷ 2 ∷ [])
unfolding QuickXplain.run
quick_xplain_run = refl

deletion_run : Deletion.run toy_check (1 ∷ []) sample [] ≡ some (2 ∷ [])
unfolding Deletion.run
deletion_run = refl

quick_xplain_correct_example :
    (core : List ℕ) × (QuickXplain.run toy_check sample [] ≡ some (reset, core))
    × (Subseq core sample
        × (toy.Unsat sample → toy.Unsat core)
        × (IsComplete toy_check
            → (xs ys : List ℕ) (y : ℕ) → core ≡ xs ++ y ∷ ys
            → ¬ toy.Unsat (xs ++ ys)))
quick_xplain_correct_example =
    quick_xplain_correct toy toy_check sample [] toy_check-IsSound (λ e. cc)

deletion_correct_example :
    (core : List ℕ) × (Deletion.run toy_check (1 ∷ []) sample [] ≡ some core)
    × (Subset core sample
        × (toy.Unsat (1 ∷ [] ++ sample) → toy.Unsat (1 ∷ [] ++ core))
        × (IsComplete toy_check
            → (xs ys : List ℕ) (y : ℕ) → core ≡ xs ++ y ∷ ys
            → ¬ toy.Unsat (1 ∷ [] ++ (xs ++ ys))))
deletion_correct_example = deletion_correct toy toy_check (1 ∷ []) sample toy_check-IsSound

-- A solver that names the assumptions of 1 and 2 when it refutes them.
abbrev assumed : ℕ → List (Asm ℕ) → Bool
assumed a [] = false
assumed a (asm x ∷ cs) = a == x || assumed a cs

abbrev toy_check_with : List (Asm ℕ × ℕ) → List (Asm ℕ) → SolverResult
toy_check_with added cs = if assumed 1 cs && assumed 2 cs then unsat else sat

abbrev toy_core : List (Asm ℕ × ℕ) → List (Asm ℕ) → List (Asm ℕ)
toy_core added cs = asm 1 ∷ asm 2 ∷ []

assumed-In : (a : ℕ) (cs : List (Asm ℕ)) → assumed a cs ≡ true → In (asm a) cs
assumed-In a [] h = cc
assumed-In a (asm x ∷ cs) h = elim (ℕ_discrete a x) [
  | yes e ↦ inl (ap asm e)
  | no n ↦ inr (assumed-In a cs (ground (arith, n, h)))
]

In-assumed : (a : ℕ) (cs : List (Asm ℕ)) → In (asm a) cs → assumed a cs ≡ true
In-assumed a [] h = absurd h
In-assumed a (asm x ∷ cs) (inl e) = let same : a ≡ x = ap formula_of e in ground (arith, same)
In-assumed a (asm x ∷ cs) (inr h) = let later = In-assumed a cs h in ground (arith, later)

toy-Refuted : (cs ds : List (Asm ℕ)) → In (asm 1) ds → In (asm 2) ds → Refuted toy sample ds
toy-Refuted cs ds h k = (
  1 ∷ 2 ∷ [],
  (inl refl, inr (inl refl)),
  λ y q. elim q [
    | inl e ↦ (inr (inl e), subst (λ x. In (asm x) ds) (sym e) h)
    | inr (inl e) ↦ (inr (inr (inr (inl e))), subst (λ x. In (asm x) ds) (sym e) k)
    | inr (inr n) ↦ absurd n
  ],
)

both :
    (cs : List (Asm ℕ))
    → toy_check_with (implications sample) cs ≡ unsat
    → In (asm 1) cs × In (asm 2) cs
both cs h = (assumed-In 1 cs (ground (arith, h)), assumed-In 2 cs (ground (arith, h)))

toy_with-IsSound : IsSound (guarded toy sample) (toy_check_with (implications sample))
toy_with-IsSound = record {
  unsat_sound = λ cs h. toy-Refuted cs cs ((both cs h).0) ((both cs h).1);
  sat_sound = λ cs h u.
      let one = In-assumed 1 cs ((u.2 1 (u.1.0)).1) in
      let two = In-assumed 2 cs ((u.2 2 (u.1.1)).1) in ground (arith, one, two);
}

toy_with-IsComplete : IsComplete (toy_check_with (implications sample))
toy_with-IsComplete cs = ground arith

unsat_core_run : unsat_core toy_check_with toy_core sample true ≡ some (1 ∷ 2 ∷ [])
unfolding unsat_core
unsat_core_run = refl

unsat_core_correct_example :
    (core : List ℕ) × (unsat_core toy_check_with toy_core sample true ≡ some core)
    × Subset core sample
    × (toy.Unsat sample → toy.Unsat core)
    × (◌≡◌ {A = Bool} true true
        → (xs ys : List ℕ) (y : ℕ) → core ≡ xs ++ y ∷ ys
        → ¬ toy.Unsat (xs ++ ys))
unsat_core_correct_example =
    unsat_core_correct toy sample toy_check_with toy_core toy_with-IsSound toy_with-IsComplete
      (λ cs h. (
        λ a q. elim q [
          | inl e ↦ subst (λ x. In x cs) (sym e) ((both cs h).0)
          | inr (inl e) ↦ subst (λ x. In x cs) (sym e) ((both cs h).1)
          | inr (inr n) ↦ absurd n
        ],
        toy-Refuted cs (toy_core (implications sample) cs) (inl refl) (inr (inl refl)),
      ))
      true
