-- ===== src/Muc/Assumptions.antt =====
-- muc_with_assumptions of lib/seahorn/PathBmcMuc.cc: a core from the assumptions that the solver names.
pub mod Guarded
pub mod Correct
use seahorn.Prelude.{
  ℕ, zero, suc, ◌+◌, Bool, true, false, Option, none, some, List, [], ◌∷◌, length, get_elem?, map,
  ltb, if◌then◌else◌,
}
use seahorn.Muc.{SolverResult, sat, unsat}
use seahorn.Muc.Deletion.{set, back, init}

-- The Boolean constant that stands for a formula.
pub data Asm (A : Type 0) : Type 0 where
  asm : A → Asm A

abbrev pub formula_of : {A : Type 0} → Asm A → A
formula_of (asm v) = v

-- The implications that are asserted, and the assumptions of all formulas.
abbrev pub implications : {A : Type 0} → List A → List (Asm A × A)
implications f = map (λ v. (asm v, v)) f

abbrev pub assume : {A : Type 0} → List A → List (Asm A)
assume f = map asm f

-- check_with_assumptions beside the asserted implications, and unsat_core after it.
module _ {A : Type 0} (check_with : List (Asm A × A) → List (Asm A) → SolverResult)
    (core_of : List (Asm A × A) → List (Asm A) → List (Asm A)) where
  -- The loop that asks again while the core gets smaller; `none` is no fuel or a failed assertion.
  unfoldable pub reduce : ℕ → List (Asm A × A) → List (Asm A) → List (Asm A) → Option (List (Asm A))
  reduce zero added assumptions core = none
  reduce (suc n) added assumptions core = elim (ltb (length core) (length assumptions)) [
    | false ↦ some core
    | true ↦ elim (check_with added core) [
      | unsat ↦ reduce n added core (core_of added core)
      | _ ↦ none
    ]
  ]

  unfoldable pub minimize : ℕ → List (Asm A × A) → ℕ → List (Asm A) → Option (List (Asm A))
  minimize zero added i core = none
  minimize (suc n) added i core = elim (get_elem? core i) [
    | none ↦ some core
    | some saved ↦
        let moved = set core i (back core saved) in
        elim (check_with added (init moved)) [
          | sat ↦ minimize n added (i + 1) (set moved i saved)
          | unsat ↦ minimize n added i (init moved)
          | _ ↦ none
        ]
  ]

  unfoldable pub finish :
      Bool → List (Asm A × A) → List (Asm A) → List (Asm A) → Option (List (Asm A))
  finish false added assumptions core = some core
  finish true added assumptions core =
      elim (reduce (suc (length assumptions)) added assumptions core) [
        | none ↦ none
        | some less ↦ minimize (suc (length less)) added 0 less
      ]

  -- muc_with_assumptions::unsat_core; what it pushes to `out`.
  unfoldable pub unsat_core : List A → Bool → Option (List A)
  unfolding finish reduce minimize
  unsat_core f simplify =
      let added = implications f in
      let core : Option (List (Asm A)) = elim (check_with added (assume f)) [
        | sat ↦ some []
        | unsat ↦ finish simplify added (assume f) (core_of added (assume f))
        | _ ↦ finish simplify added (assume f) []
      ] in
      elim core [ none ↦ none | some c ↦ some (map formula_of c) ]

  abbrev pub run_with_assumptions : List A → Option (List A)
  run_with_assumptions f = unsat_core f false
