-- ===== src/Muc/Deletion.antt =====
-- deletion_muc of lib/seahorn/PathBmcMuc.cc: drop one formula at a time while the rest is refuted.
pub mod Vector
pub mod Correct
use seahorn.Prelude.{ℕ, zero, suc, ◌+◌, Option, none, some, List, [], ◌∷◌, ◌++◌, length, get_elem?}
use seahorn.Muc.{SolverResult, sat, unsat}

module _ {ℓ} {A : Type ℓ} where
  -- out[i] = v
  abbrev pub set : List A → ℕ → A → List A
  set [] i v = []
  set (x ∷ xs) zero v = v ∷ xs
  set (x ∷ xs) (suc i) v = x ∷ set xs i v

  -- out.back(), or the default on an empty vector, where the code does not call it.
  abbrev pub back : List A → A → A
  back [] d = d
  back (x ∷ xs) d = back xs x

  -- out.pop_back()
  abbrev pub init : List A → List A
  init [] = []
  init (x ∷ []) = []
  init (x ∷ y ∷ ys) = x ∷ init (y ∷ ys)

module _ {A : Type 0} (check : List A → SolverResult) (assumptions f : List A) where
  -- The loop over `out` from index `i`: it ends where `i` is no index of `out`. `none` is no fuel.
  unfoldable pub shrink : ℕ → ℕ → List A → Option (List A)
  shrink zero i out = none
  shrink (suc n) i out = elim (get_elem? out i) [
    | none ↦ some out
    | some saved ↦
        let moved = set out i (back out saved) in
        elim (check (assumptions ++ init moved)) [
          | sat ↦ shrink n (i + 1) (set moved i saved)
          | unsat ↦ shrink n i (init moved)
          | _ ↦ some f
        ]
  ]

  -- deletion_muc::run, after the assertion that the formulas are refuted.
  unfoldable pub run : List A → Option (List A)
  unfolding shrink
  run out = shrink (suc (length (out ++ f))) 0 (out ++ f)
