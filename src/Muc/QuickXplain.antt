-- ===== src/Muc/QuickXplain.antt =====
-- binary_search_muc of lib/seahorn/PathBmcMuc.cc: Junker's QuickXplain over the solver's stack.
pub mod Slices
pub mod Correct
use seahorn.Prelude.{
  ℕ, zero, suc, ◌+◌, ◌-◌, ◌/◌, Bool, true, false, not, ◌&&◌, Option, none, some, List, [], ◌∷◌,
  ◌++◌, length, get_elem?, drop, ltb, ◌==◌, if◌then◌else◌,
}
use mathlib.Core.Option
use seahorn.Muc.{SolverResult, is_unsat, Solver, reset, push, pop, add_all, assertions}

-- target[begin .. end)
abbrev pub slice {ℓ} : {A : Type ℓ} → List A → ℕ → ℕ → List A
slice [] b e = []
slice (x ∷ xs) zero zero = []
slice (x ∷ xs) zero (suc e) = x ∷ slice xs zero e
slice (x ∷ xs) (suc b) zero = []
slice (x ∷ xs) (suc b) (suc e) = slice xs b e

module _ {A : Type 0} (check : List A → SolverResult) where
  abbrev pub Qx : Type 0
  Qx = ℕ → ℕ → Bool → Solver A → List A → Option (Solver A × List A)

  -- The two recursive calls, of `go`, around the middle of a range.
  unfoldable pub halves : Qx → List A → ℕ → ℕ → ℕ → Solver A → List A → Option (Solver A × List A)
  unfolding push pop add_all
  halves go target b mid e s out =
      elim (go b mid (ltb (e - mid) 1) (add_all (push s) (slice target mid e)) out) [
        | none ↦ none
        | some (s1, out1) ↦
            Option.map (λ (s2, out2). (pop s2, out2))
              (go mid e (ltb (length out1 - length out) 1)
                (add_all (push (pop s1)) (drop (length out) out1)) out1)
      ]

  -- target[begin] of a range of one element.
  unfoldable pub take_one : List A → ℕ → Solver A → List A → Option (Solver A × List A)
  take_one target b s out = Option.map (λ x. (s, out ++ x ∷ [])) (get_elem? target b)

  -- `none` is a failed assertion `begin < end`, a read past the end, or no fuel.
  unfoldable pub qx : ℕ → List A → Qx
  unfolding halves take_one
  qx zero target b e skip s out = none
  qx (suc n) target b e skip s out =
      let split = halves (qx n target) target b ((b + e) / 2) e s out in
      if not skip && is_unsat (check (assertions s))
      then some (s, out)
      else if (e - b) == 1
      then take_one target b s out
      else if ltb b e
      then split
      else none

  -- binary_search_muc::run
  unfoldable pub run : List A → List A → Option (Solver A × List A)
  unfolding qx reset
  run formula out = qx (suc (length formula)) formula 0 (length formula) false reset out
