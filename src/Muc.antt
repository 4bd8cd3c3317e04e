-- ===== src/Muc.antt =====
-- lib/seahorn/PathBmcMuc.cc: unsatisfiable cores. The solver is a parameter behind its assertion
-- stack (include/seahorn/Expr/Smt/Solver.hh).
pub mod Sets
pub mod QuickXplain
pub mod Deletion
pub mod Assumptions
mod Tests
use seahorn.Prelude.{Bool, true, false, List, [], ◌∷◌, ◌++◌}

-- solver::SolverResult
pub data SolverResult : Type 0 where
  sat unsat unknown error : SolverResult

abbrev pub is_unsat : SolverResult → Bool
is_unsat unsat = true
is_unsat _ = false

-- The assertions of a solver: the top frame first, after the frames that `push` opened below it.
pub record Solver (A : Type 0) : Type 0 where
  pub top : List A
  pub below : List (List A)

module _ {A : Type 0} where
  unfoldable pub reset : Solver A
  reset = record { top = []; below = [] }

  unfoldable pub push : Solver A → Solver A
  push s = record { top = []; below = s.top ∷ s.below }

  pop_to : List (List A) → Solver A → Solver A
  pop_to [] s = s
  pop_to (f ∷ fs) s = record { top = f; below = fs }

  -- A `pop` with no open frame does not occur in the code; it changes nothing here.
  unfoldable pub pop : Solver A → Solver A
  unfolding pop_to
  pop s = pop_to s.below s

  unfoldable pub add_all : Solver A → List A → Solver A
  add_all s fs = record s { top = s.top ++ fs }

  abbrev pub concat : List (List A) → List A
  concat [] = []
  concat (f ∷ fs) = concat fs ++ f

  -- All that is asserted, oldest first.
  abbrev pub assertions : Solver A → List A
  assertions s = concat s.below ++ s.top
