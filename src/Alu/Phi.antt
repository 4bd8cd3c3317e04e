-- ===== src/Alu/Phi.antt =====
-- `OpSemPhiVisitor` of lib/seahorn/BvOpSem2.cc: the phi nodes of a block, on an edge to it. All incoming
-- values are read before any register is written.
use seahorn.Prelude.{ℕ, Bool, Option, List, [], ◌∷◌, if◌then◌else◌}
use seahorn.Alu.Terms.{Term}
use seahorn.Alu.Visitor.{Cmp}
use seahorn.Alu.Execute.{Value, Inst, Regs, get_operand_value, set_value, execute_block}

-- A phi node: its register, and `getIncomingValueForBlock`.
pub record Phi : Type 0 where
  pub dest : ℕ
  pub incoming : ℕ → Value

module _ (skipped : ℕ → Bool) (fresh : Regs → ℕ → Term) (ptr : Cmp → Term → Term → Term) where
  -- the first loop: the values of the phi nodes that are tracked
  unfoldable pub evaluate_incoming : ℕ → List Phi → Regs → List (Option Term)
  unfolding get_operand_value
  evaluate_incoming prev [] regs = []
  evaluate_incoming prev (p ∷ rest) regs =
      let later = evaluate_incoming prev rest regs in
      if skipped p.dest then later else get_operand_value regs (p.incoming prev) ∷ later

  -- The second loop, with the values from `ops[i]` on. An index out of range ends it.
  unfoldable pub set_phis : List Phi → List (Option Term) → Regs → Regs
  unfolding set_value
  set_phis [] ops regs = regs
  set_phis (p ∷ rest) [] regs = if skipped p.dest then set_phis rest [] regs else regs
  set_phis (p ∷ rest) (o ∷ ops) regs =
      if skipped p.dest
      then set_phis rest (o ∷ ops) regs
      else set_phis rest ops (set_value skipped fresh ptr p.dest o regs)

  unfoldable pub visit_phis : ℕ → List Phi → Regs → Regs
  unfolding evaluate_incoming set_phis
  visit_phis prev phis regs = set_phis phis (evaluate_incoming prev phis regs) regs

  -- `execEdg` on the edge from the block `src` to a block `dst`, without the path condition that `execBr`
  -- adds: the block, then the phi nodes of `dst`, and then `dst` itself if it ends in `unreachable`
  unfoldable pub execute_edge :
      ℕ → List (ℕ × Inst) → List Phi → Bool → List (ℕ × Inst) → Regs → Regs
  unfolding visit_phis execute_block
  execute_edge src block phis unreachable dst regs =
      let after = visit_phis src phis (execute_block skipped fresh ptr block regs) in
      if unreachable then execute_block skipped fresh ptr dst after else after
