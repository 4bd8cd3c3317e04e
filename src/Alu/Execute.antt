-- ===== src/Alu/Execute.antt =====
-- The execution of a basic block of integer instructions: `getOperandValue`, `getConstantValue`,
-- `setValue` and the visitor's dispatch.
use seahorn.Prelude.{ℕ, ◌-◌, ◌^◌, ◌==◌, Bool, Option, none, some, if◌then◌else◌, List, [], ◌∷◌}
use seahorn.Alu.Terms.{ℤ, pos, negsuc, Term}
use seahorn.Alu.Words.{negative}
use seahorn.Alu.Ops.{si}
use seahorn.Alu.Visitor.{
  Opcode, Shift, Cmp, integer, visit_binary_operator, visit_shift, visit_icmp_inst,
  execute_trunc_inst, execute_zext_inst, execute_sext_inst,
}

-- `toMpz` of an `APInt` of `w` bits: a signed number
unfoldable pub to_mpz : ℕ → ℕ → ℤ
to_mpz w x = if negative w x then negsuc (2 ^ w - x - 1) else pos x

-- `getConstantValue` on a `ConstantInt`
unfoldable pub get_constant_value : ℕ → ℕ → Term
unfolding to_mpz si
get_constant_value w x =
    if w == 1
    then (if x == 1 then si (pos 1) 1 else si (pos 0) 1)
    else if x == 0
    then si (pos 0) w
    else if x == 1
    then si (pos 1) w
    else si (to_mpz w x) w

pub data Value : Type 0 where
  reg : ℕ → Value
  const_int : ℕ → ℕ → Value

-- the registers that have a symbolic value
abbrev pub Regs : Type 0
Regs = ℕ → Option Term

unfoldable pub get_operand_value : Regs → Value → Option Term
unfolding get_constant_value
get_operand_value regs (reg r) = regs r
get_operand_value regs (const_int w x) = some (get_constant_value w x)

-- An instruction has the width of its operands' type, a cast also that of its own type.
pub data Inst : Type 0 where
  binary_inst : Opcode → ℕ → Value → Value → Inst
  shift_inst : Shift → ℕ → Value → Value → Inst
  icmp_inst : Cmp → ℕ → Value → Value → Inst
  trunc_inst zext_inst sext_inst : ℕ → ℕ → Value → Inst

abbrev pub update : ℕ → Term → Regs → Regs
update r t regs = λ s. if s == r then some t else regs s

-- `skipped` is `isSkipped`, `fresh` the value that the store and the memory manager give to a
-- register that is havocked, and `ptr` the memory manager's comparisons.
module _ (skipped : ℕ → Bool) (fresh : Regs → ℕ → Term) (ptr : Cmp → Term → Term → Term) where
  unfoldable pub execute_inst : Inst → Regs → Option Term
  unfolding get_operand_value visit_binary_operator visit_shift visit_icmp_inst execute_trunc_inst
      execute_zext_inst execute_sext_inst
  execute_inst (binary_inst op w a b) regs =
      visit_binary_operator op w (get_operand_value regs a) (get_operand_value regs b)
  execute_inst (shift_inst s w a b) regs =
      visit_shift s (get_operand_value regs a) (get_operand_value regs b)
  execute_inst (icmp_inst p w a b) regs =
      visit_icmp_inst ptr p (integer w) (get_operand_value regs a) (get_operand_value regs b)
  execute_inst (trunc_inst v w a) regs = execute_trunc_inst (get_operand_value regs a) w
  execute_inst (zext_inst v w a) regs = execute_zext_inst (get_operand_value regs a) w v
  execute_inst (sext_inst v w a) regs = execute_sext_inst (get_operand_value regs a) w v

  unfoldable pub write : ℕ → Term → Regs → Regs
  write r t regs = if skipped r then regs else update r t regs

  unfoldable pub havoc : ℕ → Regs → Regs
  havoc r regs = if skipped r then regs else update r (fresh regs r) regs

  unfoldable pub set_value : ℕ → Option Term → Regs → Regs
  unfolding write havoc
  set_value r (some t) regs = write r t regs
  set_value r none regs = havoc r regs

  -- `intraStep` on an instruction that is no terminator: a skipped one has no effect
  unfoldable pub intra_step : ℕ → Inst → Regs → Regs
  unfolding set_value execute_inst
  intra_step r i regs = if skipped r then regs else set_value r (execute_inst i regs) regs

  -- the loop of `exec`
  unfoldable pub execute_block : List (ℕ × Inst) → Regs → Regs
  unfolding intra_step
  execute_block [] regs = regs
  execute_block ((r, i) ∷ rest) regs = execute_block rest (intra_step r i regs)
