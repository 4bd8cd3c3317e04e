-- ===== src/Alu/Simulation.antt =====
-- The symbolic execution of a block of integer instructions follows the machine.
use seahorn.Prelude.{
  ℕ, ◌%◌, ◌^◌, ◌≤◌, ◌<◌, ◌≡◌, Bool, true, false, ◌==◌, if◌then◌else◌, Option, none, some, List, [],
  ◌∷◌, In,
}
use seahorn.Alu.Terms.{Term, fls}
use seahorn.Alu.Compare.{comparable}
use seahorn.Alu.Words.{bit}
use seahorn.Alu.Meaning.{Env, sext_value, Denotes}
use seahorn.Alu.Ops.{int_ty}
use seahorn.Alu.Visitor.{Opcode, Shift, Cmp}
use seahorn.Alu.Machine.{machine_binary, machine_shift, machine_icmp}
use seahorn.Alu.Binary.{has_width}
use seahorn.Alu.Execute.{
  Value, reg, const_int, Regs, Inst, binary_inst, shift_inst, icmp_inst, trunc_inst, zext_inst,
  sext_inst,
}

-- the values of the registers in a run of the program
abbrev pub Registers : Type 0
Registers = ℕ → ℕ

abbrev pub operand : Registers → Value → ℕ
operand σ (reg r) = σ r
operand σ (const_int w x) = x

unfoldable pub machine_inst : Inst → Registers → Option ℕ
unfolding machine_binary machine_shift machine_icmp sext_value
machine_inst (binary_inst op w a b) σ = machine_binary op w (operand σ a) (operand σ b)
machine_inst (shift_inst s w a b) σ = machine_shift s w (operand σ a) (operand σ b)
machine_inst (icmp_inst p w a b) σ = some (bit (machine_icmp p w (operand σ a) (operand σ b)))
machine_inst (trunc_inst v w a) σ = some (operand σ a % 2 ^ w)
machine_inst (zext_inst v w a) σ = some (operand σ a)
machine_inst (sext_inst v w a) σ = some (sext_value v w (operand σ a))

-- a block has no result where an instruction of it is undefined
unfoldable pub machine_block : List (ℕ × Inst) → Registers → Option Registers
unfolding machine_inst
machine_block [] σ = some σ
machine_block ((r, i) ∷ rest) σ = elim (machine_inst i σ) [
  | none ↦ none
  | some z ↦ machine_block rest (λ s. if s == r then z else σ s)
]

module _ (ty : ℕ → ℕ) (ds : List ℕ) where
  -- an operand of `w` bits: a register that is defined, or a constant
  pub data Operand : Value → ℕ → Type 0 where
    is_reg : (r : ℕ) → In r ds → Operand (reg r) (ty r)
    is_const : (w x : ℕ) → x < 2 ^ w → Operand (const_int w x) w

  -- an instruction whose result has `k` bits, on the widths that the unit supports
  pub data Typed : Inst → ℕ → Type 0 where
    typed_binary :
        (op : Opcode) (w : ℕ) (a b : Value)
        → Operand a w
        → Operand b w
        → has_width op w ≡ true
        → Typed (binary_inst op w a b) w
    typed_shift :
        (s : Shift) (w : ℕ) (a b : Value)
        → Operand a w
        → Operand b w
        → 1 < w
        → Typed (shift_inst s w a b) w
    typed_icmp :
        (p : Cmp) (w : ℕ) (a b : Value)
        → Operand a w
        → Operand b w
        → comparable p w fls ≡ true
        → Typed (icmp_inst p w a b) 1
    typed_trunc : (v w : ℕ) (a : Value) → Operand a v → 1 ≤ w → w < v → Typed (trunc_inst v w a) w
    typed_zext : (v w : ℕ) (a : Value) → Operand a v → 1 ≤ v → v < w → Typed (zext_inst v w a) w
    typed_sext : (v w : ℕ) (a : Value) → Operand a v → 1 ≤ v → v < w → Typed (sext_inst v w a) w

-- a block in static single assignment form, with the registers that it leaves defined
pub data Block (ty : ℕ → ℕ) (skipped : ℕ → Bool) : List ℕ → List (ℕ × Inst) → List ℕ → Type 0 where
  done : (ds : List ℕ) → Block ty skipped ds [] ds
  step :
      (ds ds' : List ℕ) (r : ℕ) (i : Inst) (rest : List (ℕ × Inst))
      → Typed ty ds i (ty r)
      → skipped r ≡ false
      → Block ty skipped (r ∷ ds) rest ds'
      → Block ty skipped ds ((r, i) ∷ rest) ds'

-- the symbolic values of the defined registers denote those of the run
abbrev pub Agree : Env → (ℕ → ℕ) → List ℕ → Registers → Regs → Type 0
Agree e ty ds σ regs =
    (r : ℕ) → In r ds → (t : Term) × (regs r ≡ some t) × Denotes e t (int_ty (ty r)) (σ r)
