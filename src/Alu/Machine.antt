-- ===== src/Alu/Machine.antt =====
-- What the instructions of LLVM do to integers of `w` bits, given as numbers below `2 ^ w`: the
-- description that the terms are compared with. It has no value where the behaviour is undefined.
use seahorn.Prelude.{
  ℕ, ◌+◌, ◌-◌, ◌*◌, ◌/◌, ◌%◌, ◌^◌, ◌==◌, ltb, leb, Bool, not, ◌&&◌, Option, none, some,
  if◌then◌else◌,
}
use seahorn.Alu.Terms.{and, or, xor}
use seahorn.Alu.Words.{half, bitwise, bv_sdiv, bv_srem, bv_ashr, biased}
use seahorn.Alu.Visitor.{
  Opcode, add, sub, mul, udiv, sdiv, urem, srem, and_op, or_op, xor_op, Shift, shl, lshr, ashr, Cmp,
  icmp_eq, icmp_ne, icmp_ult, icmp_slt, icmp_ugt, icmp_sgt, icmp_ule, icmp_sle, icmp_uge, icmp_sge,
}

-- the quotient and the remainder of the least word by -1 overflow
unfoldable pub division_overflows : ℕ → ℕ → ℕ → Bool
division_overflows w x y = x == half w && y == 2 ^ w - 1

unfoldable pub machine_binary : Opcode → ℕ → ℕ → ℕ → Option ℕ
unfolding division_overflows bitwise bv_sdiv bv_srem
machine_binary add w x y = some ((x + y) % 2 ^ w)
machine_binary sub w x y = some ((x + (2 ^ w - y)) % 2 ^ w)
machine_binary mul w x y = some (x * y % 2 ^ w)
machine_binary udiv w x y = if y == 0 then none else some (x / y)
machine_binary urem w x y = if y == 0 then none else some (x % y)
machine_binary sdiv w x y =
    if y == 0 then none else if division_overflows w x y then none else some (bv_sdiv w x y)
machine_binary srem w x y =
    if y == 0 then none else if division_overflows w x y then none else some (bv_srem w x y)
machine_binary and_op w x y = some (bitwise and w x y)
machine_binary or_op w x y = some (bitwise or w x y)
machine_binary xor_op w x y = some (bitwise xor w x y)
machine_binary _ w x y = none

-- A word that is shifted by its width or more is undefined.
unfoldable pub machine_shift : Shift → ℕ → ℕ → ℕ → Option ℕ
unfolding bv_ashr
machine_shift shl w x y = if ltb y w then some (x * 2 ^ y % 2 ^ w) else none
machine_shift lshr w x y = if ltb y w then some (x / 2 ^ y) else none
machine_shift ashr w x y = if ltb y w then some (bv_ashr w x y) else none

-- `icmp`: signed words are compared by the numbers that they stand for, here plus `half w`
unfoldable pub machine_icmp : Cmp → ℕ → ℕ → ℕ → Bool
machine_icmp icmp_eq w x y = x == y
machine_icmp icmp_ne w x y = not (x == y)
machine_icmp icmp_ult w x y = ltb x y
machine_icmp icmp_slt w x y = ltb (biased w x) (biased w y)
machine_icmp icmp_ugt w x y = ltb y x
machine_icmp icmp_sgt w x y = ltb (biased w y) (biased w x)
machine_icmp icmp_ule w x y = leb x y
machine_icmp icmp_sle w x y = leb (biased w x) (biased w y)
machine_icmp icmp_uge w x y = leb y x
machine_icmp icmp_sge w x y = leb (biased w y) (biased w x)
