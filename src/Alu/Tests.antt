-- ===== src/Alu/Tests.antt =====
-- Runs of the arithmetic unit and of the instruction visitor.
use seahorn.Prelude.{
  ℕ, ◌-◌, ◌*◌, ◌≡◌, ◌↔◌, ◌==◌, inl, inr, refl, sym, subst, ap, Bool, true, false, none, some, List,
  [], ◌∷◌, if◌then◌else◌, arith,
}
use seahorn.Alu.Terms.{
  bool_ty, bv_ty, badd, Term, tru, fls, bool_const, bv_const, sort_of, both_bool, same_bv,
}
use seahorn.Alu.Meaning.{Env, eval, Denotes}
use seahorn.Alu.Ops.{int_ty, do_add, do_and, extract}
use seahorn.Alu.Visitor.{
  add, Cmp, icmp_ult, icmp_slt, visit_binary_operator, compare_ints, sadd, uadd,
  visit_with_overflow,
}
use seahorn.Alu.Binary.{opcode_op, is_logical, has_width, visit_binary_operator_sort}
use seahorn.Alu.Compare.{compares_bits, comparable, compare_ints_sort}
use seahorn.Alu.Exact.{wrapped, Exact}
use seahorn.Alu.Overflow.{visit_with_overflow_correct}
use seahorn.Alu.Aggregate.{
  insert_bits, struct_shape, scalar_shape, DataLayout, step_index, field_begin,
  execute_extract_value_inst, execute_insert_value_inst,
}
use seahorn.Alu.Fields.{replaced}
use seahorn.Alu.Insert.{IsIntField, extract_value-insert_value, insert_bits_ill_sorted}
use seahorn.Alu.Execute.{reg, const_int, Regs, Inst, binary_inst, icmp_inst, zext_inst}
use seahorn.Alu.Simulation.{
  is_reg, is_const, typed_binary, typed_icmp, typed_zext, done, step, machine_block, Block,
  Registers, machine_block, Block, done, step, Agree,
}
use seahorn.Alu.Phi.{Phi, execute_edge}
use seahorn.Alu.Edge.{
  Phis, no_phi, tracked_phi, skipped_phi, AllTracked, machine_phis, machine_edge,
  execute_edge_correct,
}

-- The constants 0 and 1 are 200 and 100 as words, the Boolean 0 is true.
abbrev env : Env
env = record { bools = λ k. k == 0; words = λ k. if k == 0 then 200 else 100 }

abbrev byte_a : Term
byte_a = bv_const 0 8

abbrev byte_b : Term
byte_b = bv_const 1 8

abbrev bit_a : Term
bit_a = bool_const 0

byte_sort : (k : ℕ) → sort_of (bv_const k 8) ≡ some (int_ty 8)
unfolding sort_of int_ty
byte_sort k = refl

bit_sort : sort_of bit_a ≡ some (int_ty 1)
unfolding sort_of int_ty
bit_sort = refl

byte_a_Denotes : Denotes env byte_a (int_ty 8) 200
unfolding sort_of int_ty eval
byte_a_Denotes = (refl, refl)

byte_b_Denotes : Denotes env byte_b (int_ty 8) 100
unfolding sort_of int_ty eval
byte_b_Denotes = (refl, refl)

-- The sum of two one-bit integers has no sort, their conjunction has one.
one_bit_sum : sort_of (do_add bit_a bit_a 1) ≡ none
unfolding sort_of same_bv do_add
one_bit_sum = refl

one_bit_and : sort_of (do_and bit_a bit_a 1) ≡ some bool_ty
unfolding sort_of both_bool do_and
one_bit_and = refl

add_op : opcode_op add ≡ some badd
unfolding opcode_op
add_op = refl

visit_binary_operator_sort_example :
    (t : Term) × (visit_binary_operator add 1 (some bit_a) (some bit_a) ≡ some t)
    × (sort_of t ≡ (if has_width add 1 then some (int_ty 1) else none))
visit_binary_operator_sort_example =
    visit_binary_operator_sort add badd 1 bit_a bit_a add_op bit_sort bit_sort

compare_ints_sort_example :
    sort_of (compare_ints icmp_slt bit_a bit_a 1)
    ≡ (if comparable icmp_slt 1 bit_a then some bool_ty else none)
compare_ints_sort_example = compare_ints_sort bit_a bit_a 1 bit_sort bit_sort icmp_slt

visit_with_overflow_correct_example :
    (c : ℕ) × Denotes env
      (extract (visit_with_overflow uadd byte_a byte_b 8 7) 0 (8 - 1))
      (int_ty 8)
      (wrapped uadd 8 200 100)
    × Denotes env (extract (visit_with_overflow uadd byte_a byte_b 8 7) 8 8) bool_ty c
    × ((c ≡ 0) ↔ Exact uadd 8 200 100 (wrapped uadd 8 200 100))
visit_with_overflow_correct_example =
    visit_with_overflow_correct env uadd byte_a byte_b 8 7 200 100 (omega arith) (omega arith)
      byte_a_Denotes byte_b_Denotes

-- The sum of 200 and 100 wraps, that of -56 and 100 does not.
carry_run :
    (eval env (extract (visit_with_overflow uadd byte_a byte_b 8 7) 8 8) ≡ 1)
    × (eval env (extract (visit_with_overflow sadd byte_a byte_b 8 7) 8 8) ≡ 0)
unfolding eval extract visit_with_overflow
carry_run = (refl, refl)

-- A structure of a word of 32 bits, one bit, and padding, and its types.
pub data Record : Type 0 where
  pair word flag : Record

abbrev layout : DataLayout Record
layout = record {
  shape = λ t. elim t [
    | pair ↦ struct_shape (word ∷ flag ∷ [])
    | word ↦ scalar_shape
    | flag ↦ scalar_shape
  ];
  is_pointer = λ t. false;
  size_in_bits = λ t. elim t [ pair ↦ 64 | word ↦ 32 | flag ↦ 1 ];
  scalar_size = λ t. elim t [ pair ↦ 0 | word ↦ 32 | flag ↦ 1 ];
  element_offset = λ t i. 32 * i;
}

abbrev whole : Term
whole = bv_const 0 64

abbrev half_word : Term
half_word = bv_const 1 32

word_IsIntField : IsIntField layout pair word (0 ∷ []) 0
unfolding field_begin step_index
word_IsIntField = record {
  begin_is = refl;
  not_pointer = refl;
  scalar = refl;
  not_empty = omega arith;
  inside = omega arith;
}

whole_Denotes : Denotes env whole (bv_ty 64) 200
unfolding sort_of eval
whole_Denotes = (refl, refl)

half_word_Denotes : Denotes env half_word (int_ty 32) 100
unfolding sort_of eval int_ty
half_word_Denotes = (refl, refl)

abbrev no_cast : Term → Record → Term
no_cast t r = t

extract_value-insert_value_example :
    (t : Term) × (execute_insert_value_inst layout no_cast no_cast
        (some whole)
        pair
        (some half_word)
        word
        (0 ∷ [])
      ≡ some t)
    × Denotes env t (bv_ty 64) (replaced 200 0 32 100)
    × (u : Term) × (execute_extract_value_inst layout no_cast no_cast word (some t) pair (0 ∷ [])
        ≡ some u)
    × Denotes env u (int_ty 32) 100
extract_value-insert_value_example =
    extract_value-insert_value layout no_cast no_cast env whole half_word pair word (0 ∷ []) 0 200
      100 word_IsIntField (omega arith) refl whole_Denotes half_word_Denotes

-- The flag of the structure is a bit with bits on both sides.
insert_bits_ill_sorted_example : sort_of (insert_bits whole bit_a 1 32 32 64) ≡ none
insert_bits_ill_sorted_example =
    insert_bits_ill_sorted whole bit_a 32 64 (omega arith) (omega arith)

-- r2 := r0 + r1; r3 := r2 < 50 as words; r4 := r3 widened to 8 bits
abbrev program : List (ℕ × Inst)
program =
    (2, binary_inst add 8 (reg 0) (reg 1))
    ∷ (3, icmp_inst icmp_ult 8 (reg 2) (const_int 8 50))
    ∷ (4, zext_inst 1 8 (reg 3))
    ∷ []

abbrev widths : ℕ → ℕ
widths r = if r == 3 then 1 else 8

abbrev skips : ℕ → Bool
skips r = r == 9

abbrev start_state : Registers
start_state = λ r. if r == 0 then 200 else 100

abbrev start_regs : Regs
start_regs = λ r. if r == 0 then some byte_a else if r == 1 then some byte_b else none

add_has_width : has_width add 8 ≡ true
unfolding has_width is_logical
add_has_width = refl

compares : comparable icmp_ult 8 fls ≡ true
unfolding comparable compares_bits
compares = refl

program-Block : Block widths skips (0 ∷ 1 ∷ []) program (4 ∷ 3 ∷ 2 ∷ 0 ∷ 1 ∷ [])
program-Block =
    step _ _ 2 _ _
      (typed_binary add 8 _ _ (is_reg 0 (inl refl)) (is_reg 1 (inr (inl refl))) add_has_width) refl
      (step _ _ 3 _ _
        (typed_icmp icmp_ult 8 _ _ (is_reg 2 (inl refl)) (is_const 8 50 (omega arith)) compares)
        refl
        (step _ _ 4 _ _ (typed_zext 1 8 _ (is_reg 3 (inl refl)) (omega arith) (omega arith)) refl
          (done _)))

abbrev Holds : Registers → Regs → ℕ → Type 0
Holds σ regs r = (t : Term) × (regs r ≡ some t) × Denotes env t (int_ty (widths r)) (σ r)

start_Agree : Agree env widths (0 ∷ 1 ∷ []) start_state start_regs
start_Agree r (inl e) = subst (Holds start_state start_regs) (sym e) (byte_a, refl, byte_a_Denotes)
start_Agree r (inr (inl e)) =
    subst (Holds start_state start_regs) (sym e) (byte_b, refl, byte_b_Denotes)
start_Agree r (inr (inr n)) = absurd n

-- the sum wraps to 44, so the comparison holds
abbrev end_state : Registers
end_state = λ r. if r == 4 then 1 else if r == 3 then 1 else if r == 2 then 44 else start_state r

program_run : machine_block program start_state ≡ some end_state
unfolding machine_block
program_run = refl

abbrev no_fresh : Regs → ℕ → Term
no_fresh regs r = tru

abbrev no_pointers : Cmp → Term → Term → Term
no_pointers p a b = tru

-- Two phi nodes that exchange registers, and one that is skipped, on the edge from block 0.
abbrev exchange : List Phi
exchange =
    record { dest = 0; incoming = λ b. reg 2 }
    ∷ record { dest = 9; incoming = λ b. reg 1 }
    ∷ record { dest = 2; incoming = λ b. reg 0 }
    ∷ []

abbrev defined_after : List ℕ
defined_after = 4 ∷ 3 ∷ 2 ∷ 0 ∷ 1 ∷ []

exchange-Phis : Phis widths skips 0 defined_after defined_after exchange (2 ∷ 0 ∷ defined_after)
exchange-Phis = tracked_phi _ _ _ _ (is_reg 2 (inr (inr (inl refl)))) refl (
    skipped_phi _ _ _ _ refl
      (tracked_phi _ _ _ _ (is_reg 0 (inr (inr (inr (inl refl))))) refl (no_phi _)))

start_tracked : AllTracked skips (0 ∷ 1 ∷ [])
start_tracked r (inl e) = ap skips e
start_tracked r (inr (inl e)) = ap skips e
start_tracked r (inr (inr n)) = absurd n

exchange_run :
    (machine_phis 0 exchange end_state end_state 0 ≡ 44)
    × (machine_phis 0 exchange end_state end_state 2 ≡ 200)
unfolding machine_phis
exchange_run = (refl, refl)

-- The block behind the edge, which ends in unreachable.
abbrev last_block : List (ℕ × Inst)
last_block = (4, zext_inst 1 8 (reg 3)) ∷ []

last_block-Block : Block widths skips (2 ∷ 0 ∷ defined_after) last_block (4 ∷ 2 ∷ 0 ∷ defined_after)
last_block-Block =
    step _ _ 4 _ _
      (typed_zext 1 8 _ (is_reg 3 (inr (inr (inr (inl refl))))) (omega arith) (omega arith)) refl
      (done _)

abbrev last_state : Registers
last_state = λ r. if r == 4 then 1 else machine_phis 0 exchange end_state end_state r

edge_run : machine_edge 0 program exchange true last_block start_state ≡ some last_state
unfolding machine_edge machine_block machine_phis
edge_run = refl

execute_edge_correct_example :
    Agree env widths
      (4 ∷ 2 ∷ 0 ∷ defined_after)
      last_state
      (execute_edge skips no_fresh no_pointers 0 program exchange true last_block start_regs)
execute_edge_correct_example =
    execute_edge_correct skips no_fresh no_pointers env widths 0 (0 ∷ 1 ∷ []) defined_after
      (2 ∷ 0 ∷ defined_after) (4 ∷ 2 ∷ 0 ∷ defined_after) program last_block exchange true
      start_state last_state start_regs program-Block exchange-Phis last_block-Block start_tracked
      start_Agree edge_run
