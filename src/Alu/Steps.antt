-- ===== src/Alu/Steps.antt =====
-- The proof that the execution of a block follows the machine.
use seahorn.Prelude.{
  ℕ, ◌≡◌, ◌∙◌, inl, inr, refl, sym, ap, subst, Bool, true, false, ltb, ◌==◌, ==_iff, if◌then◌else◌,
  Option, none, some, arith, ◌||◌, Option-cases, List, ◌∷◌, In,
}
use seahorn.Alu.Terms.{Term, fls, binop}
use seahorn.Alu.Words.{bv_shl, bv_lshr}
use seahorn.Alu.Meaning.{Env, arith_op, Denotes}
use seahorn.Alu.Ops.{int_ty, is_tru, do_trunc, do_zext, do_sext}
use seahorn.Alu.Widths.{int_ty_one, int_ty_bv}
use seahorn.Alu.Casts.{as_sort, same_number, do_trunc_correct, do_zext_correct, do_sext_correct}
use seahorn.Alu.Visitor.{
  Shift, shl, lshr, ashr, Cmp, icmp_eq, icmp_ne, icmp_sgt, visit_binary_operator, shift_op,
  visit_shift, compare_ints, execute_icmp, visit_icmp_inst, execute_trunc_inst, execute_zext_inst,
  execute_sext_inst,
}
use seahorn.Alu.Machine.{machine_shift}
use seahorn.Alu.Binary.{arith_Denotes}
use seahorn.Alu.Values.{some_value, visit_binary_operator_correct}
use seahorn.Alu.Compare.{compares_bits, comparable, compare_ints_correct}
use seahorn.Alu.Overflow.{wide_bv}
use seahorn.Alu.Execute.{
  get_constant_value, Value, Regs, get_operand_value, Inst, update, execute_inst, write, set_value,
  intra_step, execute_block,
}
use seahorn.Alu.Constants.{get_constant_value-Denotes}
use seahorn.Alu.Simulation.{
  is_reg, is_const, done, step, machine_block, Block, typed_binary, typed_shift, typed_icmp,
  typed_trunc, typed_zext, typed_sext, Registers, operand, machine_inst, machine_block, Operand,
  Typed, Block, done, step, Agree,
}

in_range : (b : Bool) (x z : ℕ) → (if b then some x else none) ≡ some z → x ≡ z
in_range true x z h = some_value h
in_range false x z h = cc

or-true_right : (b c : Bool) → c ≡ true → (b || c) ≡ true
or-true_right true c h = refl
or-true_right false c h = h

wide_comparable : (p : Cmp) (w : ℕ) (b : Term) → comparable p w fls ≡ true → comparable p w b ≡ true
unfolding comparable compares_bits
wide_comparable icmp_eq w b h = refl
wide_comparable icmp_ne w b h = refl
wide_comparable icmp_sgt w b h = or-true_right (is_tru b) _ h
wide_comparable _ w b h = h

some_run : {σ σ' : Registers} → some σ ≡ some σ' → σ ≡ σ'
some_run h = cc

no_run : {σ : Registers} → none ≡ some σ → ⊥
no_run h = cc

-- a shift by less than the width
shift_word :
    (s : Shift) (w x y z : ℕ) → machine_shift s w x y ≡ some z → arith_op (shift_op s) w x y ≡ z
unfolding machine_shift shift_op arith_op bv_shl bv_lshr
shift_word shl w x y z h = in_range (ltb y w) _ z h
shift_word lshr w x y z h = in_range (ltb y w) _ z h
shift_word ashr w x y z h = in_range (ltb y w) _ z h

module _ (skipped : ℕ → Bool) (fresh : Regs → ℕ → Term) (ptr : Cmp → Term → Term → Term) (e : Env)
    (ty : ℕ → ℕ) where
  pub operand_Denotes :
      (ds : List ℕ) (σ : Registers) (regs : Regs)
      → Agree e ty ds σ regs
      → (v : Value) (w : ℕ) → Operand ty ds v w
      → (t : Term) × (get_operand_value regs v ≡ some t) × Denotes e t (int_ty w) (operand σ v)
  unfolding get_operand_value
  operand_Denotes ds σ regs ag v _ (is_reg r m) = ag r m
  operand_Denotes ds σ regs ag v _ (is_const w x h) =
      (get_constant_value w x, refl, get_constant_value-Denotes e w x h)

  -- An instruction on operands that denote their values in a run gives a term that denotes the
  -- result of the machine.
  execute_inst_correct :
      (ds : List ℕ) (σ : Registers) (regs : Regs) (i : Inst) (k z : ℕ)
      → Agree e ty ds σ regs
      → Typed ty ds i k
      → machine_inst i σ ≡ some z
      → (t : Term) × (execute_inst skipped fresh ptr i regs ≡ some t) × Denotes e t (int_ty k) z
  unfolding execute_inst machine_inst visit_shift visit_icmp_inst execute_icmp execute_trunc_inst
      execute_zext_inst execute_sext_inst visit_binary_operator
  execute_inst_correct ds σ regs _ _ z ag (typed_binary op w a b p q h) m =
      let (t, r, d) = operand_Denotes ds σ regs ag a w p in
      let (u, s, d') = operand_Denotes ds σ regs ag b w q in
      let (x, f, g) = visit_binary_operator_correct e w t u _ _ d d' op z m h in
      (x, rw r (rw s f), g)
  execute_inst_correct ds σ regs _ _ z ag (typed_shift k w a b p q h) m =
      let (t, r, d) = operand_Denotes ds σ regs ag a w p in
      let (u, s, d') = operand_Denotes ds σ regs ag b w q in
      let n = int_ty_bv w (wide_bv w h) in
      (
        binop (shift_op k) t u,
        rw r (rw s refl),
        same_number e _ _ _ _ (shift_word k w _ _ z m)
            (arith_Denotes e (shift_op k) t u w _ _ (wide_bv w h) d d'),
      )
  execute_inst_correct ds σ regs _ _ z ag (typed_icmp c w a b p q h) m =
      let (t, r, d) = operand_Denotes ds σ regs ag a w p in
      let (u, s, d') = operand_Denotes ds σ regs ag b w q in
      (
        compare_ints c t u w,
        rw r (rw s refl),
        as_sort e _ _ _ _ (sym (int_ty_one 1 refl)) (
            same_number e _ _ _ _ (some_value m)
              (compare_ints_correct e w t u _ _ d d' c (wide_comparable c w u h))),
      )
  execute_inst_correct ds σ regs _ _ z ag (typed_trunc v w a p one lt) m =
      let (t, r, d) = operand_Denotes ds σ regs ag a v p in
      (
        do_trunc t w,
        rw r refl,
        same_number e _ _ _ _ (some_value m) (do_trunc_correct e t v w _ one lt d),
      )
  execute_inst_correct ds σ regs _ _ z ag (typed_zext v w a p one lt) m =
      let (t, r, d) = operand_Denotes ds σ regs ag a v p in
      (
        do_zext t w v,
        rw r refl,
        same_number e _ _ _ _ (some_value m) (do_zext_correct e t v w _ one lt d),
      )
  execute_inst_correct ds σ regs _ _ z ag (typed_sext v w a p one lt) m =
      let (t, r, d) = operand_Denotes ds σ regs ag a v p in
      (
        do_sext t w v,
        rw r refl,
        same_number e _ _ _ _ (some_value m) (do_sext_correct e t v w _ one lt d),
      )

  pub Agree-update :
      (ds : List ℕ) (σ : Registers) (regs : Regs) (r : ℕ) (t : Term) (z : ℕ)
      → Agree e ty ds σ regs
      → Denotes e t (int_ty (ty r)) z
      → Agree e ty (r ∷ ds) (λ s. if s == r then z else σ s) (update r t regs)
  Agree-update ds σ regs r t z ag d s m = if_agree (s == r) refl
    where
      older : In s (r ∷ ds) → (s == r) ≡ false → In s ds
      older (inl p) q = absurd (ground arith)
      older (inr p) q = p

      if_agree :
          (b : Bool)
          → (s == r) ≡ b
          → (u : Term) × ((if b then some t else regs s) ≡ some u)
            × Denotes e u (int_ty (ty s)) (if b then z else σ s)
      if_agree true q =
          (t, refl, as_sort e t _ _ z (ap (λ r. int_ty (ty r)) (sym ((==_iff s r).0 q))) d)
      if_agree false q = ag s (older m q)

  intra_step-some :
      (r : ℕ) (i : Inst) (t : Term) (regs : Regs)
      → skipped r ≡ false
      → execute_inst skipped fresh ptr i regs ≡ some t
      → intra_step skipped fresh ptr r i regs ≡ update r t regs
  unfolding intra_step set_value write
  intra_step-some r i t regs p q =
      ap
        (λ b.
          if b
          then regs
          else set_value skipped fresh ptr r (execute_inst skipped fresh ptr i regs) regs)
        p
      ∙ ap (λ o. set_value skipped fresh ptr r o regs) q
      ∙ ap (λ b. if b then regs else update r t regs) p

  -- If the symbolic registers that are defined before a well-typed block denote the registers of a
  -- run, and the machine runs the block from there without undefined behaviour, then the symbolic
  -- registers after the execution of the block denote the registers at the end of the run.
  pub execute_block_correct :
      (ds ds' : List ℕ) (block : List (ℕ × Inst)) (σ σ' : Registers) (regs : Regs)
      → Block ty skipped ds block ds'
      → Agree e ty ds σ regs
      → machine_block block σ ≡ some σ'
      → Agree e ty ds' σ' (execute_block skipped fresh ptr block regs)
  unfolding execute_block machine_block
  execute_block_correct ds _ _ σ σ' regs (done _) ag h =
      subst (λ σ. Agree e ty ds σ regs) (some_run h) ag
  execute_block_correct ds ds' _ σ σ' regs (step _ _ r i rest typed open_reg more) ag h =
      elim (Option-cases (machine_inst i σ)) [
        | inl q ↦ absurd (no_run (sym (ap next q) ∙ h))
        | inr (z, q) ↦
            let (t, f, d) = execute_inst_correct ds σ regs i (ty r) z ag typed q in
            subst (λ regs. Agree e ty ds' σ' (execute_block skipped fresh ptr rest regs))
              (sym (intra_step-some r i t regs open_reg f))
              (execute_block_correct (r ∷ ds) ds' rest _ σ' (update r t regs) more
                (Agree-update ds σ regs r t z ag d) (sym (ap next q) ∙ h))
      ]
    where
      next : Option ℕ → Option Registers
      next o = elim o [ none ↦ none | some z ↦ machine_block rest (λ s. if s == r then z else σ s) ]
