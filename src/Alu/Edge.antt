-- ===== src/Alu/Edge.antt =====
-- The execution of a block and of the phi nodes on an edge from it follows the machine.
use seahorn.Prelude.{
  ℕ, ◌≡◌, ◌∙◌, ◌==◌, ==_iff, inl, inr, refl, sym, ap, subst, Bool, true, false, Option, none, some,
  Bool-cases, Option-cases, arith, List, [], ◌∷◌, if◌then◌else◌, In,
}
use seahorn.Alu.Terms.{Term}
use seahorn.Alu.Meaning.{Env, Denotes}
use seahorn.Alu.Ops.{int_ty}
use seahorn.Alu.Visitor.{Cmp}
use seahorn.Alu.Execute.{Inst, Regs, execute_block, get_operand_value, set_value, write, update}
use seahorn.Alu.Simulation.{Registers, operand, machine_block, Operand, Block, done, step, Agree}
use seahorn.Alu.Steps.{operand_Denotes, Agree-update, execute_block_correct}
use seahorn.Alu.Phi.{Phi, evaluate_incoming, set_phis, visit_phis, execute_edge}

-- A machine assigns the phi nodes at once: their values are those of the registers `σ` before.
unfoldable pub machine_phis : ℕ → List Phi → Registers → Registers → Registers
machine_phis prev [] σ τ = τ
machine_phis prev (p ∷ rest) σ τ =
    machine_phis prev rest σ (λ s. if s == p.dest then operand σ (p.incoming prev) else τ s)

-- The machine goes through a block, along an edge from it, and through the block behind the edge if that
-- ends in unreachable.
unfoldable pub machine_edge :
    ℕ → List (ℕ × Inst) → List Phi → Bool → List (ℕ × Inst) → Registers → Option Registers
machine_edge src block phis unreachable dst σ = elim (machine_block block σ) [
  | none ↦ none
  | some σ1 ↦
      if unreachable
      then machine_block dst (machine_phis src phis σ1 σ1)
      else some (machine_phis src phis σ1 σ1)
]

-- The phi nodes are well-typed on the edge from `prev`, with the registers `ds` defined before it and
-- `cs` so far.
pub data Phis (ty : ℕ → ℕ) (skipped : ℕ → Bool) (prev : ℕ) (ds : List ℕ)
    : List ℕ → List Phi → List ℕ → Type 0 where
  no_phi : (cs : List ℕ) → Phis ty skipped prev ds cs [] cs
  tracked_phi :
      (cs cs' : List ℕ) (p : Phi) (rest : List Phi)
      → Operand ty ds (p.incoming prev) (ty p.dest)
      → skipped p.dest ≡ false
      → Phis ty skipped prev ds (p.dest ∷ cs) rest cs'
      → Phis ty skipped prev ds cs (p ∷ rest) cs'
  skipped_phi :
      (cs cs' : List ℕ) (p : Phi) (rest : List Phi)
      → skipped p.dest ≡ true
      → Phis ty skipped prev ds cs rest cs'
      → Phis ty skipped prev ds cs (p ∷ rest) cs'

abbrev pub AllTracked : (ℕ → Bool) → List ℕ → Type 0
AllTracked skipped cs = (r : ℕ) → In r cs → skipped r ≡ false

no_bool : false ≡ true → ⊥
no_bool h = cc

tracked_too :
    {skipped : ℕ → Bool} (r : ℕ) (cs : List ℕ)
    → skipped r ≡ false
    → AllTracked skipped cs
    → AllTracked skipped (r ∷ cs)
tracked_too {skipped = skipped} r cs q all s (inl h) = ap skipped h ∙ q
tracked_too r cs q all s (inr h) = all s h

-- The machine may change a skipped register.
skipped_too :
    (e : Env) (ty : ℕ → ℕ) {skipped : ℕ → Bool} (r : ℕ) (cs : List ℕ) (z : ℕ) (τ : Registers)
    (regs : Regs)
    → skipped r ≡ true
    → AllTracked skipped cs
    → Agree e ty cs τ regs
    → Agree e ty cs (λ s. if s == r then z else τ s) regs
skipped_too e ty {skipped = skipped} r cs z τ regs q all now s m =
    subst (λ b. (t : Term) × (regs s ≡ some t) × Denotes e t (int_ty (ty s)) (if b then z else τ s))
      (sym (other (s == r) refl)) (now s m)
  where
    other : (b : Bool) → (s == r) ≡ b → (s == r) ≡ false
    other false h = h
    other true h = absurd (no_bool (sym (all s m) ∙ ap skipped ((==_iff s r).0 h) ∙ q))

module _ (skipped : ℕ → Bool) (fresh : Regs → ℕ → Term) (ptr : Cmp → Term → Term → Term) where
  evaluate_tracked :
      (prev : ℕ) (p : Phi) (rest : List Phi) (regs : Regs) (t : Term)
      → skipped p.dest ≡ false
      → get_operand_value regs (p.incoming prev) ≡ some t
      → evaluate_incoming skipped fresh ptr prev (p ∷ rest) regs
        ≡ some t ∷ evaluate_incoming skipped fresh ptr prev rest regs
  unfolding evaluate_incoming
  evaluate_tracked prev p rest regs t q v =
      ap (λ b. if b then later else get_operand_value regs (p.incoming prev) ∷ later) q
      ∙ ap (λ o. o ∷ later) v
    where
      later : List (Option Term)
      later = evaluate_incoming skipped fresh ptr prev rest regs

  evaluate_skipped :
      (prev : ℕ) (p : Phi) (rest : List Phi) (regs : Regs)
      → skipped p.dest ≡ true
      → evaluate_incoming skipped fresh ptr prev (p ∷ rest) regs
        ≡ evaluate_incoming skipped fresh ptr prev rest regs
  unfolding evaluate_incoming
  evaluate_skipped prev p rest regs q =
      ap (λ b. if b then later else get_operand_value regs (p.incoming prev) ∷ later) q
    where
      later : List (Option Term)
      later = evaluate_incoming skipped fresh ptr prev rest regs

  set_tracked :
      (p : Phi) (rest : List Phi) (t : Term) (ops : List (Option Term)) (regs : Regs)
      → skipped p.dest ≡ false
      → set_phis skipped fresh ptr (p ∷ rest) (some t ∷ ops) regs
        ≡ set_phis skipped fresh ptr rest ops (update p.dest t regs)
  unfolding set_phis set_value write
  set_tracked p rest t ops regs q =
      ap
        (λ b.
          if b
          then set_phis skipped fresh ptr rest (some t ∷ ops) regs
          else set_phis skipped fresh ptr rest ops
              (set_value skipped fresh ptr p.dest (some t) regs))
        q
      ∙ ap (λ b. set_phis skipped fresh ptr rest ops (if b then regs else update p.dest t regs)) q

  set_skipped :
      (p : Phi) (rest : List Phi) (ops : List (Option Term)) (regs : Regs)
      → skipped p.dest ≡ true
      → set_phis skipped fresh ptr (p ∷ rest) ops regs ≡ set_phis skipped fresh ptr rest ops regs
  unfolding set_phis
  set_skipped p rest [] regs q =
      ap (λ b. if b then set_phis skipped fresh ptr rest [] regs else regs) q
  set_skipped p rest (o ∷ ops) regs q =
      ap
        (λ b.
          if b
          then set_phis skipped fresh ptr rest (o ∷ ops) regs
          else set_phis skipped fresh ptr rest ops (set_value skipped fresh ptr p.dest o regs))
        q

module _ (skipped : ℕ → Bool) (fresh : Regs → ℕ → Term) (ptr : Cmp → Term → Term → Term) (e : Env)
    (ty : ℕ → ℕ) where
  -- the second loop, from registers that agree for `cs`, with values from the registers before
  set_phis_correct :
      (prev : ℕ) (ds cs cs' : List ℕ) (phis : List Phi) (σ τ : Registers) (old regs : Regs)
      → Phis ty skipped prev ds cs phis cs'
      → Agree e ty ds σ old
      → Agree e ty cs τ regs
      → AllTracked skipped cs
      → Agree e ty cs'
          (machine_phis prev phis σ τ)
          (set_phis skipped fresh ptr phis (evaluate_incoming skipped fresh ptr prev phis old) regs)
  unfolding set_phis machine_phis
  set_phis_correct prev ds cs _ _ σ τ old regs (no_phi _) before now all = now
  set_phis_correct prev ds cs cs' _ σ τ old regs (tracked_phi _ _ p rest v q more) before now all =
      let (t, f, d) =
        operand_Denotes skipped fresh ptr e ty ds σ old before (p.incoming prev) (ty p.dest) v in
      subst (λ r. Agree e ty cs' (machine_phis prev (p ∷ rest) σ τ) r)
        (sym (
          ap (λ ops. set_phis skipped fresh ptr (p ∷ rest) ops regs)
            (evaluate_tracked skipped fresh ptr prev p rest old t q f)
          ∙ set_tracked skipped fresh ptr p rest t _ regs q))
        (set_phis_correct prev ds (p.dest ∷ cs) cs' rest σ _ old (update p.dest t regs) more before
          (Agree-update skipped fresh ptr e ty cs τ regs p.dest t _ now d)
          (tracked_too p.dest cs q all))
  set_phis_correct prev ds cs cs' _ σ τ old regs (skipped_phi _ _ p rest q more) before now all =
      subst (λ r. Agree e ty cs' (machine_phis prev (p ∷ rest) σ τ) r)
        (sym (
          ap (λ ops. set_phis skipped fresh ptr (p ∷ rest) ops regs)
            (evaluate_skipped skipped fresh ptr prev p rest old q)
          ∙ set_skipped skipped fresh ptr p rest _ regs q))
        (set_phis_correct prev ds cs cs' rest σ _ old regs more before
          (skipped_too e ty p.dest cs _ τ regs q all now) all)

  AllTracked-Block :
      (ds ds' : List ℕ) (block : List (ℕ × Inst))
      → Block ty skipped ds block ds'
      → AllTracked skipped ds
      → AllTracked skipped ds'
  AllTracked-Block ds _ _ (done _) all = all
  AllTracked-Block ds ds' _ (step _ _ r i rest typed q more) all =
      AllTracked-Block (r ∷ ds) ds' rest more (tracked_too r ds q all)

  abbrev after_phis : ℕ → List (ℕ × Inst) → List Phi → Regs → Regs
  after_phis src block phis regs =
      visit_phis skipped fresh ptr src phis (execute_block skipped fresh ptr block regs)

  -- The phi nodes behind a block.
  along_lem :
      (src : ℕ) (ds ds' cs : List ℕ) (block : List (ℕ × Inst)) (phis : List Phi) (σ σ' : Registers)
      (regs : Regs)
      → Block ty skipped ds block ds'
      → Phis ty skipped src ds' ds' phis cs
      → AllTracked skipped ds
      → Agree e ty ds σ regs
      → machine_block block σ ≡ some σ'
      → Agree e ty cs (machine_phis src phis σ' σ') (after_phis src block phis regs)
  unfolding visit_phis
  along_lem src ds ds' cs block phis σ σ' regs typed edge all ag h =
      let after = execute_block_correct skipped fresh ptr e ty ds ds' block σ σ' regs typed ag h in
      set_phis_correct src ds' ds' cs phis σ' σ' _ _ edge after after
        (AllTracked-Block ds ds' block typed all)

  -- If the symbolic registers that are defined before a well-typed block are tracked and denote the
  -- registers of a run, and the machine goes from there through the block and along an edge with
  -- well-typed phi nodes, which it assigns at once, and through the well-typed block behind the edge if
  -- that ends in unreachable, without undefined behaviour, then after the execution of the edge the
  -- symbolic registers denote those of the run.
  pub execute_edge_correct :
      (src : ℕ) (ds ds' cs cs' : List ℕ) (block dst : List (ℕ × Inst)) (phis : List Phi)
      (unreachable : Bool) (σ σ' : Registers) (regs : Regs)
      → Block ty skipped ds block ds'
      → Phis ty skipped src ds' ds' phis cs
      → Block ty skipped cs dst cs'
      → AllTracked skipped ds
      → Agree e ty ds σ regs
      → machine_edge src block phis unreachable dst σ ≡ some σ'
      → Agree e ty
          (if unreachable then cs' else cs)
          σ'
          (execute_edge skipped fresh ptr src block phis unreachable dst regs)
  unfolding execute_edge machine_edge
  execute_edge_correct src ds ds' cs cs' block dst phis unreachable σ σ' regs typed edge behind all
        ag h =
      elim (Option-cases (machine_block block σ)) [
        | inl stuck ↦ ground (arith, stuck, h)
        | inr (σ1, run) ↦
            let now = along_lem src ds ds' cs block phis σ σ1 regs typed edge all ag run in
            elim (Bool-cases unreachable) [
              | inl ends ↦ rw ends (
                  execute_block_correct skipped fresh ptr e ty cs cs' dst
                    (machine_phis src phis σ1 σ1) σ' (after_phis src block phis regs) behind now
                    (ground (arith, ends, run, h)))
              | inr goes ↦
                  let same : machine_phis src phis σ1 σ1 ≡ σ' = ground (arith, goes, run, h) in
                  rw goes (subst (λ τ. Agree e ty cs τ (after_phis src block phis regs)) same now)
            ]
      ]
