-- ===== src/CutPoints/Tests.antt =====
-- Cut points of a loop with a body of two blocks: 0 enters it at 1, 2 and 3 lead back to 1, 4 leaves it.
use seahorn.Prelude.{
  Distinct, ℕ, ◌≡◌, refl, ◌↔◌, ◌⊎◌, inl, inr, true, false, List, [], ◌∷◌, In, some, ◌==◌, ◌&&◌,
  if◌then◌else◌, arith, ℕ_discrete, subst, sym,
}
use seahorn.CutPoints.BitVector.{HasBit, set_ids, set_bit, bit_or}
use seahorn.CutPoints.{
  Cfg, h0, h1, elem, index_of, is_fwd_reach, fwd_reach, bwd_reach, cut_points, CpEdge, cpg,
  mark_block, add_cp, push_sources, push_targets, push_block, new_edges, reach_through, preds_by,
}
use seahorn.CutPoints.Paths.{BackCut, Fwd, Bwd, IsCfg}
use seahorn.CutPoints.Correct.{reach_correct, cpg_correct}
use seahorn.CutPoints.PushBlock.{HasEdge}
use seahorn.CutPoints.Marks.{cut_points_correct}
use seahorn.CutPoints.Reach.{FwdTo}

abbrev loop_succs : ℕ → List ℕ
loop_succs b =
    if b == 0
    then 1 ∷ []
    else if b == 1
    then 2 ∷ 4 ∷ []
    else if b == 2
    then 3 ∷ []
    else if b == 3
    then 1 ∷ []
    else []

abbrev loop_preds : ℕ → List ℕ
loop_preds b =
    if b == 1
    then 0 ∷ 3 ∷ []
    else if b == 2
    then 1 ∷ []
    else if b == 3
    then 2 ∷ []
    else if b == 4
    then 1 ∷ []
    else []

abbrev loop : Cfg
loop = record {
  topo = 0 ∷ 1 ∷ 2 ∷ 3 ∷ 4 ∷ [];
  succs = loop_succs;
  preds = loop_preds;
  back_edge = λ p b. (p == 3) && (b == 1);
}

-- Entry, target of the back-edge and exit.
cut_points_run : cut_points loop h0 ≡ 0 ∷ 1 ∷ 4 ∷ []
unfolding cut_points ℕ_discrete elem mark_block add_cp
cut_points_run = refl

cpg_run :
    cpg loop h0
    ≡ some (
        record { source = 0; target = 1; blocks = 0 ∷ [] }
        ∷ record { source = 1; target = 1; blocks = 1 ∷ 2 ∷ 3 ∷ [] }
        ∷ record { source = 1; target = 2; blocks = 1 ∷ [] }
        ∷ [])
unfolding cpg ℕ_discrete elem cut_points mark_block add_cp push_sources set_ids bwd_reach
    reach_through preds_by set_bit index_of push_targets fwd_reach bit_or push_block new_edges
cpg_run = refl

is_cp : In 1 (cut_points loop h0)
is_cp = subst (In 1) (sym cut_points_run) (inr (inl refl))

edges_at : (p b : ℕ) → In p (loop_preds b) ↔ In b (loop_succs p)
edges_at p b = ground arith

loop-IsCfg : IsCfg loop
unfolding ℕ_discrete
loop-IsCfg = record {
  forward = ground arith;
  backward = ground arith;
  edges = edges_at;
  pred_known = λ p b h k. ground arith;
  succ_known = λ b s h k. ground arith;
}

reach_correct_example :
    (HasBit (fwd_reach loop (cut_points loop h0) loop.topo 2) (index_of 1 (cut_points loop h0))
      ↔ Fwd loop (cut_points loop h0) 2 1)
    × ((is_fwd_reach (cut_points loop h0) (bwd_reach loop (cut_points loop h0)) 1 2 ≡ true) ↔ (
        (◌≡◌ {A = ℕ} 1 2)
        ⊎ ((elem 2 (cut_points loop h0) ≡ false) × Bwd loop (cut_points loop h0) 1 2)))
reach_correct_example = reach_correct loop h0 loop-IsCfg 2 1 (inr (inr (inl refl))) is_cp

cpg_correct_example :
    (es : List CpEdge) × (cpg loop h0 ≡ some es)
    × ((i j : ℕ)
        → HasEdge i j es ↔ (
            (c : ℕ) × In c (cut_points loop h0)
            × (i ≡ index_of c (cut_points loop h0))
            × FwdTo loop (cut_points loop h0) c j))
cpg_correct_example = cpg_correct loop h0 loop-IsCfg

cut_points_correct_example :
    Distinct (cut_points loop h1)
    × ((b : ℕ) → In b (cut_points loop h1) → In b loop.topo)
    × BackCut loop (cut_points loop h1)
cut_points_correct_example = cut_points_correct loop h1
