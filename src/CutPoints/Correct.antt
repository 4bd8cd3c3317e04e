-- ===== src/CutPoints/Correct.antt =====
-- The graph that runOnFunction builds, and isFwdReach, against paths of the control-flow graph.
use seahorn.Prelude.{
  Distinct, ℕ, ◌≡◌, refl, ◌↔◌, ◌⊎◌, inl, inr, true, false, List, [], ◌∷◌, In, some, arith,
  Bool-cases, subst, sym, ℕ_discrete,
}
use seahorn.CutPoints.BitVector.{HasBit}
use seahorn.CutPoints.{
  Cfg, ExtraCp, elem, index_of, BlockBitMap, fwd_reach, bwd_reach, is_fwd_reach, cut_points, CpEdge,
  cpg,
}
use seahorn.CutPoints.Paths.{
  Fwd, arrive, onward, Bwd, depart, extend, OrderedPreds, IsCfg, BackCut, elem-In, Fwd-Bwd,
}
use seahorn.CutPoints.Reach.{FwdTo, IsFwd, fwd_reach-IsFwd}
use seahorn.CutPoints.BackwardReach.{bwd_reach-IsBwd, fwd_edge}
use seahorn.CutPoints.Marks.{cut_points_correct}
use seahorn.CutPoints.Edges.{Ready, done_all, edges_from_total}
use seahorn.CutPoints.PushBlock.{HasEdge}

index_of-injective :
    (a c : ℕ) (cps : List ℕ)
    → elem a cps ≡ true
    → elem c cps ≡ true
    → index_of a cps ≡ index_of c cps
    → a ≡ c
unfolding elem index_of
index_of-injective a c [] p q e = cc
index_of-injective a c (x ∷ xs) p q e = ground (arith, index_of-injective a c xs)

Fwd-cut : (g : Cfg) (cps : List ℕ) (b c : ℕ) → Fwd g cps b c → elem c cps ≡ true
Fwd-cut g cps b c (arrive mem cut) = cut
Fwd-cut g cps b c (onward {m} mem block f) = Fwd-cut g cps m c f

Bwd-cut : (g : Cfg) (cps : List ℕ) (c b : ℕ) → Bwd g cps c b → elem c cps ≡ true
Bwd-cut g cps c b (depart mem cut) = cut
Bwd-cut g cps c b (extend {m} mem block f) = Bwd-cut g cps c m f

done_all-In :
    (x : ℕ) (bs done : List ℕ)
    → In x (done_all [] (λ b. []) (λ b. []) done bs) ↔ (In x done ⊎ In x bs)
done_all-In x [] done = (λ h. inl h, λ h. elim h [ inl q ↦ q | inr n ↦ absurd n ])
done_all-In x (b ∷ bs) done =
    let (to, from) = done_all-In x bs (b ∷ done) in
    (
      λ h. elim (to h) [ inl (inl e) ↦ inr (inl e) | inl (inr q) ↦ inl q | inr q ↦ inr (inr q) ],
      λ h. elim h [
        | inl q ↦ from (inl (inr q))
        | inr (inl e) ↦ from (inl (inl e))
        | inr (inr q) ↦ from (inr q)
      ],
    )

module _ (g : Cfg) (cps : List ℕ) (ok : IsCfg g) (cut : BackCut g cps) where
  pub fwd_reach_all : (b : ℕ) → In b g.topo → IsFwd g cps (fwd_reach g cps g.topo) b
  fwd_reach_all =
      fwd_reach-IsFwd g cps g.topo ok.forward
        (λ b s known mem back. cut b s (ok.succ_known b s known mem) ((ok.edges b s).1 mem) back)

  -- The blocks of `done` are of the order, and an edge into one that is no back-edge starts in it.
  abbrev Closed : List ℕ → Type 0
  Closed done =
      (x : ℕ)
      → In x done
      → In x g.topo × ((p : ℕ) → In p (g.preds x) → g.back_edge p x ≡ false → In p done)

  Bwd-In :
      (done : List ℕ) (c b : ℕ)
      → Closed done
      → In b g.topo
      → ((p : ℕ) → In p (g.preds b) → g.back_edge p b ≡ false → In p done)
      → elem b cps ≡ false
      → Bwd g cps c b
      → In c done
  Bwd-In done c b closed known preds block (depart mem is_cut) =
      preds c mem (fwd_edge g cps ok cut b c known block mem)
  Bwd-In done c b closed known preds block (extend {m} mem no_cut rest) =
      let (m_known, m_preds) = closed m (preds m mem (fwd_edge g cps ok cut b m known block mem)) in
      Bwd-In done c m closed m_known m_preds no_cut rest

  abbrev fwd : BlockBitMap
  fwd = fwd_reach g cps g.topo

  abbrev bwd : BlockBitMap
  bwd = bwd_reach g cps

  topo-Ready :
      Distinct cps
      → (done bs : List ℕ) → Closed done
      → ((x : ℕ) → In x bs → In x g.topo)
      → OrderedPreds g done bs
      → Ready cps fwd bwd done bs
  topo-Ready d done [] closed known o = tt
  topo-Ready d done (b ∷ bs) closed known o =
      let (new, preds, later) = o in
      let b_known : In b g.topo = known b (inl refl) in
      (
        λ block i j at_b to_j.
            let (c, from_c, ei) = (bwd_reach-IsBwd g cps ok cut d b b_known i).0 at_b in
            let (e, to_e, ej) = (fwd_reach_all b b_known j).0 to_j in
            let mem : In c done = Bwd-In done c b closed b_known preds block from_c in
            let path : Fwd g cps c e =
              Fwd-Bwd g cps c b e (λ p q. (ok.edges p q).0) block from_c to_e in
            (
              c,
              mem,
              Bwd-cut g cps c b from_c,
              ei,
              (fwd_reach_all c (closed c mem).0 j).1 (e, path, ej),
            ),
        topo-Ready d (b ∷ done) bs
            (λ x q. elim q [
              | inl same ↦ (
                subst (λ y. In y g.topo) (sym same) b_known,
                λ p mem back. inr (
                    preds p (subst (λ y. In p (g.preds y)) same mem)
                      (subst (λ y. g.back_edge p y ≡ false) same back)),
              )
              | inr old ↦ let (k, s) = closed x old in (k, λ p mem back. inr (s p mem back))
            ])
            (λ x q. known x (inr q)) later,
      )

fwd_reach_correct :
    (g : Cfg) (h : ExtraCp)
    → IsCfg g
    → (b c : ℕ) → In b g.topo
    → In c (cut_points g h)
    → HasBit (fwd_reach g (cut_points g h) g.topo b) (index_of c (cut_points g h))
      ↔ Fwd g (cut_points g h) b c
fwd_reach_correct g h ok b c known is_cp =
    let cps = cut_points g h in
    let (d, in_topo, cut) = cut_points_correct g h in
    let (to, from) = fwd_reach_all g cps ok cut b known (index_of c cps) in
    (
      λ t.
          let (e, path, same) = to t in
          subst (Fwd g cps b)
            (sym
              (index_of-injective c e cps ((elem-In c cps).1 is_cp) (Fwd-cut g cps b e path) same))
            path,
      λ path. from (c, path, refl),
    )

is_fwd_reach_correct :
    (g : Cfg) (h : ExtraCp)
    → IsCfg g
    → (c b : ℕ) → In c (cut_points g h)
    → In b g.topo
    → (is_fwd_reach (cut_points g h) (bwd_reach g (cut_points g h)) c b ≡ true)
      ↔ ((c ≡ b) ⊎ ((elem b (cut_points g h) ≡ false) × Bwd g (cut_points g h) c b))
unfolding is_fwd_reach
is_fwd_reach_correct g h ok c b is_cp known =
    let cps = cut_points g h in
    let (d, in_topo, cut) = cut_points_correct g h in
    let (to, from) = bwd_reach-IsBwd g cps ok cut d b known (index_of c cps) in
    elim (ℕ_discrete c b) [
      | yes e ↦ (λ t. inl e, λ r. ground arith)
      | no ne ↦ elim (Bool-cases (elem b cps)) [
        | inl is_cut ↦ (
          λ t. ground (arith, is_cut, ne),
          λ r. elim r [ inl e ↦ absurd (ne e) | inr (n, p) ↦ cc ],
        )
        | inr block ↦ (
          λ t.
              let (e, path, same) = to (ground (arith, block, ne, t)) in
              inr (
                block,
                subst (λ x. Bwd g cps x b)
                    (sym (
                      index_of-injective c e cps ((elem-In c cps).1 is_cp) (Bwd-cut g cps e b path)
                        same))
                    path,
              ),
          λ r. elim r [
            | inl e ↦ absurd (ne e)
            | inr (n, p) ↦ let bit = from (c, p, refl) in ground (arith, block, ne, bit)
          ],
        )
      ]
    ]

-- A bit of computeFwdReach at a block is set exactly if a path through blocks that are no cut points
-- leads from the block to the bit's cut point, and isFwdReach holds of a cut point and a block exactly
-- if the block is the cut point's, or is no cut point and such a path leads from the cut point to it.
-- The order of the blocks is topological and complete.
pub reach_correct :
    (g : Cfg) (h : ExtraCp)
    → IsCfg g
    → (b c : ℕ) → In b g.topo
    → In c (cut_points g h)
    → (HasBit (fwd_reach g (cut_points g h) g.topo b) (index_of c (cut_points g h))
        ↔ Fwd g (cut_points g h) b c)
      × ((is_fwd_reach (cut_points g h) (bwd_reach g (cut_points g h)) c b ≡ true)
          ↔ ((c ≡ b) ⊎ ((elem b (cut_points g h) ≡ false) × Bwd g (cut_points g h) c b)))
reach_correct g h ok b c known is_cp =
    (fwd_reach_correct g h ok b c known is_cp, is_fwd_reach_correct g h ok c b is_cp known)

-- No look-up of an edge gives a null pointer, and the graph has an edge between two cut points exactly
-- if a path through blocks that are none leads from the one to the other. The order of the blocks is
-- topological and complete.
pub cpg_correct :
    (g : Cfg) (h : ExtraCp)
    → IsCfg g
    → (es : List CpEdge) × (cpg g h ≡ some es)
      × ((i j : ℕ)
          → HasEdge i j es ↔ (
              (c : ℕ) × In c (cut_points g h)
              × (i ≡ index_of c (cut_points g h))
              × FwdTo g (cut_points g h) c j))
unfolding cpg
cpg_correct g h ok =
    let cps = cut_points g h in
    let (d, in_topo, cut) = cut_points_correct g h in
    let reach = fwd_reach_all g cps ok cut in
    let (es, done, exact) =
      edges_from_total cps (fwd_reach g cps g.topo) (bwd_reach g cps) g.topo [] []
        (topo-Ready g cps ok cut d [] g.topo (λ x n. absurd n) (λ x q. q) ok.backward)
        (λ i j. (λ n. absurd n, λ l. absurd l.1)) in
    (
      es,
      done,
      λ i j. (
        λ q.
            let (c, mem, is_cut, e, t) = (exact i j).0 q in
            let is_cp : In c cps = (elem-In c cps).0 is_cut in
            (c, is_cp, e, (reach c (in_topo c is_cp) j).0 t),
        λ (c, is_cp, e, to_j). (exact i j).1 (
          c,
          (done_all-In c g.topo []).1 (inr (in_topo c is_cp)),
          (elem-In c cps).1 is_cp,
          e,
          (reach c (in_topo c is_cp) j).1 to_j,
        ),
      ),
    )
