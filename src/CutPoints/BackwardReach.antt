-- ===== src/CutPoints/BackwardReach.antt =====
-- computeBwdReach as a whole, and isFwdReach.
use seahorn.Prelude.{
  Distinct, ℕ, ◌≡◌, refl, ◌⊎◌, inl, inr, true, false, List, [], In, Bool-cases, subst, sym,
}
use seahorn.CutPoints.BitVector.{HasBit}
use seahorn.CutPoints.{Cfg, elem, index_of, BlockBitMap, preds_by, bwd_pass, bwd_reach}
use seahorn.CutPoints.Paths.{Bwd, depart, extend, IsCfg, BackCut, elem-In}
use seahorn.CutPoints.Reach.{Gives}
use seahorn.CutPoints.Backward.{
  preds_by-In, no_back, BwdTo, IsBwd, first_pass-IsBwd, second_pass-block, second_pass-cut,
}

module _ (g : Cfg) (cps : List ℕ) (ok : IsCfg g) (cut : BackCut g cps) where
  pub fwd_edge :
      (b p : ℕ) → In b g.topo → elem b cps ≡ false → In p (g.preds b) → g.back_edge p b ≡ false
  fwd_edge b p known block mem = elim (Bool-cases (g.back_edge p b)) [
    | inl back ↦ let is_cut = cut p b known mem back in cc
    | inr fwd ↦ fwd
  ]

  -- Into a block that is no cut point, a path has no back-edge.
  Bwd-no_back :
      (c b : ℕ) → In b g.topo → elem b cps ≡ false → Bwd g cps c b → Bwd (no_back g cps) cps c b
  Bwd-no_back c b known block (depart mem is_cut) =
      depart ((preds_by-In g false b c (g.preds b)).1 (mem, fwd_edge b c known block mem)) is_cut
  Bwd-no_back c b known block (extend {m} mem no_cut rest) =
      extend ((preds_by-In g false b m (g.preds b)).1 (mem, fwd_edge b m known block mem)) no_cut
        (Bwd-no_back c m (ok.pred_known m b known mem) no_cut rest)

  no_back-Bwd : (c b : ℕ) → Bwd (no_back g cps) cps c b → Bwd g cps c b
  no_back-Bwd c b (depart mem is_cut) =
      depart ((preds_by-In g false b c (g.preds b)).0 mem).0 is_cut
  no_back-Bwd c b (extend {m} mem no_cut rest) =
      extend ((preds_by-In g false b m (g.preds b)).0 mem).0 no_cut (no_back-Bwd c m rest)

  first : BlockBitMap
  first = bwd_pass g cps false g.topo (λ b. [])

  abbrev BackGives : ℕ → ℕ → Type 0
  BackGives b i = (p : ℕ) × In p (preds_by g true b (g.preds b)) × Gives cps first i p

  first-IsBwd : (b : ℕ) → In b g.topo → IsBwd g cps (no_back g cps) first b
  unfolding first
  first-IsBwd b h =
      first_pass-IsBwd g cps g.topo [] (λ b. []) ok.backward (λ c n. absurd n) (λ c n. refl) b
        (inr h)

  first-to : (b i : ℕ) → In b g.topo → HasBit (first b) i → BwdTo g cps g b i
  first-to b i h t = let (c, p, e) = (first-IsBwd b h i).0 t in (c, no_back-Bwd c b p, e)

  back-to : (b i : ℕ) → In b g.topo → BackGives b i → BwdTo g cps g b i
  back-to b i h (p, mem, inl (is_cut, e)) =
      (p, depart ((preds_by-In g true b p (g.preds b)).0 mem).0 is_cut, e)
  back-to b i h (p, mem, inr (no_cut, t)) =
      let pred : In p (g.preds b) = ((preds_by-In g true b p (g.preds b)).0 mem).0 in
      let (c, path, e) = first-to p i (ok.pred_known p b h pred) t in
      (c, extend pred no_cut path, e)

  from_block :
      (b c : ℕ)
      → In b g.topo
      → elem b cps ≡ false
      → Bwd g cps c b
      → HasBit (first b) (index_of c cps)
  from_block b c h block path =
      (first-IsBwd b h (index_of c cps)).1 (c, Bwd-no_back c b h block path, refl)

  -- The last edge of a path is a back-edge, or the path is one of the first loop.
  from_path :
      (b c : ℕ)
      → In b g.topo
      → Bwd g cps c b
      → HasBit (first b) (index_of c cps) ⊎ BackGives b (index_of c cps)
  from_path b c h (depart mem is_cut) = elim (Bool-cases (g.back_edge c b)) [
    | inl back ↦ inr (c, (preds_by-In g true b c (g.preds b)).1 (mem, back), inl (is_cut, refl))
    | inr fwd ↦ inl (
        (first-IsBwd b h (index_of c cps)).1
          (c, depart ((preds_by-In g false b c (g.preds b)).1 (mem, fwd)) is_cut, refl))
  ]
  from_path b c h (extend {m} mem no_cut rest) =
      let known : In m g.topo = ok.pred_known m b h mem in
      elim (Bool-cases (g.back_edge m b)) [
        | inl back ↦ inr (
          m,
          (preds_by-In g true b m (g.preds b)).1 (mem, back),
          inr (no_cut, from_block m c known no_cut rest),
        )
        | inr fwd ↦ inl (
            (first-IsBwd b h (index_of c cps)).1 (
              c,
              extend ((preds_by-In g false b m (g.preds b)).1 (mem, fwd)) no_cut
                  (Bwd-no_back c m known no_cut rest),
              refl,
            ))
      ]

  pub bwd_reach-IsBwd : Distinct cps → (b : ℕ) → In b g.topo → IsBwd g cps g (bwd_reach g cps) b
  unfolding bwd_reach first
  bwd_reach-IsBwd d b h i = elim (Bool-cases (elem b cps)) [
    | inl is_cut ↦
        let (to, from) =
          second_pass-cut g cps cps first first d (λ x q. (elem-In x cps).1 q) (λ x q. refl)
            (λ x q. refl) b ((elem-In b cps).0 is_cut) i in
        (
          λ t. elim (to t) [ inl early ↦ first-to b i h early | inr back ↦ back-to b i h back ],
          λ r.
              from
                (subst (λ k. HasBit (first b) k ⊎ BackGives b k) (sym r.2) (from_path b r.0 h r.1)),
        )
    | inr block ↦
        let same : bwd_reach g cps b ≡ first b =
          second_pass-block g cps cps first b (λ q. let is_cut = (elem-In b cps).1 q in cc) in
        (
          λ t. first-to b i h (subst (λ r. HasBit r i) same t),
          λ r.
              subst (λ v. HasBit v i) (sym same)
                (subst (λ k. HasBit (first b) k) (sym r.2) (from_block b r.0 h block r.1)),
        )
  ]
