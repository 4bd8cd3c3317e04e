-- ===== src/CutPoints/Backward.antt =====
-- computeBwdReach: the first loop along edges that are no back-edges, the second one for the rest.
use seahorn.Prelude.{
  Distinct, ℕ, ◌≡◌, refl, ◌↔◌, ◌⊎◌, inl, inr, Bool, true, false, List, [], ◌∷◌, In, arith,
  Bool-cases, subst, ap, sym, ◌∙◌,
}
use seahorn.CutPoints.BitVector.{Bits, HasBit, test}
use seahorn.CutPoints.{
  Cfg, elem, index_of, BlockBitMap, update, reach_through, is_side, preds_by, bwd_pass,
}
use seahorn.CutPoints.Paths.{Bwd, depart, extend, OrderedPreds}
use seahorn.CutPoints.Reach.{Gives, reach_through-HasBit, update_same, update_other}

is_side_iff : (back e : Bool) → (is_side back e ≡ true) ↔ (e ≡ back)
is_side_iff true e = (λ h. h, λ h. h)
is_side_iff false e = ground arith

pub preds_by-In :
    (g : Cfg) (back : Bool) (b p : ℕ) (ps : List ℕ)
    → In p (preds_by g back b ps) ↔ (In p ps × (g.back_edge p b ≡ back))
unfolding preds_by
preds_by-In g back b p [] = (λ h. absurd h, λ h. absurd h.0)
preds_by-In g back b p (q ∷ ps) = elim (Bool-cases (is_side back (g.back_edge q b))) [
  | inl kept ↦
      let (to, from) = preds_by-In g back b p ps in
      let side : g.back_edge q b ≡ back = (is_side_iff back (g.back_edge q b)).0 kept in
      rw kept (
        λ h. elim h [
          | inl e ↦ (inl e, ap (λ x. g.back_edge x b) e ∙ side)
          | inr later ↦ let (mem, e) = to later in (inr mem, e)
        ],
        λ h. elim h.0 [ inl e ↦ inl e | inr mem ↦ inr (from (mem, h.1)) ],
      )
  | inr left ↦
      let (to, from) = preds_by-In g back b p ps in
      rw left (
        λ h. let (mem, e) = to h in (inr mem, e),
        λ h. elim h.0 [
          | inl e ↦
              let side =
                (is_side_iff back (g.back_edge q b)).1 (sym (ap (λ x. g.back_edge x b) e) ∙ h.1) in
              cc
          | inr mem ↦ from (mem, h.1)
        ],
      )
]

module _ (g : Cfg) (cps : List ℕ) where
  -- The graph without its back-edges, seen from the targets.
  abbrev pub no_back : Cfg
  no_back = record g { preds = λ b. preds_by g false b (g.preds b) }

  abbrev pub BwdTo : Cfg → ℕ → ℕ → Type 0
  BwdTo k b i = (c : ℕ) × Bwd k cps c b × (i ≡ index_of c cps)

  abbrev pub IsBwd : Cfg → BlockBitMap → ℕ → Type 0
  IsBwd k m b = (i : ℕ) → HasBit (m b) i ↔ BwdTo k b i

  BwdKnown : Cfg → BlockBitMap → ℕ → Type 0
  BwdKnown k m b = (p : ℕ) → In p (k.preds b) → elem p cps ≡ false → IsBwd k m p

  Bwd-Gives :
      (k : Cfg) (m : BlockBitMap) (b i c : ℕ)
      → ((p : ℕ) → In p (k.preds b) → elem p cps ≡ false → IsBwd k m p)
      → Bwd k cps c b
      → i ≡ index_of c cps
      → (p : ℕ) × In p (k.preds b) × Gives cps m i p
  Bwd-Gives k m b i c known (depart mem cut) e = (c, mem, inl (cut, e))
  Bwd-Gives k m b i c known (extend {m = p} mem block f) e =
      (p, mem, inr (block, (known p mem block i).1 (c, f, e)))

  Gives-Bwd :
      (k : Cfg) (m : BlockBitMap) (b i p : ℕ)
      → ((p : ℕ) → In p (k.preds b) → elem p cps ≡ false → IsBwd k m p)
      → In p (k.preds b)
      → Gives cps m i p
      → BwdTo k b i
  Gives-Bwd k m b i p known mem (inl (cut, e)) = (p, depart mem cut, e)
  Gives-Bwd k m b i p known mem (inr (block, t)) =
      let (c, f, e) = (known p mem block i).0 t in (c, extend mem block f, e)

  fresh-In : (done xs : List ℕ) (c : ℕ) → OrderedPreds g done xs → In c xs → ¬ In c done
  fresh-In done (x ∷ xs) c o (inl e) d = o.0 (subst (λ y. In y done) e d)
  fresh-In done (x ∷ xs) c o (inr q) d = fresh-In (x ∷ done) xs c o.2 q (inr d)
  fresh-In done [] c o h d = h

  block-IsBwd :
      (m : BlockBitMap) (b : ℕ)
      → m b ≡ []
      → ((p : ℕ) → In p (no_back.preds b) → elem p cps ≡ false → IsBwd no_back m p)
      → IsBwd no_back (update m b (reach_through cps m (m b) (no_back.preds b))) b
  unfolding test
  block-IsBwd m b fresh known i =
      let (to, from) = reach_through-HasBit cps m (no_back.preds b) (m b) i in
      rw (update_same m b (reach_through cps m (m b) (no_back.preds b))) (
        λ h. elim (to h) [
          | inl t ↦ let none_set = ap (λ r. test r i) fresh in cc
          | inr (p, mem, gives) ↦ Gives-Bwd no_back m b i p known mem gives
        ],
        λ h. from (inr (Bwd-Gives no_back m b i h.0 known h.1 h.2)),
      )

  -- The first loop, from a state in which the blocks before are right and those to come are empty.
  pub first_pass-IsBwd :
      (xs done : List ℕ) (m : BlockBitMap)
      → OrderedPreds g done xs
      → ((b : ℕ) → In b done → IsBwd no_back m b)
      → ((b : ℕ) → In b xs → m b ≡ [])
      → (b : ℕ) → In b done ⊎ In b xs
      → IsBwd no_back (bwd_pass g cps false xs m) b
  unfolding bwd_pass
  first_pass-IsBwd [] done m o right fresh b (inl d) = right b d
  first_pass-IsBwd [] done m o right fresh b (inr n) = absurd n
  first_pass-IsBwd (x ∷ xs) done m o right fresh b h =
      let m1 = update m x (reach_through cps m (m x) (no_back.preds x)) in
      let known : (p : ℕ) → In p (no_back.preds x) → elem p cps ≡ false → IsBwd no_back m p =
        λ p mem block.
          let (is_pred, fwd) = (preds_by-In g false x p (g.preds x)).0 mem in
          right p (o.1 p is_pred fwd) in
      let right1 : (c : ℕ) → In c (x ∷ done) → IsBwd no_back m1 c = λ c d. elim d [
        | inl e ↦ subst (IsBwd no_back m1) (sym e) (block-IsBwd m x (fresh x (inl refl)) known)
        | inr old ↦ λ i.
            rw
              (update_other m x c (reach_through cps m (m x) (no_back.preds x))
                (λ e. o.0 (subst (λ y. In y done) e old)))
              (right c old i)
      ] in
      let fresh1 : (c : ℕ) → In c xs → m1 c ≡ [] = λ c q.
        update_other m x c _ (λ e. fresh-In (x ∷ done) xs c o.2 q (inl e)) ∙ fresh c (inr q) in
      first_pass-IsBwd xs (x ∷ done) m1 o.2 right1 fresh1 b
        (elim h [ inl d ↦ inl (inr d) | inr (inl e) ↦ inl (inl e) | inr (inr q) ↦ inr q ])

  -- The second loop changes cut points only, and adds to each what its back-edges bring.
  pub second_pass-block :
      (xs : List ℕ) (m : BlockBitMap) (b : ℕ) → ¬ In b xs → bwd_pass g cps true xs m b ≡ m b
  unfolding bwd_pass
  second_pass-block [] m b n = refl
  second_pass-block (x ∷ xs) m b n =
      second_pass-block xs _ b (λ q. n (inr q)) ∙ update_other m x b _ (λ e. n (inl e))

  abbrev back_value : BlockBitMap → ℕ → Bits
  back_value m b = reach_through cps m (m b) (preds_by g true b (g.preds b))

  -- Two maps that agree on a block and on its predecessors that are no cut points.
  Gives-agree :
      (m n : BlockBitMap) (i p : ℕ)
      → (elem p cps ≡ false → m p ≡ n p)
      → Gives cps m i p
      → Gives cps n i p
  Gives-agree m n i p same (inl h) = inl h
  Gives-agree m n i p same (inr (block, t)) = inr (block, subst (λ r. HasBit r i) (same block) t)

  abbrev pub Extends : BlockBitMap → BlockBitMap → ℕ → Type 0
  Extends m m' b =
      (i : ℕ)
      → HasBit (m' b) i
        ↔ (HasBit (m b) i ⊎ ((p : ℕ) × In p (preds_by g true b (g.preds b)) × Gives cps m i p))

  second_pass-head :
      (xs : List ℕ) (m n : BlockBitMap) (x : ℕ)
      → ¬ In x xs
      → ((c : ℕ) → elem c cps ≡ false → n c ≡ m c)
      → n x ≡ m x
      → Extends m (bwd_pass g cps true xs (update n x (back_value n x))) x
  second_pass-head xs m n x new same_block same i =
      let (to, from) = reach_through-HasBit cps n (preds_by g true x (g.preds x)) (n x) i in
      let value : bwd_pass g cps true xs (update n x (back_value n x)) x ≡ back_value n x =
        second_pass-block xs (update n x (back_value n x)) x new
        ∙ update_same n x (back_value n x) in
      rw value (
        λ h. elim (to h) [
          | inl t ↦ inl (subst (λ r. HasBit r i) same t)
          | inr (p, mem, gives) ↦ inr (p, mem, Gives-agree n m i p (same_block p) gives)
        ],
        λ h. elim h [
          | inl t ↦ from (inl (subst (λ r. HasBit r i) (sym same) t))
          | inr (p, mem, gives) ↦
              from (inr (p, mem, Gives-agree m n i p (λ q. sym (same_block p q)) gives))
        ],
      )

  pub second_pass-cut :
      (xs : List ℕ) (m n : BlockBitMap)
      → Distinct xs
      → ((x : ℕ) → In x xs → elem x cps ≡ true)
      → ((x : ℕ) → elem x cps ≡ false → n x ≡ m x)
      → ((x : ℕ) → In x xs → n x ≡ m x)
      → (b : ℕ) → In b xs
      → Extends m (bwd_pass g cps true xs n) b
  unfolding bwd_pass
  second_pass-cut [] m n d cut same_block same_cut b h = absurd h
  second_pass-cut (x ∷ xs) m n d cut same_block same_cut b h =
      let n1 = update n x (back_value n x) in
      elim h [
        | inl e ↦
            subst (Extends m (bwd_pass g cps true xs n1)) (sym e)
              (second_pass-head xs m n x d.0 same_block (same_cut x (inl refl)))
        | inr q ↦
            second_pass-cut xs m n1 d.1 (λ c mem. cut c (inr mem))
              (λ c block.
                update_other n x c (back_value n x) (λ e.
                  let is_cut = cut x (inl refl) in
                  let no_cut = subst (λ y. elem y cps ≡ false) e block in cc)
                ∙ same_block c block)
              (λ c mem.
                update_other n x c (back_value n x) (λ e. d.0 (subst (λ y. In y xs) e mem))
                ∙ same_cut c (inr mem))
              b q
      ]
