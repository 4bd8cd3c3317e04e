-- ===== src/CutPoints/Reach.antt =====
-- The bit vectors of computeFwdReach and computeBwdReach hold the cut points that paths lead to.
use seahorn.Prelude.{
  ℕ, ◌≡◌, refl, ◌↔◌, ◌⊎◌, inl, inr, true, false, List, [], ◌∷◌, In, if◌then◌else◌, arith,
  Bool-cases, subst, ap, sym, ◌∙◌, ℕ_discrete,
}
use seahorn.CutPoints.BitVector.{Bits, HasBit, set_bit, bit_or, test, set_bit-HasBit, bit_or-HasBit}
use seahorn.CutPoints.{Cfg, elem, index_of, BlockBitMap, update, reach_through, fwd_reach}
use seahorn.CutPoints.Paths.{Fwd, arrive, onward, Ordered}

module _ (cps : List ℕ) (m : BlockBitMap) where
  -- What one block of the list contributes.
  abbrev pub Gives : ℕ → ℕ → Type 0
  Gives i s = ((elem s cps ≡ true) × (i ≡ index_of s cps)) ⊎ ((elem s cps ≡ false) × HasBit (m s) i)

  abbrev one_step : Bits → ℕ → Bits
  one_step r s = if elem s cps then set_bit r (index_of s cps) else bit_or r (m s)

  one_step-HasBit : (s : ℕ) (r : Bits) (i : ℕ) → HasBit (one_step r s) i ↔ (HasBit r i ⊎ Gives i s)
  one_step-HasBit s r i = elim (Bool-cases (elem s cps)) [
    | inl cut ↦
        let (to, from) = set_bit-HasBit r (index_of s cps) i in
        rw cut (
          λ h. elim (to h) [ inl e ↦ inr (inl (refl, e)) | inr old ↦ inl old ],
          λ h. elim h [
            | inl old ↦ from (inr old)
            | inr (inl (_, e)) ↦ from (inl e)
            | inr (inr (n, _)) ↦ cc
          ],
        )
    | inr block ↦
        let (to, from) = bit_or-HasBit r (m s) i in
        rw block (
          λ h. elim (to h) [ inl old ↦ inl old | inr t ↦ inr (inr (refl, t)) ],
          λ h. elim h [
            | inl old ↦ from (inl old)
            | inr (inl (c, _)) ↦ cc
            | inr (inr (_, t)) ↦ from (inr t)
          ],
        )
  ]

  pub reach_through-HasBit :
      (ss : List ℕ) (r : Bits) (i : ℕ)
      → HasBit (reach_through cps m r ss) i ↔ (HasBit r i ⊎ ((s : ℕ) × In s ss × Gives i s))
  unfolding reach_through
  reach_through-HasBit [] r i = (λ h. inl h, λ h. elim h [ inl t ↦ t | inr q ↦ absurd q.1 ])
  reach_through-HasBit (s ∷ ss) r i =
      let (to, from) = reach_through-HasBit ss (one_step r s) i in
      let (one_to, one_from) = one_step-HasBit s r i in
      (
        λ h. elim (to h) [
          | inl t ↦ elim (one_to t) [ inl old ↦ inl old | inr gives ↦ inr (s, inl refl, gives) ]
          | inr (x, mem, gives) ↦ inr (x, inr mem, gives)
        ],
        λ h. elim h [
          | inl t ↦ from (inl (one_from (inl t)))
          | inr (x, inl same, gives) ↦ from (inl (one_from (inr (subst (Gives i) same gives))))
          | inr (x, inr mem, gives) ↦ from (inr (x, mem, gives))
        ],
      )

-- An update is seen at its block only.
pub update_same : (m : BlockBitMap) (b : ℕ) (r : Bits) → update m b r b ≡ r
update_same m b r = ground arith

pub update_other : (m : BlockBitMap) (b c : ℕ) (r : Bits) → ¬ (c ≡ b) → update m b r c ≡ m c
update_other m b c r n = ground (arith, n)

module _ (g : Cfg) (cps : List ℕ) where
  abbrev pub FwdTo : ℕ → ℕ → Type 0
  FwdTo b i = (c : ℕ) × Fwd g cps b c × (i ≡ index_of c cps)

  abbrev pub IsFwd : BlockBitMap → ℕ → Type 0
  IsFwd m b = (i : ℕ) → HasBit (m b) i ↔ FwdTo b i

  abbrev FwdKnown : BlockBitMap → ℕ → Type 0
  FwdKnown m b = (s : ℕ) → In s (g.succs b) → elem s cps ≡ false → IsFwd m s

  Fwd-Gives :
      (m : BlockBitMap) (b i c : ℕ)
      → FwdKnown m b
      → Fwd g cps b c
      → i ≡ index_of c cps
      → (s : ℕ) × In s (g.succs b) × Gives cps m i s
  Fwd-Gives m b i c known (arrive mem cut) e = (c, mem, inl (cut, e))
  Fwd-Gives m b i c known (onward {m = s} mem block f) e =
      (s, mem, inr (block, (known s mem block i).1 (c, f, e)))

  Gives-Fwd :
      (m : BlockBitMap) (b i s : ℕ) → FwdKnown m b → In s (g.succs b) → Gives cps m i s → FwdTo b i
  Gives-Fwd m b i s known mem (inl (cut, e)) = (s, arrive mem cut, e)
  Gives-Fwd m b i s known mem (inr (block, t)) =
      let (c, f, e) = (known s mem block i).0 t in (c, onward mem block f, e)

  block-IsFwd :
      (m : BlockBitMap) (b : ℕ)
      → m b ≡ []
      → FwdKnown m b
      → IsFwd (update m b (reach_through cps m (m b) (g.succs b))) b
  unfolding test
  block-IsFwd m b fresh known i =
      let (to, from) = reach_through-HasBit cps m (g.succs b) (m b) i in
      rw (update_same m b (reach_through cps m (m b) (g.succs b))) (
        λ h. elim (to h) [
          | inl t ↦ let none_set = ap (λ r. test r i) fresh in cc
          | inr (s, mem, gives) ↦ Gives-Fwd m b i s known mem gives
        ],
        λ h. from (inr (Fwd-Gives m b i h.0 known h.1 h.2)),
      )

  -- Outside the list nothing is set.
  fwd_reach_outside : (xs : List ℕ) (b : ℕ) → ¬ In b xs → fwd_reach g cps xs b ≡ []
  unfolding fwd_reach
  fwd_reach_outside [] b n = refl
  fwd_reach_outside (x ∷ xs) b n =
      update_other (fwd_reach g cps xs) x b _ (λ e. n (inl e))
      ∙ fwd_reach_outside xs b (λ q. n (inr q))

  abbrev pub BackCutIn : List ℕ → Type 0
  BackCutIn xs = (b s : ℕ) → In b xs → In s (g.succs b) → g.back_edge b s ≡ true → elem s cps ≡ true

  pub fwd_reach-IsFwd :
      (xs : List ℕ) → Ordered g xs → BackCutIn xs → (b : ℕ) → In b xs → IsFwd (fwd_reach g cps xs) b
  unfolding fwd_reach
  fwd_reach-IsFwd [] o cut b h = absurd h
  fwd_reach-IsFwd (x ∷ xs) o cut b h =
      let m = fwd_reach g cps xs in
      let (new, later, o') = o in
      let rest : (c : ℕ) → In c xs → IsFwd m c =
        fwd_reach-IsFwd xs o' (λ c s mem. cut c s (inr mem)) in
      let known : FwdKnown m x = λ s mem block. elim (Bool-cases (g.back_edge x s)) [
        | inl back ↦ let c = cut x s (inl refl) mem back in cc
        | inr fwd ↦ rest s (later s mem fwd)
      ] in
      elim (ℕ_discrete b x) [
        | yes e ↦
            subst (IsFwd (update m x (reach_through cps m (m x) (g.succs x)))) (sym e)
              (block-IsFwd m x (fwd_reach_outside xs x new) known)
        | no ne ↦ λ i.
            rw (update_other m x b (reach_through cps m (m x) (g.succs x)) ne)
              (rest b (elim h [ inl e ↦ absurd (ne e) | inr q ↦ q ]) i)
      ]
