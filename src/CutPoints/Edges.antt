-- ===== src/CutPoints/Edges.antt =====
-- computeEdges: an edge for each pair that is linked, and no look-up of an edge that is not there.
use seahorn.Prelude.{
  ℕ, ◌≡◌, refl, ◌↔◌, inl, inr, true, false, none, some, List, [], ◌∷◌, In, Bool-cases, subst, ap,
  ap₂, sym, ◌∙◌,
}
use seahorn.CutPoints.BitVector.{HasBit, set_ids, set_ids_from_zero}
use seahorn.CutPoints.{BlockBitMap, elem, index_of, CpEdge, new_edges, push_sources, edges_from}
use seahorn.CutPoints.PushBlock.{HasEdge, SameEdges, push_sources_total, new_edges-HasEdge}

module _ (cps : List ℕ) (fwd bwd : BlockBitMap) where
  -- A cut point among `done`, and the id of one that it leads to.
  abbrev pub Linked : List ℕ → ℕ → ℕ → Type 0
  Linked done i j =
      (c : ℕ) × In c done × (elem c cps ≡ true) × (i ≡ index_of c cps) × HasBit (fwd c) j

  abbrev pub Exact : List ℕ → List CpEdge → Type 0
  Exact done es = (i j : ℕ) → HasEdge i j es ↔ Linked done i j

  -- What the look-ups at a block that is no cut point need.
  abbrev pub Ready : List ℕ → List ℕ → Type 0
  Ready done [] = Unit
  Ready done (b ∷ bs) =
      (elem b cps ≡ false → (i j : ℕ) → HasBit (bwd b) i → HasBit (fwd b) j → Linked done i j)
      × Ready (b ∷ done) bs

  Exact-cut :
      (done : List ℕ) (b : ℕ) (es : List CpEdge)
      → elem b cps ≡ true
      → Exact done es
      → Exact (b ∷ done) (new_edges (index_of b cps) b (set_ids (fwd b) 0) es)
  Exact-cut done b es is_cut exact i j =
      let (to, from) = new_edges-HasEdge (index_of b cps) b (set_ids (fwd b) 0) es i j in
      let (bit, id) = set_ids_from_zero (fwd b) j in
      (
        λ h. elim (to h) [
          | inl (e, mem) ↦ (b, inl refl, is_cut, e, bit mem)
          | inr old ↦ let (c, mem, cut, e, t) = (exact i j).0 old in (c, inr mem, cut, e, t)
        ],
        λ (c, mem, cut, e, t). elim mem [
          | inl same ↦
              from
                (inl (e ∙ ap (λ x. index_of x cps) same, id (subst (λ x. HasBit (fwd x) j) same t)))
          | inr old ↦ from (inr ((exact i j).1 (c, old, cut, e, t)))
        ],
      )

  Exact-block :
      (done : List ℕ) (b : ℕ) (es es' : List CpEdge)
      → elem b cps ≡ false
      → Exact done es
      → SameEdges es es'
      → Exact (b ∷ done) es'
  Exact-block done b es es' block exact same i j = (
    λ h. let (c, mem, cut, e, t) = (exact i j).0 ((same i j).0 h) in (c, inr mem, cut, e, t),
    λ (c, mem, cut, e, t). elim mem [
      | inl at ↦ let is_block = subst (λ x. elem x cps ≡ false) (sym at) block in cc
      | inr old ↦ (same i j).1 ((exact i j).1 (c, old, cut, e, t))
    ],
  )

  edges_from_cut :
      (b : ℕ) (bs : List ℕ) (es : List CpEdge)
      → elem b cps ≡ true
      → edges_from cps fwd bwd (b ∷ bs) es
        ≡ edges_from cps fwd bwd bs (new_edges (index_of b cps) b (set_ids (fwd b) 0) es)
  unfolding edges_from
  edges_from_cut b bs es h =
      ap
        (λ t. elim t [
          | true ↦ edges_from cps fwd bwd bs (new_edges (index_of b cps) b (set_ids (fwd b) 0) es)
          | false ↦ elim (push_sources (set_ids (bwd b) 0) b (set_ids (fwd b) 0) es) [
            | none ↦ none
            | some es' ↦ edges_from cps fwd bwd bs es'
          ]
        ])
        h

  edges_from_block :
      (b : ℕ) (bs : List ℕ) (es es1 : List CpEdge)
      → elem b cps ≡ false
      → push_sources (set_ids (bwd b) 0) b (set_ids (fwd b) 0) es ≡ some es1
      → edges_from cps fwd bwd (b ∷ bs) es ≡ edges_from cps fwd bwd bs es1
  unfolding edges_from
  edges_from_block b bs es es1 h h1 =
      ap₂
        (λ t o. elim t [
          | true ↦ edges_from cps fwd bwd bs (new_edges (index_of b cps) b (set_ids (fwd b) 0) es)
          | false ↦ elim o [ none ↦ none | some es' ↦ edges_from cps fwd bwd bs es' ]
        ])
        h h1

  -- The blocks that were passed, then the others.
  abbrev pub done_all : List ℕ → List ℕ → List ℕ
  done_all done [] = done
  done_all done (b ∷ bs) = done_all (b ∷ done) bs

  pub edges_from_total :
      (bs done : List ℕ) (es : List CpEdge)
      → Ready done bs
      → Exact done es
      → (es' : List CpEdge) × (edges_from cps fwd bwd bs es ≡ some es')
        × Exact (done_all done bs) es'
  unfolding edges_from
  edges_from_total [] done es ready exact = (es, refl, exact)
  edges_from_total (b ∷ bs) done es ready exact = elim (Bool-cases (elem b cps)) [
    | inl is_cut ↦
        let (es', out, exact') =
          edges_from_total bs (b ∷ done) (new_edges (index_of b cps) b (set_ids (fwd b) 0) es)
            ready.1 (Exact-cut done b es is_cut exact) in
        (es', edges_from_cut b bs es is_cut ∙ out, exact')
    | inr block ↦
        let linked : (i j : ℕ)
            → In i (set_ids (bwd b) 0)
            → In j (set_ids (fwd b) 0)
            → HasEdge i j es =
          λ i j p q. (exact i j).1 (
            ready.0 block i j ((set_ids_from_zero (bwd b) i).0 p)
              ((set_ids_from_zero (fwd b) j).0 q)) in
        let (es1, done1, same) =
          push_sources_total (set_ids (bwd b) 0) b (set_ids (fwd b) 0) es linked in
        let (es', out, exact') =
          edges_from_total bs (b ∷ done) es1 ready.1 (Exact-block done b es es1 block exact same) in
        (es', edges_from_block b bs es es1 block done1 ∙ out, exact')
  ]
