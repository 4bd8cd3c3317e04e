-- ===== src/CutPoints/PushBlock.antt =====
-- getEdge and newEdge: which pairs of cut points are linked.
use seahorn.Prelude.{
  ℕ, ◌≡◌, refl, ◌↔◌, ◌⊎◌, inl, inr, true, none, some, List, [], ◌∷◌, ◌++◌, In, arith, Bool-cases,
  ap, sym, ◌∙◌,
}
use seahorn.CutPoints.{CpEdge, joins, push_block, new_edges, push_targets, push_sources}

abbrev pub HasEdge : ℕ → ℕ → List CpEdge → Type 0
HasEdge i j [] = ⊥
HasEdge i j (e ∷ es) = ((e.source ≡ i) × (e.target ≡ j)) ⊎ HasEdge i j es

-- The same pairs are linked.
abbrev pub SameEdges : List CpEdge → List CpEdge → Type 0
SameEdges es es' = (i j : ℕ) → HasEdge i j es' ↔ HasEdge i j es

SameEdges-trans : (a b c : List CpEdge) → SameEdges a b → SameEdges b c → SameEdges a c
SameEdges-trans a b c p q i j = (λ h. (p i j).0 ((q i j).0 h), λ h. (q i j).1 ((p i j).1 h))

joins_iff : (i j : ℕ) (e : CpEdge) → (joins i j e ≡ true) ↔ ((e.source ≡ i) × (e.target ≡ j))
joins_iff i j e = ground arith

push_block_total :
    (i j b : ℕ) (es : List CpEdge)
    → HasEdge i j es
    → (es' : List CpEdge) × (push_block i j b es ≡ some es') × SameEdges es es'
unfolding push_block
push_block_total i j b [] h = absurd h
push_block_total i j b (e ∷ es) h = elim (Bool-cases (joins i j e)) [
  | inl here ↦
      (record e { blocks = e.blocks ++ b ∷ [] } ∷ es, rw here refl, λ k l. (λ q. q, λ q. q))
  | inr further ↦
      let later : HasEdge i j es = elim h [
        | inl q ↦ let here = (joins_iff i j e).1 q in cc
        | inr q ↦ q
      ] in
      let (es', done, same) = push_block_total i j b es later in
      (
        e ∷ es',
        rw (further, done) refl,
        λ k l. (
          λ q. elim q [ inl x ↦ inl x | inr x ↦ inr ((same k l).0 x) ],
          λ q. elim q [ inl x ↦ inl x | inr x ↦ inr ((same k l).1 x) ],
        ),
      )
]

push_targets_first :
    (i b j : ℕ) (js : List ℕ) (es es1 : List CpEdge)
    → push_block i j b es ≡ some es1
    → push_targets i b (j ∷ js) es ≡ push_targets i b js es1
unfolding push_targets
push_targets_first i b j js es es1 h =
    ap (λ o. elim o [ none ↦ none | some es' ↦ push_targets i b js es' ]) h

push_sources_first :
    (i b : ℕ) (is js : List ℕ) (es es1 : List CpEdge)
    → push_targets i b js es ≡ some es1
    → push_sources (i ∷ is) b js es ≡ push_sources is b js es1
unfolding push_sources
push_sources_first i b is js es es1 h =
    ap (λ o. elim o [ none ↦ none | some es' ↦ push_sources is b js es' ]) h

push_targets_total :
    (i b : ℕ) (js : List ℕ) (es : List CpEdge)
    → ((j : ℕ) → In j js → HasEdge i j es)
    → (es' : List CpEdge) × (push_targets i b js es ≡ some es') × SameEdges es es'
unfolding push_targets
push_targets_total i b [] es h = (es, refl, λ k l. (λ q. q, λ q. q))
push_targets_total i b (j ∷ js) es h =
    let (es1, done1, same1) = push_block_total i j b es (h j (inl refl)) in
    let (es2, done2, same2) = push_targets_total i b js es1 (λ l q. (same1 i l).1 (h l (inr q))) in
    (es2, push_targets_first i b j js es es1 done1 ∙ done2, SameEdges-trans es es1 es2 same1 same2)

pub push_sources_total :
    (is : List ℕ) (b : ℕ) (js : List ℕ) (es : List CpEdge)
    → ((i j : ℕ) → In i is → In j js → HasEdge i j es)
    → (es' : List CpEdge) × (push_sources is b js es ≡ some es') × SameEdges es es'
unfolding push_sources
push_sources_total [] b js es h = (es, refl, λ k l. (λ q. q, λ q. q))
push_sources_total (i ∷ is) b js es h =
    let (es1, done1, same1) = push_targets_total i b js es (λ j q. h i j (inl refl) q) in
    let (es2, done2, same2) =
      push_sources_total is b js es1 (λ k l p q. (same1 k l).1 (h k l (inr p) q)) in
    (es2, push_sources_first i b is js es es1 done1 ∙ done2, SameEdges-trans es es1 es2 same1 same2)

HasEdge-append :
    (i j k l b : ℕ) (es : List CpEdge)
    → HasEdge k l (es ++ record { source = i; target = j; blocks = b ∷ [] } ∷ [])
      ↔ (((k ≡ i) × (l ≡ j)) ⊎ HasEdge k l es)
HasEdge-append i j k l b [] = (
  λ h. elim h [ inl e ↦ inl (sym e.0, sym e.1) | inr n ↦ absurd n ],
  λ h. elim h [ inl e ↦ inl (sym e.0, sym e.1) | inr n ↦ absurd n ],
)
HasEdge-append i j k l b (e ∷ es) =
    let (to, from) = HasEdge-append i j k l b es in
    (
      λ h. elim h [
        | inl q ↦ inr (inl q)
        | inr q ↦ elim (to q) [ inl new ↦ inl new | inr old ↦ inr (inr old) ]
      ],
      λ h. elim h [
        | inl new ↦ inr (from (inl new))
        | inr (inl q) ↦ inl q
        | inr (inr q) ↦ inr (from (inr q))
      ],
    )

pub new_edges-HasEdge :
    (i b : ℕ) (js : List ℕ) (es : List CpEdge) (k l : ℕ)
    → HasEdge k l (new_edges i b js es) ↔ (((k ≡ i) × In l js) ⊎ HasEdge k l es)
unfolding new_edges
new_edges-HasEdge i b [] es k l = (λ h. inr h, λ h. elim h [ inl q ↦ absurd q.1 | inr q ↦ q ])
new_edges-HasEdge i b (j ∷ js) es k l =
    let (to, from) =
      new_edges-HasEdge i b js (es ++ record { source = i; target = j; blocks = b ∷ [] } ∷ []) k
        l in
    let (last_to, last_from) = HasEdge-append i j k l b es in
    (
      λ h. elim (to h) [
        | inl (e, mem) ↦ inl (e, inr mem)
        | inr q ↦ elim (last_to q) [ inl (e, e') ↦ inl (e, inl e') | inr old ↦ inr old ]
      ],
      λ h. elim h [
        | inl (e, inl e') ↦ from (inr (last_from (inl (e, e'))))
        | inl (e, inr mem) ↦ from (inl (e, mem))
        | inr old ↦ from (inr (last_from (inr old)))
      ],
    )
