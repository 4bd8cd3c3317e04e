-- ===== src/Live/Progress.antt =====
-- What a pass of globalPass keeps: sorted vectors, definitions, bounds; and that it makes progress.
use seahorn.Prelude.{
  ℕ, suc, ◌+◌, ◌≤◌, ◌<◌, ◌≡◌, refl, true, false, List, [], ◌∷◌, In, arith, subst, ap, sym, ◌∙◌,
  ℕ_discrete,
}
use seahorn.Live.{LiveMap, add_live, edge_defs_at, new_live, PassState, grow, pass_blocks, Function}
use seahorn.Live.Sorted.{copies}
use seahorn.Live.Pass.{
  live_at, demand, SortedInfo, SortedMap, copies-add_live, add_live-SortedInfo, add_live_defs,
  copies-new_live, AllEdges, blocks_keep,
}

-- The definitions are the same, and what is live stays live.
abbrev pub Extends : LiveMap → LiveMap → Type 0
Extends m m' =
    ((b : ℕ) → ((m' b).defs ≡ (m b).defs) × ((m' b).edge_defs ≡ (m b).edge_defs))
    × ((b x : ℕ) → live_at m b x ≤ live_at m' b x)

pub Extends-refl : (m : LiveMap) → Extends m m
Extends-refl m = (λ b. (refl, refl), λ b x. omega arith)

pub Extends-trans : (a b c : LiveMap) → Extends a b → Extends b c → Extends a c
Extends-trans a b c p q = (
  λ k. ((q.0 k).0 ∙ (p.0 k).0, (q.0 k).1 ∙ (p.0 k).1),
  λ k x. let p1 = p.1 k x in let q1 = q.1 k x in omega (arith, p1, q1),
)

grow_other :
    (src : ℕ) (v : List ℕ) (s : PassState) (b : ℕ)
    → ¬ (b ≡ src)
    → (grow src v s).infos b ≡ s.infos b
unfolding grow
grow_other src [] s b n = refl
grow_other src (x ∷ w) s b n = ground (arith, n)

grow_same :
    (src : ℕ) (v : List ℕ) (s : PassState) → (grow src v s).infos src ≡ add_live v (s.infos src)
unfolding grow add_live
grow_same src [] s = refl
grow_same src (x ∷ w) s = ground arith

module _ (src : ℕ) (v : List ℕ) (s : PassState) where
  abbrev grown : LiveMap
  grown = (grow src v s).infos

  grown_at : (x : ℕ) → live_at grown src x ≡ live_at (s.infos) src x + copies x v
  grown_at x = ap (λ li. copies x (li.live)) (grow_same src v s) ∙ copies-add_live x v (s.infos src)

  grown_at_other : (b x : ℕ) → ¬ (b ≡ src) → live_at grown b x ≡ live_at (s.infos) b x
  grown_at_other b x n = ap (λ li. copies x (li.live)) (grow_other src v s b n)

  abbrev SameDefs : ℕ → Type 0
  SameDefs b = ((grown b).defs ≡ (s.infos b).defs) × ((grown b).edge_defs ≡ (s.infos b).edge_defs)

  grow-Extends : Extends (s.infos) grown
  grow-Extends = (
    λ b. elim (ℕ_discrete b src) [
      | yes e ↦
          let (d, es) = add_live_defs v (s.infos src) in
          subst SameDefs (sym e) (
            ap (λ li. li.defs) (grow_same src v s) ∙ d,
            ap (λ li. li.edge_defs) (grow_same src v s) ∙ es,
          )
      | no n ↦ (
        ap (λ li. li.defs) (grow_other src v s b n),
        ap (λ li. li.edge_defs) (grow_other src v s b n),
      )
    ],
    λ b x. elim (ℕ_discrete b src) [
      | yes e ↦
          let more = grown_at x in
          subst (λ y. live_at (s.infos) y x ≤ live_at grown y x) (sym e) (omega (arith, more))
      | no n ↦ let same = grown_at_other b x n in omega (arith, same)
    ],
  )

  grow-SortedMap : SortedMap (s.infos) → SortedMap grown
  grow-SortedMap h b = elim (ℕ_discrete b src) [
    | yes e ↦
        subst (λ y. SortedInfo (grown y)) (sym e)
          (subst SortedInfo (sym (grow_same src v s)) (add_live-SortedInfo v (s.infos src) (h src)))
    | no n ↦ subst SortedInfo (sym (grow_other src v s b n)) (h b)
  ]

-- An assignment of copies to blocks that is closed under the edges, and bounds what is live.
abbrev pub Solves : Function → LiveMap → (ℕ → ℕ → ℕ) → Type 0
Solves f m l =
    (src : ℕ)
    → In src f.rtopo
    → AllEdges (λ i dst. (x : ℕ) → demand m l src i dst x ≤ l src x) 0 (f.succs src)

abbrev pub Within : Function → LiveMap → (ℕ → ℕ → ℕ) → Type 0
Within f m l = (b : ℕ) → In b f.rtopo → (x : ℕ) → live_at m b x ≤ l b x

-- Successors are blocks of the function.
abbrev pub SuccsKnown : Function → Type 0
SuccsKnown f = (src : ℕ) → In src f.rtopo → AllEdges (λ i dst. In dst f.rtopo) 0 (f.succs src)

pub AllEdges-both :
    (p q : ℕ → ℕ → Type 0) (i : ℕ) (ds : List ℕ)
    → AllEdges p i ds
    → AllEdges q i ds
    → AllEdges (λ k d. p k d × q k d) i ds
AllEdges-both p q i [] h k = tt
AllEdges-both p q i (d ∷ ds) h k = ((h.0, k.0), AllEdges-both p q (suc i) ds h.1 k.1)

-- Where a state is dirty, some block of the function has more than at the start.
abbrev pub Progress : Function → LiveMap → PassState → Type 0
Progress f m s =
    (s.dirty ≡ true) → (b : ℕ) × (x : ℕ) × In b f.rtopo × (live_at m b x < live_at (s.infos) b x)

copies_first : (x : ℕ) (w : List ℕ) → 0 < copies x (x ∷ w)
unfolding copies
copies_first x w = ground arith

module _ (f : Function) (m : LiveMap) (l : ℕ → ℕ → ℕ) where
  abbrev pub Kept : PassState → Type 0
  Kept s = SortedMap (s.infos) × Extends m (s.infos) × Within f (s.infos) l × Progress f m s

  grow-Within :
      (s : PassState) (src i dst : ℕ)
      → Kept s
      → In dst f.rtopo
      → ((x : ℕ) → demand m l src i dst x ≤ l src x)
      → Within f ((grow src (new_live s.infos src i dst) s).infos) l
  grow-Within s src i dst (sorted, ext, within, _) known closed b mem x =
      let w = within b mem x in
      elim (ℕ_discrete b src) [
        | yes e ↦
            let at_src : live_at (s.infos) src x ≤ l src x =
              subst (λ y. live_at (s.infos) y x ≤ l y x) e w in
            let at_dst = within dst known x in
            let limit = closed x in
            let grown_src = grown_at src (new_live s.infos src i dst) s x in
            let new = copies-new_live (s.infos) src i dst x sorted in
            let same_defs : copies x ((s.infos src).defs) ≡ copies x ((m src).defs) =
              ap (copies x) (ext.0 src).0 in
            let same_edge : copies x (edge_defs_at ((s.infos src).edge_defs) i)
                ≡ copies x (edge_defs_at ((m src).edge_defs) i) =
              ap (λ es. copies x (edge_defs_at es i)) (ext.0 src).1 in
            subst (λ y. live_at ((grow src (new_live s.infos src i dst) s).infos) y x ≤ l y x)
              (sym e) (omega (arith, at_src, at_dst, limit, grown_src, new, same_defs, same_edge))
        | no n ↦
            let same = grown_at_other src (new_live s.infos src i dst) s b x n in
            omega (arith, same, w)
      ]

  grow-Progress :
      (v : List ℕ) (s : PassState) (src : ℕ)
      → In src f.rtopo
      → Extends m (s.infos)
      → Progress f m s
      → Progress f m (grow src v s)
  unfolding grow
  grow-Progress [] s src mem ext prog h = prog h
  grow-Progress (x ∷ w) s src mem ext prog h =
      let old = ext.1 src x in
      let new = grown_at src (x ∷ w) s x in
      let one = copies_first x w in (src, x, mem, omega (arith, old, new, one))

  -- A pass keeps the vectors sorted and the definitions, loses nothing, stays below a solution, and is
  -- dirty only if a block has gained a symbol.
  pub pass_blocks-Kept :
      SortedMap m
      → SuccsKnown f
      → Solves f m l
      → Within f m l
      → Kept (pass_blocks f f.rtopo (record { infos = m; dirty = false }))
  pass_blocks-Kept sorted known solves within =
      blocks_keep Kept f
        (λ src i dst. In dst f.rtopo × ((x : ℕ) → demand m l src i dst x ≤ l src x)) f.rtopo
        (λ src mem. AllEdges-both _ _ 0 (f.succs src) (known src mem) (solves src mem))
        (λ s src i dst mem edge kept.
          let (sorted_s, ext, _, prog) = kept in
          let v = new_live s.infos src i dst in
          (
            grow-SortedMap src v s sorted_s,
            Extends-trans m (s.infos) ((grow src v s).infos) ext (grow-Extends src v s),
            grow-Within s src i dst kept edge.0 edge.1,
            grow-Progress v s src mem ext prog,
          ))
        (record { infos = m; dirty = false }) (sorted, Extends-refl m, within, λ h. cc)
