-- ===== src/Live/Pass.antt =====
-- One pass of globalPass: a rule for its edges, and what a pass that changes nothing shows.
use seahorn.Prelude.{
  ℕ, suc, ◌+◌, ◌-◌, ◌≡◌, refl, inl, inr, false, List, [], ◌∷◌, In, arith, subst, ap, sym, ◌∙◌,
}
use seahorn.Live.{
  sort, set_difference, LiveInfo, LiveMap, add_live, edge_defs_at, new_live, PassState, grow,
  pass_edges, pass_blocks, Function,
}
use seahorn.Live.Sorted.{
  copies, IsSorted, sort-IsSorted, copies-sort, copies-set_difference, set_difference-IsSorted,
  copies-merge, merge-IsSorted,
}

-- How often a symbol is live at a block.
abbrev pub live_at : LiveMap → ℕ → ℕ → ℕ
live_at m b x = copies x ((m b).live)

-- What an edge asks of its source.
abbrev pub demand : LiveMap → (ℕ → ℕ → ℕ) → ℕ → ℕ → ℕ → ℕ → ℕ
demand m l src i dst x =
    l dst x - copies x (edge_defs_at ((m src).edge_defs) i) - copies x ((m src).defs)

abbrev pub SortedInfo : LiveInfo → Type 0
SortedInfo li =
    IsSorted (li.live) × IsSorted (li.defs) × ((i : ℕ) → IsSorted (edge_defs_at (li.edge_defs) i))

abbrev pub SortedMap : LiveMap → Type 0
SortedMap m = (b : ℕ) → SortedInfo (m b)

pub copies-nil : (x : ℕ) → copies x [] ≡ 0
unfolding copies
copies-nil x = refl

pub copies-add_live :
    (x : ℕ) (v : List ℕ) (li : LiveInfo)
    → copies x ((add_live v li).live) ≡ copies x (li.live) + copies x v
unfolding add_live
copies-add_live x [] li = let nothing : copies x [] ≡ 0 = copies-nil x in omega (arith, nothing)
copies-add_live x (y ∷ v) li =
    copies-merge x (li.live) (sort (y ∷ v))
    ∙ ap (λ n. copies x (li.live) + n) (copies-sort x (y ∷ v))

pub add_live-IsSorted :
    (v : List ℕ) (li : LiveInfo) → IsSorted (li.live) → IsSorted ((add_live v li).live)
unfolding add_live
add_live-IsSorted [] li h = h
add_live-IsSorted (y ∷ v) li h = merge-IsSorted (li.live) (sort (y ∷ v)) h (sort-IsSorted (y ∷ v))

pub add_live_defs :
    (v : List ℕ) (li : LiveInfo)
    → ((add_live v li).defs ≡ li.defs) × ((add_live v li).edge_defs ≡ li.edge_defs)
unfolding add_live
add_live_defs [] li = (refl, refl)
add_live_defs (x ∷ v) li = (refl, refl)

pub add_live-SortedInfo : (v : List ℕ) (li : LiveInfo) → SortedInfo li → SortedInfo (add_live v li)
add_live-SortedInfo v li h =
    let (d, es) = add_live_defs v li in
    (
      add_live-IsSorted v li h.0,
      subst IsSorted (sym d) h.1,
      λ i. subst (λ r. IsSorted (edge_defs_at r i)) (sym es) (h.2 i),
    )

pub copies-new_live :
    (m : LiveMap) (src i dst x : ℕ)
    → SortedMap m
    → copies x (new_live m src i dst) ≡ demand m (live_at m) src i dst x - live_at m src x
copies-new_live m src i dst x h =
    let (live, defs, edges) = h src in
    let l = (m dst).live in
    let d = (m src).defs in
    let e = edge_defs_at ((m src).edge_defs) i in
    let dst_live : IsSorted l = (h dst).0 in
    let less_e : IsSorted (set_difference l e) = set_difference-IsSorted l e dst_live in
    let c1 = copies-set_difference x l e dst_live (edges i) in
    let c2 = copies-set_difference x (set_difference l e) d less_e defs in
    let c3 =
      copies-set_difference x (set_difference (set_difference l e) d) ((m src).live)
        (set_difference-IsSorted (set_difference l e) d less_e) live in
    omega (arith, c1, c2, c3)

abbrev pub AllEdges : (ℕ → ℕ → Type 0) → ℕ → List ℕ → Type 0
AllEdges q i [] = Unit
AllEdges q i (d ∷ ds) = q i d × AllEdges q (suc i) ds

abbrev step : ℕ → ℕ → ℕ → PassState → PassState
step src i dst s = grow src (new_live s.infos src i dst) s

-- What every edge keeps, a pass keeps.
module _ (inv : PassState → Type 0) where
  edges_keep :
      (q : ℕ → ℕ → Type 0) (src : ℕ)
      → ((s : PassState) (i dst : ℕ)
          → q i dst
          → inv s
          → inv (grow src (new_live s.infos src i dst) s))
      → (i : ℕ) (ds : List ℕ) → AllEdges q i ds
      → (s : PassState) → inv s
      → inv (pass_edges src i ds s)
  unfolding pass_edges
  edges_keep q src keep i [] h s k = k
  edges_keep q src keep i (d ∷ ds) h s k =
      edges_keep q src keep (suc i) ds h.1 (step src i d s) (keep s i d h.0 k)

  pub blocks_keep :
      (f : Function) (q : ℕ → ℕ → ℕ → Type 0) (bs : List ℕ)
      → ((src : ℕ) → In src bs → AllEdges (q src) 0 (f.succs src))
      → ((s : PassState) (src i dst : ℕ)
          → In src bs
          → q src i dst
          → inv s
          → inv (grow src (new_live s.infos src i dst) s))
      → (s : PassState) → inv s
      → inv (pass_blocks f bs s)
  unfolding pass_blocks
  blocks_keep f q [] edges keep s k = k
  blocks_keep f q (b ∷ bs) edges keep s k =
      blocks_keep f q bs (λ src h. edges src (inr h)) (λ s' src i dst h. keep s' src i dst (inr h))
        (pass_edges b 0 (f.succs b) s)
        (edges_keep (q b) b (λ s' i dst. keep s' b i dst (inl refl)) 0 (f.succs b)
          (edges b (inl refl)) s k)

-- A state that is not dirty is the one before, and had nothing to add.
grow_clean :
    (src : ℕ) (v : List ℕ) (s : PassState)
    → (grow src v s).dirty ≡ false
    → (v ≡ []) × (grow src v s ≡ s)
unfolding grow
grow_clean src [] s h = (refl, refl)
grow_clean src (x ∷ v) s h = cc

edges_clean :
    (src i : ℕ) (ds : List ℕ) (s : PassState)
    → (pass_edges src i ds s).dirty ≡ false
    → (pass_edges src i ds s ≡ s) × AllEdges (λ k dst. new_live s.infos src k dst ≡ []) i ds
unfolding pass_edges
edges_clean src i [] s h = (refl, tt)
edges_clean src i (d ∷ ds) s h =
    let (same, rest) = edges_clean src (suc i) ds (step src i d s) h in
    let (none_new, kept) =
      grow_clean src (new_live s.infos src i d) s (subst (λ t. t.dirty ≡ false) same h) in
    (
      same ∙ kept,
      (
        none_new,
        subst (λ t. AllEdges (λ k dst. new_live t.infos src k dst ≡ []) (suc i) ds) kept rest,
      ),
    )

pub blocks_clean :
    (f : Function) (bs : List ℕ) (s : PassState)
    → (pass_blocks f bs s).dirty ≡ false
    → (pass_blocks f bs s ≡ s)
      × ((src : ℕ)
          → In src bs
          → AllEdges (λ k dst. new_live s.infos src k dst ≡ []) 0 (f.succs src))
unfolding pass_blocks
blocks_clean f [] s h = (refl, λ src n. absurd n)
blocks_clean f (b ∷ bs) s h =
    let (same, rest) = blocks_clean f bs (pass_edges b 0 (f.succs b) s) h in
    let (kept, edges) = edges_clean b 0 (f.succs b) s (subst (λ t. t.dirty ≡ false) same h) in
    (
      same ∙ kept,
      λ src mem. elim mem [
        | inl e ↦
            subst (λ y. AllEdges (λ k dst. new_live s.infos y k dst ≡ []) 0 (f.succs y)) (sym e)
              edges
        | inr later ↦
            subst (λ t. AllEdges (λ k dst. new_live t.infos src k dst ≡ []) 0 (f.succs src)) kept
              (rest src later)
      ],
    )
