-- ===== src/Live/Local.antt =====
-- localPass: what a block reads and defines, and what the phi nodes on its edges do.
use seahorn.Prelude.{
  Distinct, ℕ, zero, suc, ◌≡◌, refl, ◌⊎◌, inl, inr, List, [], ◌∷◌, ◌++◌, In, Subset, subst, ap, sym,
  ◌∙◌, ℕ_discrete,
}
use seahorn.Live.{
  LiveInfo, LiveMap, no_info, put, sort, set_difference, edge_defs_at, Function, Semantics, Effects,
  local_edge, local_edges, local_block, local_pass,
}
use seahorn.Live.Sorted.{IsSorted, sort-IsSorted, set_difference-IsSorted}
use seahorn.Live.Pass.{SortedInfo, add_live-IsSorted, add_live_defs}
use seahorn.Live.Members.{sort-In, add_live-In, put_same, put_other, set_difference-In}

-- The definitions on the edges of a block.
unfoldable pub edge_list : Semantics → ℕ → List ℕ → List (List ℕ)
edge_list s b [] = []
edge_list s b (d ∷ ds) = sort ((s.exec_phi b d).defs) ∷ edge_list s b ds

append_one :
    (es : List (List ℕ)) (a : List ℕ) (rest : List (List ℕ))
    → (es ++ a ∷ []) ++ rest ≡ es ++ a ∷ rest
append_one [] a rest = refl
append_one (e ∷ es) a rest = ap (λ r. e ∷ r) (append_one es a rest)

append-nil : (es : List (List ℕ)) → es ++ [] ≡ es
append-nil [] = refl
append-nil (e ∷ es) = ap (λ r. e ∷ r) (append-nil es)

-- One edge: its definitions are added at the end, and its uses that the block does not define are live.
local_edge_facts :
    (e : Effects) (li : LiveInfo)
    → IsSorted (li.live)
    → IsSorted (li.defs)
    → ((local_edge e li).defs ≡ li.defs)
      × ((local_edge e li).edge_defs ≡ li.edge_defs ++ sort (e.defs) ∷ [])
      × IsSorted ((local_edge e li).live)
      × Subset (li.live) ((local_edge e li).live)
      × ((x : ℕ) → In x (e.uses) → In x (li.defs) ⊎ In x ((local_edge e li).live))
unfolding local_edge
local_edge_facts e li live defs =
    let uses1 = sort (e.uses) in
    let uses2 = set_difference uses1 (li.defs) in
    let v = set_difference uses2 (li.live) in
    let li1 : LiveInfo = record li { edge_defs = li.edge_defs ++ sort (e.defs) ∷ [] } in
    let (d, es) = add_live_defs v li1 in
    let sorted1 : IsSorted uses1 = sort-IsSorted (e.uses) in
    let sorted2 : IsSorted uses2 = set_difference-IsSorted uses1 (li.defs) sorted1 in
    (
      d,
      es,
      add_live-IsSorted v li1 live,
      λ x h. (add_live-In x v li1).1 (inl h),
      λ x h.
          elim ((set_difference-In x uses1 (li.defs) sorted1 defs).1 ((sort-In x (e.uses)).1 h)) [
            | inl def ↦ inl def
            | inr left ↦ inr (
                (add_live-In x v li1).1 ((set_difference-In x uses2 (li.live) sorted2 live).1 left))
          ],
    )

module _ (s : Semantics) (b : ℕ) where
  local_edges_facts :
      (ds : List ℕ) (li : LiveInfo)
      → IsSorted (li.live)
      → IsSorted (li.defs)
      → ((local_edges s b ds li).defs ≡ li.defs)
        × ((local_edges s b ds li).edge_defs ≡ li.edge_defs ++ edge_list s b ds)
        × IsSorted ((local_edges s b ds li).live)
        × Subset (li.live) ((local_edges s b ds li).live)
        × ((d x : ℕ)
            → In d ds
            → In x ((s.exec_phi b d).uses)
            → In x (li.defs) ⊎ In x ((local_edges s b ds li).live))
  unfolding local_edges edge_list
  local_edges_facts [] li live defs =
      (refl, sym (append-nil (li.edge_defs)), live, λ x h. h, λ d x n. absurd n)
  local_edges_facts (d ∷ ds) li live defs =
      let li1 = local_edge (s.exec_phi b d) li in
      let (d1, e1, live1, more1, uses1) = local_edge_facts (s.exec_phi b d) li live defs in
      let (d2, e2, live2, more2, uses2) =
        local_edges_facts ds li1 live1 (subst IsSorted (sym d1) defs) in
      (
        d2 ∙ d1,
        e2
            ∙ ap (λ r. r ++ edge_list s b ds) e1
            ∙ append_one (li.edge_defs) (sort ((s.exec_phi b d).defs)) (edge_list s b ds),
        live2,
        λ x h. more2 x (more1 x h),
        λ c x mem u. elim mem [
          | inl same ↦ elim (uses1 x (subst (λ y. In x ((s.exec_phi b y).uses)) same u)) [
            | inl def ↦ inl def
            | inr at ↦ inr (more2 x at)
          ]
          | inr later ↦ elim (uses2 c x later u) [
            | inl def ↦ inl (subst (In x) d1 def)
            | inr at ↦ inr at
          ]
        ],
      )

edge_list-IsSorted :
    (s : Semantics) (b : ℕ) (ds : List ℕ) (i : ℕ) → IsSorted (edge_defs_at (edge_list s b ds) i)
unfolding edge_list
edge_list-IsSorted s b [] i = tt
edge_list-IsSorted s b (d ∷ ds) zero = sort-IsSorted ((s.exec_phi b d).defs)
edge_list-IsSorted s b (d ∷ ds) (suc i) = edge_list-IsSorted s b ds i

-- What localPass leaves at a block.
pub record IsLocal (s : Semantics) (f : Function) (b : ℕ) (li : LiveInfo) : Type 0 where
  pub sorted : IsSorted (li.live)
  pub block_defs : li.defs ≡ sort ((s.exec b).defs)
  pub phi_defs : li.edge_defs ≡ edge_list s b (f.succs b)
  pub block_uses : Subset ((s.exec b).uses) (li.live)
  pub phi_uses :
      (d x : ℕ)
      → In d (f.succs b)
      → In x ((s.exec_phi b d).uses)
      → In x ((s.exec b).defs) ⊎ In x (li.live)

local_block-IsLocal :
    (s : Semantics) (f : Function) (b : ℕ) → IsLocal s f b (local_block s f b no_info)
unfolding local_block
local_block-IsLocal s f b =
    let start : LiveInfo = record {
      live = sort ((s.exec b).uses);
      defs = sort ((s.exec b).defs);
      edge_defs = [];
    } in
    let (d, es, sorted, more, uses) =
      local_edges_facts s b (f.succs b) start (sort-IsSorted ((s.exec b).uses))
        (sort-IsSorted ((s.exec b).defs)) in
    record {
      sorted = sorted;
      block_defs = d;
      phi_defs = es;
      block_uses = λ x h. more x ((sort-In x ((s.exec b).uses)).1 h);
      phi_uses = λ c x mem u. elim (uses c x mem u) [
        | inl def ↦ inl ((sort-In x ((s.exec b).defs)).0 def)
        | inr at ↦ inr at
      ];
    }

pub local_pass_other :
    (s : Semantics) (f : Function) (bs : List ℕ) (m : LiveMap) (b : ℕ)
    → ¬ In b bs
    → local_pass s f bs m b ≡ m b
unfolding local_pass
local_pass_other s f [] m b n = refl
local_pass_other s f (c ∷ bs) m b n =
    local_pass_other s f bs (put m c (local_block s f c (m c))) b (λ q. n (inr q))
    ∙ put_other m c b (local_block s f c (m c)) (λ e. n (inl e))

pub local_pass-IsLocal :
    (s : Semantics) (f : Function) (bs : List ℕ) (m : LiveMap) (b : ℕ)
    → Distinct bs
    → ((c : ℕ) → In c bs → m c ≡ no_info)
    → In b bs
    → IsLocal s f b (local_pass s f bs m b)
unfolding local_pass
local_pass-IsLocal s f [] m b d fresh h = absurd h
local_pass-IsLocal s f (c ∷ bs) m b d fresh h =
    let li = local_block s f c (m c) in
    elim (ℕ_discrete b c) [
      | yes e ↦
          let at_c : local_pass s f bs (put m c li) c ≡ local_block s f c no_info =
            local_pass_other s f bs (put m c li) c d.0
            ∙ put_same m c li
            ∙ ap (local_block s f c) (fresh c (inl refl)) in
          subst (λ y. IsLocal s f y (local_pass s f bs (put m c li) y)) (sym e)
            (subst (IsLocal s f c) (sym at_c) (local_block-IsLocal s f c))
      | no n ↦
          local_pass-IsLocal s f bs (put m c li) b d.1
            (λ x q. put_other m c x li (λ e. d.0 (subst (λ y. In y bs) e q)) ∙ fresh x (inr q))
            (elim h [ inl e ↦ absurd (n e) | inr q ↦ q ])
    ]

pub IsLocal-SortedInfo :
    (s : Semantics) (f : Function) (b : ℕ) (li : LiveInfo) → IsLocal s f b li → SortedInfo li
IsLocal-SortedInfo s f b li h = (
  h.sorted,
  subst IsSorted (sym h.block_defs) (sort-IsSorted ((s.exec b).defs)),
  λ i.
      subst (λ r. IsSorted (edge_defs_at r i)) (sym h.phi_defs)
        (edge_list-IsSorted s b (f.succs b) i),
)
