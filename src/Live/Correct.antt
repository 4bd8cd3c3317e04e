-- ===== src/Live/Correct.antt =====
-- LiveSymbols::run as a whole, against the reads and writes of the blocks.
use seahorn.Prelude.{
  Distinct, ℕ, ◌<◌, ◌≡◌, refl, ◌⊎◌, inl, inr, true, false, none, some, In, Subset, if◌then◌else◌,
  arith, Bool-cases, subst, ap, ap₂, sym, ◌∙◌,
}
use seahorn.Live.{
  LiveMap, no_info, sort, edge_defs_at, new_live, Function, Semantics, local_pass, extras,
  patch_args_and_globals, before_global, globally_live, global_pass, run,
}
use seahorn.Live.Sorted.{copies}
use seahorn.Live.Pass.{SortedInfo, SortedMap, copies-nil, copies-new_live}
use seahorn.Live.Progress.{Extends, Extends-refl, SuccsKnown, AllEdges-both}
use seahorn.Live.Fixpoint.{copies-In, joined, room, Outcome, global_pass_correct}
use seahorn.Live.Local.{
  edge_list, IsLocal, local_pass-IsLocal, local_pass_other, IsLocal-SortedInfo,
}
use seahorn.Live.Members.{sort-In}
use seahorn.Live.Global.{SortedLive, globally_live-Joins, globally_live-adds}
use seahorn.Live.Patch.{
  patch_return-Extends, AllEdges-In, edge_list_at, either_map, In-cases, copies-cases,
}

-- What is read at a block is live there, and what is live behind an edge is defined on the edge or in
-- the block, or live at the block.
pub record IsLiveness (s : Semantics) (f : Function) (m : LiveMap) : Type 0 where
  pub uses_live : (b : ℕ) → In b f.rtopo → Subset ((s.exec b).uses) ((m b).live)
  pub phi_uses_live :
      (b d x : ℕ)
      → In b f.rtopo
      → In d (f.succs b)
      → In x ((s.exec_phi b d).uses)
      → In x ((s.exec b).defs) ⊎ In x ((m b).live)
  pub edges_live :
      (b d x : ℕ)
      → In b f.rtopo
      → In d (f.succs b)
      → In x ((m d).live)
      → In x ((s.exec_phi b d).defs) ⊎ In x ((s.exec b).defs) ⊎ In x ((m b).live)

-- What is live at the entry of a function other than main is live at every block.
abbrev pub EntryLive : Function → LiveMap → Type 0
EntryLive f m = f.is_main ≡ false → (b : ℕ) → In b f.rtopo → Subset ((m f.entry).live) ((m b).live)

module _ (s : Semantics) (f : Function) (distinct : Distinct f.rtopo) (known : SuccsKnown f) where
  pub locals : LiveMap
  locals = local_pass s f f.rtopo (λ b. no_info)

  locals-IsLocal : (b : ℕ) → In b f.rtopo → IsLocal s f b (locals b)
  unfolding locals
  locals-IsLocal b h = local_pass-IsLocal s f f.rtopo (λ c. no_info) b distinct (λ c q. refl) h

  locals-SortedMap : SortedMap locals
  unfolding locals
  locals-SortedMap b = elim (In-cases b f.rtopo) [
    | inl h ↦ IsLocal-SortedInfo s f b (locals b) (locals-IsLocal b h)
    | inr n ↦
        subst SortedInfo (sym (local_pass_other s f f.rtopo (λ c. no_info) b n)) (tt, tt, λ i. tt)
  ]

  pub started : Extends locals (before_global s f) × SortedMap (before_global s f)
  unfolding before_global locals
  started =
      either_map (λ m. Extends locals m × SortedMap m) f.is_main locals
        (patch_args_and_globals f locals) (Extends-refl locals, locals-SortedMap)
        (patch_return-Extends f (extras f ((locals f.entry).live)) f.rtopo locals locals-SortedMap)

  more_live : (m m' : LiveMap) (b x : ℕ) → Extends m m' → In x ((m b).live) → In x ((m' b).live)
  more_live m m' b x ext h =
      let le = ext.1 b x in
      let positive = (copies-In x ((m b).live)).1 h in
      (copies-In x ((m' b).live)).0 (omega (arith, le, positive))

  end-IsLiveness : (m : LiveMap) → Outcome f (before_global s f) m → IsLiveness s f m
  end-IsLiveness m (sorted, ext, settled, least) = record {
    uses_live = λ b mem x h. kept b x ((locals-IsLocal b mem).block_uses x h);
    phi_uses_live = λ b d x mem succ h. elim ((locals-IsLocal b mem).phi_uses d x succ h) [
      | inl def ↦ inl def
      | inr at ↦ inr (kept b x at)
    ];
    edges_live = λ b d x mem succ h.
        let (k, (nothing, at)) =
          AllEdges-In _ 0 d (f.succs b)
            (AllEdges-both _ _ 0 (f.succs b) (settled b mem) (edge_list_at s b (f.succs b))) succ in
        let none_new : copies x (new_live m b k d) ≡ 0 = ap (copies x) nothing ∙ copies-nil x in
        let asked = copies-new_live m b k d x sorted in
        let edge : copies x (edge_defs_at ((m b).edge_defs) k)
            ≡ copies x (sort ((s.exec_phi b d).defs)) =
          ap (λ es. copies x (edge_defs_at es k)) (edge_defs_known b mem) ∙ ap (copies x) at in
        let defs : copies x ((m b).defs) ≡ copies x (sort ((s.exec b).defs)) =
          ap (copies x) (defs_known b mem) in
        let positive = (copies-In x ((m d).live)).1 h in
        elim (copies-cases x (sort ((s.exec_phi b d).defs))) [
          | inr on_edge ↦ inl ((sort-In x ((s.exec_phi b d).defs)).0 on_edge)
          | inl no_edge ↦ elim (copies-cases x (sort ((s.exec b).defs))) [
            | inr in_block ↦ inr (inl ((sort-In x ((s.exec b).defs)).0 in_block))
            | inl no_block ↦ inr (
                inr (
                  (copies-In x ((m b).live)).0
                    (omega (arith, none_new, asked, edge, defs, positive, no_edge, no_block))))
          ]
        ];
  }
    where
      kept : (b x : ℕ) → In x ((locals b).live) → In x ((m b).live)
      kept b x h =
          more_live (before_global s f) m b x ext
            (more_live locals (before_global s f) b x started.0 h)

      defs_known : (b : ℕ) → In b f.rtopo → (m b).defs ≡ sort ((s.exec b).defs)
      defs_known b mem = (ext.0 b).0 ∙ (started.0.0 b).0 ∙ (locals-IsLocal b mem).block_defs

      edge_defs_known : (b : ℕ) → In b f.rtopo → (m b).edge_defs ≡ edge_list s b (f.succs b)
      edge_defs_known b mem = (ext.0 b).1 ∙ (started.0.0 b).1 ∙ (locals-IsLocal b mem).phi_defs

  everywhere :
      (m : LiveMap)
      → SortedMap m
      → IsLiveness s f m
      → IsLiveness s f (globally_live ((m f.entry).live) f.rtopo m)
  everywhere m sorted live =
      let v = (m f.entry).live in
      let m' = globally_live v f.rtopo m in
      let sorted_live : SortedLive m = λ b. (sorted b).0 in
      let keep : (b x : ℕ) → In x ((m b).live) → In x ((m' b).live) =
        λ b x. (globally_live-Joins v x f.rtopo m b sorted_live).0 in
      record {
        uses_live = λ b mem x h. keep b x (live.uses_live b mem x h);
        phi_uses_live = λ b d x mem succ h. elim (live.phi_uses_live b d x mem succ h) [
          | inl def ↦ inl def
          | inr at ↦ inr (keep b x at)
        ];
        edges_live = λ b d x mem succ h.
            elim ((globally_live-Joins v x f.rtopo m d sorted_live).1 h) [
              | inl old ↦ elim (live.edges_live b d x mem succ old) [
                | inl on_edge ↦ inl on_edge
                | inr (inl in_block) ↦ inr (inl in_block)
                | inr (inr at) ↦ inr (inr (keep b x at))
              ]
              | inr new ↦ inr (inr (globally_live-adds v x f.rtopo m b sorted_live mem new))
            ];
      }

  everywhere-EntryLive :
      (m : LiveMap)
      → SortedMap m
      → (b : ℕ) → In b f.rtopo
      → Subset
          ((globally_live ((m f.entry).live) f.rtopo m f.entry).live)
          ((globally_live ((m f.entry).live) f.rtopo m b).live)
  everywhere-EntryLive m sorted b mem x h =
      let v = (m f.entry).live in
      let sorted_live : SortedLive m = λ c. (sorted c).0 in
      globally_live-adds v x f.rtopo m b sorted_live mem
        (elim ((globally_live-Joins v x f.rtopo m f.entry sorted_live).1 h) [
          | inl q ↦ q
          | inr q ↦ q
        ])

run_main :
    (n : ℕ) (s : Semantics) (f : Function) (m : LiveMap)
    → global_pass n f (before_global s f) ≡ some m
    → f.is_main ≡ true
    → run n s f ≡ some m
unfolding run
run_main n s f m h main =
    ap₂
      (λ o t. elim o [
        | none ↦ none
        | some k ↦ some (if t then k else globally_live ((k f.entry).live) f.rtopo k)
      ])
      h main

run_other :
    (n : ℕ) (s : Semantics) (f : Function) (m : LiveMap)
    → global_pass n f (before_global s f) ≡ some m
    → f.is_main ≡ false
    → run n s f ≡ some (globally_live ((m f.entry).live) f.rtopo m)
unfolding run
run_other n s f m h other =
    ap₂
      (λ o t. elim o [
        | none ↦ none
        | some k ↦ some (if t then k else globally_live ((k f.entry).live) f.rtopo k)
      ])
      h other

-- run ends with liveness: what a block reads, or a phi node on one of its edges reads and the block
-- does not define, is live at the block, and so is what is live behind an edge and defined neither on the edge
-- nor in the block. Unless the function is main, what is live at its entry is live at every block. The
-- blocks of the order are distinct and include their successors, and the fuel of globalPass is above
-- the room that the symbols found before it leave.
pub run_correct :
    (n : ℕ) (s : Semantics) (f : Function)
    → Distinct f.rtopo
    → SuccsKnown f
    → room f (joined (before_global s f) f.rtopo) (before_global s f) < n
    → (m : LiveMap) × (run n s f ≡ some m) × IsLiveness s f m × EntryLive f m
run_correct n s f distinct known enough =
    let started_sorted = (started s f distinct known).1 in
    let (m, out, outcome) =
      global_pass_correct n f (before_global s f) started_sorted known enough in
    let live = end-IsLiveness s f distinct known m outcome in
    elim (Bool-cases f.is_main) [
      | inl main ↦ (m, run_main n s f m out main, live, λ other. cc)
      | inr other ↦ (
        globally_live ((m f.entry).live) f.rtopo m,
        run_other n s f m out other,
        everywhere s f distinct known m outcome.0 live,
        λ _ b mem. everywhere-EntryLive s f distinct known m outcome.0 b mem,
      )
    ]
