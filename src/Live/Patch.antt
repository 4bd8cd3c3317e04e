-- ===== src/Live/Patch.antt =====
-- patchArgsAndGlobals, and the edges that globalPass reads by their index.
use seahorn.Prelude.{
  ℕ, suc, ◌≤◌, ◌≡◌, refl, ◌⊎◌, inl, inr, Bool, true, false, List, [], ◌∷◌, In, if◌then◌else◌, arith,
  Bool-cases, subst, sym, ℕ_discrete,
}
use seahorn.Live.{LiveMap, put, sort, add_live, edge_defs_at, Function, Semantics, patch_return}
use seahorn.Live.Sorted.{copies}
use seahorn.Live.Pass.{
  live_at, SortedInfo, SortedMap, AllEdges, add_live-SortedInfo, add_live_defs, copies-add_live,
}
use seahorn.Live.Progress.{Extends, Extends-refl}
use seahorn.Live.Fixpoint.{copies-In}
use seahorn.Live.Local.{edge_list}
use seahorn.Live.Members.{put_same, put_other}

pub put-Extends : (m : LiveMap) (b : ℕ) (v : List ℕ) → Extends m (put m b (add_live v (m b)))
put-Extends m b v = (
  λ c. elim (ℕ_discrete c b) [
    | yes e ↦
        subst
          (λ y.
            ((put m b (add_live v (m b)) y).defs ≡ (m y).defs)
            × ((put m b (add_live v (m b)) y).edge_defs ≡ (m y).edge_defs))
          (sym e) (rw (put_same m b (add_live v (m b))) (add_live_defs v (m b)))
    | no n ↦ rw (put_other m b c (add_live v (m b)) n) (refl, refl)
  ],
  λ c x. elim (ℕ_discrete c b) [
    | yes e ↦
        let more = copies-add_live x v (m b) in
        subst (λ y. live_at m y x ≤ live_at (put m b (add_live v (m b))) y x) (sym e)
          (rw (put_same m b (add_live v (m b))) (omega (arith, more)))
    | no n ↦ rw (put_other m b c (add_live v (m b)) n) (omega arith)
  ],
)

pub put-SortedMap :
    (m : LiveMap) (b : ℕ) (v : List ℕ) → SortedMap m → SortedMap (put m b (add_live v (m b)))
put-SortedMap m b v h c = elim (ℕ_discrete c b) [
  | yes e ↦
      subst (λ y. SortedInfo (put m b (add_live v (m b)) y)) (sym e)
        (subst SortedInfo (sym (put_same m b (add_live v (m b))))
          (add_live-SortedInfo v (m b) (h b)))
  | no n ↦ subst SortedInfo (sym (put_other m b c (add_live v (m b)) n)) (h c)
]

pub patch_return-Extends :
    (f : Function) (v bs : List ℕ) (m : LiveMap)
    → SortedMap m
    → Extends m (patch_return f v bs m) × SortedMap (patch_return f v bs m)
unfolding patch_return
patch_return-Extends f v [] m h = (Extends-refl m, h)
patch_return-Extends f v (b ∷ bs) m h = elim (Bool-cases (f.is_return b)) [
  | inl ret ↦ rw ret (put-Extends m b v, put-SortedMap m b v h)
  | inr other ↦ rw other (patch_return-Extends f v bs m h)
]

pub AllEdges-In :
    (q : ℕ → ℕ → Type 0) (i d : ℕ) (ds : List ℕ) → AllEdges q i ds → In d ds → (k : ℕ) × q k d
AllEdges-In q i d [] h n = absurd n
AllEdges-In q i d (c ∷ ds) h (inl e) = (i, subst (q i) (sym e) h.0)
AllEdges-In q i d (c ∷ ds) h (inr mem) = AllEdges-In q (suc i) d ds h.1 mem

edges_shift :
    (es : List (List ℕ)) (e : List ℕ) (g : ℕ → List ℕ) (i : ℕ) (ds : List ℕ)
    → AllEdges (λ k d. edge_defs_at es k ≡ g d) i ds
    → AllEdges (λ k d. edge_defs_at (e ∷ es) k ≡ g d) (suc i) ds
edges_shift es e g i [] h = tt
edges_shift es e g i (d ∷ ds) h = (h.0, edges_shift es e g (suc i) ds h.1)

-- localPass pushes the definitions of an edge at the index that globalPass reads.
pub edge_list_at :
    (s : Semantics) (b : ℕ) (ds : List ℕ)
    → AllEdges (λ k d. edge_defs_at (edge_list s b ds) k ≡ sort ((s.exec_phi b d).defs)) 0 ds
unfolding edge_list
edge_list_at s b [] = tt
edge_list_at s b (d ∷ ds) = (
  refl,
  edges_shift (edge_list s b ds) (sort ((s.exec_phi b d).defs)) (λ c. sort ((s.exec_phi b c).defs))
      0 ds (edge_list_at s b ds),
)

pub either_map :
    (p : LiveMap → Type 0) (t : Bool) (a b : LiveMap) → p a → p b → p (if t then a else b)
either_map p true a b h k = h
either_map p false a b h k = k

pub In-cases : (b : ℕ) (bs : List ℕ) → In b bs ⊎ (¬ In b bs)
In-cases b [] = inr (λ n. n)
In-cases b (c ∷ bs) = elim (ℕ_discrete b c) [
  | yes e ↦ inl (inl e)
  | no n ↦ elim (In-cases b bs) [
    | inl h ↦ inl (inr h)
    | inr k ↦ inr (λ q. elim q [ inl e ↦ n e | inr h ↦ k h ])
  ]
]

pub copies-cases : (x : ℕ) (xs : List ℕ) → (copies x xs ≡ 0) ⊎ In x xs
copies-cases x xs = elim (ℕ_discrete (copies x xs) 0) [
  | yes e ↦ inl e
  | no n ↦ inr ((copies-In x xs).0 (omega (arith, n)))
]
