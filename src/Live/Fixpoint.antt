-- ===== src/Live/Fixpoint.antt =====
-- The loop of globalPass ends, with the least assignment that is closed under the edges.
use seahorn.Prelude.{
  ℕ, zero, suc, ◌+◌, ◌-◌, ◌≤◌, ◌<◌, ◌≡◌, ◌↔◌, inl, inr, true, false, some, List, [], ◌∷◌, ◌++◌, In,
  arith, Bool-cases, subst, ap, ◌∙◌,
}
use seahorn.Live.{LiveMap, edge_defs_at, new_live, pass_blocks, Function, global_pass}
use seahorn.Live.Sorted.{copies}
use seahorn.Live.Pass.{live_at, SortedMap, AllEdges, blocks_clean}
use seahorn.Live.Progress.{
  Extends, Extends-refl, Extends-trans, Solves, Within, SuccsKnown, pass_blocks-Kept,
}

unfoldable pub sum_over : (ℕ → ℕ) → List ℕ → ℕ
sum_over g [] = 0
sum_over g (x ∷ xs) = g x + sum_over g xs

sum_over-le : (g h : ℕ → ℕ) (xs : List ℕ) → ((x : ℕ) → g x ≤ h x) → sum_over g xs ≤ sum_over h xs
unfolding sum_over
sum_over-le g h [] le = omega arith
sum_over-le g h (x ∷ xs) le = omega (arith, le x, sum_over-le g h xs le)

sum_over-lt :
    (g h : ℕ → ℕ) (xs : List ℕ) (a : ℕ)
    → ((x : ℕ) → g x ≤ h x)
    → In a xs
    → g a < h a
    → sum_over g xs < sum_over h xs
unfolding sum_over
sum_over-lt g h (x ∷ xs) a le (inl e) lt =
    let here = subst (λ y. g y < h y) e lt in omega (arith, here, sum_over-le g h xs le)
sum_over-lt g h (x ∷ xs) a le (inr q) lt = omega (arith, le x, sum_over-lt g h xs a le q lt)
sum_over-lt g h [] a le n lt = absurd n

pub copies-In : (x : ℕ) (xs : List ℕ) → (0 < copies x xs) ↔ In x xs
unfolding copies
copies-In x [] = (λ h. omega (arith, h), λ n. absurd n)
copies-In x (y ∷ ys) = ground (arith, copies-In x ys)

pub copies-append : (x : ℕ) (xs ys : List ℕ) → copies x (xs ++ ys) ≡ copies x xs + copies x ys
unfolding copies
copies-append x [] ys = omega arith
copies-append x (z ∷ zs) ys = ground (arith, copies-append x zs ys)

-- The symbols of the blocks together, and how many more copies of them the blocks can take.
unfoldable pub joined : LiveMap → List ℕ → List ℕ
joined m [] = []
joined m (b ∷ bs) = (m b).live ++ joined m bs

abbrev pub limit : List ℕ → ℕ → ℕ → ℕ
limit u b x = copies x u

abbrev pub room : Function → List ℕ → LiveMap → ℕ
room f u m = sum_over (λ b. sum_over (λ x. copies x u - live_at m b x) u) f.rtopo

joined-Within :
    (m : LiveMap) (bs : List ℕ) (b : ℕ) → In b bs → (x : ℕ) → live_at m b x ≤ copies x (joined m bs)
unfolding joined
joined-Within m (c ∷ bs) b (inl e) x =
    let both = copies-append x ((m c).live) (joined m bs) in
    let here = ap (λ y. live_at m y x) e in omega (arith, both, here)
joined-Within m (c ∷ bs) b (inr q) x =
    let both = copies-append x ((m c).live) (joined m bs) in
    let later = joined-Within m bs b q x in omega (arith, both, later)
joined-Within m [] b n x = absurd n

pub AllEdges-map :
    (p q : ℕ → ℕ → Type 0) (i : ℕ) (ds : List ℕ)
    → ((k d : ℕ) → p k d → q k d)
    → AllEdges p i ds
    → AllEdges q i ds
AllEdges-map p q i [] g h = tt
AllEdges-map p q i (d ∷ ds) g h = (g i d h.0, AllEdges-map p q (suc i) ds g h.1)

AllEdges-all : (q : ℕ → ℕ → Type 0) (i : ℕ) (ds : List ℕ) → ((k d : ℕ) → q k d) → AllEdges q i ds
AllEdges-all q i [] g = tt
AllEdges-all q i (d ∷ ds) g = (g i d, AllEdges-all q (suc i) ds g)

limit-Solves : (f : Function) (m : LiveMap) (u : List ℕ) → Solves f m (limit u)
limit-Solves f m u src mem = AllEdges-all _ 0 (f.succs src) (λ i dst x. omega arith)

Solves-Extends :
    (f : Function) (m m' : LiveMap) (l : ℕ → ℕ → ℕ) → Extends m m' → Solves f m l → Solves f m' l
Solves-Extends f m m' l ext h src mem =
    AllEdges-map _ _ 0 (f.succs src)
      (λ i dst limit_at x.
        let same_defs : copies x ((m' src).defs) ≡ copies x ((m src).defs) =
          ap (copies x) (ext.0 src).0 in
        let same_edge : copies x (edge_defs_at ((m' src).edge_defs) i)
            ≡ copies x (edge_defs_at ((m src).edge_defs) i) =
          ap (λ es. copies x (edge_defs_at es i)) (ext.0 src).1 in
        let at = limit_at x in omega (arith, at, same_defs, same_edge))
      (h src mem)

-- No edge has a symbol to add.
abbrev pub Settled : Function → LiveMap → Type 0
Settled f m =
    (src : ℕ) → In src f.rtopo → AllEdges (λ i dst. new_live m src i dst ≡ []) 0 (f.succs src)

-- What the pass leaves: everything that was live, sorted and settled, and below every solution.
abbrev pub Outcome : Function → LiveMap → LiveMap → Type 0
Outcome f m m' =
    SortedMap m'
    × Extends m m'
    × Settled f m'
    × ((l : ℕ → ℕ → ℕ) → Solves f m l → Within f m l → Within f m' l)

room-decreases :
    (f : Function) (u : List ℕ) (m m' : LiveMap)
    → Extends m m'
    → Within f m' (limit u)
    → ((b : ℕ) × (x : ℕ) × In b f.rtopo × (live_at m b x < live_at m' b x))
    → room f u m' < room f u m
room-decreases f u m m' ext within (b, x, mem, lt) =
    let left : LiveMap → ℕ → ℕ → ℕ = λ n c y. copies y u - live_at n c y in
    let fewer : (c y : ℕ) → left m' c y ≤ left m c y =
      λ c y. let more = ext.1 c y in omega (arith, more) in
    let bound = within b mem x in
    sum_over-lt (λ c. sum_over (left m' c) u) (λ c. sum_over (left m c) u) f.rtopo b
      (λ c. sum_over-le (left m' c) (left m c) u (fewer c)) mem
      (sum_over-lt (left m' b) (left m b) u x (fewer b)
        ((copies-In x u).0 (omega (arith, lt, bound))) (omega (arith, lt, bound)))

global_pass_dirty :
    (n : ℕ) (f : Function) (m : LiveMap)
    → (pass_blocks f f.rtopo (record { infos = m; dirty = false })).dirty ≡ true
    → global_pass (suc n) f m
      ≡ global_pass n f (pass_blocks f f.rtopo (record { infos = m; dirty = false })).infos
unfolding global_pass
global_pass_dirty n f m h =
    let s = pass_blocks f f.rtopo (record { infos = m; dirty = false }) in
    ap (λ t. elim t [ true ↦ global_pass n f s.infos | false ↦ some s.infos ]) h

global_pass_clean :
    (n : ℕ) (f : Function) (m : LiveMap)
    → (pass_blocks f f.rtopo (record { infos = m; dirty = false })).dirty ≡ false
    → global_pass (suc n) f m
      ≡ some (pass_blocks f f.rtopo (record { infos = m; dirty = false })).infos
unfolding global_pass
global_pass_clean n f m h =
    let s = pass_blocks f f.rtopo (record { infos = m; dirty = false }) in
    ap (λ t. elim t [ true ↦ global_pass n f s.infos | false ↦ some s.infos ]) h

loop_ends :
    (n : ℕ) (f : Function) (u : List ℕ) (m : LiveMap)
    → room f u m < n
    → SortedMap m
    → SuccsKnown f
    → Within f m (limit u)
    → (m' : LiveMap) × (global_pass n f m ≡ some m') × Outcome f m m'
loop_ends zero f u m lt sorted known within = absurd (omega (arith, lt))
loop_ends (suc n) f u m lt sorted known within =
    let s = pass_blocks f f.rtopo (record { infos = m; dirty = false }) in
    let (sorted', ext, within', prog) =
      pass_blocks-Kept f m (limit u) sorted known (limit-Solves f m u) within in
    elim (Bool-cases s.dirty) [
      | inl dirty ↦
          let less = room-decreases f u m (s.infos) ext within' (prog dirty) in
          let (m', out, (sorted2, ext2, settled, least)) =
            loop_ends n f u (s.infos) (omega (arith, less, lt)) sorted' known within' in
          (
            m',
            global_pass_dirty n f m dirty ∙ out,
            (
              sorted2,
              Extends-trans m (s.infos) m' ext ext2,
              settled,
              λ l solves below.
                  least l (Solves-Extends f m (s.infos) l ext solves)
                    (pass_blocks-Kept f m l sorted known solves below).2,
            ),
          )
      | inr clean ↦
          let (same, edges) = blocks_clean f f.rtopo (record { infos = m; dirty = false }) clean in
          (
            m,
            global_pass_clean n f m clean ∙ ap (λ t. some t.infos) same,
            (sorted, Extends-refl m, edges, λ l solves below. below),
          )
    ]

-- The loop ends, on fuel above the room that the symbols of the blocks leave. What is live then is
-- sorted, includes what was live before, and no edge asks for more; and it stays below every assignment
-- that is closed under the edges and includes what was live before. The vectors are sorted before, and
-- successors are blocks of the function.
pub global_pass_correct :
    (n : ℕ) (f : Function) (m : LiveMap)
    → SortedMap m
    → SuccsKnown f
    → room f (joined m f.rtopo) m < n
    → (m' : LiveMap) × (global_pass n f m ≡ some m') × Outcome f m m'
global_pass_correct n f m sorted known enough =
    loop_ends n f (joined m f.rtopo) m enough sorted known (joined-Within m f.rtopo)
