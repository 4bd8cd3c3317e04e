-- ===== src/Live.antt =====
-- lib/seahorn/LiveSymbols.cc: the symbols that are live at each basic block of a function.
pub mod Sorted
pub mod Pass
pub mod Progress
pub mod Fixpoint
pub mod Members
pub mod Local
pub mod Global
pub mod Patch
pub mod Correct
mod Tests
use seahorn.Prelude.{
  ℕ, zero, suc, ◌+◌, Bool, true, false, Option, none, some, List, [], ◌∷◌, ◌++◌, length, get_elem?,
  ◌==◌, ltb, if◌then◌else◌,
}

-- An expression is the number that orders it; vectors of them are sorted by boost::sort.
unfoldable pub insert : ℕ → List ℕ → List ℕ
insert x [] = x ∷ []
insert x (y ∷ ys) = if ltb y x then y ∷ insert x ys else x ∷ y ∷ ys

unfoldable pub sort : List ℕ → List ℕ
sort [] = []
sort (x ∷ xs) = insert x (sort xs)

-- std::set_difference and std::inplace_merge of sorted ranges.
unfoldable pub set_difference : List ℕ → List ℕ → List ℕ
set_difference [] ys = []
set_difference (x ∷ xs) [] = x ∷ xs
set_difference (x ∷ xs) (y ∷ ys) = elim (ltb x y) [
  | true ↦ x ∷ set_difference xs (y ∷ ys)
  | false ↦ elim (ltb y x) [ true ↦ set_difference (x ∷ xs) ys | false ↦ set_difference xs ys ]
]

unfoldable pub merge : List ℕ → List ℕ → List ℕ
merge [] new = new
merge (old ∷ olds) [] = old ∷ olds
merge (old ∷ olds) (new ∷ news) = elim (ltb new old) [
  | true ↦ new ∷ merge (old ∷ olds) news
  | false ↦ old ∷ merge olds (new ∷ news)
]

pub record LiveInfo : Type 0 where
  pub live : List ℕ
  pub defs : List ℕ
  pub edge_defs : List (List ℕ)

abbrev pub no_info : LiveInfo
no_info = record { live = []; defs = []; edge_defs = [] }

abbrev pub LiveMap : Type 0
LiveMap = ℕ → LiveInfo

abbrev pub put : LiveMap → ℕ → LiveInfo → LiveMap
put m b li = λ x. if x == b then li else m x

abbrev pub set_live : List ℕ → LiveInfo → LiveInfo
set_live l li = record li { live = sort l }

abbrev pub set_defs : List ℕ → LiveInfo → LiveInfo
set_defs d li = record li { defs = sort d }

abbrev pub add_edge_def : List ℕ → LiveInfo → LiveInfo
add_edge_def d li = record li { edge_defs = li.edge_defs ++ sort d ∷ [] }

unfoldable pub add_live : List ℕ → LiveInfo → LiveInfo
add_live [] li = li
add_live (x ∷ v) li = record li { live = merge li.live (sort (x ∷ v)) }

abbrev pub union_live : List ℕ → LiveInfo → LiveInfo
union_live v li = add_live (set_difference (sort v) li.live) li

-- A function: its blocks in reverse topological order, the entry and the successors.
pub record Function : Type 0 where
  pub rtopo : List ℕ
  pub entry : ℕ
  pub succs : ℕ → List ℕ
  pub is_main : Bool
  pub is_return : ℕ → Bool
  -- An argument of the function or a global variable.
  pub is_extra : ℕ → Bool

-- What the store has read and written after symbolic execution.
pub record Effects : Type 0 where
  pub uses : List ℕ
  pub defs : List ℕ

-- The operational semantics: the effects of a block, and of the phi nodes on an edge.
pub record Semantics : Type 0 where
  pub exec : ℕ → Effects
  pub exec_phi : ℕ → ℕ → Effects

unfoldable pub local_edge : Effects → LiveInfo → LiveInfo
unfolding add_live
local_edge e li =
    let li1 = add_edge_def e.defs li in
    add_live (set_difference (set_difference (sort e.uses) li1.defs) li1.live) li1

unfoldable pub local_edges : Semantics → ℕ → List ℕ → LiveInfo → LiveInfo
local_edges s b [] li = li
local_edges s b (d ∷ ds) li = local_edges s b ds (local_edge (s.exec_phi b d) li)

unfoldable pub local_block : Semantics → Function → ℕ → LiveInfo → LiveInfo
unfolding local_edges
local_block s f b li =
    local_edges s b (f.succs b) (set_defs ((s.exec b).defs) (set_live ((s.exec b).uses) li))

unfoldable pub local_pass : Semantics → Function → List ℕ → LiveMap → LiveMap
unfolding local_block
local_pass s f [] m = m
local_pass s f (b ∷ bs) m = local_pass s f bs (put m b (local_block s f b (m b)))

unfoldable pub extras : Function → List ℕ → List ℕ
extras f [] = []
extras f (v ∷ vs) = if f.is_extra v then v ∷ extras f vs else extras f vs

unfoldable pub patch_return : Function → List ℕ → List ℕ → LiveMap → LiveMap
patch_return f vs [] m = m
patch_return f vs (b ∷ bs) m =
    if f.is_return b then put m b (add_live vs (m b)) else patch_return f vs bs m

abbrev pub patch_args_and_globals : Function → LiveMap → LiveMap
patch_args_and_globals f m = patch_return f (extras f ((m f.entry).live)) f.rtopo m

-- edge_defs; a read past the end, which the code never does, gives no definition.
abbrev pub edge_defs_at : List (List ℕ) → ℕ → List ℕ
edge_defs_at es i = elim (get_elem? es i) [ none ↦ [] | some d ↦ d ]

-- The symbols that an edge makes live at its source.
abbrev pub new_live : LiveMap → ℕ → ℕ → ℕ → List ℕ
new_live m src i dst =
    set_difference
      (set_difference (set_difference ((m dst).live) (edge_defs_at ((m src).edge_defs) i))
        ((m src).defs))
      ((m src).live)

pub record PassState : Type 0 where
  pub infos : LiveMap
  pub dirty : Bool

unfoldable pub grow : ℕ → List ℕ → PassState → PassState
unfolding add_live
grow src [] s = s
grow src (x ∷ v) s = record {
  infos = put s.infos src (add_live (x ∷ v) (s.infos src));
  dirty = true;
}

unfoldable pub pass_edges : ℕ → ℕ → List ℕ → PassState → PassState
unfolding grow
pass_edges src i [] s = s
pass_edges src i (dst ∷ ds) s = pass_edges src (suc i) ds (grow src (new_live s.infos src i dst) s)

unfoldable pub pass_blocks : Function → List ℕ → PassState → PassState
unfolding pass_edges
pass_blocks f [] s = s
pass_blocks f (src ∷ bs) s = pass_blocks f bs (pass_edges src 0 (f.succs src) s)

unfoldable pub global_pass : ℕ → Function → LiveMap → Option LiveMap
unfolding pass_blocks
global_pass zero f m = none
global_pass (suc n) f m =
    let s = pass_blocks f f.rtopo (record { infos = m; dirty = false }) in
    elim s.dirty [ true ↦ global_pass n f s.infos | false ↦ some s.infos ]

unfoldable pub globally_live : List ℕ → List ℕ → LiveMap → LiveMap
globally_live v [] m = m
globally_live v (b ∷ bs) m = globally_live v bs (put m b (union_live v (m b)))

unfoldable pub before_global : Semantics → Function → LiveMap
unfolding local_pass patch_return
before_global s f =
    let m = local_pass s f f.rtopo (λ b. no_info) in
    if f.is_main then m else patch_args_and_globals f m

-- LiveSymbols::run
unfoldable pub run : ℕ → Semantics → Function → Option LiveMap
unfolding before_global global_pass globally_live
run n s f = elim (global_pass n f (before_global s f)) [
  | none ↦ none
  | some m ↦ some (if f.is_main then m else globally_live ((m f.entry).live) f.rtopo m)
]
