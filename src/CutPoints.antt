-- ===== src/CutPoints.antt =====
-- lib/Analysis/CutPointGraph.cc: the cut points of a control-flow graph and the edges between them.
pub mod BitVector
pub mod Paths
pub mod Reach
pub mod Backward
pub mod BackwardReach
pub mod Marks
pub mod PushBlock
pub mod Edges
pub mod Correct
mod Tests
use seahorn.Prelude.{
  ℕ, zero, suc, ◌+◌, Bool, true, false, not, ◌&&◌, ◌||◌, Option, none, some, List, [], ◌∷◌, ◌++◌,
  length, ◌==◌, ltb, if◌then◌else◌,
}
use seahorn.CutPoints.BitVector.{Bits, set_bit, bit_or, count, set_ids, test}

-- A basic block is a number. `topo` is the order of the blocks, `back_edge` is isBackEdge.
pub record Cfg : Type 0 where
  pub topo : List ℕ
  pub succs : ℕ → List ℕ
  pub preds : ℕ → List ℕ
  pub back_edge : ℕ → ℕ → Bool

pub data ExtraCp : Type 0 where
  h0 h1 h2 : ExtraCp

abbrev pub is_h1 : ExtraCp → Bool
is_h1 h1 = true
is_h1 _ = false

unfoldable pub elem : ℕ → List ℕ → Bool
elem b [] = false
elem b (c ∷ cs) = if b == c then true else elem b cs

-- addCpMap and newCp: the id of a new block is the number of those before it.
unfoldable pub add_cp : List ℕ → ℕ → List ℕ
add_cp m b = if elem b m then m else m ++ b ∷ []

-- The id of a block that is in the list.
unfoldable pub index_of : ℕ → List ℕ → ℕ
index_of b [] = 0
index_of b (c ∷ cs) = if b == c then 0 else suc (index_of b cs)

abbrev pub is_empty : List ℕ → Bool
is_empty [] = true
is_empty (x ∷ xs) = false

abbrev pub BlockBitMap : Type 0
BlockBitMap = ℕ → Bits

abbrev pub update : BlockBitMap → ℕ → Bits → BlockBitMap
update m b r x = if x == b then r else m x

-- What the loops over successors and predecessors add: the id of a cut point, or what the block has.
unfoldable pub reach_through : List ℕ → BlockBitMap → Bits → List ℕ → Bits
reach_through cps m r [] = r
reach_through cps m r (s ∷ ss) =
    reach_through cps m (if elem s cps then set_bit r (index_of s cps) else bit_or r (m s)) ss

-- The loop over the reversed order, in computeFwdReach and in the heuristic H2.
unfoldable pub fwd_reach : Cfg → List ℕ → List ℕ → BlockBitMap
fwd_reach g cps [] = λ b. []
fwd_reach g cps (b ∷ rest) =
    let m = fwd_reach g cps rest in update m b (reach_through cps m (m b) (g.succs b))

-- Predecessors along edges that are, or are not, back-edges.
abbrev pub is_side : Bool → Bool → Bool
is_side true e = e
is_side false e = not e

unfoldable pub preds_by : Cfg → Bool → ℕ → List ℕ → List ℕ
preds_by g back b [] = []
preds_by g back b (p ∷ ps) =
    if is_side back (g.back_edge p b) then p ∷ preds_by g back b ps else preds_by g back b ps

-- The two loops of computeBwdReach.
unfoldable pub bwd_pass : Cfg → List ℕ → Bool → List ℕ → BlockBitMap → BlockBitMap
bwd_pass g cps back [] m = m
bwd_pass g cps back (b ∷ rest) m =
    bwd_pass g cps back rest
      (update m b (reach_through cps m (m b) (preds_by g back b (g.preds b))))

unfoldable pub bwd_reach : Cfg → List ℕ → BlockBitMap
unfolding bwd_pass
bwd_reach g cps = bwd_pass g cps true cps (bwd_pass g cps false g.topo (λ b. []))

-- A predecessor of a block. With H1 it may be added itself, by the number of successors of the block.
unfoldable pub mark_pred : Cfg → ExtraCp → ℕ → ℕ → List ℕ → List ℕ
mark_pred g h b p m =
    if not (g.back_edge p b)
    then m
    else if is_h1 h && ltb 1 (length (g.succs b))
    then add_cp (add_cp m b) p
    else add_cp m b

unfoldable pub mark_preds : Cfg → ExtraCp → ℕ → List ℕ → List ℕ → List ℕ
unfolding mark_pred
mark_preds g h b [] m = m
mark_preds g h b (p ∷ ps) m = mark_preds g h b ps (mark_pred g h b p m)

unfoldable pub mark_block : Cfg → ExtraCp → ℕ → List ℕ → List ℕ
unfolding mark_preds
mark_block g h b m =
    if not (is_h1 h) && elem b m
    then m
    else let m1 = if is_empty (g.preds b) then add_cp m b else m in
      let m2 = if is_empty (g.succs b) then add_cp m1 b else m1 in mark_preds g h b (g.preds b) m2

unfoldable pub mark_blocks : Cfg → ExtraCp → List ℕ → List ℕ → List ℕ
mark_blocks g h [] m = m
mark_blocks g h (b ∷ bs) m = mark_blocks g h bs (mark_block g h b m)

abbrev pub max : ℕ → ℕ → ℕ
max a b = if ltb a b then b else a

unfoldable pub most_reached : BlockBitMap → List ℕ → ℕ → ℕ
most_reached fwd [] n = n
most_reached fwd (s ∷ ss) n = most_reached fwd ss (max n (count (fwd s)))

-- H2: a block that reaches more cut points than each of its successors.
unfoldable pub mark_more : Cfg → BlockBitMap → List ℕ → List ℕ → List ℕ
mark_more g fwd [] m = m
mark_more g fwd (b ∷ bs) m =
    let most = most_reached fwd (g.succs b) 0 in
    mark_more g fwd bs (
      if not (elem b m) && ltb 1 (length (g.succs b)) && ltb 0 most && ltb most (count (fwd b))
      then add_cp m b
      else m)

abbrev pub with_extra : Cfg → ExtraCp → List ℕ → List ℕ
with_extra g h2 m = mark_more g (fwd_reach g m g.topo) g.topo m
with_extra g _ m = m

-- The blocks of a map, in the order of `topo`.
unfoldable pub in_order : List ℕ → List ℕ → List ℕ → List ℕ
in_order m [] cps = cps
in_order m (b ∷ bs) cps = in_order m bs (if elem b m then add_cp cps b else cps)

-- computeCutPoints
unfoldable pub cut_points : Cfg → ExtraCp → List ℕ
unfolding mark_blocks in_order
cut_points g h = in_order (with_extra g h (mark_blocks g h g.topo [])) g.topo []

-- isFwdReach; a read past the end of the vector gives false, as its test of the size does.
unfoldable pub is_fwd_reach : List ℕ → BlockBitMap → ℕ → ℕ → Bool
is_fwd_reach cps bwd c b =
    if c == b then true else if elem b cps then false else test (bwd b) (index_of c cps)

pub record CpEdge : Type 0 where
  pub source : ℕ
  pub target : ℕ
  pub blocks : List ℕ

abbrev pub joins : ℕ → ℕ → CpEdge → Bool
joins i j e = (e.source == i) && (e.target == j)

-- getEdge (cp i, cp j) and push_back; `none` is a null pointer.
unfoldable pub push_block : ℕ → ℕ → ℕ → List CpEdge → Option (List CpEdge)
push_block i j b [] = none
push_block i j b (e ∷ es) =
    if joins i j e
    then some (record e { blocks = e.blocks ++ b ∷ [] } ∷ es)
    else elim (push_block i j b es) [ none ↦ none | some es' ↦ some (e ∷ es') ]

unfoldable pub new_edges : ℕ → ℕ → List ℕ → List CpEdge → List CpEdge
new_edges i b [] es = es
new_edges i b (j ∷ js) es =
    new_edges i b js (es ++ record { source = i; target = j; blocks = b ∷ [] } ∷ [])

unfoldable pub push_targets : ℕ → ℕ → List ℕ → List CpEdge → Option (List CpEdge)
push_targets i b [] es = some es
push_targets i b (j ∷ js) es = elim (push_block i j b es) [
  | none ↦ none
  | some es' ↦ push_targets i b js es'
]

unfoldable pub push_sources : List ℕ → ℕ → List ℕ → List CpEdge → Option (List CpEdge)
push_sources [] b js es = some es
push_sources (i ∷ is) b js es = elim (push_targets i b js es) [
  | none ↦ none
  | some es' ↦ push_sources is b js es'
]

-- computeEdges
unfoldable pub edges_from :
    List ℕ → BlockBitMap → BlockBitMap → List ℕ → List CpEdge → Option (List CpEdge)
edges_from cps fwd bwd [] es = some es
edges_from cps fwd bwd (b ∷ bs) es = elim (elem b cps) [
  | true ↦ edges_from cps fwd bwd bs (new_edges (index_of b cps) b (set_ids (fwd b) 0) es)
  | false ↦ elim (push_sources (set_ids (bwd b) 0) b (set_ids (fwd b) 0) es) [
    | none ↦ none
    | some es' ↦ edges_from cps fwd bwd bs es'
  ]
]

-- runOnFunction
unfoldable pub cpg : Cfg → ExtraCp → Option (List CpEdge)
unfolding edges_from
cpg g h =
    let cps = cut_points g h in edges_from cps (fwd_reach g cps g.topo) (bwd_reach g cps) g.topo []
