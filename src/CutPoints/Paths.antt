-- ===== src/CutPoints/Paths.antt =====
-- Paths of a control-flow graph that pass no cut point, and what an order of its blocks promises.
use seahorn.Prelude.{ℕ, ◌≡◌, ◌↔◌, true, false, List, [], ◌∷◌, In, arith}
use seahorn.CutPoints.{Cfg, elem}

-- From block `b` to the cut point `c`, with no cut point between.
pub data Fwd (g : Cfg) (cps : List ℕ) : ℕ → ℕ → Type 0 where
  arrive : {b c : ℕ} → In c (g.succs b) → elem c cps ≡ true → Fwd g cps b c
  onward : {b m c : ℕ} → In m (g.succs b) → elem m cps ≡ false → Fwd g cps m c → Fwd g cps b c

-- From the cut point `c` to block `b`, with no cut point between.
pub data Bwd (g : Cfg) (cps : List ℕ) : ℕ → ℕ → Type 0 where
  depart : {c b : ℕ} → In c (g.preds b) → elem c cps ≡ true → Bwd g cps c b
  extend : {c m b : ℕ} → In m (g.preds b) → elem m cps ≡ false → Bwd g cps c m → Bwd g cps c b

-- Each block stands once, and before the targets of its edges that are not back-edges.
abbrev pub Ordered : Cfg → List ℕ → Type 0
Ordered g [] = Unit
Ordered g (b ∷ rest) =
    (¬ In b rest)
    × ((s : ℕ) → In s (g.succs b) → g.back_edge b s ≡ false → In s rest)
    × Ordered g rest

-- Each block stands after the sources of its edges that are not back-edges.
abbrev pub OrderedPreds : Cfg → List ℕ → List ℕ → Type 0
OrderedPreds g done [] = Unit
OrderedPreds g done (b ∷ rest) =
    (¬ In b done)
    × ((p : ℕ) → In p (g.preds b) → g.back_edge p b ≡ false → In p done)
    × OrderedPreds g (b ∷ done) rest

-- A topological order of all blocks. Every block can be reached, so its predecessors are among them.
pub record IsCfg (g : Cfg) : Type 0 where
  pub forward : Ordered g g.topo
  pub backward : OrderedPreds g [] g.topo
  pub edges : (p b : ℕ) → In p (g.preds b) ↔ In b (g.succs p)
  pub pred_known : (p b : ℕ) → In b g.topo → In p (g.preds b) → In p g.topo
  pub succ_known : (b s : ℕ) → In b g.topo → In s (g.succs b) → In s g.topo

-- The target of each back-edge is a cut point.
abbrev pub BackCut : Cfg → List ℕ → Type 0
BackCut g cps =
    (p b : ℕ) → In b g.topo → In p (g.preds b) → g.back_edge p b ≡ true → elem b cps ≡ true

pub elem-In : (b : ℕ) (cs : List ℕ) → (elem b cs ≡ true) ↔ In b cs
unfolding elem
elem-In b [] = (λ h. cc, λ h. absurd h)
elem-In b (c ∷ cs) = ground (arith, elem-In b cs)

-- A path to a block, continued to a cut point.
pub Fwd-Bwd :
    (g : Cfg) (cps : List ℕ) (c b d : ℕ)
    → ((p q : ℕ) → In p (g.preds q) → In q (g.succs p))
    → elem b cps ≡ false
    → Bwd g cps c b
    → Fwd g cps b d
    → Fwd g cps c d
Fwd-Bwd g cps c b d e nb (depart p cut) f = onward (e c b p) nb f
Fwd-Bwd g cps c b d e nb (extend {m} p no_cut rest) f =
    Fwd-Bwd g cps c m d e no_cut rest (onward (e m b p) nb f)
