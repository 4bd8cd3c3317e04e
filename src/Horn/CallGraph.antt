-- ===== src/Horn/CallGraph.antt =====
-- HornClauseDBCallGraph of lib/seahorn/HornClauseDB.cc: which relations call which.
pub mod Sets
pub mod Maps
pub mod Correct
use seahorn.Prelude.{
  ℕ, ◌≡◌, refl, sym, ap, ◌∙◌, ◌↔◌, ◌⊎◌, inl, inr, Bool, true, false, Option, none, some, List, [],
  ◌∷◌, In, get_elem?, if◌then◌else◌, subst, Bool-cases, Option-cases,
}
use seahorn.Expr.Syntax.{Expr, ◌≟◌, ≟→≡, →≟}
use seahorn.Expr.Replace.{member}
use seahorn.Horn.{
  HornRule, HornClauseDb, build_indexes, use_of, def_of, used_relations, head_relations,
}
use seahorn.Horn.Indexes.{build_indexes-In}

-- The insertion of relations into a set.
unfoldable pub set_insert : List Expr → List Expr → List Expr
set_insert [] s = s
set_insert (d ∷ ds) s = set_insert ds (if member d s then s else d ∷ s)

-- The relations that the rules at some positions give.
unfoldable pub relations_at :
    (HornRule → List Expr) → List HornRule → List ℕ → List Expr → List Expr
relations_at rels_of rules [] s = s
relations_at rels_of rules (j ∷ js) s = elim (get_elem? rules j) [
  | none ↦ relations_at rels_of rules js s
  | some r ↦ relations_at rels_of rules js (set_insert (rels_of r) s)
]

abbrev pub CallMap : Type 0
CallMap = List (Expr × List Expr)

-- Look-up with the empty set where there is none.
unfoldable pub calls_at : Expr → CallMap → List Expr
calls_at p [] = []
calls_at p ((k, s) ∷ m) = if p ≟ k then s else calls_at p m

unfoldable pub has_calls : Expr → CallMap → Bool
has_calls p [] = false
has_calls p ((k, s) ∷ m) = if p ≟ k then true else has_calls p m

-- std::map::insert, which leaves an entry that is there.
unfoldable pub put_calls : Expr → List Expr → CallMap → CallMap
unfolding has_calls
put_calls p s m = if has_calls p m then m else (p, s) ∷ m

-- The insertion for each relation into a map, which may have entries of an earlier build.
unfoldable pub call_map : (Expr → List Expr) → List Expr → CallMap → CallMap
unfolding put_calls
call_map f [] m = m
call_map f (p ∷ ps) m = call_map f ps (put_calls p (f p) m)

-- The first relation of the entry block of main that nothing calls; `is_main` is the test of its name.
unfoldable pub find_entry : (Expr → Bool) → CallMap → List Expr → Option Expr
find_entry is_main callers [] = none
find_entry is_main callers (p ∷ ps) = elim (calls_at p callers) [
  | [] ↦ if is_main p then some p else find_entry is_main callers ps
  | c ∷ cs ↦ find_entry is_main callers ps
]

pub record CallGraph : Type 0 where
  pub callers : CallMap
  pub callees : CallMap
  pub entry : Option Expr

-- buildCallGraph on the member maps and the entry, which it does not reset; `is_main` is the test of a
-- relation's name.
unfoldable pub build_call_graph : (Expr → Bool) → HornClauseDb → CallGraph → CallGraph
build_call_graph is_main db cg =
    let idx = build_indexes db in
    let callees' =
      call_map (λ p. relations_at head_relations (db.rules) (use_of p idx) []) db.rels cg.callees in
    let callers' =
      call_map (λ p. relations_at (used_relations db) (db.rules) (def_of p idx) []) db.rels
        cg.callers in
    record {
      callers = callers';
      callees = callees';
      entry = elim (find_entry is_main callers' db.rels) [ none ↦ cg.entry | some p ↦ some p ];
    }
