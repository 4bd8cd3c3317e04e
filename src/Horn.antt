-- ===== src/Horn.antt =====
-- include/seahorn/HornClauseDB.hh and lib/seahorn/HornClauseDB.cc: rules, relations and the indexes.
pub mod Rules
pub mod Uses
pub mod Indexes
pub mod CallGraph
mod Tests
use seahorn.Prelude.{
  ℕ, zero, suc, ◌+◌, Bool, true, false, not, ◌&&◌, Option, none, some, List, [], ◌∷◌, ◌++◌, length,
  drop, if◌then◌else◌, ◌==◌,
}
use seahorn.Expr.Syntax.{
  Op, Expr, Args, node, nil, cons, other, impl_op, tru, mk_impl, is_true, ◌≟◌,
}
use seahorn.Expr.Replace.{member}
use seahorn.Expr.Filter.{filter}

-- bind::isFdecl, bind::isFapp and bind::fname, the first argument; `none` is a node without arguments.
abbrev pub is_fdecl : Expr → Bool
is_fdecl (node (other zero) ks) = true
is_fdecl _ = false

abbrev pub is_fapp : Expr → Bool
is_fapp (node (other (suc zero)) ks) = true
is_fapp _ = false

abbrev pub fname : Expr → Option Expr
fname (node op nil) = none
fname (node op (cons d ks)) = some d

pub record HornRule : Type 0 where
  pub vars : List Expr
  pub head : Expr
  pub body : Expr

-- HornRule (v, b); `none` is the failed assertion.
unfoldable pub rule_of : List Expr → Expr → Option HornRule
rule_of v (node impl_op (cons l (cons r nil))) = some (record { vars = v; head = r; body = l })
rule_of v b = if is_fapp b then some (record { vars = v; head = b; body = tru }) else none

-- HornRule::get
unfoldable pub get : HornRule → Expr
get r = if is_true r.body then r.head else mk_impl r.body r.head

-- An index maps a relation to a set of rules; a pointer to a rule is its position in m_rules.
abbrev pub Index : Type 0
Index = List (Expr × List ℕ)

pub record HornClauseDb : Type 0 where
  pub rels : List Expr
  pub vars : List Expr
  pub rules : List HornRule
  pub queries : List Expr
  pub body_idx : Index
  pub head_idx : Index

unfoldable pub has_relation : HornClauseDb → Expr → Bool
has_relation db d = member d db.rels

unfoldable pub register_relation : Expr → HornClauseDb → HornClauseDb
register_relation d db = if member d db.rels then db else record db { rels = d ∷ db.rels }

unfoldable pub is_relation : HornClauseDb → Expr → Bool
unfolding has_relation
is_relation db e = is_fdecl e && has_relation db e

-- HornRule::used_relations
unfoldable pub used_relations : HornClauseDb → HornRule → List Expr
unfolding is_relation
used_relations db r = filter (is_relation db) r.body

unfoldable pub reset_indexes : HornClauseDb → HornClauseDb
reset_indexes db = record db { body_idx = []; head_idx = [] }

-- addRule (rule)
unfoldable pub add_rule : HornRule → HornClauseDb → HornClauseDb
unfolding reset_indexes
add_rule r db = reset_indexes (record db { rules = db.rules ++ r ∷ []; vars = db.vars ++ r.vars })

-- addRule (vars, rule)
unfoldable pub add_rule_expr : List Expr → Expr → HornClauseDb → Option HornClauseDb
unfolding add_rule
add_rule_expr v e db =
    if is_true e
    then some db
    else elim (rule_of v e) [ none ↦ none | some r ↦ some (add_rule r db) ]

unfoldable pub without : (HornRule → Bool) → List HornRule → List HornRule
without same [] = []
without same (r ∷ rs) = if same r then without same rs else r ∷ without same rs

-- removeRule: std::remove moves the other rules to the front, and `erase` then drops one element. `same`
-- is the comparison with the rule, by hash values; `none` is `erase` at the end of the vector.
unfoldable pub remove_rule : (HornRule → Bool) → HornClauseDb → Option HornClauseDb
unfolding without reset_indexes
remove_rule same db =
    let kept = without same db.rules in
    if length kept == length db.rules
    then none
    else some (reset_indexes (record db { rules = kept ++ drop (length kept + 1) db.rules }))

abbrev pub put_pos : ℕ → List ℕ → List ℕ
put_pos i [] = i ∷ []
put_pos i (j ∷ js) = if i == j then j ∷ js else j ∷ put_pos i js

-- idx[d].insert (&r)
unfoldable pub index_put : Expr → ℕ → Index → Index
index_put d i [] = (d, i ∷ []) ∷ []
index_put d i ((k, js) ∷ idx) =
    if d ≟ k then (k, put_pos i js) ∷ idx else (k, js) ∷ index_put d i idx

unfoldable pub index_all : List Expr → ℕ → Index → Index
index_all [] i idx = idx
index_all (d ∷ ds) i idx = index_all ds i (index_put d i idx)

-- Look-up with the empty set where there is none.
unfoldable pub rules_at : Expr → Index → List ℕ
rules_at d [] = []
rules_at d ((k, js) ∷ idx) = if d ≟ k then js else rules_at d idx

abbrev pub head_relations : HornRule → List Expr
head_relations r = elim (fname r.head) [ none ↦ [] | some d ↦ d ∷ [] ]

-- The loop of buildIndexes on one index: `rels_of` gives the relations of a rule.
unfoldable pub index_rules : (HornRule → List Expr) → List HornRule → ℕ → Index → Index
index_rules rels_of [] i idx = idx
index_rules rels_of (r ∷ rs) i idx = index_rules rels_of rs (i + 1) (index_all (rels_of r) i idx)

unfoldable pub build_indexes : HornClauseDb → HornClauseDb
build_indexes db = record db {
  body_idx = index_rules (used_relations db) db.rules 0 [];
  head_idx = index_rules head_relations db.rules 0 [];
}

unfoldable pub use_of : Expr → HornClauseDb → List ℕ
use_of d db = rules_at d db.body_idx

unfoldable pub def_of : Expr → HornClauseDb → List ℕ
def_of d db = rules_at d db.head_idx
