-- ===== src/Horn/Tests.antt =====
-- Rules and indexes of a database with two relations.
use seahorn.Prelude.{
  suc, ◌<◌, ◌≡◌, refl, ◌↔◌, inr, ℕ_discrete, Bool, true, false, none, some, List, [], ◌∷◌, length,
  get_elem?,
}
use seahorn.Expr.Syntax.{Expr, node, nil, cons, other, mk_and, tru, ◌≟◌, Expr-discrete}
use seahorn.Expr.Replace.{member}
use seahorn.Expr.Filter.{filter, collect_from}
use seahorn.Prelude.{In}
use seahorn.Horn.{
  HornRule, HornClauseDb, is_fapp, rule_of, get, add_rule, add_rule_expr, register_relation,
  remove_rule, without, reset_indexes, build_indexes, use_of, def_of, rules_at, index_rules,
  index_all, index_put, used_relations, is_relation, has_relation,
}
use seahorn.Horn.Rules.{rule_of-get, remove_rule-count, count}
use seahorn.Horn.Indexes.{build_indexes-In}
use seahorn.Horn.Uses.{UsedIn, Applies}
use seahorn.Horn.CallGraph.{
  CallGraph, build_call_graph, calls_at, has_calls, put_calls, call_map, relations_at, set_insert,
  find_entry,
}
use seahorn.Horn.CallGraph.Correct.{Calls, IsNewEntry, build_call_graph_correct}

abbrev entry : Expr
entry = node (other 0) (cons (node (other 7) nil) nil)

abbrev loop : Expr
loop = node (other 0) (cons (node (other 8) nil) nil)

abbrev in_entry : Expr
in_entry = node (other 1) (cons entry nil)

abbrev in_loop : Expr
in_loop = node (other 1) (cons loop nil)

abbrev step_cond : Expr
step_cond = node (other 9) nil

-- entry; entry => loop; loop && cond => loop
abbrev start_rule : HornRule
start_rule = record { vars = []; head = in_entry; body = tru }

abbrev enter_rule : HornRule
enter_rule = record { vars = []; head = in_loop; body = in_entry }

abbrev step_rule : HornRule
step_rule = record { vars = []; head = in_loop; body = mk_and in_loop step_cond }

abbrev program : HornClauseDb
program = record {
  rels = entry ∷ loop ∷ [];
  vars = [];
  rules = start_rule ∷ enter_rule ∷ step_rule ∷ [];
  queries = [];
  body_idx = [];
  head_idx = [];
}

rule_of-get_example : rule_of [] (get step_rule) ≡ some step_rule
rule_of-get_example = rule_of-get step_rule refl (inr refl)

abbrev is_step : HornRule → Bool
is_step r = r.body ≟ mk_and in_loop step_cond

remove_rule-count_example :
    (count is_step program.rules ≡ 0 → remove_rule is_step program ≡ none)
    × (count is_step program.rules ≡ 1
        → remove_rule is_step program
          ≡ some (reset_indexes (record program { rules = without is_step program.rules })))
    × (0 < count is_step program.rules
        → (rs : List HornRule) × (remove_rule is_step program
            ≡ some (reset_indexes (record program { rules = rs })))
          × (suc (length rs) ≡ length program.rules))
remove_rule-count_example = remove_rule-count is_step program

build_indexes-In_example :
    (In 2 (use_of loop (build_indexes program))
      ↔ ((r : HornRule) × (get_elem? program.rules 2 ≡ some r) × UsedIn program loop r.body))
    × (In 2 (def_of loop (build_indexes program))
        ↔ ((r : HornRule) × (get_elem? program.rules 2 ≡ some r) × Applies loop r.head))
build_indexes-In_example = build_indexes-In program loop 2

index_run :
    (use_of loop (build_indexes program) ≡ 2 ∷ [])
    × (def_of loop (build_indexes program) ≡ 1 ∷ 2 ∷ [])
    × (use_of entry (build_indexes program) ≡ 1 ∷ [])
unfolding use_of def_of build_indexes index_rules index_all index_put rules_at used_relations
    is_relation has_relation filter collect_from member ◌≟◌ Expr-discrete ℕ_discrete
index_run = (refl, refl, refl)

-- Two equal rules: one of them stays.
stale_run :
    remove_rule (λ r. is_fapp r.body) (record program { rules = enter_rule ∷ enter_rule ∷ [] })
    ≡ some (record program { rules = enter_rule ∷ [] })
unfolding remove_rule without reset_indexes
stale_run = refl

add_run :
    add_rule_expr [] in_entry (register_relation loop (record program { rules = [] }))
    ≡ some (record program { rules = start_rule ∷ [] })
unfolding add_rule_expr rule_of add_rule reset_indexes register_relation member ◌≟◌ Expr-discrete
    ℕ_discrete
add_run = refl

abbrev is_main : Expr → Bool
is_main p = p ≟ entry

-- The graph before the first build, and after a build of the database without its last rule.
abbrev no_graph : CallGraph
no_graph = record { callers = []; callees = []; entry = none }

abbrev shorter : HornClauseDb
shorter = record program { rules = start_rule ∷ enter_rule ∷ [] }

build_call_graph_correct_example :
    ((p q : Expr)
      → In p program.rels
      → has_calls p [] ≡ false
      → In q (calls_at p ((build_call_graph is_main program no_graph).callees)) ↔ Calls program p q)
    × ((p q : Expr)
        → In q program.rels
        → has_calls q [] ≡ false
        → In p (calls_at q ((build_call_graph is_main program no_graph).callers))
          ↔ Calls program p q)
    × ((p : Expr)
        → has_calls p [] ≡ true
        → calls_at p ((build_call_graph is_main program no_graph).callees) ≡ calls_at p [])
    × ((p : Expr)
        → has_calls p [] ≡ true
        → calls_at p ((build_call_graph is_main program no_graph).callers) ≡ calls_at p [])
    × IsNewEntry is_main
        ((build_call_graph is_main program no_graph).callers)
        (program.rels)
        none
        ((build_call_graph is_main program no_graph).entry)
build_call_graph_correct_example = build_call_graph_correct is_main program no_graph

-- The loop calls itself, which a build after that of the shorter database does not show.
rebuild_run :
    (calls_at loop ((build_call_graph is_main program no_graph).callees) ≡ loop ∷ [])
    × (calls_at loop
          ((build_call_graph is_main program (build_call_graph is_main shorter no_graph)).callees)
        ≡ [])
unfolding build_call_graph call_map put_calls has_calls calls_at relations_at set_insert find_entry
    use_of def_of build_indexes index_rules index_all index_put rules_at used_relations is_relation
    has_relation filter collect_from member ◌≟◌ Expr-discrete ℕ_discrete
rebuild_run = (refl, refl)
