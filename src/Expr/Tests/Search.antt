-- ===== src/Expr/Tests/Search.antt =====
-- Searching and replacing in concrete terms.
use seahorn.Prelude.{suc, ◌≡◌, refl, ◌↔◌, Bool, true, false, some, [], ◌∷◌, ℕ_discrete}
use seahorn.Expr.Syntax.{
  Expr, node, nil, other, tru, fls, mk_neg, mk_and, mk_or, size, is_bool_op, ◌≟◌, Expr-discrete,
}
use seahorn.Expr.Visitor.{Cache, dag_visit, visit, visit_kids, act, rebuild, find}
use seahorn.Expr.Replace.{replace, replace_action, replace_all, contains, search, member}
use seahorn.Expr.Replace.Correct.{substitute, replace_correct}
use seahorn.Expr.Replace.Contains.{Occurs, contains_correct}
use seahorn.Expr.Filter.{filter, collect_from}
use seahorn.Expr.Filter.Correct.{Hit, filter-Hit}
use seahorn.Prelude.{In}

abbrev a : Expr
a = node (other 5) nil

abbrev b : Expr
b = node (other 6) nil

-- (a && !b) || a
abbrev choice : Expr
choice = mk_or (mk_and a (mk_neg b)) a

abbrev swap : Cache
swap = (a, b) ∷ (b, a) ∷ []

replace_correct_example :
    (replace choice swap ≡ some (substitute swap choice))
    × ((c : Cache) × (dag_visit is_bool_op (suc (size choice)) (replace_action swap) choice []
          ≡ some (substitute swap choice, c)))
replace_correct_example = replace_correct choice swap is_bool_op

replace_run : replace choice swap ≡ some (mk_or (mk_and b (mk_neg a)) b)
unfolding replace visit act rebuild visit_kids replace_action find ◌≟◌ Expr-discrete ℕ_discrete
replace_run = refl

contains_run : (contains choice b ≡ true) × (contains choice tru ≡ false)
unfolding contains search member ◌≟◌ Expr-discrete ℕ_discrete
contains_run = (refl, refl)

contains_correct_example :
    ((contains choice tru ≡ true) ↔ Occurs tru choice)
    × (contains choice tru ≡ false → replace_all choice tru fls ≡ some choice)
contains_correct_example = contains_correct choice tru fls

abbrev is_atom : Expr → Bool
is_atom (node (other k) ks) = true
is_atom _ = false

filter-Hit_example : In b (filter is_atom choice) ↔ Hit is_atom b choice
filter-Hit_example = filter-Hit is_atom choice b

-- Each atom once, although one of them occurs twice.
filter_run : filter is_atom choice ≡ a ∷ b ∷ []
unfolding filter collect_from member ◌≟◌ Expr-discrete ℕ_discrete
filter_run = refl
