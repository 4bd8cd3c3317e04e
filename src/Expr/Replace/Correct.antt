-- ===== src/Expr/Replace/Correct.antt =====
-- Replacing is simultaneous substitution.
use seahorn.Prelude.{
  ℕ, suc, ◌<◌, ◌≡◌, refl, sym, ap, ap₂, ◌∙◌, inl, inr, Bool, none, some, [], arith, subst,
  Option-cases,
}
use seahorn.Expr.Syntax.{Op, Expr, Args, node, nil, cons, size, size_args}
use seahorn.Expr.Visitor.{Action, Cache, do_kids, change_to, visit, find, dag_visit}
use seahorn.Expr.Visitor.Rule.{Kids, none_left, next, AllKids, Promise, visit_rule}
use seahorn.Expr.Visitor.Cached.{dag_visit-visit}
use seahorn.Expr.Replace.{replace_action, replace}

-- The map applied at the outermost terms that it has.
unfoldable mutual
  pub substitute : Cache → Expr → Expr
  substitute m (node op ks) = elim (find (node op ks) m) [
    | none ↦ node op (substitute_args m ks)
    | some t ↦ t
  ]

  pub substitute_args : Cache → Args → Args
  substitute_args m nil = nil
  substitute_args m (cons x ks) = cons (substitute m x) (substitute_args m ks)

pub smaller_args :
    (ks : Args) (m : ℕ) → size_args ks < m → AllKids (λ k. Unit {0} × (size k < m)) ks
smaller_args nil m h = tt
smaller_args (cons x ks) m h = ((tt, omega arith), smaller_args ks m (omega arith))

module _ (m : Cache) where
  abbrev Replaced : Expr → Expr → Type 0
  Replaced e r = r ≡ substitute m e

  Kids-substitute_args : {ks ls : Args} → Kids Replaced ks ls → ls ≡ substitute_args m ks
  unfolding substitute
  Kids-substitute_args none_left = refl
  Kids-substitute_args (next p q) = ap₂ cons p (Kids-substitute_args q)

  pub substitute_missing :
      (op : Op) (ks : Args)
      → find (node op ks) m ≡ none
      → substitute m (node op ks) ≡ node op (substitute_args m ks)
  unfolding substitute
  substitute_missing op ks h = ground arith

  pub substitute_found :
      (op : Op) (ks : Args) (t : Expr)
      → find (node op ks) m ≡ some t
      → substitute m (node op ks) ≡ t
  unfolding substitute
  substitute_found op ks t h = ground arith

  action_missing : (e : Expr) → find e m ≡ none → replace_action m e ≡ do_kids
  unfolding replace_action
  action_missing e h = ground arith

  action_found : (e t : Expr) → find e m ≡ some t → replace_action m e ≡ change_to t
  unfolding replace_action
  action_found e t h = ground arith

  abbrev Promised : Expr → Action → Type 0
  Promised = Promise (replace_action m) (λ _. Unit {0}) Replaced size

  replace_action-Promise : (e : Expr) → Promised e (replace_action m e)
  replace_action-Promise (node op ks) = elim (Option-cases (find (node op ks) m)) [
    | inl missing ↦ subst (Promised (node op ks)) (sym (action_missing (node op ks) missing)) (
      smaller_args ks (size (node op ks)) (omega arith),
      λ ls kids. ap (node op) (Kids-substitute_args kids) ∙ sym (substitute_missing op ks missing),
    )
    | inr (t, found) ↦
        subst (Promised (node op ks)) (sym (action_found (node op ks) t found))
          (sym (substitute_found op ks t found))
  ]

-- replace always ends; its result is the term with the map applied at the outermost subterms that the
-- map has, and the traversal with the cache of shared nodes returns the same term, whichever nodes
-- count as shared.
pub replace_correct :
    (e : Expr) (m : Cache) (shared : Expr → Bool)
    → (replace e m ≡ some (substitute m e))
      × ((c : Cache) × (dag_visit shared (suc (size e)) (replace_action m) e []
            ≡ some (substitute m e, c)))
unfolding replace
replace_correct e m shared =
    let (r, done, same) =
      visit_rule (replace_action m) (λ _. Unit {0}) (Replaced m) size
        (λ e' _. replace_action-Promise m e') (suc (size e)) e (omega arith) tt in
    let done' : visit (suc (size e)) (replace_action m) e ≡ some (substitute m e) =
      done ∙ ap some same in
    let (c, cached, _) =
      dag_visit-visit (replace_action m) shared (suc (size e)) e (substitute m e) [] done' tt in
    (done', (c, cached))
