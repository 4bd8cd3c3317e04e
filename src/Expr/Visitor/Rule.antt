-- ===== src/Expr/Visitor/Rule.antt =====
-- Total correctness of the traversal from what each action promises.
use seahorn.Prelude.{ℕ, zero, suc, ◌<◌, ◌≡◌, refl, Option, some, arith}
use seahorn.Expr.Syntax.{Expr, Args, node, nil, cons, op_of, args_of}
use seahorn.Expr.Visitor.{
  Action, Visitor, skip_kids, do_kids, change_to, change_do_kids_rewrite, visit_kids, rebuild, act,
  visit,
}

-- `Q` relates an argument list to what it became.
pub data Kids (P : Expr → Expr → Type 0) : Args → Args → Type 0 where
  none_left : Kids P nil nil
  next : {x y : Expr} {ks ls : Args} → P x y → Kids P ks ls → Kids P (cons x ks) (cons y ls)

abbrev pub AllKids : (Expr → Type 0) → Args → Type 0
AllKids P nil = Unit
AllKids P (cons x ks) = P x × AllKids P ks

module _ (v : Visitor) (Pre : Expr → Type 0) (P : Expr → Expr → Type 0) (m : Expr → ℕ) where
  -- What an action at `e` must promise: the arguments that are visited next lie below `e`, and the
  -- results for them give one for `e`.
  abbrev pub Promise : Expr → Action → Type 0
  Promise e skip_kids = P e e
  Promise e (change_to t) = P e t
  Promise e do_kids =
      AllKids (λ k. Pre k × (m k < m e)) (args_of e)
      × ((ls : Args) → Kids P (args_of e) ls → P e (node (op_of e) ls))
  Promise e (change_do_kids_rewrite t r) =
      AllKids (λ k. Pre k × (m k < m e)) (args_of t)
      × ((ls : Args) → Kids P (args_of t) ls → P e (r (node (op_of t) ls)))

  abbrev Ends : ℕ → Expr → Type 0
  Ends n e = (r : Expr) × (visit n v e ≡ some r) × P e r

  visit_kids_lem :
      (go : Expr → Option Expr) (ks : Args)
      → AllKids (λ k. (r : Expr) × (go k ≡ some r) × P k r) ks
      → (ls : Args) × (visit_kids go ks ≡ some ls) × Kids P ks ls
  unfolding visit_kids
  visit_kids_lem go nil h = (nil, refl, none_left)
  visit_kids_lem go (cons x ks) h =
      let (y, ey, py) = h.0 in
      let (ls, els, pls) = visit_kids_lem go ks h.1 in (cons y ls, ground arith, next py pls)

  AllKids-map :
      {F G : Expr → Type 0} → ((x : Expr) → F x → G x) → (ks : Args) → AllKids F ks → AllKids G ks
  AllKids-map f nil h = tt
  AllKids-map f (cons x ks) h = (f x h.0, AllKids-map f ks h.1)

  act_lem :
      (go : Expr → Option Expr) (e : Expr)
      → ((k : Expr) → Pre k → m k < m e → (r : Expr) × (go k ≡ some r) × P k r)
      → (a : Action) → Promise e a
      → (r : Expr) × (act go e a ≡ some r) × P e r
  unfolding act rebuild
  act_lem go e below skip_kids p = (e, refl, p)
  act_lem go e below (change_to t) p = (t, refl, p)
  act_lem go (node op ks) below do_kids p =
      let (ls, els, pls) = visit_kids_lem go ks (AllKids-map (λ k q. below k q.0 q.1) ks p.0) in
      (node op ls, ground arith, p.1 ls pls)
  act_lem go e below (change_do_kids_rewrite (node op ks) r) p =
      let (ls, els, pls) = visit_kids_lem go ks (AllKids-map (λ k q. below k q.0 q.1) ks p.0) in
      (r (node op ls), ground arith, p.1 ls pls)

  pub visit_rule :
      ((e : Expr) → Pre e → Promise e (v e))
      → (n : ℕ) (e : Expr) → m e < n
      → Pre e
      → (r : Expr) × (visit n v e ≡ some r) × P e r
  unfolding visit
  visit_rule promise zero e h pre = absurd (omega arith)
  visit_rule promise (suc n) e h pre =
      act_lem (visit n v) e (λ k pk lt. visit_rule promise n k (omega arith) pk) (v e)
        (promise e pre)
