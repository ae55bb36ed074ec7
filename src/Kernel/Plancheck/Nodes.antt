-- ===== src/Kernel/Plancheck/Nodes.antt =====
-- The nodes of a plan, against the count of the admission (crates/portos-kernel/src/plancheck.rs):
-- the count knows nothing of the walk.
use portos.Base.{ℕ, suc, ◌+◌, ◌*◌, ◌≤◌, ◌≡◌, sym, ◌∙◌, ap, String, string_discrete, leb, arith}
use portos.Base.Maps.{Map, get}
use portos.Proto.Label.{Label, join, public_trusted}
use portos.Proto.Plan.{
  Expr, Exprs, observe, pure, const, var, index, more, Guard, exists, matches, cmp, and, or, Stmt,
  let_, effect, if_, foreach, Stmts, end, ◌⨾◌,
}
use portos.Kernel.Plancheck.{
  u64_max, s_max, max_depth, too_deep, sink_allows, sink_denied, saturating, wrapping, admitted,
  VerbSchemas, Walk, counted_nodes, bind_var, charge, walk_effect, walk_stmt, walk_list,
  bind-admitted, admitted-injective, demand-admitted, or_refuse-admitted, expr_label, args_label,
  guard_label,
}

module _ {V : Type 0} where
  -- The nodes: every statement and every expression, those in arguments and guards among them.
  unfoldable mutual
    pub nodes_expr : Expr V → ℕ
    nodes_expr (observe verb args) = 1 + nodes_args args
    nodes_expr (pure func args) = 1 + nodes_args args
    nodes_expr (const v) = 1
    nodes_expr (var name) = 1
    nodes_expr (index base idx) = 1 + nodes_expr base

    pub nodes_args : Exprs V → ℕ
    nodes_args Exprs.none = 0
    nodes_args (more e es) = nodes_expr e + nodes_args es

  unfoldable pub nodes_guard : Guard V → ℕ
  unfolding nodes_expr
  nodes_guard (exists e) = nodes_expr e
  nodes_guard (matches e regex) = nodes_expr e
  nodes_guard (cmp lhs op rhs) = nodes_expr lhs + nodes_expr rhs
  nodes_guard (and l r) = nodes_guard l + nodes_guard r
  nodes_guard (or l r) = nodes_guard l + nodes_guard r
  nodes_guard (Guard.not g) = nodes_guard g

  unfoldable mutual
    pub nodes_stmt : Stmt V → ℕ
    nodes_stmt (let_ x e) = nodes_expr e
    nodes_stmt (effect verb args) = nodes_args args
    nodes_stmt (if_ g t e) = nodes_guard g + (nodes t + nodes e)
    nodes_stmt (foreach x l bound mode body) = nodes_expr l + nodes body

    pub nodes : Stmts V → ℕ
    nodes end = 0
    nodes (s ⨾ ss) = 1 + (nodes_stmt s + nodes ss)

wrapping_one : (n k : ℕ) → n + (1 + k) ≤ u64_max → wrapping (n + 1) ≡ n + 1
unfolding wrapping
wrapping_one n k h = omega arith

charge-nodes :
    (m : ℕ) (w : Walk) (k : ℕ) {w' : Walk}
    → charge m w ≡ admitted w'
    → w.out.node_count + (1 + k) ≤ u64_max
    → w'.out.node_count ≡ w.out.node_count + 1
unfolding charge
charge-nodes m w k e h =
    let (t, q) = demand-admitted (leb (saturating (w.out.worst_case_steps + m)) s_max) _ _ e in
    ap (λ (w : Walk). w.out.node_count) (sym (admitted-injective q))
    ∙ wrapping_one w.out.node_count k h

module _ {V : Type 0} (schemas : VerbSchemas) where
  mutual
    unfolding expr_label nodes_expr

    expr-nodes :
        (env : Map String Label) (n : ℕ) (e : Expr V) {l : Label} {n' : ℕ}
        → expr_label schemas env n e ≡ admitted (l, n')
        → n + nodes_expr e ≤ u64_max
        → n' ≡ n + nodes_expr e
    expr-nodes env n (observe verb args) q h =
        let (base, _, q1) =
          or_refuse-admitted (get string_discrete verb schemas.observe_labels) _ _ q in
        let w = wrapping_one n (nodes_args args) h in
        args-nodes env base (wrapping (n + 1)) args q1 (omega (arith, w, h)) ∙ omega (arith, w)
    expr-nodes env n (pure func args) q h =
        let w = wrapping_one n (nodes_args args) h in
        args-nodes env public_trusted (wrapping (n + 1)) args q (omega (arith, w, h))
        ∙ omega (arith, w)
    expr-nodes env n (const v) q h =
        ap (λ (x : Label × ℕ). x.1) (sym (admitted-injective q)) ∙ wrapping_one n 0 h
    expr-nodes env n (var name) q h =
        let (l, _, q1) = or_refuse-admitted (get string_discrete name env) _ _ q in
        ap (λ (x : Label × ℕ). x.1) (sym (admitted-injective q1)) ∙ wrapping_one n 0 h
    expr-nodes env n (index base idx) q h =
        let w = wrapping_one n (nodes_expr base) h in
        expr-nodes env (wrapping (n + 1)) base q (omega (arith, w, h)) ∙ omega (arith, w)

    args-nodes :
        (env : Map String Label) (l : Label) (n : ℕ) (es : Exprs V) {l' : Label} {n' : ℕ}
        → args_label schemas env l n es ≡ admitted (l', n')
        → n + nodes_args es ≤ u64_max
        → n' ≡ n + nodes_args es
    args-nodes env l n Exprs.none q h =
        ap (λ (x : Label × ℕ). x.1) (sym (admitted-injective q)) ∙ omega arith
    args-nodes env l n (more e es) q h =
        let ((le, n1), p, q1) = bind-admitted (expr_label schemas env n e) _ q in
        let a = expr-nodes env n e p (omega (arith, h)) in
        args-nodes env (join l le) n1 es q1 (omega (arith, a, h)) ∙ omega (arith, a)

  guard-nodes :
      (env : Map String Label) (n : ℕ) (g : Guard V) {l : Label} {n' : ℕ}
      → guard_label schemas env n g ≡ admitted (l, n')
      → n + nodes_guard g ≤ u64_max
      → n' ≡ n + nodes_guard g
  unfolding guard_label nodes_guard
  guard-nodes env n (exists e) q h = expr-nodes env n e q h
  guard-nodes env n (matches e regex) q h = expr-nodes env n e q h
  guard-nodes env n (cmp lhs op rhs) q h =
      let ((a, n1), p, q1) = bind-admitted (expr_label schemas env n lhs) _ q in
      let ((b, n2), r, q2) = bind-admitted (expr_label schemas env n1 rhs) _ q1 in
      let x = expr-nodes env n lhs p (omega (arith, h)) in
      let y = expr-nodes env n1 rhs r (omega (arith, x, h)) in
      ap (λ (x : Label × ℕ). x.1) (sym (admitted-injective q2)) ∙ y ∙ omega (arith, x)
  guard-nodes env n (and l r) q h =
      let ((a, n1), p, q1) = bind-admitted (guard_label schemas env n l) _ q in
      let ((b, n2), k, q2) = bind-admitted (guard_label schemas env n1 r) _ q1 in
      let x = guard-nodes env n l p (omega (arith, h)) in
      let y = guard-nodes env n1 r k (omega (arith, x, h)) in
      ap (λ (x : Label × ℕ). x.1) (sym (admitted-injective q2)) ∙ y ∙ omega (arith, x)
  guard-nodes env n (or l r) q h =
      let ((a, n1), p, q1) = bind-admitted (guard_label schemas env n l) _ q in
      let ((b, n2), k, q2) = bind-admitted (guard_label schemas env n1 r) _ q1 in
      let x = guard-nodes env n l p (omega (arith, h)) in
      let y = guard-nodes env n1 r k (omega (arith, x, h)) in
      ap (λ (x : Label × ℕ). x.1) (sym (admitted-injective q2)) ∙ y ∙ omega (arith, x)
  guard-nodes env n (Guard.not g) q h = guard-nodes env n g q h

  mutual
    unfolding walk_list walk_stmt walk_effect nodes

    stmt-nodes :
        (s : Stmt V) (w : Walk) {w' : Walk} (pc : Label) (m d : ℕ)
        → walk_stmt schemas w pc m d s ≡ admitted w'
        → w.out.node_count + nodes_stmt s ≤ u64_max
        → w'.out.node_count ≡ w.out.node_count + nodes_stmt s
    stmt-nodes (let_ x t) w pc m d e h =
        let ((l, n), p, e1) = bind-admitted (expr_label schemas w.env w.out.node_count t) _ e in
        ap (λ (w : Walk). w.out.node_count) (sym (admitted-injective e1))
        ∙ expr-nodes w.env w.out.node_count t p h
    stmt-nodes (effect verb args) w pc m d e h =
        let (external, _, e1) =
          or_refuse-admitted (get string_discrete verb schemas.external_effects) _ _ e in
        let ((eff, n), p, e2) =
          bind-admitted (args_label schemas w.env pc w.out.node_count args) _ e1 in
        let (_, e3) = demand-admitted (sink_allows external eff) (sink_denied verb eff) _ e2 in
        ap (λ (w : Walk). w.out.node_count) (sym (admitted-injective e3))
        ∙ args-nodes w.env pc w.out.node_count args p h
    stmt-nodes (if_ g t f) w pc m d e h =
        let ((gl, n), p, e1) = bind-admitted (guard_label schemas w.env w.out.node_count g) _ e in
        let (_, e2) = demand-admitted (leb (suc d) max_depth) (too_deep (suc d)) _ e1 in
        let (w1, q, e3) =
          bind-admitted (walk_list schemas (counted_nodes n w) (join pc gl) m (suc d) t) _ e2 in
        let x = guard-nodes w.env w.out.node_count g p (omega (arith, h)) in
        let y = list-nodes t (counted_nodes n w) (join pc gl) m (suc d) q (omega (arith, x, h)) in
        list-nodes f w1 (join pc gl) m (suc d) e3 (omega (arith, x, y, h)) ∙ omega (arith, x, y)
    stmt-nodes (foreach x list bound mode body) w pc m d e h =
        let ((ll, n), p, e1) = bind-admitted (expr_label schemas w.env w.out.node_count list) _ e in
        let (_, e2) = demand-admitted (leb (suc d) max_depth) (too_deep (suc d)) _ e1 in
        let y = expr-nodes w.env w.out.node_count list p (omega (arith, h)) in
        list-nodes body (bind_var x ll n w) (join pc ll) (saturating (m * bound)) (suc d) e2
          (omega (arith, y, h))
        ∙ omega (arith, y)

    pub list-nodes :
        (ss : Stmts V) (w : Walk) {w' : Walk} (pc : Label) (m d : ℕ)
        → walk_list schemas w pc m d ss ≡ admitted w'
        → w.out.node_count + nodes ss ≤ u64_max
        → w'.out.node_count ≡ w.out.node_count + nodes ss
    list-nodes end w pc m d e h =
        ap (λ (w : Walk). w.out.node_count) (sym (admitted-injective e)) ∙ omega arith
    list-nodes (s ⨾ ss) w pc m d e h =
        let (w1, c, e1) = bind-admitted (charge m w) _ e in
        let (w2, p, e2) = bind-admitted (walk_stmt schemas w1 pc m d s) _ e1 in
        let x = charge-nodes m w (nodes_stmt s + nodes ss) c h in
        let y = stmt-nodes s w1 pc m d p (omega (arith, x, h)) in
        list-nodes ss w2 pc m d e2 (omega (arith, x, y, h)) ∙ omega (arith, x, y)
