-- ===== src/Kernel/Plancheck/Limits.antt =====
-- The limits of the admission (crates/portos-kernel/src/plancheck.rs), against counts of nodes and of
-- steps that know nothing of the walk.
use portos.Base.{
  ℕ, suc, ◌+◌, ◌*◌, ◌≤◌, ◌≡◌, sym, ◌∙◌, ap, subst, String, string_discrete, leb, arith,
}
use portos.Base.Maps.{get}
use portos.Proto.Label.{Label, join, public_trusted}
use portos.Proto.Plan.{Stmt, let_, effect, if_, foreach, Stmts, end, ◌⨾◌, Plan}
use portos.Kernel.Plancheck.{
  u64_max, s_max, max_nodes, max_depth, too_deep, sink_allows, sink_denied, saturating, admitted,
  VerbSchemas, Admission, Walk, start_walk, budget_of, counted_nodes, bind_var, charge, walk_effect,
  walk_stmt, walk_list, admit, bind-admitted, admitted-injective, demand-admitted,
  or_refuse-admitted, expr_label, args_label, guard_label,
}
use portos.Kernel.Plancheck.Counted.{charge-admitted, saturating_small, list-Adds, occurrences}
use portos.Kernel.Plancheck.Runs.{admit-walk, admit-budget, start_HasSlack}
use portos.Kernel.Plancheck.Nodes.{nodes, list-nodes}

module _ {V : Type 0} where
  -- The steps in the worst case: both arms of a branch, and every round of a loop.
  unfoldable mutual
    pub steps_inside : Stmt V → ℕ
    steps_inside (let_ x e) = 0
    steps_inside (effect verb args) = 0
    steps_inside (if_ g t e) = steps t + steps e
    steps_inside (foreach x l bound mode body) = bound * steps body

    pub steps : Stmts V → ℕ
    steps end = 0
    steps (s ⨾ ss) = 1 + (steps_inside s + steps ss)

module _ {V : Type 0} (schemas : VerbSchemas) where
  -- A body that was walked for a saturated number of rounds was walked for that number of rounds.
  exact_steps :
      (w : Walk) {w' : Walk} (pc : Label) (k d : ℕ) (body : Stmts V)
      → walk_list schemas w pc (saturating k) d body ≡ admitted w'
      → saturating k * steps body ≡ k * steps body
  unfolding walk_list steps
  exact_steps w pc k d end e = omega arith
  exact_steps w pc k d (s ⨾ ss) e =
      let (w1, c, _) = bind-admitted (charge (saturating k) w) _ e in
      let (_, _, _, _, t) = charge-admitted (saturating k) w c in
      ap (λ n. n * (1 + (steps_inside s + steps ss))) (saturating_small k (omega (arith, t)))

  mutual
    unfolding walk_list walk_stmt walk_effect steps

    stmt-steps :
        (s : Stmt V) (w : Walk) {w' : Walk} (pc : Label) (m d : ℕ)
        → walk_stmt schemas w pc m d s ≡ admitted w'
        → w'.out.worst_case_steps ≡ w.out.worst_case_steps + m * steps_inside s
    stmt-steps (let_ x t) w pc m d e =
        let ((l, n), p, e1) = bind-admitted (expr_label schemas w.env w.out.node_count t) _ e in
        ap (λ (w : Walk). w.out.worst_case_steps) (sym (admitted-injective e1)) ∙ omega arith
    stmt-steps (effect verb args) w pc m d e =
        let (external, _, e1) =
          or_refuse-admitted (get string_discrete verb schemas.external_effects) _ _ e in
        let ((eff, n), p, e2) =
          bind-admitted (args_label schemas w.env pc w.out.node_count args) _ e1 in
        let (_, e3) = demand-admitted (sink_allows external eff) (sink_denied verb eff) _ e2 in
        ap (λ (w : Walk). w.out.worst_case_steps) (sym (admitted-injective e3)) ∙ omega arith
    stmt-steps (if_ g t f) w pc m d e =
        let ((gl, n), p, e1) = bind-admitted (guard_label schemas w.env w.out.node_count g) _ e in
        let (_, e2) = demand-admitted (leb (suc d) max_depth) (too_deep (suc d)) _ e1 in
        let (w1, q, e3) =
          bind-admitted (walk_list schemas (counted_nodes n w) (join pc gl) m (suc d) t) _ e2 in
        let y = list-steps t (counted_nodes n w) (join pc gl) m (suc d) q in
        list-steps f w1 (join pc gl) m (suc d) e3 ∙ ap (λ k. k + m * steps f) y ∙ omega arith
    stmt-steps (foreach x list bound mode body) w pc m d e =
        let ((ll, n), p, e1) = bind-admitted (expr_label schemas w.env w.out.node_count list) _ e in
        let (_, e2) = demand-admitted (leb (suc d) max_depth) (too_deep (suc d)) _ e1 in
        list-steps body (bind_var x ll n w) (join pc ll) (saturating (m * bound)) (suc d) e2
        ∙ ap (λ k. w.out.worst_case_steps + k)
            (exact_steps (bind_var x ll n w) (join pc ll) (m * bound) (suc d) body e2 ∙ omega arith)

    list-steps :
        (ss : Stmts V) (w : Walk) {w' : Walk} (pc : Label) (m d : ℕ)
        → walk_list schemas w pc m d ss ≡ admitted w'
        → w'.out.worst_case_steps ≡ w.out.worst_case_steps + m * steps ss
    list-steps end w pc m d e =
        ap (λ (w : Walk). w.out.worst_case_steps) (sym (admitted-injective e)) ∙ omega arith
    list-steps (s ⨾ ss) w pc m d e =
        let (w1, c, e1) = bind-admitted (charge m w) _ e in
        let (w2, p, e2) = bind-admitted (walk_stmt schemas w1 pc m d s) _ e1 in
        let (_, _, _, t, _) = charge-admitted m w c in
        list-steps ss w2 pc m d e2
        ∙ ap (λ k. k + m * steps ss) (stmt-steps s w1 pc m d p ∙ ap (λ k. k + m * steps_inside s) t)
        ∙ omega arith

  -- A plan that is admitted, with fewer than 2^64 nodes, has at most `max_nodes` nodes and at most
  -- `s_max` steps in the worst case, which are what the admission counts, and can have no more effects
  -- of a verb than steps.
  pub admit-limits :
      (plan : Plan V) (adm : Admission) (v : String)
      → admit schemas plan ≡ admitted adm
      → nodes plan.stmts ≤ u64_max
      → (adm.node_count ≡ nodes plan.stmts)
        × (nodes plan.stmts ≤ max_nodes)
        × (adm.worst_case_steps ≡ steps plan.stmts)
        × (steps plan.stmts ≤ s_max)
        × (occurrences v plan.stmts ≤ steps plan.stmts)
  admit-limits plan adm v e small =
      let (w, p, r, n) = admit-walk schemas plan e in
      let (h, _) = list-Adds schemas plan.stmts start_walk public_trusted 1 1 start_HasSlack p in
      let counted : adm.node_count ≡ nodes plan.stmts =
        ap (λ (a : Admission). a.node_count) (sym r)
        ∙ list-nodes schemas plan.stmts start_walk public_trusted 1 1 p (omega (arith, small))
        ∙ omega arith in
      let walked : adm.worst_case_steps ≡ steps plan.stmts =
        ap (λ (a : Admission). a.worst_case_steps) (sym r)
        ∙ list-steps plan.stmts start_walk public_trusted 1 1 p
        ∙ omega arith in
      let ceiling = subst (λ (a : Admission). a.worst_case_steps ≤ s_max) r h.ceiling in
      let covers =
        subst (λ (a : Admission). budget_of v a.budget ≤ a.worst_case_steps) r
          (omega (arith, h.covers v)) in
      let exact = admit-budget schemas plan adm v e in
      (
        counted,
        omega (arith, counted, n),
        walked,
        omega (arith, walked, ceiling),
        omega (arith, walked, covers, exact),
      )
