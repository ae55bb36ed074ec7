-- ===== src/Kernel/Plancheck/Counted.antt =====
-- What the admission counts, against a count that knows nothing of the walk: an effect is charged
-- once for every round of the loops around it.
use portos.Base.{
  ℕ, suc, ◌+◌, ◌*◌, ◌≤◌, ◌≡◌, sym, ◌∙◌, ap, subst, String, string_discrete, leb, leb→le,
  if◌then◌else◌, arith, test,
}
use portos.Base.Maps.{get, get-put_self, get-put_ne}
use portos.Proto.Label.{Label, join}
use portos.Proto.Plan.{Exprs, Stmt, let_, effect, if_, foreach, Stmts, end, ◌⨾◌}
use portos.Kernel.Plancheck.{
  s_max, saturating, wrapping, admitted, VerbSchemas, Walk, budget_of, counted_nodes, bind_var,
  charge, note_effect, walk_effect, walk_stmt, walk_list, bind-admitted, admitted-injective,
  demand-admitted, or_refuse-admitted, expr_label, args_label, guard_label,
}

module _ {V : Type 0} where
  -- How often a verb can take effect, and how many statements can start.
  unfoldable mutual
    pub occurrences_stmt : String → Stmt V → ℕ
    occurrences_stmt v (let_ x e) = 0
    occurrences_stmt v (effect verb args) = if test (string_discrete v verb) then 1 else 0
    occurrences_stmt v (if_ g t e) = occurrences v t + occurrences v e
    occurrences_stmt v (foreach x l bound mode body) = bound * occurrences v body

    pub occurrences : String → Stmts V → ℕ
    occurrences v end = 0
    occurrences v (s ⨾ ss) = occurrences_stmt v s + occurrences v ss

wrapping_small : (n : ℕ) → n ≤ s_max → wrapping n ≡ n
unfolding wrapping
wrapping_small n h = omega arith

pub saturating_small : (n : ℕ) → saturating n ≤ s_max → saturating n ≡ n
saturating_small n h = ground arith

-- Each verb has at most the steps so far in the budget, less what the statement at hand may add.
pub record HasSlack (slack : ℕ) (w : Walk) : Type 0 where
  pub covers : (v : String) → budget_of v w.out.budget + slack ≤ w.out.worst_case_steps
  pub ceiling : w.out.worst_case_steps ≤ s_max

pub charge-admitted :
    (m : ℕ) (w : Walk) {w' : Walk}
    → charge m w ≡ admitted w'
    → (w'.env ≡ w.env)
      × (w'.out.budget ≡ w.out.budget)
      × (w'.out.effects ≡ w.out.effects)
      × (w'.out.worst_case_steps ≡ w.out.worst_case_steps + m)
      × (w.out.worst_case_steps + m ≤ s_max)
unfolding charge
charge-admitted m w {w'} e =
    let steps = saturating (w.out.worst_case_steps + m) in
    let (t, q) = demand-admitted (leb steps s_max) _ _ e in
    let small = leb→le steps s_max t in
    let same = saturating_small (w.out.worst_case_steps + m) small in
    let r = sym (admitted-injective q) in
    (
      ap (λ (w : Walk). w.env) r,
      ap (λ (w : Walk). w.out.budget) r,
      ap (λ (w : Walk). w.out.effects) r,
      ap (λ (w : Walk). w.out.worst_case_steps) r ∙ same,
      omega (arith, small, same),
    )

-- An effect is added exactly: the addition on `u64` does not wrap.
note_effect-budget :
    (v verb : String) (eff : Label) (m n : ℕ) (w : Walk)
    → HasSlack m w
    → budget_of v (note_effect verb eff m n w).out.budget
      ≡ budget_of v w.out.budget + m * (if test (string_discrete v verb) then 1 else 0)
note_effect-budget v verb eff m n w s = by_verb (string_discrete v verb)
  where
    by_verb :
        (d : Dec (v ≡ verb))
        → budget_of v (note_effect verb eff m n w).out.budget
          ≡ budget_of v w.out.budget + m * (if test d then 1 else 0)
    by_verb (no x) =
        rw
          (get-put_ne string_discrete v verb (wrapping (budget_of verb w.out.budget + m))
            w.out.budget x)
          (omega arith)
    by_verb (yes e) =
        rw
          (
            e,
            get-put_self string_discrete verb (wrapping (budget_of verb w.out.budget + m))
                w.out.budget,
            wrapping_small (budget_of verb w.out.budget + m)
                (omega (arith, s.covers verb, s.ceiling)),
          )
          (omega arith)

note_effect-HasSlack :
    (verb : String) (eff : Label) (m n : ℕ) (w : Walk)
    → HasSlack m w
    → HasSlack 0 (note_effect verb eff m n w)
note_effect-HasSlack verb eff m n w s = record {
  covers = λ v. by_verb v (string_discrete v verb) (note_effect-budget v verb eff m n w s);
  ceiling = s.ceiling;
}
  where
    by_verb :
        (v : String) (d : Dec (v ≡ verb))
        → budget_of v (note_effect verb eff m n w).out.budget
          ≡ budget_of v w.out.budget + m * (if test d then 1 else 0)
        → budget_of v (note_effect verb eff m n w).out.budget + 0 ≤ w.out.worst_case_steps
    by_verb v (yes x) e = omega (arith, e, s.covers v)
    by_verb v (no x) e = omega (arith, e, s.covers v)

charge-HasSlack :
    (m : ℕ) (w : Walk) {w' : Walk} → HasSlack 0 w → charge m w ≡ admitted w' → HasSlack m w'
charge-HasSlack m w s e =
    let (_, b, _, t, c) = charge-admitted m w e in
    record { covers = λ v. rw b (omega (arith, t, s.covers v)); ceiling = omega (arith, t, c) }

less_slack : (m : ℕ) (w : Walk) → HasSlack m w → HasSlack 0 w
less_slack m w s = record { covers = λ v. omega (arith, s.covers v); ceiling = s.ceiling }

-- What a walk of `k` possible effects of each verb does to the budget.
abbrev Adds : (String → ℕ) → Walk → Walk → Type 0
Adds k w w' = (v : String) → budget_of v w'.out.budget ≡ budget_of v w.out.budget + k v

module _ {V : Type 0} (schemas : VerbSchemas) where
  effect-Adds :
      (w : Walk) {w' : Walk} (pc : Label) (m : ℕ) (verb : String) (args : Exprs V)
      → HasSlack m w
      → walk_effect schemas w pc m verb args ≡ admitted w'
      → HasSlack 0 w' × Adds (λ v. m * (if test (string_discrete v verb) then 1 else 0)) w w'
  unfolding walk_effect
  effect-Adds w pc m verb args s e =
      let (external, _, e1) =
        or_refuse-admitted (get string_discrete verb schemas.external_effects) _ _ e in
      let ((eff, n), _, e2) =
        bind-admitted (args_label schemas w.env pc w.out.node_count args) _ e1 in
      let (_, e3) = demand-admitted _ _ _ e2 in
      let r = admitted-injective e3 in
      subst
        (λ w'.
          HasSlack 0 w' × Adds (λ v. m * (if test (string_discrete v verb) then 1 else 0)) w w')
        r (note_effect-HasSlack verb eff m n w s, λ v. note_effect-budget v verb eff m n w s)

  -- A body that was walked for a saturated number of rounds was walked for that number of rounds.
  exact_rounds :
      (w : Walk) {w' : Walk} (pc : Label) (k d : ℕ) (body : Stmts V) (v : String)
      → walk_list schemas w pc (saturating k) d body ≡ admitted w'
      → saturating k * occurrences v body ≡ k * occurrences v body
  unfolding walk_list occurrences
  exact_rounds w pc k d end v e = omega arith
  exact_rounds w pc k d (s ⨾ ss) v e =
      let (w1, c, _) = bind-admitted (charge (saturating k) w) _ e in
      let (_, _, _, _, t) = charge-admitted (saturating k) w c in
      ap (λ n. n * (occurrences_stmt v s + occurrences v ss))
        (saturating_small k (omega (arith, t)))

  mutual
    unfolding walk_list walk_stmt occurrences

    stmt-Adds :
        (s : Stmt V) (w : Walk) {w' : Walk} (pc : Label) (m d : ℕ)
        → HasSlack m w
        → walk_stmt schemas w pc m d s ≡ admitted w'
        → HasSlack 0 w' × Adds (λ v. m * occurrences_stmt v s) w w'
    stmt-Adds (let_ x t) w {w'} pc m d h e =
        let ((l, n), _, e1) = bind-admitted (expr_label schemas w.env w.out.node_count t) _ e in
        subst (λ w'. HasSlack 0 w' × Adds (λ v. m * 0) w w') (admitted-injective e1)
          (record { covers = (less_slack m w h).covers; ceiling = h.ceiling }, λ v. omega arith)
    stmt-Adds (effect verb args) w pc m d h e = effect-Adds w pc m verb args h e
    stmt-Adds (if_ g t f) w {w'} pc m d h e =
        let ((gl, n), _, e1) = bind-admitted (guard_label schemas w.env w.out.node_count g) _ e in
        let (_, e2) = demand-admitted _ _ _ e1 in
        let (w1, p, e3) =
          bind-admitted (walk_list schemas (counted_nodes n w) (join pc gl) m (suc d) t) _ e2 in
        let z = less_slack m w h in
        let (h1, a) =
          list-Adds t (counted_nodes n w) (join pc gl) m (suc d)
            (record { covers = z.covers; ceiling = z.ceiling }) p in
        let (h2, b) = list-Adds f w1 (join pc gl) m (suc d) h1 e3 in
        (h2, λ v. b v ∙ ap (λ k. k + m * occurrences v f) (a v) ∙ omega arith)
    stmt-Adds (foreach x list bound mode body) w {w'} pc m d h e =
        let ((ll, n), _, e1) = bind-admitted (expr_label schemas w.env w.out.node_count list) _ e in
        let (_, e2) = demand-admitted _ _ _ e1 in
        let z = less_slack m w h in
        let (h1, a) =
          list-Adds body (bind_var x ll n w) (join pc ll) (saturating (m * bound)) (suc d)
            (record { covers = z.covers; ceiling = z.ceiling }) e2 in
        (
          h1,
          λ v.
              a v
              ∙ ap (λ k. budget_of v w.out.budget + k)
                  (exact_rounds (bind_var x ll n w) (join pc ll) (m * bound) (suc d) body v e2
                    ∙ omega arith),
        )

    pub list-Adds :
        (ss : Stmts V) (w : Walk) {w' : Walk} (pc : Label) (m d : ℕ)
        → HasSlack 0 w
        → walk_list schemas w pc m d ss ≡ admitted w'
        → HasSlack 0 w' × Adds (λ v. m * occurrences v ss) w w'
    list-Adds end w pc m d h e =
        subst (λ w'. HasSlack 0 w' × Adds (λ v. m * 0) w w') (admitted-injective e)
          (h, λ v. omega arith)
    list-Adds (s ⨾ ss) w {w'} pc m d h e =
        let (w1, c, e1) = bind-admitted (charge m w) _ e in
        let (w2, p, e2) = bind-admitted (walk_stmt schemas w1 pc m d s) _ e1 in
        let (_, same, _, _, _) = charge-admitted m w c in
        let (h2, a) = stmt-Adds s w1 pc m d (charge-HasSlack m w h c) p in
        let (h3, b) = list-Adds ss w2 pc m d h2 e2 in
        (
          h3,
          λ v.
              b v
              ∙ ap (λ k. k + m * occurrences v ss)
                  (a v ∙ ap (λ c. budget_of v c + m * occurrences_stmt v s) same)
              ∙ omega arith,
        )
