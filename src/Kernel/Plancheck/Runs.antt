-- ===== src/Kernel/Plancheck/Runs.antt =====
-- Runs of a plan, as the verbs that take effect in turn, against the budget that its admission
-- derives. A run that is not resumed by a new consent goes through at most `bound` rounds of a loop
-- (`exec_stmts`, crates/portos-kernel/src/plans/interpreter.rs), and may stop at any effect.
use portos.Base.{
  ℕ, suc, ◌+◌, ◌*◌, ◌≤◌, ◌≡◌, sym, ◌∙◌, ap, subst, List, [], ◌∷◌, ◌++◌, String, string_discrete,
  leb, leb→le, if◌then◌else◌, arith, test,
}
use portos.Base.Maps.{get}
use portos.Proto.Label.{public_trusted}
use portos.Proto.Plan.{Expr, Exprs, Guard, Stmt, let_, effect, if_, foreach, Stmts, ◌⨾◌, Plan, Mode}
use portos.Kernel.Plancheck.{
  max_nodes, max_depth, admitted, VerbSchemas, Admission, Walk, start_walk, budget_of, walk_list,
  admit, bind-admitted, demand-admitted, admitted-injective, too_deep,
}
use portos.Kernel.Plancheck.Counted.{occurrences, occurrences_stmt, list-Adds, HasSlack}

-- How often a verb stands in a trace.
unfoldable pub times : String → List String → ℕ
times v [] = 0
times v (x ∷ xs) = (if test (string_discrete v x) then 1 else 0) + times v xs

module _ {V : Type 0} where
  -- The traces of a statement, of a list of statements, and of up to `n` rounds of a body.
  mutual
    pub data RunsStmt : Stmt V → List String → Type 0 where
      lets : {x : String} {e : Expr V} → RunsStmt (let_ x e) []
      effects : {verb : String} {args : Exprs V} → RunsStmt (effect verb args) (verb ∷ [])
      stops : {verb : String} {args : Exprs V} → RunsStmt (effect verb args) []
      takes_then :
          {g : Guard V} {t e : Stmts V} {tr : List String} → Runs t tr → RunsStmt (if_ g t e) tr
      takes_else :
          {g : Guard V} {t e : Stmts V} {tr : List String} → Runs e tr → RunsStmt (if_ g t e) tr
      loops :
          {x : String} {e : Expr V} {n : ℕ} {m : Mode} {b : Stmts V} {tr : List String}
          → Rounds b n tr
          → RunsStmt (foreach x e n m b) tr

    pub data Runs : Stmts V → List String → Type 0 where
      halts : {ss : Stmts V} → Runs ss []
      goes_on :
          {s : Stmt V} {ss : Stmts V} {tr us : List String}
          → RunsStmt s tr
          → Runs ss us
          → Runs (s ⨾ ss) (tr ++ us)

    pub data Rounds : Stmts V → ℕ → List String → Type 0 where
      leaves : {b : Stmts V} {n : ℕ} → Rounds b n []
      again :
          {b : Stmts V} {n : ℕ} {tr us : List String}
          → Runs b tr
          → Rounds b n us
          → Rounds b (suc n) (tr ++ us)

times-append : (v : String) (xs ys : List String) → times v (xs ++ ys) ≡ times v xs + times v ys
unfolding times
times-append v [] ys = omega arith
times-append v (x ∷ xs) ys = omega (arith, times-append v xs ys)

module _ {V : Type 0} where
  mutual
    unfolding occurrences times

    RunsStmt-times :
        (v : String) {s : Stmt V} {tr : List String}
        → RunsStmt s tr
        → times v tr ≤ occurrences_stmt v s
    RunsStmt-times v lets = omega arith
    RunsStmt-times v effects = omega arith
    RunsStmt-times v stops = omega arith
    RunsStmt-times v (takes_then r) = omega (arith, Runs-times v r)
    RunsStmt-times v (takes_else r) = omega (arith, Runs-times v r)
    RunsStmt-times v (loops r) = Rounds-times v r

    Runs-times :
        (v : String) {ss : Stmts V} {tr : List String} → Runs ss tr → times v tr ≤ occurrences v ss
    Runs-times v halts = omega arith
    Runs-times v (goes_on {tr = tr} {us = us} r q) =
        omega (arith, times-append v tr us, RunsStmt-times v r, Runs-times v q)

    Rounds-times :
        (v : String) {b : Stmts V} {n : ℕ} {tr : List String}
        → Rounds b n tr
        → times v tr ≤ n * occurrences v b
    Rounds-times v leaves = omega arith
    Rounds-times v (again {tr = tr} {us = us} r q) =
        omega (arith, times-append v tr us, Runs-times v r, Rounds-times v q)

pub start_HasSlack : HasSlack 0 start_walk
unfolding get
start_HasSlack = record { covers = λ v. omega arith; ceiling = omega arith }

module _ {V : Type 0} (schemas : VerbSchemas) where
  pub admit-walk :
      (plan : Plan V) {adm : Admission}
      → admit schemas plan ≡ admitted adm
      → (w : Walk) × (walk_list schemas start_walk public_trusted 1 1 plan.stmts ≡ admitted w)
        × (w.out ≡ adm)
        × (adm.node_count ≤ max_nodes)
  unfolding admit
  admit-walk plan {adm} e =
      let (_, e1) = demand-admitted (leb 1 max_depth) (too_deep 1) _ e in
      let (w, p, e2) =
        bind-admitted (walk_list schemas start_walk public_trusted 1 1 plan.stmts) _ e1 in
      let (n, e3) = demand-admitted (leb w.out.node_count max_nodes) _ _ e2 in
      let r = admitted-injective e3 in
      (
        w,
        p,
        r,
        subst (λ (a : Admission). a.node_count ≤ max_nodes) r (leb→le w.out.node_count max_nodes n),
      )

  -- The budget of an admitted plan has for each verb the sum of its occurrences, each counted once
  -- for every round of the loops around it, exactly: no addition on `u64` wraps or saturates.
  pub admit-budget :
      (plan : Plan V) (adm : Admission) (v : String)
      → admit schemas plan ≡ admitted adm
      → budget_of v adm.budget ≡ occurrences v plan.stmts
  unfolding get
  admit-budget plan adm v e =
      let (w, p, r, _) = admit-walk plan e in
      let (_, a) = list-Adds schemas plan.stmts start_walk public_trusted 1 1 start_HasSlack p in
      sym (ap (λ (a : Admission). budget_of v a.budget) r) ∙ a v ∙ omega arith

  -- A run of an admitted plan that no new consent resumes has no more effects of a verb than the
  -- budget that was shown for consent.
  pub run-within_budget :
      (plan : Plan V) (adm : Admission) (tr : List String) (v : String)
      → admit schemas plan ≡ admitted adm
      → Runs plan.stmts tr
      → times v tr ≤ budget_of v adm.budget
  run-within_budget plan adm tr v e r = rw (admit-budget plan adm v e) (Runs-times v r)
