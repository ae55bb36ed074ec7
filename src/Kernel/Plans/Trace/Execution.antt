-- ===== src/Kernel/Plans/Trace/Execution.antt =====
-- The traces of statements: the interpreter runs a plan along the runs that the admission counts.
use portos.Base.{
  ℕ, zero, suc, ◌≤◌, ◌≡◌, refl, sym, subst, List, [], ◌∷◌, ◌++◌, append-nil, String, length, arith,
}
use portos.Proto.Label.{Label, join, leq-join_left, leq_refl}
use portos.Proto.Plan.{Mode, Expr, Guard, Stmt, let_, effect, if_, foreach, Stmts, end, ◌⨾◌}
use portos.Kernel.Plancheck.{VerbSchemas}
use portos.Kernel.Plancheck.Runs.{
  RunsStmt, lets, effects, takes_then, takes_else, loops, Runs, halts, goes_on, Rounds, leaves,
  again,
}
use portos.Kernel.Plans.{Values, PlanRuntime}
use portos.Kernel.Plans.Eval.{Exec, M, eval, eval_guard}
use portos.Kernel.Plans.Ends.{
  Ends, finishes, waits, continue-Ends, if-Ends, eval-Gives, eval_guard-Gives,
}
use portos.Kernel.Plans.Store.{Run}
use portos.Kernel.Plans.Effects.{bind_var, push_mode, pop_mode, popping, array_items}
use portos.Kernel.Plans.Interpreter.{
  count_stmts, each, evaluate, evaluate_guard, exec_stmt, exec_stmts,
}
use portos.Kernel.Plans.Trace.{
  Extends, Goes, Traced, then-Traced, continue-Traced, weaken-Traced, weaken-Extends,
}
use portos.Kernel.Plans.Trace.Steps.{Silent, quiet, quietly, on_world-Traced, take_items-Traced}
use portos.Kernel.Plans.Trace.Effects.{exec_effect-Traced}

module _ {V : Type 0} where
  Rounds-mono :
      {b : Stmts V} {n : ℕ} {tr : List String} (m : ℕ) → Rounds b n tr → n ≤ m → Rounds b m tr
  Rounds-mono m leaves h = leaves
  Rounds-mono zero (again r q) h = absurd (omega arith)
  Rounds-mono (suc m) (again r q) h = again r (Rounds-mono m q (omega arith))

  stmt_alone : (st : Stmt V) (ss : Stmts V) (tr : List String) → RunsStmt st tr → Runs (st ⨾ ss) tr
  stmt_alone st ss tr r = subst (Runs (st ⨾ ss)) (append-nil tr) (goes_on r halts)

  one_round : (b : Stmts V) (n : ℕ) (tr : List String) → Runs b tr → Rounds b (suc n) tr
  one_round b n tr r = subst (Rounds b (suc n)) (append-nil tr) (again r leaves)

  loop_within :
      (x : String) (e : Expr V) (bound n : ℕ) (m : Mode) (b : Stmts V) (tr us : List String)
      → (tr ≡ []) × (n ≤ bound)
      → Rounds b n us
      → RunsStmt (foreach x e bound m b) (tr ++ us)
  loop_within x e bound n m b tr us (p, h) r =
      subst (λ t. RunsStmt (foreach x e bound m b) (t ++ us)) (sym p)
        (loops (Rounds-mono bound r h))

  lets_alone : (x : String) (e : Expr V) (tr : List String) → Silent tr → RunsStmt (let_ x e) tr
  lets_alone x e tr p = subst (RunsStmt (let_ x e)) (sym p) lets

  if_alone : (g : Guard V) (t e : Stmts V) (tr : List String) → Silent tr → RunsStmt (if_ g t e) tr
  if_alone g t e tr p = subst (RunsStmt (if_ g t e)) (sym p) (takes_then halts)

  loop_alone :
      (x : String) (e : Expr V) (n : ℕ) (m : Mode) (b : Stmts V) (tr : List String)
      → Silent tr
      → RunsStmt (foreach x e n m b) tr
  loop_alone x e n m b tr p = subst (RunsStmt (foreach x e n m b)) (sym p) (loops leaves)

module _ {V W : Type 0} (values : Values V) (runtime : PlanRuntime V W) (schemas : VerbSchemas)
    (fiber : String) where
  -- The mode of a loop does not show in its traces.
  popping-Traced :
      {R R' : List String → Type 0} {pc : Label} {s : Run V W} {r : Exec (Run V W) (Unit {0})}
      → Traced runtime schemas (λ _. R) R' pc s r
      → Traced runtime schemas (λ _. R) R' pc s (popping r)
  popping-Traced {R} {R'} {pc} {s} (finishes {s = t} g) =
      finishes (record { extends = popped R t g.extends; resumes = g.resumes })
    where
      popped :
          (X : List String → Type 0) (t : Run V W)
          → Extends runtime schemas X pc s t
          → Extends runtime schemas X pc s (pop_mode t)
      popped X t x = record {
        told = x.told;
        signals_taken = x.signals_taken;
        tells = x.tells;
        takes = x.takes;
        justified = x.justified;
        traced = x.traced;
      }
  popping-Traced (Ends.stops x) = Ends.stops (record {
    told = x.told;
    signals_taken = x.signals_taken;
    tells = x.tells;
    takes = x.takes;
    justified = x.justified;
    traced = x.traced;
  })
  popping-Traced (waits g) = waits g

  each-Traced :
      (x : String) (label pc : Label) (b : Stmts V) (body : M (Run V W) (Unit {0})) (items : List V)
      (s : Run V W)
      → ((t : Run V W) → Traced runtime schemas (λ _. Runs b) (Runs b) pc t (body t))
      → Traced runtime schemas
          (λ _. Rounds b (length items))
          (Rounds b (length items))
          pc
          s
          (each x label body items s)
  unfolding each
  each-Traced x label pc b body [] s h = finishes (quiet runtime schemas pc s s refl refl leaves)
  each-Traced x label pc b body (item ∷ items) s h =
      continue-Traced runtime schemas _
        (quietly runtime schemas pc
          (quiet runtime schemas pc s (bind_var x (item, label) s) refl refl refl)
          (h (bind_var x (item, label) s)))
        (one_round b (length items))
        (λ _ t g.
          then-Traced runtime schemas (λ _ tr us. again) (λ tr us. again) g
            (each-Traced x label pc b body items t h))

  -- An evaluation is silent, and is not suspended.
  abbrev Evaluated : {A : Type 0} → Label → Run V W → Exec (Run V W) A → Type 0
  Evaluated pc s =
      Ends (λ _ t. Unit {0} × Goes runtime schemas Silent pc s t)
        (λ _ t. Extends runtime schemas Silent pc s t) (λ _. ⊥)

  evaluate-Traced :
      (pc : Label) (e : Expr V) (s : Run V W)
      → Evaluated pc s (evaluate values runtime schemas fiber e s)
  unfolding evaluate
  evaluate-Traced pc e s =
      on_world-Traced runtime schemas pc (eval values runtime schemas fiber s.env e) s
        (eval-Gives values runtime schemas fiber s.env e s.world)

  evaluate_guard-Traced :
      (pc : Label) (g : Guard V) (s : Run V W)
      → Evaluated pc s (evaluate_guard values runtime schemas fiber g s)
  unfolding evaluate_guard
  evaluate_guard-Traced pc g s =
      on_world-Traced runtime schemas pc (eval_guard values runtime schemas fiber s.env g) s
        (eval_guard-Gives values runtime schemas fiber s.env g s.world)

  mutual
    unfolding exec_stmt

    pub exec_stmt-Traced :
        (pc : Label) (remaining : ℕ) (st : Stmt V) (s : Run V W)
        → Traced runtime schemas
            (λ _. RunsStmt st)
            (RunsStmt st)
            pc
            s
            (exec_stmt values runtime schemas fiber pc remaining st s)
    exec_stmt-Traced pc remaining (let_ x e) s =
        continue-Ends _ (evaluate-Traced pc e s)
          (λ vl t (_, g).
            quietly runtime schemas pc g
              (finishes (quiet runtime schemas pc t (bind_var x vl t) refl refl lets)))
          (λ _ _ k. weaken-Extends runtime schemas (leq_refl pc) (lets_alone x e) k)
          (λ _ h. absurd h)
    exec_stmt-Traced pc remaining (effect verb args) s =
        weaken-Traced runtime schemas (leq_refl pc)
          (λ _ tr p. subst (RunsStmt (effect verb args)) (sym p) effects)
          (λ tr p. subst (RunsStmt (effect verb args)) (sym p) RunsStmt.stops)
          (exec_effect-Traced values runtime schemas fiber pc verb args remaining s)
    exec_stmt-Traced pc remaining (if_ g t e) s =
        continue-Ends _ (evaluate_guard-Traced pc g s)
          (λ bl s1 (_, q).
            let inner = join pc bl.1 in
            let above = leq-join_left pc bl.1 in
            quietly runtime schemas pc q (
              if-Ends bl.0 (exec_stmts values runtime schemas fiber inner t s1)
                (exec_stmts values runtime schemas fiber inner e s1)
                (λ _.
                  weaken-Traced runtime schemas above (λ _ tr. takes_then) (λ tr. takes_then)
                    (exec_stmts-Traced inner t s1))
                (λ _.
                  weaken-Traced runtime schemas above (λ _ tr. takes_else) (λ tr. takes_else)
                    (exec_stmts-Traced inner e s1))))
          (λ _ _ k. weaken-Extends runtime schemas (leq_refl pc) (if_alone g t e) k)
          (λ _ h. absurd h)
    exec_stmt-Traced pc remaining (foreach x list bound mode body) s =
        let silent = loop_alone x list bound mode body in
        continue-Ends _ (evaluate-Traced pc list s)
          (λ vl s1 (_, q).
            let inner = join pc vl.1 in
            quietly runtime schemas pc q (
              continue-Traced runtime schemas _
                (take_items-Traced runtime schemas pc fiber mode bound
                  (array_items (values.as_array vl.0)) s1)
                silent
                (λ items s2 g.
                  then-Traced runtime schemas
                    (λ _ tr us. loop_within x list bound (length items) mode body tr us)
                    (λ tr us. loop_within x list bound (length items) mode body tr us) g
                    (quietly runtime schemas pc
                      (quiet runtime schemas pc s2 (push_mode mode s2) refl refl refl)
                      (popping-Traced (
                        each-Traced x vl.1 pc body
                          (exec_stmts values runtime schemas fiber inner body) items
                          (push_mode mode s2)
                          (λ t.
                            weaken-Traced runtime schemas (leq-join_left pc vl.1) (λ _ tr r. r)
                              (λ tr r. r) (exec_stmts-Traced inner body t))))))))
          (λ _ _ k. weaken-Extends runtime schemas (leq_refl pc) silent k) (λ _ h. absurd h)

    pub exec_stmts-Traced :
        (pc : Label) (ss : Stmts V) (s : Run V W)
        → Traced runtime schemas
            (λ _. Runs ss)
            (Runs ss)
            pc
            s
            (exec_stmts values runtime schemas fiber pc ss s)
    exec_stmts-Traced pc end s = finishes (quiet runtime schemas pc s s refl refl halts)
    exec_stmts-Traced pc (st ⨾ ss) s =
        continue-Traced runtime schemas _ (exec_stmt-Traced pc (suc (count_stmts ss)) st s)
          (stmt_alone st ss)
          (λ _ t g.
            then-Traced runtime schemas (λ _ tr us. goes_on) (λ tr us. goes_on) g
              (exec_stmts-Traced pc ss t))
