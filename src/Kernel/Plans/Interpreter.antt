-- ===== src/Kernel/Plans/Interpreter.antt =====
-- The interpreter of plans (crates/portos-kernel/src/plans/interpreter.rs), and how its thread ends.
use portos.Base.{ℕ, suc, Bool, List, [], ◌∷◌, String, if◌then◌else◌, ◌==◌}
use portos.Proto.Label.{Label, join, public_trusted}
use portos.Proto.Plan.{Expr, Guard, Stmt, let_, effect, if_, foreach, Stmts, end, ◌⨾◌, Plan}
use portos.Kernel.Plancheck.{VerbSchemas}
use portos.Kernel.Plans.{completed, RunState, BufferState, held, Values, PlanRuntime}
use portos.Kernel.Plans.Control.{ConsentRecord}
use portos.Kernel.Plans.Eval.{Exec, M, ◌>>=◌, ◌>>◌, give, eval, eval_guard}
use portos.Kernel.Plans.Store.{
  Event, Run, in_world, emit, set_state, set_buffer_state, finish_run, teardown,
}
use portos.Kernel.Plans.Effects.{
  modify, on_world, bind_var, push_mode, popping, array_items, take_items, exec_effect,
}

abbrev pub count_stmts : {V : Type 0} → Stmts V → ℕ
count_stmts end = 0
count_stmts (s ⨾ ss) = suc (count_stmts ss)

-- The rounds of a loop.
unfoldable pub each :
    {V W : Type 0} → String → Label → M (Run V W) (Unit {0}) → List V → M (Run V W) (Unit {0})
each x label body [] = give tt
each x label body (item ∷ items) = do
  modify (bind_var x (item, label))
  body
  each x label body items

module _ {V W : Type 0} (values : Values V) (runtime : PlanRuntime V W) (schemas : VerbSchemas)
    (fiber : String) where
  unfoldable pub evaluate : Expr V → M (Run V W) (V × Label)
  unfolding on_world
  evaluate e s = on_world (eval values runtime schemas fiber s.env e) s

  unfoldable pub evaluate_guard : Guard V → M (Run V W) (Bool × Label)
  unfolding on_world
  evaluate_guard g s = on_world (eval_guard values runtime schemas fiber s.env g) s

  unfoldable mutual
    pub exec_stmt : Label → ℕ → Stmt V → M (Run V W) (Unit {0})
    exec_stmt pc remaining (let_ x e) = do vl ← evaluate e; modify (bind_var x vl)
    exec_stmt pc remaining (effect verb args) =
        exec_effect values runtime schemas fiber verb args pc remaining
    exec_stmt pc remaining (if_ g t e) = do
      (b, gl) ← evaluate_guard g
      λ s.
          let then_arm = exec_stmts (join pc gl) t s in
          let else_arm = exec_stmts (join pc gl) e s in if b then then_arm else else_arm
    exec_stmt pc remaining (foreach x list bound mode body) = do
      (lv, ll) ← evaluate list
      items ← take_items runtime fiber bound mode (array_items (values.as_array lv))
      modify (push_mode mode)
      λ s. popping (each x ll (exec_stmts (join pc ll) body) items s)

    pub exec_stmts : Label → Stmts V → M (Run V W) (Unit {0})
    exec_stmts pc end = give tt
    exec_stmts pc (s ⨾ ss) = do exec_stmt pc (suc (count_stmts ss)) s; exec_stmts pc ss

module _ {V W : Type 0} (runtime : PlanRuntime V W) where
  -- How the thread of a run ends it (`exec_thread`): by a commit, by waiting for the approval of what
  -- it withheld, or by dropping that and rolling the segment back.
  unfoldable pub settle : String → String → Exec (Run V W) (Unit {0}) → Run V W
  settle fiber segment (Exec.done _ s) =
      if s.withheld_count == 0
      then finish_run runtime completed (in_world (runtime.transfer_all segment fiber s.world).1 s)
      else emit (Event.awaiting_approval s.withheld_count)
          (set_state runtime RunState.awaiting_approval s)
  settle fiber segment (Exec.stopped o s) =
      finish_run runtime o
        (teardown runtime segment (set_buffer_state runtime held BufferState.aborted s))
  settle fiber segment (Exec.parked s) = s

  unfoldable pub start_interpreter : ConsentRecord → Run V W → Run V W
  start_interpreter c s = record s {
    env = [];
    modes = [];
    withheld_count = 0;
    active_nonce = c.nonce;
  }

  unfoldable pub exec_thread :
      Values V → String → String → Plan V → ConsentRecord → Run V W → Run V W
  unfolding settle
  exec_thread values fiber segment plan c s = settle fiber segment (
      exec_stmts values runtime (runtime.schemas s.world) fiber public_trusted plan.stmts
        (start_interpreter c s))
