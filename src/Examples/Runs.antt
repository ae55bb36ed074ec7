-- ===== src/Examples/Runs.antt =====
-- Runs of concrete plans. A value is a list of numbers, and the world counts the calls.
use portos.Base.{
  ℕ, ◌+◌, ◌≤◌, ◌≡◌, refl, true, false, none, some, List, [], ◌∷◌, ◌++◌, map, string_discrete, All,
  In, test, if◌then◌else◌,
}
use portos.Base.Maps.{get, put}
use portos.Base.Sets.{is_empty, is_subset, all_in, insert, union, union_right, contains}
use portos.Proto.Label.{Label, public_trusted, with_conf, with_integ, join}
use portos.Proto.Plan.{
  Exprs, observe, const, var, more, let_, effect, foreach, end, ◌⨾◌, Plan, Mode,
}
use portos.Kernel.Plancheck.{
  VerbSchemas, Admission, admit, admitted, walk_list, walk_stmt, walk_effect, expr_label,
  args_label, guard_label, charge, wrapping, budget_of,
}
use portos.Kernel.Plancheck.Runs.{times}
use portos.Kernel.Plans.{fail_stop, sink_denied, RunState, Values, PlanRuntime, answered}
use portos.Kernel.Plans.Control.{ConsentRecord, RunSignal, abort}
use portos.Kernel.Plans.Eval.{Exec, eval, eval_args, call_or_fail, answer_or_fail}
use portos.Kernel.Plans.Store.{
  Event, performed, withheld, awaiting_approval, Run, emit, set_state, push_buffer, log_emission,
}
use portos.Kernel.Plans.Effects.{
  effect_args, on_world, take_items, attempt, attempt_with, on_answer, performed_effect,
  withhold_effect, run_effect, exec_effect,
}
use portos.Kernel.Plans.Interpreter.{
  each, evaluate, exec_stmt, exec_stmts, settle, start_interpreter, exec_thread,
}
use portos.Kernel.Plans.Trace.{taken}
use portos.Kernel.Plans.Guarantees.{
  last, IsInternal, exec_thread-within_budget, exec_stmts-IsInternal,
}
use portos.Kernel.Plans.Settlement.{
  IsSettled, NothingHeld, exec_thread-settles, stopped_run-holds_nothing,
}

abbrev Numbers : Type 0
Numbers = List ℕ

abbrev join_all : List Numbers → Numbers
join_all [] = []
join_all (v ∷ vs) = v ++ join_all vs

abbrev toy_values : Values Numbers
toy_values = record {
  null = [];
  array = join_all;
  as_array = λ v. some (map (λ n. n ∷ []) v);
  is_null = λ _. false;
  is_object = λ _. false;
  as_str = λ _. none;
  compare_numbers = λ _ _. none;
  compute_args = λ _ vs. join_all vs;
  regex = λ _. none;
}

abbrev toy : VerbSchemas
toy = record {
  observe_labels =
      ("echo::list", with_integ "toy:echo") ∷ ("secret::read", with_conf "secret:demo") ∷ [];
  external_effects = ("echo::emit", false) ∷ ("external::send", true) ∷ [];
}

-- The host lists two numbers, and withholds what goes outside.
abbrev toy_runtime : PlanRuntime Numbers ℕ
toy_runtime = record {
  schemas = λ _. toy;
  effect_policy =
      λ verb _ _. record { target = "t"; withhold = test (string_discrete verb "external::send") };
  invoke = λ _ verb args n.
      (answered (if test (string_discrete verb "echo::list") then 1 ∷ 2 ∷ [] else args), n + 1);
  teardown_segment = λ _ n. n;
  mint = λ _ _ _ _ n. (true, n);
  transfer_all = λ _ _ n. (some 0, n);
  write = λ n. (true, n);
}

abbrev consent : ConsentRecord
consent = record {
  plan_hash = "h";
  budget = ("echo::emit", 3) ∷ ("external::send", 1) ∷ [];
  nonce = "n";
  issued_at = 1;
  ttl_secs = 60;
  mac = "m";
}

abbrev fresh : List RunSignal → Run Numbers ℕ
fresh signals = record {
  env = [];
  modes = [];
  withheld_count = 0;
  active_nonce = "";
  state = RunState.running;
  row_state = RunState.running;
  outcome = none;
  buffer = [];
  journal = [];
  events = [];
  signals = signals;
  world = 0;
}

-- `for x in echo::list() bound 3 { echo::emit(x) }`, then a send of a constant.
abbrev emits : Plan Numbers
emits = record {
  stmts =
      let_ "xs" (observe "echo::list" Exprs.none)
      ⨾ foreach "x" (var "xs") 3 Mode.strict (effect "echo::emit" (more (var "x") Exprs.none) ⨾ end)
      ⨾ effect "external::send" (more (const (7 ∷ [])) Exprs.none)
      ⨾ end;
}

abbrev finished_run : Run Numbers ℕ
finished_run = exec_thread toy_runtime toy_values "f" "s" emits consent (fresh [])

emits_twice_and_waits :
    finished_run.events
    ≡ performed "echo::emit" "t" true
      ∷ performed "echo::emit" "t" true
      ∷ withheld "external::send" "t"
      ∷ awaiting_approval 1
      ∷ []
unfolding exec_thread start_interpreter exec_stmts exec_stmt evaluate exec_effect on_world eval
    eval_args call_or_fail answer_or_fail take_items each run_effect effect_args attempt
    attempt_with on_answer performed_effect withhold_effect push_buffer log_emission emit settle
    set_state get put string_discrete join is_empty is_subset all_in contains insert union
    union_right
emits_twice_and_waits = refl

abbrev tainted : Label
tainted = with_integ "toy:echo"

abbrev emits_admission : Admission
emits_admission = record {
  budget = ("echo::emit", 3) ∷ ("external::send", 1) ∷ [];
  effects =
      record {
        verb = "echo::emit";
        effective = join (join public_trusted tainted) tainted;
        multiplier = 3;
      }
      ∷ record {
        verb = "external::send";
        effective = join public_trusted public_trusted;
        multiplier = 1;
      }
      ∷ [];
  worst_case_steps = 6;
  node_count = 8;
}

emits_is_admitted : admit toy emits ≡ admitted emits_admission
unfolding admit walk_list walk_stmt walk_effect expr_label args_label guard_label charge wrapping
    string_discrete get put join is_empty is_subset all_in contains insert union union_right
emits_is_admitted = refl

exec_thread-within_budget_example :
    (told : List Event) × ((exec_thread toy_runtime toy_values "f" "s" emits consent
        (fresh (abort true ∷ []))).events
      ≡ [] ++ told)
    × (times "echo::emit" (taken told) ≤ budget_of "echo::emit" emits_admission.budget)
exec_thread-within_budget_example =
    exec_thread-within_budget toy_values toy_runtime "f" "s" emits consent (fresh (abort true ∷ []))
      emits_admission "echo::emit" emits_is_admitted (tt, tt)

abbrev secret : Label
secret = with_conf "secret:demo"

secret_is_confidential : is_empty secret.conf ≡ false
unfolding is_empty is_subset all_in contains insert union union_right
secret_is_confidential = refl

exec_stmts-IsInternal_example :
    (told : List Event) × ((last
        (exec_stmts toy_values toy_runtime toy "f" secret emits.stmts (fresh []))).events
      ≡ [] ++ told)
    × All (IsInternal toy_runtime toy) told
exec_stmts-IsInternal_example =
    exec_stmts-IsInternal toy_values toy_runtime toy "f" secret emits.stmts (fresh [])
      secret_is_confidential

-- A run that has read a secret.
abbrev informed : Run Numbers ℕ
informed = record (fresh []) { env = ("x", (7 ∷ [], secret)) ∷ [] }

abbrev informed_send : Exec (Run Numbers ℕ) (Unit {0})
informed_send =
    exec_effect toy_values toy_runtime toy "f" "external::send" (more (var "x") Exprs.none)
      public_trusted 1 informed

exec_thread-settles_example :
    IsSettled
      (exec_thread toy_runtime toy_values "f" "s" emits consent (fresh (abort true ∷ []))).state
exec_thread-settles_example =
    exec_thread-settles toy_values toy_runtime "f" "s" emits consent (fresh (abort true ∷ [])) true
      (In.here refl)

-- An effect, and then a send of what was read in secret.
abbrev leaks : Plan Numbers
leaks = record {
  stmts =
      effect "external::send" (more (const (7 ∷ [])) Exprs.none)
      ⨾ let_ "x" (observe "secret::read" Exprs.none)
      ⨾ effect "external::send" (more (var "x") Exprs.none)
      ⨾ end;
}

abbrev stopped_at : Run Numbers ℕ
stopped_at = last (
    exec_stmts toy_values toy_runtime toy "f" public_trusted leaks.stmts
      (start_interpreter toy_runtime consent (fresh [])))

leaks_is_stopped :
    exec_stmts toy_values toy_runtime toy "f" public_trusted leaks.stmts
      (start_interpreter toy_runtime consent (fresh []))
    ≡ Exec.stopped (fail_stop (sink_denied "external::send")) stopped_at
unfolding start_interpreter exec_stmts exec_stmt evaluate exec_effect on_world eval eval_args
    call_or_fail answer_or_fail run_effect effect_args withhold_effect push_buffer emit get put
    string_discrete join is_empty is_subset all_in contains insert union union_right
leaks_is_stopped = refl

stopped_run-holds_nothing_example :
    ((exec_thread toy_runtime toy_values "f" "s" leaks consent (fresh [])).state ≡ RunState.done)
    × ((exec_thread toy_runtime toy_values "f" "s" leaks consent (fresh [])).row_state
        ≡ RunState.done)
    × ((exec_thread toy_runtime toy_values "f" "s" leaks consent (fresh [])).outcome
        ≡ some (fail_stop (sink_denied "external::send")))
    × NothingHeld toy_runtime
        (exec_thread toy_runtime toy_values "f" "s" leaks consent (fresh [])).buffer
stopped_run-holds_nothing_example =
    stopped_run-holds_nothing toy_values toy_runtime "f" "s" leaks consent (fresh []) stopped_at
      (fail_stop (sink_denied "external::send")) (λ _. refl) leaks_is_stopped
