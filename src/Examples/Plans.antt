-- ===== src/Examples/Plans.antt =====
-- The admission of plans at concrete plans.
use portos.Base.{
  arith, ℕ, ◌≡◌, ◌≢◌, ◌≤◌, refl, true, false, some, List, [], ◌∷◌, ◌++◌, string_discrete, All, In,
}
use portos.Base.Maps.{get, put}
use portos.Base.Sets.{empty, is_empty, is_subset, all_in, insert, union, union_right, contains}
use portos.Proto.Label.{Label, public_trusted, with_conf, with_integ, join}
use portos.Proto.Plan.{
  Exprs, observe, const, var, more, Guard, exists, let_, effect, if_, foreach, Stmts, end, ◌⨾◌,
  Plan, Mode,
}
use portos.Kernel.Plancheck.Nodes.{nodes, nodes_expr}
use portos.Kernel.Plancheck.Limits.{steps, admit-limits}
use portos.Kernel.Plancheck.{
  u64_max, VerbSchemas, EffectAnn, Admission, Walk, start_walk, admit, admitted, walk_list,
  walk_stmt, walk_effect, expr_label, args_label, guard_label, charge, wrapping, budget_of, s_max,
  max_nodes,
}
use portos.Kernel.Plancheck.Counted.{occurrences}
use portos.Kernel.Plancheck.Runs.{
  Runs, halts, goes_on, lets, effects, loops, leaves, again, times, admit-budget, run-within_budget,
}
use portos.Kernel.Plancheck.Sinks.{admit-sinks, secret_branch-is_internal}

abbrev toy : VerbSchemas
toy = record {
  observe_labels =
      ("echo::list", with_integ "toy:echo") ∷ ("secret::read", with_conf "secret:demo") ∷ [];
  external_effects = ("echo::emit", false) ∷ ("external::send", true) ∷ [];
}

-- `for x in echo::list() bound 3 { echo::emit(x) }`, then a send of a constant.
abbrev emits : Plan ℕ
emits = record {
  stmts =
      let_ "xs" (observe "echo::list" Exprs.none)
      ⨾ foreach "x" (var "xs") 3 Mode.strict (effect "echo::emit" (more (var "x") Exprs.none) ⨾ end)
      ⨾ effect "external::send" (more (const 7) Exprs.none)
      ⨾ end;
}

abbrev tainted : Label
tainted = with_integ "toy:echo"

abbrev emits_admission : Admission
emits_admission = record {
  budget = ("echo::emit", 3) ∷ ("external::send", 1) ∷ [];
  effects =
      record {
        verb = "echo::emit";
        effective = join (join public_trusted tainted) tainted;
        multiplier = 3;
      }
      ∷ record {
        verb = "external::send";
        effective = join public_trusted public_trusted;
        multiplier = 1;
      }
      ∷ [];
  worst_case_steps = 6;
  node_count = 8;
}

emits_is_admitted : admit toy emits ≡ admitted emits_admission
unfolding admit walk_list walk_stmt walk_effect expr_label args_label guard_label charge wrapping
    string_discrete get put join is_empty is_subset all_in contains insert union union_right
emits_is_admitted = refl

admit-budget_example :
    budget_of "echo::emit" emits_admission.budget ≡ occurrences "echo::emit" emits.stmts
admit-budget_example = admit-budget toy emits emits_admission "echo::emit" emits_is_admitted

emits_is_small : nodes emits.stmts ≤ u64_max
unfolding nodes nodes_expr
emits_is_small = omega arith

admit-limits_example :
    (emits_admission.node_count ≡ nodes emits.stmts)
    × (nodes emits.stmts ≤ max_nodes)
    × (emits_admission.worst_case_steps ≡ steps emits.stmts)
    × (steps emits.stmts ≤ s_max)
    × (occurrences "echo::emit" emits.stmts ≤ steps emits.stmts)
admit-limits_example =
    admit-limits toy emits emits_admission "echo::emit" emits_is_admitted emits_is_small

-- Two rounds of the loop, and then a stop.
two_rounds :
    Runs emits.stmts
      ([] ++ ((("echo::emit" ∷ []) ++ []) ++ ((("echo::emit" ∷ []) ++ []) ++ []) ++ []))
two_rounds =
    goes_on lets
      (goes_on (loops (again (goes_on effects halts) (again (goes_on effects halts) leaves))) halts)

run-within_budget_example :
    times "echo::emit"
      ([] ++ ((("echo::emit" ∷ []) ++ []) ++ ((("echo::emit" ∷ []) ++ []) ++ []) ++ []))
    ≤ budget_of "echo::emit" emits_admission.budget
run-within_budget_example =
    run-within_budget toy emits emits_admission _ "echo::emit" emits_is_admitted two_rounds

send_is_external : get string_discrete "external::send" toy.external_effects ≡ some true
unfolding get string_discrete
send_is_external = refl

admit-sinks_example : (join public_trusted public_trusted).conf ≡ empty
admit-sinks_example =
    admit-sinks toy emits emits_admission
      (record {
        verb = "external::send";
        effective = join public_trusted public_trusted;
        multiplier = 1;
      })
      emits_is_admitted (In.there (In.here refl)) send_is_external

abbrev secret_guard : Guard ℕ
secret_guard = exists (observe "secret::read" Exprs.none)

abbrev secret_arm : Stmts ℕ
secret_arm = effect "echo::emit" Exprs.none ⨾ end

abbrev in_secret : EffectAnn
in_secret = record {
  verb = "echo::emit";
  effective = join public_trusted (with_conf "secret:demo");
  multiplier = 1;
}

abbrev after_branch : Walk
after_branch = record {
  env = [];
  out = record {
    budget = ("echo::emit", 1) ∷ [];
    effects = in_secret ∷ [];
    worst_case_steps = 1;
    node_count = 2;
  };
}

secret_guard-label : guard_label toy [] 0 secret_guard ≡ admitted (with_conf "secret:demo", 1)
unfolding guard_label expr_label args_label wrapping string_discrete get
secret_guard-label = refl

secret_is_confidential : is_empty (with_conf "secret:demo").conf ≡ false
unfolding string_discrete is_empty is_subset all_in contains insert union union_right
secret_is_confidential = refl

secret_branch-walk :
    walk_stmt toy start_walk public_trusted 1 1 (if_ secret_guard secret_arm end)
    ≡ admitted after_branch
unfolding walk_list walk_stmt walk_effect expr_label args_label guard_label charge wrapping
    string_discrete get put is_empty is_subset all_in contains insert union union_right
secret_branch-walk = refl

secret_branch-is_internal_example :
    (added : List EffectAnn) × (after_branch.out.effects ≡ start_walk.out.effects ++ added)
    × All (λ a. get string_discrete a.verb toy.external_effects ≢ some true) added
secret_branch-is_internal_example =
    secret_branch-is_internal toy secret_guard secret_arm end start_walk after_branch public_trusted
      (with_conf "secret:demo") 1 1 1 secret_guard-label secret_is_confidential secret_branch-walk
