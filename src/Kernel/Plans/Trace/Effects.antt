-- ===== src/Kernel/Plans/Trace/Effects.antt =====
-- The traces of effects: an effect that takes place, or is withheld, is told once and was allowed.
use portos.Base.{
  ℕ, ◌+◌, ◌≡◌, refl, ap, true, false, not, ◌&&◌, List, [], ◌∷◌, ◌++◌, String, string_discrete,
}
use portos.Base.Maps.{get}
use portos.Base.Sets.{is_empty}
use portos.Proto.Label.{Label, leq}
use portos.Proto.Plan.{Mode, strict, truncate, escalate, Exprs}
use portos.Kernel.Plancheck.{VerbSchemas}
use portos.Kernel.Plans.{
  fail_stop, buffer_write_failed, Values, PlanRuntime, Invoked, answered, no_capability, failed,
}
use portos.Kernel.Plans.Control.{RunSignal}
use portos.Kernel.Plans.Eval.{Exec, M, eval_args}
use portos.Kernel.Plans.Ends.{finishes, stops, continue-Ends, if-Ends, eval_args-Gives}
use portos.Kernel.Plans.Store.{performed, withheld, truncated_at, Run, in_world, emit, push_buffer}
use portos.Kernel.Plans.Effects.{
  is_external, effect_args, performed_effect, out_of_budget, on_answer, attempt_with, attempt,
  withhold_effect, run_effect, exec_effect,
}
use portos.Kernel.Plans.Trace.{Allowed, Traced, then-Traced}
use portos.Kernel.Plans.Trace.Steps.{
  Silent, quiet, quietly, tells_one, on_world-Traced, TakesOne, log_emission-Keeps,
  push_buffer-Keeps, park-Traced,
}

-- The trace of one effect.
abbrev pub Once : String → List String → Type 0
Once v tr = tr ≡ v ∷ []

none_left {ℓ} : {A : Type ℓ} {xs ys : List A} {y : A} → xs ≡ [] → xs ≡ y ∷ ys → ⊥
none_left p q = cc

one_less {ℓ} : {A : Type ℓ} {zs xs ys : List A} {x y : A} → zs ≡ x ∷ xs → zs ≡ y ∷ ys → ys ≡ xs
one_less p q = cc

module _ {V W : Type 0} (runtime : PlanRuntime V W) (schemas : VerbSchemas) (pc : Label)
    (fiber verb target : String) where
  -- The end of an attempt at an effect.
  abbrev Attempted : Run V W → Exec (Run V W) (Unit {0}) → Type 0
  Attempted = Traced runtime schemas (λ _. Once verb) Silent pc

  out_of_budget-Traced :
      (retry : M (Run V W) (Unit {0})) (remaining : ℕ) (m : Mode) (s : Run V W)
      → ((t : Run V W) → TakesOne runtime schemas pc s t → Attempted t (retry t))
      → Attempted s (out_of_budget runtime fiber retry verb remaining m s)
  unfolding out_of_budget emit
  out_of_budget-Traced retry remaining strict s h =
      stops (quiet runtime schemas pc s s refl refl refl).extends
  out_of_budget-Traced retry remaining truncate s h =
      stops
        (tells_one runtime schemas pc (truncated_at verb remaining) s
          (emit (truncated_at verb remaining) s) refl refl tt refl).extends
  out_of_budget-Traced retry remaining escalate s h =
      continue-Ends (λ _. retry) (park-Traced runtime schemas pc fiber s)
        (λ _ t (g, o).
          then-Traced runtime schemas (λ _ tr us n. absurd n) (λ tr us n. absurd n) g (h t o))
        (λ _ _ k. k) (λ _ k. k)

  on_answer-Traced :
      (retry : M (Run V W) (Unit {0})) (remaining : ℕ) (r : Invoked V) (s : Run V W)
      → Allowed runtime schemas pc verb target false
      → ((t : Run V W) → TakesOne runtime schemas pc s t → Attempted t (retry t))
      → Attempted s (on_answer runtime fiber retry verb target remaining r s)
  unfolding on_answer performed_effect emit
  on_answer-Traced retry remaining (answered v) s a h =
      let (e, g) = log_emission-Keeps runtime schemas pc _ verb target s.active_nonce s in
      finishes (
        tells_one runtime schemas pc (performed verb target true) s
          (performed_effect runtime fiber verb target s)
          (ap (λ es. es ++ performed verb target true ∷ []) e) g a refl)
  on_answer-Traced retry remaining (failed e) s a h =
      stops
        (tells_one runtime schemas pc (performed verb target false) s
          (emit (performed verb target false) s) refl refl a refl).extends
  on_answer-Traced retry remaining Invoked.budget_exhausted s a h =
      quietly runtime schemas pc
        (tells_one runtime schemas pc (performed verb target false) s
          (emit (performed verb target false) s) refl refl a refl)
        (out_of_budget-Traced retry remaining _ (emit (performed verb target false) s) h)
  on_answer-Traced retry remaining no_capability s a h =
      quietly runtime schemas pc
        (tells_one runtime schemas pc (performed verb target false) s
          (emit (performed verb target false) s) refl refl a refl)
        (out_of_budget-Traced retry remaining _ (emit (performed verb target false) s) h)

  attempt_with-Traced :
      (retry : M (Run V W) (Unit {0})) (args : V) (remaining : ℕ) (s : Run V W)
      → Allowed runtime schemas pc verb target false
      → ((t : Run V W) → TakesOne runtime schemas pc s t → Attempted t (retry t))
      → Attempted s (attempt_with runtime fiber retry verb target args remaining s)
  unfolding attempt_with
  attempt_with-Traced retry args remaining s a h =
      let (r, w) = runtime.invoke fiber verb args s.world in
      quietly runtime schemas pc (quiet runtime schemas pc s (in_world w s) refl refl refl)
        (on_answer-Traced retry remaining r (in_world w s) a h)

  -- The signals that the run has are as many as the rounds: the rounds do not run out.
  attempt-Traced :
      (ss : List RunSignal) (args : V) (remaining : ℕ) (s : Run V W)
      → s.signals ≡ ss
      → Allowed runtime schemas pc verb target false
      → Attempted s (attempt runtime fiber ss verb target args remaining s)
  unfolding attempt
  attempt-Traced [] args remaining s p a =
      attempt_with-Traced _ args remaining s a λ t (c, q). absurd (none_left p q)
  attempt-Traced (x ∷ ss) args remaining s p a =
      attempt_with-Traced (attempt runtime fiber ss verb target args remaining) args remaining s a
        λ t (c, q). attempt-Traced ss args remaining t (one_less p q) a

  withhold-Traced :
      (args : V) (s : Run V W)
      → Allowed runtime schemas pc verb target true
      → Attempted s (withhold_effect runtime fiber verb target args s)
  unfolding withhold_effect emit
  withhold-Traced args s a =
      let (e, g) = push_buffer-Keeps runtime schemas pc verb target args 1 s in
      let t = (push_buffer runtime verb target args 1 s).1 in
      let u = emit (withheld verb target) (record t { withheld_count = t.withheld_count + 1 }) in
      if-Ends (push_buffer runtime verb target args 1 s).0 (Exec.done tt u)
        (Exec.stopped (fail_stop (buffer_write_failed verb)) t)
        (λ _. finishes (
          tells_one runtime schemas pc (withheld verb target) s u
            (ap (λ es. es ++ withheld verb target ∷ []) e) g a refl))
        (λ _. stops (quiet runtime schemas pc s t e g refl).extends)

module _ {V W : Type 0} (values : Values V) (runtime : PlanRuntime V W) (schemas : VerbSchemas)
    (fiber : String) (pc : Label) (verb : String) where
  run_effect-Traced :
      (args : V) (eff : Label) (remaining : ℕ) (s : Run V W)
      → leq pc eff ≡ true
      → Traced runtime schemas
          (λ (_ : Unit {0}). Once verb)
          Silent
          pc
          s
          (run_effect values runtime schemas fiber verb args eff remaining s)
  unfolding run_effect
  run_effect-Traced args eff remaining s above =
      let policy = runtime.effect_policy verb args s.world in
      if-Ends
        (is_external (get string_discrete verb schemas.external_effects) && not (is_empty eff.conf))
        _ _ (λ _. stops (quiet runtime schemas pc s s refl refl refl).extends)
        (λ sink.
          if-Ends policy.withhold (withhold_effect runtime fiber verb policy.target args s)
            (attempt runtime fiber s.signals verb policy.target args remaining s)
            (λ w. withhold-Traced runtime schemas pc fiber verb policy.target args s (record {
              args = args;
              label = eff;
              world = s.world;
              above = above;
              sink = sink;
              decided = w;
              names = refl;
            }))
            (λ w.
              attempt-Traced runtime schemas pc fiber verb policy.target s.signals args remaining s
                refl
                (record {
                  args = args;
                  label = eff;
                  world = s.world;
                  above = above;
                  sink = sink;
                  decided = w;
                  names = refl;
                })))

  pub exec_effect-Traced :
      (args : Exprs V) (remaining : ℕ) (s : Run V W)
      → Traced runtime schemas
          (λ (_ : Unit {0}). Once verb)
          Silent
          pc
          s
          (exec_effect values runtime schemas fiber verb args pc remaining s)
  unfolding exec_effect
  exec_effect-Traced args remaining s =
      continue-Ends _
        (on_world-Traced runtime schemas pc
          (eval_args values runtime schemas fiber s.env [] pc args) s
          (eval_args-Gives values runtime schemas fiber s.env [] pc args s.world))
        (λ a t (above, g).
          quietly runtime schemas pc g
            (run_effect-Traced (effect_args values a.0) a.1 remaining t above))
        (λ _ _ k. k) (λ _ h. absurd h)
