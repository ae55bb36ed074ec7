-- ===== src/Kernel/Plans/Guarantees.antt =====
-- What holds of every run of the interpreter (`exec_thread`,
-- crates/portos-kernel/src/plans/interpreter.rs), for any host and any values.
use portos.Base.{
  ◌≤◌, ◌≡◌, refl, sym, ap, ◌∙◌, subst, inl, inr, Bool, true, false, List, [], ◌∷◌, ◌++◌, append-nil,
  All, String, string_discrete, arith, ◌==◌, Bool-cases, if◌then◌else◌,
}
use portos.Base.Maps.{get}
use portos.Base.Sets.{is_empty, is_empty_iff}
use portos.Proto.Label.{Label, public_trusted}
use portos.Proto.Plan.{Stmts, Plan}
use portos.Kernel.Plancheck.{VerbSchemas, admit, admitted, Admission, budget_of}
use portos.Kernel.Plancheck.Runs.{times, Runs, run-within_budget}
use portos.Kernel.Plancheck.Effects.{secret_stays}
use portos.Kernel.Plans.{Outcome, completed, RunState, BufferState, held, Values, PlanRuntime}
use portos.Kernel.Plans.Control.{ConsentRecord}
use portos.Kernel.Plans.Eval.{Exec}
use portos.Kernel.Plans.Ends.{finishes, stops, waits}
use portos.Kernel.Plans.Store.{
  Event, performed, withheld, loop_truncated, truncated_at, paused, awaiting_approval, approved,
  finished, Run, in_world, emit, set_state, set_buffer_state, finish_run, teardown,
}
use portos.Kernel.Plans.Effects.{is_external}
use portos.Kernel.Plans.Interpreter.{exec_stmts, settle, start_interpreter, exec_thread}
use portos.Kernel.Plans.Trace.{
  taken, verbs_of, IsAbort, All-left, Allowed, Justified, Extends, Traced, then-Extends,
}
use portos.Kernel.Plans.Trace.Steps.{tells_one}
use portos.Kernel.Plans.Trace.Execution.{exec_stmts-Traced}

-- The state in which a step ends.
abbrev pub last : {S A : Type 0} → Exec S A → S
last (Exec.done _ s) = s
last (Exec.stopped _ s) = s
last (Exec.parked s) = s

module _ {V W : Type 0} (runtime : PlanRuntime V W) (schemas : VerbSchemas) where
  finish_run-tells :
      (o : Outcome) (s : Run V W)
      → ((finish_run runtime o s).events ≡ s.events ++ finished o ∷ [])
        × ((finish_run runtime o s).signals ≡ s.signals)
  unfolding finish_run emit
  finish_run-tells o s = (ground arith, ground arith)

  set_state-tells :
      (st : RunState) (e : Event) (s : Run V W)
      → ((emit e (set_state runtime st s)).events ≡ s.events ++ e ∷ [])
        × ((emit e (set_state runtime st s)).signals ≡ s.signals)
  unfolding set_state emit
  set_state-tells st e s = (ground arith, ground arith)

  set_buffer_state-keeps :
      (a b : BufferState) (segment : String) (s : Run V W)
      → ((teardown runtime segment (set_buffer_state runtime a b s)).events ≡ s.events)
        × ((teardown runtime segment (set_buffer_state runtime a b s)).signals ≡ s.signals)
  unfolding set_buffer_state teardown
  set_buffer_state-keeps a b segment s = (ground arith, ground arith)

  adds_last :
      {R : List String → Type 0} {pc : Label} {s t u : Run V W} (e : Event)
      → Justified runtime schemas pc e
      → verbs_of e ≡ []
      → (u.events ≡ t.events ++ e ∷ []) × (u.signals ≡ t.signals)
      → Extends runtime schemas R pc s t
      → Extends runtime schemas R pc s u
  adds_last {R} {pc} {s} {t} {u} e j v (p, g) x =
      then-Extends runtime schemas
        (λ tr us r q. subst R (sym (ap (λ us. tr ++ us) q ∙ append-nil tr)) r) x
        (tells_one runtime schemas pc {R = λ us. us ≡ []} e t u p g j
          (ap (λ us. us ++ []) v)).extends

  either-Extends :
      {R : List String → Type 0} {pc : Label} {s : Run V W} (b : Bool) (t u : Run V W)
      → Extends runtime schemas R pc s t
      → Extends runtime schemas R pc s u
      → Extends runtime schemas R pc s (if b then t else u)
  either-Extends true t u x y = x
  either-Extends false t u x y = y

  -- The end of a run adds one event that names no verb.
  settle-Extends :
      {R : List String → Type 0} {pc : Label} {s : Run V W} {r : Exec (Run V W) (Unit {0})}
      (fiber segment : String)
      → Traced runtime schemas (λ _. R) R pc s r
      → Extends runtime schemas R pc s (settle runtime fiber segment r)
  unfolding settle
  settle-Extends fiber segment (finishes {s = t} g) =
      let u = in_world (runtime.transfer_all segment fiber t.world).1 t in
      let waiting = Event.awaiting_approval t.withheld_count in
      either-Extends (t.withheld_count == 0) (finish_run runtime completed u)
        (emit waiting (set_state runtime RunState.awaiting_approval t))
        (adds_last (finished completed) tt refl (finish_run-tells completed u) g.extends)
        (adds_last waiting tt refl (set_state-tells RunState.awaiting_approval waiting t) g.extends)
  settle-Extends fiber segment (stops {o = o} {s = t} x) =
      let u = teardown runtime segment (set_buffer_state runtime held BufferState.aborted t) in
      let (e, g) = finish_run-tells o u in
      let (e', g') = set_buffer_state-keeps held BufferState.aborted segment t in
      adds_last (finished o) tt refl (e ∙ ap (λ es. es ++ finished o ∷ []) e', g ∙ g') x
  settle-Extends fiber segment (waits w) = w.goes.extends

  -- The verbs of an event: of an effect that took place, of one that was tried in vain, and of one
  -- that was withheld.
  abbrev pub named_by : Event → List String
  named_by (performed v _ _) = v ∷ []
  named_by (withheld v _) = v ∷ []
  named_by (truncated_at _ _) = []
  named_by (loop_truncated _) = []
  named_by paused = []
  named_by (awaiting_approval _) = []
  named_by (approved _) = []
  named_by (finished _) = []

  -- An event that names no external verb.
  abbrev pub IsInternal : Event → Type 0
  IsInternal e =
      All (λ v. is_external (get string_discrete v schemas.external_effects) ≡ false) (named_by e)

  Allowed-internal :
      (pc : Label) (v t : String) (b : Bool)
      → is_empty pc.conf ≡ false
      → Allowed runtime schemas pc v t b
      → is_external (get string_discrete v schemas.external_effects) ≡ false
  Allowed-internal pc v t b h a = elim (Bool-cases (is_empty a.label.conf)) [
    | inl e ↦ absurd (secret_stays pc a.label h a.above ((is_empty_iff a.label.conf).0 e))
    | inr e ↦ ground (arith, a.sink)
  ]

  Justified-IsInternal :
      (pc : Label) (e : Event)
      → is_empty pc.conf ≡ false
      → Justified runtime schemas pc e
      → IsInternal e
  Justified-IsInternal pc (performed v t true) h j = (Allowed-internal pc v t false h j, tt)
  Justified-IsInternal pc (performed v t false) h j = (Allowed-internal pc v t false h j, tt)
  Justified-IsInternal pc (withheld v t) h j = (Allowed-internal pc v t true h j, tt)
  Justified-IsInternal pc (loop_truncated _) h j = tt
  Justified-IsInternal pc (truncated_at _ _) h j = tt
  Justified-IsInternal pc paused h j = tt
  Justified-IsInternal pc (awaiting_approval _) h j = tt
  Justified-IsInternal pc (approved _) h j = tt
  Justified-IsInternal pc (finished _) h j = tt

  All-IsInternal :
      (pc : Label) (es : List Event)
      → is_empty pc.conf ≡ false
      → All (Justified runtime schemas pc) es
      → All IsInternal es
  All-IsInternal pc [] h j = tt
  All-IsInternal pc (e ∷ es) h j = (Justified-IsInternal pc e h j.0, All-IsInternal pc es h j.1)

  last-Extends :
      {R : List String → Type 0} {pc : Label} {s : Run V W} {r : Exec (Run V W) (Unit {0})}
      → Traced runtime schemas (λ _. R) R pc s r
      → Extends runtime schemas R pc s (last r)
  last-Extends (finishes g) = g.extends
  last-Extends (stops x) = x
  last-Extends (waits w) = w.goes.extends

module _ {V W : Type 0} (values : Values V) (runtime : PlanRuntime V W) where
  thread-Extends :
      (fiber segment : String) (plan : Plan V) (c : ConsentRecord) (s : Run V W)
      → Extends runtime
          (runtime.schemas s.world)
          (Runs plan.stmts)
          public_trusted
          (start_interpreter runtime c s)
          (exec_thread runtime values fiber segment plan c s)
  unfolding exec_thread
  thread-Extends fiber segment plan c s =
      settle-Extends runtime (runtime.schemas s.world) fiber segment (
        exec_stmts-Traced values runtime (runtime.schemas s.world) fiber public_trusted plan.stmts
          (start_interpreter runtime c s))

  -- A run of an admitted plan whose signals are all aborts performs and withholds no more effects of
  -- a verb than the budget that was shown for consent, whatever the host answers.
  pub exec_thread-within_budget :
      (fiber segment : String) (plan : Plan V) (c : ConsentRecord) (s : Run V W) (adm : Admission)
      (v : String)
      → admit (runtime.schemas s.world) plan ≡ admitted adm
      → All IsAbort s.signals
      → (told : List Event) × ((exec_thread runtime values fiber segment plan c s).events
          ≡ s.events ++ told)
        × (times v (taken told) ≤ budget_of v adm.budget)
  unfolding start_interpreter
  exec_thread-within_budget fiber segment plan c s adm v e a =
      let x = thread-Extends fiber segment plan c s in
      let aborts = All-left IsAbort x.signals_taken _ (subst (All IsAbort) x.takes a) in
      (
        x.told,
        x.tells,
        run-within_budget (runtime.schemas s.world) plan adm (taken x.told) v e (x.traced aborts),
      )

  -- Where control depends on confidential data, a run tells of no effect, done, tried in vain or
  -- withheld, whose verb is external or is not named by the schemas.
  pub exec_stmts-IsInternal :
      (schemas : VerbSchemas) (fiber : String) (pc : Label) (ss : Stmts V) (s : Run V W)
      → is_empty pc.conf ≡ false
      → (told : List Event) × ((last (exec_stmts values runtime schemas fiber pc ss s)).events
          ≡ s.events ++ told)
        × All (IsInternal runtime schemas) told
  exec_stmts-IsInternal schemas fiber pc ss s h =
      let x =
        last-Extends runtime schemas (exec_stmts-Traced values runtime schemas fiber pc ss s) in
      (x.told, x.tells, All-IsInternal runtime schemas pc x.told h x.justified)
