-- ===== src/Kernel/Plans/Settlement.antt =====
-- How a run of the interpreter ends (`exec_thread`, crates/portos-kernel/src/plans/interpreter.rs):
-- an abort reaches it, and a failure leaves nothing that could still be approved.
use portos.Base.{
  ◌≡◌, ◌≢◌, sym, ap, ◌∙◌, subst, ◌⊎◌, inl, inr, Bool, true, false, some, List, [], ◌∷◌, ◌++◌,
  append-nil, All, In, String, arith, ◌==◌, if◌then◌else◌,
}
use portos.Proto.Label.{Label, public_trusted}
use portos.Proto.Plan.{Plan}
use portos.Kernel.Plancheck.{VerbSchemas}
use portos.Kernel.Plancheck.Runs.{Runs}
use portos.Kernel.Plans.{
  Outcome, completed, RunState, BufferState, held, inserted, Values, PlanRuntime,
}
use portos.Kernel.Plans.Control.{ConsentRecord, RunSignal, abort}
use portos.Kernel.Plans.Eval.{Exec}
use portos.Kernel.Plans.Ends.{finishes, stops, waits}
use portos.Kernel.Plans.Store.{
  Event, Buffered, Run, in_world, emit, set_state, set_buffer_state, move_items, finish_run,
  teardown,
}
use portos.Kernel.Plans.Interpreter.{exec_stmts, settle, start_interpreter, exec_thread}
use portos.Kernel.Plans.Trace.{IsResume, Traced}
use portos.Kernel.Plans.Trace.Execution.{exec_stmts-Traced}

no_abort : (expired : Bool) (ss : List RunSignal) → All IsResume ss → In (abort expired) ss → ⊥
no_abort expired [] r m = elim m [ ]
no_abort expired (x ∷ ss) r (In.here e) = subst IsResume (sym e) r.0
no_abort expired (x ∷ ss) r (In.there m) = no_abort expired ss r.1 m

-- The run has come to an end, or waits for an approval that needs no thread.
abbrev pub IsSettled : RunState → Type 0
IsSettled st = (st ≡ RunState.done) ⊎ (st ≡ RunState.awaiting_approval)

module _ {V W : Type 0} (runtime : PlanRuntime V W) where
  finish_run-state : (o : Outcome) (s : Run V W) → (finish_run runtime o s).state ≡ RunState.done
  unfolding finish_run emit
  finish_run-state o s = ground arith

  set_state-state :
      (st : RunState) (e : Event) (s : Run V W) → (emit e (set_state runtime st s)).state ≡ st
  unfolding set_state emit
  set_state-state st e s = ground arith

  either-IsSettled :
      (b : Bool) (t u : Run V W)
      → IsSettled t.state
      → IsSettled u.state
      → IsSettled (if b then t else u).state
  either-IsSettled true t u x y = x
  either-IsSettled false t u x y = y

  settle-IsSettled :
      (schemas : VerbSchemas) (R : List String → Type 0) (pc : Label) (fiber segment : String)
      (expired : Bool) (s : Run V W) {r : Exec (Run V W) (Unit {0})}
      → Traced runtime schemas (λ _. R) R pc s r
      → In (abort expired) s.signals
      → IsSettled (settle runtime fiber segment r).state
  unfolding settle
  settle-IsSettled schemas R pc fiber segment expired s (finishes {s = t} g) m =
      let u = in_world (runtime.transfer_all segment fiber t.world).1 t in
      let waiting = Event.awaiting_approval t.withheld_count in
      either-IsSettled (t.withheld_count == 0) (finish_run runtime completed u)
        (emit waiting (set_state runtime RunState.awaiting_approval t))
        (inl (finish_run-state completed u))
        (inr (set_state-state RunState.awaiting_approval waiting t))
  settle-IsSettled schemas R pc fiber segment expired s (stops {o = o} {s = t} x) m = inl (
      finish_run-state o
        (teardown runtime segment (set_buffer_state runtime held BufferState.aborted t)))
  settle-IsSettled schemas R pc fiber segment expired s (waits {s = t} w) m =
      let x = w.goes.extends in
      let none_left =
        x.takes ∙ ap (λ ss. x.signals_taken ++ ss) w.ended ∙ append-nil x.signals_taken in
      absurd
        (no_abort expired x.signals_taken w.goes.resumes (subst (In (abort expired)) none_left m))

  -- No item of the buffer can still be approved.
  abbrev pub NothingHeld : List (Buffered V × BufferState) → Type 0
  NothingHeld = All (λ b. b.1 ≢ held)

  move_items-NothingHeld :
      (bs : List (Buffered V × BufferState)) → NothingHeld (move_items held BufferState.aborted bs)
  unfolding move_items
  move_items-NothingHeld [] = tt
  move_items-NothingHeld ((b, held) ∷ bs) = (λ e. cc, move_items-NothingHeld bs)
  move_items-NothingHeld ((b, inserted) ∷ bs) = (λ e. cc, move_items-NothingHeld bs)
  move_items-NothingHeld ((b, BufferState.aborted) ∷ bs) = (λ e. cc, move_items-NothingHeld bs)

  finish_run-row :
      (o : Outcome) (s : Run V W)
      → ((w : W) → (runtime.write w).0 ≡ true)
      → ((finish_run runtime o s).row_state ≡ RunState.done)
        × ((finish_run runtime o s).outcome ≡ some o)
        × ((finish_run runtime o s).buffer ≡ s.buffer)
  unfolding finish_run emit
  finish_run-row o s reliable =
      (ground (arith, reliable s.world), ground (arith, reliable s.world), ground arith)

  set_buffer_state-buffer :
      (segment : String) (s : Run V W)
      → ((w : W) → (runtime.write w).0 ≡ true)
      → (teardown runtime segment (set_buffer_state runtime held BufferState.aborted s)).buffer
        ≡ move_items held BufferState.aborted s.buffer
  unfolding teardown set_buffer_state
  set_buffer_state-buffer segment s reliable = ground (arith, reliable s.world)

module _ {V W : Type 0} (values : Values V) (runtime : PlanRuntime V W) where
  -- A run whose signals include an abort is not suspended for good, whatever the host answers: it
  -- ends, or waits for an approval.
  pub exec_thread-settles :
      (fiber segment : String) (plan : Plan V) (c : ConsentRecord) (s : Run V W) (expired : Bool)
      → In (abort expired) s.signals
      → IsSettled (exec_thread runtime values fiber segment plan c s).state
  unfolding exec_thread start_interpreter
  exec_thread-settles fiber segment plan c s expired m =
      settle-IsSettled runtime (runtime.schemas s.world) (Runs plan.stmts) public_trusted fiber
        segment expired (start_interpreter runtime c s)
        (exec_stmts-Traced values runtime (runtime.schemas s.world) fiber public_trusted plan.stmts
          (start_interpreter runtime c s))
        m

  -- A run that stops, where the writes to storage succeed, is done in memory and in its row, its row
  -- has the outcome, and no effect that it withheld can still be approved.
  pub stopped_run-holds_nothing :
      (fiber segment : String) (plan : Plan V) (c : ConsentRecord) (s t : Run V W) (o : Outcome)
      → ((w : W) → (runtime.write w).0 ≡ true)
      → exec_stmts values runtime
          (runtime.schemas s.world)
          fiber
          public_trusted
          plan.stmts
          (start_interpreter runtime c s)
        ≡ Exec.stopped o t
      → ((exec_thread runtime values fiber segment plan c s).state ≡ RunState.done)
        × ((exec_thread runtime values fiber segment plan c s).row_state ≡ RunState.done)
        × ((exec_thread runtime values fiber segment plan c s).outcome ≡ some o)
        × NothingHeld runtime (exec_thread runtime values fiber segment plan c s).buffer
  unfolding exec_thread settle
  stopped_run-holds_nothing fiber segment plan c s t o reliable e =
      let u = teardown runtime segment (set_buffer_state runtime held BufferState.aborted t) in
      let (row, outcome, buffer) = finish_run-row runtime o u reliable in
      rw e (
        finish_run-state runtime o u,
        row,
        outcome,
        subst (NothingHeld runtime)
            (sym (buffer ∙ set_buffer_state-buffer runtime segment t reliable))
            (move_items-NothingHeld runtime t.buffer),
      )
