-- ===== src/Kernel/Plans/Effects.antt =====
-- Single steps of the interpreter: suspension, the items of a loop, and the effects
-- (`park_for_resume` and `exec_effect`, crates/portos-kernel/src/plans/interpreter.rs). The signals
-- are those that the waits of a run will take, in order.
use portos.Base.{
  ℕ, zero, suc, ◌+◌, ◌-◌, Bool, true, false, not, ◌&&◌, Option, none, some, List, [], ◌∷◌, String,
  string_discrete, ltb, length, if◌then◌else◌,
}
use portos.Base.Maps.{Map, get, put}
use portos.Base.Sets.{of_list, is_empty}
use portos.Proto.Label.{Label}
use portos.Proto.Plan.{Mode, strict, truncate, escalate, Exprs}
use portos.Kernel.Plancheck.{VerbSchemas}
use portos.Kernel.Plans.{
  Failure, foreach_bound, sink_denied, buffer_write_failed, resume_mint_failed, invoke_failed,
  Outcome, fail_stop, aborted, RunState, Invoked, answered, no_capability, failed, Values,
  PlanRuntime,
}
use portos.Kernel.Plans.Control.{ConsentRecord, ttl_at, RunSignal, resume, abort}
use portos.Kernel.Plans.Verbs.{Family, by_family}
use portos.Kernel.Plans.Eval.{Exec, continue, M, ◌>>◌, eval_args}
use portos.Kernel.Plans.Store.{
  Event, performed, loop_truncated, truncated_at, Run, in_world, emit, set_state, push_buffer,
  log_emission,
}

abbrev pub current_mode : List Mode → Mode
current_mode [] = strict
current_mode (m ∷ ms) = m

-- The elements of an array up to the bound.
unfoldable pub take {ℓ} : {A : Type ℓ} → ℕ → List A → List A
take n [] = []
take zero (x ∷ xs) = []
take (suc n) (x ∷ xs) = x ∷ take n xs

abbrev pub rest {ℓ} : {A : Type ℓ} → List A → List A
rest [] = []
rest (x ∷ xs) = xs

abbrev pub array_items {ℓ} : {A : Type ℓ} → Option (List A) → List A
array_items none = []
array_items (some vs) = vs

abbrev pub is_external : Option Bool → Bool
is_external none = true
is_external (some b) = b

-- A single argument that is an object is passed bare.
unfoldable pub effect_args : {V : Type 0} → Values V → List V → V
effect_args values (v ∷ []) = if values.is_object v then v else values.array (v ∷ [])
effect_args values vals = values.array vals

module _ {V W : Type 0} where
  abbrev pub modify : (Run V W → Run V W) → M (Run V W) (Unit {0})
  modify f s = Exec.done tt (f s)

  -- A step that changes only the world.
  unfoldable pub on_world : {A : Type 0} → M W A → M (Run V W) A
  on_world m s = elim (m s.world) [
    | Exec.done a w ↦ Exec.done a (in_world w s)
    | Exec.stopped o w ↦ Exec.stopped o (in_world w s)
    | Exec.parked w ↦ Exec.parked (in_world w s)
  ]

  abbrev pub bind_var : String → V × Label → Run V W → Run V W
  bind_var x vl s = record s { env = put string_discrete x vl s.env }

  abbrev pub push_mode : Mode → Run V W → Run V W
  push_mode m s = record s { modes = m ∷ s.modes }

  abbrev pub pop_mode : Run V W → Run V W
  pop_mode s = record s { modes = rest s.modes }

  -- The mode of a loop is popped when its rounds end or fail.
  abbrev pub popping : Exec (Run V W) (Unit {0}) → Exec (Run V W) (Unit {0})
  popping (Exec.done _ s) = Exec.done tt (pop_mode s)
  popping (Exec.stopped o s) = Exec.stopped o (pop_mode s)
  popping (Exec.parked s) = Exec.parked s

module _ {V W : Type 0} (runtime : PlanRuntime V W) (fiber : String) where
  unfoldable pub if_minted : Bool → M (Run V W) (Unit {0}) → M (Run V W) (Unit {0})
  if_minted true next s = next s
  if_minted false next s = Exec.stopped (fail_stop resume_mint_failed) s

  -- The capabilities of a consent that resumes, one for each family.
  unfoldable pub mint_all : ℕ → Map String Family → M (Run V W) (Unit {0})
  unfolding if_minted
  mint_all ttl_at [] s = Exec.done tt s
  mint_all ttl_at ((family, (verbs, counts)) ∷ fs) s =
      let (minted, w) =
        runtime.mint fiber (Prim.Native.String.◌++◌ "driver:" family) (of_list verbs)
          (record { expires_at = some ttl_at; counts = counts }) s.world in
      if_minted minted (mint_all ttl_at fs) (in_world w s)

  unfoldable pub resumed : ConsentRecord → M (Run V W) (Unit {0})
  unfolding set_state
  resumed c = do
    mint_all (ttl_at c) (by_family c.budget [])
    modify λ s. set_state runtime RunState.running (record s { active_nonce = c.nonce })

  -- The wait takes the next signal; when none comes, the run stays suspended.
  unfoldable pub on_signal : List RunSignal → M (Run V W) (Unit {0})
  on_signal [] s = Exec.parked s
  on_signal (abort expired ∷ ss) s = Exec.stopped (aborted expired) (record s { signals = ss })
  on_signal (resume c ∷ ss) s = resumed c (record s { signals = ss })

  unfoldable pub park_for_resume : M (Run V W) (Unit {0})
  park_for_resume s =
      let t = emit Event.paused (set_state runtime RunState.paused s) in on_signal t.signals t

  -- The items that a loop goes through: what it does with a list that is too long is its mode.
  unfoldable pub over_bound : Mode → ℕ → List V → M (Run V W) (List V)
  over_bound strict bound items s = Exec.stopped (fail_stop (foreach_bound bound (length items))) s
  over_bound truncate bound items s =
      Exec.done (take bound items) (emit (loop_truncated (length items - bound)) s)
  over_bound escalate bound items s = continue (park_for_resume s) λ _ t. Exec.done items t

  unfoldable pub take_items : ℕ → Mode → List V → M (Run V W) (List V)
  unfolding over_bound
  take_items bound mode items s =
      if ltb bound (length items) then over_bound mode bound items s else Exec.done items s

  -- What follows an effect that took place, and one that a new consent could mend.
  unfoldable pub performed_effect : String → String → Run V W → Run V W
  performed_effect verb target s =
      emit (performed verb target true)
        (log_emission runtime (length s.journal + 1) verb target s.active_nonce s)

  unfoldable pub out_of_budget : M (Run V W) (Unit {0}) → String → ℕ → Mode → M (Run V W) (Unit {0})
  out_of_budget retry verb remaining strict s =
      Exec.stopped (fail_stop (Failure.budget_exhausted verb)) s
  out_of_budget retry verb remaining truncate s =
      Exec.stopped (Outcome.truncated remaining) (emit (truncated_at verb remaining) s)
  out_of_budget retry verb remaining escalate s = continue (park_for_resume s) λ _. retry

  unfoldable pub on_answer :
      M (Run V W) (Unit {0}) → String → String → ℕ → Invoked V → M (Run V W) (Unit {0})
  on_answer retry verb target remaining (answered _) s =
      Exec.done tt (performed_effect verb target s)
  on_answer retry verb target remaining Invoked.budget_exhausted s =
      out_of_budget retry verb remaining (current_mode s.modes)
        (emit (performed verb target false) s)
  on_answer retry verb target remaining no_capability s =
      out_of_budget retry verb remaining (current_mode s.modes)
        (emit (performed verb target false) s)
  on_answer retry verb target remaining (failed e) s =
      Exec.stopped (fail_stop (invoke_failed verb e)) (emit (performed verb target false) s)

  unfoldable pub attempt_with :
      M (Run V W) (Unit {0}) → String → String → V → ℕ → M (Run V W) (Unit {0})
  unfolding on_answer
  attempt_with retry verb target args remaining s =
      let (r, w) = runtime.invoke fiber verb args s.world in
      on_answer retry verb target remaining r (in_world w s)

  -- The loop that tries an effect again after each resume. Each round but the last takes a signal.
  unfoldable pub attempt : List RunSignal → String → String → V → ℕ → M (Run V W) (Unit {0})
  attempt [] verb target args remaining =
      attempt_with (λ s. Exec.parked s) verb target args remaining
  attempt (_ ∷ ss) verb target args remaining =
      attempt_with (attempt ss verb target args remaining) verb target args remaining

  unfoldable pub withhold_effect : String → String → V → M (Run V W) (Unit {0})
  withhold_effect verb target args s =
      let (written, t) = push_buffer runtime verb target args 1 s in
      if written
      then Exec.done tt
          (emit (Event.withheld verb target) (record t { withheld_count = t.withheld_count + 1 }))
      else Exec.stopped (fail_stop (buffer_write_failed verb)) t

module _ {V W : Type 0} (values : Values V) (runtime : PlanRuntime V W) (schemas : VerbSchemas)
    (fiber : String) where
  -- `exec_effect` once its arguments are evaluated.
  unfoldable pub run_effect : String → V → Label → ℕ → M (Run V W) (Unit {0})
  run_effect verb args eff remaining s =
      let external = is_external (get string_discrete verb schemas.external_effects) in
      let policy = runtime.effect_policy verb args s.world in
      if external && not (is_empty eff.conf)
      then Exec.stopped (fail_stop (sink_denied verb)) s
      else if policy.withhold
      then withhold_effect runtime fiber verb policy.target args s
      else attempt runtime fiber s.signals verb policy.target args remaining s

  unfoldable pub exec_effect : String → Exprs V → Label → ℕ → M (Run V W) (Unit {0})
  unfolding on_world
  exec_effect verb args pc remaining s =
      continue (on_world (eval_args values runtime schemas fiber s.env [] pc args) s)
        λ (vals, eff). run_effect verb (effect_args values vals) eff remaining
