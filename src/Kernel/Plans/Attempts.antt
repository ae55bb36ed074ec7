-- ===== src/Kernel/Plans/Attempts.antt =====
-- What the attempts at an effect tell of, and the pauses between them (`exec_effect` and
-- `park_for_resume`, crates/portos-kernel/src/plans/interpreter.rs).
use portos.Base.{
  ℕ, ◌≡◌, refl, sym, ap, ◌∙◌, subst, ◌⊎◌, inl, inr, Bool, true, false, List, [], ◌∷◌, ◌++◌,
  append-nil, append_assoc, String,
}
use portos.Proto.Label.{Label}
use portos.Proto.Plan.{Mode, strict, truncate, escalate}
use portos.Kernel.Plancheck.{VerbSchemas}
use portos.Kernel.Plans.{RunState, PlanRuntime, Invoked, answered, no_capability, failed}
use portos.Kernel.Plans.Control.{RunSignal, resume, abort}
use portos.Kernel.Plans.Eval.{Exec, done, stopped, parked, M}
use portos.Kernel.Plans.Ends.{Ends, finishes, stops, waits, continue-Ends, map-Ends}
use portos.Kernel.Plans.Store.{
  Event, performed, truncated_at, paused, Run, in_world, emit, set_state,
}
use portos.Kernel.Plans.Effects.{
  park_for_resume, on_signal, performed_effect, out_of_budget, on_answer, attempt_with, attempt,
}
use portos.Kernel.Plans.Trace.Steps.{set_state-Keeps, resumed-Keeps, log_emission-Keeps}
use portos.Kernel.Plans.Guarantees.{last}

-- What the attempts at an effect tell of, and whether the run goes on after them: the effect takes
-- place at most once, as the last event, after any number of attempts that failed and were tried
-- again after a pause; and the run goes on exactly if it took place.
pub data Attempts (verb target : String) (remaining : ℕ) : Bool → List Event → Type 0 where
  takes_place : Attempts verb target remaining true (performed verb target true ∷ [])
  fails : Attempts verb target remaining false (performed verb target false ∷ [])
  truncates :
      Attempts verb target remaining false
        (performed verb target false ∷ truncated_at verb remaining ∷ [])
  pauses : Attempts verb target remaining false (performed verb target false ∷ paused ∷ [])
  tries_again :
      {b : Bool} {es : List Event}
      → Attempts verb target remaining b es
      → Attempts verb target remaining b (performed verb target false ∷ paused ∷ es)

module _ {V W : Type 0} where
  -- The events that a step adds satisfy `P`.
  abbrev pub Adds : (List Event → Type 0) → Run V W → Run V W → Type 0
  Adds P s t = (es : List Event) × (t.events ≡ s.events ++ es) × P es

  -- The run goes on after a step.
  abbrev pub proceeds : {A : Type 0} → Exec (Run V W) A → Bool
  proceeds (done _ _) = true
  proceeds (stopped _ _) = false
  proceeds (parked _) = false

  -- However a step ends, it adds such events as that end asks for.
  abbrev pub AlwaysAdds :
      {A : Type 0} → (Bool → List Event → Type 0) → Run V W → Exec (Run V W) A → Type 0
  AlwaysAdds P s =
      Ends (λ _ t. Adds (P true) s t) (λ _ t. Adds (P false) s t) (λ t. Adds (P false) s t)

  pub last-Adds :
      {A : Type 0} (P : Bool → List Event → Type 0) (s : Run V W) (r : Exec (Run V W) A)
      → AlwaysAdds P s r
      → Adds (P (proceeds r)) s (last r)
  last-Adds P s (done a t) (finishes h) = h
  last-Adds P s (stopped o t) (stops h) = h
  last-Adds P s (parked t) (waits h) = h

  -- Events before those of the next step.
  Adds-after :
      {P Q : List Event → Type 0} (s t u : Run V W) (first : List Event)
      → t.events ≡ s.events ++ first
      → ((es : List Event) → P es → Q (first ++ es))
      → Adds P t u
      → Adds Q s u
  Adds-after s t u first p f (es, q, h) =
      (first ++ es, q ∙ ap (λ ds. ds ++ es) p ∙ append_assoc s.events first es, f es h)

  pub AlwaysAdds-after :
      {A : Type 0} (P Q : Bool → List Event → Type 0) (s t : Run V W) (first : List Event)
      (r : Exec (Run V W) A)
      → t.events ≡ s.events ++ first
      → ((b : Bool) (es : List Event) → P b es → Q b (first ++ es))
      → AlwaysAdds P t r
      → AlwaysAdds Q s r
  AlwaysAdds-after P Q s t first r p f e =
      map-Ends e (λ _ u. Adds-after s t u first p (f true))
        (λ _ u. Adds-after s t u first p (f false)) (λ u. Adds-after s t u first p (f false))

module _ {V W : Type 0} (runtime : PlanRuntime V W) (schemas : VerbSchemas) (pc : Label)
    (fiber : String) where
  abbrev Pauses : Run V W → Run V W → Type 0
  Pauses s t = t.events ≡ s.events ++ paused ∷ []

  on_signal-Pauses :
      (ss : List RunSignal) (s t : Run V W)
      → Pauses s t
      → Ends (λ _ u. Pauses s u) (λ _ u. Pauses s u) (Pauses s) (on_signal runtime fiber ss t)
  unfolding on_signal
  on_signal-Pauses [] s t e = waits e
  on_signal-Pauses (abort x ∷ ss) s t e = stops e
  on_signal-Pauses (resume c ∷ ss) s t e =
      map-Ends (resumed-Keeps runtime schemas pc fiber c (record t { signals = ss }))
        (λ _ u k. k.0 ∙ e) (λ _ u k. k.0 ∙ e) (λ _ h. absurd h)

  -- A suspension tells of the pause only, however it ends.
  park-Pauses :
      (s : Run V W)
      → Ends (λ _ u. Pauses s u) (λ _ u. Pauses s u) (Pauses s) (park_for_resume runtime fiber s)
  unfolding park_for_resume emit
  park-Pauses s =
      on_signal-Pauses (set_state runtime RunState.paused s).signals s
        (emit paused (set_state runtime RunState.paused s))
        (ap (λ es. es ++ paused ∷ []) (set_state-Keeps runtime schemas pc RunState.paused s).0)

  module _ (verb target : String) (remaining : ℕ) where
    abbrev pub Tried : Bool → List Event → Type 0
    Tried = Attempts verb target remaining

    -- The next attempt, if there is one.
    abbrev pub Next : Bool → List Event → Type 0
    Next b es = ((es ≡ []) × (b ≡ false)) ⊎ Tried b es

    after_pause :
        (b : Bool) (es : List Event)
        → Next b es
        → Tried b (performed verb target false ∷ paused ∷ es)
    after_pause b es (inl (e, q)) =
        subst (λ b. Tried b (performed verb target false ∷ paused ∷ es)) (sym q)
          (subst (λ es. Tried false (performed verb target false ∷ paused ∷ es)) (sym e) pauses)
    after_pause b es (inr t) = tries_again t

    -- The run `t` has just told that the attempt from `s` failed.
    out_of_budget-Adds :
        (retry : M (Run V W) (Unit {0})) (m : Mode) (s t : Run V W)
        → t.events ≡ s.events ++ performed verb target false ∷ []
        → ((u : Run V W) → AlwaysAdds Next u (retry u))
        → AlwaysAdds Tried s (out_of_budget runtime fiber retry verb remaining m t)
    unfolding out_of_budget emit
    out_of_budget-Adds retry strict s t e h = stops (_, e, fails)
    out_of_budget-Adds retry truncate s t e h = stops (
      _,
      ap (λ es. es ++ truncated_at verb remaining ∷ []) e
          ∙ append_assoc s.events (performed verb target false ∷ [])
              (truncated_at verb remaining ∷ []),
      truncates,
    )
    out_of_budget-Adds retry escalate s t e h =
        let both : (u : Run V W)
            → Pauses t u
            → u.events ≡ s.events ++ performed verb target false ∷ paused ∷ [] =
          λ u k.
            k
            ∙ ap (λ es. es ++ paused ∷ []) e
            ∙ append_assoc s.events (performed verb target false ∷ []) (paused ∷ []) in
        continue-Ends (λ _. retry) (park-Pauses t)
          (λ _ u k. AlwaysAdds-after Next Tried s u _ (retry u) (both u k) after_pause (h u))
          (λ _ u k. (_, both u k, pauses)) (λ u k. (_, both u k, pauses))

    on_answer-Adds :
        (retry : M (Run V W) (Unit {0})) (r : Invoked V) (s : Run V W)
        → ((u : Run V W) → AlwaysAdds Next u (retry u))
        → AlwaysAdds Tried s (on_answer runtime fiber retry verb target remaining r s)
    unfolding on_answer performed_effect emit
    on_answer-Adds retry (answered v) s h =
        let (e, _) = log_emission-Keeps runtime schemas pc _ verb target s.active_nonce s in
        finishes (_, ap (λ es. es ++ performed verb target true ∷ []) e, takes_place)
    on_answer-Adds retry (failed x) s h = stops (_, refl, fails)
    on_answer-Adds retry Invoked.budget_exhausted s h =
        out_of_budget-Adds retry _ s (emit (performed verb target false) s) refl h
    on_answer-Adds retry no_capability s h =
        out_of_budget-Adds retry _ s (emit (performed verb target false) s) refl h

    attempt_with-Adds :
        (retry : M (Run V W) (Unit {0})) (args : V) (s : Run V W)
        → ((u : Run V W) → AlwaysAdds Next u (retry u))
        → AlwaysAdds Tried s (attempt_with runtime fiber retry verb target args remaining s)
    unfolding attempt_with
    attempt_with-Adds retry args s h =
        let (r, w) = runtime.invoke fiber verb args s.world in
        AlwaysAdds-after Tried Tried s (in_world w s) [] _ (sym (append-nil s.events)) (λ _ _ t. t)
          (on_answer-Adds retry r (in_world w s) h)

    pub attempt-Adds :
        (ss : List RunSignal) (args : V) (s : Run V W)
        → AlwaysAdds Tried s (attempt runtime fiber ss verb target args remaining s)
    unfolding attempt
    attempt-Adds [] args s =
        attempt_with-Adds _ args s λ u. waits ([], sym (append-nil u.events), inl (refl, refl))
    attempt-Adds (_ ∷ ss) args s =
        attempt_with-Adds (attempt runtime fiber ss verb target args remaining) args s λ u.
          map-Ends (attempt-Adds ss args u) (λ _ t (es, p, k). (es, p, inr k))
            (λ _ t (es, p, k). (es, p, inr k)) (λ t (es, p, k). (es, p, inr k))
