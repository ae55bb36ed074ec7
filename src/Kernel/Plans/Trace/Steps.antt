-- ===== src/Kernel/Plans/Trace/Steps.antt =====
-- The traces of the single steps: suspension, the items of a loop, and effects.
use portos.Base.{
  some, ℕ, zero, suc, ◌-◌, ◌≤◌, ◌≡◌, refl, sym, subst, ap, ◌∙◌, Bool, true, false, List, [], ◌∷◌,
  ◌++◌, append-nil, String, ltb, length, arith,
}
use portos.Base.Maps.{Map}
use portos.Base.Sets.{of_list}
use portos.Proto.Label.{Label, leq_refl}
use portos.Proto.Plan.{Mode, strict, truncate, escalate}
use portos.Kernel.Plancheck.{VerbSchemas}
use portos.Kernel.Plans.{RunState, PlanRuntime}
use portos.Kernel.Plans.Control.{ConsentRecord, RunSignal, resume, abort}
use portos.Kernel.Plans.Verbs.{Family}
use portos.Kernel.Plans.Eval.{Exec, done, stopped, parked, M}
use portos.Kernel.Plans.Ends.{Ends, finishes, stops, waits, continue-Ends, map-Ends, Gives, if-Ends}
use portos.Kernel.Plans.Store.{
  Event, loop_truncated, Run, in_world, emit, set_state, push_buffer, log_emission,
}
use portos.Kernel.Plans.Effects.{
  take, on_world, if_minted, mint_all, resumed, on_signal, park_for_resume, over_bound, take_items,
}
use portos.Kernel.Plans.Trace.{
  taken, verbs_of, IsAbort, Justified, Extends, Goes, Waits, Traced, then-Traced, weaken-Goes,
}

abbrev pub Silent : List String → Type 0
Silent tr = tr ≡ []

abbrev pub Never : List String → Type 0
Never tr = ⊥

module _ {V W : Type 0} (runtime : PlanRuntime V W) (schemas : VerbSchemas) (pc : Label) where
  -- A step that tells nothing, and one that tells one event.
  pub quiet :
      {R : List String → Type 0} (s t : Run V W)
      → t.events ≡ s.events
      → t.signals ≡ s.signals
      → R []
      → Goes runtime schemas R pc s t
  unfolding taken
  quiet s t e g r = record {
    extends = record {
      told = [];
      signals_taken = [];
      tells = e ∙ sym (append-nil s.events);
      takes = sym g;
      justified = tt;
      traced = λ _. r;
    };
    resumes = tt;
  }

  -- A silent step does not change the trace of the next.
  pub quietly :
      {A : Type 0} {R : A → List String → Type 0} {R' : List String → Type 0} {s t : Run V W}
      {r : Exec (Run V W) A}
      → Goes runtime schemas Silent pc s t
      → Traced runtime schemas R R' pc t r
      → Traced runtime schemas R R' pc s r
  quietly {R = R} {R' = R'} =
      then-Traced runtime schemas (λ a tr us p r. subst (λ t. R a (t ++ us)) (sym p) r)
        (λ tr us p r. subst (λ t. R' (t ++ us)) (sym p) r)

  pub tells_one :
      {R : List String → Type 0} (e : Event) (s t : Run V W)
      → t.events ≡ s.events ++ e ∷ []
      → t.signals ≡ s.signals
      → Justified runtime schemas pc e
      → R (verbs_of e ++ [])
      → Goes runtime schemas R pc s t
  unfolding taken
  tells_one e s t p g j r = record {
    extends = record {
      told = e ∷ [];
      signals_taken = [];
      tells = p;
      takes = sym g;
      justified = (j, tt);
      traced = λ _. r;
    };
    resumes = tt;
  }

  pub on_world-Traced :
      {A : Type 0} {D : A → Type 0} (m : M W A) (s : Run V W)
      → Gives D (m s.world)
      → Ends
          (λ a t. D a × Goes runtime schemas Silent pc s t)
          (λ _ t. Extends runtime schemas Silent pc s t)
          (λ _. ⊥)
          (on_world m s)
  unfolding on_world
  on_world-Traced {A} {D} m s h = from_world (m s.world) h
    where
      from_world :
          (r : Exec W A)
          → Gives D r
          → Ends
              (λ a t. D a × Goes runtime schemas Silent pc s t)
              (λ _ t. Extends runtime schemas Silent pc s t)
              (λ _. ⊥)
              (elim r [
                | Exec.done a w ↦ Exec.done a (in_world w s)
                | Exec.stopped o w ↦ Exec.stopped o (in_world w s)
                | Exec.parked w ↦ Exec.parked (in_world w s)
              ])
      from_world (done a w) (finishes d) = finishes (d, quiet s _ refl refl refl)
      from_world (stopped o w) (stops _) = stops (quiet s (in_world w s) refl refl refl).extends
      from_world (parked w) (waits h) = absurd h

  -- A step that leaves the events and the signals.
  abbrev pub Keeps : Run V W → Run V W → Type 0
  Keeps s t = (t.events ≡ s.events) × (t.signals ≡ s.signals)

  pub set_state-Keeps : (st : RunState) (s : Run V W) → Keeps s (set_state runtime st s)
  unfolding set_state
  set_state-Keeps st s = (ground arith, ground arith)

  pub log_emission-Keeps :
      (n : ℕ) (v t nonce : String) (s : Run V W) → Keeps s (log_emission runtime n v t nonce s)
  unfolding log_emission
  log_emission-Keeps n v t nonce s = (ground arith, ground arith)

  pub push_buffer-Keeps :
      (v t : String) (a : V) (c : ℕ) (s : Run V W) → Keeps s (push_buffer runtime v t a c s).1
  unfolding push_buffer
  push_buffer-Keeps v t a c s = (ground arith, ground arith)

  -- The end of a step that leaves the events and the signals, and is not suspended.
  abbrev pub AlwaysKeeps : Run V W → Exec (Run V W) (Unit {0}) → Type 0
  AlwaysKeeps s = Ends (λ _ t. Keeps s t) (λ _ t. Keeps s t) (λ _. ⊥)

  if_minted-Keeps :
      (fiber : String) (b : Bool) (next : M (Run V W) (Unit {0})) (s : Run V W)
      → AlwaysKeeps s (next s)
      → AlwaysKeeps s (if_minted runtime fiber b next s)
  unfolding if_minted
  if_minted-Keeps fiber true next s h = h
  if_minted-Keeps fiber false next s h = stops (refl, refl)

  mint_all-Keeps :
      (fiber : String) (ttl : ℕ) (fs : Map String Family) (s : Run V W)
      → AlwaysKeeps s (mint_all runtime fiber ttl fs s)
  unfolding mint_all
  mint_all-Keeps fiber ttl [] s = finishes (refl, refl)
  mint_all-Keeps fiber ttl ((f, (vs, cs)) ∷ fs) s =
      let (b, w) =
        runtime.mint fiber (Prim.Native.String.◌++◌ "driver:" f) (of_list vs)
          (record { expires_at = some ttl; counts = cs }) s.world in
      if_minted-Keeps fiber b (mint_all runtime fiber ttl fs) (in_world w s)
        (mint_all-Keeps fiber ttl fs (in_world w s))

  pub resumed-Keeps :
      (fiber : String) (c : ConsentRecord) (s : Run V W) → AlwaysKeeps s (resumed runtime fiber c s)
  unfolding resumed
  resumed-Keeps fiber c s =
      continue-Ends _ (mint_all-Keeps fiber _ _ s)
        (λ _ t k.
          let (e, g) = set_state-Keeps RunState.running (record t { active_nonce = c.nonce }) in
          finishes (e ∙ k.0, g ∙ k.1))
        (λ _ _ k. k) (λ _ h. h)

  -- The signal that a suspended run takes: what `s` had is `t` with that signal before it.
  abbrev pub TakesOne : Run V W → Run V W → Type 0
  TakesOne s t = (c : RunSignal) × (s.signals ≡ c ∷ t.signals)

  paused_by :
      {R : List String → Type 0} (c : RunSignal) (s t : Run V W)
      → t.events ≡ s.events ++ Event.paused ∷ []
      → s.signals ≡ c ∷ t.signals
      → (IsAbort c → R [])
      → Extends runtime schemas R pc s t
  unfolding taken
  paused_by c s t e g r = record {
    told = Event.paused ∷ [];
    signals_taken = c ∷ [];
    tells = e;
    takes = g;
    justified = (tt, tt);
    traced = λ a. r a.0;
  }

  -- How a suspension ends: a consent resumes, an abort stops the run, or no signal is left.
  abbrev pub Suspends : Run V W → Exec (Run V W) (Unit {0}) → Type 0
  Suspends s =
      Ends (λ _ u. Goes runtime schemas Never pc s u × TakesOne s u)
        (λ _ u. Extends runtime schemas Silent pc s u) (λ u. Waits runtime schemas Silent pc s u)

  on_signal-Traced :
      (fiber : String) (ss : List RunSignal) (s t : Run V W)
      → s.signals ≡ ss
      → t.events ≡ s.events ++ Event.paused ∷ []
      → t.signals ≡ ss
      → Suspends s (on_signal runtime fiber ss t)
  unfolding on_signal paused_by
  on_signal-Traced fiber [] s t p e g =
      waits (record { goes = tells_one Event.paused s t e (g ∙ sym p) tt refl; ended = g })
  on_signal-Traced fiber (abort x ∷ ss) s t p e g =
      stops (paused_by (abort x) s (record t { signals = ss }) e p (λ _. refl))
  on_signal-Traced fiber (resume c ∷ ss) s t p e g =
      map-Ends (resumed-Keeps fiber c (record t { signals = ss }))
        (λ _ u k. (
          record {
            extends =
                paused_by (resume c) s u (k.0 ∙ e) (p ∙ ap (λ ts. resume c ∷ ts) (sym k.1))
                  (λ a. a);
            resumes = (tt, tt);
          },
          (resume c, p ∙ ap (λ ts. resume c ∷ ts) (sym k.1)),
        ))
        (λ _ u k.
          paused_by (resume c) s u (k.0 ∙ e) (p ∙ ap (λ ts. resume c ∷ ts) (sym k.1))
            (λ a. absurd a))
        (λ _ h. absurd h)

  pub park-Traced : (fiber : String) (s : Run V W) → Suspends s (park_for_resume runtime fiber s)
  unfolding park_for_resume emit
  park-Traced fiber s =
      let (e, g) = set_state-Keeps RunState.paused s in
      on_signal-Traced fiber (set_state runtime RunState.paused s).signals s
        (emit Event.paused (set_state runtime RunState.paused s)) (sym g)
        (ap (λ es. es ++ Event.paused ∷ []) e) refl

  length-take : {A : Type 0} (n : ℕ) (xs : List A) → length (take n xs) ≤ n
  unfolding take
  length-take n [] = omega arith
  length-take zero (x ∷ xs) = omega arith
  length-take (suc n) (x ∷ xs) = omega (arith, length-take n xs)

  -- The items of a loop are at most the bound, unless a consent resumed it.
  abbrev pub Within : ℕ → List V → List String → Type 0
  Within bound items tr = (tr ≡ []) × (length items ≤ bound)

  over_bound-Traced :
      (fiber : String) (m : Mode) (bound : ℕ) (items : List V) (s : Run V W)
      → Traced runtime schemas (Within bound) Silent pc s (over_bound runtime fiber m bound items s)
  unfolding over_bound emit
  over_bound-Traced fiber strict bound items s = stops (quiet s s refl refl refl).extends
  over_bound-Traced fiber truncate bound items s = finishes (
      tells_one (loop_truncated (length items - bound)) s
        (emit (loop_truncated (length items - bound)) s) refl refl tt
        (refl, length-take bound items))
  over_bound-Traced fiber escalate bound items s =
      continue-Ends (λ _ t. done items t) (park-Traced fiber s)
        (λ _ t h. finishes (weaken-Goes runtime schemas (leq_refl pc) (λ tr n. absurd n) h.0))
        (λ _ _ h. h) (λ _ h. h)

  pub take_items-Traced :
      (fiber : String) (m : Mode) (bound : ℕ) (items : List V) (s : Run V W)
      → Traced runtime schemas (Within bound) Silent pc s (take_items runtime fiber bound m items s)
  unfolding take_items
  take_items-Traced fiber m bound items s =
      if-Ends (ltb bound (length items)) (over_bound runtime fiber m bound items s)
        (Exec.done items s) (λ _. over_bound-Traced fiber m bound items s)
        (λ e. finishes (quiet s s refl refl (refl, ground arith)))
