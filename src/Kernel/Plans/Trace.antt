-- ===== src/Kernel/Plans/Trace.antt =====
-- What a step of the interpreter adds to the events of its run, and the signals that it takes.
pub mod Steps
pub mod Effects
pub mod Execution
use portos.Base.{
  ◌≡◌, refl, sym, ap, ◌∙◌, subst, Bool, true, false, not, ◌&&◌, List, [], ◌∷◌, ◌++◌, append-nil,
  append_assoc, All, All-append, String, string_discrete, arith,
}
use portos.Base.Maps.{get}
use portos.Base.Sets.{is_empty}
use portos.Proto.Label.{Label, leq, leq_trans, leq_refl}
use portos.Kernel.Plancheck.{VerbSchemas}
use portos.Kernel.Plans.{Outcome, PlanRuntime}
use portos.Kernel.Plans.Control.{RunSignal, resume, abort}
use portos.Kernel.Plans.Ends.{Ends, continue-Ends, map-Ends}
use portos.Kernel.Plans.Eval.{Exec, continue}
use portos.Kernel.Plans.Store.{
  Event, performed, withheld, loop_truncated, truncated_at, paused, awaiting_approval, approved,
  finished, Run,
}
use portos.Kernel.Plans.Effects.{is_external}

-- The verb that an event tells to have taken effect, now or once it is approved.
abbrev pub verbs_of : Event → List String
verbs_of (performed v _ true) = v ∷ []
verbs_of (performed v _ false) = []
verbs_of (withheld v _) = v ∷ []
verbs_of (loop_truncated _) = []
verbs_of (truncated_at _ _) = []
verbs_of paused = []
verbs_of (awaiting_approval _) = []
verbs_of (approved _) = []
verbs_of (finished _) = []

unfoldable pub taken : List Event → List String
taken [] = []
taken (e ∷ es) = verbs_of e ++ taken es

pub taken-append : (xs ys : List Event) → taken (xs ++ ys) ≡ taken xs ++ taken ys
unfolding taken
taken-append [] ys = refl
taken-append (x ∷ xs) ys = rw (taken-append xs ys, append_assoc (verbs_of x) (taken xs) (taken ys))

abbrev pub IsAbort : RunSignal → Type 0
IsAbort (abort _) = Unit
IsAbort (resume _) = ⊥

abbrev pub IsResume : RunSignal → Type 0
IsResume (abort _) = ⊥
IsResume (resume _) = Unit

pub All-left {ℓ} : {A : Type ℓ} (P : A → Type 0) (xs ys : List A) → All P (xs ++ ys) → All P xs
All-left P [] ys h = tt
All-left P (x ∷ xs) ys h = (h.0, All-left P xs ys h.1)

All-right {ℓ} : {A : Type ℓ} (P : A → Type 0) (xs ys : List A) → All P (xs ++ ys) → All P ys
All-right P [] ys h = h
All-right P (x ∷ xs) ys h = All-right P xs ys h.1

module _ {V W : Type 0} (runtime : PlanRuntime V W) (schemas : VerbSchemas) where
  -- An effect may be told at a label: its own label is above that one, no confidential label goes to
  -- an external verb, and the policy at its arguments says whether it is withheld.
  pub record Allowed (pc : Label) (verb target : String) (withhold : Bool) : Type 0 where
    pub args : V
    pub label : Label
    pub world : W
    pub above : leq pc label ≡ true
    pub sink :
        (is_external (get string_discrete verb schemas.external_effects)
          && not (is_empty label.conf))
        ≡ false
    pub decided : (runtime.effect_policy verb args world).withhold ≡ withhold
    pub names : (runtime.effect_policy verb args world).target ≡ target

  abbrev pub Justified : Label → Event → Type 0
  Justified pc (performed v t true) = Allowed pc v t false
  Justified pc (performed v t false) = Allowed pc v t false
  Justified pc (withheld v t) = Allowed pc v t true
  Justified pc (loop_truncated _) = Unit
  Justified pc (truncated_at _ _) = Unit
  Justified pc paused = Unit
  Justified pc (awaiting_approval _) = Unit
  Justified pc (approved _) = Unit
  Justified pc (finished _) = Unit

  -- The state `t` comes from `s` by telling events, justified at `pc`, and taking signals; if none
  -- of these resumes, the trace of the events is in `R`.
  pub record Extends (R : List String → Type 0) (pc : Label) (s t : Run V W) : Type 0 where
    pub told : List Event
    pub signals_taken : List RunSignal
    pub tells : t.events ≡ s.events ++ told
    pub takes : s.signals ≡ signals_taken ++ t.signals
    pub justified : All (Justified pc) told
    pub traced : All IsAbort signals_taken → R (taken told)

  -- Where the run goes on, all signals were consents; where it stays suspended, none is left.
  pub record Goes (R : List String → Type 0) (pc : Label) (s t : Run V W) : Type 0 where
    pub extends : Extends R pc s t
    pub resumes : All IsResume extends.signals_taken

  pub record Waits (R : List String → Type 0) (pc : Label) (s t : Run V W) : Type 0 where
    pub goes : Goes R pc s t
    pub ended : t.signals ≡ []

  -- All ends of a step, with the trace of one that gives `a` in `R a`, and of the others in `R'`.
  abbrev pub Traced :
      {A : Type 0}
      → (A → List String → Type 0)
      → (List String → Type 0)
      → Label
      → Run V W
      → Exec (Run V W) A
      → Type 0
  Traced R R' pc s =
      Ends (λ a t. Goes (R a) pc s t) (λ _ t. Extends R' pc s t) (λ t. Waits R' pc s t)

  lower-Allowed :
      (pc pc' : Label) (v t : String) (b : Bool)
      → leq pc pc' ≡ true
      → Allowed pc' v t b
      → Allowed pc v t b
  lower-Allowed pc pc' v t b h a = record {
    args = a.args;
    label = a.label;
    world = a.world;
    above = leq_trans pc pc' a.label h a.above;
    sink = a.sink;
    decided = a.decided;
    names = a.names;
  }

  lower-Justified :
      (pc pc' : Label) (e : Event) → leq pc pc' ≡ true → Justified pc' e → Justified pc e
  lower-Justified pc pc' (performed v t true) h a = lower-Allowed pc pc' v t false h a
  lower-Justified pc pc' (performed v t false) h a = lower-Allowed pc pc' v t false h a
  lower-Justified pc pc' (withheld v t) h a = lower-Allowed pc pc' v t true h a
  lower-Justified pc pc' (loop_truncated _) h a = tt
  lower-Justified pc pc' (truncated_at _ _) h a = tt
  lower-Justified pc pc' paused h a = tt
  lower-Justified pc pc' (awaiting_approval _) h a = tt
  lower-Justified pc pc' (approved _) h a = tt
  lower-Justified pc pc' (finished _) h a = tt

  lower-All :
      (pc pc' : Label) (es : List Event)
      → leq pc pc' ≡ true
      → All (Justified pc') es
      → All (Justified pc) es
  lower-All pc pc' [] h a = tt
  lower-All pc pc' (e ∷ es) h a = (lower-Justified pc pc' e h a.0, lower-All pc pc' es h a.1)

  module _ {R R' : List String → Type 0} {pc pc' : Label} {s t : Run V W} where
    -- Weaker traces, at a lower label.
    pub weaken-Extends :
        leq pc pc' ≡ true
        → ((tr : List String) → R' tr → R tr)
        → Extends R' pc' s t
        → Extends R pc s t
    weaken-Extends h f x = record {
      told = x.told;
      signals_taken = x.signals_taken;
      tells = x.tells;
      takes = x.takes;
      justified = lower-All pc pc' x.told h x.justified;
      traced = λ a. f (taken x.told) (x.traced a);
    }

    pub weaken-Goes :
        leq pc pc' ≡ true → ((tr : List String) → R' tr → R tr) → Goes R' pc' s t → Goes R pc s t
    unfolding weaken-Extends
    weaken-Goes h f x = record { extends = weaken-Extends h f x.extends; resumes = x.resumes }

    pub weaken-Waits :
        leq pc pc' ≡ true → ((tr : List String) → R' tr → R tr) → Waits R' pc' s t → Waits R pc s t
    weaken-Waits h f x = record { goes = weaken-Goes h f x.goes; ended = x.ended }

  module _ {R1 R2 R : List String → Type 0} {pc : Label} {s t u : Run V W}
      (both : (tr us : List String) → R1 tr → R2 us → R (tr ++ us)) where
    -- One step after another.
    pub then-Extends : Extends R1 pc s t → Extends R2 pc t u → Extends R pc s u
    then-Extends x y = record {
      told = x.told ++ y.told;
      signals_taken = x.signals_taken ++ y.signals_taken;
      tells = y.tells ∙ ap (λ es. es ++ y.told) x.tells ∙ append_assoc s.events x.told y.told;
      takes =
          x.takes
          ∙ ap (λ ss. x.signals_taken ++ ss) y.takes
          ∙ sym (append_assoc x.signals_taken y.signals_taken u.signals);
      justified = All-append (Justified pc) x.told y.told x.justified y.justified;
      traced = λ a. subst R (sym (taken-append x.told y.told)) (
          both (taken x.told) (taken y.told)
            (x.traced (All-left IsAbort x.signals_taken y.signals_taken a))
            (y.traced (All-right IsAbort x.signals_taken y.signals_taken a)));
    }

    pub then-Goes : Goes R1 pc s t → Goes R2 pc t u → Goes R pc s u
    unfolding then-Extends
    then-Goes x y = record {
      extends = then-Extends x.extends y.extends;
      resumes =
          All-append IsResume x.extends.signals_taken y.extends.signals_taken x.resumes y.resumes;
    }

    pub then-Waits : Goes R1 pc s t → Waits R2 pc t u → Waits R pc s u
    then-Waits x y = record { goes = then-Goes x y.goes; ended = y.ended }

  -- A step that goes on, and then one with any end.
  pub then-Traced :
      {A : Type 0} {R1 R2' R' : List String → Type 0} {R2 R : A → List String → Type 0} {pc : Label}
      {s t : Run V W} {r : Exec (Run V W) A}
      → ((a : A) (tr us : List String) → R1 tr → R2 a us → R a (tr ++ us))
      → ((tr us : List String) → R1 tr → R2' us → R' (tr ++ us))
      → Goes R1 pc s t
      → Traced R2 R2' pc t r
      → Traced R R' pc s r
  then-Traced f f' g e =
      map-Ends e (λ a _ k. then-Goes (f a) g k) (λ _ _ k. then-Extends f' g.extends k)
        (λ _ k. then-Waits f' g k)

  -- A step that may end in any way, and the next.
  pub continue-Traced :
      {A B : Type 0} {R1 : A → List String → Type 0} {R1' R' : List String → Type 0}
      {R : B → List String → Type 0} {pc : Label} {s : Run V W} {r : Exec (Run V W) A}
      (next : A → Run V W → Exec (Run V W) B)
      → Traced R1 R1' pc s r
      → ((tr : List String) → R1' tr → R' tr)
      → ((a : A) (t : Run V W) → Goes (R1 a) pc s t → Traced R R' pc s (next a t))
      → Traced R R' pc s (continue r next)
  continue-Traced {pc = pc} next e f g =
      continue-Ends next e g (λ _ _ k. weaken-Extends (leq_refl pc) f k)
        (λ _ k. weaken-Waits (leq_refl pc) f k)

  -- Weaker traces, at a lower label.
  pub weaken-Traced :
      {A : Type 0} {R1 R : A → List String → Type 0} {R1' R' : List String → Type 0}
      {pc pc' : Label} {s : Run V W} {r : Exec (Run V W) A}
      → leq pc pc' ≡ true
      → ((a : A) (tr : List String) → R1 a tr → R a tr)
      → ((tr : List String) → R1' tr → R' tr)
      → Traced R1 R1' pc' s r
      → Traced R R' pc s r
  weaken-Traced h f f' e =
      map-Ends e (λ a _ k. weaken-Goes h (f a) k) (λ _ _ k. weaken-Extends h f' k)
        (λ _ k. weaken-Waits h f' k)
