-- ===== src/Kernel/Plans/Told.antt =====
-- What one effect statement tells of (`exec_effect`,
-- crates/portos-kernel/src/plans/interpreter.rs): an independent description, decided by the values
-- and the label of its arguments where it runs, by the schemas and by the policy of its handler.
use portos.Base.{ℕ, ◌≡◌, Bool, true, false, List, [], ◌∷◌, String, string_discrete}
use portos.Base.Maps.{get}
use portos.Base.Sets.{is_empty}
use portos.Proto.Label.{Label, leq}
use portos.Proto.Plan.{Exprs}
use portos.Kernel.Plancheck.{VerbSchemas}
use portos.Kernel.Plans.{Values, PlanRuntime}
use portos.Kernel.Plans.Eval.{done, eval_args}
use portos.Kernel.Plans.Ends.{Ends}
use portos.Kernel.Plans.Store.{Event, withheld, Run, in_world, push_buffer}
use portos.Kernel.Plans.Effects.{is_external, effect_args}
use portos.Kernel.Plans.Attempts.{Attempts}

module _ {V W : Type 0} (runtime : PlanRuntime V W) (schemas : VerbSchemas) (verb : String) where
  -- The verb is external, and the label confidential.
  abbrev pub Leaks : Label → Type 0
  Leaks label =
      (is_external (get string_discrete verb schemas.external_effects) ≡ true)
      × (is_empty label.conf ≡ false)

  -- What an effect tells of once its arguments are known: nothing where it would leak, that it is
  -- withheld where the policy says so for these arguments, and its attempts otherwise. The run goes on
  -- if the effect is withheld or takes place.
  pub data Decided (remaining : ℕ) (args : V) (label : Label) (s : Run V W)
      : Bool → List Event → Type 0 where
    denied : Leaks label → Decided remaining args label s false []
    held_back :
        ¬ Leaks label
        → (runtime.effect_policy verb args s.world).withhold ≡ true
        → (push_buffer runtime verb (runtime.effect_policy verb args s.world).target args 1 s).0
          ≡ true
        → Decided remaining args label s true
            (withheld verb (runtime.effect_policy verb args s.world).target ∷ [])
    not_written :
        ¬ Leaks label
        → (runtime.effect_policy verb args s.world).withhold ≡ true
        → (push_buffer runtime verb (runtime.effect_policy verb args s.world).target args 1 s).0
          ≡ false
        → Decided remaining args label s false []
    attempted :
        {b : Bool} {es : List Event}
        → ¬ Leaks label
        → (runtime.effect_policy verb args s.world).withhold ≡ false
        → Attempts verb (runtime.effect_policy verb args s.world).target remaining b es
        → Decided remaining args label s b es

module _ {V W : Type 0} (values : Values V) (runtime : PlanRuntime V W) (schemas : VerbSchemas)
    (fiber verb : String) (exprs : Exprs V) (pc : Label) (remaining : ℕ) where
  -- What an effect statement tells of: nothing where its arguments fail to evaluate, and otherwise
  -- what is decided for their values and their label, which is not below the one of control.
  pub data EffectTells (s : Run V W) : Bool → List Event → Type 0 where
    unevaluated :
        ((vl : List V × Label) (w : W)
          → ¬ (eval_args values runtime schemas fiber s.env [] pc exprs s.world ≡ done vl w))
        → EffectTells s false []
    evaluated :
        {b : Bool} {es : List Event} (vals : List V) (label : Label) (w : W)
        → eval_args values runtime schemas fiber s.env [] pc exprs s.world ≡ done (vals, label) w
        → leq pc label ≡ true
        → Decided runtime schemas verb remaining (effect_args values vals) label (in_world w s) b es
        → EffectTells s b es
