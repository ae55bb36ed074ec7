-- ===== src/Kernel/Plans/Ends.antt =====
-- How steps of the interpreter end, with a statement for each of the ways; and that evaluation is
-- never suspended and only raises labels.
use portos.Base.{
  ◌≡◌, refl, Bool, true, false, if◌then◌else◌, Option, none, some, List, ◌∷◌, [], ◌++◌, String,
  string_discrete,
}
use portos.Base.Maps.{Map, get}
use portos.Proto.Label.{Label, leq, join, leq-join_left, leq_trans, leq_refl, public_trusted}
use portos.Proto.Plan.{
  Expr, Exprs, observe, pure, const, var, index, more, Guard, exists, matches, cmp, and, or,
}
use portos.Kernel.Plancheck.{VerbSchemas}
use portos.Kernel.Plans.{
  Outcome, Failure, Values, PlanRuntime, Invoked, answered, budget_exhausted, no_capability, failed,
}
use portos.Kernel.Plans.Eval.{
  Exec, done, stopped, parked, continue, or_fail, eval, eval_args, eval_guard, call_or_fail,
  answer_or_fail,
}

pub data Ends {S A : Type 0} (D : A → S → Type 0) (O : Outcome → S → Type 0) (P : S → Type 0)
    : Exec S A → Type 0 where
  finishes : {a : A} {s : S} → D a s → Ends D O P (done a s)
  stops : {o : Outcome} {s : S} → O o s → Ends D O P (stopped o s)
  waits : {s : S} → P s → Ends D O P (parked s)

module _ {S A B : Type 0} where
  -- A step and then the next: what the first shows of its end serves for the second.
  pub continue-Ends :
      {D : A → S → Type 0} {O : Outcome → S → Type 0} {P : S → Type 0} {D' : B → S → Type 0}
      {O' : Outcome → S → Type 0} {P' : S → Type 0} {r : Exec S A} (f : A → S → Exec S B)
      → Ends D O P r
      → ((a : A) (s : S) → D a s → Ends D' O' P' (f a s))
      → ((o : Outcome) (s : S) → O o s → O' o s)
      → ((s : S) → P s → P' s)
      → Ends D' O' P' (continue r f)
  continue-Ends f (finishes d) next o p = next _ _ d
  continue-Ends f (stops e) next o p = stops (o _ _ e)
  continue-Ends f (waits e) next o p = waits (p _ e)

module _ {S A : Type 0} where
  pub map-Ends :
      {D D' : A → S → Type 0} {O O' : Outcome → S → Type 0} {P P' : S → Type 0} {r : Exec S A}
      → Ends D O P r
      → ((a : A) (s : S) → D a s → D' a s)
      → ((o : Outcome) (s : S) → O o s → O' o s)
      → ((s : S) → P s → P' s)
      → Ends D' O' P' r
  map-Ends (finishes h) d o p = finishes (d _ _ h)
  map-Ends (stops h) d o p = stops (o _ _ h)
  map-Ends (waits h) d o p = waits (p _ h)

-- The step is not suspended, and a value that it gives satisfies `D`.
abbrev pub Gives : {S A : Type 0} → (A → Type 0) → Exec S A → Type 0
Gives D = Ends (λ a _. D a) (λ _ _. Unit {0}) (λ _. ⊥)

module _ {S A : Type 0} {D : A → Type 0} where
  pub continue-Gives :
      {X : Type 0} {E : X → Type 0} {r : Exec S X} (f : X → S → Exec S A)
      → Gives E r
      → ((x : X) (s : S) → E x → Gives D (f x s))
      → Gives D (continue r f)
  continue-Gives f e next = continue-Ends f e next (λ _ _ _. tt) (λ _ h. h)

  or_fail-Gives :
      (o : Option A) (why : Failure) (s : S) → ((a : A) → D a) → Gives {S = S} D (or_fail o why s)
  or_fail-Gives none why s h = stops tt
  or_fail-Gives (some a) why s h = finishes (h a)

-- What is above a join is above its first part.
above-Gives :
    {S A : Type 0} (a b : Label) {r : Exec S (A × Label)}
    → Gives (λ x. leq (join a b) x.1 ≡ true) r
    → Gives (λ x. leq a x.1 ≡ true) r
above-Gives a b e =
    map-Ends e (λ x _ h. leq_trans a (join a b) x.1 (leq-join_left a b) h) (λ _ _ h. h) (λ _ h. h)

module _ {S A : Type 0} {D : A → S → Type 0} {O : Outcome → S → Type 0} {P : S → Type 0} where
  pub if-Ends :
      (b : Bool) (x y : Exec S A)
      → (b ≡ true → Ends D O P x)
      → (b ≡ false → Ends D O P y)
      → Ends D O P (if b then x else y)
  if-Ends true x y t e = t refl
  if-Ends false x y t e = e refl

module _ {V W : Type 0} (values : Values V) (runtime : PlanRuntime V W) where
  answer-Gives :
      (why : String → Failure) (r : Invoked V) (w : W)
      → Gives (λ _. Unit {0}) (answer_or_fail values runtime why r w)
  unfolding answer_or_fail
  answer-Gives why (answered v) w = finishes tt
  answer-Gives why budget_exhausted w = stops tt
  answer-Gives why no_capability w = stops tt
  answer-Gives why (failed e) w = stops tt

  call-Gives :
      (fiber verb : String) (why : String → Failure) (args : V) (w : W)
      → Gives (λ _. Unit {0}) (call_or_fail values runtime fiber verb why args w)
  unfolding call_or_fail
  call-Gives fiber verb why args w =
      let (r, w') = runtime.invoke fiber verb args w in answer-Gives why r w'

  module _ (schemas : VerbSchemas) (fiber : String) (env : Map String (V × Label)) where
    mutual
      unfolding eval

      pub eval-Gives :
          (e : Expr V) (w : W) → Gives (λ _. Unit {0}) (eval values runtime schemas fiber env e w)
      eval-Gives (observe verb args) w =
          continue-Gives _
            (or_fail-Gives {D = λ _. Unit {0}} (get string_discrete verb schemas.observe_labels) _ w
              (λ _. tt))
            λ base w1 _.
              continue-Gives _ (eval_args-Gives [] base args w1)
                λ vl w2 _. continue-Gives _ (call-Gives fiber verb _ _ w2) λ v w3 _. finishes tt
      eval-Gives (pure func args) w =
          continue-Gives _ (eval_args-Gives [] public_trusted args w) λ vl w2 _.
            continue-Gives _ (call-Gives fiber "compute::run" _ _ w2) λ v w3 _. finishes tt
      eval-Gives (const v) w = finishes tt
      eval-Gives (var name) w = or_fail-Gives (get string_discrete name env) _ w (λ _. tt)
      eval-Gives (index base idx) w = continue-Gives _ (eval-Gives base w) λ vl w1 _. finishes tt

      -- The label of arguments is above the label that they start from.
      pub eval_args-Gives :
          (vals : List V) (label : Label) (es : Exprs V) (w : W)
          → Gives
              (λ (r : List V × Label). leq label r.1 ≡ true)
              (eval_args values runtime schemas fiber env vals label es w)
      eval_args-Gives vals label Exprs.none w = finishes (leq_refl label)
      eval_args-Gives vals label (more e es) w = continue-Gives _ (eval-Gives e w) λ vl w1 _.
          above-Gives label vl.1 (eval_args-Gives (vals ++ vl.0 ∷ []) (join label vl.1) es w1)

    pub eval_guard-Gives :
        (g : Guard V) (w : W)
        → Gives (λ _. Unit {0}) (eval_guard values runtime schemas fiber env g w)
    unfolding eval_guard
    eval_guard-Gives (exists e) w = continue-Gives _ (eval-Gives e w) λ vl w1 _. finishes tt
    eval_guard-Gives (matches e t) w = continue-Gives _ (eval-Gives e w) λ vl w1 _.
        continue-Gives _ (or_fail-Gives {D = λ _. Unit {0}} (values.regex t) _ w1 (λ _. tt))
          λ re w2 _. finishes tt
    eval_guard-Gives (cmp lhs op rhs) w =
        continue-Gives _ (eval-Gives lhs w)
          λ a w1 _. continue-Gives _ (eval-Gives rhs w1) λ b w2 _. finishes tt
    eval_guard-Gives (and l r) w =
        continue-Gives _ (eval_guard-Gives l w)
          λ a w1 _. continue-Gives _ (eval_guard-Gives r w1) λ b w2 _. finishes tt
    eval_guard-Gives (or l r) w =
        continue-Gives _ (eval_guard-Gives l w)
          λ a w1 _. continue-Gives _ (eval_guard-Gives r w1) λ b w2 _. finishes tt
    eval_guard-Gives (Guard.not g) w = continue-Gives _ (eval_guard-Gives g w) λ a w1 _. finishes tt
