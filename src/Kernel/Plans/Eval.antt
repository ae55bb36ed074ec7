-- ===== src/Kernel/Plans/Eval.antt =====
-- The evaluation of expressions and guards with their labels
-- (crates/portos-kernel/src/plans/interpreter/eval.rs). Evaluation changes only the world that the
-- calls reach, so that is its state.
use Prim.Native.Nat.{Ordering}
use Prim.Native.String.{compare}
use portos.Base.{
  ℕ, zero, suc, Bool, true, false, not, ◌&&◌, ◌||◌, Option, none, some, List, [], ◌∷◌, ◌++◌, String,
  string_discrete,
}
use portos.Base.Maps.{Map, get}
use portos.Proto.Label.{Label, join, public_trusted}
use portos.Proto.Plan.{
  CmpOp, eq, ne, lt, le, gt, ge, Expr, Exprs, observe, pure, const, var, index, more, Guard, exists,
  matches, cmp, and, or,
}
use portos.Kernel.Plancheck.{VerbSchemas}
use portos.Kernel.Plans.{
  Failure, unknown_verb, unknown_var, invoke_failed, pure_failed, guard_regex, Outcome, fail_stop,
  Invoked, answered, budget_exhausted, no_capability, failed, Values, PlanRuntime,
}

-- How a step ends: with a value, with the outcome of the whole run, or suspended for good when no
-- signal comes any more.
pub data Exec (S A : Type 0) : Type 0 where
  done : A → S → Exec S A
  stopped : Outcome → S → Exec S A
  parked : S → Exec S A

abbrev pub continue : {S A B : Type 0} → Exec S A → (A → S → Exec S B) → Exec S B
continue (done a s) next = next a s
continue (stopped o s) next = stopped o s
continue (parked s) next = parked s

abbrev pub M : Type 0 → Type 0 → Type 0
M S A = S → Exec S A

infixl 5 ◌>>=◌ ◌>>◌
abbrev pub ◌>>=◌ : {S A B : Type 0} → M S A → (A → M S B) → M S B
◌>>=◌ m next s = continue (m s) next

abbrev pub ◌>>◌ : {S B : Type 0} → M S (Unit {0}) → M S B → M S B
m >> next = m >>= λ _. next

abbrev pub give : {S A : Type 0} → A → M S A
give a s = done a s

abbrev pub fail : {S A : Type 0} → Failure → M S A
fail why s = stopped (fail_stop why) s

abbrev pub or_fail : {S A : Type 0} → Option A → Failure → M S A
or_fail none why = fail why
or_fail (some a) why = give a

-- The element at an index, or none.
unfoldable pub get_elem? {ℓ} : {A : Type ℓ} → List A → ℕ → Option A
get_elem? [] i = none
get_elem? (x ∷ xs) zero = some x
get_elem? (x ∷ xs) (suc i) = get_elem? xs i

unfoldable pub cmp_holds : CmpOp → Ordering → Bool
cmp_holds eq Ordering.eq = true
cmp_holds eq o = false
cmp_holds ne Ordering.eq = false
cmp_holds ne o = true
cmp_holds lt Ordering.lt = true
cmp_holds lt o = false
cmp_holds le Ordering.gt = false
cmp_holds le o = true
cmp_holds gt Ordering.gt = true
cmp_holds gt o = false
cmp_holds ge Ordering.lt = false
cmp_holds ge o = true

unfoldable pub cmp_result : CmpOp → Option Ordering → Bool
cmp_result op none = false
cmp_result op (some o) = cmp_holds op o

module _ {V W : Type 0} (values : Values V) (runtime : PlanRuntime V W) where
  unfoldable pub cmp_texts : Option String → Option String → Option Ordering
  cmp_texts (some x) (some y) = some (compare x y)
  cmp_texts x y = none

  unfoldable pub cmp_values : V → V → Option Ordering
  unfolding cmp_texts
  cmp_values a b = elim (values.compare_numbers a b) [
    | some o ↦ o
    | none ↦ cmp_texts (values.as_str a) (values.as_str b)
  ]

  -- An invocation whose every error ends the run.
  unfoldable pub answer_or_fail : (String → Failure) → Invoked V → M W V
  answer_or_fail why (answered v) w = done v w
  answer_or_fail why budget_exhausted w = stopped (fail_stop (why "budget exhausted")) w
  answer_or_fail why no_capability w = stopped (fail_stop (why "no capability")) w
  answer_or_fail why (failed e) w = stopped (fail_stop (why e)) w

  unfoldable pub call_or_fail : String → String → (String → Failure) → V → M W V
  unfolding answer_or_fail
  call_or_fail fiber verb why args w =
      let (r, w') = runtime.invoke fiber verb args w in answer_or_fail why r w'

  -- A read with one argument passes it bare.
  abbrev pub observe_args : List V → V
  observe_args (v ∷ []) = v
  observe_args vals = values.array vals

  abbrev pub item_at : Option (List V) → ℕ → V
  item_at none i = values.null
  item_at (some vs) i = elim (get_elem? vs i) [ some v ↦ v | none ↦ values.null ]

  abbrev pub exists_value : V → Option (List V) → Bool
  exists_value v (some []) = false
  exists_value v (some (_ ∷ _)) = true
  exists_value v none = not (values.is_null v)

  abbrev pub matches_value : (String → Bool) → Option String → Bool
  matches_value re (some s) = re s
  matches_value re none = false

module _ {V W : Type 0} (values : Values V) (runtime : PlanRuntime V W) (schemas : VerbSchemas)
    (fiber : String) (env : Map String (V × Label)) where
  -- `eval`, with the loop over arguments that gathers values and joins labels to one given.
  unfoldable mutual
    pub eval : Expr V → M W (V × Label)
    eval (observe verb args) = do
      base ← or_fail (get string_discrete verb schemas.observe_labels) (unknown_verb verb)
      (vals, label) ← eval_args [] base args
      v ←
          call_or_fail values runtime fiber verb (invoke_failed verb)
            (observe_args values runtime vals)
      give (v, label)
    eval (pure func args) = do
      (vals, label) ← eval_args [] public_trusted args
      v ←
          call_or_fail values runtime fiber "compute::run" (pure_failed func)
            (values.compute_args func vals)
      give (v, label)
    eval (const v) = give (v, public_trusted)
    eval (var name) = or_fail (get string_discrete name env) (unknown_var name)
    eval (index base idx) = do
      (v, l) ← eval base
      give (item_at values runtime (values.as_array v) idx, l)

    pub eval_args : List V → Label → Exprs V → M W (List V × Label)
    eval_args vals label Exprs.none = give (vals, label)
    eval_args vals label (more e es) = do
      (v, l) ← eval e
      eval_args (vals ++ v ∷ []) (join label l) es

  unfoldable pub eval_guard : Guard V → M W (Bool × Label)
  eval_guard (exists e) = do
    (v, l) ← eval e
    give (exists_value values runtime v (values.as_array v), l)
  eval_guard (matches e pattern_text) = do
    (v, l) ← eval e
    re ← or_fail (values.regex pattern_text) (guard_regex pattern_text)
    give (matches_value values runtime re (values.as_str v), l)
  eval_guard (cmp lhs op rhs) = do
    (a, la) ← eval lhs
    (b, lb) ← eval rhs
    give (cmp_result op (cmp_values values runtime a b), join la lb)
  eval_guard (and l r) = do
    (a, la) ← eval_guard l
    (b, lb) ← eval_guard r
    give (a && b, join la lb)
  eval_guard (or l r) = do (a, la) ← eval_guard l; (b, lb) ← eval_guard r; give (a || b, join la lb)
  eval_guard (Guard.not g) = do (a, l) ← eval_guard g; give (not a, l)
