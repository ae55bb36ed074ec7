-- ===== src/Kernel/Plancheck.antt =====
-- The admission of a plan before consent (`admit`, crates/portos-kernel/src/plancheck.rs). The walk
-- is a state that is passed on: labels of variables, and the admission so far. An expression changes
-- only the count of nodes, so that is all that its functions take and give.
pub mod Counted
pub mod Runs
pub mod Nodes
pub mod Limits
pub mod Effects
pub mod Sinks
use Prim.Native.Nat.{◌%◌}
use portos.Base.{
  ℕ, suc, ◌+◌, ◌*◌, ◌≤◌, ◌≡◌, refl, Bool, true, false, not, ◌&&◌, Option, none, some, List, [], ◌∷◌,
  ◌++◌, String, string_discrete, leb, if◌then◌else◌, arith,
}
use portos.Base.Maps.{Map, get, put}
use portos.Base.Sets.{is_empty}
use portos.Proto.Label.{Label, join, public_trusted}
use portos.Proto.Plan.{
  Expr, Exprs, observe, pure, const, var, index, more, Guard, exists, matches, cmp, and, or, Stmt,
  let_, effect, if_, foreach, Stmts, end, ◌⨾◌, Plan, Mode,
}

abbrev pub max_nodes : ℕ
max_nodes = 4096

abbrev pub max_depth : ℕ
max_depth = 16

abbrev pub s_max : ℕ
s_max = 100000

-- `u64::MAX`, and the operations on `u64` that stop there.
abbrev pub u64_max : ℕ
u64_max = 18446744073709551615

abbrev pub saturating : ℕ → ℕ
saturating n = if leb n u64_max then n else u64_max

-- An addition on `u64` that wraps.
unfoldable pub wrapping : ℕ → ℕ
wrapping n = n % suc u64_max

pub data AdmitError : Type 0 where
  too_large too_deep step_ceiling : ℕ → AdmitError
  unknown_verb unknown_var : String → AdmitError
  sink_denied : String → Label → AdmitError

infixl 5 ◌>>=◌ ◌>>◌
pub data Checked {ℓ} (A : Type ℓ) : Type ℓ where
  refused : AdmitError → Checked A
  admitted : A → Checked A

abbrev pub ◌>>=◌ {κ μ} : {X : Type κ} {Y : Type μ} → Checked X → (X → Checked Y) → Checked Y
refused why >>= next = refused why
admitted value >>= next = next value

abbrev pub ◌>>◌ {μ} : {Y : Type μ} → Checked (Unit {0}) → Checked Y → Checked Y
m >> rest = m >>= λ _. rest

abbrev pub demand : Bool → AdmitError → Checked (Unit {0})
demand true e = admitted tt
demand false e = refused e

abbrev pub or_refuse {ℓ} : {A : Type ℓ} → Option A → AdmitError → Checked A
or_refuse none e = refused e
or_refuse (some a) e = admitted a

pub record VerbSchemas : Type 0 where
  pub observe_labels : Map String Label
  pub external_effects : Map String Bool

pub record EffectAnn : Type 0 where
  pub verb : String
  pub effective : Label
  pub multiplier : ℕ

pub record Admission : Type 0 where
  pub budget : Map String ℕ
  pub effects : List EffectAnn
  pub worst_case_steps : ℕ
  pub node_count : ℕ

pub record Walk : Type 0 where
  pub env : Map String Label
  pub out : Admission

abbrev pub start_walk : Walk
start_walk = record {
  env = [];
  out = record { budget = []; effects = []; worst_case_steps = 0; node_count = 0 };
}

-- The amount of a verb in a budget: `entry(verb).or_insert(0)`.
abbrev pub amount : Option ℕ → ℕ
amount none = 0
amount (some n) = n

abbrev pub budget_of : String → Map String ℕ → ℕ
budget_of verb m = amount (get string_discrete verb m)

abbrev pub counted_nodes : ℕ → Walk → Walk
counted_nodes n w = record w { out = record w.out { node_count = n } }

abbrev pub bind_var : String → Label → ℕ → Walk → Walk
bind_var x l n w = record (counted_nodes n w) { env = put string_discrete x l w.env }

-- The start of a statement: a node, and its steps, which may not pass the ceiling.
unfoldable pub charge : ℕ → Walk → Checked Walk
charge mult w =
    let steps = saturating (w.out.worst_case_steps + mult) in
    demand (leb steps s_max) (step_ceiling steps)
    >> admitted (record w {
      out = record w.out { worst_case_steps = steps; node_count = wrapping (w.out.node_count + 1) };
    })

abbrev pub note_effect : String → Label → ℕ → ℕ → Walk → Walk
note_effect verb eff mult n w = record w {
  out = record w.out {
    budget = put string_discrete verb (wrapping (budget_of verb w.out.budget + mult)) w.out.budget;
    effects = w.out.effects ++ (record { verb = verb; effective = eff; multiplier = mult }) ∷ [];
    node_count = n;
  };
}

-- Confidential data may not reach an external effect.
abbrev pub sink_allows : Bool → Label → Bool
sink_allows external eff = not (external && not (is_empty eff.conf))

module _ {V : Type 0} (schemas : VerbSchemas) where
  -- `expr_label`, and the loop over arguments that joins their labels to one that is given.
  unfoldable mutual
    pub expr_label : Map String Label → ℕ → Expr V → Checked (Label × ℕ)
    expr_label env n (observe verb args) = do
      base ← or_refuse (get string_discrete verb schemas.observe_labels) (unknown_verb verb)
      args_label env base (wrapping (n + 1)) args
    expr_label env n (pure func args) = args_label env public_trusted (wrapping (n + 1)) args
    expr_label env n (const v) = admitted (public_trusted, wrapping (n + 1))
    expr_label env n (var name) = do
      l ← or_refuse (get string_discrete name env) (unknown_var name)
      admitted (l, wrapping (n + 1))
    expr_label env n (index base idx) = expr_label env (wrapping (n + 1)) base

    pub args_label : Map String Label → Label → ℕ → Exprs V → Checked (Label × ℕ)
    args_label env l n Exprs.none = admitted (l, n)
    args_label env l n (more e es) = do
      (le, n1) ← expr_label env n e
      args_label env (join l le) n1 es

  unfoldable pub guard_label : Map String Label → ℕ → Guard V → Checked (Label × ℕ)
  guard_label env n (exists e) = expr_label env n e
  guard_label env n (matches e regex) = expr_label env n e
  guard_label env n (cmp lhs op rhs) = do
    (a, n1) ← expr_label env n lhs
    (b, n2) ← expr_label env n1 rhs
    admitted (join a b, n2)
  guard_label env n (and l r) = do
    (a, n1) ← guard_label env n l
    (b, n2) ← guard_label env n1 r
    admitted (join a b, n2)
  guard_label env n (or l r) = do
    (a, n1) ← guard_label env n l
    (b, n2) ← guard_label env n1 r
    admitted (join a b, n2)
  guard_label env n (Guard.not g) = guard_label env n g

  unfoldable pub walk_effect : Walk → Label → ℕ → String → Exprs V → Checked Walk
  walk_effect w pc mult verb args = do
    external ← or_refuse (get string_discrete verb schemas.external_effects) (unknown_verb verb)
    (eff, n) ← args_label w.env pc w.out.node_count args
    demand (sink_allows external eff) (sink_denied verb eff)
    admitted (note_effect verb eff mult n w)

  -- `walk_stmts`: its check of the depth stands before the list of statements is walked.
  unfoldable mutual
    pub walk_stmt : Walk → Label → ℕ → ℕ → Stmt V → Checked Walk
    walk_stmt w pc mult depth (let_ x e) = do
      (l, n) ← expr_label w.env w.out.node_count e
      admitted (bind_var x l n w)
    walk_stmt w pc mult depth (effect verb args) = walk_effect w pc mult verb args
    walk_stmt w pc mult depth (if_ g then_ else_) = do
      (gl, n) ← guard_label w.env w.out.node_count g
      demand (leb (suc depth) max_depth) (too_deep (suc depth))
      w1 ← walk_list (counted_nodes n w) (join pc gl) mult (suc depth) then_
      walk_list w1 (join pc gl) mult (suc depth) else_
    walk_stmt w pc mult depth (foreach x list bound mode body) = do
      (ll, n) ← expr_label w.env w.out.node_count list
      demand (leb (suc depth) max_depth) (too_deep (suc depth))
      walk_list (bind_var x ll n w) (join pc ll) (saturating (mult * bound)) (suc depth) body

    pub walk_list : Walk → Label → ℕ → ℕ → Stmts V → Checked Walk
    walk_list w pc mult depth end = admitted w
    walk_list w pc mult depth (s ⨾ ss) = do
      w1 ← charge mult w
      w2 ← walk_stmt w1 pc mult depth s
      walk_list w2 pc mult depth ss

  unfoldable pub admit : Plan V → Checked Admission
  admit plan = do
    demand (leb 1 max_depth) (too_deep 1)
    w ← walk_list start_walk public_trusted 1 1 plan.stmts
    demand (leb w.out.node_count max_nodes) (too_large w.out.node_count)
    admitted w.out

pub bind-admitted {ℓ κ} :
    {A : Type ℓ} {B : Type κ} (m : Checked A) (f : A → Checked B) {b : B}
    → (m >>= f) ≡ admitted b
    → (a : A) × (m ≡ admitted a) × (f a ≡ admitted b)
bind-admitted (admitted a) f h = (a, refl, h)
bind-admitted (refused e) f h = cc

pub demand-admitted {ℓ} :
    {B : Type ℓ} (t : Bool) (e : AdmitError) (k : Checked B) {b : B}
    → (demand t e >> k) ≡ admitted b
    → (t ≡ true) × (k ≡ admitted b)
demand-admitted true e k h = (refl, h)
demand-admitted false e k h = cc

pub or_refuse-admitted {ℓ κ} :
    {A : Type ℓ} {B : Type κ} (o : Option A) (e : AdmitError) (f : A → Checked B) {b : B}
    → (or_refuse o e >>= f) ≡ admitted b
    → (a : A) × (o ≡ some a) × (f a ≡ admitted b)
or_refuse-admitted none e f h = cc
or_refuse-admitted (some a) e f h = (a, refl, h)

pub admitted-injective {ℓ} : {A : Type ℓ} {a b : A} → Checked.admitted a ≡ admitted b → a ≡ b
admitted-injective e = cc
