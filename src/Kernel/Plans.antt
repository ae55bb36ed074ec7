-- ===== src/Kernel/Plans.antt =====
-- The service that runs plans (crates/portos-kernel/src/plans): the states and outcomes of a run
-- (plans/types.rs), and the interface to the host and to storage that it works through.
pub mod Control
pub mod Verbs
pub mod Eval
pub mod Ends
pub mod Store
pub mod Effects
pub mod Interpreter
pub mod Trace
pub mod Guarantees
pub mod Attempts
pub mod Told
pub mod Settlement
pub mod Consents
pub mod Approval
use Prim.Native.Nat.{Ordering}
use portos.Base.{ℕ, Bool, Option, List, String}
use portos.Base.Sets.{StringSet}
use portos.Proto.Cap.{Constraints}
use portos.Kernel.Plancheck.{VerbSchemas}

-- Why the host does not perform an effect of an approved batch.
pub data Refusal : Type 0 where
  no_budget no_grant : Refusal
  told : String → Refusal

-- Why a run stops: the text that the source formats, as data.
pub data Failure : Type 0 where
  foreach_bound : ℕ → ℕ → Failure
  sink_denied buffer_write_failed budget_exhausted unknown_verb unknown_var : String → Failure
  invoke_failed pure_failed : String → String → Failure
  guard_regex : String → Failure
  resume_mint_failed : Failure
  release_failed : String → Refusal → Failure

pub data Outcome : Type 0 where
  completed : Outcome
  fail_stop : Failure → Outcome
  truncated : ℕ → Outcome
  aborted : Bool → Outcome

pub data RunState : Type 0 where
  admitted running awaiting_approval paused done : RunState

pub data BufferState : Type 0 where
  held inserted aborted : BufferState

pub record EffectPolicy : Type 0 where
  pub target : String
  pub withhold : Bool

-- The answer to an invocation. The run tells apart only the two errors that a new consent mends.
pub data Invoked (V : Type 0) : Type 0 where
  answered : V → Invoked V
  budget_exhausted no_capability : Invoked V
  failed : String → Invoked V

-- What the run uses of JSON values (`serde_json::Value`) and of regular expressions (`regex`). A
-- number is compared as a float, which may be neither above, below nor equal.
pub record Values (V : Type 0) : Type 0 where
  pub null : V
  pub array : List V → V
  pub as_array : V → Option (List V)
  pub is_null : V → Bool
  pub is_object : V → Bool
  pub as_str : V → Option String
  pub compare_numbers : V → V → Option (Option Ordering)
  pub compute_args : String → List V → V
  pub regex : String → Option (String → Bool)

-- What a run calls: the trait `PlanRuntime` (plans/runtime.rs), the minting of capabilities, the
-- ledger's transfer and the database. `W` is their state; `write` tells whether a write succeeds.
pub record PlanRuntime (V W : Type 0) : Type 0 where
  pub schemas : W → VerbSchemas
  pub effect_policy : String → V → W → EffectPolicy
  pub invoke : String → String → V → W → Invoked V × W
  pub teardown_segment : String → W → W
  pub mint : String → String → StringSet → Constraints → W → Bool × W
  pub transfer_all : String → String → W → Option ℕ × W
  pub write : W → Bool × W
