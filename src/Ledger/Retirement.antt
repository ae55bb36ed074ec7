-- ===== src/Ledger/Retirement.antt =====
-- Retirement tasks (crates/portos-rm/src/ledger/cleanup.rs): a holding that needs cleanup keeps
-- occupying its pool until a worker has confirmed that the resource is gone.
use portos.Base.{
  ℕ, ◌+◌, Bool, true, false, not, ◌&&◌, ◌||◌, Option, none, some, List, test, ltb, ℕ_discrete,
  if◌then◌else◌,
}
use portos.Base.Maps.{Map, get, put}
use portos.Errors.{Result, ok, err, LedgerError, require, or_err, ◌>>◌, ◌>>=◌}
use portos.Identity.{HoldingId, ResourceKey, i64_limit}
use portos.Time.{Timestamp}
use portos.Cleanup.{
  CleanupId, CleanupTarget, CleanupTarget-discrete, CleanupRecord, CleanupRecord-discrete,
  CleanupState, CleanupOutcome, Completion, HostWitness, HoldingState, HoldingState-discrete,
  is_done, is_running,
}
use portos.Ledger.{Ledger, Holding, RevertGrade, key_of, resolve, class_of, update, has_child}

-- A claimed attempt.
pub record CleanupWork : Type 0 where
  pub task : CleanupRecord
  pub target : CleanupTarget
  pub resource : ResourceKey
  pub grade : RevertGrade

-- The next number of attempts, which SQLite's INTEGER must hold.
unfoldable pub next_attempt : ℕ → Result ℕ
next_attempt n = if ltb (n + 1) i64_limit then ok (n + 1) else err LedgerError.out_of_range

-- The state that an outcome leaves a task in.
abbrev pub state_after : CleanupOutcome → CleanupState
state_after CleanupOutcome.confirmed = CleanupState.done Completion.confirmed
state_after CleanupOutcome.already_absent = CleanupState.done Completion.already_absent
state_after (CleanupOutcome.retryable s) = CleanupState.retryable s
state_after (CleanupOutcome.unknown s) = CleanupState.unknown s
state_after (CleanupOutcome.blocked s) = CleanupState.blocked s

-- A new task: missing evidence blocks it from the start.
abbrev pub first_state : CleanupTarget → CleanupState
first_state (CleanupTarget.unresolved _ reason) = CleanupState.blocked reason
first_state _ = CleanupState.pending

module _ {Q : Type 0} where
  unfoldable pub task_of : Ledger Q → CleanupId → LedgerError → Result CleanupRecord
  task_of l id e = or_err (get ℕ_discrete id l.cleanups) e

  abbrev pub put_task : Ledger Q → CleanupId → CleanupRecord → Map CleanupId CleanupRecord
  put_task l id t = put ℕ_discrete id t l.cleanups

  -- The class is read without a check in the source: the invariant gives it.
  unfoldable pub start_attempt :
      Ledger Q
      → CleanupId
      → CleanupRecord
      → Holding Q
      → HostWitness
      → Timestamp
      → Result (Ledger Q × Option CleanupWork)
  unfolding next_attempt
  start_attempt l id task h worker now = do
    decl ← class_of l h.class_id
    attempts ← next_attempt task.attempts
    let t = record task {
      attempts = attempts;
      state = CleanupState.running worker;
      updated_at = now;
    }
    let work : CleanupWork = record {
      task = t;
      target = h.target;
      resource = key_of h;
      grade = decl.revert_grade;
    }
    ok (record l { cleanups = put_task l id t }, some work)

  unfoldable pub claim_idle :
      Ledger Q
      → CleanupId
      → CleanupRecord
      → HostWitness
      → Timestamp
      → Result (Ledger Q × Option CleanupWork)
  unfolding start_attempt
  claim_idle l id task worker now = do
    h ← resolve l task.holding
    require (test (HoldingState-discrete h.state (HoldingState.retiring id)))
        LedgerError.invalid_cleanup
    elim (has_child l h.id) [ true ↦ ok (l, none) | false ↦ start_attempt l id task h worker now ]

  -- A task is claimed unless it runs, is done, or waits for an occupying child.
  unfoldable pub claim_cleanup :
      Ledger Q → CleanupId → HostWitness → Timestamp → Result (Ledger Q × Option CleanupWork)
  unfolding claim_idle
  claim_cleanup l id worker now = do
    task ← task_of l id LedgerError.invalid_cleanup
    elim (is_running task.state || is_done task.state) [
      | true ↦ ok (l, none)
      | false ↦ claim_idle l id task worker now
    ]

  -- Only a finished cleanup retires the holding.
  abbrev pub retired_if : Bool → HoldingId → Timestamp → List (Holding Q) → List (Holding Q)
  retired_if true id now hs = update id (λ h. record h { state = HoldingState.retired now }) hs
  retired_if false id now hs = hs

  unfoldable pub finish_cleanup :
      Ledger Q → CleanupWork → CleanupOutcome → Timestamp → Result (Ledger Q)
  finish_cleanup l work outcome now = do
    task ← task_of l work.task.id LedgerError.stale_attempt
    require (test (CleanupRecord-discrete task work.task) && is_running task.state)
        LedgerError.stale_attempt
    h ← resolve l task.holding
    require
        (test (HoldingState-discrete h.state (HoldingState.retiring task.id))
          && test (CleanupTarget-discrete h.target work.target))
        LedgerError.stale_attempt
    require (not (has_child l h.id)) LedgerError.teardown_order
    let state = state_after outcome
    ok (record l {
      holdings = retired_if (is_done state) work.task.holding.id now l.holdings;
      cleanups = put_task l work.task.id (record task { state = state; updated_at = now });
    })

  unfoldable pub abandon_cleanup : Ledger Q → CleanupRecord → Timestamp → Result (Ledger Q)
  abandon_cleanup l observed now = do
    task ← task_of l observed.id LedgerError.stale_attempt
    require (test (CleanupRecord-discrete task observed) && is_running task.state)
        LedgerError.stale_attempt
    let state = CleanupState.unknown "worker interrupted before durable confirmation"
    ok (record l {
      cleanups = put_task l observed.id (record task { state = state; updated_at = now });
    })
