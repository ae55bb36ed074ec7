-- ===== src/Cleanup.antt =====
-- Retirement states and exact cleanup targets (crates/portos-rm/src/cleanup.rs).
use portos.Base.{
  ℕ, ◌^◌, ◌≡◌, Bool, true, false, not, ◌&&◌, ◌||◌, Option, none, some, String, string_discrete,
  ℕ_discrete, is_blank, ltb, ◌==◌, test, test_comm, arith,
}
use portos.Errors.{Result, ok, LedgerError, require, ◌>>◌}
use portos.Identity.{HoldingId, Generation, HoldingHandle}
use portos.Time.{Timestamp}

-- `CleanupId::for_holding` wraps a holding's id.
abbrev pub CleanupId : Type 0
CleanupId = HoldingId

abbrev pub CleanupKey : Type 0
CleanupKey = String

-- `CleanupKey::new`.
unfoldable pub cleanup_key : String → Result CleanupKey
cleanup_key key = do require (not (is_blank key)) LedgerError.invalid_value; ok key

pub data CleanupKind : Type 0 where
  process file_lock port subscription plugin provider : CleanupKind

pub data CleanupPolicy : Type 0 where
  accounting_only : CleanupPolicy
  managed : CleanupKind → CleanupPolicy

unfoldable pub CleanupPolicy-discrete : Discrete CleanupPolicy
CleanupPolicy-discrete = hlevel

-- An exact Linux process incarnation.
pub record ProcessWitness : Type 0 where
  pub pid : ℕ
  pub start_ticks : ℕ
  pub boot : Generation

-- `ProcessWitness::new`; `2 ^ 31` is `i32::MAX + 1`.
unfoldable pub process_witness : ℕ → ℕ → Generation → Result ProcessWitness
process_witness pid start_ticks boot = do
  require (not (pid == 0 || not (ltb pid (2 ^ 31)) || start_ticks == 0 || is_blank boot))
      LedgerError.invalid_value
  ok (record { pid = pid; start_ticks = start_ticks; boot = boot })

pub record FileLockWitness : Type 0 where
  pub path : String
  pub device : ℕ
  pub inode : ℕ
  pub owner : Option ProcessWitness

pub data Transport : Type 0 where
  tcp udp : Transport

pub record PortWitness : Type 0 where
  pub transport : Transport
  pub port : ℕ

-- `PortWitness::new`.
unfoldable pub port_witness : Transport → ℕ → Result PortWitness
port_witness transport number = do
  require (not (number == 0)) LedgerError.invalid_value
  ok (record { transport = transport; port = number })

pub record HostWitness : Type 0 where
  pub process : ProcessWitness
  pub session : Generation

-- `HostWitness::new`.
unfoldable pub host_witness : ProcessWitness → Generation → Result HostWitness
host_witness owner session = do
  require (not (is_blank session)) LedgerError.invalid_generation
  ok (record { process = owner; session = session })

-- `unresolved` only comes from recovery; it preserves missing evidence.
pub data CleanupTarget : Type 0 where
  accounting_only : CleanupTarget
  process : ProcessWitness → CleanupTarget
  file_lock : FileLockWitness → CleanupTarget
  port : PortWitness → CleanupTarget
  subscription : HostWitness → ℕ → CleanupTarget
  plugin : HostWitness → ProcessWitness → CleanupTarget
  provider : CleanupTarget
  unresolved : CleanupKind → String → CleanupTarget

unfoldable pub ProcessWitness-discrete : Discrete ProcessWitness
ProcessWitness-discrete = hlevel (ℕ_discrete, string_discrete)

unfoldable pub PortWitness-discrete : Discrete PortWitness
PortWitness-discrete = hlevel ℕ_discrete

unfoldable pub HostWitness-discrete : Discrete HostWitness
HostWitness-discrete = hlevel (ℕ_discrete, string_discrete)

unfoldable pub CleanupTarget-discrete : Discrete CleanupTarget
CleanupTarget-discrete = hlevel (ℕ_discrete, string_discrete)

-- The process that a target ends, in `conflicts_with`.
abbrev pub process_of : CleanupTarget → Option ProcessWitness
process_of (CleanupTarget.process w) = some w
process_of (CleanupTarget.plugin host w) = some w
process_of _ = none

other_conflict : CleanupTarget → CleanupTarget → Bool
other_conflict (CleanupTarget.file_lock a) (CleanupTarget.file_lock b) =
    test (string_discrete a.path b.path) || a.device == b.device && a.inode == b.inode
other_conflict (CleanupTarget.port a) (CleanupTarget.port b) = test (PortWitness-discrete a b)
other_conflict (CleanupTarget.subscription a x) (CleanupTarget.subscription b y) =
    test (HostWitness-discrete a b) && x == y
other_conflict _ _ = false

conflict_by : Option ProcessWitness → Option ProcessWitness → Bool → Bool
conflict_by (some a) (some b) other = test (ProcessWitness-discrete a b)
conflict_by (some a) none other = other
conflict_by none _ other = other

-- `CleanupTarget::conflicts_with`: two processes are compared first.
unfoldable pub conflicts_with : CleanupTarget → CleanupTarget → Bool
unfolding other_conflict conflict_by
conflicts_with s t = conflict_by (process_of s) (process_of t) (other_conflict s t)

-- `CleanupTarget::policy`.
abbrev pub policy : CleanupTarget → CleanupPolicy
policy CleanupTarget.accounting_only = CleanupPolicy.accounting_only
policy (CleanupTarget.process _) = CleanupPolicy.managed CleanupKind.process
policy (CleanupTarget.file_lock _) = CleanupPolicy.managed CleanupKind.file_lock
policy (CleanupTarget.port _) = CleanupPolicy.managed CleanupKind.port
policy (CleanupTarget.subscription _ _) = CleanupPolicy.managed CleanupKind.subscription
policy (CleanupTarget.plugin _ _) = CleanupPolicy.managed CleanupKind.plugin
policy CleanupTarget.provider = CleanupPolicy.managed CleanupKind.provider
policy (CleanupTarget.unresolved kind _) = CleanupPolicy.managed kind

abbrev pub is_unresolved : CleanupTarget → Bool
is_unresolved (CleanupTarget.unresolved _ _) = true
is_unresolved _ = false

pub data HoldingState : Type 0 where
  active : HoldingState
  retiring : CleanupId → HoldingState
  retired : Timestamp → HoldingState

unfoldable pub HoldingState-discrete : Discrete HoldingState
HoldingState-discrete = hlevel ℕ_discrete

abbrev pub is_active : HoldingState → Bool
is_active HoldingState.active = true
is_active _ = false

abbrev pub occupies : HoldingState → Bool
occupies (HoldingState.retired _) = false
occupies _ = true

abbrev pub released_at : HoldingState → Option Timestamp
released_at (HoldingState.retired t) = some t
released_at _ = none

pub data Completion : Type 0 where
  confirmed already_absent : Completion

pub data CleanupOutcome : Type 0 where
  confirmed already_absent : CleanupOutcome
  retryable unknown blocked : String → CleanupOutcome

pub data CleanupState : Type 0 where
  pending : CleanupState
  running : HostWitness → CleanupState
  retryable unknown blocked : String → CleanupState
  done : Completion → CleanupState

abbrev pub is_done : CleanupState → Bool
is_done (CleanupState.done _) = true
is_done _ = false

abbrev pub is_running : CleanupState → Bool
is_running (CleanupState.running _) = true
is_running _ = false

-- `CleanupTask` wraps a record.
pub record CleanupRecord : Type 0 where
  pub id : CleanupId
  pub key : CleanupKey
  pub holding : HoldingHandle
  pub state : CleanupState
  pub attempts : ℕ
  pub requested_at : Timestamp
  pub updated_at : Timestamp

unfoldable pub CleanupRecord-discrete : Discrete CleanupRecord
CleanupRecord-discrete = hlevel (ℕ_discrete, string_discrete)

other_conflict_comm : (s t : CleanupTarget) → other_conflict s t ≡ other_conflict t s
unfolding other_conflict
other_conflict_comm (CleanupTarget.file_lock a) (CleanupTarget.file_lock b) =
    rw (test_comm string_discrete a.path b.path) (ground arith)
other_conflict_comm (CleanupTarget.port a) (CleanupTarget.port b) =
    test_comm PortWitness-discrete a b
other_conflict_comm (CleanupTarget.subscription a x) (CleanupTarget.subscription b y) =
    rw (test_comm HostWitness-discrete a b) (ground arith)
other_conflict_comm _ _ = ground arith

conflict_by_comm :
    (p q : Option ProcessWitness) (b c : Bool) → b ≡ c → conflict_by p q b ≡ conflict_by q p c
unfolding conflict_by
conflict_by_comm (some a) (some b) c d e = test_comm ProcessWitness-discrete a b
conflict_by_comm (some a) none c d e = e
conflict_by_comm none (some b) c d e = e
conflict_by_comm none none c d e = e

-- A conflict does not depend on which of the two targets is asked.
pub conflicts_with_comm : (s t : CleanupTarget) → conflicts_with s t ≡ conflicts_with t s
unfolding conflicts_with
conflicts_with_comm s t =
    conflict_by_comm (process_of s) (process_of t) _ _ (other_conflict_comm s t)
