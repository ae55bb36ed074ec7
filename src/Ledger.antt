-- ===== src/Ledger.antt =====
-- The resource aggregate (`Ledger`, crates/portos-rm/src/ledger.rs): its state and its queries.
-- An operation of the source changes the ledger only after its last check, so an operation here
-- gives the new ledger, or an error that leaves the ledger as it was. `Q` is the type of exact
-- rationals; the instance `Rationals Q` is passed where fragments are composed.
pub mod Pools
pub mod Holdings
pub mod Retirement
pub mod Requests
pub mod Changes
pub mod Steps
pub mod Updates
pub mod Capacity
pub mod Roots
pub mod Order
pub mod Invariants
pub mod Kept
pub mod Attempts
pub mod Fencing
pub mod Outcomes
use portos.Base.{
  ℕ, ◌≡◌, refl, Bool, true, false, not, ◌&&◌, Option, none, some, List, [], ◌∷◌, ◌++◌, map, filter,
  find, any, if◌then◌else◌, test, ◌==◌, ℕ_discrete, string_discrete, arith,
}
use portos.Base.Maps.{Map, get}
use portos.Errors.{Result, ok, err, LedgerError, require, or_err, ◌>>◌, ◌>>=◌}
use portos.Identity.{
  HoldingId, HoldingHandle, ResourceKey, ResourceKey-discrete, SubjectId, ClassId, InstanceId,
  Generation,
}
use portos.Time.{Timestamp, LeaseDuration, Lease, LeaseRequest}
use portos.Cleanup.{
  CleanupId, CleanupPolicy, CleanupTarget, HoldingState, CleanupRecord, is_active, occupies,
}
use portos.Frag.{Frag, AlgebraTag, AlgebraTag-discrete, tag}
use portos.Registry.{Claim, PoolRef}

pub data RevertGrade : Type 0 where
  inverse compensable external : RevertGrade

pub record ClassDecl : Type 0 where
  pub cleanup : CleanupPolicy
  pub class_id : ClassId
  pub algebra : AlgebraTag
  pub release_idempotent : Bool
  pub lease_duration : Option LeaseDuration
  pub revert_grade : RevertGrade

unfoldable pub ClassDecl-discrete : Discrete ClassDecl
ClassDecl-discrete = hlevel (ℕ_discrete, string_discrete)

-- `HoldingRecord`; `Holding` wraps it so that no caller changes its fields.
pub record Holding (Q : Type 0) : Type 0 where
  pub id : HoldingId
  pub subject : SubjectId
  pub class_id : ClassId
  pub instance_id : InstanceId
  pub frag : Frag Q
  pub generation : Generation
  pub parent : Option HoldingId
  pub lease : Lease
  pub acquired_at : Timestamp
  pub state : HoldingState
  pub target : CleanupTarget

pub record GrantRequest (Q : Type 0) (t : AlgebraTag) : Type 0 where
  pub owner : SubjectId
  pub claim : Claim Q t
  pub generation : Generation
  pub parent : Option HoldingHandle
  pub lease : LeaseRequest
  pub now : Timestamp

pub record Ledger (Q : Type 0) : Type 0 where
  pub identity : ℕ
  pub classes : Map ClassId ClassDecl
  pub capacities : Map ResourceKey (Frag Q)
  pub holdings : List (Holding Q)
  pub next_id : ℕ
  pub cleanups : Map CleanupId CleanupRecord
  pub instantiations : Map SubjectId SubjectId

-- `Ledger::new`; the identity comes from a process-wide counter.
abbrev pub new : {Q : Type 0} → ℕ → Ledger Q
new identity = record {
  identity = identity;
  classes = [];
  capacities = [];
  holdings = [];
  next_id = 0;
  cleanups = [];
  instantiations = [];
}

-- `parent == Some(id)`.
abbrev pub is_child : Option HoldingId → HoldingId → Bool
is_child none id = false
is_child (some p) id = p == id

module _ {Q : Type 0} where
  -- `Holding::handle`, `Holding::key`.
  abbrev pub handle_of : Holding Q → HoldingHandle
  handle_of h = record { id = h.id; generation = h.generation }

  abbrev pub key_of : Holding Q → ResourceKey
  key_of h = record { cls = h.class_id; instance_id = h.instance_id }

  abbrev pub active : Ledger Q → List (Holding Q)
  active l = filter (λ h. is_active h.state) l.holdings

  abbrev pub occupying : Ledger Q → List (Holding Q)
  occupying l = filter (λ h. occupies h.state) l.holdings

  -- The first holding of a list with an id.
  unfoldable pub find_id : HoldingId → List (Holding Q) → Option (Holding Q)
  find_id id [] = none
  find_id id (h ∷ hs) = if h.id == id then some h else find_id id hs

  -- `Ledger::holding`.
  abbrev pub holding : Ledger Q → HoldingId → Option (Holding Q)
  holding l id = find_id id l.holdings

  -- `Ledger::resolve` checks the generation of the handle.
  unfoldable pub resolve : Ledger Q → HoldingHandle → Result (Holding Q)
  resolve l handle = do
    h ← or_err (holding l handle.id) LedgerError.forged_handle
    require (test (string_discrete h.generation handle.generation)) LedgerError.stale_generation
    ok h

  unfoldable pub class_of : Ledger Q → ClassId → Result ClassDecl
  class_of l id = or_err (get string_discrete id l.classes) LedgerError.unknown_class

  -- The fragments of the holdings that occupy a pool.
  unfoldable pub live_in : ResourceKey → List (Holding Q) → List (Frag Q)
  live_in key [] = []
  live_in key (h ∷ hs) =
      if occupies h.state && test (ResourceKey-discrete (key_of h) key)
      then h.frag ∷ live_in key hs
      else live_in key hs

  abbrev pub live_frags : Ledger Q → ResourceKey → List (Frag Q)
  live_frags l key = live_in key l.holdings

  -- `holdings.iter_mut().find(..).unwrap()` and a write: the first holding with the id changes.
  unfoldable pub update : HoldingId → (Holding Q → Holding Q) → List (Holding Q) → List (Holding Q)
  update id f [] = []
  update id f (h ∷ hs) = if h.id == id then f h ∷ hs else h ∷ update id f hs

  -- Some occupying holding has this parent.
  unfoldable pub has_child : Ledger Q → HoldingId → Bool
  has_child l id = any (λ h. is_child h.parent id) (occupying l)
