-- ===== src/Ledger/Holdings.antt =====
-- Grant, transfer, release and renewal of holdings (crates/portos-rm/src/ledger.rs).
use portos.Base.{
  Bool, true, false, not, ◌&&◌, ◌||◌, Option, none, some, [], ◌∷◌, ◌++◌, any, test, string_discrete,
  is_blank, if◌then◌else◌,
}
use mathlib.Core.Option
use portos.Base.Maps.{get}
use portos.Errors.{Result, ok, LedgerError, require, ◌>>◌, ◌>>=◌}
use portos.Identity.{HoldingId, HoldingHandle, ResourceKey, SubjectId, holding_id, next_of}
use portos.Time.{
  Timestamp, Lease, Lease-discrete, LeaseRequest, LeaseDuration, resolve as resolve_lease,
}
use portos.Cleanup.{
  CleanupTarget, CleanupPolicy, CleanupPolicy-discrete, HoldingState, policy, is_unresolved,
  conflicts_with, is_active, released_at,
}
use portos.Ra.Fractions.{Rationals}
use portos.Frag.{Frag, AlgebraTag, fits}
use portos.Frag.Typed.{into_fragment}
use portos.Registry.{PoolRef}
use portos.Ledger.{
  Ledger, Holding, GrantRequest, ClassDecl, handle_of, occupying, holding, resolve, class_of,
  live_frags, update, has_child,
}
use portos.Ledger.Pools.{check_pool}

abbrev pub is_some : {A : Type 0} → Option A → Bool
is_some none = false
is_some (some _) = true

abbrev pub id_of : HoldingHandle → HoldingId
id_of h = h.id

same_subject : Option SubjectId → SubjectId → Bool
same_subject none s = false
same_subject (some r) s = test (string_discrete r s)

module _ {Q : Type 0} where
  -- The parent of a new holding must be active, and of the owner or of its instantiator.
  unfoldable pub check_parent : Ledger Q → SubjectId → Option HoldingHandle → Result (Unit {0})
  unfolding same_subject
  check_parent l owner none = ok tt
  check_parent l owner (some parent) = do
    ph ← resolve l parent
    require (is_active ph.state) LedgerError.forged_handle
    require
        (test (string_discrete ph.subject owner)
          || same_subject (get string_discrete owner l.instantiations) ph.subject)
        LedgerError.parent_authority

  -- The row that a grant adds.
  abbrev pub granted :
      {t : AlgebraTag}
      → HoldingId
      → ResourceKey
      → GrantRequest Q t
      → Lease
      → CleanupTarget
      → Holding Q
  granted {t} id key request lease target = record {
    id = id;
    subject = request.owner;
    class_id = key.cls;
    instance_id = key.instance_id;
    frag = into_fragment t request.claim.value;
    generation = request.generation;
    parent = Option.map id_of request.parent;
    lease = lease;
    acquired_at = request.now;
    state = HoldingState.active;
    target = target;
  }

module _ {Q : Type 0} where
  -- What a grant requires of its target, its generation and its parent.
  unfoldable pub check_request :
      {t : AlgebraTag} → Ledger Q → ClassDecl → GrantRequest Q t → CleanupTarget → Result (Unit {0})
  unfolding check_parent
  check_request l decl request target = do
    require
        (test (CleanupPolicy-discrete (policy target) decl.cleanup) && not (is_unresolved target))
        LedgerError.cleanup_required
    require (not (is_blank request.generation)) LedgerError.invalid_generation
    require (not (any (λ h. conflicts_with target h.target) (occupying l))) LedgerError.conflict
    check_parent l request.owner request.parent

module _ {Q : Type 0} (rat : Rationals Q) where
  -- The gate on the whole pool, and the new row.
  unfoldable pub add_row :
      {t : AlgebraTag}
      → Ledger Q
      → ResourceKey
      → Frag Q
      → GrantRequest Q t
      → Lease
      → CleanupTarget
      → Result (Ledger Q × HoldingHandle)
  add_row {t} l key cap request lease target = do
    fit ← fits rat cap (live_frags l key ++ into_fragment t request.claim.value ∷ [])
    require fit LedgerError.conflict
    id ← holding_id l.next_id
    next ← next_of l.next_id
    let h = granted id key request lease target
    ok (record l { holdings = l.holdings ++ h ∷ []; next_id = next }, handle_of h)

  unfoldable pub grant_with_cleanup :
      {t : AlgebraTag}
      → Ledger Q
      → PoolRef t
      → GrantRequest Q t
      → CleanupTarget
      → Result (Ledger Q × HoldingHandle)
  unfolding add_row check_request
  grant_with_cleanup {t} l p request target = do
    cap ← check_pool l p
    decl ← class_of l p.id.cls
    check_request l decl request target
    lease ← resolve_lease request.lease decl.lease_duration (is_some request.parent) request.now
    add_row l p.id cap request lease target

  unfoldable pub grant :
      {t : AlgebraTag} → Ledger Q → PoolRef t → GrantRequest Q t → Result (Ledger Q × HoldingHandle)
  unfolding grant_with_cleanup
  grant l p request = grant_with_cleanup l p request CleanupTarget.accounting_only

is_default : LeaseRequest → Bool
is_default LeaseRequest.use_class_default = true
is_default _ = false

-- The default request on a class without a default duration keeps the lease.
renewed_lease : LeaseRequest → Option LeaseDuration → Bool → Timestamp → Lease → Result Lease
unfolding is_default
renewed_lease request default has_parent now old =
    if is_default request && not (is_some default)
    then ok old
    else resolve_lease request default has_parent now

module _ {Q : Type 0} where
  unfoldable pub transfer : Ledger Q → HoldingHandle → SubjectId → SubjectId → Result (Ledger Q)
  transfer l handle from to = do
    h ← resolve l handle
    require (is_active h.state && test (string_discrete h.subject from)) LedgerError.forged_handle
    ok (record l { holdings = update handle.id (λ h. record h { subject = to }) l.holdings })

  -- A second release is accepted only of a class that says so.
  unfoldable pub release_again : Ledger Q → Holding Q → Result (Ledger Q)
  release_again l h = do
    decl ← class_of l h.class_id
    require decl.release_idempotent LedgerError.double_release
    ok l

  unfoldable pub release_live : Ledger Q → HoldingHandle → Holding Q → Timestamp → Result (Ledger Q)
  release_live l handle h now = do
    require
        (is_active h.state
          && test (CleanupPolicy-discrete (policy h.target) CleanupPolicy.accounting_only))
        LedgerError.cleanup_required
    require (not (has_child l handle.id)) LedgerError.teardown_order
    ok (record l {
      holdings = update handle.id (λ h. record h { state = HoldingState.retired now }) l.holdings;
    })

  unfoldable pub release : Ledger Q → HoldingHandle → Timestamp → Result (Ledger Q)
  unfolding release_again release_live
  release l handle now = do
    h ← resolve l handle
    elim (released_at h.state) [ some _ ↦ release_again l h | none ↦ release_live l handle h now ]

  parent_active : Ledger Q → Option HoldingId → Bool
  parent_active l none = false
  parent_active l (some p) = elim (holding l p) [ none ↦ false | some ph ↦ is_active ph.state ]

  unfoldable pub renew :
      Ledger Q → HoldingHandle → LeaseRequest → Timestamp → Result (Ledger Q × Lease)
  unfolding renewed_lease parent_active
  renew l handle request now = do
    h ← resolve l handle
    require (is_active h.state) LedgerError.forged_handle
    decl ← class_of l h.class_id
    lease ← renewed_lease request decl.lease_duration (is_some h.parent) now h.lease
    require (not (test (Lease-discrete lease Lease.parent_bound) && not (parent_active l h.parent)))
        LedgerError.invalid_lease
    ok (
      record l { holdings = update handle.id (λ h. record h { lease = lease }) l.holdings },
      lease,
    )
