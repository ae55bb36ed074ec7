-- ===== src/Ledger/Steps.antt =====
-- What a ledger goes through: each constructor of `Step` is a call of an operation that succeeds.
-- A failed call changes nothing, so it is no step. A typed value that a caller can hold was checked
-- by `Capacity::new` or `Claim::new`, and is a value of its machine type.
pub mod Rows
pub mod Tasks
pub mod Bound
pub mod Pooled
use portos.Base.{ℕ, ◌≡◌, Option, some, List, String}
use portos.Errors.{Result, ok}
use portos.Identity.{HoldingHandle, SubjectId, InstanceId}
use portos.Time.{Timestamp, Lease, LeaseRequest}
use portos.Cleanup.{
  CleanupId, CleanupKey, CleanupTarget, CleanupRecord, CleanupOutcome, HostWitness, HoldingState,
}
use portos.Ra.Fractions.{Rationals}
use portos.Frag.{AlgebraTag}
use portos.Frag.Typed.{Value, OkValue}
use portos.Registry.{
  Capacity, Claim, ClassBinding, RegisteredClass, PoolRef, new_capacity, new_claim,
}
use portos.Ledger.{Ledger, ClassDecl, GrantRequest, new}
use portos.Ledger.Pools.{register_class, create_pool, resize_pool, declare_instantiation}
use portos.Ledger.Holdings.{grant_with_cleanup, transfer, release, renew}
use portos.Ledger.Requests.{request_retirement}
use portos.Ledger.Retirement.{CleanupWork, claim_cleanup, finish_cleanup, abandon_cleanup}

module _ {Q : Type 0} (rat : Rationals Q) where
  -- A capacity, or a claim, as the outside can make it.
  abbrev pub IsCapacity : {t : AlgebraTag} → Capacity Q t → Type 0
  IsCapacity {t} c = OkValue rat t c.value × (new_capacity rat t c.value ≡ ok c)

  abbrev pub IsClaim : {t : AlgebraTag} → Claim Q t → Type 0
  IsClaim {t} c = OkValue rat t c.value × (new_claim rat t c.value ≡ ok c)

  pub data Step (l l' : Ledger Q) : Type 0 where
    registers :
        (decl : ClassDecl) (b : ClassBinding) → register_class l decl ≡ ok (l', b) → Step l l'
    instantiates : (c p : SubjectId) → l' ≡ declare_instantiation l c p → Step l l'
    creates :
        {t : AlgebraTag} (c : RegisteredClass t) (i : InstanceId) (cap : Capacity Q t)
        (p : PoolRef t)
        → IsCapacity cap
        → create_pool rat l c i cap ≡ ok (l', p)
        → Step l l'
    resizes :
        {t : AlgebraTag} (p : PoolRef t) (cap : Capacity Q t)
        → IsCapacity cap
        → resize_pool rat l p cap ≡ ok l'
        → Step l l'
    grants :
        {t : AlgebraTag} (p : PoolRef t) (q : GrantRequest Q t) (x : CleanupTarget)
        (h : HoldingHandle)
        → IsClaim q.claim
        → grant_with_cleanup rat l p q x ≡ ok (l', h)
        → Step l l'
    transfers : (h : HoldingHandle) (from to : SubjectId) → transfer l h from to ≡ ok l' → Step l l'
    releases : (h : HoldingHandle) (now : Timestamp) → release l h now ≡ ok l' → Step l l'
    renews :
        (h : HoldingHandle) (q : LeaseRequest) (now : Timestamp) (lease : Lease)
        → renew l h q now ≡ ok (l', lease)
        → Step l l'
    requests :
        (h : HoldingHandle) (key : CleanupKey) (now : Timestamp) (s : HoldingState)
        → request_retirement l h key now ≡ some (ok (l', s))
        → Step l l'
    claims :
        (id : CleanupId) (w : HostWitness) (now : Timestamp) (work : Option CleanupWork)
        → claim_cleanup l id w now ≡ ok (l', work)
        → Step l l'
    finishes :
        (work : CleanupWork) (o : CleanupOutcome) (now : Timestamp)
        → finish_cleanup l work o now ≡ ok l'
        → Step l l'
    abandons :
        (seen : CleanupRecord) (now : Timestamp) → abandon_cleanup l seen now ≡ ok l' → Step l l'

  -- What a new ledger can become.
  pub data Reach (identity : ℕ) : Ledger Q → Type 0 where
    start : Reach identity (new identity)
    next : {l l' : Ledger Q} → Reach identity l → Step l l' → Reach identity l'
