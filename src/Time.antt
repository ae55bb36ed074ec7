-- ===== src/Time.antt =====
-- Timestamps, durations and leases (crates/portos-rm/src/time.rs).
use portos.Base.{
  ℕ, ◌+◌, ◌^◌, ◌<◌, ◌≡◌, Bool, true, false, Option, none, some, ℕ_discrete, ltb, if◌then◌else◌,
  arith,
}
use portos.Errors.{Result, ok, err, LedgerError, ◌>>=◌}
use portos.Identity.{i64_limit}

abbrev pub Timestamp : Type 0
Timestamp = ℕ

abbrev pub LeaseDuration : Type 0
LeaseDuration = ℕ

-- `Timestamp::try_from(u64)`.
unfoldable pub timestamp : ℕ → Result Timestamp
timestamp value = if ltb value i64_limit then ok value else err LedgerError.out_of_range

-- `LeaseDuration::try_from(u64)`.
unfoldable pub lease_duration : ℕ → Result LeaseDuration
lease_duration value = if ltb value i64_limit then ok value else err LedgerError.out_of_range

-- `u64::checked_add`, then the range of a timestamp.
unfoldable pub checked_add : Timestamp → LeaseDuration → Result Timestamp
unfolding timestamp
checked_add t d = if ltb (t + d) (2 ^ 64) then timestamp (t + d) else err LedgerError.out_of_range

pub data Lease : Type 0 where
  until : Timestamp → Lease
  parent_bound unbounded : Lease

unfoldable pub Lease-discrete : Discrete Lease
Lease-discrete = hlevel ℕ_discrete

abbrev pub expires_at : Lease → Option Timestamp
expires_at (Lease.until t) = some t
expires_at Lease.parent_bound = none
expires_at Lease.unbounded = none

pub data LeaseRequest : Type 0 where
  use_class_default : LeaseRequest
  for_duration : LeaseDuration → LeaseRequest
  until : Timestamp → LeaseRequest
  parent_bound unbounded : LeaseRequest

lasting : LeaseDuration → Timestamp → Result Lease
unfolding checked_add
lasting d now = do t ← checked_add now d; ok (Lease.until t)

-- `LeaseRequest::resolve`.
unfoldable pub resolve : LeaseRequest → Option LeaseDuration → Bool → Timestamp → Result Lease
unfolding lasting
resolve LeaseRequest.use_class_default (some d) has_parent now = lasting d now
resolve LeaseRequest.use_class_default none true now = ok Lease.parent_bound
resolve LeaseRequest.use_class_default none false now = ok Lease.unbounded
resolve (LeaseRequest.for_duration d) default has_parent now = lasting d now
resolve (LeaseRequest.until t) default has_parent now = ok (Lease.until t)
resolve LeaseRequest.parent_bound default true now = ok Lease.parent_bound
resolve LeaseRequest.parent_bound default false now = err LedgerError.invalid_lease
resolve LeaseRequest.unbounded default has_parent now = ok Lease.unbounded

-- A lease that is bound to a parent is given only where there is one.
pub resolve-parent_bound :
    (q : LeaseRequest) (default : Option LeaseDuration) (has_parent : Bool) (now : Timestamp)
    → resolve q default has_parent now ≡ ok Lease.parent_bound
    → has_parent ≡ true
unfolding resolve
resolve-parent_bound LeaseRequest.use_class_default (some d) p now h = ground arith
resolve-parent_bound LeaseRequest.use_class_default none p now h = ground arith
resolve-parent_bound (LeaseRequest.for_duration d) def p now h = ground arith
resolve-parent_bound (LeaseRequest.until t) def p now h = ground arith
resolve-parent_bound LeaseRequest.parent_bound def p now h = ground arith
resolve-parent_bound LeaseRequest.unbounded def p now h = ground arith

-- A lease by duration ends that long after now, and fits SQLite's INTEGER.
pub resolve-for_duration :
    (d : LeaseDuration) (default : Option LeaseDuration) (has_parent : Bool) (now : Timestamp)
    {l : Lease}
    → resolve (LeaseRequest.for_duration d) default has_parent now ≡ ok l
    → (l ≡ Lease.until (now + d)) × (now + d < i64_limit)
unfolding resolve
resolve-for_duration d default has_parent now h = ground arith
