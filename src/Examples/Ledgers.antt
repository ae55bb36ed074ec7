-- ===== src/Examples/Ledgers.antt =====
-- A ledger with one counted pool: calls from the new ledger on, and what is proved of them.
use portos.Base.{
  ◌<◌, ℕ, ◌≡◌, refl, true, none, some, [], ◌∷◌, arith, string_discrete, ℕ_discrete, In,
}
use portos.Base.Maps.{get, put}
use portos.Errors.{Result, ok}
use portos.Identity.{HoldingHandle, ResourceKey, ResourceKey-discrete, holding_id, next_of}
use portos.Time.{Lease, LeaseRequest, resolve as resolve_lease}
use portos.Cleanup.{
  CleanupPolicy, CleanupPolicy-discrete, CleanupTarget, HoldingState, conflicts_with,
}
use portos.Auth.{compose, auth_valid}
use portos.Ra.Counted.{Count, Count-discrete}
use portos.Frag.{
  Frag, AlgebraTag, AlgebraTag-discrete, fits, op, compose_from, compose_frags, frag_auth_valid,
}
use portos.Registry.{Capacity, ClassBinding, PoolRef, new_capacity, new_claim, for_algebra}
use portos.Ledger.{
  Ledger, ClassDecl, RevertGrade, Holding, GrantRequest, new, find_id, live_in, live_frags,
  class_of, resolve,
}
use portos.Ledger.Pools.{register_class, registered_class, open_pool, create_pool, check_pool}
use portos.Ledger.Holdings.{check_parent, check_request, add_row, grant_with_cleanup}
use portos.Ledger.Updates.{Occupied}
use portos.Ledger.Steps.{Reach, start, next, registers, creates, grants}
use portos.Ledger.Invariants.{Reach-IsOrdered, pool_is_solvent, parent_outlives, parent_is_older}
use portos.Ledger.Requests.{request_retirement}
use portos.Ledger.Requests.Fuel.{request_retirement_ends}
use portos.Examples.Twelfths.{twelfths}

abbrev decl : ClassDecl
decl = record {
  cleanup = CleanupPolicy.accounting_only;
  class_id = "kernel/cpu";
  algebra = AlgebraTag.counted;
  release_idempotent = true;
  lease_duration = none;
  revert_grade = RevertGrade.inverse;
}

abbrev key : ResourceKey
key = record { cls = "kernel/cpu"; instance_id = "node" }

abbrev binding : ClassBinding
binding = record { ledger = 1; id = "kernel/cpu"; algebra = AlgebraTag.counted }

abbrev with_class : Ledger ℕ
with_class = record (new 1) { classes = ("kernel/cpu", decl) ∷ [] }

abbrev pool : PoolRef AlgebraTag.counted
pool = record { ledger = 1; id = key }

abbrev three : Capacity ℕ AlgebraTag.counted
three = record { value = Count.value 3 }

abbrev with_pool : Ledger ℕ
with_pool = record with_class { capacities = (key, Frag.count (Count.value 3)) ∷ [] }

abbrev request : GrantRequest ℕ AlgebraTag.counted
request = record {
  owner = "session";
  claim = record { value = Count.value 2 };
  generation = "g1";
  parent = none;
  lease = LeaseRequest.unbounded;
  now = 7;
}

abbrev held : Holding ℕ
held = record {
  id = 0;
  subject = "session";
  class_id = "kernel/cpu";
  instance_id = "node";
  frag = Frag.count (Count.value 2);
  generation = "g1";
  parent = none;
  lease = Lease.unbounded;
  acquired_at = 7;
  state = HoldingState.active;
  target = CleanupTarget.accounting_only;
}

abbrev with_grant : Ledger ℕ
with_grant = record with_pool { holdings = held ∷ []; next_id = 1 }

abbrev handle : HoldingHandle
handle = record { id = 0; generation = "g1" }

-- A child of that holding, in the same pool.
abbrev child_request : GrantRequest ℕ AlgebraTag.counted
child_request = record {
  owner = "session";
  claim = record { value = Count.value 1 };
  generation = "g2";
  parent = some handle;
  lease = LeaseRequest.parent_bound;
  now = 8;
}

abbrev child : Holding ℕ
child = record {
  id = 1;
  subject = "session";
  class_id = "kernel/cpu";
  instance_id = "node";
  frag = Frag.count (Count.value 1);
  generation = "g2";
  parent = some 0;
  lease = Lease.parent_bound;
  acquired_at = 8;
  state = HoldingState.active;
  target = CleanupTarget.accounting_only;
}

abbrev with_child : Ledger ℕ
with_child = record with_pool { holdings = held ∷ child ∷ []; next_id = 2 }

registered : register_class (new 1) decl ≡ ok (with_class, binding)
unfolding register_class get put string_discrete
registered = refl

created :
    create_pool twelfths with_class (record { binding = binding }) "node" three
    ≡ ok (with_pool, pool)
unfolding create_pool open_pool registered_class for_algebra class_of get put string_discrete
    ResourceKey-discrete AlgebraTag-discrete
created = refl

granted :
    grant_with_cleanup twelfths with_pool pool request CleanupTarget.accounting_only
    ≡ ok (with_grant, handle)
unfolding grant_with_cleanup check_pool check_request check_parent add_row resolve_lease class_of
    get string_discrete ResourceKey-discrete AlgebraTag-discrete CleanupPolicy-discrete live_in
    compose_frags compose_from op frag_auth_valid auth_valid compose Count-discrete ℕ_discrete
    holding_id next_of conflicts_with
granted = refl

child_granted :
    grant_with_cleanup twelfths with_grant pool child_request CleanupTarget.accounting_only
    ≡ ok (with_child, record { id = 1; generation = "g2" })
unfolding grant_with_cleanup check_pool check_request check_parent add_row resolve_lease class_of
    get string_discrete ResourceKey-discrete AlgebraTag-discrete CleanupPolicy-discrete live_in
    compose_frags compose_from op frag_auth_valid auth_valid compose Count-discrete ℕ_discrete
    holding_id next_of conflicts_with resolve find_id
child_granted = refl

three_is_valid : new_capacity twelfths AlgebraTag.counted (Count.value 3) ≡ ok three
unfolding new_capacity
three_is_valid = refl

claim_is_valid :
    (n : ℕ)
    → new_claim {Q = ℕ} twelfths AlgebraTag.counted (Count.value n)
      ≡ ok (record { value = Count.value n })
unfolding new_claim
claim_is_valid n = refl

with_child_is_reached : Reach twelfths 1 with_child
with_child_is_reached =
    next
      (next
        (next (next start (registers decl binding registered)) (
          creates (record { binding = binding }) "node" three pool (omega arith, three_is_valid)
            created))
        (grants pool request CleanupTarget.accounting_only handle (omega arith, claim_is_valid 2)
          granted))
      (grants pool child_request CleanupTarget.accounting_only
        (record { id = 1; generation = "g2" }) (omega arith, claim_is_valid 1) child_granted)

pool_found : get ResourceKey-discrete key with_child.capacities ≡ some (Frag.count (Count.value 3))
unfolding get ResourceKey-discrete string_discrete
pool_found = refl

pool_is_solvent_example :
    fits twelfths (Frag.count (Count.value 3)) (live_frags with_child key) ≡ ok true
pool_is_solvent_example =
    pool_is_solvent twelfths key (Frag.count (Count.value 3)) with_child_is_reached pool_found

parent_outlives_example : Occupied with_child.holdings 0
parent_outlives_example =
    parent_outlives twelfths child 0 with_child_is_reached (In.there (In.here refl)) refl refl

parent_is_older_example : (1 < with_child.next_id) × (0 < 1)
parent_is_older_example =
    parent_is_older twelfths child with_child_is_reached (In.there (In.here refl))

request_retirement_ends_example :
    (r : Result (Ledger ℕ × HoldingState)) × (request_retirement with_child handle "k" 9 ≡ some r)
request_retirement_ends_example =
    request_retirement_ends with_child handle "k" 9 (Reach-IsOrdered twelfths with_child_is_reached)
