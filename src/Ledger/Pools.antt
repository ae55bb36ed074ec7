-- ===== src/Ledger/Pools.antt =====
-- Classes and pools of the ledger (crates/portos-rm/src/ledger.rs).
use portos.Base.{Bool, true, false, ◌&&◌, ◌||◌, Option, none, some, test, ◌==◌, string_discrete}
use portos.Base.Maps.{Map, get, put}
use portos.Errors.{Result, ok, LedgerError, require, or_err, ◌>>◌, ◌>>=◌}
use portos.Identity.{ResourceKey, ResourceKey-discrete, SubjectId, ClassId, InstanceId}
use portos.Cleanup.{CleanupPolicy, CleanupKind}
use portos.Ra.Fractions.{Rationals}
use portos.Frag.{Frag, AlgebraTag, AlgebraTag-discrete, tag, fits}
use portos.Frag.Typed.{Value, into_fragment, from_fragment, algebra}
use portos.Registry.{Capacity, ClassBinding, RegisteredClass, PoolRef, for_algebra}
use portos.Ledger.{Ledger, ClassDecl, ClassDecl-discrete, RevertGrade, class_of, live_frags}

is_provider : CleanupKind → Bool
is_provider CleanupKind.provider = true
is_provider _ = false

is_compensable : RevertGrade → Bool
is_compensable RevertGrade.compensable = true
is_compensable _ = false

-- What a class with managed cleanup must declare.
check_managed : ClassDecl → CleanupPolicy → Result (Unit {0})
unfolding is_provider is_compensable
check_managed decl CleanupPolicy.accounting_only = ok tt
check_managed decl (CleanupPolicy.managed kind) = do
  require
      (is_provider kind
        || test (AlgebraTag-discrete decl.algebra AlgebraTag.exclusive) && decl.release_idempotent)
      LedgerError.invalid_cleanup
  require (decl.release_idempotent || is_compensable decl.revert_grade) LedgerError.invalid_cleanup

same_decl : Option ClassDecl → ClassDecl → Bool
same_decl none decl = true
same_decl (some existing) decl = test (ClassDecl-discrete existing decl)

-- `entry(id).or_insert(decl)`.
entry_or_insert : Option ClassDecl → ClassDecl → Map ClassId ClassDecl → Map ClassId ClassDecl
entry_or_insert (some _) decl classes = classes
entry_or_insert none decl classes = put string_discrete decl.class_id decl classes

module _ {Q : Type 0} where
  unfoldable pub register_class : Ledger Q → ClassDecl → Result (Ledger Q × ClassBinding)
  unfolding check_managed same_decl entry_or_insert
  register_class l decl = do
    check_managed decl decl.cleanup
    let existing = get string_discrete decl.class_id l.classes
    require (same_decl existing decl) LedgerError.class_conflict
    ok (
      record l { classes = entry_or_insert existing decl l.classes },
      record { ledger = l.identity; id = decl.class_id; algebra = decl.algebra },
    )

  unfoldable pub registered_class :
      (t : AlgebraTag) → Ledger Q → ClassId → Result (RegisteredClass t)
  unfolding for_algebra
  registered_class t l id = do
    decl ← class_of l id
    for_algebra t (record { ledger = l.identity; id = id; algebra = decl.algebra })

  unfoldable pub pool : (t : AlgebraTag) → Ledger Q → ResourceKey → Result (PoolRef t)
  pool t l key = do
    cap ← or_err (get ResourceKey-discrete key l.capacities) LedgerError.unknown_pool
    require (test (AlgebraTag-discrete (tag cap) t)) LedgerError.algebra_mismatch
    ok (record { ledger = l.identity; id = key })

  unfoldable pub check_pool : {t : AlgebraTag} → Ledger Q → PoolRef t → Result (Frag Q)
  check_pool {t} l p = do
    require (p.ledger == l.identity) LedgerError.foreign_reference
    cap ← or_err (get ResourceKey-discrete p.id l.capacities) LedgerError.unknown_pool
    require (test (AlgebraTag-discrete (tag cap) t)) LedgerError.algebra_mismatch
    ok cap

  unfoldable pub declare_instantiation : Ledger Q → SubjectId → SubjectId → Ledger Q
  declare_instantiation l child parent = record l {
    instantiations = put string_discrete child parent l.instantiations;
  }

module _ {Q : Type 0} (rat : Rationals Q) where
  pub same_capacity : (t : AlgebraTag) → Option (Value Q t) → Value Q t → Bool
  same_capacity t none v = false
  same_capacity t (some u) v = test ((algebra rat t).same u v)

  -- A pool that exists is accepted again only with the same capacity.
  unfoldable pub open_pool :
      (t : AlgebraTag)
      → Ledger Q
      → ResourceKey
      → Value Q t
      → Option (Frag Q)
      → Result (Ledger Q × PoolRef t)
  unfolding same_capacity
  open_pool t l key v none = ok (
    record l { capacities = put ResourceKey-discrete key (into_fragment t v) l.capacities },
    record { ledger = l.identity; id = key },
  )
  open_pool t l key v (some existing) = do
    require (same_capacity t (from_fragment t existing) v) LedgerError.pool_exists
    ok (l, record { ledger = l.identity; id = key })

  unfoldable pub create_pool :
      {t : AlgebraTag}
      → Ledger Q
      → RegisteredClass t
      → InstanceId
      → Capacity Q t
      → Result (Ledger Q × PoolRef t)
  unfolding open_pool registered_class
  create_pool {t} l c instance_id capacity = do
    require (c.binding.ledger == l.identity) LedgerError.foreign_reference
    current ← registered_class t l c.binding.id
    let key : ResourceKey = record { cls = current.binding.id; instance_id = instance_id }
    open_pool t l key capacity.value (get ResourceKey-discrete key l.capacities)

  -- The new capacity must hold what is outstanding.
  unfoldable pub resize_pool :
      {t : AlgebraTag} → Ledger Q → PoolRef t → Capacity Q t → Result (Ledger Q)
  unfolding check_pool
  resize_pool {t} l p capacity = do
    _ ← check_pool l p
    let cap = into_fragment t capacity.value
    fit ← fits rat cap (live_frags l p.id)
    require fit LedgerError.conflict
    ok (record l { capacities = put ResourceKey-discrete p.id cap l.capacities })
