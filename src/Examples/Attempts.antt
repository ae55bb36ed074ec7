-- ===== src/Examples/Attempts.antt =====
-- A holding whose cleanup is requested, claimed, and then finished or abandoned.
use portos.Base.{ℕ, ◌≡◌, refl, true, none, some, [], ◌∷◌, string_discrete, ℕ_discrete}
use portos.Base.Maps.{get, put}
use portos.Errors.{ok, err, LedgerError}
use portos.Time.{Lease}
use portos.Cleanup.{
  CleanupPolicy, CleanupKind, CleanupTarget, CleanupRecord, CleanupRecord-discrete, CleanupState,
  CleanupOutcome, Completion, HostWitness, ProcessWitness, HoldingState, HoldingState-discrete,
}
use portos.Ra.Exclusive.{Ex}
use portos.Frag.{Frag, AlgebraTag}
use portos.Ledger.{
  Ledger, ClassDecl, RevertGrade, Holding, new, find_id, has_child, class_of, resolve,
}
use portos.Ledger.Retirement.{
  CleanupWork, claim_cleanup, claim_idle, start_attempt, next_attempt, task_of, finish_cleanup,
  abandon_cleanup,
}
use portos.Ledger.Attempts.{claim-excludes}
use portos.Ledger.Fencing.{stays, claims, abandon-fences}

abbrev decl : ClassDecl
decl = record {
  cleanup = CleanupPolicy.managed CleanupKind.process;
  class_id = "kernel/proc";
  algebra = AlgebraTag.exclusive;
  release_idempotent = true;
  lease_duration = none;
  revert_grade = RevertGrade.inverse;
}

abbrev witness : ProcessWitness
witness = record { pid = 42; start_ticks = 9; boot = "b" }

abbrev worker : HostWitness
worker = record { process = witness; session = "s1" }

abbrev other_worker : HostWitness
other_worker = record { process = witness; session = "s2" }

abbrev held : Holding ℕ
held = record {
  id = 0;
  subject = "session";
  class_id = "kernel/proc";
  instance_id = "node";
  frag = Frag.ex Ex.token;
  generation = "g1";
  parent = none;
  lease = Lease.unbounded;
  acquired_at = 7;
  state = HoldingState.retiring 0;
  target = CleanupTarget.process witness;
}

abbrev task : CleanupRecord
task = record {
  id = 0;
  key = "k";
  holding = record { id = 0; generation = "g1" };
  state = CleanupState.pending;
  attempts = 0;
  requested_at = 8;
  updated_at = 8;
}

abbrev requested : Ledger ℕ
requested = record (new 1) {
  classes = ("kernel/proc", decl) ∷ [];
  holdings = held ∷ [];
  next_id = 1;
  cleanups = (0, task) ∷ [];
}

abbrev running : CleanupRecord
running = record task { state = CleanupState.running worker; attempts = 1; updated_at = 9 }

abbrev work : CleanupWork
work = record {
  task = running;
  target = CleanupTarget.process witness;
  resource = record { cls = "kernel/proc"; instance_id = "node" };
  grade = RevertGrade.inverse;
}

abbrev claimed : Ledger ℕ
claimed = record requested { cleanups = (0, running) ∷ [] }

claim_works : claim_cleanup requested 0 worker 9 ≡ ok (claimed, some work)
unfolding claim_cleanup claim_idle start_attempt next_attempt task_of resolve class_of get put
    find_id has_child string_discrete ℕ_discrete HoldingState-discrete
claim_works = refl

claim-excludes_example : claim_cleanup claimed 0 other_worker 10 ≡ ok (claimed, none)
claim-excludes_example =
    claim-excludes requested claimed 0 worker other_worker 9 10 work claim_works

abbrev abandoned : Ledger ℕ
abandoned = record requested {
  cleanups =
      (
        0,
        record running {
          state = CleanupState.unknown "worker interrupted before durable confirmation";
          updated_at = 10;
        },
      )
      ∷ [];
}

abandon_works : abandon_cleanup claimed running 10 ≡ ok abandoned
unfolding abandon_cleanup task_of get put string_discrete ℕ_discrete CleanupRecord-discrete
abandon_works = refl

-- Another worker claims the task again.
abbrev reclaimed_task : CleanupRecord
reclaimed_task = record running {
  state = CleanupState.running other_worker;
  attempts = 2;
  updated_at = 11;
}

abbrev reclaimed : Ledger ℕ
reclaimed = record requested { cleanups = (0, reclaimed_task) ∷ [] }

reclaim_works :
    claim_cleanup abandoned 0 other_worker 11
    ≡ ok (reclaimed, some (record work { task = reclaimed_task }))
unfolding claim_cleanup claim_idle start_attempt next_attempt task_of resolve class_of get put
    find_id has_child string_discrete ℕ_discrete HoldingState-discrete
reclaim_works = refl

abandon-fences_example :
    finish_cleanup reclaimed work CleanupOutcome.confirmed 12 ≡ err LedgerError.stale_attempt
abandon-fences_example =
    abandon-fences claimed abandoned reclaimed work CleanupOutcome.confirmed 10 12 abandon_works
      (claims 0 other_worker 11 (some (record work { task = reclaimed_task })) reclaim_works stays)

abbrev finished : Ledger ℕ
finished = record requested {
  holdings = record held { state = HoldingState.retired 11 } ∷ [];
  cleanups =
      (0, record running { state = CleanupState.done Completion.confirmed; updated_at = 11 }) ∷ [];
}
