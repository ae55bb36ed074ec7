-- ===== src/Ledger/Attempts.antt =====
-- One attempt at a time: a claimed task is not claimed again
-- (crates/portos-rm/src/ledger/cleanup.rs); and what a second release does.
use portos.Base.{◌≡◌, refl, none, some, ℕ_discrete, arith}
use portos.Base.Maps.{get, put, get-put_self}
use portos.Errors.{ok, LedgerError, >>=-eq-ok}
use portos.Identity.{HoldingHandle}
use portos.Time.{Timestamp}
use portos.Cleanup.{CleanupId, CleanupRecord, CleanupState, HostWitness, HoldingState}
use portos.Ledger.{Ledger, Holding, resolve, class_of, update}
use portos.Ledger.Retirement.{
  CleanupWork, next_attempt, task_of, start_attempt, claim_idle, claim_cleanup,
}
use portos.Ledger.Holdings.{release_live}

module _ {Q : Type 0} where
  -- An attempt that starts leaves its task running.
  start_attempt-running :
      (l l' : Ledger Q) (id : CleanupId) (t : CleanupRecord) (h : Holding Q) (w : HostWitness)
      (now : Timestamp) (work : CleanupWork)
      → start_attempt l id t h w now ≡ ok (l', some work)
      → (l'.cleanups ≡ put ℕ_discrete id work.task l.cleanups)
        × (work.task.state ≡ CleanupState.running w)
  unfolding start_attempt
  start_attempt-running l l' id t h w now work e =
      let (decl, d, e1) = >>=-eq-ok (class_of l h.class_id) _ e in
      let (n, a, e2) = >>=-eq-ok (next_attempt t.attempts) _ e1 in
      (ground (arith, e2), ground (arith, e2))

  claim_idle-running :
      (l l' : Ledger Q) (id : CleanupId) (t : CleanupRecord) (w : HostWitness) (now : Timestamp)
      (work : CleanupWork)
      → claim_idle l id t w now ≡ ok (l', some work)
      → (l'.cleanups ≡ put ℕ_discrete id work.task l.cleanups)
        × (work.task.state ≡ CleanupState.running w)
  unfolding claim_idle
  claim_idle-running l l' id t w now work e =
      let (h, r, e1) = >>=-eq-ok (resolve l t.holding) _ e in
      ground (arith, e1, start_attempt-running l l' id t h w now work)

  claim-running :
      (l l' : Ledger Q) (id : CleanupId) (w : HostWitness) (now : Timestamp) (work : CleanupWork)
      → claim_cleanup l id w now ≡ ok (l', some work)
      → (l'.cleanups ≡ put ℕ_discrete id work.task l.cleanups)
        × (work.task.state ≡ CleanupState.running w)
  unfolding claim_cleanup
  claim-running l l' id w now work e =
      let (t, p, e1) = >>=-eq-ok (task_of l id LedgerError.invalid_cleanup) _ e in
      ground (arith, e1, claim_idle-running l l' id t w now work)

  claim_of_running :
      (l : Ledger Q) (id : CleanupId) (w v : HostWitness) (now : Timestamp) (t : CleanupRecord)
      → get ℕ_discrete id l.cleanups ≡ some t
      → t.state ≡ CleanupState.running v
      → claim_cleanup l id w now ≡ ok (l, none)
  unfolding claim_cleanup task_of
  claim_of_running l id w v now t g r = rw (g, r) refl

  -- A task that a worker has claimed is not given to another: the next claim, of any worker and at any
  -- time, changes nothing and gives no work.
  pub claim-excludes :
      (l l' : Ledger Q) (id : CleanupId) (w v : HostWitness) (now later : Timestamp)
      (work : CleanupWork)
      → claim_cleanup l id w now ≡ ok (l', some work)
      → claim_cleanup l' id v later ≡ ok (l', none)
  claim-excludes l l' id w v now later work e =
      let (c, r) = claim-running l l' id w now work e in
      claim_of_running l' id v w later work.task
        (rw c (get-put_self ℕ_discrete id work.task l.cleanups)) r

  -- What a release does to a holding that is found.
  release_live-facts :
      (l l' : Ledger Q) (handle : HoldingHandle) (h : Holding Q) (now : Timestamp)
      → release_live l handle h now ≡ ok l'
      → (l'.holdings
          ≡ update handle.id (λ h. record h { state = HoldingState.retired now }) l.holdings)
        × (l'.classes ≡ l.classes)
  unfolding release_live
  release_live-facts l l' handle h now e = (ground arith, ground arith)
