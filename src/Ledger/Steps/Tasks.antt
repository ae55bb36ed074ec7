-- ===== src/Ledger/Steps/Tasks.antt =====
-- The operations on retirement tasks as changes.
use portos.Base.{
  ◌≡◌, ◌∙◌, ap, subst, inl, inr, false, not, ◌&&◌, Option, arith, Bool-cases, test, test→,
}
use portos.Errors.{ok, LedgerError, >>=-eq-ok, require-ok}
use portos.Time.{Timestamp}
use portos.Cleanup.{
  CleanupId, CleanupRecord, CleanupRecord-discrete, CleanupTarget-discrete, CleanupOutcome,
  HostWitness, HoldingState, HoldingState-discrete, is_done, is_running,
}
use portos.Ra.Fractions.{Rationals}
use portos.Ledger.{Ledger, Holding, has_child, resolve}
use portos.Ledger.Retirement.{
  CleanupWork, state_after, task_of, claim_cleanup, claim_idle, start_attempt, finish_cleanup,
  abandon_cleanup, retired_if,
}
use portos.Ledger.Updates.{find_id-id}
use portos.Ledger.Changes.{Change, rows_kept, row_changed, Keeps-state, resolve-ok}

module _ {Q : Type 0} where
  abbrev SameRows : Ledger Q → Ledger Q → Type 0
  SameRows l l' =
      (l'.holdings ≡ l.holdings) × (l'.capacities ≡ l.capacities) × (l'.next_id ≡ l.next_id)

  start_attempt-SameRows :
      (l l' : Ledger Q) (id : CleanupId) (t : CleanupRecord) (h : Holding Q) (w : HostWitness)
      (now : Timestamp) (work : Option CleanupWork)
      → start_attempt l id t h w now ≡ ok (l', work)
      → SameRows l l'
  unfolding start_attempt
  start_attempt-SameRows l l' id t h w now work e = ground arith

  claim_idle-SameRows :
      (l l' : Ledger Q) (id : CleanupId) (t : CleanupRecord) (w : HostWitness) (now : Timestamp)
      (work : Option CleanupWork)
      → claim_idle l id t w now ≡ ok (l', work)
      → SameRows l l'
  unfolding claim_idle
  claim_idle-SameRows l l' id t w now work e =
      let (h, p, e1) = >>=-eq-ok (resolve l t.holding) _ e in
      ground (arith, e1, start_attempt-SameRows l l' id t h w now work)

  pub claim-SameRows :
      (l l' : Ledger Q) (id : CleanupId) (w : HostWitness) (now : Timestamp)
      (work : Option CleanupWork)
      → claim_cleanup l id w now ≡ ok (l', work)
      → SameRows l l'
  unfolding claim_cleanup
  claim-SameRows l l' id w now work e =
      let (t, p, e1) = >>=-eq-ok (task_of l id LedgerError.invalid_cleanup) _ e in
      ground (arith, e1, claim_idle-SameRows l l' id t w now work)

  pub abandon-SameRows :
      (l l' : Ledger Q) (seen : CleanupRecord) (now : Timestamp)
      → abandon_cleanup l seen now ≡ ok l'
      → SameRows l l'
  unfolding abandon_cleanup
  abandon-SameRows l l' seen now e =
      let (t, p, e1) = >>=-eq-ok (task_of l seen.id LedgerError.stale_attempt) _ e in
      ground (arith, e1)

  -- A cleanup that ends found its task unchanged, and its holding without occupying children.
  pub finish-facts :
      (l l' : Ledger Q) (work : CleanupWork) (o : CleanupOutcome) (now : Timestamp)
      → finish_cleanup l work o now ≡ ok l'
      → (has_child l work.task.holding.id ≡ false)
        × (l'.holdings ≡ retired_if (is_done (state_after o)) work.task.holding.id now l.holdings)
        × (l'.capacities ≡ l.capacities)
        × (l'.next_id ≡ l.next_id)
  unfolding finish_cleanup
  finish-facts l l' work o now e =
      let (t, p, e1) = >>=-eq-ok (task_of l work.task.id LedgerError.stale_attempt) _ e in
      let (same, e2) =
        require-ok (test (CleanupRecord-discrete t work.task) && is_running t.state)
          LedgerError.stale_attempt _ e1 in
      let (h, r, e3) = >>=-eq-ok (resolve l t.holding) _ e2 in
      let eq : t ≡ work.task = test→ (CleanupRecord-discrete t work.task) (ground (arith, same)) in
      let id : h.id ≡ t.holding.id = find_id-id _ l.holdings (resolve-ok l t.holding r) in
      let (_, e4) =
        require-ok
          (test (HoldingState-discrete h.state (HoldingState.retiring t.id))
            && test (CleanupTarget-discrete h.target work.target))
          LedgerError.stale_attempt _ e3 in
      let (kids, e5) = require-ok (not (has_child l h.id)) LedgerError.teardown_order _ e4 in
      let j : h.id ≡ work.task.holding.id = id ∙ ap (λ (t : CleanupRecord). t.holding.id) eq in
      (
        ground (arith, kids, j, has_child l h.id),
        ground (arith, e5),
        ground (arith, e5),
        ground (arith, e5),
      )

module _ {Q : Type 0} (rat : Rationals Q) where
  SameRows-Change : (l l' : Ledger Q) → SameRows l l' → Change rat l l'
  SameRows-Change l l' s = rows_kept s.0 s.1 s.2

  pub claim-Change :
      (l l' : Ledger Q) (id : CleanupId) (w : HostWitness) (now : Timestamp)
      (work : Option CleanupWork)
      → claim_cleanup l id w now ≡ ok (l', work)
      → Change rat l l'
  claim-Change l l' id w now work e = SameRows-Change l l' (claim-SameRows l l' id w now work e)

  pub abandon-Change :
      (l l' : Ledger Q) (seen : CleanupRecord) (now : Timestamp)
      → abandon_cleanup l seen now ≡ ok l'
      → Change rat l l'
  abandon-Change l l' seen now e = SameRows-Change l l' (abandon-SameRows l l' seen now e)

  pub finish-Change :
      (l l' : Ledger Q) (work : CleanupWork) (o : CleanupOutcome) (now : Timestamp)
      → finish_cleanup l work o now ≡ ok l'
      → Change rat l l'
  finish-Change l l' work o now e =
      let (kids, rows, caps, ids) = finish-facts l l' work o now e in
      elim (Bool-cases (is_done (state_after o))) [
        | inl d ↦
            row_changed work.task.holding.id (λ h. record h { state = HoldingState.retired now })
              (Keeps-state (HoldingState.retired now)) (λ h p u. cc) (inr kids)
              (subst (λ b. l'.holdings ≡ retired_if b work.task.holding.id now l.holdings) d rows)
              caps ids
        | inr d ↦
            rows_kept
              (subst (λ b. l'.holdings ≡ retired_if b work.task.holding.id now l.holdings) d rows)
              caps ids
      ]
