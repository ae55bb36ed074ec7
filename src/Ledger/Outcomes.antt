-- ===== src/Ledger/Outcomes.antt =====
-- What the outcome of a cleanup means for its holding and its task (`finish_cleanup`,
-- crates/portos-rm/src/ledger/cleanup.rs).
use portos.Base.{◌≡◌, none, some, ℕ_discrete}
use portos.Base.Maps.{get}
use portos.Errors.{ok}
use portos.Identity.{HoldingId}
use portos.Time.{Timestamp}
use portos.Cleanup.{
  CleanupId, CleanupRecord, CleanupState, CleanupOutcome, HostWitness, HoldingState,
}
use portos.Ledger.{Ledger, Holding, find_id}
use portos.Ledger.Retirement.{claim_cleanup}

module _ {Q : Type 0} where
  -- The resource is gone: the holding is found retired, and the task is not given out any more.
  abbrev pub IsGone :
      Ledger Q → HoldingId → CleanupId → Timestamp → HostWitness → Timestamp → Type 0
  IsGone l' id task now w later =
      ((h : Holding Q) × (find_id id l'.holdings ≡ some h) × (h.state ≡ HoldingState.retired now))
      × (claim_cleanup l' task w later ≡ ok (l', none))

  -- It may be there still: all holdings stay, this one is retiring under its task, and the task is
  -- in the state that tells why.
  abbrev pub Remains : Ledger Q → Ledger Q → HoldingId → CleanupId → CleanupState → Type 0
  Remains l l' id task state =
      (l'.holdings ≡ l.holdings)
      × ((h : Holding Q) × (find_id id l'.holdings ≡ some h)
          × (h.state ≡ HoldingState.retiring task))
      × ((t : CleanupRecord) × (get ℕ_discrete task l'.cleanups ≡ some t) × (t.state ≡ state))

  abbrev pub Settles :
      Ledger Q
      → Ledger Q
      → HoldingId
      → CleanupId
      → Timestamp
      → HostWitness
      → Timestamp
      → CleanupOutcome
      → Type 0
  Settles l l' id task now w later CleanupOutcome.confirmed = IsGone l' id task now w later
  Settles l l' id task now w later CleanupOutcome.already_absent = IsGone l' id task now w later
  Settles l l' id task now w later (CleanupOutcome.retryable s) =
      Remains l l' id task (CleanupState.retryable s)
  Settles l l' id task now w later (CleanupOutcome.unknown s) =
      Remains l l' id task (CleanupState.unknown s)
  Settles l l' id task now w later (CleanupOutcome.blocked s) =
      Remains l l' id task (CleanupState.blocked s)
