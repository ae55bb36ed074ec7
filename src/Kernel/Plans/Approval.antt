-- ===== src/Kernel/Plans/Approval.antt =====
-- The approval of a withheld batch (`approve`, crates/portos-kernel/src/plans/approval.rs).
pub mod Calls
pub mod Consumed
pub mod Once
pub mod Batches
pub mod Released
pub mod Granted
pub mod Refused
use portos.Base.{
  ℕ, ◌+◌, Bool, true, false, not, ◌&&◌, Option, none, some, List, [], ◌∷◌, ◌++◌, String,
  string_discrete, ltb, ◌==◌, any, length, test, if◌then◌else◌,
}
use portos.Base.Maps.{Map, put}
use portos.Base.Sets.{of_list}
use portos.Protocol.{Result, ok, err}
use portos.Kernel.Plancheck.{wrapping, budget_of}
use portos.Kernel.Plans.{
  Refusal, no_budget, no_grant, told, Failure, release_failed, Outcome, completed, fail_stop,
  RunState, BufferState, held, inserted, Invoked, answered, budget_exhausted, no_capability, failed,
  PlanRuntime,
}
use portos.Kernel.Plans.Control.{ConsentRecord, ttl_at}
use portos.Kernel.Plans.Verbs.{Family, by_family}
use portos.Kernel.Plans.Store.{
  Event, performed, approved, Buffered, Run, BufferState_eq, in_world, emit, set_buffer_state,
  move_items, finish_run, teardown,
}
use portos.Kernel.Plans.Consents.{
  Call, Denial, Mac, Waiting, approve_failed, budget_short, check_and_consume_consent,
  consent_expired, consent_missing, consume, continue_call, demand, from_result, is_consumed,
  mac_mismatch, mint_failed, modify, not_awaiting, on_run, original_expired, plan_mismatch,
  stale_nonce, transfer_failed, verify, write_failed, ◌>>=◌, ◌>>◌,
}

-- The end of the consent under a nonce.
unfoldable pub consent_ttl_at : String → List ConsentRecord → Result Denial ℕ
consent_ttl_at nonce [] = err (consent_missing nonce)
consent_ttl_at nonce (c ∷ cs) =
    if test (string_discrete nonce c.nonce) then ok (ttl_at c) else consent_ttl_at nonce cs

unfoldable pub held_items : {V : Type 0} → List (Buffered V × BufferState) → List (Buffered V)
held_items [] = []
held_items ((b, st) ∷ bs) = if BufferState_eq st held then b ∷ held_items bs else held_items bs

unfoldable pub mark_items :
    {V : Type 0}
    → ℕ
    → BufferState
    → List (Buffered V × BufferState)
    → List (Buffered V × BufferState)
mark_items seq to [] = []
mark_items seq to ((b, st) ∷ bs) = (b, if b.seq == seq then to else st) ∷ mark_items seq to bs

-- What a batch needs of each verb.
unfoldable pub needs : {V : Type 0} → List (Buffered V) → Map String ℕ → Map String ℕ
needs [] m = m
needs (b ∷ bs) m = needs bs (put string_discrete b.verb (wrapping (budget_of b.verb m + b.cost)) m)

unfoldable pub check_needs : Map String ℕ → Map String ℕ → Result Denial (Unit {0})
check_needs budget [] = ok tt
check_needs budget ((verb, n) ∷ need) =
    if ltb (budget_of verb budget) n
    then err (budget_short verb n (budget_of verb budget))
    else check_needs budget need

abbrev pub in_time : ℕ → Result Denial ℕ → Result Denial (Unit {0})
in_time now (err e) = err e
in_time now (ok ttl) = demand (not (ltb ttl now)) original_expired

abbrev pub if_awaiting : RunState → Result Denial (Unit {0})
if_awaiting RunState.admitted = err (not_awaiting RunState.admitted)
if_awaiting RunState.running = err (not_awaiting RunState.running)
if_awaiting RunState.awaiting_approval = ok tt
if_awaiting RunState.paused = err (not_awaiting RunState.paused)
if_awaiting RunState.done = err (not_awaiting RunState.done)

module _ {V W : Type 0} where
  unfoldable pub require_awaiting : Call (Waiting V W) (Unit {0})
  require_awaiting s = from_result (if_awaiting s.run.row_state) s

  unfoldable pub require_in_time : ℕ → Call (Waiting V W) (Unit {0})
  require_in_time now s = from_result (in_time now (consent_ttl_at s.nonce s.consents)) s

module _ {V W : Type 0} (runtime : PlanRuntime V W) where
  unfoldable pub write_or_fail : (Run V W → Run V W) → Call (Waiting V W) (Unit {0})
  write_or_fail change s =
      let (written, w) = runtime.write s.run.world in
      if written
      then (ok tt, on_run change (on_run (in_world w) s))
      else (err write_failed, on_run (in_world w) s)

  -- Fresh capabilities for the batch, one for each family.
  unfoldable pub mint_batch : ℕ → Map String Family → Call (Waiting V W) (Unit {0})
  mint_batch until [] = from_result (ok tt)
  mint_batch until ((family, (verbs, counts)) ∷ fs) = do
    λ s.
        let (minted, w) =
          runtime.mint s.fiber (Prim.Native.String.◌++◌ "driver:" family) (of_list verbs)
            (record { expires_at = some until; counts = counts }) s.run.world in
        from_result (demand minted mint_failed) (on_run (in_world w) s)
    mint_batch until fs

  unfoldable pub on_released :
      Call (Waiting V W) (Option Failure)
      → String
      → ℕ
      → Buffered V
      → Invoked V
      → Call (Waiting V W) (Option Failure)
  unfolding emit
  on_released rest nonce seq b (answered _) = do
    write_or_fail λ r. record r {
      journal =
          r.journal ++ (record { seq = seq; verb = b.verb; target = b.target; nonce = nonce }) ∷ [];
    }
    write_or_fail λ r. record r { buffer = mark_items b.seq inserted r.buffer }
    modify (emit (performed b.verb b.target true))
    rest
  on_released rest nonce seq b budget_exhausted =
      from_result (ok (some (release_failed b.verb no_budget)))
  on_released rest nonce seq b no_capability =
      from_result (ok (some (release_failed b.verb no_grant)))
  on_released rest nonce seq b (failed e) = from_result (ok (some (release_failed b.verb (told e))))

  -- The loop over the batch: in its order, each item marked before the next.
  unfoldable pub release : String → ℕ → List (Buffered V) → Call (Waiting V W) (Option Failure)
  unfolding on_released
  release nonce seq [] s = (ok none, s)
  release nonce seq (b ∷ bs) s =
      let (r, w) = runtime.invoke s.fiber b.verb b.args s.run.world in
      on_released (release nonce (seq + 1) bs) nonce (seq + 1) b r (on_run (in_world w) s)

  abbrev pub or_transfer_failed : Option ℕ → Result Denial ℕ
  or_transfer_failed none = err transfer_failed
  or_transfer_failed (some n) = ok n

  unfoldable pub commit_segment : Call (Waiting V W) ℕ
  commit_segment s =
      let (moved, w) = runtime.transfer_all s.segment s.fiber s.run.world in
      (or_transfer_failed moved, on_run (in_world w) s)

  unfoldable pub end_batch : ℕ → Option Failure → Call (Waiting V W) (Unit {0})
  unfolding emit move_items commit_segment
  end_batch n none = do
    write_or_fail λ r. record r { buffer = move_items held inserted r.buffer }
    modify (emit (approved n))
    commit_segment >>= λ _. modify (finish_run runtime completed)
  end_batch n (some why) = do
    λ s.
        modify
          (λ r.
            finish_run runtime (fail_stop why)
              (teardown runtime s.segment (set_buffer_state runtime held BufferState.aborted r)))
          s
    from_result (err (approve_failed why))

  unfoldable pub release_batch : ConsentRecord → List (Buffered V) → Call (Waiting V W) (Unit {0})
  unfolding needs check_needs mint_batch release end_batch
  release_batch c batch = do
    from_result (check_needs c.budget (needs batch []))
    mint_batch (ttl_at c) (by_family (needs batch []) [])
    λ s. (release c.nonce (length s.run.journal) batch >>= end_batch (length batch)) s

  -- The clock is read twice: for the consent that started the run, and for the one that approves.
  unfoldable pub approve : Mac → ℕ → ℕ → ConsentRecord → Call (Waiting V W) (Unit {0})
  unfolding require_awaiting require_in_time check_and_consume_consent held_items release_batch
  approve mac now later c = do
    require_awaiting
    require_in_time now
    check_and_consume_consent runtime mac later c
    λ s. release_batch c (held_items s.run.buffer) s
