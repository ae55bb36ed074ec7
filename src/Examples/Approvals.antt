-- ===== src/Examples/Approvals.antt =====
-- The approval of a concrete batch. The world counts the calls of the host.
use portos.Base.{ℕ, ◌+◌, ◌≤◌, ◌≡◌, refl, true, none, some, [], ◌∷◌, string_discrete, arith}
use portos.Base.Maps.{get, put}
use portos.Protocol.{ok, err}
use portos.Kernel.Plancheck.{u64_max, wrapping, budget_of}
use portos.Kernel.Plans.{RunState, held, PlanRuntime, answered}
use portos.Kernel.Plans.Control.{ConsentRecord, ttl_at}
use portos.Kernel.Plans.Verbs.{by_family}
use portos.Kernel.Plans.Store.{Buffered, Run, emit, move_items, finish_run}
use portos.Kernel.Plans.Consents.{
  stale_nonce, Waiting, ◌>>=◌, Mac, verify, consume, check_and_consume_consent,
}
use portos.Kernel.Plans.Approval.{
  consent_ttl_at, held_items, mark_items, needs, check_needs, require_awaiting, require_in_time,
  write_or_fail, mint_batch, on_released, release, commit_segment, end_batch, release_batch,
  approve,
}
use portos.Kernel.Plans.Approval.Once.{now, consent_approves_once}
use portos.Kernel.Plans.Approval.Batches.{numbered, SameRun}
use portos.Kernel.Plans.Approval.Released.{IsReleased}
use portos.Kernel.Plans.Approval.Granted.{cost_of, approve-releases, approve-within_budget}
use portos.Kernel.Plans.Approval.Refused.{is_refusal, refusal_keeps_run}

abbrev toy_host : PlanRuntime ℕ ℕ
toy_host = record {
  schemas = λ _. record { observe_labels = []; external_effects = [] };
  effect_policy = λ _ _ _. record { target = "t"; withhold = true };
  invoke = λ _ _ v n. (answered v, n + 1);
  teardown_segment = λ _ n. n;
  mint = λ _ _ _ _ n. (true, n);
  transfer_all = λ _ _ n. (some 0, n);
  write = λ n. (true, n);
}

abbrev toy_mac : Mac
toy_mac _ _ _ _ _ = "m"

abbrev started : ConsentRecord
started = record {
  plan_hash = "h";
  budget = [];
  nonce = "first";
  issued_at = 1;
  ttl_secs = 60;
  mac = "m";
}

abbrev fresh_consent : ConsentRecord
fresh_consent = record started { nonce = "second"; budget = ("mail::send", 2) ∷ [] }

abbrev sends : ℕ → Buffered ℕ
sends n = record { seq = n; verb = "mail::send"; target = "t"; args = n; cost = 1 }

abbrev waiting_run : Run ℕ ℕ
waiting_run = record {
  env = [];
  modes = [];
  withheld_count = 2;
  active_nonce = "first";
  state = RunState.awaiting_approval;
  row_state = RunState.awaiting_approval;
  outcome = none;
  buffer = (sends 1, held) ∷ (sends 2, held) ∷ [];
  journal = [];
  events = [];
  signals = [];
  world = 0;
}

abbrev waiting : Waiting ℕ ℕ
waiting = record {
  run = waiting_run;
  plan_hash = "h";
  fiber = "f";
  segment = "s";
  nonce = "first";
  consents = started ∷ [];
}

abbrev released : Waiting ℕ ℕ
released = (approve toy_host toy_mac 2 3 fresh_consent waiting).1

batch_is_approved : approve toy_host toy_mac 2 3 fresh_consent waiting ≡ (ok tt, released)
unfolding approve ◌>>=◌ ttl_at verify wrapping consent_ttl_at held_items mark_items needs
    check_needs require_awaiting require_in_time consume check_and_consume_consent write_or_fail
    mint_batch on_released release commit_segment end_batch release_batch emit move_items finish_run
    get put string_discrete by_family
batch_is_approved = refl

-- The consent that started the run does not approve its batch.
replay_is_refused :
    approve toy_host toy_mac 2 3 started waiting ≡ (err (stale_nonce "first"), waiting)
unfolding approve ◌>>=◌ ttl_at verify wrapping consent_ttl_at held_items require_awaiting
    require_in_time consume check_and_consume_consent string_discrete
replay_is_refused = refl

approve-releases_example :
    IsReleased toy_host [] (numbered "second" 0 (held_items waiting_run.buffer)) released
approve-releases_example =
    approve-releases toy_host toy_mac 2 3 fresh_consent waiting released batch_is_approved

batch_fits : cost_of "mail::send" (held_items waiting_run.buffer) ≤ u64_max
unfolding cost_of held_items string_discrete
batch_fits = omega arith

approve-within_budget_example :
    cost_of "mail::send" (held_items waiting_run.buffer)
    ≤ budget_of "mail::send" fresh_consent.budget
approve-within_budget_example =
    approve-within_budget toy_host toy_mac 2 3 fresh_consent waiting released "mail::send"
      batch_is_approved batch_fits

consent_approves_once_example :
    ((approve toy_host toy_mac 4 5 fresh_consent released).1.run.journal ≡ released.run.journal)
    × ((approve toy_host toy_mac 4 5 fresh_consent released).1.run.buffer ≡ released.run.buffer)
consent_approves_once_example =
    consent_approves_once toy_host toy_mac fresh_consent fresh_consent waiting released released 2 3
      4 5 batch_is_approved now refl

stale_is_refusal : is_refusal (stale_nonce "first") ≡ true
unfolding is_refusal
stale_is_refusal = refl

refusal_keeps_run_example : SameRun waiting waiting
refusal_keeps_run_example =
    refusal_keeps_run toy_host toy_mac 2 3 started waiting waiting (stale_nonce "first")
      replay_is_refused stale_is_refusal
