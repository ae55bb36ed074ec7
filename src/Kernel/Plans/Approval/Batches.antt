-- ===== src/Kernel/Plans/Approval/Batches.antt =====
-- What an approval releases (`approve`, crates/portos-kernel/src/plans/approval.rs).
use portos.Base.{
  ℕ, ◌+◌, ◌≡◌, refl, sym, ap, ◌∙◌, subst, Option, none, List, [], ◌∷◌, ◌++◌, append-nil,
  append_assoc, String,
}
use portos.Base.Maps.{Map}
use portos.Protocol.{Result, ok}
use portos.Kernel.Plans.{
  Failure, Invoked, answered, budget_exhausted, no_capability, failed, PlanRuntime,
}
use portos.Kernel.Plans.Control.{ConsentRecord}
use portos.Kernel.Plans.Verbs.{Family}
use portos.Kernel.Plans.Store.{Buffered, Emission, Run, in_world, emit}
use portos.Kernel.Plans.Consents.{
  Denial, Waiting, Call, Mac, on_run, modify, consume, check_and_consume_consent,
}
use portos.Kernel.Plans.Approval.{write_or_fail, mint_batch, on_released, release}
use portos.Kernel.Plans.Approval.Calls.{
  IsPreorder, Keeps, bind-Keeps, either-Keeps, bind-ok, write_or_fail-ok,
}

-- The rows of the log for a batch, numbered after those that are there.
unfoldable pub numbered : {V : Type 0} → String → ℕ → List (Buffered V) → List Emission
numbered nonce n [] = []
numbered nonce n (b ∷ bs) =
    (record { seq = n + 1; verb = b.verb; target = b.target; nonce = nonce })
    ∷ numbered nonce (n + 1) bs

module _ {V W : Type 0} where
  -- Only the world may have changed.
  unfoldable pub SameRun : Waiting V W → Waiting V W → Type 0
  SameRun s t = in_world t.run.world s.run ≡ t.run

  pub SameRun-IsPreorder : IsPreorder SameRun
  unfolding SameRun
  SameRun-IsPreorder = record {
    stays = λ s. refl;
    joins = λ {s} {t} {u} h k. ap (in_world u.run.world) h ∙ k;
  }

  pub run_in_world : (w : W) (s : Waiting V W) → SameRun s (on_run (in_world w) s)
  unfolding SameRun
  run_in_world w s = refl

  pub journal-same : (s t : Waiting V W) → SameRun s t → t.run.journal ≡ s.run.journal
  unfolding SameRun
  journal-same s t e = ap (λ (r : Run V W). r.journal) (sym e)

  pub buffer-same : (s t : Waiting V W) → SameRun s t → t.run.buffer ≡ s.run.buffer
  unfolding SameRun
  buffer-same s t e = ap (λ (r : Run V W). r.buffer) (sym e)

  -- What a call that keeps the run leaves, by its result.
  pub after :
      {A : Type 0} (m : Call (Waiting V W) A) (s : Waiting V W) {r : Result Denial A}
      {t : Waiting V W}
      → Keeps SameRun m
      → m s ≡ (r, t)
      → SameRun s t
  after m s k e = subst (λ (x : Result Denial _ × Waiting V W). SameRun s x.1) e (k s)

module _ {V W : Type 0} (runtime : PlanRuntime V W) where
  consume-SameRun : (c : ConsentRecord) → Keeps SameRun (consume runtime c)
  unfolding consume SameRun
  consume-SameRun c s = either-Keeps SameRun-IsPreorder _ _ _ s refl refl

  pub check-SameRun :
      (mac : Mac) (now : ℕ) (c : ConsentRecord)
      → Keeps SameRun (check_and_consume_consent runtime mac now c)
  unfolding check_and_consume_consent
  check-SameRun mac now c =
      bind-Keeps SameRun-IsPreorder _ _ (λ s. SameRun-IsPreorder.stays s)
        λ _.
          bind-Keeps SameRun-IsPreorder _ _ (λ s. SameRun-IsPreorder.stays s) λ _. consume-SameRun c

  pub mint-SameRun :
      (until : ℕ) (fs : Map String Family) → Keeps SameRun (mint_batch runtime until fs)
  unfolding mint_batch
  mint-SameRun until [] = λ s. SameRun-IsPreorder.stays s
  mint-SameRun until ((family, (verbs, counts)) ∷ fs) =
      bind-Keeps SameRun-IsPreorder _ _ (λ s. run_in_world _ s) λ _. mint-SameRun until fs

  -- An item that is released is logged, and the rest of the batch follows.
  on_released-none :
      (rest : Call (Waiting V W) (Option Failure)) (nonce : String) (seq : ℕ) (b : Buffered V)
      (r : Invoked V) (s : Waiting V W) {t : Waiting V W}
      → on_released runtime rest nonce seq b r s ≡ (ok none, t)
      → (u : Waiting V W) × (u.run.journal
          ≡ s.run.journal
            ++ (record { seq = seq; verb = b.verb; target = b.target; nonce = nonce }) ∷ [])
        × (rest u ≡ (ok none, t))
  unfolding on_released emit
  on_released-none rest nonce seq b (answered _) s h =
      let (_, s1, p, h1) = bind-ok (write_or_fail runtime _) _ s h in
      let (_, s2, q, h2) = bind-ok (write_or_fail runtime _) _ s1 h1 in
      let (_, s3, r, h3) = bind-ok (modify _) _ s2 h2 in
      let e1 = ap (λ (x : Waiting V W). x.run.journal) (write_or_fail-ok runtime _ s p) in
      let e2 = ap (λ (x : Waiting V W). x.run.journal) (write_or_fail-ok runtime _ s1 q) in
      let e3 = ap (λ (x : Result Denial (Unit {0}) × Waiting V W). x.1.run.journal) r in
      (s3, sym e3 ∙ sym e2 ∙ sym e1, h3)
  on_released-none rest nonce seq b budget_exhausted s h = cc
  on_released-none rest nonce seq b no_capability s h = cc
  on_released-none rest nonce seq b (failed e) s h = cc

  pub release-journal :
      (nonce : String) (n : ℕ) (bs : List (Buffered V)) (s : Waiting V W) {t : Waiting V W}
      → release runtime nonce n bs s ≡ (ok none, t)
      → t.run.journal ≡ s.run.journal ++ numbered nonce n bs
  unfolding release numbered
  release-journal nonce n [] s h =
      ap (λ (x : Result Denial (Option Failure) × Waiting V W). x.1.run.journal) (sym h)
      ∙ sym (append-nil s.run.journal)
  release-journal nonce n (b ∷ bs) s h =
      let (r, w) = runtime.invoke s.fiber b.verb b.args s.run.world in
      let (u, e, h1) =
        on_released-none (release runtime nonce (n + 1) bs) nonce (n + 1) b r
          (on_run (in_world w) s) h in
      release-journal nonce (n + 1) bs u h1
      ∙ ap (λ j. j ++ numbered nonce (n + 1) bs) e
      ∙ append_assoc s.run.journal _ (numbered nonce (n + 1) bs)
