-- ===== src/Kernel/Plans/Approval/Released.antt =====
-- The end of an approval that succeeds (crates/portos-kernel/src/plans/approval.rs).
use portos.Base.{
  ℕ, ◌≡◌, refl, sym, ap, ◌∙◌, subst, Option, none, some, List, [], ◌∷◌, ◌++◌, append-nil, length,
  arith,
}
use portos.Protocol.{Result, ok, err}
use portos.Kernel.Plans.{
  Failure, Outcome, completed, RunState, BufferState, held, inserted, PlanRuntime,
}
use portos.Kernel.Plans.Control.{ConsentRecord}
use portos.Kernel.Plans.Store.{Buffered, Emission, Run, emit, move_items, finish_run}
use portos.Kernel.Plans.Consents.{Denial, Waiting, from_result, modify}
use portos.Kernel.Plans.Approval.{
  held_items, needs, check_needs, write_or_fail, mint_batch, release, commit_segment, end_batch,
  release_batch,
}
use portos.Kernel.Plans.Approval.Calls.{bind-ok, write_or_fail-ok}
use portos.Kernel.Plans.Approval.Batches.{
  numbered, mint-SameRun, journal-same, after, release-journal,
}

move_items-none_held :
    {V : Type 0} (bs : List (Buffered V × BufferState))
    → held_items (move_items held inserted bs) ≡ []
unfolding move_items held_items
move_items-none_held [] = refl
move_items-none_held ((b, held) ∷ bs) = move_items-none_held bs
move_items-none_held ((b, inserted) ∷ bs) = move_items-none_held bs
move_items-none_held ((b, BufferState.aborted) ∷ bs) = move_items-none_held bs

module _ {V W : Type 0} (runtime : PlanRuntime V W) where
  finish_run-rows :
      (o : Outcome) (r : Run V W)
      → ((finish_run runtime o r).journal ≡ r.journal)
        × ((finish_run runtime o r).buffer ≡ r.buffer)
        × ((finish_run runtime o r).state ≡ RunState.done)
  unfolding finish_run emit
  finish_run-rows o r = (ground arith, ground arith, ground arith)

  -- What an approval that succeeds leaves: the log with its rows, a run that is done, and no item held.
  pub record IsReleased (before : List Emission) (rows : List Emission) (t : Waiting V W)
      : Type 0 where
    pub logged : t.run.journal ≡ before ++ rows
    pub none_held : held_items t.run.buffer ≡ []
    pub ended : t.run.state ≡ RunState.done

  commit-rows :
      (s : Waiting V W) {n : ℕ} {t : Waiting V W}
      → commit_segment runtime s ≡ (ok n, t)
      → (t.run.journal ≡ s.run.journal) × (t.run.buffer ≡ s.run.buffer)
  unfolding commit_segment
  commit-rows s h = (
    ap (λ (x : Result Denial ℕ × Waiting V W). x.1.run.journal) (sym h),
    ap (λ (x : Result Denial ℕ × Waiting V W). x.1.run.buffer) (sym h),
  )

  end_batch-none :
      (n : ℕ) (s : Waiting V W) {u : Unit {0}} {t : Waiting V W}
      → end_batch runtime n none s ≡ (ok u, t)
      → IsReleased s.run.journal [] t
  unfolding end_batch emit
  end_batch-none n s {t = t} h =
      let (_, s1, p, h1) = bind-ok (write_or_fail runtime _) _ s h in
      let (_, s2, q, h2) = bind-ok (modify _) _ s1 h1 in
      let (_, s3, r, h3) = bind-ok (commit_segment runtime) _ s2 h2 in
      let p' = write_or_fail-ok runtime _ s p in
      let q' = ap (λ (x : Result Denial (Unit {0}) × Waiting V W). x.1.run) q in
      let (j3, b3) = commit-rows s2 r in
      let (j4, b4, d4) = finish_run-rows completed s3.run in
      let h' = ap (λ (x : Result Denial (Unit {0}) × Waiting V W). x.1.run) (sym h3) in
      let buffer : t.run.buffer ≡ move_items held inserted s.run.buffer =
        ap (λ (x : Run V W). x.buffer) h'
        ∙ b4
        ∙ b3
        ∙ ap (λ (x : Run V W). x.buffer) (sym q')
        ∙ ap (λ (x : Waiting V W). x.run.buffer) (sym p') in
      record {
        logged =
            ap (λ (x : Run V W). x.journal) h'
            ∙ j4
            ∙ j3
            ∙ ap (λ (x : Run V W). x.journal) (sym q')
            ∙ ap (λ (x : Waiting V W). x.run.journal) (sym p')
            ∙ sym (append-nil s.run.journal);
        none_held = ap held_items buffer ∙ move_items-none_held s.run.buffer;
        ended = ap (λ (x : Run V W). x.state) h' ∙ d4;
      }

  end_batch-ok :
      (n : ℕ) (why : Option Failure) (s : Waiting V W) {u : Unit {0}} {t : Waiting V W}
      → end_batch runtime n why s ≡ (ok u, t)
      → (why ≡ none) × IsReleased s.run.journal [] t
  unfolding end_batch
  end_batch-ok n none s h = (refl, end_batch-none n s h)
  end_batch-ok n (some why) s h =
      let (_, s1, p, h1) = bind-ok _ (λ _. from_result (err (Denial.approve_failed why))) s h in cc

  pub release_batch-ok :
      (c : ConsentRecord) (bs : List (Buffered V)) (s : Waiting V W) {u : Unit {0}}
      {t : Waiting V W}
      → release_batch runtime c bs s ≡ (ok u, t)
      → (check_needs c.budget (needs bs []) ≡ ok tt)
        × IsReleased s.run.journal (numbered c.nonce (length s.run.journal) bs) t
  unfolding release_batch
  release_batch-ok c bs s h =
      let (_, s1, p, h1) = bind-ok (from_result (check_needs c.budget (needs bs []))) _ s h in
      let (_, s2, q, h2) = bind-ok (mint_batch runtime _ _) _ s1 h1 in
      let (why, s3, r, h3) = bind-ok (release runtime c.nonce (length s2.run.journal) bs) _ s2 h2 in
      let (w, e) = end_batch-ok (length bs) why s3 h3 in
      let minted : s2.run.journal ≡ s1.run.journal =
        journal-same s1 s2 (after (mint_batch runtime _ _) s1 (mint-SameRun runtime _ _) q) in
      let same : s1 ≡ s = cc in
      let start : s2.run.journal ≡ s.run.journal =
        minted ∙ ap (λ (x : Waiting V W). x.run.journal) same in
      let rows =
        release-journal runtime c.nonce (length s2.run.journal) bs s2
          (subst (λ o. release runtime c.nonce (length s2.run.journal) bs s2 ≡ (ok o, s3)) w r) in
      (
        ap (λ (x : Result Denial (Unit {0}) × Waiting V W). x.0) p,
        record {
          logged =
              e.logged
              ∙ append-nil s3.run.journal
              ∙ rows
              ∙ ap (λ j. j ++ numbered c.nonce (length j) bs) start;
          none_held = e.none_held;
          ended = e.ended;
        },
      )
