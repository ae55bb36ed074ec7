-- ===== src/Kernel/Plans/Approval/Refused.antt =====
-- An approval that is refused (`approve`, crates/portos-kernel/src/plans/approval.rs).
use portos.Base.{
  ℕ, ◌+◌, ◌≡◌, refl, subst, inl, inr, Bool, true, false, Option, none, some, List, [], ◌∷◌, String,
  length, if◌then◌else◌,
}
use portos.Protocol.{Result, ok, err}
use portos.Kernel.Plans.{
  Failure, Invoked, answered, budget_exhausted, no_capability, failed, PlanRuntime,
}
use portos.Kernel.Plans.Control.{ConsentRecord}
use portos.Kernel.Plans.Store.{Buffered, Run, in_world}
use portos.Kernel.Plans.Consents.{
  Denial, not_awaiting, consent_missing, stale_nonce, original_expired, mac_mismatch,
  consent_expired, mint_failed, plan_mismatch, budget_short, write_failed, transfer_failed,
  approve_failed, Waiting, Call, ◌>>=◌, from_result, Mac, on_run,
}
use portos.Kernel.Plans.Approval.{
  held_items, require_awaiting, require_in_time, write_or_fail, on_released, release,
  or_transfer_failed, commit_segment, end_batch, release_batch, approve,
}
use portos.Kernel.Plans.Approval.Calls.{Keeps, bind-err}
use portos.Kernel.Plans.Approval.Batches.{
  SameRun, SameRun-IsPreorder, check-SameRun, mint-SameRun, after,
}

-- The denials that come before the first item is released.
unfoldable pub is_refusal : Denial → Bool
is_refusal (not_awaiting _) = true
is_refusal (consent_missing _) = true
is_refusal (stale_nonce _) = true
is_refusal original_expired = true
is_refusal mac_mismatch = true
is_refusal consent_expired = true
is_refusal mint_failed = true
is_refusal (plan_mismatch _ _) = true
is_refusal (budget_short _ _ _) = true
is_refusal write_failed = false
is_refusal transfer_failed = false
is_refusal (approve_failed _) = false

module _ {V W : Type 0} where
  -- A call that refuses leaves the run.
  Refuses : {A : Type 0} → Call (Waiting V W) A → Type 0
  Refuses m =
      (s : Waiting V W) (e : Denial) (t : Waiting V W)
      → m s ≡ (err e, t)
      → is_refusal e ≡ true
      → SameRun s t

  -- A call that fails does not refuse.
  Commits : {A : Type 0} → Call (Waiting V W) A → Type 0
  Commits m =
      (s : Waiting V W) (e : Denial) (t : Waiting V W) → m s ≡ (err e, t) → is_refusal e ≡ false

  Commits-Refuses : {A : Type 0} (m : Call (Waiting V W) A) → Commits m → Refuses m
  unfolding Commits Refuses
  Commits-Refuses m h s e t p q = let no = h s e t p in cc

  bind-Commits :
      {A B : Type 0} (m : Call (Waiting V W) A) (f : A → Call (Waiting V W) B)
      → Commits m
      → ((a : A) → Commits (f a))
      → Commits (m >>= f)
  unfolding Commits
  bind-Commits m f h k s e t p = elim (bind-err m f s p) [
    | inl q ↦ h s e t q
    | inr (a, u, q, r) ↦ k a u e t r
  ]

  ok-Commits :
      {A : Type 0} (a : Waiting V W → A) (f : Waiting V W → Waiting V W)
      → Commits (λ s. (ok (a s), f s))
  unfolding Commits
  ok-Commits a f s e t p = cc

module _ {V W : Type 0} (runtime : PlanRuntime V W) where
  bind-Refuses :
      {A B : Type 0} (m : Call (Waiting V W) A) (f : A → Call (Waiting V W) B)
      → Keeps SameRun m
      → ((a : A) → Refuses (f a))
      → Refuses (m >>= f)
  unfolding Refuses
  bind-Refuses m f h k s e t p q = elim (bind-err m f s p) [
    | inl r ↦ after m s h r
    | inr (a, u, r, x) ↦ SameRun-IsPreorder.joins (after m s h r) (k a u e t x q)
  ]

  if-Commits :
      (b : Bool) (x y : Waiting V W) (e : Denial) (t : Waiting V W)
      → ◌≡◌ {A = Result Denial (Unit {0}) × Waiting V W}
          (if b then (ok tt, x) else (err write_failed, y))
          (err e, t)
      → is_refusal e ≡ false
  unfolding is_refusal
  if-Commits true x y e t p = cc
  if-Commits false x y e t p =
      let q : write_failed ≡ e = cc in subst (λ d. is_refusal d ≡ false) q refl

  write-Commits : (change : Run V W → Run V W) → Commits (write_or_fail runtime change)
  unfolding write_or_fail Commits
  write-Commits change s e t p = if-Commits (runtime.write s.run.world).0 _ _ e t p

  on_released-Commits :
      (rest : Call (Waiting V W) (Option Failure)) (nonce : String) (seq : ℕ) (b : Buffered V)
      (r : Invoked V)
      → Commits rest
      → Commits (on_released runtime rest nonce seq b r)
  unfolding on_released
  on_released-Commits rest nonce seq b (answered _) k =
      bind-Commits _ _ (write-Commits _)
        λ _. bind-Commits _ _ (write-Commits _) λ _. bind-Commits _ _ (ok-Commits _ _) λ _. k
  on_released-Commits rest nonce seq b budget_exhausted k = ok-Commits _ _
  on_released-Commits rest nonce seq b no_capability k = ok-Commits _ _
  on_released-Commits rest nonce seq b (failed e) k = ok-Commits _ _

  release-Commits :
      (nonce : String) (n : ℕ) (bs : List (Buffered V)) → Commits (release runtime nonce n bs)
  unfolding release Commits
  release-Commits nonce n [] s e t p = cc
  release-Commits nonce n (b ∷ bs) s e t p =
      let (r, w) = runtime.invoke s.fiber b.verb b.args s.run.world in
      on_released-Commits (release runtime nonce (n + 1) bs) nonce (n + 1) b r
        (release-Commits nonce (n + 1) bs) (on_run (in_world w) s) e t p

  transfer-Commits :
      (o : Option ℕ) (u t : Waiting V W) (e : Denial)
      → ◌≡◌ {A = Result Denial ℕ × Waiting V W} (or_transfer_failed runtime o, u) (err e, t)
      → is_refusal e ≡ false
  unfolding is_refusal
  transfer-Commits none u t e p =
      let q : transfer_failed ≡ e = cc in subst (λ d. is_refusal d ≡ false) q refl
  transfer-Commits (some n) u t e p = cc

  commit-Commits : Commits (commit_segment runtime)
  unfolding commit_segment Commits
  commit-Commits s e t p =
      transfer-Commits (runtime.transfer_all s.segment s.fiber s.run.world).0 _ t e p

  failed-Commits :
      (why : Failure)
      → Commits {V = V} {W = W} {A = Unit {0}} (from_result (err (approve_failed why)))
  unfolding Commits is_refusal
  failed-Commits why s e t p =
      let q : approve_failed why ≡ e = cc in subst (λ d. is_refusal d ≡ false) q refl

  end_batch-Commits : (n : ℕ) (why : Option Failure) → Commits (end_batch runtime n why)
  unfolding end_batch
  end_batch-Commits n none = bind-Commits _ _ (write-Commits _) λ _.
      bind-Commits _ _ (ok-Commits _ _) λ _. bind-Commits _ _ commit-Commits λ _. ok-Commits _ _
  end_batch-Commits n (some why) = bind-Commits _ _ (ok-Commits _ _) λ _. failed-Commits why

  released-Commits :
      (c : ConsentRecord) (bs : List (Buffered V))
      → Commits (λ s.
        (release runtime c.nonce (length s.run.journal) bs >>= end_batch runtime (length bs)) s)
  unfolding Commits
  released-Commits c bs s =
      bind-Commits (release runtime c.nonce (length s.run.journal) bs)
        (end_batch runtime (length bs)) (release-Commits c.nonce (length s.run.journal) bs)
        (end_batch-Commits (length bs)) s

  batch-Refuses :
      (c : ConsentRecord) (bs : List (Buffered V)) → Refuses (release_batch runtime c bs)
  unfolding release_batch
  batch-Refuses c bs =
      bind-Refuses _ _ (λ s. SameRun-IsPreorder.stays s)
        λ _.
          bind-Refuses _ _ (mint-SameRun runtime _ _) λ _. Commits-Refuses _ (released-Commits c bs)

  open_batch :
      (c : ConsentRecord)
      → Refuses (λ (s : Waiting V W). release_batch runtime c (held_items s.run.buffer) s)
  unfolding Refuses
  open_batch c s = batch-Refuses c (held_items s.run.buffer) s

  approve-Refuses :
      (mac : Mac) (now later : ℕ) (c : ConsentRecord) → Refuses (approve runtime mac now later c)
  unfolding approve require_awaiting require_in_time
  approve-Refuses mac now later c =
      bind-Refuses _ _ (λ s. SameRun-IsPreorder.stays s)
        λ _.
          bind-Refuses _ _ (λ s. SameRun-IsPreorder.stays s)
            λ _. bind-Refuses _ _ (check-SameRun runtime mac later c) λ _. open_batch c

  -- An approval that is refused before its first item is released changes nothing of the run but the
  -- world of the host: what is held stays held, and nothing is logged.
  pub refusal_keeps_run :
      (mac : Mac) (now later : ℕ) (c : ConsentRecord) (s t : Waiting V W) (e : Denial)
      → approve runtime mac now later c s ≡ (err e, t)
      → is_refusal e ≡ true
      → SameRun s t
  unfolding Refuses
  refusal_keeps_run mac now later c s t e p q = approve-Refuses mac now later c s e t p q
