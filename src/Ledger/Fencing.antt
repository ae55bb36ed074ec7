-- ===== src/Ledger/Fencing.antt =====
-- An attempt that was abandoned is fenced off (`abandon_cleanup` and `finish_cleanup`,
-- crates/portos-rm/src/ledger/cleanup.rs), whatever other workers do to its task afterwards.
use portos.Base.{
  ℕ, ◌+◌, ◌<◌, ◌≡◌, refl, sym, ap, ◌∙◌, subst, ◌⊎◌, inl, inr, true, false, ◌&&◌, ◌||◌, Option, some,
  ℕ_discrete, test, test→, arith, Bool-cases,
}
use portos.Base.Maps.{get, put, get-put_self, get-put_ne}
use portos.Errors.{ok, err, LedgerError, >>=-eq-ok, require-ok}
use portos.Time.{Timestamp}
use portos.Cleanup.{
  CleanupId, CleanupRecord, CleanupRecord-discrete, CleanupState, CleanupOutcome, HostWitness,
  is_running, is_done,
}
use portos.Ledger.{Ledger, Holding, resolve, class_of}
use portos.Ledger.Retirement.{
  CleanupWork, next_attempt, state_after, task_of, start_attempt, claim_idle, claim_cleanup,
  finish_cleanup, abandon_cleanup,
}

-- The attempt with the number `n` is over: a later one was started, or it does not run.
abbrev pub IsOver : ℕ → CleanupRecord → Type 0
IsOver n t = (n < t.attempts) ⊎ ((t.attempts ≡ n) × (is_running t.state ≡ false))

state_after-idle : (o : CleanupOutcome) → is_running (state_after o) ≡ false
state_after-idle CleanupOutcome.confirmed = refl
state_after-idle CleanupOutcome.already_absent = refl
state_after-idle (CleanupOutcome.retryable s) = refl
state_after-idle (CleanupOutcome.unknown s) = refl
state_after-idle (CleanupOutcome.blocked s) = refl

over-refused :
    (work : CleanupWork) (t : CleanupRecord)
    → IsOver work.task.attempts t
    → (test (CleanupRecord-discrete t work.task) && is_running t.state) ≡ false
over-refused work t (inr (_, i)) = rw i (ground arith)
over-refused work t (inl less) =
    elim (CleanupRecord-discrete t work.task) as (λ d. (test d && is_running t.state) ≡ false) [
      | yes e ↦ absurd (let a = ap (λ (x : CleanupRecord). x.attempts) e in omega (arith, less, a))
      | no _ ↦ refl
    ]

module _ {Q : Type 0} where
  -- What may come after a ledger: workers claim, report and abandon, any task; and any other call that
  -- leaves the record of the task `id`.
  pub data Later (id : CleanupId) : Ledger Q → Ledger Q → Type 0 where
    stays : {l : Ledger Q} → Later id l l
    claims :
        {l l' m : Ledger Q} (i : CleanupId) (w : HostWitness) (t : Timestamp)
        (work : Option CleanupWork)
        → claim_cleanup l i w t ≡ ok (l', work)
        → Later id l' m
        → Later id l m
    finishes :
        {l l' m : Ledger Q} (work : CleanupWork) (o : CleanupOutcome) (t : Timestamp)
        → finish_cleanup l work o t ≡ ok l'
        → Later id l' m
        → Later id l m
    abandons :
        {l l' m : Ledger Q} (seen : CleanupRecord) (t : Timestamp)
        → abandon_cleanup l seen t ≡ ok l'
        → Later id l' m
        → Later id l m
    others :
        {l l' m : Ledger Q}
        → get ℕ_discrete id l'.cleanups ≡ get ℕ_discrete id l.cleanups
        → Later id l' m
        → Later id l m

  abbrev pub Fenced : CleanupId → ℕ → Ledger Q → Type 0
  Fenced id n l = (t : CleanupRecord) × (get ℕ_discrete id l.cleanups ≡ some t) × IsOver n t

  -- A task that is put back over its own record, with no attempt undone.
  put-Fenced :
      (id j : CleanupId) (n : ℕ) (l l' : Ledger Q) (old new : CleanupRecord)
      → get ℕ_discrete j l.cleanups ≡ some old
      → l'.cleanups ≡ put ℕ_discrete j new l.cleanups
      → (IsOver n old → IsOver n new)
      → Fenced id n l
      → Fenced id n l'
  put-Fenced id j n l l' old new g p keeps (t, q, over) = elim (ℕ_discrete id j) [
    | yes e ↦
        let same : t ≡ old = some_eq (sym q ∙ ap (λ i. get ℕ_discrete i l.cleanups) e ∙ g) in
        (
          new,
          ap (λ c. get ℕ_discrete id c) p
              ∙ ap (λ i. get ℕ_discrete i (put ℕ_discrete j new l.cleanups)) e
              ∙ get-put_self ℕ_discrete j new l.cleanups,
          keeps (subst (IsOver n) same over),
        )
    | no e ↦
        (t, ap (λ c. get ℕ_discrete id c) p ∙ get-put_ne ℕ_discrete id j new l.cleanups e ∙ q, over)
  ]
    where
      some_eq : {a b : CleanupRecord} → some a ≡ some b → a ≡ b
      some_eq h = cc

  task_of-some :
      (l : Ledger Q) (id : CleanupId) (e : LedgerError) {t : CleanupRecord}
      → task_of l id e ≡ ok t
      → get ℕ_discrete id l.cleanups ≡ some t
  unfolding task_of
  task_of-some l id e p = ground arith

  start_attempt-later :
      (l l' : Ledger Q) (id : CleanupId) (t : CleanupRecord) (h : Holding Q) (w : HostWitness)
      (now : Timestamp) (work : Option CleanupWork)
      → start_attempt l id t h w now ≡ ok (l', work)
      → (new : CleanupRecord) × (l'.cleanups ≡ put ℕ_discrete id new l.cleanups)
        × (new.attempts ≡ t.attempts + 1)
  unfolding start_attempt next_attempt
  start_attempt-later l l' id t h w now work e =
      let (decl, d, e1) = >>=-eq-ok (class_of l h.class_id) _ e in
      let (n, a, e2) = >>=-eq-ok (next_attempt t.attempts) _ e1 in
      let r : CleanupRecord = record t {
        attempts = n;
        state = CleanupState.running w;
        updated_at = now;
      } in
      (r, ground (arith, e2), ground (arith, a))

  claim_idle-later :
      (l l' : Ledger Q) (id : CleanupId) (t : CleanupRecord) (w : HostWitness) (now : Timestamp)
      (work : Option CleanupWork)
      → claim_idle l id t w now ≡ ok (l', work)
      → (l' ≡ l)
        ⊎ ((new : CleanupRecord) × (l'.cleanups ≡ put ℕ_discrete id new l.cleanups)
            × (new.attempts ≡ t.attempts + 1))
  unfolding claim_idle
  claim_idle-later l l' id t w now work e =
      let (h, r, e1) = >>=-eq-ok (resolve l t.holding) _ e in
      ground (arith, e1, start_attempt-later l l' id t h w now work)

  claim-later :
      (l l' : Ledger Q) (i : CleanupId) (w : HostWitness) (now : Timestamp)
      (work : Option CleanupWork)
      → claim_cleanup l i w now ≡ ok (l', work)
      → (l' ≡ l)
        ⊎ ((t new : CleanupRecord) × (get ℕ_discrete i l.cleanups ≡ some t)
            × (l'.cleanups ≡ put ℕ_discrete i new l.cleanups)
            × (new.attempts ≡ t.attempts + 1))
  unfolding claim_cleanup
  claim-later l l' i w now work e =
      let (t, p, e1) = >>=-eq-ok (task_of l i LedgerError.invalid_cleanup) _ e in
      let found = task_of-some l i LedgerError.invalid_cleanup p in
      elim (Bool-cases (is_running t.state || is_done t.state)) [
        | inl b ↦ inl (let q = rw b at e1 in ground arith)
        | inr b ↦ elim (claim_idle-later l l' i t w now work (rw b at e1)) [
          | inl q ↦ inl q
          | inr (new, q, a) ↦ inr (t, new, found, q, a)
        ]
      ]

  claim-Fenced :
      (id i : CleanupId) (n : ℕ) (l l' : Ledger Q) (w : HostWitness) (now : Timestamp)
      (work : Option CleanupWork)
      → claim_cleanup l i w now ≡ ok (l', work)
      → Fenced id n l
      → Fenced id n l'
  claim-Fenced id i n l l' w now work e f = elim (claim-later l l' i w now work e) [
    | inl q ↦ subst (Fenced id n) (sym q) f
    | inr (t, new, g, p, a) ↦ put-Fenced id i n l l' t new g p (λ o. inl (ground (arith, o, a))) f
  ]

  -- The task of an attempt that ends, before and after it.
  pub finish-task :
      (l l' : Ledger Q) (work : CleanupWork) (o : CleanupOutcome) (now : Timestamp)
      → finish_cleanup l work o now ≡ ok l'
      → (get ℕ_discrete work.task.id l.cleanups ≡ some work.task)
        × (is_running work.task.state ≡ true)
        × (l'.cleanups
            ≡ put ℕ_discrete work.task.id
                (record work.task { state = state_after o; updated_at = now })
                l.cleanups)
  unfolding finish_cleanup
  finish-task l l' work o now e =
      let (t, p, e1) = >>=-eq-ok (task_of l work.task.id LedgerError.stale_attempt) _ e in
      let (b, e2) =
        require-ok (test (CleanupRecord-discrete t work.task) && is_running t.state)
          LedgerError.stale_attempt _ e1 in
      let same : t ≡ work.task = test→ (CleanupRecord-discrete t work.task) (ground (arith, b)) in
      let runs : is_running t.state ≡ true = ground (arith, b) in
      let found = task_of-some l work.task.id LedgerError.stale_attempt p in
      let (h, r, e3) = >>=-eq-ok (resolve l t.holding) _ e2 in
      let rows : l'.cleanups
          ≡ put ℕ_discrete work.task.id (record t { state = state_after o; updated_at = now })
              l.cleanups =
        ground (arith, e3) in
      (
        found ∙ ap (λ x. some x) same,
        subst (λ (x : CleanupRecord). is_running x.state ≡ true) same runs,
        rows
            ∙ ap
                (λ (x : CleanupRecord).
                  put ℕ_discrete work.task.id (record x { state = state_after o; updated_at = now })
                    l.cleanups)
                same,
      )

  finish-Fenced :
      (id : CleanupId) (n : ℕ) (l l' : Ledger Q) (work : CleanupWork) (o : CleanupOutcome)
      (now : Timestamp)
      → finish_cleanup l work o now ≡ ok l'
      → Fenced id n l
      → Fenced id n l'
  finish-Fenced id n l l' work o now e f =
      let (g, _, p) = finish-task l l' work o now e in
      put-Fenced id work.task.id n l l' work.task _ g p
        (λ over. elim over [ inl x ↦ inl x | inr (a, _) ↦ inr (a, state_after-idle o) ]) f

  abandon-task :
      (l l' : Ledger Q) (seen : CleanupRecord) (now : Timestamp)
      → abandon_cleanup l seen now ≡ ok l'
      → (new : CleanupRecord) × (get ℕ_discrete seen.id l.cleanups ≡ some seen)
        × (l'.cleanups ≡ put ℕ_discrete seen.id new l.cleanups)
        × (new.attempts ≡ seen.attempts)
        × (is_running new.state ≡ false)
  unfolding abandon_cleanup
  abandon-task l l' seen now e =
      let (t, p, e1) = >>=-eq-ok (task_of l seen.id LedgerError.stale_attempt) _ e in
      let (b, e2) =
        require-ok (test (CleanupRecord-discrete t seen) && is_running t.state)
          LedgerError.stale_attempt _ e1 in
      let same : t ≡ seen = test→ (CleanupRecord-discrete t seen) (ground (arith, b)) in
      let found = task_of-some l seen.id LedgerError.stale_attempt p in
      let r : CleanupRecord = record t {
        state = CleanupState.unknown "worker interrupted before durable confirmation";
        updated_at = now;
      } in
      (
        r,
        found ∙ ap (λ x. some x) same,
        ground (arith, e2),
        ap (λ (x : CleanupRecord). x.attempts) same,
        refl,
      )

  abandon-Fenced :
      (id : CleanupId) (n : ℕ) (l l' : Ledger Q) (seen : CleanupRecord) (now : Timestamp)
      → abandon_cleanup l seen now ≡ ok l'
      → Fenced id n l
      → Fenced id n l'
  abandon-Fenced id n l l' seen now e f =
      let (new, g, p, a, i) = abandon-task l l' seen now e in
      put-Fenced id seen.id n l l' seen new g p
        (λ over. elim over [ inl x ↦ inl (omega (arith, x, a)) | inr (b, _) ↦ inr (a ∙ b, i) ]) f

  Later-Fenced :
      {id : CleanupId} {l m : Ledger Q} (n : ℕ) → Later id l m → Fenced id n l → Fenced id n m
  Later-Fenced n stays f = f
  Later-Fenced {id} {l} n (claims {l' = l'} i w t work e later) f =
      Later-Fenced n later (claim-Fenced id i n l l' w t work e f)
  Later-Fenced {id} {l} n (finishes {l' = l'} work o t e later) f =
      Later-Fenced n later (finish-Fenced id n l l' work o t e f)
  Later-Fenced {id} {l} n (abandons {l' = l'} seen t e later) f =
      Later-Fenced n later (abandon-Fenced id n l l' seen t e f)
  Later-Fenced n (others same later) (t, g, o) = Later-Fenced n later (t, same ∙ g, o)

  -- What is not the running attempt of its own record does not finish.
  finish_of_other :
      (l : Ledger Q) (work : CleanupWork) (o : CleanupOutcome) (now : Timestamp) (t : CleanupRecord)
      → get ℕ_discrete work.task.id l.cleanups ≡ some t
      → (test (CleanupRecord-discrete t work.task) && is_running t.state) ≡ false
      → finish_cleanup l work o now ≡ err LedgerError.stale_attempt
  unfolding finish_cleanup task_of
  finish_of_other l work o now t g r = rw (g, r) refl

  -- An attempt that was abandoned never finishes: after any claims, outcomes and abandons of any
  -- workers, a claim of the same task among them, and any other calls that leave the record of its
  -- task, its outcome is refused as stale, whatever it is.
  pub abandon-fences :
      (l l' m : Ledger Q) (work : CleanupWork) (o : CleanupOutcome) (now later : Timestamp)
      → abandon_cleanup l work.task now ≡ ok l'
      → Later work.task.id l' m
      → finish_cleanup m work o later ≡ err LedgerError.stale_attempt
  abandon-fences l l' m work o now later e after =
      let (new, g, p, a, i) = abandon-task l l' work.task now e in
      let start : Fenced work.task.id work.task.attempts l' = (
        new,
        ap (λ c. get ℕ_discrete work.task.id c) p
            ∙ get-put_self ℕ_discrete work.task.id new l.cleanups,
        inr (a, i),
      ) in
      let (t, found, over) = Later-Fenced work.task.attempts after start in
      finish_of_other m work o later t found (over-refused work t over)
