-- ===== src/Kernel/Plans/Approval/Consumed.antt =====
-- A consent that is consumed stays so (`check_and_consume_consent`,
-- crates/portos-kernel/src/plans/admission.rs, under the calls of plans/approval.rs).
use portos.Base.{
  ℕ, ◌+◌, ◌≡◌, refl, sym, subst, Bool, true, false, not, ◌&&◌, ◌||◌, Option, none, some, List, [],
  ◌∷◌, String, string_discrete, test, →test, if◌then◌else◌, length,
}
use portos.Base.Maps.{Map}
use portos.Protocol.{Result, ok, err}
use portos.Kernel.Plans.{
  Failure, Invoked, answered, budget_exhausted, no_capability, failed, PlanRuntime,
}
use portos.Kernel.Plans.Control.{ConsentRecord}
use portos.Kernel.Plans.Verbs.{Family}
use portos.Kernel.Plans.Store.{Buffered, Run, in_world}
use portos.Kernel.Plans.Consents.{
  Denial, Waiting, Call, from_result, Mac, verify, is_consumed, on_run, consume,
  check_and_consume_consent,
}
use portos.Kernel.Plans.Approval.{
  held_items, require_awaiting, require_in_time, write_or_fail, mint_batch, on_released, release,
  commit_segment, end_batch, release_batch, approve,
}
use portos.Kernel.Plans.Approval.Calls.{
  IsPreorder, Keeps, bind-Keeps, either-Keeps, bind-ok, write_or_fail-Keeps,
}

pub or-right : (a b : Bool) → b ≡ true → (a || b) ≡ true
or-right true b h = refl
or-right false b h = h

pub or-left : (a b : Bool) → a ≡ true → (a || b) ≡ true
or-left true b h = refl
or-left false b h = cc

module _ {V W : Type 0} where
  -- No consent that was consumed is forgotten.
  unfoldable pub Remembers : Waiting V W → Waiting V W → Type 0
  Remembers s t = (n : String) → is_consumed n s.consents ≡ true → is_consumed n t.consents ≡ true

  pub Remembers-IsPreorder : IsPreorder Remembers
  unfolding Remembers
  Remembers-IsPreorder = record { stays = λ s n h. h; joins = λ h k n x. k n (h n x) }

  pub same_consents : (s t : Waiting V W) → t.consents ≡ s.consents → Remembers s t
  unfolding Remembers
  same_consents s t e n h = subst (λ cs. is_consumed n cs ≡ true) (sym e) h

module _ {V W : Type 0} (runtime : PlanRuntime V W) where
  consume-Remembers : (c : ConsentRecord) → Keeps Remembers (consume runtime c)
  unfolding consume Remembers
  consume-Remembers c s =
      either-Keeps Remembers-IsPreorder
        ((runtime.write s.run.world).0 && not (is_consumed c.nonce s.consents)) _ _ s
        (λ n h. or-right (test (string_discrete n c.nonce)) _ h) (λ n h. h)

  write-Remembers : (change : Run V W → Run V W) → Keeps Remembers (write_or_fail runtime change)
  write-Remembers change =
      write_or_fail-Keeps runtime Remembers-IsPreorder change λ f s. same_consents _ _ refl

  pub check-Remembers :
      (mac : Mac) (now : ℕ) (c : ConsentRecord)
      → Keeps Remembers (check_and_consume_consent runtime mac now c)
  unfolding check_and_consume_consent
  check-Remembers mac now c =
      bind-Keeps Remembers-IsPreorder _ _ (λ s. same_consents _ _ refl)
        λ _.
          bind-Keeps Remembers-IsPreorder _ _ (λ s. same_consents _ _ refl) λ _. consume-Remembers c

  mint-Remembers :
      (until : ℕ) (fs : Map String Family) → Keeps Remembers (mint_batch runtime until fs)
  unfolding mint_batch
  mint-Remembers until [] = λ s. same_consents _ _ refl
  mint-Remembers until ((family, (verbs, counts)) ∷ fs) =
      bind-Keeps Remembers-IsPreorder _ _ (λ s. same_consents _ _ refl) λ _. mint-Remembers until fs

  on_released-Remembers :
      (rest : Call (Waiting V W) (Option Failure)) (nonce : String) (seq : ℕ) (b : Buffered V)
      (r : Invoked V)
      → Keeps Remembers rest
      → Keeps Remembers (on_released runtime rest nonce seq b r)
  unfolding on_released
  on_released-Remembers rest nonce seq b (answered _) k =
      bind-Keeps Remembers-IsPreorder _ _ (write-Remembers _) λ _.
        bind-Keeps Remembers-IsPreorder _ _ (write-Remembers _)
          λ _. bind-Keeps Remembers-IsPreorder _ _ (λ s. same_consents _ _ refl) λ _. k
  on_released-Remembers rest nonce seq b budget_exhausted k = λ s. same_consents _ _ refl
  on_released-Remembers rest nonce seq b no_capability k = λ s. same_consents _ _ refl
  on_released-Remembers rest nonce seq b (failed e) k = λ s. same_consents _ _ refl

  release-Remembers :
      (nonce : String) (seq : ℕ) (bs : List (Buffered V))
      → Keeps Remembers (release runtime nonce seq bs)
  unfolding release
  release-Remembers nonce seq [] s = same_consents _ _ refl
  release-Remembers nonce seq (b ∷ bs) s =
      let (r, w) = runtime.invoke s.fiber b.verb b.args s.run.world in
      Remembers-IsPreorder.joins (same_consents s (on_run (in_world w) s) refl) (
        on_released-Remembers (release runtime nonce (seq + 1) bs) nonce (seq + 1) b r
          (release-Remembers nonce (seq + 1) bs) (on_run (in_world w) s))

  end_batch-Remembers : (n : ℕ) (why : Option Failure) → Keeps Remembers (end_batch runtime n why)
  unfolding end_batch commit_segment
  end_batch-Remembers n none = bind-Keeps Remembers-IsPreorder _ _ (write-Remembers _) λ _.
      bind-Keeps Remembers-IsPreorder _ _ (λ s. same_consents _ _ refl)
        λ _.
          bind-Keeps Remembers-IsPreorder _ _ (λ s. same_consents _ _ refl)
            λ _ s. same_consents _ _ refl
  end_batch-Remembers n (some why) =
      bind-Keeps Remembers-IsPreorder _ _ (λ s. same_consents _ _ refl)
        λ _ s. same_consents _ _ refl

  pub release_batch-Remembers :
      (c : ConsentRecord) (bs : List (Buffered V)) → Keeps Remembers (release_batch runtime c bs)
  unfolding release_batch
  release_batch-Remembers c bs =
      bind-Keeps Remembers-IsPreorder _ _ (λ s. same_consents _ _ refl)
        λ _. bind-Keeps Remembers-IsPreorder _ _ (mint-Remembers _ _) λ _ s.
          bind-Keeps Remembers-IsPreorder (release runtime c.nonce (length s.run.journal) bs) _
            (release-Remembers c.nonce (length s.run.journal) bs) (end_batch-Remembers (length bs))
            s

  pub approve-Remembers :
      (mac : Mac) (now later : ℕ) (c : ConsentRecord)
      → Keeps Remembers (approve runtime mac now later c)
  unfolding approve require_awaiting require_in_time
  approve-Remembers mac now later c =
      bind-Keeps Remembers-IsPreorder _ _ (λ s. same_consents _ _ refl)
        λ _.
          bind-Keeps Remembers-IsPreorder _ _ (λ s. same_consents _ _ refl)
            λ _.
              bind-Keeps Remembers-IsPreorder _ _ (check-Remembers mac later c)
                λ _ s. release_batch-Remembers c (held_items s.run.buffer) s

  -- A consent that is consumed stands in the table, and did not before.
  if-consumes :
      (b a : Bool) (e : Denial) (x y : Waiting V W) {u : Unit {0}} {t : Waiting V W}
      → ◌≡◌ {A = Result Denial (Unit {0}) × Waiting V W}
          (if b && not a then (ok tt, x) else (err e, y))
          (ok u, t)
      → (a ≡ false) × (x ≡ t)
  if-consumes true false e x y h = (refl, cc)
  if-consumes true true e x y h = cc
  if-consumes false a e x y h = cc

  consume-ok :
      (c : ConsentRecord) (s : Waiting V W) {u : Unit {0}} {t : Waiting V W}
      → consume runtime c s ≡ (ok u, t)
      → (is_consumed c.nonce s.consents ≡ false) × (is_consumed c.nonce t.consents ≡ true)
  unfolding consume
  consume-ok c s h =
      let (n, q) =
        if-consumes (runtime.write s.run.world).0 (is_consumed c.nonce s.consents) _ _ _ h in
      (
        n,
        subst (λ t. is_consumed c.nonce t.consents ≡ true) q
            (or-left (test (string_discrete c.nonce c.nonce)) _
              (→test (string_discrete c.nonce c.nonce) refl)),
      )

  pub check-ok :
      (mac : Mac) (now : ℕ) (c : ConsentRecord) (s : Waiting V W) {u : Unit {0}} {t : Waiting V W}
      → check_and_consume_consent runtime mac now c s ≡ (ok u, t)
      → (is_consumed c.nonce s.consents ≡ false) × (is_consumed c.nonce t.consents ≡ true)
  unfolding check_and_consume_consent
  check-ok mac now c s h =
      let (x, s1, p, h1) = bind-ok (from_result (verify mac now c)) _ s h in
      let (y, s2, q, h2) = bind-ok _ _ s1 h1 in
      let same : s2 ≡ s = cc in
      let (n, m) = consume-ok c s2 h2 in
      (subst (λ v. is_consumed c.nonce v.consents ≡ false) same n, m)
