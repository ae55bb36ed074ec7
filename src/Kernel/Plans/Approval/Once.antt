-- ===== src/Kernel/Plans/Approval/Once.antt =====
-- A consent approves at most once (crates/portos-kernel/src/plans/approval.rs, and
-- `check_and_consume_consent` in plans/admission.rs).
use portos.Base.{ℕ, ◌≡◌, refl, sym, ◌∙◌, subst, true, not, ◌&&◌, String, string_discrete, test}
use portos.Protocol.{Result, ok}
use portos.Kernel.Plans.{PlanRuntime}
use portos.Kernel.Plans.Control.{ConsentRecord}
use portos.Kernel.Plans.Consents.{
  Denial, Waiting, ◌>>◌, Mac, is_consumed, consume, check_and_consume_consent,
}
use portos.Kernel.Plans.Approval.{
  held_items, require_awaiting, require_in_time, release_batch, approve,
}
use portos.Kernel.Plans.Approval.Calls.{
  IsPreorder, Keeps, bind-Keeps, either-Keeps, bind-ok, bind-stops,
}
use portos.Kernel.Plans.Approval.Consumed.{
  or-right, Remembers, Remembers-IsPreorder, same_consents, check-Remembers,
  release_batch-Remembers, approve-Remembers, check-ok,
}

module _ {V W : Type 0} where
  -- Where a nonce is consumed, it stays so and nothing is released.
  unfoldable pub Rests : String → Waiting V W → Waiting V W → Type 0
  Rests n s t =
      is_consumed n s.consents ≡ true
      → (is_consumed n t.consents ≡ true)
        × (t.run.journal ≡ s.run.journal)
        × (t.run.buffer ≡ s.run.buffer)

  Rests-IsPreorder : (n : String) → IsPreorder (Rests n)
  unfolding Rests
  Rests-IsPreorder n = record {
    stays = λ s h. (h, refl, refl);
    joins = λ h k x. let (a, p, q) = h x in let (b, p', q') = k a in (b, p' ∙ p, q' ∙ q);
  }

module _ {V W : Type 0} (runtime : PlanRuntime V W) (mac : Mac) where
  consume-Rests : (n : String) (c : ConsentRecord) → Keeps (Rests n) (consume runtime c)
  unfolding consume Rests
  consume-Rests n c s =
      either-Keeps (Rests-IsPreorder n)
        ((runtime.write s.run.world).0 && not (is_consumed c.nonce s.consents)) _ _ s
        (λ h. (or-right (test (string_discrete n c.nonce)) _ h, refl, refl)) (λ h. (h, refl, refl))

  check-Rests :
      (n : String) (now : ℕ) (c : ConsentRecord)
      → Keeps (Rests n) (check_and_consume_consent runtime mac now c)
  unfolding check_and_consume_consent
  check-Rests n now c =
      bind-Keeps (Rests-IsPreorder n) _ _ (λ s. (Rests-IsPreorder n).stays s)
        λ _.
          bind-Keeps (Rests-IsPreorder n) _ _ (λ s. (Rests-IsPreorder n).stays s)
            λ _. consume-Rests n c

  released-Rests :
      (now : ℕ) (c : ConsentRecord)
      → Keeps (Rests c.nonce) (
          check_and_consume_consent runtime mac now c >> λ s.
          release_batch runtime c (held_items s.run.buffer) s)
  unfolding Rests
  released-Rests now c s h =
      let stopped =
        bind-stops (check_and_consume_consent runtime mac now c)
          (λ _ s. release_batch runtime c (held_items s.run.buffer) s) s
          λ a t e. let (n, _) = check-ok runtime mac now c s e in cc in
      subst
        (λ t.
          (is_consumed c.nonce t.consents ≡ true)
          × (t.run.journal ≡ s.run.journal)
          × (t.run.buffer ≡ s.run.buffer))
        (sym stopped) (check-Rests c.nonce now c s h)

  -- With a consent that is consumed, nothing is released.
  pub approve-Rests :
      (now later : ℕ) (c : ConsentRecord) → Keeps (Rests c.nonce) (approve runtime mac now later c)
  unfolding approve require_awaiting require_in_time
  approve-Rests now later c =
      bind-Keeps (Rests-IsPreorder c.nonce) _ _ (λ s. (Rests-IsPreorder c.nonce).stays s)
        λ _.
          bind-Keeps (Rests-IsPreorder c.nonce) _ _ (λ s. (Rests-IsPreorder c.nonce).stays s)
            λ _. released-Rests later c

  -- What comes after a state: approvals, consents that are consumed for other calls, and any change
  -- of the run and of the row.
  pub data Later : Waiting V W → Waiting V W → Type 0 where
    now : {s : Waiting V W} → Later s s
    approves :
        {s t : Waiting V W} (early late : ℕ) (c : ConsentRecord)
        → Later (approve runtime mac early late c s).1 t
        → Later s t
    consumes :
        {s t : Waiting V W} (at : ℕ) (c : ConsentRecord)
        → Later (check_and_consume_consent runtime mac at c s).1 t
        → Later s t
    changes : {s t u : Waiting V W} → t.consents ≡ s.consents → Later t u → Later s u

  Later-Remembers : {s t : Waiting V W} → Later s t → Remembers s t
  Later-Remembers {s} now = Remembers-IsPreorder.stays s
  Later-Remembers {s} (approves a b c l) =
      Remembers-IsPreorder.joins (approve-Remembers runtime mac a b c s) (Later-Remembers l)
  Later-Remembers {s} (consumes a c l) =
      Remembers-IsPreorder.joins (check-Remembers runtime mac a c s) (Later-Remembers l)
  Later-Remembers {s} (changes {t = t} e l) =
      Remembers-IsPreorder.joins (same_consents s t e) (Later-Remembers l)

  release_batch-consumed :
      (c : ConsentRecord) (s : Waiting V W) {u : Unit {0}} {t : Waiting V W}
      → is_consumed c.nonce s.consents ≡ true
      → release_batch runtime c (held_items s.run.buffer) s ≡ (ok u, t)
      → is_consumed c.nonce t.consents ≡ true
  unfolding Remembers
  release_batch-consumed c s m e =
      subst
        (λ (r : Result Denial (Unit {0}) × Waiting V W). is_consumed c.nonce r.1.consents ≡ true) e
        (release_batch-Remembers runtime c (held_items s.run.buffer) s c.nonce m)

  approve-consumes :
      (early late : ℕ) (c : ConsentRecord) (s : Waiting V W) {u : Unit {0}} {t : Waiting V W}
      → approve runtime mac early late c s ≡ (ok u, t)
      → is_consumed c.nonce t.consents ≡ true
  unfolding approve
  approve-consumes early late c s h =
      let (a, s1, p, h1) = bind-ok require_awaiting _ s h in
      let (b, s2, q, h2) = bind-ok (require_in_time early) _ s1 h1 in
      let (d, s3, r, h3) = bind-ok (check_and_consume_consent runtime mac late c) _ s2 h2 in
      let (n, m) = check-ok runtime mac late c s2 r in release_batch-consumed c s3 m h3

  -- After an approval with a consent, whatever is approved, consumed and changed in between, an
  -- approval with that consent, or with one of the same nonce, releases nothing: the log of emissions
  -- and the buffer stay as they are.
  pub consent_approves_once :
      (c d : ConsentRecord) (s t u : Waiting V W) (early late early' late' : ℕ)
      → approve runtime mac early late c s ≡ (ok tt, t)
      → Later t u
      → c.nonce ≡ d.nonce
      → ((approve runtime mac early' late' d u).1.run.journal ≡ u.run.journal)
        × ((approve runtime mac early' late' d u).1.run.buffer ≡ u.run.buffer)
  unfolding Rests Remembers
  consent_approves_once c d s t u early late early' late' h l e =
      let spent = Later-Remembers l c.nonce (approve-consumes early late c s h) in
      let (_, journal, buffer) =
        approve-Rests early' late' d u (subst (λ n. is_consumed n u.consents ≡ true) e spent) in
      (journal, buffer)
