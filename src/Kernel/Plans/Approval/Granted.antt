-- ===== src/Kernel/Plans/Approval/Granted.antt =====
-- An approval that succeeds (`approve`, crates/portos-kernel/src/plans/approval.rs): the whole batch
-- is released once, within the budget that was consented to.
use portos.Base.{
  ℕ, ◌+◌, ◌≤◌, ◌≡◌, ap, ◌∙◌, subst, inl, inr, List, [], ◌∷◌, String, string_discrete, test, length,
  ltb, if◌then◌else◌, arith, In, Option-cases, Bool-cases,
}
use portos.Base.Maps.{Map, get, put, get-put_self, get-put_ne, get-In}
use portos.Protocol.{ok}
use portos.Kernel.Plancheck.{u64_max, wrapping, budget_of}
use portos.Kernel.Plans.{PlanRuntime}
use portos.Kernel.Plans.Control.{ConsentRecord}
use portos.Kernel.Plans.Store.{Buffered}
use portos.Kernel.Plans.Consents.{Waiting, Mac, check_and_consume_consent}
use portos.Kernel.Plans.Approval.{
  held_items, needs, check_needs, require_awaiting, require_in_time, approve,
}
use portos.Kernel.Plans.Approval.Calls.{bind-ok}
use portos.Kernel.Plans.Approval.Batches.{numbered, check-SameRun, journal-same, buffer-same, after}
use portos.Kernel.Plans.Approval.Released.{IsReleased, release_batch-ok}

-- What a batch costs of a verb.
unfoldable pub cost_of : {V : Type 0} → String → List (Buffered V) → ℕ
cost_of v [] = 0
cost_of v (b ∷ bs) = (if test (string_discrete v b.verb) then b.cost else 0) + cost_of v bs

wrapping_u64 : (n : ℕ) → n ≤ u64_max → wrapping n ≡ n
unfolding wrapping
wrapping_u64 n h = omega arith

budget_of-put :
    (v w : String) (n : ℕ) (m : Map String ℕ)
    → budget_of v m + (if test (string_discrete v w) then n else 0) ≤ u64_max
    → budget_of v (put string_discrete w (wrapping (budget_of w m + n)) m)
      ≡ budget_of v m + (if test (string_discrete v w) then n else 0)
budget_of-put v w n m h = by_verb (string_discrete v w) h
  where
    by_verb :
        (d : Dec (v ≡ w))
        → budget_of v m + (if test d then n else 0) ≤ u64_max
        → budget_of v (put string_discrete w (wrapping (budget_of w m + n)) m)
          ≡ budget_of v m + (if test d then n else 0)
    by_verb (no x) k =
        rw (get-put_ne string_discrete v w (wrapping (budget_of w m + n)) m x) (omega arith)
    by_verb (yes e) k =
        rw (e, get-put_self string_discrete w (wrapping (budget_of w m + n)) m)
          (wrapping_u64 (budget_of w m + n) (subst (λ x. budget_of x m + n ≤ u64_max) e k))

needs-cost :
    {V : Type 0} (v : String) (bs : List (Buffered V)) (m : Map String ℕ)
    → budget_of v m + cost_of v bs ≤ u64_max
    → budget_of v (needs bs m) ≡ budget_of v m + cost_of v bs
unfolding needs cost_of
needs-cost v [] m h = omega arith
needs-cost v (b ∷ bs) m h =
    let added = budget_of-put v b.verb b.cost m (omega (arith, h)) in
    let m' = put string_discrete b.verb (wrapping (budget_of b.verb m + b.cost)) m in
    let rest = needs-cost v bs m' (omega (arith, h, added)) in omega (arith, rest, added)

check_needs-In :
    (budget : Map String ℕ) (need : Map String ℕ) (v : String) (n : ℕ)
    → check_needs budget need ≡ ok tt
    → In (v, n) need
    → n ≤ budget_of v budget
unfolding check_needs
check_needs-In budget [] v n h i = elim i [ ]
check_needs-In budget ((w, k) ∷ need) v n h i = elim (Bool-cases (ltb (budget_of w budget) k)) [
  | inl t ↦ let bad = rw t at h in cc
  | inr f ↦
      let rest : check_needs budget need ≡ ok tt = rw f at h in
      elim i [
        | In.here q ↦
            let a : v ≡ w = ap (λ (p : String × ℕ). p.0) q in
            let b : n ≡ k = ap (λ (p : String × ℕ). p.1) q in rw (a, b) (ground (arith, f))
        | In.there j ↦ check_needs-In budget need v n rest j
      ]
]

check_needs-le :
    (budget need : Map String ℕ) (v : String)
    → check_needs budget need ≡ ok tt
    → budget_of v need ≤ budget_of v budget
check_needs-le budget need v h = elim (Option-cases (get string_discrete v need)) [
  | inl e ↦ rw e (omega arith)
  | inr (n, e) ↦ rw e (check_needs-In budget need v n h (get-In string_discrete v need e))
]

module _ {V W : Type 0} (runtime : PlanRuntime V W) (mac : Mac) where
  approve-batch :
      (now later : ℕ) (c : ConsentRecord) (s : Waiting V W) {u : Unit {0}} {t : Waiting V W}
      → approve runtime mac now later c s ≡ (ok u, t)
      → (check_needs c.budget (needs (held_items s.run.buffer) []) ≡ ok tt)
        × IsReleased runtime s.run.journal
            (numbered c.nonce (length s.run.journal) (held_items s.run.buffer))
            t
  unfolding approve require_awaiting require_in_time
  approve-batch now later c s {t = t} h =
      let (_, s1, p, h1) = bind-ok require_awaiting _ s h in
      let (_, s2, q, h2) = bind-ok (require_in_time now) _ s1 h1 in
      let (_, s3, r, h3) = bind-ok (check_and_consume_consent runtime mac later c) _ s2 h2 in
      let same : s2 ≡ s = cc in
      let run =
        after (check_and_consume_consent runtime mac later c) s2 (check-SameRun runtime mac later c)
          r in
      let journal = journal-same s2 s3 run ∙ ap (λ (x : Waiting V W). x.run.journal) same in
      let buffer = buffer-same s2 s3 run ∙ ap (λ (x : Waiting V W). x.run.buffer) same in
      let (k, x) = release_batch-ok runtime c (held_items s3.run.buffer) s3 h3 in
      (
        subst (λ b. check_needs c.budget (needs (held_items b) []) ≡ ok tt) buffer k,
        subst
            (λ b.
              IsReleased runtime s.run.journal
                (numbered c.nonce (length s.run.journal) (held_items b)) t)
            buffer
            (subst
              (λ j. IsReleased runtime j (numbered c.nonce (length j) (held_items s3.run.buffer)) t)
              journal x),
      )

  -- An approval that succeeds logs each item that was held, once and in the order of the buffer, under
  -- the nonce of its consent and numbered after the rows that were there; then no item is held, and
  -- the run is done.
  pub approve-releases :
      (now later : ℕ) (c : ConsentRecord) (s t : Waiting V W)
      → approve runtime mac now later c s ≡ (ok tt, t)
      → IsReleased runtime s.run.journal
          (numbered c.nonce (length s.run.journal) (held_items s.run.buffer))
          t
  approve-releases now later c s t h = (approve-batch now later c s h).1

  -- An approval that succeeds releases no more of a verb than the budget of its consent, where the
  -- costs of the batch for the verb fit a u64 together.
  pub approve-within_budget :
      (now later : ℕ) (c : ConsentRecord) (s t : Waiting V W) (v : String)
      → approve runtime mac now later c s ≡ (ok tt, t)
      → cost_of v (held_items s.run.buffer) ≤ u64_max
      → cost_of v (held_items s.run.buffer) ≤ budget_of v c.budget
  unfolding get
  approve-within_budget now later c s t v h k =
      let covered =
        check_needs-le c.budget (needs (held_items s.run.buffer) []) v
          (approve-batch now later c s h).0 in
      let need = needs-cost v (held_items s.run.buffer) [] (omega (arith, k)) in
      omega (arith, covered, need)
