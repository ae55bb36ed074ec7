-- ===== src/Kernel/Plans/Approval/Calls.antt =====
-- Calls in sequence (crates/portos-kernel/src/plans/approval.rs): what all of them keep, and how the
-- end of a sequence tells of its parts.
use portos.Base.{◌≡◌, refl, Bool, true, false, ◌⊎◌, inl, inr, if◌then◌else◌}
use portos.Protocol.{Result, ok, err}
use portos.Kernel.Plans.{PlanRuntime}
use portos.Kernel.Plans.Store.{Run, in_world}
use portos.Kernel.Plans.Consents.{Denial, Waiting, Call, continue_call, ◌>>=◌, from_result, on_run}
use portos.Kernel.Plans.Approval.{write_or_fail}

-- A relation between the states before and after, which sequences keep.
pub record IsPreorder {S : Type 0} (R : S → S → Type 0) : Type 0 where
  pub stays : (s : S) → R s s
  pub joins : {s t u : S} → R s t → R t u → R s u

abbrev pub Keeps : {S A : Type 0} → (S → S → Type 0) → Call S A → Type 0
Keeps {S} R m = (s : S) → R s (m s).1

module _ {S : Type 0} {R : S → S → Type 0} (p : IsPreorder R) where
  continue-Keeps :
      {A B : Type 0} (r : Result Denial A × S) (f : A → Call S B) (s : S)
      → R s r.1
      → ((a : A) → Keeps R (f a))
      → R s (continue_call r f).1
  continue-Keeps (ok a, t) f s h k = p.joins h (k a t)
  continue-Keeps (err e, t) f s h k = h

  pub bind-Keeps :
      {A B : Type 0} (m : Call S A) (f : A → Call S B)
      → Keeps R m
      → ((a : A) → Keeps R (f a))
      → Keeps R (m >>= f)
  unfolding ◌>>=◌
  bind-Keeps m f h k s = continue-Keeps (m s) f s (h s) k

  pub from_result-Keeps : {A : Type 0} (r : Result Denial A) → Keeps R (from_result {S = S} r)
  from_result-Keeps r s = p.stays s

  pub either-Keeps :
      {A : Type 0} (b : Bool) (x y : Result Denial A × S) (s : S)
      → R s x.1
      → R s y.1
      → R s (if b then x else y).1
  either-Keeps true x y s h k = h
  either-Keeps false x y s h k = k

module _ {S A B : Type 0} where
  continue-stops :
      (r : Result Denial A × S) (f : A → Call S B)
      → ((a : A) (t : S) → r ≡ (ok a, t) → ⊥)
      → (continue_call r f).1 ≡ r.1
  continue-stops (ok a, t) f h = absurd (h a t refl)
  continue-stops (err e, t) f h = refl

  -- What follows a call that fails is not done.
  pub bind-stops :
      (m : Call S A) (f : A → Call S B) (s : S)
      → ((a : A) (t : S) → m s ≡ (ok a, t) → ⊥)
      → ((m >>= f) s).1 ≡ (m s).1
  unfolding ◌>>=◌
  bind-stops m f s h = continue-stops (m s) f h

  continue-ok :
      (r : Result Denial A × S) (f : A → Call S B) {b : B} {t : S}
      → continue_call r f ≡ (ok b, t)
      → (a : A) × (u : S) × (r ≡ (ok a, u)) × (f a u ≡ (ok b, t))
  continue-ok (ok a, u) f h = (a, u, refl, h)
  continue-ok (err e, u) f h = cc

  pub bind-ok :
      (m : Call S A) (f : A → Call S B) (s : S) {b : B} {t : S}
      → (m >>= f) s ≡ (ok b, t)
      → (a : A) × (u : S) × (m s ≡ (ok a, u)) × (f a u ≡ (ok b, t))
  unfolding ◌>>=◌
  bind-ok m f s h = continue-ok (m s) f h

  continue-err :
      (r : Result Denial A × S) (f : A → Call S B) {e : Denial} {t : S}
      → continue_call r f ≡ (err e, t)
      → (r ≡ (err e, t)) ⊎ ((a : A) × (u : S) × (r ≡ (ok a, u)) × (f a u ≡ (err e, t)))
  continue-err (ok a, u) f h = inr (a, u, refl, h)
  continue-err (err d, u) f h = inl cc

  pub bind-err :
      (m : Call S A) (f : A → Call S B) (s : S) {e : Denial} {t : S}
      → (m >>= f) s ≡ (err e, t)
      → (m s ≡ (err e, t)) ⊎ ((a : A) × (u : S) × (m s ≡ (ok a, u)) × (f a u ≡ (err e, t)))
  unfolding ◌>>=◌
  bind-err m f s h = continue-err (m s) f h

module _ {V W : Type 0} (runtime : PlanRuntime V W) where
  pub write_or_fail-Keeps :
      {R : Waiting V W → Waiting V W → Type 0} (p : IsPreorder R) (change : Run V W → Run V W)
      → ((f : Run V W → Run V W) (s : Waiting V W) → R s (on_run f s))
      → Keeps R (write_or_fail runtime change)
  unfolding write_or_fail
  write_or_fail-Keeps p change h s =
      let w = (runtime.write s.run.world).1 in
      either-Keeps p (runtime.write s.run.world).0 _ _ s
        (p.joins (h (in_world w) s) (h change (on_run (in_world w) s))) (h (in_world w) s)

  if-ok :
      (b : Bool) (e : Denial) (x y : Waiting V W) {t : Waiting V W} {u : Unit {0}}
      → ◌≡◌ {A = Result Denial (Unit {0}) × Waiting V W}
          (if b then (ok tt, x) else (err e, y))
          (ok u, t)
      → x ≡ t
  if-ok true e x y h = cc
  if-ok false e x y h = cc

  pub write_or_fail-ok :
      (change : Run V W → Run V W) (s : Waiting V W) {u : Unit {0}} {t : Waiting V W}
      → write_or_fail runtime change s ≡ (ok u, t)
      → on_run change (on_run (in_world (runtime.write s.run.world).1) s) ≡ t
  unfolding write_or_fail
  write_or_fail-ok change s h = if-ok (runtime.write s.run.world).0 _ _ _ h
