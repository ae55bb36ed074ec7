-- ===== src/Kernel/Plans/Consents.antt =====
-- Consents (`check_and_consume_consent`, crates/portos-kernel/src/plans/admission.rs, and
-- `ConsentRecord::verify`, crates/portos-kernel/src/consent.rs), and the calls that they guard.
use portos.Base.{
  ℕ, Bool, true, false, not, ◌&&◌, List, ◌∷◌, String, string_discrete, ltb, any, test,
  if◌then◌else◌,
}
use portos.Base.Maps.{Map}
use portos.Protocol.{Result, ok, err}
use portos.Kernel.Plans.{Failure, RunState, PlanRuntime}
use portos.Kernel.Plans.Control.{ConsentRecord, ttl_at}
use portos.Kernel.Plans.Store.{Run, in_world}

-- Why an approval is refused or fails, as data.
pub data Denial : Type 0 where
  not_awaiting : RunState → Denial
  consent_missing stale_nonce : String → Denial
  original_expired mac_mismatch consent_expired mint_failed : Denial
  plan_mismatch : String → String → Denial
  budget_short : String → ℕ → ℕ → Denial
  write_failed transfer_failed : Denial
  approve_failed : Failure → Denial

-- A run with what is durable of it, and the table of consents, whose key is the nonce.
pub record Waiting (V W : Type 0) : Type 0 where
  pub run : Run V W
  pub plan_hash : String
  pub fiber : String
  pub segment : String
  pub nonce : String
  pub consents : List ConsentRecord

-- A call that changes the state and gives a value or a denial.
abbrev pub Call : Type 0 → Type 0 → Type 0
Call S A = S → Result Denial A × S

abbrev pub continue_call :
    {S A B : Type 0} → Result Denial A × S → (A → S → Result Denial B × S) → Result Denial B × S
continue_call (ok a, s) next = next a s
continue_call (err e, s) next = (err e, s)

infixl 5 ◌>>=◌ ◌>>◌
unfoldable pub ◌>>=◌ : {S A B : Type 0} → Call S A → (A → Call S B) → Call S B
◌>>=◌ m next s = continue_call (m s) next

abbrev pub ◌>>◌ : {S B : Type 0} → Call S (Unit {0}) → Call S B → Call S B
m >> next = m >>= λ _. next

abbrev pub from_result : {S A : Type 0} → Result Denial A → Call S A
from_result r s = (r, s)

abbrev pub demand : Bool → Denial → Result Denial (Unit {0})
demand true e = ok tt
demand false e = err e

-- The keyed hash of the fields of a consent, as text.
abbrev pub Mac : Type 0
Mac = String → Map String ℕ → String → ℕ → ℕ → String

unfoldable pub verify : Mac → ℕ → ConsentRecord → Result Denial (Unit {0})
verify mac now c =
    if test (string_discrete (mac c.plan_hash c.budget c.nonce c.issued_at c.ttl_secs) c.mac)
    then demand (not (ltb (ttl_at c) now)) consent_expired
    else err mac_mismatch

abbrev pub is_consumed : String → List ConsentRecord → Bool
is_consumed nonce cs = any (λ d. test (string_discrete nonce d.nonce)) cs

module _ {V W : Type 0} where
  abbrev pub on_run : (Run V W → Run V W) → Waiting V W → Waiting V W
  on_run f s = record s { run = f s.run }

  abbrev pub modify : (Run V W → Run V W) → Call (Waiting V W) (Unit {0})
  modify f s = (ok tt, on_run f s)

module _ {V W : Type 0} (runtime : PlanRuntime V W) where
  -- A row is added; a failed write, and a nonce that is there, are told as a stale nonce.
  unfoldable pub consume : ConsentRecord → Call (Waiting V W) (Unit {0})
  consume c s =
      let (written, w) = runtime.write s.run.world in
      let t = on_run (in_world w) s in
      if written && not (is_consumed c.nonce s.consents)
      then (ok tt, record t { consents = c ∷ s.consents })
      else (err (stale_nonce c.nonce), t)

  unfoldable pub check_and_consume_consent : Mac → ℕ → ConsentRecord → Call (Waiting V W) (Unit {0})
  check_and_consume_consent mac now c = do
    from_result (verify mac now c)
    λ s.
        from_result
          (demand (test (string_discrete c.plan_hash s.plan_hash))
            (plan_mismatch c.plan_hash s.plan_hash))
          s
    consume c
