-- ===== src/Kernel/Plans/Control.antt =====
-- The channel that wakes a suspended run (`RunControl`, crates/portos-kernel/src/plans/control.rs),
-- with the consent that resumes one (`ConsentRecord`, crates/portos-kernel/src/consent.rs).
use portos.Base.{ℕ, ◌+◌, ◌≡◌, refl, Bool, Option, none, some, List, [], ◌∷◌, String}
use portos.Base.Maps.{Map}
use portos.Kernel.Plancheck.{wrapping}

pub record ConsentRecord : Type 0 where
  pub plan_hash : String
  pub budget : Map String ℕ
  pub nonce : String
  pub issued_at : ℕ
  pub ttl_secs : ℕ
  pub mac : String

-- The second until which a consent holds.
unfoldable pub ttl_at : ConsentRecord → ℕ
ttl_at c = wrapping (c.issued_at + c.ttl_secs)

pub data RunSignal : Type 0 where
  resume : ConsentRecord → RunSignal
  abort : Bool → RunSignal

-- The slot of the mutex.
pub record RunControl : Type 0 where
  pub signal : Option RunSignal

-- Once an abort is pending, later consent does not replace it.
unfoldable pub offer_resume : ConsentRecord → Option RunSignal → Option RunSignal
offer_resume c (some (abort x)) = some (abort x)
offer_resume c (some (resume d)) = some (resume c)
offer_resume c none = some (resume c)

unfoldable pub send_resume : ConsentRecord → RunControl → RunControl
unfolding offer_resume
send_resume c r = record { signal = offer_resume c r.signal }

unfoldable pub send_abort : Bool → RunControl → RunControl
send_abort expired r = record { signal = some (abort expired) }

-- `wait` takes the signal; while there is none, the thread sleeps.
unfoldable pub take_signal : RunControl → Option RunSignal × RunControl
take_signal r = (r.signal, record { signal = none })

unfoldable pub send_all : List RunSignal → RunControl → RunControl
unfolding send_resume send_abort
send_all [] r = r
send_all (resume c ∷ ss) r = send_all ss (send_resume c r)
send_all (abort x ∷ ss) r = send_all ss (send_abort x r)

pub IsAbort : Option RunSignal → Type 0
IsAbort s = (x : Bool) × (s ≡ some (abort x))

-- What is sent after an abort, consents and aborts alike, leaves an abort for the run to take.
pub send_all-IsAbort :
    (expired : Bool) (ss : List RunSignal) (r : RunControl)
    → IsAbort (take_signal (send_all ss (send_abort expired r))).0
unfolding take_signal send_all IsAbort
send_all-IsAbort expired [] r = (expired, refl)
send_all-IsAbort expired (resume c ∷ ss) r = send_all-IsAbort expired ss r
send_all-IsAbort expired (abort x ∷ ss) r =
    send_all-IsAbort x ss (record { signal = some (abort expired) })
