-- ===== src/Errors.antt =====
-- The errors of the resource model (`LedgerError`, crates/portos-rm/src/ledger.rs), and results.
use portos.Base.{◌≡◌, refl, Bool, true, false, Option, none, some}

pub data LedgerError : Type 0 where
  unknown_class unknown_pool algebra_mismatch conflict forged_handle stale_generation : LedgerError
  teardown_order double_release parent_authority invalid_value invalid_lease : LedgerError
  out_of_range class_conflict pool_exists foreign_reference duplicate_id invalid_graph : LedgerError
  invalid_generation cleanup_required invalid_cleanup stale_attempt : LedgerError

infixl 5 ◌>>=◌ ◌>>◌
pub data Result {ℓ} (A : Type ℓ) : Type ℓ where
  err : LedgerError → Result A
  ok : A → Result A

-- The operator `?` of the source: an error ends the call.
abbrev pub ◌>>=◌ {κ μ} : {X : Type κ} {Y : Type μ} → Result X → (X → Result Y) → Result Y
err why >>= next = err why
ok value >>= next = next value

-- An early return with an error, unless the test passes.
abbrev pub require : Bool → LedgerError → Result (Unit {0})
require true e = ok tt
require false e = err e

-- The same for a call that gives no value.
abbrev pub ◌>>◌ {μ} : {Y : Type μ} → Result (Unit {0}) → Result Y → Result Y
first >> then = first >>= λ _. then

-- `ok_or`.
abbrev pub or_err {ℓ} : {A : Type ℓ} → Option A → LedgerError → Result A
or_err none e = err e
or_err (some a) e = ok a

-- A call that succeeds got a value from its first part.
pub >>=-eq-ok {κ μ} :
    {X : Type κ} {Y : Type μ} (first : Result X) (next : X → Result Y) {y : Y}
    → (first >>= next) ≡ ok y
    → (x : X) × (first ≡ ok x) × (next x ≡ ok y)
>>=-eq-ok (err why) next e = cc
>>=-eq-ok (ok x) next e = (x, refl, e)

-- Inversion of the two guards.
pub require-ok {ℓ} :
    {B : Type ℓ} (t : Bool) (e : LedgerError) (k : Result B) {b : B}
    → (require t e >> k) ≡ ok b
    → (t ≡ true) × (k ≡ ok b)
require-ok true e k h = (refl, h)
require-ok false e k h = cc

pub or_err-ok {ℓ κ} :
    {A : Type ℓ} {B : Type κ} (o : Option A) (e : LedgerError) (f : A → Result B) {b : B}
    → (or_err o e >>= f) ≡ ok b
    → (a : A) × (o ≡ some a) × (f a ≡ ok b)
or_err-ok none e f h = cc
or_err-ok (some a) e f h = (a, refl, h)
