-- ===== src/Registry.antt =====
-- Admission of typed values (crates/portos-rm/src/registry.rs). The type parameter of the source's
-- `ClassBinding`, `RegisteredClass` and `PoolRef` is an index here: the tag of the algebra.
use portos.Base.{ℕ, test}
use portos.Errors.{Result, ok, LedgerError, require, ◌>>◌}
use portos.Identity.{ClassId, PoolId}
use portos.Ra.Fractions.{Rationals}
use portos.Frag.{AlgebraTag, AlgebraTag-discrete}
use portos.Frag.Typed.{Value, algebra}

-- `Capacity` and `Claim` wrap a value that was checked to be valid.
pub record Capacity (Q : Type 0) (t : AlgebraTag) : Type 0 where
  pub value : Value Q t

pub record Claim (Q : Type 0) (t : AlgebraTag) : Type 0 where
  pub value : Value Q t

module _ {Q : Type 0} (rat : Rationals Q) where
  -- `Capacity::new`.
  unfoldable pub new_capacity : (t : AlgebraTag) → Value Q t → Result (Capacity Q t)
  new_capacity t v = do
    require ((algebra rat t).valid v) LedgerError.invalid_value
    ok (record { value = v })

  -- `Claim::new`.
  unfoldable pub new_claim : (t : AlgebraTag) → Value Q t → Result (Claim Q t)
  new_claim t v = do
    require ((algebra rat t).valid v) LedgerError.invalid_value
    ok (record { value = v })

pub record ClassBinding : Type 0 where
  pub ledger : ℕ
  pub id : ClassId
  pub algebra : AlgebraTag

pub record RegisteredClass (t : AlgebraTag) : Type 0 where
  pub binding : ClassBinding

-- A reference to a pool of one ledger.
pub record PoolRef (t : AlgebraTag) : Type 0 where
  pub ledger : ℕ
  pub id : PoolId

-- `ClassBinding::for_algebra`.
unfoldable pub for_algebra : (t : AlgebraTag) → ClassBinding → Result (RegisteredClass t)
for_algebra t b = do
  require (test (AlgebraTag-discrete b.algebra t)) LedgerError.algebra_mismatch
  ok (record { binding = b })
