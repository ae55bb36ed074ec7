-- ===== src/Frag.antt =====
-- Dynamic fragments over the built-in algebras (`Frag`, crates/portos-rm/src/ledger.rs) and the
-- typed view of them (`RuntimeAlgebra`, crates/portos-rm/src/registry.rs).
pub mod Typed
pub mod Fits
pub mod Contract
use portos.Base.{◌≡◌, refl, Bool, true, false, Option, none, some, List, [], ◌∷◌, ℕ_discrete, test}
use portos.Base.Sets.{StringSet}
use portos.Errors.{Result, ok, err, LedgerError, or_err, ◌>>=◌}
use portos.Ra.{Ra, IsRa}
use portos.Ra.Exclusive.{Ex, ex_ra}
use portos.Ra.Counted.{Count, count_ra}
use portos.Ra.Names.{GSet, gset_ra}
use portos.Ra.Ranges.{Ranges}
use portos.Ra.Ranges.Algebra.{ranges_ra}
use portos.Ra.Fractions.{Frac, Rationals, frac_ra}
use portos.Auth.{auth_valid}

-- `Q` is the type of exact rationals.
pub data Frag (Q : Type 0) : Type 0 where
  ex : Ex → Frag Q
  count : Count → Frag Q
  set : GSet → Frag Q
  range : Ranges → Frag Q
  frac : Frac Q → Frag Q

pub data AlgebraTag : Type 0 where
  exclusive counted set range frac : AlgebraTag

unfoldable pub AlgebraTag-discrete : Discrete AlgebraTag
AlgebraTag-discrete = hlevel

-- `Frag::tag`.
abbrev pub tag : {Q : Type 0} → Frag Q → AlgebraTag
tag (Frag.ex _) = AlgebraTag.exclusive
tag (Frag.count _) = AlgebraTag.counted
tag (Frag.set _) = AlgebraTag.set
tag (Frag.range _) = AlgebraTag.range
tag (Frag.frac _) = AlgebraTag.frac

module _ {Q : Type 0} (rat : Rationals Q) where
  -- `none` is a mismatch of algebras.
  unfoldable pub op : Frag Q → Frag Q → Option (Frag Q)
  op (Frag.ex a) (Frag.ex b) = some (Frag.ex (ex_ra.op a b))
  op (Frag.count a) (Frag.count b) = some (Frag.count (count_ra.op a b))
  op (Frag.set a) (Frag.set b) = some (Frag.set (gset_ra.op a b))
  op (Frag.range a) (Frag.range b) = some (Frag.range (ranges_ra.op a b))
  op (Frag.frac a) (Frag.frac b) = some (Frag.frac ((frac_ra rat).op a b))
  op _ _ = none

  unfoldable pub valid : Frag Q → Bool
  valid (Frag.ex a) = ex_ra.valid a
  valid (Frag.count a) = count_ra.valid a
  valid (Frag.set a) = gset_ra.valid a
  valid (Frag.range a) = ranges_ra.valid a
  valid (Frag.frac a) = (frac_ra rat).valid a

  unfoldable pub included_in : Frag Q → Frag Q → Bool
  included_in (Frag.ex a) (Frag.ex b) = ex_ra.included_in a b
  included_in (Frag.count a) (Frag.count b) = count_ra.included_in a b
  included_in (Frag.set a) (Frag.set b) = gset_ra.included_in a b
  included_in (Frag.range a) (Frag.range b) = ranges_ra.included_in a b
  included_in (Frag.frac a) (Frag.frac b) = (frac_ra rat).included_in a b
  included_in _ _ = false

  -- The loop of `compose_frags`.
  unfoldable pub compose_from : Frag Q → List (Frag Q) → Result (Frag Q)
  compose_from acc [] = ok acc
  compose_from acc (f ∷ fs) = elim (op acc f) [
    | none ↦ err LedgerError.algebra_mismatch
    | some acc' ↦ compose_from acc' fs
  ]

  unfoldable pub compose_frags : List (Frag Q) → Result (Option (Frag Q))
  unfolding compose_from
  compose_frags [] = ok none
  compose_frags (f ∷ fs) = do out ← compose_from f fs; ok (some out)

  unfoldable pub frag_auth_valid : Frag Q → Option (Frag Q) → Bool
  frag_auth_valid (Frag.ex c) none = auth_valid ex_ra c none
  frag_auth_valid (Frag.ex c) (some (Frag.ex o)) = auth_valid ex_ra c (some o)
  frag_auth_valid (Frag.count c) none = auth_valid count_ra c none
  frag_auth_valid (Frag.count c) (some (Frag.count o)) = auth_valid count_ra c (some o)
  frag_auth_valid (Frag.set c) none = auth_valid gset_ra c none
  frag_auth_valid (Frag.set c) (some (Frag.set o)) = auth_valid gset_ra c (some o)
  frag_auth_valid (Frag.range c) none = auth_valid ranges_ra c none
  frag_auth_valid (Frag.range c) (some (Frag.range o)) = auth_valid ranges_ra c (some o)
  frag_auth_valid (Frag.frac c) none = auth_valid (frac_ra rat) c none
  frag_auth_valid (Frag.frac c) (some (Frag.frac o)) = auth_valid (frac_ra rat) c (some o)
  frag_auth_valid _ _ = false

  -- `frag_auth_valid(cap, &compose_frags(&frags)?)`.
  abbrev pub fits : Frag Q → List (Frag Q) → Result Bool
  fits cap fs = do out ← compose_frags fs; ok (frag_auth_valid cap out)
