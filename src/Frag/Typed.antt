-- ===== src/Frag/Typed.antt =====
-- `RuntimeAlgebra`: each tag has its type of values, injected into the fragments.
use portos.Base.{◌≡◌, refl, Option, none, some}
use portos.Ra.{Ra, IsRa}
use portos.Ra.Exclusive.{Ex, ex_ra, ex-IsRa}
use portos.Ra.Exclusive
use portos.Ra.Counted.{Count, count_ra, count-IsRa, IsMachine}
use portos.Ra.Names.{GSet, gset_ra, gset-IsRa}
use portos.Ra.Names
use portos.Ra.Ranges.{Ranges}
use portos.Ra.Ranges
use portos.Ra.Ranges.Algebra.{ranges_ra}
use portos.Ra.Ranges.Inclusion.{ranges-IsRa}
use portos.Ra.Fractions.{Frac, Rationals, frac_ra, frac-IsRa}
use portos.Ra.Fractions
use portos.Frag.{Frag, AlgebraTag, tag}

-- The implementing type of a tag.
abbrev pub Value : Type 0 → AlgebraTag → Type 0
Value Q AlgebraTag.exclusive = Ex
Value Q AlgebraTag.counted = Count
Value Q AlgebraTag.set = GSet
Value Q AlgebraTag.range = Ranges
Value Q AlgebraTag.frac = Frac Q

-- `into_fragment`.
abbrev pub into_fragment : {Q : Type 0} (t : AlgebraTag) → Value Q t → Frag Q
into_fragment AlgebraTag.exclusive v = Frag.ex v
into_fragment AlgebraTag.counted v = Frag.count v
into_fragment AlgebraTag.set v = Frag.set v
into_fragment AlgebraTag.range v = Frag.range v
into_fragment AlgebraTag.frac v = Frag.frac v

-- `from_fragment`.
abbrev pub from_fragment : {Q : Type 0} (t : AlgebraTag) → Frag Q → Option (Value Q t)
from_fragment AlgebraTag.exclusive (Frag.ex v) = some v
from_fragment AlgebraTag.counted (Frag.count v) = some v
from_fragment AlgebraTag.set (Frag.set v) = some v
from_fragment AlgebraTag.range (Frag.range v) = some v
from_fragment AlgebraTag.frac (Frag.frac v) = some v
from_fragment _ _ = none

module _ {Q : Type 0} (rat : Rationals Q) where
  abbrev pub algebra : (t : AlgebraTag) → Ra (Value Q t)
  algebra AlgebraTag.exclusive = ex_ra
  algebra AlgebraTag.counted = count_ra
  algebra AlgebraTag.set = gset_ra
  algebra AlgebraTag.range = ranges_ra
  algebra AlgebraTag.frac = frac_ra rat

  -- What the machine representation of a value can be.
  abbrev pub OkValue : (t : AlgebraTag) → Value Q t → Type 0
  OkValue AlgebraTag.exclusive v = Exclusive.Any v
  OkValue AlgebraTag.counted v = IsMachine v
  OkValue AlgebraTag.set v = Names.Any v
  OkValue AlgebraTag.range v = Ranges.IsProper v
  OkValue AlgebraTag.frac v = Fractions.IsProper rat v

  abbrev pub OkFrag : Frag Q → Type 0
  OkFrag (Frag.ex v) = Exclusive.Any v
  OkFrag (Frag.count v) = IsMachine v
  OkFrag (Frag.set v) = Names.Any v
  OkFrag (Frag.range v) = Ranges.IsProper v
  OkFrag (Frag.frac v) = Fractions.IsProper rat v

  -- Each of the five algebras satisfies the laws.
  pub algebra-IsRa : (t : AlgebraTag) → IsRa (algebra t) (OkValue t)
  algebra-IsRa AlgebraTag.exclusive = ex-IsRa
  algebra-IsRa AlgebraTag.counted = count-IsRa
  algebra-IsRa AlgebraTag.set = gset-IsRa
  algebra-IsRa AlgebraTag.range = ranges-IsRa
  algebra-IsRa AlgebraTag.frac = frac-IsRa rat

  -- A well-formed fragment is a well-formed value of its tag.
  pub typed :
      (f : Frag Q)
      → OkFrag f
      → (v : Value Q (tag f)) × OkValue (tag f) v × (f ≡ into_fragment (tag f) v)
  typed (Frag.ex v) h = (v, h, refl)
  typed (Frag.count v) h = (v, h, refl)
  typed (Frag.set v) h = (v, h, refl)
  typed (Frag.range v) h = (v, h, refl)
  typed (Frag.frac v) h = (v, h, refl)
