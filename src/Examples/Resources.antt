-- ===== src/Examples/Resources.antt =====
-- The algebras at concrete values.
use portos.Base.{ℕ, ◌≡◌, ◌↔◌, refl, true, false, List, [], ◌∷◌, arith, ℕ_discrete}
use portos.Ra.{law_assoc, law_comm, law_valid_op_l, law_core_id, law_core_idem, law_core_mono}
use portos.Ra.Counted.{Count, Count-discrete, count_ra}
use portos.Ra.Ranges.{
  Decoded, RangeInputError, try_of, IsNormalFrom, normalize, merge_sorted, sort, insert, coalesce,
}
use portos.Ra.Ranges.Points.{cover}
use portos.Ra.Ranges.Decode.{try_of-accepts}
use portos.Auth.{compose, auth_valid}
use portos.Frag.{AlgebraTag}
use portos.Frag.Typed.{OkValue}
use portos.Frag.Contract.{laws_hold, included_in-decides}
use portos.Examples.Twelfths.{twelfths}

laws_hold_example :
    (law_assoc count_ra (Count.value 3) (Count.value 4) (Count.value 5) ≡ true)
    × (law_comm count_ra (Count.value 3) (Count.value 4) ≡ true)
    × (law_valid_op_l count_ra (Count.value 3) (Count.value 4) ≡ true)
    × (law_core_id count_ra (Count.value 3) ≡ true)
    × (law_core_idem count_ra (Count.value 3) ≡ true)
    × (law_core_mono count_ra (Count.value 3) (Count.value 4) ≡ true)
laws_hold_example =
    laws_hold twelfths AlgebraTag.counted (Count.value 3) (Count.value 4) (Count.value 5)
      (omega arith) (omega arith) (omega arith)

included_in-decides_example : (count_ra.included_in (Count.value 3) (Count.value 5) ≡ true) ↔ (
    (c : Count) × OkValue twelfths AlgebraTag.counted c
    × (Count.value 5 ≡ count_ra.op (Count.value 3) c))
included_in-decides_example =
    included_in-decides twelfths AlgebraTag.counted (Count.value 3) (Count.value 5) (omega arith)
      (omega arith)

both_fit :
    auth_valid count_ra (Count.value 6) (compose count_ra (Count.value 1 ∷ Count.value 4 ∷ []))
    ≡ true
unfolding auth_valid compose Count-discrete ℕ_discrete
both_fit = refl

abbrev two_spans : List (ℕ × ℕ)
two_spans = (5, 8) ∷ (2, 5) ∷ []

two_spans_merge : try_of two_spans ≡ Decoded.ok (record { spans = (2, 8) ∷ []; bot = false })
unfolding try_of normalize merge_sorted sort insert coalesce
two_spans_merge = refl

try_of-accepts_example :
    (false ≡ false)
    × IsNormalFrom 0 ((2, 8) ∷ [])
    × ((p : ℕ) → cover p ((2, 8) ∷ []) ≡ cover p two_spans)
try_of-accepts_example =
    try_of-accepts two_spans (record { spans = (2, 8) ∷ []; bot = false }) two_spans_merge

abbrev crossing : List (ℕ × ℕ)
crossing = (5, 8) ∷ (2, 6) ∷ []

crossing_overlaps : try_of crossing ≡ Decoded.err RangeInputError.overlap
unfolding try_of normalize merge_sorted sort insert coalesce
crossing_overlaps = refl
