-- ===== src/Ra/Ranges/Decode.antt =====
-- What `Ranges::try_of` accepts and what it refuses (crates/portos-rm/src/ra.rs).
use portos.Base.{
  ℕ, ◌≤◌, ◌≡◌, refl, subst, Bool, false, Option, none, some, List, [], ◌∷◌, any, leb, All, arith,
  Bool-cases, inl, inr,
}
use portos.Ra.Ranges.{
  Span, Ranges, Decoded, RangeInputError, decoded, normalize, try_of, IsNormalFrom,
}
use portos.Ra.Ranges.Points.{cover, IsNonempty, Outcome, normalize-Outcome}

abbrev reversed : Span → Bool
reversed s = leb s.1 s.0

IsNonempty-All : (v : List Span) → any reversed v ≡ false → All IsNonempty v
IsNonempty-All [] h = tt
IsNonempty-All ((a, b) ∷ v) h = (ground arith, IsNonempty-All v (ground arith))

try_of_good :
    (v : List Span) {d : Decoded}
    → any reversed v ≡ false
    → try_of v ≡ d
    → decoded (normalize v) ≡ d
unfolding try_of
try_of_good v n e = rw n at e

decoded-ok :
    (o : Option (List Span)) (f : ℕ → ℕ) (r : Ranges)
    → Outcome f 0 o
    → decoded o ≡ Decoded.ok r
    → (r.bot ≡ false) × IsNormalFrom 0 r.spans × ((p : ℕ) → cover p r.spans ≡ f p)
decoded-ok none f r h e = cc
decoded-ok (some s) f r h e =
    let q : record { spans = s; bot = false } ≡ r = cc e in
    subst
      (λ (r : Ranges). (r.bot ≡ false) × IsNormalFrom 0 r.spans × ((p : ℕ) → cover p r.spans ≡ f p))
      q (refl, h.0, h.1)

decoded-overlap :
    (o : Option (List Span)) (f : ℕ → ℕ)
    → Outcome f 0 o
    → decoded o ≡ Decoded.err RangeInputError.overlap
    → (p : ℕ) × (2 ≤ f p)
decoded-overlap none f h e = h
decoded-overlap (some s) f h e = cc

-- A list of spans that is accepted gives a valid value in normal form, with the same points: each
-- point lies in as many of its spans as of the spans that were given.
pub try_of-accepts :
    (v : List Span) (r : Ranges)
    → try_of v ≡ Decoded.ok r
    → (r.bot ≡ false) × IsNormalFrom 0 r.spans × ((p : ℕ) → cover p r.spans ≡ cover p v)
unfolding try_of
try_of-accepts v r e = elim (Bool-cases (any reversed v)) [
  | inl m ↦ cc (rw m at e)
  | inr n ↦
      decoded-ok (normalize v) (λ p. cover p v) r (normalize-Outcome v (IsNonempty-All v n))
        (try_of_good v n e)
]

-- A list of spans is refused as an overlap only if some point lies in two of them.
pub try_of-overlap :
    (v : List Span) → try_of v ≡ Decoded.err RangeInputError.overlap → (p : ℕ) × (2 ≤ cover p v)
unfolding try_of
try_of-overlap v e = elim (Bool-cases (any reversed v)) [
  | inl m ↦ cc (rw m at e)
  | inr n ↦
      decoded-overlap (normalize v) (λ p. cover p v) (normalize-Outcome v (IsNonempty-All v n))
        (try_of_good v n e)
]
