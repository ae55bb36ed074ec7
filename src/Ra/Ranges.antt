-- ===== src/Ra/Ranges.antt =====
-- `Ranges`, disjoint half-open intervals (crates/portos-rm/src/ra.rs). A normal form is sorted,
-- without overlap, and with adjacent intervals merged; overlap makes the invalid element.
pub mod Points
pub mod Unique
pub mod Algebra
pub mod Inclusion
pub mod Decode
use portos.Base.{
  ℕ, ◌<◌, ◌≤◌, suc, ◌≡◌, ◌⊎◌, Bool, true, false, ◌&&◌, ◌||◌, not, Option, none, some, List, [], ◌∷◌,
  ◌++◌, arith, ltb, leb, ◌==◌, if◌then◌else◌, all, any, All, ℕ_discrete,
}

-- `(a, b)` holds the points from a up to b, without b.
abbrev pub Span : Type 0
Span = ℕ × ℕ

pub record Ranges : Type 0 where
  pub spans : List Span
  pub bot : Bool

pub Ranges-discrete : Discrete Ranges
Ranges-discrete = hlevel ℕ_discrete

pub data RangeInputError : Type 0 where
  malformed overlap : RangeInputError

abbrev pub bottom : Ranges
bottom = record { spans = []; bot = true }

abbrev pub empty : Ranges
empty = record { spans = []; bot = false }

-- The order of `sort_unstable` on pairs.
abbrev pub before : Span → Span → Bool
before (a, b) (c, d) = ltb a c || a == c && leb b d

unfoldable pub insert : Span → List Span → List Span
insert s [] = s ∷ []
insert s (t ∷ ts) = if before s t then s ∷ t ∷ ts else t ∷ insert s ts

unfoldable pub sort : List Span → List Span
unfolding insert
sort [] = []
sort (s ∷ ss) = insert s (sort ss)

-- The loop of `normalize`; the first two arguments are the last span pushed to `out`.
unfoldable pub coalesce : ℕ → ℕ → List Span → Option (List Span)
coalesce a b [] = some ((a, b) ∷ [])
coalesce a b ((c, d) ∷ r) =
    let merged = coalesce a d r in
    let pushed = coalesce c d r in
    if ltb c b
    then none
    else if c == b
    then merged
    else elim pushed [ none ↦ none | some out ↦ some ((a, b) ∷ out) ]

unfoldable pub merge_sorted : List Span → Option (List Span)
unfolding coalesce
merge_sorted [] = some []
merge_sorted ((a, b) ∷ r) = coalesce a b r

unfoldable pub normalize : List Span → Option (List Span)
unfolding merge_sorted sort
normalize v = merge_sorted (sort v)

pub data Decoded : Type 0 where
  ok : Ranges → Decoded
  err : RangeInputError → Decoded

abbrev pub decoded : Option (List Span) → Decoded
decoded none = Decoded.err RangeInputError.overlap
decoded (some s) = Decoded.ok (record { spans = s; bot = false })

-- `Ranges::try_of` refuses reversed and empty spans, then overlaps.
unfoldable pub try_of : List Span → Decoded
unfolding normalize
try_of v =
    if any (λ s. leb s.1 s.0) v
    then Decoded.err RangeInputError.malformed
    else decoded (normalize v)

-- `Ranges::of`.
unfoldable pub of : List Span → Ranges
unfolding try_of
of v = elim (try_of v) [ ok r ↦ r | err _ ↦ bottom ]

abbrev pub spanned : Option (List Span) → Ranges
spanned none = bottom
spanned (some s) = record { spans = s; bot = false }

unfoldable pub op : Ranges → Ranges → Ranges
unfolding normalize
op x y = if x.bot || y.bot then bottom else spanned (normalize (x.spans ++ y.spans))

abbrev pub valid : Ranges → Bool
valid x = not x.bot

abbrev pub pcore : Ranges → Option Ranges
pcore _ = some empty

unfoldable pub covered_by : List Span → List Span → Bool
covered_by xs ys = all (λ s. any (λ t. leb t.0 s.0 && leb s.1 t.1) ys) xs

unfoldable pub included_in : Ranges → Ranges → Bool
unfolding covered_by
included_in x b = if b.bot then true else if x.bot then false else covered_by x.spans b.spans

-- In order, without empty spans, and with a gap after each: what `normalize` returns.
abbrev pub IsNormalFrom : ℕ → List Span → Type 0
IsNormalFrom m [] = Unit
IsNormalFrom m ((a, b) ∷ r) = (m ≤ a) × (a < b) × IsNormalFrom (suc b) r

abbrev pub IsProper : Ranges → Type 0
IsProper x = ((x.bot ≡ true) × (x.spans ≡ [])) ⊎ ((x.bot ≡ false) × IsNormalFrom 0 x.spans)
