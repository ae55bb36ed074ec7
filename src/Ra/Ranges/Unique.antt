-- ===== src/Ra/Ranges/Unique.antt =====
-- A normal form is determined by the points that it covers, and covers none twice.
use portos.Base.{ℕ, suc, ◌≤◌, ◌<◌, ◌≡◌, refl, true, ◌&&◌, List, [], ◌∷◌, arith, leb, any, dec_lt}
use portos.Ra.Ranges.{Span, IsNormalFrom}
use portos.Ra.Ranges.Points.{hit, cover}

pub cover_below : (p m : ℕ) (xs : List Span) → IsNormalFrom m xs → p < m → cover p xs ≡ 0
cover_below p m [] h l = refl
cover_below p m ((a, b) ∷ xs) h l = ground (arith, cover_below p (suc b) xs h.2)

pub cover_at_most_once : (p m : ℕ) (xs : List Span) → IsNormalFrom m xs → cover p xs ≤ 1
cover_at_most_once p m [] h = omega arith
cover_at_most_once p m ((a, b) ∷ xs) h =
    ground (arith, cover_at_most_once p (suc b) xs h.2, cover_below p (suc b) xs h.2)

hit_start : (a b : ℕ) → a < b → hit a a b ≡ 1
hit_start a b h = ground arith

same_head :
    (m a b c d : ℕ) (xs ys : List Span)
    → IsNormalFrom m ((a, b) ∷ xs)
    → IsNormalFrom m ((c, d) ∷ ys)
    → ((p : ℕ) → cover p ((a, b) ∷ xs) ≡ cover p ((c, d) ∷ ys))
    → (a ≡ c) × (b ≡ d)
same_head m a b c d xs ys h k e = (starts, ends)
  where
    starts : a ≡ c
    starts = ground (
      arith,
      e a,
      e c,
      hit_start a b h.1,
      hit_start c d k.1,
      cover_below a (suc d) ys k.2,
      cover_below c (suc b) xs h.2,
    )

    ends : b ≡ d
    ends = ground (
      arith,
      starts,
      e b,
      e d,
      cover_below b (suc b) xs h.2,
      cover_below d (suc d) ys k.2,
      cover_below b (suc d) ys k.2,
      cover_below d (suc b) xs h.2,
    )

pub IsNormalFrom-unique :
    (m : ℕ) (xs ys : List Span)
    → IsNormalFrom m xs
    → IsNormalFrom m ys
    → ((p : ℕ) → cover p xs ≡ cover p ys)
    → xs ≡ ys
IsNormalFrom-unique m [] [] h k e = refl
IsNormalFrom-unique m [] ((c, d) ∷ ys) h k e = absurd (omega (arith, e c, hit_start c d k.1))
IsNormalFrom-unique m ((a, b) ∷ xs) [] h k e = absurd (omega (arith, e a, hit_start a b h.1))
IsNormalFrom-unique m ((a, b) ∷ xs) ((c, d) ∷ ys) h k e =
    let (s, t) = same_head m a b c d xs ys h k e in
    let tails : xs ≡ ys =
      IsNormalFrom-unique (suc b) xs ys h.2 (rw t k.2) (λ p. ground (arith, e p, s, t)) in
    ground arith

-- A stretch of covered points lies in one span.
pub stretch_inside :
    (m a b : ℕ) (xs : List Span)
    → IsNormalFrom m xs
    → a < b
    → ((p : ℕ) → a ≤ p → p < b → 1 ≤ cover p xs)
    → any (λ t. leb t.0 a && leb b t.1) xs ≡ true
stretch_inside m a b [] h l f = absurd (omega (arith, f a))
stretch_inside m a b ((c, d) ∷ xs) h l f = elim (dec_lt a d) [
  | yes p ↦ ground (arith, f a, f d, cover_below a (suc d) xs h.2, cover_below d (suc d) xs h.2)
  | no p ↦
      let rest = stretch_inside (suc d) a b xs h.2 l (λ q u v. ground (arith, f q u v)) in
      ground (arith, rest)
]
