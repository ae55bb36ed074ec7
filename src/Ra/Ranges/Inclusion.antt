-- ===== src/Ra/Ranges/Inclusion.antt =====
-- Inclusion of `Ranges` by covering is inclusion in the algebra: what is covered can be completed
-- to the whole by the points that are left.
use portos.Base.{
  ℕ, suc, ◌+◌, ◌≤◌, ◌<◌, ◌≡◌, refl, inl, inr, Bool, true, false, ◌&&◌, Option, none, some, List, [],
  ◌∷◌, arith, ltb, leb, if◌then◌else◌, any, All, Bool-cases,
}
use portos.Ra.{IsRa}
use portos.Ra.Ranges.{
  Span, Ranges, bottom, empty, op, included_in, covered_by, normalize, IsNormalFrom, IsProper,
}
use portos.Ra.Ranges.Points.{hit, cover, IsNonempty, Outcome, normalize-Outcome}
use portos.Ra.Ranges.Unique.{cover_below, cover_at_most_once, stretch_inside}
use portos.Ra.Ranges.Algebra.{
  ranges_ra, Represents, weight, Represents-weight, Represents-unique, ranges_ext,
  normal-IsNonempty, add, op-weight, op-IsProper, op_comm, op_assoc, valid_left, empty-op,
}

abbrev inside : ℕ → ℕ → Span → Bool
inside a b t = leb t.0 a && leb b t.1

inside-cover :
    (p a b : ℕ) (ys : List Span) → any (inside a b) ys ≡ true → a ≤ p → p < b → 1 ≤ cover p ys
inside-cover p a b [] h l u = cc
inside-cover p a b ((c, d) ∷ ys) h l u = ground (arith, inside-cover p a b ys)

covered_by-cover :
    (p : ℕ) (xs ys : List Span) → covered_by xs ys ≡ true → 1 ≤ cover p xs → 1 ≤ cover p ys
unfolding covered_by
covered_by-cover p [] ys h l = absurd (omega arith)
covered_by-cover p ((a, b) ∷ xs) ys h l =
    ground (arith, inside-cover p a b ys, covered_by-cover p xs ys)

cover-covered_by :
    (m : ℕ) (xs ys : List Span)
    → IsNormalFrom m xs
    → IsNormalFrom 0 ys
    → ((p : ℕ) → cover p xs ≤ cover p ys)
    → covered_by xs ys ≡ true
unfolding covered_by
cover-covered_by m [] ys h k f = refl
cover-covered_by m ((a, b) ∷ xs) ys h k f =
    let one = stretch_inside 0 a b ys k h.1 (λ p l u. ground (arith, f p)) in
    let rest = cover-covered_by (suc b) xs ys h.2 k (λ p. omega (arith, f p)) in
    ground (arith, one, rest)

-- The part of a span in front of `a`, if any.
abbrev piece : ℕ → ℕ → List Span → List Span
piece c a r = if ltb c a then (c, a) ∷ r else r

cover-piece : (p c a : ℕ) (r : List Span) → cover p (piece c a r) ≡ hit p c a + cover p r
cover-piece p c a r = ground arith

piece-IsNonempty : (c a : ℕ) (r : List Span) → All IsNonempty r → All IsNonempty (piece c a r)
piece-IsNonempty c a r h = ground arith

-- What the spans `ys` hold beside the spans `xs`.
difference : List Span → List Span → List Span
difference [] ys = ys
difference ((a, b) ∷ xs) [] = []
difference ((a, b) ∷ xs) ((c, d) ∷ ys) =
    let within = difference xs ((b, d) ∷ ys) in
    let through = difference xs ys in
    let past = difference ((a, b) ∷ xs) ys in
    if ltb a d then piece c a (if ltb b d then within else through) else (c, d) ∷ past

difference-IsNonempty : (xs ys : List Span) → All IsNonempty ys → All IsNonempty (difference xs ys)
unfolding difference
difference-IsNonempty [] ys h = h
difference-IsNonempty ((a, b) ∷ xs) [] h = tt
difference-IsNonempty ((a, b) ∷ xs) ((c, d) ∷ ys) h = elim (Bool-cases (ltb a d)) [
  | inl near ↦ rw near (
      piece-IsNonempty c a _ (elim (Bool-cases (ltb b d)) [
        | inl more ↦ rw more (difference-IsNonempty xs ((b, d) ∷ ys) (ground arith, h.1))
        | inr full ↦ rw full (difference-IsNonempty xs ys h.1)
      ]))
  | inr far ↦ rw far (h.0, difference-IsNonempty ((a, b) ∷ xs) ys h.1)
]

-- The spans of `xs` lie in spans of `ys`: the first of them, below the end of the first of `ys`.
first_inside :
    (m n a b c d : ℕ) (xs ys : List Span)
    → IsNormalFrom m ((a, b) ∷ xs)
    → IsNormalFrom n ((c, d) ∷ ys)
    → cover a ((a, b) ∷ xs) ≤ cover a ((c, d) ∷ ys)
    → cover d ((a, b) ∷ xs) ≤ cover d ((c, d) ∷ ys)
    → a < d
    → (c ≤ a) × (b ≤ d)
first_inside m n a b c d xs ys h k f g l = (
  ground (arith, f, cover_below a (suc d) ys k.2),
  ground (arith, g, cover_below d (suc d) ys k.2),
)

cover-difference :
    (m n : ℕ) (xs ys : List Span)
    → IsNormalFrom m xs
    → IsNormalFrom n ys
    → ((p : ℕ) → cover p xs ≤ cover p ys)
    → (p : ℕ) → cover p (difference xs ys) + cover p xs ≡ cover p ys
unfolding difference
cover-difference m n [] ys h k f p = omega arith
cover-difference m n ((a, b) ∷ xs) [] h k f p = omega (arith, f p)
cover-difference m n ((a, b) ∷ xs) ((c, d) ∷ ys) h k f p = elim (Bool-cases (ltb a d)) [
  | inl near ↦
      let (s, t) = first_inside m n a b c d xs ys h k (f a) (f d) (ground arith) in
      rw near (elim (Bool-cases (ltb b d)) [
        | inl more ↦
            let ih =
              cover-difference (suc b) b xs ((b, d) ∷ ys) h.2 (omega arith, ground arith, k.2)
                (λ q. ground (arith, f q, cover_below q (suc b) xs h.2)) p in
            rw more (ground (arith, ih, s, t, h.1, cover-piece p c a (difference xs ((b, d) ∷ ys))))
        | inr full ↦
            let ih =
              cover-difference (suc b) (suc d) xs ys h.2 k.2
                (λ q. ground (arith, f q, cover_below q (suc b) xs h.2)) p in
            rw full (ground (arith, ih, s, t, h.1, cover-piece p c a (difference xs ys)))
      ])
  | inr far ↦
      let ih =
        cover-difference m (suc d) ((a, b) ∷ xs) ys h k.2
          (λ q. ground (arith, f q, cover_below q (suc b) xs h.2)) p in
      rw far (ground (arith, ih))
]

normal_of : (x : Ranges) → IsProper x → x.bot ≡ false → IsNormalFrom 0 x.spans
normal_of x (inl (b, s)) e = cc
normal_of x (inr (b, n)) e = n

covered-cover :
    (x b : Ranges)
    → IsNormalFrom 0 x.spans
    → covered_by x.spans b.spans ≡ true
    → (p : ℕ) → cover p x.spans ≤ cover p b.spans
covered-cover x b n h p =
    ground (arith, covered_by-cover p x.spans b.spans h, cover_at_most_once p 0 x.spans n)

module _ (x b : Ranges) (px : IsProper x) (pb : IsProper b) (xf : x.bot ≡ false)
    (bf : b.bot ≡ false) (c : covered_by x.spans b.spans ≡ true) where
  rest : List Span
  rest = difference x.spans b.spans

  cover-rest : (p : ℕ) → cover p rest + cover p x.spans ≡ cover p b.spans
  unfolding rest
  cover-rest =
      cover-difference 0 0 x.spans b.spans (normal_of x px xf) (normal_of b pb bf)
        (covered-cover x b (normal_of x px xf) c)

  completes :
      (o : Option (List Span))
      → Outcome (λ p. cover p rest) 0 o
      → (r : Ranges) × IsProper r × (b ≡ op x r)
  completes none h =
      absurd
        (omega (arith, h.1, cover-rest h.0, cover_at_most_once h.0 0 b.spans (normal_of b pb bf)))
  completes (some out) h =
      let r : Ranges = record { spans = out; bot = false } in
      let pr : IsProper r = inr (refl, h.0) in
      (
        r,
        pr,
        Represents-unique b (op x r) _ _ (Represents-weight b pb) (op-weight x r px pr)
            (λ p. rw (xf, bf) (omega (arith, cover-rest p, h.1 p))),
      )

  rest-IsNonempty : All IsNonempty rest
  unfolding rest
  rest-IsNonempty =
      difference-IsNonempty x.spans b.spans (normal-IsNonempty 0 _ (normal_of b pb bf))

  completion : (r : Ranges) × IsProper r × (b ≡ op x r)
  completion = completes (normalize rest) (normalize-Outcome rest rest-IsNonempty)

bottom-IsProper : IsProper bottom
bottom-IsProper = inl (refl, refl)

op-bottom : (x b : Ranges) → IsProper b → b.bot ≡ true → b ≡ op x bottom
unfolding op
op-bottom x b (inl (t, s)) e = elim (Bool-cases x.bot) [
  | inl y ↦ rw y (ranges_ext b bottom s t)
  | inr n ↦ rw n (ranges_ext b bottom s t)
]
op-bottom x b (inr (f, n)) e = cc

incl :
    (x b : Ranges)
    → IsProper x
    → IsProper b
    → included_in x b ≡ true
    → (r : Ranges) × IsProper r × (b ≡ op x r)
unfolding included_in
incl x b px pb h = elim (Bool-cases b.bot) [
  | inl t ↦ (bottom, bottom-IsProper, op-bottom x b pb t)
  | inr f ↦ elim (Bool-cases x.bot) [
    | inl u ↦ cc (f, u, h)
    | inr g ↦ completion x b px pb g f (ground (arith, f, g, h))
  ]
]

included_of_covered :
    (x b : Ranges)
    → b.bot ≡ false
    → x.bot ≡ false
    → covered_by x.spans b.spans ≡ true
    → included_in x b ≡ true
unfolding included_in
included_of_covered x b e f h = ground (arith, e, f, h)

included_in-op : (x y : Ranges) → IsProper x → IsProper y → included_in x (op x y) ≡ true
unfolding included_in
included_in-op x y px py = by_outcome (op-weight x y px py)
  where
    by_outcome : Represents (op x y) (add (weight x) (weight y)) → included_in x (op x y) ≡ true
    by_outcome (inl (b, _, _)) = rw b
    by_outcome (inr (b, n, k)) = elim (Bool-cases x.bot) [
      | inl t ↦ absurd (omega (arith, cover_at_most_once 0 0 _ n, k 0, weight_bottom t))
      | inr f ↦ included_of_covered x (op x y) b f (
          cover-covered_by 0 x.spans (op x y).spans (normal_of x px f) n
            (λ p. ground (arith, k p, f)))
    ]
      where
        weight_bottom : x.bot ≡ true → weight x 0 ≡ 2
        weight_bottom t = rw t

empty-included : included_in empty empty ≡ true
unfolding included_in covered_by
empty-included = refl

-- `Ranges` satisfies the laws, for the normal forms that its constructors make.
pub ranges-IsRa : IsRa ranges_ra IsProper
ranges-IsRa = record {
  closed = op-IsProper;
  assoc = op_assoc;
  comm = op_comm;
  valid_op_l = λ x y _ _. valid_left x y;
  core_id = λ x c p h. let e : empty ≡ c = ground arith in rw (← e) (empty-op x p);
  core_idem = λ x c p h. h;
  core_mono =
      λ x y c p q h e. let s : empty ≡ c = ground arith in (empty, refl, rw (← s) empty-included);
  incl = incl;
  incl_op = included_in-op;
}
