-- ===== src/Ra/Ranges/Algebra.antt =====
-- `Ranges` is a resource algebra: an element stands for how often it covers each point, with
-- overlap as the invalid element, and composition adds these numbers.
use portos.Base.{
  ℕ, suc, ◌+◌, ◌≤◌, ◌≡◌, refl, sym, ◌∙◌, ap₂, ◌⊎◌, inl, inr, true, false, Option, none, some, List,
  [], ◌∷◌, ◌++◌, arith, if◌then◌else◌, All, All-append,
}
use portos.Ra.{Ra}
use portos.Ra.Ranges.{
  Span, Ranges, Ranges-discrete, empty, op, valid, pcore, included_in, spanned, normalize,
  IsNormalFrom, IsProper,
}
use portos.Ra.Ranges.Points.{cover, cover-append, IsNonempty, Outcome, normalize-Outcome}
use portos.Ra.Ranges.Unique.{cover_at_most_once, IsNormalFrom-unique}

abbrev pub ranges_ra : Ra Ranges
ranges_ra = record {
  op = op;
  valid = valid;
  pcore = pcore;
  included_in = included_in;
  same = Ranges-discrete;
}

-- `x` covers the point `p` as often as `f p` says, or is invalid where some point is covered twice.
abbrev pub Represents : Ranges → (ℕ → ℕ) → Type 0
Represents x f =
    ((x.bot ≡ true) × (x.spans ≡ []) × ((p : ℕ) × (2 ≤ f p)))
    ⊎ ((x.bot ≡ false) × IsNormalFrom 0 x.spans × ((p : ℕ) → cover p x.spans ≡ f p))

abbrev pub weight : Ranges → ℕ → ℕ
weight x p = if x.bot then 2 else cover p x.spans

pub Represents-weight : (x : Ranges) → IsProper x → Represents x (weight x)
Represents-weight x (inl (b, s)) = inl (b, s, (0, rw b (omega arith)))
Represents-weight x (inr (b, n)) = inr (b, n, λ p. rw b refl)

Represents-IsProper : (x : Ranges) (f : ℕ → ℕ) → Represents x f → IsProper x
Represents-IsProper x f (inl (b, s, _)) = inl (b, s)
Represents-IsProper x f (inr (b, n, _)) = inr (b, n)

pub ranges_ext : (x y : Ranges) → x.spans ≡ y.spans → x.bot ≡ y.bot → x ≡ y
ranges_ext x y s b = λ i. record { spans = s i; bot = b i }

pub Represents-unique :
    (x y : Ranges) (f g : ℕ → ℕ) → Represents x f → Represents y g → ((p : ℕ) → f p ≡ g p) → x ≡ y
Represents-unique x y f g (inl (b, s, _)) (inl (c, t, _)) e = ranges_ext x y (s ∙ sym t) (b ∙ sym c)
Represents-unique x y f g (inl (b, s, (p, two))) (inr (c, n, h)) e =
    absurd (omega (arith, cover_at_most_once p 0 y.spans n, h p, e p))
Represents-unique x y f g (inr (c, n, h)) (inl (b, s, (p, two))) e =
    absurd (omega (arith, cover_at_most_once p 0 x.spans n, h p, e p))
Represents-unique x y f g (inr (b, n, h)) (inr (c, m, k)) e =
    ranges_ext x y (IsNormalFrom-unique 0 _ _ n m (λ p. h p ∙ e p ∙ sym (k p))) (b ∙ sym c)

pub normal-IsNonempty : (m : ℕ) (xs : List Span) → IsNormalFrom m xs → All IsNonempty xs
normal-IsNonempty m [] h = tt
normal-IsNonempty m ((a, b) ∷ xs) h = (h.1, normal-IsNonempty (suc b) xs h.2)

spanned-Represents : (f : ℕ → ℕ) (o : Option (List Span)) → Outcome f 0 o → Represents (spanned o) f
spanned-Represents f none h = inl (refl, refl, h)
spanned-Represents f (some out) h = inr (refl, h.0, h.1)

abbrev pub add : (ℕ → ℕ) → (ℕ → ℕ) → ℕ → ℕ
add f g p = f p + g p

Outcome-resp :
    (f g : ℕ → ℕ) (o : Option (List Span)) → ((p : ℕ) → f p ≡ g p) → Outcome f 0 o → Outcome g 0 o
Outcome-resp f g none e h = (h.0, omega (arith, e h.0, h.1))
Outcome-resp f g (some out) e h = (h.0, λ p. h.1 p ∙ e p)

op-Represents :
    (x y : Ranges) (f g : ℕ → ℕ) → Represents x f → Represents y g → Represents (op x y) (add f g)
unfolding op
op-Represents x y f g (inl (b, s, (p, two))) h = rw b (inl (refl, refl, (p, omega arith)))
op-Represents x y f g (inr (c, n, k)) (inl (b, s, (p, two))) =
    rw (c, b) (inl (refl, refl, (p, omega arith)))
op-Represents x y f g (inr (b, n, h)) (inr (c, m, k)) =
    rw (b, c)
      (spanned-Represents _ _ (
        Outcome-resp _ _ (normalize (x.spans ++ y.spans))
          (λ p. cover-append p x.spans y.spans ∙ ap₂ ◌+◌ (h p) (k p))
          (normalize-Outcome (x.spans ++ y.spans) (
            All-append IsNonempty x.spans y.spans (normal-IsNonempty 0 _ n)
              (normal-IsNonempty 0 _ m)))))

module _ (x y : Ranges) (px : IsProper x) (py : IsProper y) where
  pub op-weight : Represents (op x y) (add (weight x) (weight y))
  op-weight = op-Represents x y _ _ (Represents-weight x px) (Represents-weight y py)

  pub op-IsProper : IsProper (op x y)
  op-IsProper = Represents-IsProper _ _ op-weight

pub op_comm : (x y : Ranges) → IsProper x → IsProper y → op x y ≡ op y x
op_comm x y px py =
    Represents-unique _ _ _ _ (op-weight x y px py) (op-weight y x py px) (λ p. omega arith)

pub op_assoc :
    (x y z : Ranges) → IsProper x → IsProper y → IsProper z → op (op x y) z ≡ op x (op y z)
op_assoc x y z px py pz =
    Represents-unique _ _ _ _ (op-Represents _ _ _ _ (op-weight x y px py) (Represents-weight z pz))
      (op-Represents _ _ _ _ (Represents-weight x px) (op-weight y z py pz)) (λ p. omega arith)

pub valid_left : (x y : Ranges) → valid (op x y) ≡ true → valid x ≡ true
unfolding op
valid_left x y h = ground arith

pub empty-IsProper : IsProper empty
empty-IsProper = inr (refl, tt)

pub empty-op : (x : Ranges) → IsProper x → op empty x ≡ x
empty-op x px =
    Represents-unique _ _ _ _ (op-weight empty x empty-IsProper px) (Represents-weight x px)
      (λ p. omega arith)
