-- ===== src/Frag/Fits.antt =====
-- The capacity test on fragments is that of the algebra of the pool, and stays true as claims leave.
use portos.Base.{
  ◌≡◌, refl, sym, ◌∙◌, ap, ap₂, subst, Bool, true, Option, none, some, List, [], ◌∷◌, map, All,
  arith,
}
use mathlib.Core.List.{foldl}
use mathlib.Core.Option
use portos.Errors.{Result, ok}
use portos.Ra.Fractions.{Rationals}
use portos.Auth.{compose, auth_valid, Sub, auth_valid-Sub}
use portos.Frag.{Frag, AlgebraTag, tag, op, compose_from, compose_frags, frag_auth_valid, fits}
use portos.Frag.Typed.{Value, into_fragment, algebra, algebra-IsRa, OkValue, OkFrag, typed}

module _ {Q : Type 0} (rat : Rationals Q) where
  op-into :
      (t : AlgebraTag) (a b : Value Q t)
      → op rat (into_fragment t a) (into_fragment t b)
        ≡ some (into_fragment t ((algebra rat t).op a b))
  unfolding op
  op-into AlgebraTag.exclusive a b = refl
  op-into AlgebraTag.counted a b = refl
  op-into AlgebraTag.set a b = refl
  op-into AlgebraTag.range a b = refl
  op-into AlgebraTag.frac a b = refl

  compose_from-into :
      (t : AlgebraTag) (a : Value Q t) (vs : List (Value Q t))
      → compose_from rat (into_fragment t a) (map (into_fragment t) vs)
        ≡ ok (into_fragment t (foldl (algebra rat t).op a vs))
  unfolding compose_from
  compose_from-into t a [] = refl
  compose_from-into t a (v ∷ vs) =
      rw (op-into t a v, compose_from) (compose_from-into t ((algebra rat t).op a v) vs)

  compose_frags-into :
      (t : AlgebraTag) (vs : List (Value Q t))
      → compose_frags rat (map (into_fragment t) vs)
        ≡ ok (Option.map (into_fragment t) (compose (algebra rat t) vs))
  unfolding compose_frags compose
  compose_frags-into t [] = refl
  compose_frags-into t (v ∷ vs) = rw (compose_from-into t v vs)

  frag_auth_valid-into :
      (t : AlgebraTag) (c : Value Q t) (o : Option (Value Q t))
      → frag_auth_valid rat (into_fragment t c) (Option.map (into_fragment t) o)
        ≡ auth_valid (algebra rat t) c o
  unfolding frag_auth_valid
  frag_auth_valid-into AlgebraTag.exclusive c none = refl
  frag_auth_valid-into AlgebraTag.exclusive c (some o) = refl
  frag_auth_valid-into AlgebraTag.counted c none = refl
  frag_auth_valid-into AlgebraTag.counted c (some o) = refl
  frag_auth_valid-into AlgebraTag.set c none = refl
  frag_auth_valid-into AlgebraTag.set c (some o) = refl
  frag_auth_valid-into AlgebraTag.range c none = refl
  frag_auth_valid-into AlgebraTag.range c (some o) = refl
  frag_auth_valid-into AlgebraTag.frac c none = refl
  frag_auth_valid-into AlgebraTag.frac c (some o) = refl

  -- On fragments of one algebra the test is `auth_valid` of that algebra, on their values.
  pub fits-into :
      (t : AlgebraTag) (c : Value Q t) (vs : List (Value Q t))
      → fits rat (into_fragment t c) (map (into_fragment t) vs)
        ≡ ok (auth_valid (algebra rat t) c (compose (algebra rat t) vs))
  fits-into t c vs =
      rw (compose_frags-into t vs)
        (ap {B = Result Bool} ok (frag_auth_valid-into t c (compose (algebra rat t) vs)))

  -- A fragment of the algebra `t` that the machine can hold.
  abbrev pub FragOf : AlgebraTag → Frag Q → Type 0
  FragOf t f = (tag f ≡ t) × OkFrag rat f

  value_of :
      (t : AlgebraTag) (f : Frag Q)
      → FragOf t f
      → (v : Value Q t) × OkValue rat t v × (f ≡ into_fragment t v)
  value_of t f h =
      subst (λ t. (v : Value Q t) × OkValue rat t v × (f ≡ into_fragment t v)) h.0 (typed rat f h.1)

  -- The values of a list of fragments, and of the smaller list.
  Typed : AlgebraTag → List (Frag Q) → List (Frag Q) → Type 0
  Typed t fs gs =
      (vs : List (Value Q t)) × (ws : List (Value Q t)) × Sub vs ws
      × All (OkValue rat t) ws
      × (fs ≡ map (into_fragment t) vs)
      × (gs ≡ map (into_fragment t) ws)

  values_of :
      (t : AlgebraTag) {fs gs : List (Frag Q)} → Sub fs gs → All (FragOf t) gs → Typed t fs gs
  unfolding Typed
  values_of t Sub.none_left h = ([], [], Sub.none_left, tt, refl, refl)
  values_of t (Sub.keep {x = x} s) h =
      let (v, p, e) = value_of t x h.0 in
      let (vs, ws, u, q, f, g) = values_of t s h.1 in
      (v ∷ vs, v ∷ ws, Sub.keep u, (p, q), ap₂ ◌∷◌ e f, ap₂ ◌∷◌ e g)
  values_of t (Sub.skip {y = y} s) h =
      let (v, p, e) = value_of t y h.0 in
      let (vs, ws, u, q, f, g) = values_of t s h.1 in
      (vs, v ∷ ws, Sub.skip u, (p, q), f, ap₂ ◌∷◌ e g)

  ok_injective : (a b : Bool) → ◌≡◌ {A = Result Bool} (ok a) (ok b) → a ≡ b
  ok_injective a b h = ground arith

  -- A pool that fits still fits when some of its claims have left.
  pub fits-Sub :
      (cap : Frag Q) {fs gs : List (Frag Q)}
      → OkFrag rat cap
      → All (FragOf (tag cap)) gs
      → Sub fs gs
      → fits rat cap gs ≡ ok true
      → fits rat cap fs ≡ ok true
  unfolding Typed
  fits-Sub cap {fs} {gs} k h s e =
      let t = tag cap in
      let (c, p, ce) = typed rat cap k in
      let (vs, ws, u, q, f, g) = values_of t s h in
      let e' : fits rat (into_fragment t c) (map (into_fragment t) ws) ≡ ok true =
        sym (ap₂ (fits rat) ce g) ∙ e in
      let v : auth_valid (algebra rat t) c (compose (algebra rat t) ws) ≡ true =
        ok_injective _ _ (sym (fits-into t c ws) ∙ e') in
      ap₂ (fits rat) ce f
      ∙ fits-into t c vs
      ∙ ap {B = Result Bool} ok (auth_valid-Sub (algebra-IsRa rat t) c u p q v)
