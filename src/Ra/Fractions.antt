-- ===== src/Ra/Fractions.antt =====
-- `Frac`, fractional holdings (crates/portos-rm/src/ra.rs). The exact rationals come from the
-- crate num-rational, which is a parameter: its operations and the laws of an ordered field that
-- the algebra relies on, for the positive numbers that it stores.
use portos.Base.{
  ℕ, ◌≡◌, refl, Bool, true, false, ◌&&◌, Option, none, some, arith, ltb, if◌then◌else◌,
}
use portos.Ra.{Ra, IsRa}

-- `BigRational`: `is_positive` is `numer() > 0`, `le_one` is `numer() <= denom()`.
pub record Rationals (Q : Type 0) : Type 0 where
  pub from_parts : ℕ → ℕ → Q
  pub add : Q → Q → Q
  pub is_positive : Q → Bool
  pub le_one : Q → Bool
  pub lt : Q → Q → Bool
  pub same : Discrete Q
  pub add_assoc : (a b c : Q) → add (add a b) c ≡ add a (add b c)
  pub add_comm : (a b : Q) → add a b ≡ add b a
  pub add-positive :
      (a b : Q) → is_positive a ≡ true → is_positive b ≡ true → is_positive (add a b) ≡ true
  pub le_one-add : (a b : Q) → is_positive b ≡ true → le_one (add a b) ≡ true → le_one a ≡ true
  pub lt-add : (a b : Q) → is_positive b ≡ true → lt a (add a b) ≡ true
  pub difference : (a b : Q) → lt a b ≡ true → (c : Q) × (is_positive c ≡ true) × (b ≡ add a c)

-- `none` is the invalid element.
pub data Frac (Q : Type 0) : Type 0 where
  frac : Option Q → Frac Q

abbrev pub invalid : {Q : Type 0} → Frac Q
invalid = Frac.frac none

module _ {Q : Type 0} (rat : Rationals Q) where
  open rat use {is_positive, le_one, lt, add}

  -- `Frac::from_ratio`: kept if it is above zero and at most one.
  abbrev pub from_ratio : Q → Frac Q
  from_ratio q = if is_positive q && le_one q then Frac.frac (some q) else Frac.frac none

  -- `Frac::new`, which panics at a zero denominator: `none`.
  unfoldable pub new : ℕ → ℕ → Option (Frac Q)
  new num den = if ltb 0 den then some (from_ratio (rat.from_parts num den)) else none

  abbrev pub op : Frac Q → Frac Q → Frac Q
  op (Frac.frac (some a)) (Frac.frac (some b)) = from_ratio (add a b)
  op (Frac.frac (some a)) (Frac.frac none) = Frac.frac none
  op (Frac.frac none) _ = Frac.frac none

  abbrev pub valid : Frac Q → Bool
  valid (Frac.frac (some _)) = true
  valid (Frac.frac none) = false

  abbrev pub pcore : Frac Q → Option (Frac Q)
  pcore (Frac.frac (some _)) = none
  pcore (Frac.frac none) = some (Frac.frac none)

  abbrev pub included_in : Frac Q → Frac Q → Bool
  included_in (Frac.frac _) (Frac.frac none) = true
  included_in (Frac.frac none) (Frac.frac (some _)) = false
  included_in (Frac.frac (some a)) (Frac.frac (some b)) = lt a b

  pub Frac-discrete : Discrete (Frac Q)
  Frac-discrete = hlevel rat.same

  abbrev pub frac_ra : Ra (Frac Q)
  frac_ra = record {
    op = op;
    valid = valid;
    pcore = pcore;
    included_in = included_in;
    same = Frac-discrete;
  }

  -- What the constructors let into the type: a positive fraction of at most one, or invalid.
  abbrev pub IsProper : Frac Q → Type 0
  IsProper (Frac.frac (some q)) = (is_positive q ≡ true) × (le_one q ≡ true)
  IsProper (Frac.frac none) = Unit

  pub from_ratio-IsProper : (q : Q) → IsProper (from_ratio q)
  from_ratio-IsProper q = ground arith

  op_assoc : (a b c : Frac Q) → IsProper a → IsProper b → IsProper c → op (op a b) c ≡ op a (op b c)
  op_assoc (Frac.frac none) b c p q r = refl
  op_assoc (Frac.frac (some a)) (Frac.frac none) c p q r = refl
  op_assoc (Frac.frac (some a)) (Frac.frac (some b)) (Frac.frac none) p q r = ground arith
  op_assoc (Frac.frac (some a)) (Frac.frac (some b)) (Frac.frac (some c)) p q r = ground (
    arith,
    rat.add_assoc a b c,
    rat.add-positive a b p.0 q.0,
    rat.add-positive b c q.0 r.0,
    rat.add-positive (add a b) c,
    rat.le_one-add (add a b) c r.0,
    rat.le_one-add (add b c) a p.0,
    rat.add_comm a (add b c),
  )

  op_comm : (a b : Frac Q) → op a b ≡ op b a
  op_comm (Frac.frac none) (Frac.frac none) = refl
  op_comm (Frac.frac none) (Frac.frac (some b)) = refl
  op_comm (Frac.frac (some a)) (Frac.frac none) = refl
  op_comm (Frac.frac (some a)) (Frac.frac (some b)) = ground (arith, rat.add_comm a b)

  op-IsProper : (a b : Frac Q) → IsProper (op a b)
  op-IsProper (Frac.frac none) b = tt
  op-IsProper (Frac.frac (some a)) (Frac.frac none) = tt
  op-IsProper (Frac.frac (some a)) (Frac.frac (some b)) = from_ratio-IsProper (add a b)

  incl-rest :
      (a b : Frac Q)
      → IsProper a
      → IsProper b
      → included_in a b ≡ true
      → (c : Frac Q) × IsProper c × (b ≡ op a c)
  incl-rest (Frac.frac none) (Frac.frac none) p q h = (Frac.frac none, tt, refl)
  incl-rest (Frac.frac (some a)) (Frac.frac none) p q h = (Frac.frac none, tt, refl)
  incl-rest (Frac.frac none) (Frac.frac (some b)) p q h = cc
  incl-rest (Frac.frac (some a)) (Frac.frac (some b)) p q h =
      let (c, pos, e) = rat.difference a b h in
      (
        Frac.frac (some c),
        (pos, rat.le_one-add c a p.0 (ground (arith, rat.add_comm a c))),
        ground arith,
      )

  included_in-op : (a c : Frac Q) → IsProper a → IsProper c → included_in a (op a c) ≡ true
  included_in-op (Frac.frac none) c p q = refl
  included_in-op (Frac.frac (some a)) (Frac.frac none) p q = refl
  included_in-op (Frac.frac (some a)) (Frac.frac (some c)) p q = ground (arith, rat.lt-add a c q.0)

  core_mono :
      (a b c : Frac Q)
      → included_in a b ≡ true
      → pcore a ≡ some c
      → (d : Frac Q) × (pcore b ≡ some d) × (included_in c d ≡ true)
  core_mono (Frac.frac none) (Frac.frac none) c h e = (Frac.frac none, refl, ground arith)
  core_mono (Frac.frac none) (Frac.frac (some b)) c h e = cc
  core_mono (Frac.frac (some a)) b c h e = cc

  core_laws : (a c : Frac Q) → pcore a ≡ some c → (op c a ≡ a) × (pcore c ≡ some c)
  core_laws (Frac.frac none) c h =
      let e : Frac.frac none ≡ c = ground arith in rw (← e) (refl, refl)
  core_laws (Frac.frac (some a)) c h = cc

  valid_left : (a b : Frac Q) → valid (op a b) ≡ true → valid a ≡ true
  valid_left (Frac.frac none) b h = h
  valid_left (Frac.frac (some a)) b h = refl

  pub frac-IsRa : IsRa frac_ra IsProper
  frac-IsRa = record {
    closed = λ a b _ _. op-IsProper a b;
    assoc = op_assoc;
    comm = λ a b _ _. op_comm a b;
    valid_op_l = λ a b _ _. valid_left a b;
    core_id = λ a c _ h. (core_laws a c h).0;
    core_idem = λ a c _ h. (core_laws a c h).1;
    core_mono = λ a b c _ _. core_mono a b c;
    incl = incl-rest;
    incl_op = included_in-op;
  }
