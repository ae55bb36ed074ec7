-- ===== src/Ra/Laws.antt =====
-- The laws as the checkers of ra.rs test them, and the lift by an empty unit.
use portos.Base.{
  ◌≡◌, refl, ◌↔◌, ap, true, Option, none, some, ◌||◌, test, →test, Bool-cases, inl, inr,
  Option-cases, arith, sym,
}
use portos.Ra.{
  Ra, IsRa, law_assoc, law_comm, law_valid_op_l, law_core_id, law_core_idem, law_core_mono,
  option_op, option_valid, option_pcore, option_included_in,
}

module _ {A : Type 0} {r : Ra A} {Ok : A → Type 0} (laws : IsRa r Ok) where
  pub law_assoc_holds : (a b c : A) → Ok a → Ok b → Ok c → law_assoc r a b c ≡ true
  unfolding law_assoc
  law_assoc_holds a b c p q s = →test (r.same _ _) (laws.assoc a b c p q s)

  pub law_comm_holds : (a b : A) → Ok a → Ok b → law_comm r a b ≡ true
  unfolding law_comm
  law_comm_holds a b p q = →test (r.same _ _) (laws.comm a b p q)

  pub law_valid_op_l_holds : (a b : A) → Ok a → Ok b → law_valid_op_l r a b ≡ true
  unfolding law_valid_op_l
  law_valid_op_l_holds a b p q = ground (arith, laws.valid_op_l a b p q)

  pub law_core_id_holds : (a : A) → Ok a → law_core_id r a ≡ true
  unfolding law_core_id
  law_core_id_holds a p = elim (Option-cases (r.pcore a)) [
    | inl e ↦ rw (e, law_core_id) refl
    | inr (c, e) ↦ rw (e, law_core_id) (→test (r.same _ _) (laws.core_id a c p e))
  ]

  pub law_core_idem_holds : (a : A) → Ok a → law_core_idem r a ≡ true
  unfolding law_core_idem
  law_core_idem_holds a p = elim (Option-cases (r.pcore a)) [
    | inl e ↦ rw (e, law_core_idem) refl
    | inr (c, e) ↦ rw (e, law_core_idem) (rw (laws.core_idem a c p e) (→test (r.same _ _) refl))
  ]

  pub law_core_mono_holds : (a b : A) → Ok a → Ok b → law_core_mono r a b ≡ true
  unfolding law_core_mono
  law_core_mono_holds a b p q = elim (Bool-cases (r.included_in a b)) [
    | inr e ↦ rw e refl
    | inl h ↦ elim (Option-cases (r.pcore a)) [
      | inl e ↦ rw (h, e) refl
      | inr (c, e) ↦ let (d, f, g) = laws.core_mono a b c p q h e in rw (h, e, f) g
    ]
  ]

  -- `included_in` is inclusion in the algebra.
  pub included_in_iff :
      (a b : A) → Ok a → Ok b → (r.included_in a b ≡ true) ↔ ((c : A) × Ok c × (b ≡ r.op a c))
  included_in_iff a b p q = (laws.incl a b p q, λ (c, s, e). rw e (laws.incl_op a c p s))

module _ {A : Type 0} (r : Ra A) where
  pub Option-discrete : Discrete (Option A)
  Option-discrete = hlevel r.same

  abbrev pub option_ra : Ra (Option A)
  option_ra = record {
    op = option_op r;
    valid = option_valid r;
    pcore = option_pcore r;
    included_in = option_included_in r;
    same = Option-discrete;
  }

-- The values of the lifted type.
abbrev pub OkOption : {A : Type 0} → (A → Type 0) → Option A → Type 0
OkOption Ok none = Unit
OkOption Ok (some a) = Ok a

module _ {A : Type 0} {r : Ra A} {Ok : A → Type 0} (laws : IsRa r Ok) where
  closed : (a b : Option A) → OkOption Ok a → OkOption Ok b → OkOption Ok (option_op r a b)
  closed none b p q = q
  closed (some a) none p q = p
  closed (some a) (some b) p q = laws.closed a b p q

  assoc :
      (a b c : Option A)
      → OkOption Ok a
      → OkOption Ok b
      → OkOption Ok c
      → option_op r (option_op r a b) c ≡ option_op r a (option_op r b c)
  assoc none b c p q s = refl
  assoc (some a) none c p q s = refl
  assoc (some a) (some b) none p q s = refl
  assoc (some a) (some b) (some c) p q s = ap {B = Option A} some (laws.assoc a b c p q s)

  comm : (a b : Option A) → OkOption Ok a → OkOption Ok b → option_op r a b ≡ option_op r b a
  comm none none p q = refl
  comm none (some b) p q = refl
  comm (some a) none p q = refl
  comm (some a) (some b) p q = ap {B = Option A} some (laws.comm a b p q)

  valid_op_l :
      (a b : Option A)
      → OkOption Ok a
      → OkOption Ok b
      → option_valid r (option_op r a b) ≡ true
      → option_valid r a ≡ true
  valid_op_l none b p q h = refl
  valid_op_l (some a) none p q h = h
  valid_op_l (some a) (some b) p q h = laws.valid_op_l a b p q h

  incl :
      (a b : Option A)
      → OkOption Ok a
      → OkOption Ok b
      → option_included_in r a b ≡ true
      → (c : Option A) × OkOption Ok c × (b ≡ option_op r a c)
  incl none b p q h = (b, q, refl)
  incl (some a) none p q h = cc
  incl (some a) (some b) p q h =
      elim (r.same a b)
          as (λ t.
            (test t || r.included_in a b) ≡ true
            → (c : Option A) × OkOption Ok c × (some b ≡ option_op r (some a) c)) [
              | yes e ↦ λ _. (none, tt, ap {B = Option A} some (sym e))
              | no _ ↦
                  λ i. let (c, s, e) = laws.incl a b p q i in (some c, s, ap {B = Option A} some e)
            ]
        h

  incl_op :
      (a c : Option A)
      → OkOption Ok a
      → OkOption Ok c
      → option_included_in r a (option_op r a c) ≡ true
  incl_op none c p q = refl
  incl_op (some a) none p q = rw (→test (r.same a a) refl) refl
  incl_op (some a) (some c) p q = rw (laws.incl_op a c p q) (ground arith)

  core_laws :
      (a c : Option A)
      → OkOption Ok a
      → option_pcore r a ≡ some c
      → (option_op r c a ≡ a) × (option_pcore r c ≡ some c)
  core_laws none c p h = let e : none ≡ c = ground arith in rw (← e) (refl, refl)
  core_laws (some a) none p h = (refl, refl)
  core_laws (some a) (some c) p h =
      let e : r.pcore a ≡ some c = ground arith in
      (
        ap {B = Option A} some (laws.core_id a c p e),
        ap {B = Option (Option A)} some (laws.core_idem a c p e),
      )

  core_mono :
      (a b c : Option A)
      → OkOption Ok a
      → OkOption Ok b
      → option_included_in r a b ≡ true
      → option_pcore r a ≡ some c
      → (d : Option A) × (option_pcore r b ≡ some d) × (option_included_in r c d ≡ true)
  core_mono none none c p q h e = (none, refl, ground arith)
  core_mono none (some b) c p q h e = (r.pcore b, refl, ground arith)
  core_mono (some a) none c p q h e = cc
  core_mono (some a) (some b) none p q h e = (r.pcore b, refl, refl)
  core_mono (some a) (some b) (some c) p q h e =
      let f : r.pcore a ≡ some c = ground arith in
      elim (r.same a b)
          as (λ t.
            (test t || r.included_in a b) ≡ true
            → (d : Option A) × (option_pcore r (some b) ≡ some d)
              × (option_included_in r (some c) d ≡ true)) [
                | yes g ↦ λ _. (some c, ground arith, rw (→test (r.same c c) refl) refl)
                | no _ ↦ λ i.
                    let (d, u, v) = laws.core_mono a b c p q i f in
                    (some d, ground arith, rw v (ground arith))
              ]
        h

  -- The lift of an algebra is an algebra.
  pub option-IsRa : IsRa (option_ra r) (OkOption Ok)
  option-IsRa = record {
    closed = closed;
    assoc = assoc;
    comm = comm;
    valid_op_l = valid_op_l;
    core_id = λ a c p h. (core_laws a c p h).0;
    core_idem = λ a c p h. (core_laws a c p h).1;
    core_mono = core_mono;
    incl = incl;
    incl_op = incl_op;
  }
