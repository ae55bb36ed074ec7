-- ===== src/Ra.antt =====
-- The resource algebra contract, its lift by an empty unit and the law checkers
-- (crates/portos-rm/src/ra.rs). The trait `Ra` is a record of operations; `IsRa` states the laws
-- that the source lists, for the elements that the machine types can hold.
pub mod Exclusive
pub mod Counted
pub mod Names
pub mod Fractions
pub mod Ranges
pub mod Laws
use portos.Base.{
  ◌≡◌, Bool, true, false, not, ◌&&◌, ◌||◌, Option, none, some, List, [], ◌∷◌, all, test,
}

-- `included_in` compares elements by `==` where the lift needs it: `same` is `PartialEq`.
pub record Ra (A : Type 0) : Type 0 where
  pub op : A → A → A
  pub valid : A → Bool
  pub pcore : A → Option A
  pub included_in : A → A → Bool
  pub same : Discrete A

-- `impl<A: Ra> Ra for Option<A>`: `none` is the empty, valid unit.
module _ {A : Type 0} (r : Ra A) where
  open r use {op, valid, pcore, included_in, same}

  abbrev pub option_op : Option A → Option A → Option A
  option_op none b = b
  option_op (some a) none = some a
  option_op (some a) (some b) = some (op a b)

  abbrev pub option_valid : Option A → Bool
  option_valid none = true
  option_valid (some a) = valid a

  -- The outer `some` says that the lifted core is defined, also when it is empty.
  abbrev pub option_pcore : Option A → Option (Option A)
  option_pcore none = some none
  option_pcore (some a) = some (pcore a)

  abbrev pub option_included_in : Option A → Option A → Bool
  option_included_in none b = true
  option_included_in (some a) none = false
  option_included_in (some a) (some b) = test (same a b) || included_in a b

-- The law checkers, over one sample each.
module _ {A : Type 0} (r : Ra A) where
  open r use {op, valid, pcore, included_in, same}

  unfoldable pub law_assoc : A → A → A → Bool
  law_assoc a b c = test (same (op (op a b) c) (op a (op b c)))

  unfoldable pub law_comm : A → A → Bool
  law_comm a b = test (same (op a b) (op b a))

  unfoldable pub law_valid_op_l : A → A → Bool
  law_valid_op_l a b = not (valid (op a b)) || valid a

  unfoldable pub law_core_id : A → Bool
  law_core_id a = elim (pcore a) [ none ↦ true | some ca ↦ test (same (op ca a) a) ]

  core_is : A → Option A → Bool
  core_is ca none = false
  core_is ca (some cca) = test (same cca ca)

  unfoldable pub law_core_idem : A → Bool
  unfolding core_is
  law_core_idem a = elim (pcore a) [ none ↦ true | some ca ↦ core_is ca (pcore ca) ]

  cores_included : Option A → Option A → Bool
  cores_included none cb = true
  cores_included (some ca) none = false
  cores_included (some ca) (some cb) = included_in ca cb

  unfoldable pub law_core_mono : A → A → Bool
  unfolding cores_included
  law_core_mono a b = not (included_in a b) || cores_included (pcore a) (pcore b)

  -- The sampled frame-preserving update; the empty frame is always tried.
  unfoldable pub fpu_holds : A → A → List A → Bool
  fpu_holds a b frames =
      (not (valid a) || valid b) && all (λ f. not (valid (op a f)) || valid (op b f)) frames

-- The laws of the header comment of ra.rs. `Ok` says which values the representation can hold.
pub record IsRa {A : Type 0} (r : Ra A) (Ok : A → Type 0) : Type 0 where
  pub closed : (a b : A) → Ok a → Ok b → Ok (r.op a b)
  pub assoc : (a b c : A) → Ok a → Ok b → Ok c → r.op (r.op a b) c ≡ r.op a (r.op b c)
  pub comm : (a b : A) → Ok a → Ok b → r.op a b ≡ r.op b a
  pub valid_op_l : (a b : A) → Ok a → Ok b → r.valid (r.op a b) ≡ true → r.valid a ≡ true
  pub core_id : (a c : A) → Ok a → r.pcore a ≡ some c → r.op c a ≡ a
  pub core_idem : (a c : A) → Ok a → r.pcore a ≡ some c → r.pcore c ≡ some c
  pub core_mono :
      (a b c : A)
      → Ok a
      → Ok b
      → r.included_in a b ≡ true
      → r.pcore a ≡ some c
      → (d : A) × (r.pcore b ≡ some d) × (r.included_in c d ≡ true)
  pub incl : (a b : A) → Ok a → Ok b → r.included_in a b ≡ true → (c : A) × Ok c × (b ≡ r.op a c)
  pub incl_op : (a c : A) → Ok a → Ok c → r.included_in a (r.op a c) ≡ true
