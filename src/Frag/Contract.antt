-- ===== src/Frag/Contract.antt =====
-- The contract of the five algebras together, as crates/portos-rm/src/ra.rs states and tests it.
use portos.Base.{◌≡◌, ◌↔◌, true, Option, List, All}
use portos.Ra.{law_assoc, law_comm, law_valid_op_l, law_core_id, law_core_idem, law_core_mono}
use portos.Ra.Laws.{
  law_assoc_holds, law_comm_holds, law_valid_op_l_holds, law_core_id_holds, law_core_idem_holds,
  law_core_mono_holds, included_in_iff, option_ra, option-IsRa, OkOption,
}
use portos.Ra.Fractions.{Rationals}
use portos.Auth.{Sub, compose, auth_valid, auth_valid-Sub}
use portos.Frag.{AlgebraTag}
use portos.Frag.Typed.{Value, OkValue, algebra, algebra-IsRa}

module _ {Q : Type 0} (rat : Rationals Q) where
  -- Each of the five algebras passes every law check, on all values that its machine type can hold:
  -- associativity, commutativity, validity of a part, and the three laws of the core.
  pub laws_hold :
      (t : AlgebraTag) (a b c : Value Q t)
      → OkValue rat t a
      → OkValue rat t b
      → OkValue rat t c
      → (law_assoc (algebra rat t) a b c ≡ true)
        × (law_comm (algebra rat t) a b ≡ true)
        × (law_valid_op_l (algebra rat t) a b ≡ true)
        × (law_core_id (algebra rat t) a ≡ true)
        × (law_core_idem (algebra rat t) a ≡ true)
        × (law_core_mono (algebra rat t) a b ≡ true)
  laws_hold t a b c p q r =
      let laws = algebra-IsRa rat t in
      (
        law_assoc_holds laws a b c p q r,
        law_comm_holds laws a b p q,
        law_valid_op_l_holds laws a b p q,
        law_core_id_holds laws a p,
        law_core_idem_holds laws a p,
        law_core_mono_holds laws a b p q,
      )

  -- The lift of each algebra by an empty unit passes every law check too.
  pub laws_hold_lifted :
      (t : AlgebraTag) (a b c : Option (Value Q t))
      → OkOption (OkValue rat t) a
      → OkOption (OkValue rat t) b
      → OkOption (OkValue rat t) c
      → (law_assoc (option_ra (algebra rat t)) a b c ≡ true)
        × (law_comm (option_ra (algebra rat t)) a b ≡ true)
        × (law_valid_op_l (option_ra (algebra rat t)) a b ≡ true)
        × (law_core_id (option_ra (algebra rat t)) a ≡ true)
        × (law_core_idem (option_ra (algebra rat t)) a ≡ true)
        × (law_core_mono (option_ra (algebra rat t)) a b ≡ true)
  laws_hold_lifted t a b c p q r =
      let laws = option-IsRa (algebra-IsRa rat t) in
      (
        law_assoc_holds laws a b c p q r,
        law_comm_holds laws a b p q,
        law_valid_op_l_holds laws a b p q,
        law_core_id_holds laws a p,
        law_core_idem_holds laws a p,
        law_core_mono_holds laws a b p q,
      )

  -- The test of inclusion decides inclusion: a value is included in another exactly when some value of
  -- the machine type, composed with it, gives the other.
  pub included_in-decides :
      (t : AlgebraTag) (a b : Value Q t)
      → OkValue rat t a
      → OkValue rat t b
      → ((algebra rat t).included_in a b ≡ true)
        ↔ ((c : Value Q t) × OkValue rat t c × (b ≡ (algebra rat t).op a c))
  included_in-decides t a b p q = included_in_iff (algebra-IsRa rat t) a b p q

  -- What fits a capacity still fits it when claims leave: for every sublist of the claims, the
  -- authority over the capacity stays valid.
  pub claims_may_leave :
      (t : AlgebraTag) (cap : Value Q t) (xs ys : List (Value Q t))
      → Sub xs ys
      → OkValue rat t cap
      → All (OkValue rat t) ys
      → auth_valid (algebra rat t) cap (compose (algebra rat t) ys) ≡ true
      → auth_valid (algebra rat t) cap (compose (algebra rat t) xs) ≡ true
  claims_may_leave t cap xs ys s k h e = auth_valid-Sub (algebra-IsRa rat t) cap s k h e
