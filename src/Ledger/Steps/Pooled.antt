-- ===== src/Ledger/Steps/Pooled.antt =====
-- The operations on classes and pools as changes.
use portos.Base.{◌≡◌, refl, sym, ◌∙◌, subst, inl, inr, true, Option, none, some, [], arith, ◌==◌}
use portos.Base.Maps.{get}
use portos.Errors.{ok, LedgerError, >>=-eq-ok, require-ok}
use portos.Identity.{ResourceKey, ResourceKey-discrete, InstanceId}
use portos.Ra.Fractions.{Rationals}
use portos.Frag.{Frag, AlgebraTag, fits}
use portos.Frag.Typed.{OkValue, into_fragment, algebra}
use portos.Frag.Fits.{fits-into}
use portos.Auth.{auth_valid, compose}
use portos.Registry.{Capacity, ClassBinding, RegisteredClass, PoolRef, new_capacity}
use portos.Ledger.{Ledger, ClassDecl, live_frags}
use portos.Ledger.Pools.{
  register_class, create_pool, open_pool, resize_pool, registered_class, check_pool,
}
use portos.Ledger.Changes.{Change, rows_kept, pool_set}
use portos.Ledger.Steps.Rows.{check_pool-ok, tag-into, into-OkFrag}

module _ {Q : Type 0} (rat : Rationals Q) where
  pub register-Change :
      (l l' : Ledger Q) (decl : ClassDecl) (b : ClassBinding)
      → register_class l decl ≡ ok (l', b)
      → Change rat l l'
  unfolding register_class
  register-Change l l' decl b e = rows_kept (ground arith) (ground arith) (ground arith)

  -- A checked capacity holds an empty pool.
  empty_fits :
      (t : AlgebraTag) (c : Capacity Q t)
      → new_capacity rat t c.value ≡ ok c
      → fits rat (into_fragment t c.value) [] ≡ ok true
  unfolding new_capacity auth_valid compose
  empty_fits t c e =
      let (v, _) = require-ok ((algebra rat t).valid c.value) LedgerError.invalid_value _ e in
      fits-into rat t c.value [] ∙ rw v

  open_pool-Change :
      (t : AlgebraTag) (l l' : Ledger Q) (key : ResourceKey) (c : Capacity Q t) (p : PoolRef t)
      (old : Option (Frag Q))
      → OkValue rat t c.value
      → new_capacity rat t c.value ≡ ok c
      → get ResourceKey-discrete key l.capacities ≡ old
      → open_pool rat t l key c.value old ≡ ok (l', p)
      → Change rat l l'
  unfolding open_pool
  open_pool-Change t l l' key c p none k n g e =
      pool_set key (into_fragment t c.value) (into-OkFrag rat t c.value k)
        (inl (g, empty_fits t c n)) (ground arith) (ground arith) (ground arith)
  open_pool-Change t l l' key c p (some f) k n g e =
      rows_kept (ground arith) (ground arith) (ground arith)

  pub create-Change :
      {t : AlgebraTag} (l l' : Ledger Q) (r : RegisteredClass t) (i : InstanceId) (c : Capacity Q t)
      (p : PoolRef t)
      → OkValue rat t c.value
      → new_capacity rat t c.value ≡ ok c
      → create_pool rat l r i c ≡ ok (l', p)
      → Change rat l l'
  unfolding create_pool
  create-Change {t} l l' r i c p k n e =
      let (_, e1) = require-ok (r.binding.ledger == l.identity) LedgerError.foreign_reference _ e in
      let (cur, q, e2) = >>=-eq-ok (registered_class t l r.binding.id) _ e1 in
      open_pool-Change t l l' _ c p _ k n refl e2

  pub resize-Change :
      {t : AlgebraTag} (l l' : Ledger Q) (p : PoolRef t) (c : Capacity Q t)
      → OkValue rat t c.value
      → resize_pool rat l p c ≡ ok l'
      → Change rat l l'
  unfolding resize_pool
  resize-Change {t} l l' p c k e =
      let (old, o, e1) = >>=-eq-ok (check_pool l p) _ e in
      let cap = into_fragment {Q = Q} t c.value in
      let (fit, fe, e2) = >>=-eq-ok (fits rat cap (live_frags l p.id)) _ e1 in
      let (yes_fit, e3) = require-ok fit LedgerError.conflict _ e2 in
      let (g, same) = check_pool-ok l p o in
      pool_set p.id cap (into-OkFrag rat t c.value k)
        (inr (
          old,
          g,
          same ∙ sym (tag-into Q t c.value),
          subst (λ b. fits rat cap (live_frags l p.id) ≡ ok b) yes_fit fe,
        ))
        (ground (arith, e3)) (ground (arith, e3)) (ground (arith, e3))
