-- ===== src/Ledger/Steps/Rows.antt =====
-- The operations on holdings as changes.
use portos.Base.{
  ℕ, suc, ◌≡◌, refl, sym, ◌∙◌, subst, inl, inr, true, Option, none, some, [], ◌∷◌, ◌++◌, arith,
  Option-cases,
}
use mathlib.Core.Option
use portos.Base.Maps.{get}
use portos.Errors.{ok, LedgerError, >>=-eq-ok, require-ok}
use portos.Identity.{
  HoldingId, HoldingHandle, SubjectId, ResourceKey, ResourceKey-discrete, holding_id, next_of,
}
use portos.Time.{Timestamp, Lease, LeaseRequest, resolve as resolve_lease}
use portos.Cleanup.{HoldingState, CleanupTarget, occupies, is_active, released_at}
use portos.Ra.Fractions.{Rationals}
use portos.Frag.{Frag, AlgebraTag, tag, fits}
use portos.Frag.Typed.{OkFrag, OkValue, Value, into_fragment}
use portos.Registry.{PoolRef}
use portos.Ledger.{Ledger, Holding, GrantRequest, live_frags, resolve, class_of, ClassDecl}
use portos.Ledger.Holdings.{
  transfer, release, release_live, release_again, renew, check_parent, grant_with_cleanup, granted,
  check_request, add_row, id_of, is_some,
}
use portos.Ledger.Pools.{check_pool}
use portos.Ledger.Updates.{Occupied}
use portos.Ledger.Changes.{Change, rows_kept, row_added, row_changed, Keeps-state, resolve-ok}

module _ {Q : Type 0} (rat : Rationals Q) where
  pub transfer-Change :
      (l l' : Ledger Q) (h : HoldingHandle) (from to : SubjectId)
      → transfer l h from to ≡ ok l'
      → Change rat l l'
  unfolding transfer
  transfer-Change l l' h from to e =
      row_changed h.id (λ h. record h { subject = to })
        (record { id = λ h. refl; frag = λ h. refl; key = λ h. refl; parent = λ h. refl })
        (λ h p o. o) (inl (λ h p o. o)) (ground arith) (ground arith) (ground arith)

  pub renew-Change :
      (l l' : Ledger Q) (h : HoldingHandle) (q : LeaseRequest) (now : Timestamp) (lease : Lease)
      → renew l h q now ≡ ok (l', lease)
      → Change rat l l'
  unfolding renew
  renew-Change l l' h q now lease e =
      row_changed h.id (λ h. record h { lease = lease })
        (record { id = λ h. refl; frag = λ h. refl; key = λ h. refl; parent = λ h. refl })
        (λ h p o. o) (inl (λ h p o. o)) (ground arith) (ground arith) (ground arith)

  release_live-Change :
      (l l' : Ledger Q) (handle : HoldingHandle) (h : Holding Q) (now : Timestamp)
      → release_live l handle h now ≡ ok l'
      → Change rat l l'
  unfolding release_live
  release_live-Change l l' handle h now e =
      row_changed handle.id (λ h. record h { state = HoldingState.retired now })
        (Keeps-state (HoldingState.retired now)) (λ h p o. cc) (inr (ground arith)) (ground arith)
        (ground arith) (ground arith)

  release_again-same : (l l' : Ledger Q) (h : Holding Q) → release_again l h ≡ ok l' → l ≡ l'
  unfolding release_again
  release_again-same l l' h e = ground arith

  pub release-Change :
      (l l' : Ledger Q) (handle : HoldingHandle) (now : Timestamp)
      → release l handle now ≡ ok l'
      → Change rat l l'
  unfolding release
  release-Change l l' handle now e =
      let (h, p, q) = >>=-eq-ok (resolve l handle) _ e in
      elim (Option-cases (released_at h.state)) [
        | inl n ↦ release_live-Change l l' handle h now (rw n at q)
        | inr (t, s) ↦
            let same = release_again-same l l' h (rw s at q) in
            rows_kept (ground arith) (ground arith) (ground arith)
      ]

is_active-occupies : (s : HoldingState) → is_active s ≡ true → occupies s ≡ true
is_active-occupies s h = ground arith

holding_id-eq : (n : ℕ) {i : HoldingId} → holding_id n ≡ ok i → i ≡ n
unfolding holding_id
holding_id-eq n h = ground arith

next_of-eq : (n : ℕ) {i : ℕ} → next_of n ≡ ok i → i ≡ suc n
unfolding next_of
next_of-eq n h = ground arith

pub tag-into : (Q : Type 0) (t : AlgebraTag) (v : Value Q t) → tag (into_fragment {Q = Q} t v) ≡ t
tag-into Q AlgebraTag.exclusive v = refl
tag-into Q AlgebraTag.counted v = refl
tag-into Q AlgebraTag.set v = refl
tag-into Q AlgebraTag.range v = refl
tag-into Q AlgebraTag.frac v = refl

module _ {Q : Type 0} where
  -- A pool that passes the check is there, with the algebra of the reference.
  pub check_pool-ok :
      {t : AlgebraTag} (l : Ledger Q) (p : PoolRef t) {cap : Frag Q}
      → check_pool l p ≡ ok cap
      → (get ResourceKey-discrete p.id l.capacities ≡ some cap) × (tag cap ≡ t)
  unfolding check_pool
  check_pool-ok l p e = ground arith

  parent-Occupied :
      (l : Ledger Q) (owner : SubjectId) (parent : HoldingHandle)
      → check_parent l owner (some parent) ≡ ok tt
      → Occupied l.holdings parent.id
  unfolding check_parent
  parent-Occupied l owner parent e =
      let (ph, p, e1) = >>=-eq-ok (resolve l parent) _ e in
      let (a, e2) = require-ok _ _ _ e1 in
      (ph, resolve-ok l parent p, is_active-occupies ph.state a)

  granted_parent :
      (l : Ledger Q) (owner : SubjectId) (parent : Option HoldingHandle)
      → check_parent l owner parent ≡ ok tt
      → (p : HoldingId) → Option.map id_of parent ≡ some p
      → Occupied l.holdings p
  granted_parent l owner none e p q = cc
  granted_parent l owner (some h) e p q =
      let i : h.id ≡ p = ground arith in subst (Occupied l.holdings) i (parent-Occupied l owner h e)

module _ {Q : Type 0} (rat : Rationals Q) where
  pub into-OkFrag :
      (t : AlgebraTag) (v : Value Q t) → OkValue rat t v → OkFrag rat (into_fragment t v)
  into-OkFrag AlgebraTag.exclusive v h = h
  into-OkFrag AlgebraTag.counted v h = h
  into-OkFrag AlgebraTag.set v h = h
  into-OkFrag AlgebraTag.range v h = h
  into-OkFrag AlgebraTag.frac v h = h

  add_row-Change :
      {t : AlgebraTag} (l l' : Ledger Q) (key : ResourceKey) (cap : Frag Q) (q : GrantRequest Q t)
      (lease : Lease) (x : CleanupTarget) (handle : HoldingHandle)
      → OkValue rat t q.claim.value
      → get ResourceKey-discrete key l.capacities ≡ some cap
      → tag cap ≡ t
      → ((p : HoldingId) → Option.map id_of q.parent ≡ some p → Occupied l.holdings p)
      → add_row rat l key cap q lease x ≡ ok (l', handle)
      → Change rat l l'
  unfolding add_row
  add_row-Change {t} l l' key cap q lease x handle k pool same parents e =
      let want = into_fragment t q.claim.value in
      let (fit, fe, e1) = >>=-eq-ok (fits rat cap (live_frags l key ++ want ∷ [])) _ e in
      let (fits_now, e2) = require-ok fit LedgerError.conflict _ e1 in
      let (id, ie, e3) = >>=-eq-ok (holding_id l.next_id) _ e2 in
      let (n, ne, e4) = >>=-eq-ok (next_of l.next_id) _ e3 in
      row_added (granted id key q lease x)
        (record {
          cap = cap;
          pool = pool;
          same_tag = same ∙ sym (tag-into Q t q.claim.value);
          proper = into-OkFrag t q.claim.value k;
          fit = subst (λ b. fits rat cap (live_frags l key ++ want ∷ []) ≡ ok b) fits_now fe;
          id = holding_id-eq l.next_id ie;
          parent = parents;
        })
        (ground (arith, e4)) (ground (arith, e4)) (ground (arith, e4, next_of-eq l.next_id ne))

  check_request-parent :
      {t : AlgebraTag} (l : Ledger Q) (decl : ClassDecl) (q : GrantRequest Q t) (x : CleanupTarget)
      → check_request l decl q x ≡ ok tt
      → check_parent l q.owner q.parent ≡ ok tt
  unfolding check_request
  check_request-parent l decl q x e = ground arith

  pub grant-Change :
      {t : AlgebraTag} (l l' : Ledger Q) (p : PoolRef t) (q : GrantRequest Q t) (x : CleanupTarget)
      (handle : HoldingHandle)
      → OkValue rat t q.claim.value
      → grant_with_cleanup rat l p q x ≡ ok (l', handle)
      → Change rat l l'
  unfolding grant_with_cleanup
  grant-Change {t} l l' p q x handle k e =
      let (cap, c, e1) = >>=-eq-ok (check_pool l p) _ e in
      let (decl, d, e2) = >>=-eq-ok (class_of l p.id.cls) _ e1 in
      let (u, r, e3) = >>=-eq-ok (check_request l decl q x) _ e2 in
      let (lease, le, e4) =
        >>=-eq-ok (resolve_lease q.lease decl.lease_duration (is_some q.parent) q.now) _ e3 in
      let (pool, same) = check_pool-ok l p c in
      add_row-Change l l' p.id cap q lease x handle k pool same
        (granted_parent l q.owner q.parent (check_request-parent l decl q x r)) e4
