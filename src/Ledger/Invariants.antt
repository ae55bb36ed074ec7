-- ===== src/Ledger/Invariants.antt =====
-- What holds of every ledger that calls of the operations reach, whatever their order.
use portos.Base.{
  ◌<◌, ℕ, ◌≡◌, refl, ap, subst, sym, Option, none, some, List, ◌∷◌, [], All, true, In,
}
use portos.Errors.{ok}
use portos.Identity.{HoldingId, ResourceKey, ResourceKey-discrete}
use portos.Base.Maps.{get}
use portos.Cleanup.{occupies}
use portos.Ra.Fractions.{Rationals}
use portos.Frag.{Frag, fits}
use portos.Ledger.{Ledger, Holding, live_frags, holding}
use portos.Ledger.Updates.{Occupied}
use portos.Ledger.Changes.{Change, rows_kept}
use portos.Ledger.Order.{
  IsOrdered, Change-IsOrdered, new-IsOrdered, find_id-In, find_id-bounds, In-older,
}
use portos.Ledger.Capacity.{IsWithinCapacity}
use portos.Ledger.Kept.{Change-IsWithinCapacity, new-IsWithinCapacity}
use portos.Ledger.Roots.{IsRooted, HasRoot, Change-IsRooted}
use portos.Ledger.Steps.{
  Step, registers, instantiates, creates, resizes, grants, transfers, releases, renews, requests,
  claims, finishes, abandons, Reach, start, next,
}
use portos.Ledger.Steps.Rows.{transfer-Change, renew-Change, release-Change, grant-Change}
use portos.Ledger.Steps.Tasks.{claim-Change, abandon-Change, finish-Change}
use portos.Ledger.Steps.Bound.{request-Change}
use portos.Ledger.Steps.Pooled.{register-Change, create-Change, resize-Change}
use portos.Ledger.Pools.{declare_instantiation}

module _ {Q : Type 0} (rat : Rationals Q) where
  pub Step-Change : {l l' : Ledger Q} → IsOrdered l → Step rat l l' → Change rat l l'
  unfolding declare_instantiation
  Step-Change {l} {l'} o (registers decl b e) = register-Change rat l l' decl b e
  Step-Change {l} {l'} o (instantiates c p e) =
      rows_kept (ap (λ (l : Ledger Q). l.holdings) e) (ap (λ (l : Ledger Q). l.capacities) e)
        (ap (λ (l : Ledger Q). l.next_id) e)
  Step-Change {l} {l'} o (creates r i cap p (k, n) e) = create-Change rat l l' r i cap p k n e
  Step-Change {l} {l'} o (resizes p cap (k, n) e) = resize-Change rat l l' p cap k e
  Step-Change {l} {l'} o (grants p q x h (k, n) e) = grant-Change rat l l' p q x h k e
  Step-Change {l} {l'} o (transfers h from to e) = transfer-Change rat l l' h from to e
  Step-Change {l} {l'} o (releases h now e) = release-Change rat l l' h now e
  Step-Change {l} {l'} o (renews h q now lease e) = renew-Change rat l l' h q now lease e
  Step-Change {l} {l'} o (requests h key now s e) = request-Change rat l l' h key now s o e
  Step-Change {l} {l'} o (claims id w now work e) = claim-Change rat l l' id w now work e
  Step-Change {l} {l'} o (finishes work x now e) = finish-Change rat l l' work x now e
  Step-Change {l} {l'} o (abandons seen now e) = abandon-Change rat l l' seen now e

  pub Reach-IsOrdered : {i : ℕ} {l : Ledger Q} → Reach rat i l → IsOrdered l
  Reach-IsOrdered {i} start = new-IsOrdered rat i
  Reach-IsOrdered (next r s) = let o = Reach-IsOrdered r in Change-IsOrdered rat (Step-Change o s) o

  pub Reach-IsWithinCapacity : {i : ℕ} {l : Ledger Q} → Reach rat i l → IsWithinCapacity rat l
  Reach-IsWithinCapacity {i} start = new-IsWithinCapacity rat i
  Reach-IsWithinCapacity (next r s) =
      Change-IsWithinCapacity rat (Step-Change (Reach-IsOrdered r) s) (Reach-IsWithinCapacity r)

  pub Reach-IsRooted : {i : ℕ} {l : Ledger Q} → Reach rat i l → IsRooted l
  Reach-IsRooted start = tt
  Reach-IsRooted (next r s) =
      Change-IsRooted rat (Step-Change (Reach-IsOrdered r) s) (Reach-IsRooted r)

  -- In a ledger that calls reach, every pool is solvent: the fragments of the holdings that occupy it
  -- compose to a valid element that is included in the pool's capacity.
  pub pool_is_solvent :
      {i : ℕ} {l : Ledger Q} (key : ResourceKey) (cap : Frag Q)
      → Reach rat i l
      → get ResourceKey-discrete key l.capacities ≡ some cap
      → fits rat cap (live_frags l key) ≡ ok true
  pool_is_solvent key cap r g = (Reach-IsWithinCapacity r).fit key cap g

  -- In a ledger that calls reach, the parent of a holding that occupies a pool occupies a pool too:
  -- no holding is released or torn down before its children.
  pub parent_outlives :
      {i : ℕ} {l : Ledger Q} (h : Holding Q) (p : HoldingId)
      → Reach rat i l
      → In h l.holdings
      → occupies h.state ≡ true
      → h.parent ≡ some p
      → Occupied l.holdings p
  parent_outlives {i} {l} h p r m o e = at_row l.holdings (Reach-IsRooted r) m
    where
      at_row :
          (hs : List (Holding Q)) → All (HasRoot l.holdings) hs → In h hs → Occupied l.holdings p
      at_row [] a m = elim m [ ]
      at_row (x ∷ xs) a (In.here q) = subst (HasRoot l.holdings) (sym q) a.0 o p e
      at_row (x ∷ xs) a (In.there m) = at_row xs a.1 m

  -- In a ledger that calls reach, every holding is the one its id finds: no two holdings share an id.
  pub id_is_unique :
      {i : ℕ} {l : Ledger Q} (h : Holding Q)
      → Reach rat i l
      → In h l.holdings
      → holding l h.id ≡ some h
  id_is_unique {i} {l} h r m = find_id-In 0 l.next_id h l.holdings (Reach-IsOrdered r) m

  -- The id is above that of the parent, where there is one.
  abbrev pub IsAbove : Option HoldingId → HoldingId → Type 0
  IsAbove none id = Unit
  IsAbove (some p) id = p < id

  parent-IsAbove :
      {i : ℕ} {l : Ledger Q} (h : Holding Q) (parent : Option HoldingId)
      → Reach rat i l
      → In h l.holdings
      → h.parent ≡ parent
      → IsAbove parent h.id
  parent-IsAbove h none r m e = tt
  parent-IsAbove {l = l} h (some p) r m e =
      In-older 0 l.next_id h p l.holdings (Reach-IsOrdered r) m e

  -- In a ledger that calls reach, the id of every holding is below the next id, and above the id of its
  -- parent, where it has one.
  pub parent_is_older :
      {i : ℕ} {l : Ledger Q} (h : Holding Q)
      → Reach rat i l
      → In h l.holdings
      → (h.id < l.next_id) × IsAbove h.parent h.id
  parent_is_older {i} {l} h r m = (
    (find_id-bounds 0 l.next_id h.id l.holdings (Reach-IsOrdered r) (id_is_unique h r m)).1,
    parent-IsAbove h h.parent r m refl,
  )
