-- ===== src/Ledger/Order.antt =====
-- The rows of a ledger stand in the order of their ids, each after its parent: so an id names one
-- row, and a handle that was given out is never given out again.
use portos.Base.{
  subst, sym, ℕ, suc, ◌≤◌, ◌<◌, ◌≡◌, ap, inl, inr, some, List, [], ◌∷◌, ◌++◌, arith, Bool-cases,
  ◌==◌, In,
}
use portos.Identity.{HoldingId}
use portos.Ra.Fractions.{Rationals}
use portos.Ledger.{Ledger, Holding, find_id, update, new}
use portos.Ledger.Updates.{Keeps}
use portos.Ledger.Changes.{Change, rows_kept, pool_set, row_added, row_changed, in_turn}

module _ {Q : Type 0} where
  abbrev pub IsOrderedFrom : ℕ → ℕ → List (Holding Q) → Type 0
  IsOrderedFrom lo next [] = lo ≤ next
  IsOrderedFrom lo next (h ∷ hs) =
      (lo ≤ h.id)
      × ((p : HoldingId) → h.parent ≡ some p → p < h.id)
      × IsOrderedFrom (suc h.id) next hs

  -- Ids rise along the rows and stay below `next_id`; a parent's id is below its child's.
  abbrev pub IsOrdered : Ledger Q → Type 0
  IsOrdered l = IsOrderedFrom 0 l.next_id l.holdings

  pub find_id-bounds :
      (lo next : ℕ) (id : HoldingId) (hs : List (Holding Q)) {h : Holding Q}
      → IsOrderedFrom lo next hs
      → find_id id hs ≡ some h
      → (lo ≤ id) × (id < next)
  unfolding find_id
  find_id-bounds lo next id [] o e = cc
  find_id-bounds lo next id (x ∷ hs) {h} o e =
      ground
        (arith, below_next (suc x.id) next hs o.2, find_id-bounds (suc x.id) next id hs {h = h} o.2)
    where
      below_next : (lo next : ℕ) (hs : List (Holding Q)) → IsOrderedFrom lo next hs → lo ≤ next
      below_next lo next [] o = o
      below_next lo next (x ∷ hs) o = omega (arith, below_next (suc x.id) next hs o.2)

  -- A row is found under its id.
  pub find_id-In :
      (lo next : ℕ) (h : Holding Q) (hs : List (Holding Q))
      → IsOrderedFrom lo next hs
      → In h hs
      → find_id h.id hs ≡ some h
  unfolding find_id
  find_id-In lo next h [] o m = elim m [ ]
  find_id-In lo next h (x ∷ hs) o (In.here e) = ground (arith, ap (λ (h : Holding Q). h.id) e)
  find_id-In lo next h (x ∷ hs) o (In.there m) =
      let later = find_id-In (suc x.id) next h hs o.2 m in
      let bounds = find_id-bounds (suc x.id) next h.id hs o.2 later in ground (arith, later, bounds)

  pub In-older :
      (lo next : ℕ) (h : Holding Q) (p : HoldingId) (hs : List (Holding Q))
      → IsOrderedFrom lo next hs
      → In h hs
      → h.parent ≡ some p
      → p < h.id
  In-older lo next h p [] o m e = elim m [ ]
  In-older lo next h p (x ∷ hs) o (In.here q) e =
      subst (λ (x : Holding Q). x.parent ≡ some p → p < x.id) (sym q) (o.1 p) e
  In-older lo next h p (x ∷ hs) o (In.there m) e = In-older (suc x.id) next h p hs o.2 m e

  append-IsOrderedFrom :
      (lo next : ℕ) (hs : List (Holding Q)) (h : Holding Q)
      → IsOrderedFrom lo next hs
      → h.id ≡ next
      → ((p : HoldingId) → h.parent ≡ some p → p < h.id)
      → IsOrderedFrom lo (suc next) (hs ++ h ∷ [])
  append-IsOrderedFrom lo next [] h o e f = (omega arith, f, omega arith)
  append-IsOrderedFrom lo next (x ∷ hs) h o e f =
      (o.0, o.1, append-IsOrderedFrom (suc x.id) next hs h o.2 e f)

  update-IsOrderedFrom :
      (lo next : ℕ) (id : HoldingId) (f : Holding Q → Holding Q) (hs : List (Holding Q))
      → Keeps f
      → IsOrderedFrom lo next hs
      → IsOrderedFrom lo next (update id f hs)
  unfolding update
  update-IsOrderedFrom lo next id f [] k o = o
  update-IsOrderedFrom lo next id f (x ∷ hs) k o = elim (Bool-cases (x.id == id)) [
    | inl e ↦ rw e (rw (k.id x, k.parent x) o)
    | inr e ↦ rw e (o.0, o.1, update-IsOrderedFrom (suc x.id) next id f hs k o.2)
  ]

module _ {Q : Type 0} (rat : Rationals Q) where
  pub Change-IsOrdered : {l l' : Ledger Q} → Change rat l l' → IsOrdered l → IsOrdered l'
  Change-IsOrdered (rows_kept r c n) o = rw (r, n) o
  Change-IsOrdered (pool_set key cap k m r c n) o = rw (r, n) o
  Change-IsOrdered (row_added {l = l} h m r c n) o =
      rw (r, n)
        (append-IsOrderedFrom 0 l.next_id l.holdings h o m.id (λ p e.
          let (x, q, _) = m.parent p e in
          omega (arith, m.id, find_id-bounds 0 l.next_id p l.holdings o q)))
  Change-IsOrdered (row_changed {l = l} id f k s m r c n) o =
      rw (r, n) (update-IsOrderedFrom 0 l.next_id id f l.holdings k o)
  Change-IsOrdered (in_turn a b) o = Change-IsOrdered b (Change-IsOrdered a o)

  pub new-IsOrdered : (i : ℕ) → IsOrdered {Q = Q} (new i)
  new-IsOrdered i = omega arith
