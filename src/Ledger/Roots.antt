-- ===== src/Ledger/Roots.antt =====
-- The parents of what occupies a pool: none retires before its children.
use portos.Base.{
  ◌≡◌, ◌≢◌, sym, ◌∙◌, subst, ◌⊎◌, inl, inr, true, false, ◌&&◌, some, List, [], ◌∷◌, ◌++◌, All,
  All-append, arith, Bool-cases, if◌then◌else◌, any, filter, ℕ_discrete,
}
use portos.Identity.{HoldingId}
use portos.Cleanup.{occupies}
use portos.Ra.Fractions.{Rationals}
use portos.Ledger.{Ledger, Holding, find_id, update, has_child, is_child}
use portos.Ledger.Updates.{
  Keeps, Occupied, All-update, find_id-update_ne, find_id-update_self, find_id-append,
}
use portos.Ledger.Changes.{Change, rows_kept, pool_set, row_added, row_changed, in_turn, MayChange}

module _ {Q : Type 0} where
  -- The parent of a row that occupies occupies too.
  abbrev pub HasRoot : List (Holding Q) → Holding Q → Type 0
  HasRoot hs h = occupies h.state ≡ true → (p : HoldingId) → h.parent ≡ some p → Occupied hs p

  abbrev pub IsRooted : Ledger Q → Type 0
  IsRooted l = All (HasRoot l.holdings) l.holdings

  HasRoot-mono :
      (hs gs : List (Holding Q))
      → ((p : HoldingId) → Occupied hs p → Occupied gs p)
      → (xs : List (Holding Q)) → All (HasRoot hs) xs
      → All (HasRoot gs) xs
  HasRoot-mono hs gs f [] a = tt
  HasRoot-mono hs gs f (x ∷ xs) a = (λ o p e. f p (a.0 o p e), HasRoot-mono hs gs f xs a.1)

  added_roots :
      (hs : List (Holding Q)) (h : Holding Q)
      → ((p : HoldingId) → h.parent ≡ some p → Occupied hs p)
      → All (HasRoot hs) hs
      → All (HasRoot (hs ++ h ∷ [])) (hs ++ h ∷ [])
  added_roots hs h f a =
      let grow : (p : HoldingId) → Occupied hs p → Occupied (hs ++ h ∷ []) p =
        λ p (x, e, o). (x, find_id-append p hs (h ∷ []) e, o) in
      All-append (HasRoot (hs ++ h ∷ [])) hs (h ∷ []) (HasRoot-mono hs (hs ++ h ∷ []) grow hs a)
        (λ o p e. grow p (f p e), tt)

  -- A change of another row, or one that keeps the row occupied, keeps a root.
  changed_root :
      (hs : List (Holding Q)) (id p : HoldingId) (f : Holding Q → Holding Q)
      → Keeps f
      → ((p ≢ id)
          ⊎ ((h : Holding Q)
              → find_id id hs ≡ some h
              → occupies h.state ≡ true
              → occupies (f h).state ≡ true))
      → Dec (p ≡ id)
      → Occupied hs p
      → Occupied (update id f hs) p
  changed_root hs id p f k w (no n) (x, e, o) = (x, find_id-update_ne p id f hs k n ∙ e, o)
  changed_root hs id p f k (inl n) (yes q) (x, e, o) = (x, find_id-update_ne p id f hs k n ∙ e, o)
  changed_root hs id p f k (inr g) (yes q) (x, e, o) =
      let e2 = subst (λ j. find_id j hs ≡ some x) q e in
      (
        f x,
        subst (λ j. find_id j (update id f hs) ≡ some (f x)) (sym q)
            (find_id-update_self id f hs k e2),
        g x e2 o,
      )

  -- No row that occupies has a parent without children.
  abbrev Avoids : HoldingId → Holding Q → Type 0
  Avoids id h = occupies h.state ≡ true → (p : HoldingId) → h.parent ≡ some p → p ≢ id

  avoided :
      (id : HoldingId) (h : Holding Q)
      → (occupies h.state && is_child h.parent id) ≡ false
      → Avoids id h
  avoided id h c o p e q = ground (arith, o, e, q)

  childless :
      (id : HoldingId) (hs : List (Holding Q))
      → any (λ h. is_child h.parent id) (filter (λ h. occupies h.state) hs) ≡ false
      → All (Avoids id) hs
  childless id [] c = tt
  childless id (h ∷ hs) c = elim (Bool-cases (occupies h.state)) [
    | inr e ↦ (
      λ o. cc (e, o),
      childless id hs (
          subst
            (λ b.
              any (λ h. is_child h.parent id)
                (if b
                  then h ∷ filter (λ h. occupies h.state) hs
                  else filter (λ h. occupies h.state) hs)
              ≡ false)
            e c),
    )
    | inl e ↦
        let d =
          subst
            (λ b.
              any (λ h. is_child h.parent id)
                (if b
                  then h ∷ filter (λ h. occupies h.state) hs
                  else filter (λ h. occupies h.state) hs)
              ≡ false)
            e c in
        (avoided id h (ground arith), childless id hs (ground arith))
  ]

  changed_roots :
      (hs : List (Holding Q)) (id : HoldingId) (f : Holding Q → Holding Q)
      → Keeps f
      → (xs : List (Holding Q))
      → ((h : Holding Q)
          → find_id id hs ≡ some h
          → occupies h.state ≡ true
          → occupies (f h).state ≡ true)
        ⊎ All (Avoids id) xs
      → All (HasRoot hs) xs
      → All (HasRoot (update id f hs)) xs
  changed_roots hs id f k [] w a = tt
  changed_roots hs id f k (x ∷ xs) (inl g) a = (
    λ o p e. changed_root hs id p f k (inr g) (ℕ_discrete p id) (a.0 o p e),
    changed_roots hs id f k xs (inl g) a.1,
  )
  changed_roots hs id f k (x ∷ xs) (inr g) a = (
    λ o p e. changed_root hs id p f k (inl (g.0 o p e)) (ℕ_discrete p id) (a.0 o p e),
    changed_roots hs id f k xs (inr g.1) a.1,
  )

module _ {Q : Type 0} (rat : Rationals Q) where
  may_change :
      (l : Ledger Q) (id : HoldingId) (f : Holding Q → Holding Q)
      → MayChange rat l id f
      → ((h : Holding Q)
          → find_id id l.holdings ≡ some h
          → occupies h.state ≡ true
          → occupies (f h).state ≡ true)
        ⊎ All (Avoids id) l.holdings
  unfolding has_child
  may_change l id f (inl g) = inl g
  may_change l id f (inr c) = inr (childless id l.holdings c)

  pub Change-IsRooted : {l l' : Ledger Q} → Change rat l l' → IsRooted l → IsRooted l'
  Change-IsRooted (rows_kept r c n) v = subst (λ hs. All (HasRoot hs) hs) (sym r) v
  Change-IsRooted (pool_set key cap k m r c n) v = subst (λ hs. All (HasRoot hs) hs) (sym r) v
  Change-IsRooted (row_added {l = l} h m r c n) v =
      subst (λ hs. All (HasRoot hs) hs) (sym r) (added_roots l.holdings h m.parent v)
  Change-IsRooted (row_changed {l = l} id f k s m r c n) v =
      subst (λ hs. All (HasRoot hs) hs) (sym r)
        (All-update (HasRoot (update id f l.holdings)) id f l.holdings
          (λ h e u o p q. u (s h e o) p (sym (k.parent h) ∙ q))
          (changed_roots l.holdings id f k l.holdings (may_change l id f m) v))
  Change-IsRooted (in_turn a b) v = Change-IsRooted b (Change-IsRooted a v)
