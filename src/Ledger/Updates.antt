-- ===== src/Ledger/Updates.antt =====
-- Changes to the list of holdings: one row changes, or one is added.
use portos.Base.{
  ◌≡◌, ◌≢◌, refl, ◌∙◌, inl, inr, Bool, true, false, ◌&&◌, some, List, [], ◌∷◌, ◌++◌, All, test,
  ◌==◌, Bool-cases, arith,
}
use portos.Identity.{HoldingId, ResourceKey, ResourceKey-discrete}
use portos.Cleanup.{occupies}
use portos.Auth.{Sub, Sub-refl}
use portos.Ledger.{Holding, find_id, live_in, update, key_of}

module _ {Q : Type 0} where
  -- A change that leaves a row in its pool, with its fragment.
  pub record Keeps (f : Holding Q → Holding Q) : Type 0 where
    pub id : (h : Holding Q) → (f h).id ≡ h.id
    pub frag : (h : Holding Q) → (f h).frag ≡ h.frag
    pub key : (h : Holding Q) → key_of (f h) ≡ key_of h
    pub parent : (h : Holding Q) → (f h).parent ≡ h.parent

  -- The row with the id occupies its pool.
  abbrev pub Occupied : List (Holding Q) → HoldingId → Type 0
  Occupied hs id = (h : Holding Q) × (find_id id hs ≡ some h) × (occupies h.state ≡ true)

  -- The change makes no retired row occupy again, in the row that it finds.
  abbrev pub Releases : HoldingId → (Holding Q → Holding Q) → List (Holding Q) → Type 0
  Releases id f hs =
      (h : Holding Q)
      → find_id id hs ≡ some h
      → occupies (f h).state ≡ true
      → occupies h.state ≡ true

  find_id-head :
      (id : HoldingId) (h : Holding Q) (hs : List (Holding Q))
      → (h.id == id) ≡ true
      → find_id id (h ∷ hs) ≡ some h
  unfolding find_id
  find_id-head id h hs e = rw e

  find_id-tail :
      (id : HoldingId) (h : Holding Q) (hs : List (Holding Q))
      → (h.id == id) ≡ false
      → find_id id (h ∷ hs) ≡ find_id id hs
  unfolding find_id
  find_id-tail id h hs e = rw e

  Releases-tail :
      (id : HoldingId) (f : Holding Q → Holding Q) (h : Holding Q) (hs : List (Holding Q))
      → (h.id == id) ≡ false
      → Releases id f (h ∷ hs)
      → Releases id f hs
  Releases-tail id f h hs e r x p q = r x (find_id-tail id h hs e ∙ p) q

  -- A property of rows that the change keeps holds of all rows after it.
  pub All-update {κ} :
      (P : Holding Q → Type κ) (id : HoldingId) (f : Holding Q → Holding Q) (hs : List (Holding Q))
      → ((h : Holding Q) → find_id id hs ≡ some h → P h → P (f h))
      → All P hs
      → All P (update id f hs)
  unfolding update
  All-update P id f [] k a = tt
  All-update P id f (h ∷ hs) k a = elim (Bool-cases (h.id == id)) [
    | inl e ↦ rw e (k h (find_id-head id h hs e) a.0, a.1)
    | inr e ↦ rw e (a.0, All-update P id f hs (λ x p. k x (find_id-tail id h hs e ∙ p)) a.1)
  ]

  abbrev live_row : ResourceKey → Holding Q → Bool
  live_row key h = occupies h.state && test (ResourceKey-discrete (key_of h) key)

  live_row-change :
      (key : ResourceKey) (f : Holding Q → Holding Q) (h : Holding Q)
      → Keeps f
      → (occupies (f h).state ≡ true → occupies h.state ≡ true)
      → live_row key (f h) ≡ true
      → live_row key h ≡ true
  live_row-change key f h k o l = ground (arith, k.key h, o)

  live_change :
      (key : ResourceKey) (f : Holding Q → Holding Q) (h : Holding Q) (hs : List (Holding Q))
      → Keeps f
      → (occupies (f h).state ≡ true → occupies h.state ≡ true)
      → Sub (live_in key (f h ∷ hs)) (live_in key (h ∷ hs))
  unfolding live_in
  live_change key f h hs k o = elim (Bool-cases (live_row key (f h))) [
    | inl e ↦ rw (e, live_row-change key f h k o e, k.frag h) (Sub.keep (Sub-refl _))
    | inr e ↦ elim (Bool-cases (live_row key h)) [
      | inl g ↦ rw (e, g) (Sub.skip (Sub-refl _))
      | inr g ↦ rw (e, g) (Sub-refl _)
    ]
  ]

  live_cons :
      (key : ResourceKey) (h : Holding Q) (xs ys : List (Holding Q))
      → Sub (live_in key xs) (live_in key ys)
      → Sub (live_in key (h ∷ xs)) (live_in key (h ∷ ys))
  unfolding live_in
  live_cons key h xs ys s = elim (Bool-cases (live_row key h)) [
    | inl e ↦ rw e (Sub.keep s)
    | inr e ↦ rw e s
  ]

  -- No pool gains a claim by a change of one row.
  pub live_in-update :
      (key : ResourceKey) (id : HoldingId) (f : Holding Q → Holding Q) (hs : List (Holding Q))
      → Keeps f
      → Releases id f hs
      → Sub (live_in key (update id f hs)) (live_in key hs)
  unfolding update
  live_in-update key id f [] k r = Sub-refl _
  live_in-update key id f (h ∷ hs) k r = elim (Bool-cases (h.id == id)) [
    | inl e ↦ rw e (live_change key f h hs k (r h (find_id-head id h hs e)))
    | inr e ↦
        rw e (live_cons key h _ _ (live_in-update key id f hs k (Releases-tail id f h hs e r)))
  ]

  -- A row of another id is found as before.
  pub find_id-update_ne :
      (j id : HoldingId) (f : Holding Q → Holding Q) (hs : List (Holding Q))
      → Keeps f
      → j ≢ id
      → find_id j (update id f hs) ≡ find_id j hs
  unfolding update find_id
  find_id-update_ne j id f [] k n = refl
  find_id-update_ne j id f (h ∷ hs) k n = ground (arith, k.id h, find_id-update_ne j id f hs k n)

  -- The row that changes is found changed.
  pub find_id-update_self :
      (id : HoldingId) (f : Holding Q → Holding Q) (hs : List (Holding Q)) {h : Holding Q}
      → Keeps f
      → find_id id hs ≡ some h
      → find_id id (update id f hs) ≡ some (f h)
  unfolding update find_id
  find_id-update_self id f [] k e = cc
  find_id-update_self id f (x ∷ hs) {h} k e =
      ground (arith, k.id x, find_id-update_self id f hs {h = h} k)

  pub find_id-append :
      (id : HoldingId) (hs gs : List (Holding Q)) {h : Holding Q}
      → find_id id hs ≡ some h
      → find_id id (hs ++ gs) ≡ some h
  unfolding find_id
  find_id-append id [] gs e = cc
  find_id-append id (x ∷ hs) gs {h} e = ground (arith, find_id-append id hs gs {h = h})

  pub find_id-id :
      (id : HoldingId) (hs : List (Holding Q)) {h : Holding Q} → find_id id hs ≡ some h → h.id ≡ id
  unfolding find_id
  find_id-id id [] e = cc
  find_id-id id (x ∷ hs) {h} e = ground (arith, find_id-id id hs {h = h})

  pub live_in-append :
      (key : ResourceKey) (hs gs : List (Holding Q))
      → live_in key (hs ++ gs) ≡ live_in key hs ++ live_in key gs
  unfolding live_in
  live_in-append key [] gs = refl
  live_in-append key (h ∷ hs) gs = ground (arith, live_in-append key hs gs)
