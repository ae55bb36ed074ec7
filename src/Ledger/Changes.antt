-- ===== src/Ledger/Changes.antt =====
-- How the rows and the pools of a ledger change, one shape for all operations: `Step-Change` reads
-- each successful call as such a change, and the invariants are proved of the changes.
use portos.Base.{suc, ◌≡◌, refl, ◌⊎◌, true, false, none, some, [], ◌∷◌, ◌++◌, arith}
use portos.Base.Maps.{get, put}
use portos.Errors.{ok}
use portos.Identity.{HoldingId, HoldingHandle, ResourceKey, ResourceKey-discrete}
use portos.Cleanup.{HoldingState, occupies}
use portos.Ra.Fractions.{Rationals}
use portos.Frag.{Frag, tag, fits}
use portos.Frag.Typed.{OkFrag}
use portos.Ledger.{
  Ledger, Holding, find_id, holding, live_frags, update, has_child, key_of, resolve,
}
use portos.Ledger.Updates.{Keeps, Occupied, Releases}

module _ {Q : Type 0} (rat : Rationals Q) where
  -- A pool may be set: it is new, or has the same algebra and holds what is outstanding.
  abbrev pub MaySet : Ledger Q → ResourceKey → Frag Q → Type 0
  MaySet l key cap =
      ((get ResourceKey-discrete key l.capacities ≡ none) × (fits rat cap [] ≡ ok true))
      ⊎ ((old : Frag Q) × (get ResourceKey-discrete key l.capacities ≡ some old)
          × (tag old ≡ tag cap)
          × (fits rat cap (live_frags l key) ≡ ok true))

  -- A row may be added: its pool takes it beside all that is live, and its parent occupies.
  pub record MayAdd (l : Ledger Q) (h : Holding Q) : Type 0 where
    pub cap : Frag Q
    pub pool : get ResourceKey-discrete (key_of h) l.capacities ≡ some cap
    pub same_tag : tag cap ≡ tag h.frag
    pub proper : OkFrag rat h.frag
    pub fit : fits rat cap (live_frags l (key_of h) ++ h.frag ∷ []) ≡ ok true
    pub id : h.id ≡ l.next_id
    pub parent : (p : HoldingId) → h.parent ≡ some p → Occupied l.holdings p

  -- A row may change: it goes on occupying as before, or no occupying row has it for a parent.
  abbrev pub MayChange : Ledger Q → HoldingId → (Holding Q → Holding Q) → Type 0
  MayChange l id f =
      ((h : Holding Q)
        → find_id id l.holdings ≡ some h
        → occupies h.state ≡ true
        → occupies (f h).state ≡ true)
      ⊎ (has_child l id ≡ false)

  pub data Change : Ledger Q → Ledger Q → Type 0 where
    rows_kept :
        {l l' : Ledger Q}
        → l'.holdings ≡ l.holdings
        → l'.capacities ≡ l.capacities
        → l'.next_id ≡ l.next_id
        → Change l l'
    pool_set :
        {l l' : Ledger Q} (key : ResourceKey) (cap : Frag Q)
        → OkFrag rat cap
        → MaySet l key cap
        → l'.holdings ≡ l.holdings
        → l'.capacities ≡ put ResourceKey-discrete key cap l.capacities
        → l'.next_id ≡ l.next_id
        → Change l l'
    row_added :
        {l l' : Ledger Q} (h : Holding Q)
        → MayAdd l h
        → l'.holdings ≡ l.holdings ++ h ∷ []
        → l'.capacities ≡ l.capacities
        → l'.next_id ≡ suc l.next_id
        → Change l l'
    row_changed :
        {l l' : Ledger Q} (id : HoldingId) (f : Holding Q → Holding Q)
        → Keeps f
        → Releases id f l.holdings
        → MayChange l id f
        → l'.holdings ≡ update id f l.holdings
        → l'.capacities ≡ l.capacities
        → l'.next_id ≡ l.next_id
        → Change l l'
    in_turn : {l m l' : Ledger Q} → Change l m → Change m l' → Change l l'

module _ {Q : Type 0} where
  -- What a handle resolves to is the row with its id.
  pub resolve-ok :
      (l : Ledger Q) (handle : HoldingHandle) {h : Holding Q}
      → resolve l handle ≡ ok h
      → holding l handle.id ≡ some h
  unfolding resolve
  resolve-ok l handle e = ground arith

  pub Keeps-state : (s : HoldingState) → Keeps {Q = Q} (λ h. record h { state = s })
  Keeps-state s = record { id = λ h. refl; frag = λ h. refl; key = λ h. refl; parent = λ h. refl }
