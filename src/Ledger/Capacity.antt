-- ===== src/Ledger/Capacity.antt =====
-- The capacity of pools: what is outstanding in a pool, composed, is valid and included in its
-- capacity. Leaving rows needs no check, since a part of what fits fits.
use portos.Base.{
  ◌≡◌, sym, ◌∙◌, ap, subst, inl, inr, true, ◌&&◌, some, List, [], ◌∷◌, All, arith, Bool-cases, test,
  test→,
}
use mathlib.Core.Option.{some-injective}
use portos.Base.Maps.{get}
use portos.Errors.{ok}
use portos.Identity.{ResourceKey, ResourceKey-discrete}
use portos.Cleanup.{occupies}
use portos.Ra.Fractions.{Rationals}
use portos.Auth.{Sub}
use portos.Frag.{Frag, tag, fits}
use portos.Frag.Typed.{OkFrag}
use portos.Frag.Fits.{FragOf, fits-Sub}
use portos.Ledger.{Ledger, Holding, live_in, live_frags, key_of}

module _ {Q : Type 0} (rat : Rationals Q) where
  -- An occupying row stands in a pool of its algebra.
  pub record IsHoused (l : Ledger Q) (h : Holding Q) : Type 0 where
    pub cap : Frag Q
    pub pool : get ResourceKey-discrete (key_of h) l.capacities ≡ some cap
    pub same_tag : tag cap ≡ tag h.frag

  abbrev pub Housed : Ledger Q → Holding Q → Type 0
  Housed l h = occupies h.state ≡ true → IsHoused l h

  pub record IsWithinCapacity (l : Ledger Q) : Type 0 where
    pub housed : All (Housed l) l.holdings
    pub proper : All (λ h. OkFrag rat h.frag) l.holdings
    pub caps :
        (key : ResourceKey) (cap : Frag Q)
        → get ResourceKey-discrete key l.capacities ≡ some cap
        → OkFrag rat cap
    pub fit :
        (key : ResourceKey) (cap : Frag Q)
        → get ResourceKey-discrete key l.capacities ≡ some cap
        → fits rat cap (live_frags l key) ≡ ok true

  -- What is live in a pool is of its algebra.
  pub live_typed :
      (l : Ledger Q) (key : ResourceKey) (cap : Frag Q)
      → get ResourceKey-discrete key l.capacities ≡ some cap
      → (hs : List (Holding Q)) → All (Housed l) hs
      → All (λ h. OkFrag rat h.frag) hs
      → All (FragOf rat (tag cap)) (live_in key hs)
  unfolding live_in
  live_typed l key cap g [] a b = tt
  live_typed l key cap g (h ∷ hs) a b =
      let rest = live_typed l key cap g hs a.1 b.1 in
      elim (Bool-cases (occupies h.state && test (ResourceKey-discrete (key_of h) key))) [
        | inr e ↦ rw e rest
        | inl e ↦
            let k : key_of h ≡ key = test→ (ResourceKey-discrete (key_of h) key) (ground arith) in
            let o = a.0 (ground arith) in
            let same : o.cap ≡ cap = some-injective _ _ (
              sym o.pool
              ∙ subst (λ k. get ResourceKey-discrete k l.capacities ≡ some cap) (sym k) g) in
            rw e ((sym o.same_tag ∙ ap tag same, b.0), rest)
      ]

  pub Housed-caps :
      (l l' : Ledger Q)
      → l'.capacities ≡ l.capacities
      → (hs : List (Holding Q)) → All (Housed l) hs
      → All (Housed l') hs
  Housed-caps l l' c [] a = tt
  Housed-caps l l' c (h ∷ hs) a = (
    λ o.
        let u = a.0 o in
        record {
          cap = u.cap;
          pool = subst (λ m. get ResourceKey-discrete (key_of h) m ≡ some u.cap) (sym c) u.pool;
          same_tag = u.same_tag;
        },
    Housed-caps l l' c hs a.1,
  )

  pub changed-fit :
      (l : Ledger Q) (key : ResourceKey) (cap : Frag Q) (fs : List (Frag Q))
      → IsWithinCapacity l
      → get ResourceKey-discrete key l.capacities ≡ some cap
      → Sub fs (live_frags l key)
      → fits rat cap fs ≡ ok true
  changed-fit l key cap fs v g s =
      fits-Sub rat cap (v.caps key cap g) (live_typed l key cap g l.holdings v.housed v.proper) s
        (v.fit key cap g)
