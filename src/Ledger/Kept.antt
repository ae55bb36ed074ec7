-- ===== src/Ledger/Kept.antt =====
-- Every change of a ledger keeps its pools within their capacities.
use portos.Base.{
  ℕ, ◌≡◌, refl, sym, ◌∙◌, ap, subst, inl, inr, true, ◌&&◌, none, some, List, [], ◌∷◌, ◌++◌, All,
  All-append, arith, Bool-cases, test, test→, append-nil,
}
use mathlib.Core.Option.{some-injective}
use portos.Base.Maps.{get, put, get-put_self, get-put_ne}
use portos.Errors.{ok}
use portos.Identity.{HoldingId, ResourceKey, ResourceKey-discrete}
use portos.Cleanup.{occupies}
use portos.Ra.Fractions.{Rationals}
use portos.Frag.{Frag, tag, fits}
use portos.Frag.Typed.{OkFrag}
use portos.Ledger.{Ledger, Holding, live_in, live_frags, key_of, update, new}
use portos.Ledger.Updates.{Keeps, Releases, All-update, live_in-update, live_in-append}
use portos.Ledger.Changes.{
  Change, rows_kept, pool_set, row_added, row_changed, in_turn, MayAdd, MaySet,
}
use portos.Ledger.Capacity.{IsHoused, Housed, IsWithinCapacity, Housed-caps, changed-fit}

module _ {Q : Type 0} (rat : Rationals Q) where
  kept_rows :
      {l l' : Ledger Q}
      → l'.holdings ≡ l.holdings
      → l'.capacities ≡ l.capacities
      → IsWithinCapacity rat l
      → IsWithinCapacity rat l'
  kept_rows {l} {l'} r c v = record {
    housed = subst (All (Housed rat l')) (sym r) (Housed-caps rat l l' c l.holdings v.housed);
    proper = subst (All (λ h. OkFrag rat h.frag)) (sym r) v.proper;
    caps = λ key cap g. v.caps key cap (subst (λ m. get ResourceKey-discrete key m ≡ some cap) c g);
    fit = λ key cap g.
        subst (λ hs. fits rat cap (live_in key hs) ≡ ok true) (sym r)
          (v.fit key cap (subst (λ m. get ResourceKey-discrete key m ≡ some cap) c g));
  }

  changed-Housed :
      (l : Ledger Q) (f : Holding Q → Holding Q) (h : Holding Q)
      → Keeps f
      → (occupies (f h).state ≡ true → occupies h.state ≡ true)
      → Housed rat l h
      → Housed rat l (f h)
  changed-Housed l f h k o u q =
      let w = u (o q) in
      record {
        cap = w.cap;
        pool =
            subst (λ k. get ResourceKey-discrete k l.capacities ≡ some w.cap) (sym (k.key h))
              w.pool;
        same_tag = w.same_tag ∙ ap tag (sym (k.frag h));
      }

  kept_change :
      (l : Ledger Q) (id : HoldingId) (f : Holding Q → Holding Q)
      → Keeps f
      → Releases id f l.holdings
      → IsWithinCapacity rat l
      → IsWithinCapacity rat (record l { holdings = update id f l.holdings })
  kept_change l id f k r v = record {
    housed = Housed-caps rat l _ refl (update id f l.holdings) (
        All-update (Housed rat l) id f l.holdings (λ h e u. changed-Housed l f h k (r h e) u)
          v.housed);
    proper =
        All-update (λ h. OkFrag rat h.frag) id f l.holdings
          (λ h e p. subst (OkFrag rat) (sym (k.frag h)) p) v.proper;
    caps = v.caps;
    fit = λ key cap g. changed-fit rat l key cap _ v g (live_in-update key id f l.holdings k r);
  }

  added_fit :
      (l : Ledger Q) (h : Holding Q)
      → MayAdd rat l h
      → IsWithinCapacity rat l
      → (key : ResourceKey) (cap : Frag Q) → get ResourceKey-discrete key l.capacities ≡ some cap
      → fits rat cap (live_in key l.holdings ++ live_in key (h ∷ [])) ≡ ok true
  unfolding live_in
  added_fit l h m v key cap g =
      elim (Bool-cases (occupies h.state && test (ResourceKey-discrete (key_of h) key))) [
        | inr e ↦ rw (e, append-nil) (v.fit key cap g)
        | inl e ↦
            let k : key_of h ≡ key = test→ (ResourceKey-discrete (key_of h) key) (ground arith) in
            let same : m.cap ≡ cap = some-injective _ _ (
              sym m.pool
              ∙ subst (λ k. get ResourceKey-discrete k l.capacities ≡ some cap) (sym k) g) in
            rw e (
              subst (λ c. fits rat c (live_in key l.holdings ++ h.frag ∷ []) ≡ ok true) same
                (subst (λ k. fits rat m.cap (live_in k l.holdings ++ h.frag ∷ []) ≡ ok true) k
                  m.fit))
      ]

  kept_add :
      (l : Ledger Q) (h : Holding Q) (n : ℕ)
      → MayAdd rat l h
      → IsWithinCapacity rat l
      → IsWithinCapacity rat (record l { holdings = l.holdings ++ h ∷ []; next_id = n })
  kept_add l h n m v = record {
    housed = Housed-caps rat l _ refl (l.holdings ++ h ∷ []) (
        All-append (Housed rat l) l.holdings (h ∷ []) v.housed
          (λ _. record { cap = m.cap; pool = m.pool; same_tag = m.same_tag }, tt));
    proper = All-append (λ h. OkFrag rat h.frag) l.holdings (h ∷ []) v.proper (m.proper, tt);
    caps = v.caps;
    fit = λ key cap g.
        subst (λ fs. fits rat cap fs ≡ ok true) (sym (live_in-append key l.holdings (h ∷ [])))
          (added_fit l h m v key cap g);
  }

  -- No row is live where there is no pool.
  unpooled :
      (l : Ledger Q) (key : ResourceKey) (hs : List (Holding Q))
      → get ResourceKey-discrete key l.capacities ≡ none
      → All (Housed rat l) hs
      → live_in key hs ≡ []
  unfolding live_in
  unpooled l key [] g a = refl
  unpooled l key (h ∷ hs) g a =
      elim (Bool-cases (occupies h.state && test (ResourceKey-discrete (key_of h) key))) [
        | inr e ↦ rw e (unpooled l key hs g a.1)
        | inl e ↦
            let k : key_of h ≡ key = test→ (ResourceKey-discrete (key_of h) key) (ground arith) in
            let u = a.0 (ground arith) in
            cc (subst (λ k. get ResourceKey-discrete k l.capacities ≡ some u.cap) k u.pool)
      ]

  set-Housed :
      (l : Ledger Q) (key : ResourceKey) (cap : Frag Q)
      → MaySet rat l key cap
      → (hs : List (Holding Q)) → All (Housed rat l) hs
      → All
          (Housed rat (record l { capacities = put ResourceKey-discrete key cap l.capacities }))
          hs
  set-Housed l key cap m [] a = tt
  set-Housed l key cap m (h ∷ hs) a =
      (λ o. by_key (a.0 o) (ResourceKey-discrete (key_of h) key) m, set-Housed l key cap m hs a.1)
    where
      by_key :
          IsHoused rat l h
          → Dec (key_of h ≡ key)
          → MaySet rat l key cap
          → IsHoused rat (record l { capacities = put ResourceKey-discrete key cap l.capacities }) h
      by_key u (no n) m = record {
        cap = u.cap;
        pool = get-put_ne ResourceKey-discrete (key_of h) key cap l.capacities n ∙ u.pool;
        same_tag = u.same_tag;
      }
      by_key u (yes e) (inl (g, f)) =
          cc (g, subst (λ k. get ResourceKey-discrete k l.capacities ≡ some u.cap) e u.pool)
      by_key u (yes e) (inr (old, g, t, f)) =
          let same : old ≡ u.cap =
            some-injective _ _ (
              sym g ∙ subst (λ k. get ResourceKey-discrete k l.capacities ≡ some u.cap) e u.pool) in
          record {
            cap = cap;
            pool = rw e (get-put_self ResourceKey-discrete key cap l.capacities);
            same_tag = sym t ∙ ap tag same ∙ u.same_tag;
          }

  set_cap :
      (l : Ledger Q) (key : ResourceKey) (cap : Frag Q) {other : ResourceKey} {c : Frag Q}
      → other ≡ key
      → get ResourceKey-discrete other (put ResourceKey-discrete key cap l.capacities) ≡ some c
      → cap ≡ c
  set_cap l key cap {other} {c} e g = some-injective _ _ (
      sym (get-put_self ResourceKey-discrete key cap l.capacities)
      ∙ subst
          (λ k. get ResourceKey-discrete k (put ResourceKey-discrete key cap l.capacities) ≡ some c)
          e g)

  set_fit :
      (l : Ledger Q) (key : ResourceKey) (cap : Frag Q)
      → MaySet rat l key cap
      → All (Housed rat l) l.holdings
      → fits rat cap (live_frags l key) ≡ ok true
  set_fit l key cap (inl (g, f)) a = rw (unpooled l key l.holdings g a) f
  set_fit l key cap (inr (old, g, t, f)) a = f

  kept_set :
      (l : Ledger Q) (key : ResourceKey) (cap : Frag Q)
      → OkFrag rat cap
      → MaySet rat l key cap
      → IsWithinCapacity rat l
      → IsWithinCapacity rat
          (record l { capacities = put ResourceKey-discrete key cap l.capacities })
  kept_set l key cap k m v = record {
    housed = set-Housed l key cap m l.holdings v.housed;
    proper = v.proper;
    caps = λ other c g. caps_by (ResourceKey-discrete other key) g;
    fit = λ other c g. fit_by (ResourceKey-discrete other key) g;
  }
    where
      caps_by :
          {other : ResourceKey} {c : Frag Q}
          → Dec (other ≡ key)
          → get ResourceKey-discrete other (put ResourceKey-discrete key cap l.capacities) ≡ some c
          → OkFrag rat c
      caps_by {other} {c} (no n) g =
          v.caps other c (sym (get-put_ne ResourceKey-discrete other key cap l.capacities n) ∙ g)
      caps_by {other} {c} (yes e) g = subst (OkFrag rat) (set_cap l key cap e g) k

      fit_by :
          {other : ResourceKey} {c : Frag Q}
          → Dec (other ≡ key)
          → get ResourceKey-discrete other (put ResourceKey-discrete key cap l.capacities) ≡ some c
          → fits rat c (live_frags l other) ≡ ok true
      fit_by {other} {c} (no n) g =
          v.fit other c (sym (get-put_ne ResourceKey-discrete other key cap l.capacities n) ∙ g)
      fit_by {other} {c} (yes e) g =
          subst (λ c. fits rat c (live_frags l other) ≡ ok true) (set_cap l key cap e g)
            (subst (λ k. fits rat cap (live_frags l k) ≡ ok true) (sym e)
              (set_fit l key cap m v.housed))

  pub Change-IsWithinCapacity :
      {l l' : Ledger Q} → Change rat l l' → IsWithinCapacity rat l → IsWithinCapacity rat l'
  Change-IsWithinCapacity (rows_kept r c n) v = kept_rows r c v
  Change-IsWithinCapacity (pool_set {l = l} key cap k m r c n) v =
      kept_rows r c (kept_set l key cap k m v)
  Change-IsWithinCapacity (row_added {l = l} h m r c n) v = kept_rows r c (kept_add l h 0 m v)
  Change-IsWithinCapacity (row_changed {l = l} id f k s m r c n) v =
      kept_rows r c (kept_change l id f k s v)
  Change-IsWithinCapacity (in_turn a b) v = Change-IsWithinCapacity b (Change-IsWithinCapacity a v)

  pub new-IsWithinCapacity : (i : ℕ) → IsWithinCapacity rat (new i)
  unfolding get
  new-IsWithinCapacity i = record {
    housed = tt;
    proper = tt;
    caps = λ key cap g. cc;
    fit = λ key cap g. cc;
  }
