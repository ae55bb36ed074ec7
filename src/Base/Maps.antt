-- ===== src/Base/Maps.antt =====
-- Maps (`BTreeMap`) as association lists without repeated keys, in the order of first insertion.
-- The order in which a map is walked decides only which of several errors is reported.
use mathlib.Core.Path.{◌≡◌}
use mathlib.Core.Logic.{◌≢◌}
use mathlib.Core.Bool.{Bool, true, false}
use mathlib.Core.Option.{Option, none, some}
use mathlib.Core.List.{List, [], ◌∷◌}
use native.Mathlib.Omega.{arith}
use portos.Base.Tests.{test, if◌then◌else◌}
use portos.Base.Lists.{In}

abbrev pub Map {ℓ κ} : Type ℓ → Type κ → Type (ℓ ⊔ κ)
Map K V = List (K × V)

module _ {ℓ κ} {K : Type ℓ} {V : Type κ} (d : Discrete K) where
  unfoldable pub get : K → Map K V → Option V
  get k [] = none
  get k ((j, v) ∷ m) = if test (d k j) then some v else get k m

  unfoldable pub contains_key : K → Map K V → Bool
  unfolding get
  contains_key k m = elim (get k m) [ none ↦ false | some _ ↦ true ]

  -- `insert` replaces the value of a key that is present.
  unfoldable pub put : K → V → Map K V → Map K V
  put k v [] = (k, v) ∷ []
  put k v ((j, w) ∷ m) = if test (d k j) then (k, v) ∷ m else (j, w) ∷ put k v m

module _ {ℓ κ} {K : Type ℓ} {V : Type κ} (d : Discrete K) where
  pub get-put_self : (k : K) (v : V) (m : Map K V) → get d k (put d k v m) ≡ some v
  unfolding get put
  get-put_self k v [] = ground (arith, d k k)
  get-put_self k v ((j, w) ∷ m) = ground (arith, get-put_self k v m, d k k)

  pub get-put_ne : (j k : K) (v : V) (m : Map K V) → j ≢ k → get d j (put d k v m) ≡ get d j m
  unfolding get put
  get-put_ne j k v [] h = ground arith
  get-put_ne j k v ((i, w) ∷ m) h = ground (arith, get-put_ne j k v m h)

  pub get-In : (k : K) (m : Map K V) {v : V} → get d k m ≡ some v → In (k, v) m
  unfolding get
  get-In k [] e = cc
  get-In k ((j, w) ∷ m) {v} e =
      elim (d k j)
          as (λ t. (if test t then some w else get d k m) ≡ some v → In (k, v) ((j, w) ∷ m)) [
            | yes p ↦ λ q. In.here (ground arith)
            | no p ↦ λ q. In.there (get-In k m q)
          ]
        e
