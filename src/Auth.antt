-- ===== src/Auth.antt =====
-- Capacity predicates for the whole ledger of one pool (crates/portos-rm/src/auth.rs).
use portos.Base.{
  ◌≡◌, refl, sym, ◌∙◌, ap, subst, Bool, true, false, ◌&&◌, Option, none, some, List, [], ◌∷◌, ◌++◌,
  All, if◌then◌else◌, arith, All-append,
}
use mathlib.Core.List.{foldl}
use portos.Ra.{Ra, IsRa, option_op, option_valid, option_included_in}
use portos.Ra.Laws.{option_ra, OkOption, option-IsRa}

module _ {A : Type 0} (r : Ra A) where
  -- `none` is no claim at all.
  unfoldable pub compose : List A → Option A
  compose [] = none
  compose (x ∷ xs) = some (foldl r.op x xs)

  unfoldable pub auth_valid : A → Option A → Bool
  auth_valid capacity outstanding =
      if r.valid capacity
      then option_valid r outstanding && option_included_in r outstanding (some capacity)
      else false

  -- The issuer's gate: all live claims and the new one, together.
  unfoldable pub can_mint : A → List A → A → Bool
  unfolding auth_valid compose
  can_mint capacity live want = auth_valid capacity (compose (live ++ want ∷ []))

-- `xs` is `ys` with some elements left out.
pub data Sub {ℓ} {A : Type ℓ} : List A → List A → Type ℓ where
  none_left : Sub [] []
  keep : {x : A} {xs ys : List A} → Sub xs ys → Sub (x ∷ xs) (x ∷ ys)
  skip : {y : A} {xs ys : List A} → Sub xs ys → Sub xs (y ∷ ys)

pub Sub-refl {ℓ} : {A : Type ℓ} (xs : List A) → Sub xs xs
Sub-refl [] = Sub.none_left
Sub-refl (x ∷ xs) = Sub.keep (Sub-refl xs)

pub Sub-append_left {ℓ} : {A : Type ℓ} (xs ys : List A) → Sub xs (xs ++ ys)
Sub-append_left [] [] = Sub.none_left
Sub-append_left [] (y ∷ ys) = Sub.skip (Sub-append_left [] ys)
Sub-append_left (x ∷ xs) ys = Sub.keep (Sub-append_left xs ys)

module _ {A : Type 0} {r : Ra A} {Ok : A → Type 0} (laws : IsRa r Ok) where
  lifted : IsRa (option_ra r) (OkOption Ok)
  lifted = option-IsRa laws

  -- Composition from the right, in the lifted algebra.
  abbrev pub total : List A → Option A
  total [] = none
  total (x ∷ xs) = option_op r (some x) (total xs)

  pub total-Ok : (xs : List A) → All Ok xs → OkOption Ok (total xs)
  total-Ok [] h = tt
  total-Ok (x ∷ xs) h = lifted.closed (some x) (total xs) h.0 (total-Ok xs h.1)

  fold_from :
      (x : A) (xs : List A)
      → Ok x
      → All Ok xs
      → ◌≡◌ {A = Option A} (some (foldl r.op x xs)) (option_op r (some x) (total xs))
  fold_from x [] p h = refl
  fold_from x (y ∷ ys) p h =
      fold_from (r.op x y) ys (laws.closed x y p h.0) h.1
      ∙ lifted.assoc (some x) (some y) (total ys) p h.0 (total-Ok ys h.1)

  pub compose-total : (xs : List A) → All Ok xs → compose r xs ≡ total xs
  unfolding compose
  compose-total [] h = refl
  compose-total (x ∷ xs) h = fold_from x xs h.0 h.1

  Sub-Ok : {xs ys : List A} → Sub xs ys → All Ok ys → All Ok xs
  Sub-Ok Sub.none_left h = tt
  Sub-Ok (Sub.keep s) h = (h.0, Sub-Ok s h.1)
  Sub-Ok (Sub.skip s) h = Sub-Ok s h.1

  -- What was left out completes the smaller composition to the larger.
  Sub-completes :
      {xs ys : List A}
      → Sub xs ys
      → All Ok ys
      → (c : Option A) × OkOption Ok c × (total ys ≡ option_op r (total xs) c)
  Sub-completes Sub.none_left h = (none, tt, refl)
  Sub-completes (Sub.keep {x = x} {xs = xs} {ys = ys} s) h =
      let (c, p, e) = Sub-completes s h.1 in
      (
        c,
        p,
        ap (option_op r (some x)) e
            ∙ sym (lifted.assoc (some x) (total xs) c h.0 (total-Ok xs (Sub-Ok s h.1)) p),
      )
  Sub-completes (Sub.skip {y = y} {xs = xs} {ys = ys} s) h =
      let (c, p, e) = Sub-completes s h.1 in
      let t = total-Ok xs (Sub-Ok s h.1) in
      (
        option_op r c (some y),
        lifted.closed c (some y) p h.0,
        ap (option_op r (some y)) e
            ∙ lifted.comm (some y) (option_op r (total xs) c) h.0 (lifted.closed (total xs) c t p)
            ∙ lifted.assoc (total xs) c (some y) t p h.0,
      )

  auth_valid_parts :
      (cap : A) (o : Option A)
      → auth_valid r cap o ≡ true
      → (r.valid cap ≡ true)
        × (option_valid r o ≡ true)
        × (option_included_in r o (some cap) ≡ true)
  unfolding auth_valid
  auth_valid_parts cap o h = ground arith

  -- Leaving claims out keeps a pool within its capacity: a release needs no check.
  pub auth_valid-Sub :
      (cap : A) {xs ys : List A}
      → Sub xs ys
      → Ok cap
      → All Ok ys
      → auth_valid r cap (compose r ys) ≡ true
      → auth_valid r cap (compose r xs) ≡ true
  unfolding auth_valid
  auth_valid-Sub cap {xs} {ys} s k h v =
      let hx = Sub-Ok s h in
      let tx = total-Ok xs hx in
      let ty = total-Ok ys h in
      let (c, p, e) = Sub-completes s h in
      let (vc, vo, vi) =
        auth_valid_parts cap (total ys)
          (subst (λ o. auth_valid r cap o ≡ true) (compose-total ys h) v) in
      let valid_x : option_valid r (total xs) ≡ true =
        lifted.valid_op_l (total xs) c tx p (subst (λ o. option_valid r o ≡ true) e vo) in
      let (d, q, f) = lifted.incl (total ys) (some cap) ty k vi in
      let g : some cap ≡ option_op r (total xs) (option_op r c d) =
        f ∙ ap (λ o. option_op r o d) e ∙ lifted.assoc (total xs) c d tx p q in
      let incl_x : option_included_in r (total xs) (some cap) ≡ true =
        subst (λ o. option_included_in r (total xs) o ≡ true) (sym g)
          (lifted.incl_op (total xs) (option_op r c d) tx (lifted.closed c d p q)) in
      rw (compose-total xs hx, vc, valid_x, incl_x)

  -- What the gate lets in leaves the pool within its capacity before and after.
  pub can_mint-live :
      (cap : A) (live : List A) (want : A)
      → Ok cap
      → All Ok live
      → Ok want
      → can_mint r cap live want ≡ true
      → auth_valid r cap (compose r live) ≡ true
  unfolding can_mint
  can_mint-live cap live want k h w v =
      auth_valid-Sub cap (Sub-append_left live (want ∷ [])) k
        (All-append Ok live (want ∷ []) h (w, tt)) v
