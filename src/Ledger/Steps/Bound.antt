-- ===== src/Ledger/Steps/Bound.antt =====
-- A request for retirement as changes: each holding that it selects occupies its pool, and goes on
-- occupying it while it retires.
use portos.Base.{
  ℕ, suc, zero, ◌≡◌, refl, sym, ◌∙◌, subst, inl, inr, Bool, true, false, ◌&&◌, Option, none, some,
  List, [], ◌∷◌, ◌++◌, All, All-append, arith, Bool-cases, Option-cases, test, length, ℕ_discrete,
  In,
}
use mathlib.Core.Option.{some-injective}
use portos.Errors.{Result, ok, err, LedgerError, >>=-eq-ok, require-ok}
use portos.Identity.{HoldingId, HoldingHandle}
use portos.Time.{Timestamp, Lease, Lease-discrete}
use portos.Cleanup.{CleanupKey, HoldingState, is_active, occupies}
use portos.Ra.Fractions.{Rationals}
use portos.Ledger.{Ledger, Holding, find_id, update, resolve}
use portos.Ledger.Requests.{
  request_retirement, request_from, request_if, begin_request, finish_request, select, bound_in,
  retire, retire_all, keys_new, used_keys, has_parent, has_parent,
}
use portos.Ledger.Order.{IsOrdered, find_id-In}
use portos.Ledger.Updates.{Occupied, find_id-update_ne, find_id-update_self}
use portos.Ledger.Changes.{Change, rows_kept, row_changed, in_turn, Keeps-state, resolve-ok}

module _ {Q : Type 0} where
  -- The rows that a request selects occupy.
  abbrev pub AllOccupied : Ledger Q → List (HoldingHandle × CleanupKey) → Type 0
  AllOccupied l = All (λ s. Occupied l.holdings s.0.id)

  abbrev retiring_row : HoldingId → Holding Q → Holding Q
  retiring_row id h = record h { state = HoldingState.retiring id }

  retire-rows :
      (l : Ledger Q) (handle : HoldingHandle) (key : CleanupKey) (now : Timestamp) (h : Holding Q)
      → find_id handle.id l.holdings ≡ some h
      → ((retire l handle key now).holdings ≡ update handle.id (retiring_row handle.id) l.holdings)
        × ((retire l handle key now).capacities ≡ l.capacities)
        × ((retire l handle key now).next_id ≡ l.next_id)
  unfolding retire
  retire-rows l handle key now h e = ground arith

  retiring-Occupied :
      (hs : List (Holding Q)) (j id : HoldingId)
      → Occupied hs id
      → Occupied (update j (retiring_row j) hs) id
  retiring-Occupied hs j id (h, p, o) = elim (ℕ_discrete id j) [
    | yes e ↦ (
      retiring_row j h,
      rw e (
          find_id-update_self j _ hs (Keeps-state (HoldingState.retiring j))
            (subst (λ i. find_id i hs ≡ some h) e p)),
      refl,
    )
    | no n ↦ (h, find_id-update_ne id j _ hs (Keeps-state (HoldingState.retiring j)) n ∙ p, o)
  ]

  retire_keeps :
      (l : Ledger Q) (handle : HoldingHandle) (key : CleanupKey) (now : Timestamp) (h : Holding Q)
      → find_id handle.id l.holdings ≡ some h
      → (rest : List (HoldingHandle × CleanupKey)) → AllOccupied l rest
      → AllOccupied (retire l handle key now) rest
  retire_keeps l handle key now h e [] a = tt
  retire_keeps l handle key now h e (s ∷ rest) a = (
    subst (λ hs. Occupied hs s.0.id) (sym (retire-rows l handle key now h e).0)
        (retiring-Occupied l.holdings handle.id s.0.id a.0),
    retire_keeps l handle key now h e rest a.1,
  )

module _ {Q : Type 0} (rat : Rationals Q) where
  some_eq : (x y : Holding Q) → ◌≡◌ {A = Option (Holding Q)} (some x) (some y) → x ≡ y
  some_eq x y = some-injective x y

  retire-Change :
      (l : Ledger Q) (handle : HoldingHandle) (key : CleanupKey) (now : Timestamp)
      → Occupied l.holdings handle.id
      → Change rat l (retire l handle key now)
  retire-Change l handle key now (h, p, o) =
      let (rows, caps, ids) = retire-rows l handle key now h p in
      row_changed handle.id (retiring_row handle.id) (Keeps-state (HoldingState.retiring handle.id))
        (λ x q _. subst (λ (y : Holding Q). occupies y.state ≡ true) (some_eq h x (sym p ∙ q)) o)
        (inl (λ x q u. refl)) rows caps ids

  retire_all-Change :
      (l : Ledger Q) (rest : List (HoldingHandle × CleanupKey)) (now : Timestamp)
      → AllOccupied l rest
      → Change rat l (retire_all l rest now)
  unfolding retire_all
  retire_all-Change l [] now h = rows_kept refl refl refl
  retire_all-Change l ((handle, key) ∷ rest) now h = in_turn (retire-Change l handle key now h.0) (
      retire_all-Change (retire l handle key now) rest now
        (retire_keeps l handle key now h.0.0 h.0.1 rest h.1))

selected_eq :
    (xs ys : List (HoldingHandle × CleanupKey))
    → ◌≡◌ {A = Option (List (HoldingHandle × CleanupKey))} (some xs) (some ys)
    → xs ≡ ys
selected_eq xs ys = some-injective xs ys

module _ {Q : Type 0} where
  -- A row of the list that is active occupies under its id.
  bound_in-Occupied :
      (l : Ledger Q) (key : CleanupKey) (parent : HoldingId) (hs : List (Holding Q))
      → ((h : Holding Q) → In h hs → find_id h.id l.holdings ≡ some h)
      → AllOccupied l (bound_in key parent hs)
  unfolding bound_in
  bound_in-Occupied l key parent [] f = tt
  bound_in-Occupied l key parent (h ∷ hs) f =
      let rest = bound_in-Occupied l key parent hs (λ x m. f x (In.there m)) in
      elim (Bool-cases (
        is_active h.state
        && has_parent h.parent parent
        && test (Lease-discrete h.lease Lease.parent_bound))) [
          | inl e ↦ rw e ((h, f h (In.here refl), ground arith), rest)
          | inr e ↦ rw e rest
        ]

  select-Occupied :
      (fuel : ℕ) (l : Ledger Q) (key : CleanupKey) (todo : List (HoldingHandle × CleanupKey))
      {selected : List (HoldingHandle × CleanupKey)}
      → IsOrdered l
      → AllOccupied l todo
      → select fuel l key todo ≡ some selected
      → AllOccupied l selected
  unfolding select
  select-Occupied zero l key [] {selected} o a e =
      subst (AllOccupied l) (selected_eq [] selected e) tt
  select-Occupied zero l key (s ∷ todo) o a e = cc
  select-Occupied (suc fuel) l key [] {selected} o a e =
      subst (AllOccupied l) (selected_eq [] selected e) tt
  select-Occupied (suc fuel) l key (s ∷ todo) {selected} o a e =
      let next = todo ++ bound_in key s.0.id l.holdings in
      elim (Option-cases (select fuel l key next)) [
        | inl n ↦ cc (rw (n, select) at e)
        | inr (rest, p) ↦
            subst (AllOccupied l) (selected_eq (s ∷ rest) selected (rw (p, select) at e)) (
              a.0,
              select-Occupied fuel l key next o
                  (All-append _ todo _ a.1 (
                    bound_in-Occupied l key s.0.id l.holdings
                      (λ h m. find_id-In 0 l.next_id h l.holdings o m)))
                  p,
            )
      ]

module _ {Q : Type 0} (rat : Rationals Q) where
  finish_request-Change :
      (l l' : Ledger Q) (handle : HoldingHandle) (selected : List (HoldingHandle × CleanupKey))
      (now : Timestamp) (s : HoldingState)
      → AllOccupied l selected
      → finish_request l handle selected now ≡ ok (l', s)
      → Change rat l l'
  unfolding finish_request
  finish_request-Change l l' handle selected now s a e =
      let (_, e1) = require-ok (keys_new (used_keys l) selected) LedgerError.invalid_cleanup _ e in
      let (h, p, e2) = >>=-eq-ok (resolve (retire_all l selected now) handle) _ e1 in
      let same : retire_all l selected now ≡ l' = ground (arith, e2) in
      subst (Change rat l) same (retire_all-Change rat l selected now a)

  begin_request-Change :
      (l l' : Ledger Q) (handle : HoldingHandle) (key : CleanupKey) (now : Timestamp)
      (s : HoldingState) (o : Option (List (HoldingHandle × CleanupKey)))
      → ((selected : List (HoldingHandle × CleanupKey))
          → o ≡ some selected
          → AllOccupied l selected)
      → begin_request l handle key now o ≡ some (ok (l', s))
      → Change rat l l'
  unfolding begin_request
  begin_request-Change l l' handle key now s none f e = cc
  begin_request-Change l l' handle key now s (some selected) f e =
      finish_request-Change l l' handle selected now s (f selected refl) (some-injective _ _ e)

  request_if-Change :
      (b : Bool) (l l' : Ledger Q) (handle : HoldingHandle) (key : CleanupKey) (now : Timestamp)
      (s : HoldingState) (root : Holding Q)
      → IsOrdered l
      → find_id handle.id l.holdings ≡ some root
      → is_active root.state ≡ b
      → request_if b l handle key now root.state ≡ some (ok (l', s))
      → Change rat l l'
  unfolding request_if
  request_if-Change false l l' handle key now s root o f a e =
      let same : l ≡ l' = ground arith in subst (Change rat l) same (rows_kept refl refl refl)
  request_if-Change true l l' handle key now s root o f a e =
      begin_request-Change l l' handle key now s _
        (λ selected p.
          select-Occupied (suc (length l.holdings)) l key ((handle, key) ∷ []) o
            ((root, f, ground arith), tt) p)
        e

  pub request-Change :
      (l l' : Ledger Q) (handle : HoldingHandle) (key : CleanupKey) (now : Timestamp)
      (s : HoldingState)
      → IsOrdered l
      → request_retirement l handle key now ≡ some (ok (l', s))
      → Change rat l l'
  unfolding request_retirement request_from
  request-Change l l' handle key now s o e = by_root (resolve l handle) refl e
    where
      by_root :
          (r : Result (Holding Q))
          → resolve l handle ≡ r
          → request_from l handle key now r ≡ some (ok (l', s))
          → Change rat l l'
      by_root (err x) p q = cc
      by_root (ok root) p q =
          request_if-Change (is_active root.state) l l' handle key now s root o
            (resolve-ok l handle p) refl q
