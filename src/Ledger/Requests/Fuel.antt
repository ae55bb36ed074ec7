-- ===== src/Ledger/Requests/Fuel.antt =====
-- The loop of `request_retirement` (crates/portos-rm/src/ledger/cleanup.rs) ends.
use portos.Base.{
  ℕ, zero, suc, ◌≤◌, ◌≡◌, refl, sym, subst, Bool, true, false, some, List, [], ◌∷◌, ◌++◌, arith,
  length,
}
use portos.Errors.{Result, ok, err}
use portos.Identity.{HoldingHandle}
use portos.Time.{Timestamp}
use portos.Cleanup.{CleanupKey, HoldingState, is_active}
use portos.Ledger.{Ledger, Holding, resolve}
use portos.Ledger.Order.{IsOrdered}
use portos.Ledger.Requests.{
  request_retirement, request_from, request_if, begin_request, finish_request, select, bound_in,
}
use portos.Ledger.Requests.Visits.{visits, visits-append, visits-bound_in, size_bound}

module _ {Q : Type 0} where
  -- Fuel for all visits is enough.
  select_ends :
      (fuel : ℕ) (l : Ledger Q) (key : CleanupKey) (todo : List (HoldingHandle × CleanupKey))
      → IsOrdered l
      → visits l.holdings todo ≤ fuel
      → (selected : List (HoldingHandle × CleanupKey)) × (select fuel l key todo ≡ some selected)
  unfolding select
  select_ends zero l key [] o e = ([], refl)
  select_ends (suc fuel) l key [] o e = ([], refl)
  select_ends zero l key (s ∷ todo) o e =
      absurd (omega (arith, e, visits-bound_in 0 l.next_id key s.0.id l.holdings o))
  select_ends (suc fuel) l key (s ∷ todo) o e =
      let more = bound_in key s.0.id l.holdings in
      let enough : visits l.holdings (todo ++ more) ≤ fuel = omega (
        arith,
        e,
        visits-append l.holdings todo more,
        visits-bound_in 0 l.next_id key s.0.id l.holdings o,
      ) in
      let (rest, p) = select_ends fuel l key (todo ++ more) o enough in
      (s ∷ rest, rw (p, select) refl)

  -- A request for retirement ends: in a ledger whose rows stand in the order of their ids, one visit
  -- for each row and one more is enough for the loop over what is bound to the holding.
  pub request_retirement_ends :
      (l : Ledger Q) (handle : HoldingHandle) (key : CleanupKey) (now : Timestamp)
      → IsOrdered l
      → (r : Result (Ledger Q × HoldingState)) × (request_retirement l handle key now ≡ some r)
  unfolding request_retirement request_from request_if begin_request
  request_retirement_ends l handle key now o = by_root (resolve l handle)
    where
      started :
          (h : Holding Q) (b : Bool)
          → (r : Result (Ledger Q × HoldingState)) × (request_if b l handle key now h.state
              ≡ some r)
      started h false = (ok (l, h.state), refl)
      started h true =
          let (selected, p) =
            select_ends (suc (length l.holdings)) l key ((handle, key) ∷ []) o
              (omega (arith, size_bound 0 l.next_id handle.id l.holdings o)) in
          (
            finish_request l handle selected now,
            subst
                (λ o.
                  begin_request l handle key now o ≡ some (finish_request l handle selected now))
                (sym p) refl,
          )

      by_root :
          (x : Result (Holding Q))
          → (r : Result (Ledger Q × HoldingState)) × (request_from l handle key now x ≡ some r)
      by_root (err e) = (err e, refl)
      by_root (ok h) = started h (is_active h.state)
