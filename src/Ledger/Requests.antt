-- ===== src/Ledger/Requests.antt =====
-- `request_retirement` (crates/portos-rm/src/ledger/cleanup.rs): a holding starts to retire with all
-- that is bound to it, each under a key of its own.
pub mod Visits
pub mod Fuel
use portos.Base.{
  ℕ, suc, Bool, true, false, not, ◌&&◌, Option, none, some, List, [], ◌∷◌, ◌++◌, map, any, test,
  ◌==◌, ltb, string_discrete, if◌then◌else◌, String, length,
}
use Prim.Native.Nat.{◌/◌, ◌%◌, zero}
use Prim.Native.String.{◌++◌ as str_append}
use portos.Errors.{Result, ok, err, LedgerError, require, ◌>>◌, ◌>>=◌}
use portos.Identity.{HoldingId, HoldingHandle}
use portos.Time.{Timestamp, Lease, Lease-discrete}
use portos.Cleanup.{CleanupId, CleanupKey, CleanupTarget, CleanupRecord, HoldingState, is_active}
use portos.Ledger.{Ledger, Holding, handle_of, holding, resolve, update}
use portos.Ledger.Retirement.{first_state, put_task}

digit : ℕ → String
digit n =
    if n == 0
    then "0"
    else if n == 1
    then "1"
    else if n == 2
    then "2"
    else if n == 3
    then "3"
    else if n == 4
    then "4"
    else if n == 5
    then "5"
    else if n == 6
    then "6"
    else if n == 7
    then "7"
    else if n == 8
    then "8"
    else "9"

-- A number in decimal; a `u64` has at most 20 digits.
decimal : ℕ → ℕ → String
unfolding digit
decimal zero n = ""
decimal (suc k) n =
    let front = decimal k (n / 10) in
    if ltb n 10 then digit n else str_append front (digit (n % 10))

-- `format!("{}:bound:{}", key, id)`.
pub bound_key : CleanupKey → HoldingId → CleanupKey
unfolding decimal
bound_key key id = str_append key (str_append ":bound:" (decimal 20 id))

abbrev pub has_parent : Option HoldingId → HoldingId → Bool
has_parent none id = false
has_parent (some p) id = p == id

-- Every key of the batch is new, also beside the others.
unfoldable pub keys_new : List CleanupKey → List (HoldingHandle × CleanupKey) → Bool
keys_new used [] = true
keys_new used ((_, k) ∷ rest) = not (in_list k used) && keys_new (k ∷ used) rest
  where
    in_list : CleanupKey → List CleanupKey → Bool
    in_list k = any λ j. test (string_discrete j k)

begin_task : HoldingHandle → CleanupKey → CleanupTarget → Timestamp → CleanupRecord
begin_task handle key target now = record {
  id = handle.id;
  key = key;
  holding = handle;
  state = first_state target;
  attempts = 0;
  requested_at = now;
  updated_at = now;
}

module _ {Q : Type 0} where
  -- The children that end with a parent, each with a key derived from the request's.
  unfoldable pub bound_in :
      CleanupKey → HoldingId → List (Holding Q) → List (HoldingHandle × CleanupKey)
  unfolding bound_key
  bound_in key parent [] = []
  bound_in key parent (h ∷ hs) =
      if is_active h.state
        && has_parent h.parent parent
        && test (Lease-discrete h.lease Lease.parent_bound)
      then (handle_of h, bound_key key h.id) ∷ bound_in key parent hs
      else bound_in key parent hs

  -- The loop over `selected`: the list is what is still to be visited, and fuel is a visit each.
  unfoldable pub select :
      ℕ
      → Ledger Q
      → CleanupKey
      → List (HoldingHandle × CleanupKey)
      → Option (List (HoldingHandle × CleanupKey))
  unfolding bound_in
  select fuel l key [] = some []
  select zero l key (s ∷ todo) = none
  select (suc fuel) l key (s ∷ todo) =
      elim (select fuel l key (todo ++ bound_in key s.0.id l.holdings)) [
        | none ↦ none
        | some rest ↦ some (s ∷ rest)
      ]

  -- One holding starts to retire. (That it is found is the source's `unwrap`.)
  unfoldable pub retire : Ledger Q → HoldingHandle → CleanupKey → Timestamp → Ledger Q
  unfolding begin_task
  retire l handle key now = elim (holding l handle.id) [
    | none ↦ l
    | some h ↦ record l {
      cleanups = put_task l handle.id (begin_task handle key h.target now);
      holdings =
          update handle.id (λ h. record h { state = HoldingState.retiring handle.id }) l.holdings;
    }
  ]

  unfoldable pub retire_all : Ledger Q → List (HoldingHandle × CleanupKey) → Timestamp → Ledger Q
  unfolding retire
  retire_all l [] now = l
  retire_all l ((handle, key) ∷ rest) now = retire_all (retire l handle key now) rest now

  abbrev pub used_keys : Ledger Q → List CleanupKey
  used_keys l = map (λ (t : CleanupId × CleanupRecord). t.1.key) l.cleanups

  unfoldable pub finish_request :
      Ledger Q
      → HoldingHandle
      → List (HoldingHandle × CleanupKey)
      → Timestamp
      → Result (Ledger Q × HoldingState)
  unfolding keys_new retire_all
  finish_request l handle selected now = do
    require (keys_new (used_keys l) selected) LedgerError.invalid_cleanup
    let l' = retire_all l selected now
    h ← resolve l' handle
    ok (l', h.state)

  unfoldable pub begin_request :
      Ledger Q
      → HoldingHandle
      → CleanupKey
      → Timestamp
      → Option (List (HoldingHandle × CleanupKey))
      → Option (Result (Ledger Q × HoldingState))
  unfolding finish_request
  begin_request l handle key now none = none
  begin_request l handle key now (some selected) = some (finish_request l handle selected now)

  -- A holding that does not live any more keeps its first request.
  unfoldable pub request_if :
      Bool
      → Ledger Q
      → HoldingHandle
      → CleanupKey
      → Timestamp
      → HoldingState
      → Option (Result (Ledger Q × HoldingState))
  unfolding begin_request select
  request_if false l handle key now state = some (ok (l, state))
  request_if true l handle key now state =
      begin_request l handle key now (select (suc (length l.holdings)) l key ((handle, key) ∷ []))

  unfoldable pub request_from :
      Ledger Q
      → HoldingHandle
      → CleanupKey
      → Timestamp
      → Result (Holding Q)
      → Option (Result (Ledger Q × HoldingState))
  unfolding request_if
  request_from l handle key now (err e) = some (err e)
  request_from l handle key now (ok root) =
      request_if (is_active root.state) l handle key now root.state

  -- `none` is a loop that has not ended.
  unfoldable pub request_retirement :
      Ledger Q → HoldingHandle → CleanupKey → Timestamp → Option (Result (Ledger Q × HoldingState))
  unfolding request_from
  request_retirement l handle key now = request_from l handle key now (resolve l handle)
