-- ===== src/Protocol.antt =====
-- The order of verbs that a protocol allows (`Protocol`, crates/portos-rm/src/protocol.rs): a safety
-- automaton over verbs, run on a sequence of verbs and, statically, on a plan. A set of states is a
-- list, whose order decides only which of several violations is reported.
pub mod Paths
pub mod WorldOrder
pub mod Exact
pub mod Refusals
use portos.Base.{
  ℕ, zero, suc, ◌+◌, ◌≡◌, refl, Bool, true, false, not, ◌&&◌, Option, none, some, List, [], ◌∷◌,
  ◌++◌, map, String, string_discrete, if◌then◌else◌, is_blank, any, test,
}
use portos.Base.Maps.{Map, get, put, contains_key}
use portos.Base.Sets.{StringSet, contains, insert, empty}
use portos.Coeffect.{Plan, seq, loop, branch, Plans, end, ◌⨾◌}

pub record Transition : Type 0 where
  pub state : String
  pub verb : String

unfoldable pub Transition-discrete : Discrete Transition
Transition-discrete = hlevel string_discrete

pub record Protocol : Type 0 where
  pub initial : String
  pub transitions : Map Transition String
  pub scoped : StringSet

pub record ProtocolDraft : Type 0 where
  pub initial : String
  pub transitions : List (Transition × String)

pub data ProtocolError : Type 0 where
  empty_name duplicate_transition : ProtocolError

pub record Violation : Type 0 where
  pub verb : String
  pub state : String
  pub at : Option ℕ

pub data Result {ℓ κ} (E : Type ℓ) (A : Type κ) : Type (ℓ ⊔ κ) where
  ok : A → Result E A
  err : E → Result E A

infixl 5 ◌>>=◌
abbrev pub ◌>>=◌ {ℓ κ μ} :
    {E : Type ℓ} {A : Type κ} {B : Type μ} → Result E A → (A → Result E B) → Result E B
ok a >>= f = f a
err e >>= f = err e

-- `ProtocolDraft::check`: the loop over the transitions, and its start.
unfoldable pub check_transitions :
    Protocol → List (Transition × String) → Result ProtocolError Protocol
check_transitions p [] = ok p
check_transitions p ((t, to) ∷ ts) =
    let rest =
      check_transitions
        (record p {
          scoped = insert t.verb p.scoped;
          transitions = put Transition-discrete t to p.transitions;
        })
        ts in
    if is_blank t.state
    then err ProtocolError.empty_name
    else if is_blank t.verb
    then err ProtocolError.empty_name
    else if is_blank to
    then err ProtocolError.empty_name
    else if contains_key Transition-discrete t p.transitions
    then err ProtocolError.duplicate_transition
    else rest

unfoldable pub check : ProtocolDraft → Result ProtocolError Protocol
check d =
    if is_blank d.initial
    then err ProtocolError.empty_name
    else check_transitions (record { initial = d.initial; transitions = []; scoped = empty })
        d.transitions

abbrev pub or_violates : String → String → Option String → Result Violation String
or_violates state verb none = err (record { verb = verb; state = state; at = none })
or_violates state verb (some s) = ok s

-- `Protocol::step`: a verb out of scope leaves the state.
unfoldable pub step : Protocol → String → String → Result Violation String
step p state verb =
    if contains verb p.scoped
    then or_violates state verb
        (get Transition-discrete (record { state = state; verb = verb }) p.transitions)
    else ok state

abbrev pub at_place : ℕ → Result Violation String → Result Violation String
at_place i (ok s) = ok s
at_place i (err e) = err (record e { at = some i })

-- `check_sequence`, from a state and a place.
unfoldable pub check_from : Protocol → ℕ → String → List String → Result Violation String
check_from p i state [] = ok state
check_from p i state (v ∷ vs) = at_place i (step p state v) >>= λ s. check_from p (suc i) s vs

unfoldable pub check_sequence : Protocol → List String → Result Violation String
check_sequence p verbs = check_from p 0 p.initial verbs

-- One verb from every state of a set.
unfoldable pub step_all : Protocol → String → List String → Result Violation (List String)
step_all p v [] = ok []
step_all p v (s ∷ ss) = do t ← step p s v; ts ← step_all p v ss; ok (t ∷ ts)

-- The rounds of a loop: the states so far, and those of the last round.
unfoldable pub rounds :
    (List String → Result Violation (List String))
    → ℕ
    → List String
    → List String
    → Result Violation (List String)
rounds body zero acc cur = ok acc
rounds body (suc n) acc cur = body cur >>= λ next. rounds body n (acc ++ next) next

-- `Protocol::reach`.
unfoldable mutual
  pub reach : Protocol → Plan → List String → Result Violation (List String)
  reach p (Plan.verb handler v) states = step_all p v states
  reach p (seq items) states = reach_all p items states
  reach p (loop bound body) states = rounds (λ cur. reach p body cur) bound states states
  reach p (branch a b) states = do xs ← reach p a states; ys ← reach p b states; ok (xs ++ ys)

  pub reach_all : Protocol → Plans → List String → Result Violation (List String)
  reach_all p end states = ok states
  reach_all p (q ⨾ qs) states = reach p q states >>= λ cur. reach_all p qs cur

unfoldable pub check_plan : Protocol → Plan → Result Violation (List String)
check_plan p plan = reach p plan (p.initial ∷ [])

-- `project` keeps the verbs that pass a test.
unfoldable mutual
  pub project : (String → Bool) → Plan → Plan
  project keep (Plan.verb handler v) = if keep v then Plan.verb handler v else seq end
  project keep (seq items) = seq (project_all keep items)
  project keep (loop bound body) = loop bound (project keep body)
  project keep (branch a b) = branch (project keep a) (project keep b)

  pub project_all : (String → Bool) → Plans → Plans
  project_all keep end = end
  project_all keep (q ⨾ qs) = project keep q ⨾ project_all keep qs

-- `check_plan_world_order`: the verbs that are withheld come last.
unfoldable pub check_plan_world_order : Protocol → Plan → StringSet → Result Violation (List String)
check_plan_world_order p plan withhold = check_plan p (
    seq (
      project (λ v. not (contains v withhold)) plan
      ⨾ project (λ v. contains v withhold) plan
      ⨾ end))
