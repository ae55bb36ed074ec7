-- ===== src/Protocol/WorldOrder.antt =====
-- What the two static checks promise of every path, and that a sequence check is the automaton.
use portos.Base.{
  ℕ, suc, ◌≡◌, refl, sym, subst, inl, inr, Bool, not, List, [], ◌∷◌, ◌++◌, String, In, filter,
  filter-append, Bool-cases, append-nil,
}
use portos.Base.Sets.{StringSet, contains}
use portos.Coeffect.{Plan, Plans, end, ◌⨾◌}
use portos.Protocol.{
  Protocol, Violation, Result, ok, err, step, check_from, check_sequence, check_plan,
  check_plan_world_order, project, project_all, at_place,
}
use portos.Protocol.Paths.{
  PathOf, does, does_all, repeats, goes_left, goes_right, PathsOf, ends, follows, RoundsOf, leaves,
  again, Allows, stays, steps, >>=-ok, ok-injective, reach-Lands,
}

pub check_from-Allows :
    (p : Protocol) (i : ℕ) (s : String) (vs : List String) {t : String}
    → check_from p i s vs ≡ ok t
    → Allows p s vs t
unfolding check_from
check_from-Allows p i s [] {t} e = subst (Allows p s []) (ok-injective e) stays
check_from-Allows p i s (v ∷ vs) {t} e =
    let (m, em, e1) = >>=-ok (at_place i (step p s v)) _ e in
    steps (unplaced i (step p s v) em) (check_from-Allows p (suc i) m vs e1)
  where
    unplaced : (i : ℕ) (r : Result Violation String) {m : String} → at_place i r ≡ ok m → r ≡ ok m
    unplaced i (ok x) e = e
    unplaced i (err x) e = cc

Allows-check_from :
    (p : Protocol) (i : ℕ) {s : String} {vs : List String} {t : String}
    → Allows p s vs t
    → check_from p i s vs ≡ ok t
unfolding check_from
Allows-check_from p i stays = refl
Allows-check_from p i (steps e a) = rw e (Allows-check_from p (suc i) a)

-- A protocol is closed under prefixes: where a sequence of verbs passes the check, so does every
-- sequence that it starts with.
pub check_sequence-prefix :
    (p : Protocol) (vs us : List String) (t : String)
    → check_sequence p (vs ++ us) ≡ ok t
    → (s : String) × (check_sequence p vs ≡ ok s)
unfolding check_sequence
check_sequence-prefix p vs us t e =
    let (s, a) = split p.initial vs us (check_from-Allows p 0 p.initial (vs ++ us) e) in
    (s, Allows-check_from p 0 a)
  where
    split :
        (r : String) (vs us : List String)
        → Allows p r (vs ++ us) t
        → (s : String) × Allows p r vs s
    split r [] us a = (r, stays)
    split r (v ∷ vs) us (steps {t = m} e a) = let (s, b) = split m vs us a in (s, steps e b)

-- A plan that passes the static check violates the protocol on none of its paths: each passes the
-- check of sequences, and ends in one of the states that the static check gives.
pub check_plan_sound :
    (p : Protocol) (plan : Plan) (out vs : List String)
    → check_plan p plan ≡ ok out
    → PathOf plan vs
    → (t : String) × (check_sequence p vs ≡ ok t) × In t out
unfolding check_plan check_sequence
check_plan_sound p plan out vs e q =
    let (t, a, i) = reach-Lands p plan (p.initial ∷ []) out vs p.initial e (In.here refl) q in
    (t, Allows-check_from p 0 a, i)

mutual
  unfolding project

  project-PathOf :
      (keep : String → Bool) {q : Plan} {vs : List String}
      → PathOf q vs
      → PathOf (project keep q) (filter keep vs)
  project-PathOf keep (does {h = h} {v = v}) = elim (Bool-cases (keep v)) [
    | inl e ↦ rw e does
    | inr e ↦ rw e (does_all ends)
  ]
  project-PathOf keep (does_all r) = does_all (project-PathsOf keep r)
  project-PathOf keep (repeats r) = repeats (project-RoundsOf keep r)
  project-PathOf keep (goes_left r) = goes_left (project-PathOf keep r)
  project-PathOf keep (goes_right r) = goes_right (project-PathOf keep r)

  project-PathsOf :
      (keep : String → Bool) {qs : Plans} {vs : List String}
      → PathsOf qs vs
      → PathsOf (project_all keep qs) (filter keep vs)
  project-PathsOf keep ends = ends
  project-PathsOf keep (follows {vs = vs} {us = us} r rs) =
      subst (PathsOf _) (sym (filter-append keep vs us))
        (follows (project-PathOf keep r) (project-PathsOf keep rs))

  project-RoundsOf :
      (keep : String → Bool) {b : Plan} {n : ℕ} {vs : List String}
      → RoundsOf b n vs
      → RoundsOf (project keep b) n (filter keep vs)
  project-RoundsOf keep leaves = leaves
  project-RoundsOf keep (again {vs = vs} {us = us} r rs) =
      subst (RoundsOf _ _) (sym (filter-append keep vs us))
        (again (project-PathOf keep r) (project-RoundsOf keep rs))

-- A plan that passes the check in the order of the world violates the protocol on none of its paths
-- when the verbs that are withheld take effect last, in their order.
pub check_plan_world_order_sound :
    (p : Protocol) (plan : Plan) (withhold : StringSet) (out vs : List String)
    → check_plan_world_order p plan withhold ≡ ok out
    → PathOf plan vs
    → (t : String) × (check_sequence p
          (filter (λ v. not (contains v withhold)) vs ++ filter (λ v. contains v withhold) vs)
        ≡ ok t)
      × In t out
unfolding check_plan_world_order
check_plan_world_order_sound p plan withhold out vs e q =
    let now = λ (v : String). not (contains v withhold) in
    let later = λ (v : String). contains v withhold in
    let path : PathsOf (project now plan ⨾ project later plan ⨾ end)
        (filter now vs ++ (filter later vs ++ [])) =
      follows (project-PathOf now q) (follows (project-PathOf later q) ends) in
    check_plan_sound p _ out _ e (
      does_all (
        subst (λ us. PathsOf (project now plan ⨾ project later plan ⨾ end) (filter now vs ++ us))
          (append-nil (filter later vs)) path))
