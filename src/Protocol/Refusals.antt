-- ===== src/Protocol/Refusals.antt =====
-- What the static check refuses has a path that violates the protocol, so it refuses no plan whose
-- paths are all allowed.
use portos.Base.{
  ℕ, zero, suc, ◌≡◌, refl, sym, ◌∙◌, subst, ◌⊎◌, inl, inr, List, [], ◌∷◌, ◌++◌, String, In,
}
use portos.Coeffect.{Plan, seq, loop, branch, Plans, end, ◌⨾◌}
use portos.Protocol.{
  Protocol, Violation, Result, ok, err, step, step_all, rounds, reach, reach_all, check_plan,
  check_sequence, ◌>>=◌,
}
use portos.Protocol.Paths.{
  PathOf, does, does_all, repeats, goes_left, goes_right, PathsOf, ends, follows, RoundsOf, leaves,
  again, Allows, stays, steps, ok-injective,
}
use portos.Protocol.WorldOrder.{check_from-Allows}
use portos.Protocol.Exact.{reach-Comes}

-- Which of two results in a row is the error.
>>=-err {ℓ κ} :
    {A : Type ℓ} {B : Type κ} (m : Result Violation A) (f : A → Result Violation B) {e : Violation}
    → (m >>= f) ≡ err e
    → (m ≡ err e) ⊎ ((a : A) × (m ≡ ok a) × (f a ≡ err e))
>>=-err (ok a) f h = inr (a, refl, h)
>>=-err (err e) f h = inl (cc h)

Allows-unique :
    (p : Protocol) {s t u : String} {vs : List String} → Allows p s vs t → Allows p s vs u → t ≡ u
Allows-unique p stays stays = refl
Allows-unique p {u = u} (steps {t = m} {vs = ws} e a) (steps {t = n} f b) =
    let same : n ≡ m = ok-injective (sym f ∙ e) in
    Allows-unique p a (subst (λ n. Allows p n ws u) same b)

Allows-split :
    (p : Protocol) (s t : String) (vs us : List String)
    → Allows p s (vs ++ us) t
    → (m : String) × Allows p s vs m × Allows p m us t
Allows-split p s t [] us a = (s, stays, a)
Allows-split p s t (v ∷ vs) us (steps {t = n} e a) =
    let (m, b, c) = Allows-split p n t vs us a in (m, steps e b, c)

abbrev pub Forbids : Protocol → String → List String → Type 0
Forbids p s vs = (t : String) → Allows p s vs t → ⊥

-- Some path of a kind violates the protocol from one of the states.
abbrev pub Violates : Protocol → (List String → Type 0) → List String → Type 0
Violates p P states = (s : String) × (vs : List String) × In s states × P vs × Forbids p s vs

Forbids-left :
    (p : Protocol) (s : String) (vs us : List String) → Forbids p s vs → Forbids p s (vs ++ us)
Forbids-left p s vs us f t a = let (m, b, _) = Allows-split p s t vs us a in f m b

Forbids-right :
    (p : Protocol) (s m : String) (vs us : List String)
    → Allows p s vs m
    → Forbids p m us
    → Forbids p s (vs ++ us)
Forbids-right p s m vs us a f t b =
    let (n, c, d) = Allows-split p s t vs us b in
    f t (subst (λ n. Allows p n us t) (Allows-unique p c a) d)

mutual
  some_path : (q : Plan) → (vs : List String) × PathOf q vs
  some_path (Plan.verb h v) = (v ∷ [], does)
  some_path (seq qs) = let (vs, r) = some_paths qs in (vs, does_all r)
  some_path (loop n b) = ([], repeats leaves)
  some_path (branch a b) = let (vs, r) = some_path a in (vs, goes_left r)

  some_paths : (qs : Plans) → (vs : List String) × PathsOf qs vs
  some_paths end = ([], ends)
  some_paths (q ⨾ qs) =
      let (vs, r) = some_path q in let (us, rs) = some_paths qs in (vs ++ us, follows r rs)

step_all-fails :
    (p : Protocol) (v : String) (states : List String) (e : Violation)
    → step_all p v states ≡ err e
    → (s : String) × In s states × (step p s v ≡ err e)
unfolding step_all
step_all-fails p v [] e h = cc
step_all-fails p v (x ∷ xs) e h = elim (>>=-err (step p x v) _ h) [
  | inl a ↦ (x, In.here refl, a)
  | inr (t, et, h1) ↦ elim (>>=-err (step_all p v xs) _ h1) [
    | inl b ↦ let (s, i, es) = step_all-fails p v xs e b in (s, In.there i, es)
    | inr (ts, ets, h2) ↦ cc h2
  ]
]

rounds-fails :
    (p : Protocol) (b : Plan) (f : List String → Result Violation (List String)) (n : ℕ)
    (acc cur : List String) (e : Violation)
    → ((xs : List String) → f xs ≡ err e → Violates p (PathOf b) xs)
    → ((xs ys : List String) (t : String)
        → f xs ≡ ok ys
        → In t ys
        → (s : String) × (vs : List String) × In s xs × PathOf b vs × Allows p s vs t)
    → rounds f n acc cur ≡ err e
    → Violates p (RoundsOf b n) cur
unfolding rounds
rounds-fails p b f zero acc cur e g c h = cc
rounds-fails p b f (suc n) acc cur e g c h = elim (>>=-err (f cur) _ h) [
  | inl a ↦
      let (s, vs, i, q, x) = g cur a in (s, vs ++ [], i, again q leaves, Forbids-left p s vs [] x)
  | inr (next, en, h1) ↦
      let (r, us, j, rs, x) = rounds-fails p b f n (acc ++ next) next e g c h1 in
      let (s, vs, i, q, a) = c cur next r en j in
      (s, vs ++ us, i, again q rs, Forbids-right p s r vs us a x)
]

forbidden :
    (p : Protocol) (s v : String) (e : Violation) → step p s v ≡ err e → Forbids p s (v ∷ [])
forbidden p s v e x t (steps y a) = cc (x, y)

mutual
  unfolding reach

  pub reach-fails :
      (p : Protocol) (q : Plan) (states : List String) (e : Violation)
      → reach p q states ≡ err e
      → Violates p (PathOf q) states
  reach-fails p (Plan.verb h v) states e x =
      let (s, i, es) = step_all-fails p v states e x in (s, v ∷ [], i, does, forbidden p s v e es)
  reach-fails p (seq qs) states e x =
      let (s, vs, i, r, f) = reach_all-fails p qs states e x in (s, vs, i, does_all r, f)
  reach-fails p (loop n b) states e x =
      let (s, vs, i, r, f) =
        rounds-fails p b (λ cur. reach p b cur) n states states e (λ xs x. reach-fails p b xs e x)
          (λ xs ys t y j. reach-Comes p b xs ys t y j) x in
      (s, vs, i, repeats r, f)
  reach-fails p (branch a b) states e x = elim (>>=-err (reach p a states) _ x) [
    | inl y ↦ let (s, vs, i, r, f) = reach-fails p a states e y in (s, vs, i, goes_left r, f)
    | inr (xs, ex, y) ↦ elim (>>=-err (reach p b states) _ y) [
      | inl z ↦ let (s, vs, i, r, f) = reach-fails p b states e z in (s, vs, i, goes_right r, f)
      | inr (ys, ey, z) ↦ cc z
    ]
  ]

  reach_all-fails :
      (p : Protocol) (qs : Plans) (states : List String) (e : Violation)
      → reach_all p qs states ≡ err e
      → Violates p (PathsOf qs) states
  reach_all-fails p end states e x = cc
  reach_all-fails p (q ⨾ qs) states e x = elim (>>=-err (reach p q states) _ x) [
    | inl y ↦
        let (s, vs, i, r, f) = reach-fails p q states e y in
        let (us, rs) = some_paths qs in (s, vs ++ us, i, follows r rs, Forbids-left p s vs us f)
    | inr (mid, em, y) ↦
        let (m, us, j, rs, f) = reach_all-fails p qs mid e y in
        let (s, vs, i, r, a) = reach-Comes p q states mid m em j in
        (s, vs ++ us, i, follows r rs, Forbids-right p s m vs us a f)
  ]

-- A plan that the static check refuses has a path that violates the protocol: no end state passes
-- the check of its sequence of verbs.
pub check_plan_complete :
    (p : Protocol) (plan : Plan) (e : Violation)
    → check_plan p plan ≡ err e
    → (vs : List String) × PathOf plan vs × ((t : String) → check_sequence p vs ≡ ok t → ⊥)
unfolding check_plan check_sequence
check_plan_complete p plan e x =
    let (s, vs, i, r, f) = reach-fails p plan (p.initial ∷ []) e x in
    (
      vs,
      r,
      λ t c.
          f t (subst (λ s. Allows p s vs t) (sym (only i)) (check_from-Allows p 0 p.initial vs c)),
    )
  where
    only : {s x : String} → In s (x ∷ []) → s ≡ x
    only (In.here q) = q
    only (In.there i) = elim i [ ]
