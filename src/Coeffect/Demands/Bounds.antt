-- ===== src/Coeffect/Demands/Bounds.antt =====
-- What the two evaluations of a plan say of its paths, and what the admission of a plan grants.
use portos.Base.{
  ℕ, ◌+◌, ◌*◌, ◌≤◌, ◌≡◌, ◌↔◌, refl, sym, ◌∙◌, ap, ap₂, subst, inl, inr, true, Option, none, some,
  String, arith, Bool-cases,
}
use Prim.Native.Nat.{max}
use portos.Base.Maps.{get}
use portos.Base.Sets.{StringSet, is_subset, is_subset_iff}
use portos.Base.Sets.Meets.{Below-intersection}
use portos.Coeffect.{Plan, seq, loop, branch, Plans, end, ◌⨾◌}
use portos.Coeffect.Budgets.{
  Budget, count_of, first_exceeding, IsKeyed, count_of-merge, count_of-join, count_of-scale,
  merge-IsKeyed, join-IsKeyed, scale-IsKeyed, first_exceeding-none,
}
use portos.Coeffect.Demands.{
  Requires, ign, merge, scale, join, demand_sum, sum_from, demand_paths, paths_from, Admitted,
  within_budget, ceiling, admit_plan, admit_demand,
}
use portos.Coeffect.Demands.Paths.{
  AllKeyed, Spends, worst, worst_all, total, total_all, worst-le-total, Spends-worst, worst-Spends,
}

merge-uses-IsKeyed : (a b : Requires) → IsKeyed a.uses → IsKeyed (merge a b).uses
unfolding merge
merge-uses-IsKeyed a b h = merge-IsKeyed a.uses b.uses h

merge-count :
    (c : String) (a b : Requires)
    → IsKeyed a.uses
    → IsKeyed b.uses
    → count_of c (merge a b).uses ≡ count_of c a.uses + count_of c b.uses
unfolding merge
merge-count c a b h i = count_of-merge c a.uses b.uses h i

join-uses-IsKeyed : (a b : Requires) → IsKeyed a.uses → IsKeyed (join a b).uses
unfolding join
join-uses-IsKeyed a b h = join-IsKeyed a.uses b.uses h

join-count :
    (c : String) (a b : Requires)
    → IsKeyed a.uses
    → IsKeyed b.uses
    → count_of c (join a b).uses ≡ max (count_of c a.uses) (count_of c b.uses)
unfolding join
join-count c a b h i = count_of-join c a.uses b.uses h i

scale-uses-IsKeyed : (k : ℕ) (a : Requires) → IsKeyed a.uses → IsKeyed (scale k a).uses
unfolding scale
scale-uses-IsKeyed k a h = scale-IsKeyed k a.uses h

scale-count :
    (c : String) (k : ℕ) (a : Requires)
    → IsKeyed a.uses
    → count_of c (scale k a).uses ≡ k * count_of c a.uses
unfolding scale
scale-count c k a h = count_of-scale c k a.uses h

ign-count : (c : String) → count_of c ign.uses ≡ 0
unfolding count_of get
ign-count c = refl

within_budget-ok :
    (d r : Requires) (x : Option (String × ℕ × ℕ))
    → within_budget d x ≡ Admitted.ok r
    → (d ≡ r) × (x ≡ none)
within_budget-ok d r none e = (cc e, refl)
within_budget-ok d r (some (c, n, b)) e = cc

admit_demand-facts :
    (d r : Requires) (top provides : StringSet) (budget : Budget)
    → admit_demand d top provides budget ≡ Admitted.ok r
    → (d ≡ r)
      × (is_subset r.caps top ≡ true)
      × (is_subset r.deps provides ≡ true)
      × (first_exceeding r.uses budget ≡ none)
unfolding admit_demand
admit_demand-facts d r top provides budget e = elim (Bool-cases (is_subset d.caps top)) [
  | inr a ↦ cc (rw a at e)
  | inl a ↦ elim (Bool-cases (is_subset d.deps provides)) [
    | inr b ↦ cc (rw (a, b) at e)
    | inl b ↦
        let (q, x) = within_budget-ok d r (first_exceeding d.uses budget) (rw (a, b) at e) in
        (
          q,
          subst (λ (r : Requires). is_subset r.caps top ≡ true) q a,
          subst (λ (r : Requires). is_subset r.deps provides ≡ true) q b,
          subst (λ (r : Requires). first_exceeding r.uses budget ≡ none) q x,
        )
  ]
]

-- Being within the ceiling is being within the offers of the place and within the grant of the
-- subject.
pub ceiling_iff :
    (s offers grant : StringSet)
    → (is_subset s (ceiling offers grant) ≡ true)
      ↔ ((is_subset s offers ≡ true) × (is_subset s grant ≡ true))
ceiling_iff s offers grant = (
  λ h.
      let (f, g) =
        (Below-intersection s offers grant).0 ((is_subset_iff s (ceiling offers grant)).0 h) in
      ((is_subset_iff s offers).1 f, (is_subset_iff s grant).1 g),
  λ (p, q). (is_subset_iff s (ceiling offers grant)).1 (
      (Below-intersection s offers grant).1
        ((is_subset_iff s offers).0 p, (is_subset_iff s grant).0 q)),
)

module _ (lookup : String → String → Requires) (keyed : AllKeyed lookup) where
  mutual
    unfolding demand_sum sum_from total total_all

    demand_sum-count :
        (q : Plan)
        → IsKeyed (demand_sum lookup q).uses
          × ((c : String) → count_of c (demand_sum lookup q).uses ≡ total lookup c q)
    demand_sum-count (Plan.verb h v) = (keyed h v, λ c. refl)
    demand_sum-count (seq qs) =
        let (h, f) = sum_from-count ign qs tt in (h, λ c. omega (arith, f c, ign-count c))
    demand_sum-count (loop k b) =
        let (h, f) = demand_sum-count b in
        (
          scale-uses-IsKeyed k (demand_sum lookup b) h,
          λ c. scale-count c k (demand_sum lookup b) h ∙ ap (λ n. k * n) (f c),
        )
    demand_sum-count (branch a b) =
        let (h, f) = demand_sum-count a in
        let (i, g) = demand_sum-count b in
        (
          merge-uses-IsKeyed (demand_sum lookup a) (demand_sum lookup b) h,
          λ c.
              merge-count c (demand_sum lookup a) (demand_sum lookup b) h i
              ∙ ap₂ (λ a b. a + b) (f c) (g c),
        )

    sum_from-count :
        (r : Requires) (qs : Plans)
        → IsKeyed r.uses
        → IsKeyed (sum_from lookup r qs).uses
          × ((c : String)
              → count_of c (sum_from lookup r qs).uses ≡ count_of c r.uses + total_all lookup c qs)
    sum_from-count r end h = (h, λ c. omega arith)
    sum_from-count r (q ⨾ qs) h =
        let (i, f) = demand_sum-count q in
        let (j, g) =
          sum_from-count (merge r (demand_sum lookup q)) qs
            (merge-uses-IsKeyed r (demand_sum lookup q) h) in
        (j, λ c. omega (arith, f c, g c, merge-count c r (demand_sum lookup q) h i))

  mutual
    unfolding demand_paths paths_from worst worst_all

    demand_paths-count :
        (q : Plan)
        → IsKeyed (demand_paths lookup q).uses
          × ((c : String) → count_of c (demand_paths lookup q).uses ≡ worst lookup c q)
    demand_paths-count (Plan.verb h v) = (keyed h v, λ c. refl)
    demand_paths-count (seq qs) =
        let (h, f) = paths_from-count ign qs tt in (h, λ c. omega (arith, f c, ign-count c))
    demand_paths-count (loop k b) =
        let (h, f) = demand_paths-count b in
        (
          scale-uses-IsKeyed k (demand_paths lookup b) h,
          λ c. scale-count c k (demand_paths lookup b) h ∙ ap (λ n. k * n) (f c),
        )
    demand_paths-count (branch a b) =
        let (h, f) = demand_paths-count a in
        let (i, g) = demand_paths-count b in
        (
          join-uses-IsKeyed (demand_paths lookup a) (demand_paths lookup b) h,
          λ c.
              join-count c (demand_paths lookup a) (demand_paths lookup b) h i
              ∙ ap₂ max (f c) (g c),
        )

    paths_from-count :
        (r : Requires) (qs : Plans)
        → IsKeyed r.uses
        → IsKeyed (paths_from lookup r qs).uses
          × ((c : String)
              → count_of c (paths_from lookup r qs).uses
                ≡ count_of c r.uses + worst_all lookup c qs)
    paths_from-count r end h = (h, λ c. omega arith)
    paths_from-count r (q ⨾ qs) h =
        let (i, f) = demand_paths-count q in
        let (j, g) =
          paths_from-count (merge r (demand_paths lookup q)) qs
            (merge-uses-IsKeyed r (demand_paths lookup q) h) in
        (j, λ c. omega (arith, f c, g c, merge-count c r (demand_paths lookup q) h i))

  -- No path of a plan uses more of a class of effects than the evaluation by paths says.
  pub demand_paths_bounds :
      (plan : Plan) (c : String) (n : ℕ)
      → Spends lookup c plan n
      → n ≤ count_of c (demand_paths lookup plan).uses
  demand_paths_bounds plan c n s =
      let (_, f) = demand_paths-count plan in omega (arith, f c, Spends-worst lookup c s)

  -- Some path of a plan uses as much of a class of effects as the evaluation by paths says.
  pub demand_paths_is_attained :
      (plan : Plan) (c : String) → Spends lookup c plan (count_of c (demand_paths lookup plan).uses)
  demand_paths_is_attained plan c =
      let (_, f) = demand_paths-count plan in
      subst (Spends lookup c plan) (sym (f c)) (worst-Spends lookup c plan)

  -- The sum of all occurrences is at least the exact demand, for each class of effects.
  pub demand_paths-le-demand_sum :
      (plan : Plan) (c : String)
      → count_of c (demand_paths lookup plan).uses ≤ count_of c (demand_sum lookup plan).uses
  demand_paths-le-demand_sum plan c =
      let (_, f) = demand_paths-count plan in
      let (_, g) = demand_sum-count plan in omega (arith, f c, g c, worst-le-total lookup c plan)

  -- A plan that is admitted stays within its consent: no path uses more of a class of effects than the
  -- budget has, and all that the plan demands lies within the ceiling and within what is provided.
  pub admit_plan_is_sound :
      (plan : Plan) (top provides : StringSet) (budget : Budget) (d : Requires) (c : String) (n : ℕ)
      → admit_plan plan lookup top provides budget ≡ Admitted.ok d
      → Spends lookup c plan n
      → (n ≤ count_of c budget)
        × (is_subset (demand_sum lookup plan).caps top ≡ true)
        × (is_subset (demand_sum lookup plan).deps provides ≡ true)
  unfolding admit_plan
  admit_plan_is_sound plan top provides budget d c n e s =
      let (q, caps, deps, x) =
        admit_demand-facts (demand_sum lookup plan) d top provides budget e in
      let (_, g) = demand_sum-count plan in
      let same : count_of c (demand_sum lookup plan).uses ≡ count_of c d.uses =
        ap (λ (d : Requires). count_of c d.uses) q in
      (
        omega (
          arith,
          g c,
          same,
          Spends-worst lookup c s,
          worst-le-total lookup c plan,
          first_exceeding-none c d.uses budget x,
        ),
        subst (λ (r : Requires). is_subset r.caps top ≡ true) (sym q) caps,
        subst (λ (r : Requires). is_subset r.deps provides ≡ true) (sym q) deps,
      )
