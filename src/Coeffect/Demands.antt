-- ===== src/Coeffect/Demands.antt =====
-- The demand of a plan (`Requires`, `demand_sum`, `demand_paths`, `admit_plan`,
-- crates/portos-rm/src/coeffect.rs): capabilities, services, and uses of each class of effects.
pub mod Paths
pub mod Bounds
use portos.Base.{
  ℕ, zero, suc, ◌+◌, ◌*◌, ◌≤◌, ◌≡◌, refl, sym, ◌∙◌, ap, subst, inl, inr, Bool, true, false, not,
  ◌&&◌, Option, none, some, List, [], ◌∷◌, String, string_discrete, if◌then◌else◌, arith,
  Bool-cases, Option-cases,
}
use Prim.Native.Nat.{max}
use portos.Base.Sets.{
  StringSet, empty, union, is_subset, Below, is_subset_iff, union_self, union-empty, union_comm,
}
use portos.Base.Sets.Meets.{intersection, difference, Below-intersection}
use portos.Coeffect.{Plan, seq, loop, branch, Plans, end, ◌⨾◌}
use portos.Coeffect.Budgets.{
  Budget, count_of, no_budget, merge as add, join as join_budgets, scale as scale_budget,
  first_exceeding, IsKeyed, count_of-merge, count_of-join, count_of-scale, merge-IsKeyed,
  join-IsKeyed, scale-IsKeyed, first_exceeding-none,
}

pub record Requires : Type 0 where
  pub caps : StringSet
  pub deps : StringSet
  pub uses : Budget

-- `Scalar::numeral` of `Flat`: a union of empty sets.
unfoldable pub flat_numeral : ℕ → StringSet
flat_numeral zero = empty
flat_numeral (suc n) = union (flat_numeral n) empty

-- `Flat::scale`.
unfoldable pub flat_scale : ℕ → StringSet → StringSet
unfolding flat_numeral
flat_scale n s = union (flat_numeral n) s

abbrev pub ign : Requires
ign = record { caps = empty; deps = empty; uses = no_budget }

unfoldable pub merge : Requires → Requires → Requires
merge a b = record {
  caps = union a.caps b.caps;
  deps = union a.deps b.deps;
  uses = add a.uses b.uses;
}

unfoldable pub scale : ℕ → Requires → Requires
unfolding flat_scale
scale n a = record {
  caps = flat_scale n a.caps;
  deps = flat_scale n a.deps;
  uses = scale_budget n a.uses;
}

unfoldable pub join : Requires → Requires → Requires
join a b = record {
  caps = union a.caps b.caps;
  deps = union a.deps b.deps;
  uses = join_budgets a.uses b.uses;
}

module _ (lookup : String → String → Requires) where
  -- All occurrences, with both arms of a branch.
  unfoldable mutual
    unfolding merge scale

    pub demand_sum : Plan → Requires
    demand_sum (Plan.verb h v) = lookup h v
    demand_sum (seq items) = sum_from ign items
    demand_sum (loop n body) = scale n (demand_sum body)
    demand_sum (branch a b) = merge (demand_sum a) (demand_sum b)

    pub sum_from : Requires → Plans → Requires
    sum_from acc end = acc
    sum_from acc (p ⨾ ps) = sum_from (merge acc (demand_sum p)) ps

  -- The greatest demand of a path, class by class.
  unfoldable mutual
    unfolding merge scale join

    pub demand_paths : Plan → Requires
    demand_paths (Plan.verb h v) = lookup h v
    demand_paths (seq items) = paths_from ign items
    demand_paths (loop n body) = scale n (demand_paths body)
    demand_paths (branch a b) = join (demand_paths a) (demand_paths b)

    pub paths_from : Requires → Plans → Requires
    paths_from acc end = acc
    paths_from acc (p ⨾ ps) = paths_from (merge acc (demand_paths p)) ps

pub data AdmitError : Type 0 where
  exceeds_ceiling unmet_dependency : StringSet → AdmitError
  over_budget : String → ℕ → ℕ → AdmitError

pub data Admitted : Type 0 where
  ok : Requires → Admitted
  err : AdmitError → Admitted

abbrev pub within_budget : Requires → Option (String × ℕ × ℕ) → Admitted
within_budget d none = Admitted.ok d
within_budget d (some (c, n, b)) = Admitted.err (AdmitError.over_budget c n b)

-- `ceiling`: the place's offers and the subject's grant.
abbrev pub ceiling : StringSet → StringSet → StringSet
ceiling offers grant = intersection offers grant

-- The three tests of `admit_plan`, on a demand.
unfoldable pub admit_demand : Requires → StringSet → StringSet → Budget → Admitted
admit_demand d top provides budget =
    if is_subset d.caps top
    then if is_subset d.deps provides
      then within_budget d (first_exceeding d.uses budget)
      else Admitted.err (AdmitError.unmet_dependency (difference d.deps provides))
    else Admitted.err (AdmitError.exceeds_ceiling (difference d.caps top))

unfoldable pub admit_plan :
    Plan → (String → String → Requires) → StringSet → StringSet → Budget → Admitted
unfolding admit_demand
admit_plan plan lookup top provides budget =
    admit_demand (demand_sum lookup plan) top provides budget
