-- ===== src/Examples/Demands.antt =====
-- The demand of a plan with a loop and a branch.
use portos.Base.{◌+◌, ◌≤◌, ◌≡◌, refl, true, [], ◌∷◌, String, string_discrete}
use portos.Base.Maps.{get}
use portos.Base.Sets.{of_list, contains, union, union_right, empty, is_subset, all_in}
use portos.Coeffect.{Plan, loop}
use portos.Coeffect.Budgets.{count_of, scale as scale_budget, scaled, normalized, first_exceeding}
use portos.Coeffect.Demands.{
  Requires, Admitted, scale, flat_scale, flat_numeral, demand_sum, demand_paths, admit_plan,
  admit_demand,
}
use portos.Coeffect.Demands.Paths.{AllKeyed, Spends, again, leaves}
use portos.Coeffect.Demands.Bounds.{
  demand_paths_bounds, demand_paths_is_attained, admit_plan_is_sound,
}

-- Each verb is of the class of its name.
abbrev table : String → String → Requires
table h v = record { caps = of_list ("web" ∷ []); deps = empty; uses = (v, 1) ∷ [] }

table-IsKeyed : AllKeyed table
unfolding get
table-IsKeyed h v = (refl, tt)

abbrev clicks : Plan
clicks = loop 3 (Plan.verb "web" "click")

one_click : Spends table "click" (Plan.verb "web" "click") 1
unfolding count_of get string_discrete
one_click = Spends.does

three_clicks : Spends table "click" clicks (1 + (1 + (1 + 0)))
three_clicks = Spends.repeats (again one_click (again one_click (again one_click leaves)))

demand_paths_bounds_example : 1 + (1 + (1 + 0)) ≤ count_of "click" (demand_paths table clicks).uses
demand_paths_bounds_example = demand_paths_bounds table table-IsKeyed clicks "click" _ three_clicks

demand_paths_is_attained_example :
    Spends table "click" clicks (count_of "click" (demand_paths table clicks).uses)
demand_paths_is_attained_example = demand_paths_is_attained table table-IsKeyed clicks "click"

clicks_are_admitted :
    admit_plan clicks table (of_list ("web" ∷ [])) empty (("click", 4) ∷ [])
    ≡ Admitted.ok (demand_sum table clicks)
unfolding admit_plan admit_demand demand_sum scale flat_scale flat_numeral scale_budget scaled
    normalized first_exceeding count_of get is_subset all_in contains union union_right
    string_discrete
clicks_are_admitted = refl

admit_plan_is_sound_example :
    (1 + (1 + (1 + 0)) ≤ count_of "click" (("click", 4) ∷ []))
    × (is_subset (demand_sum table clicks).caps (of_list ("web" ∷ [])) ≡ true)
    × (is_subset (demand_sum table clicks).deps empty ≡ true)
admit_plan_is_sound_example =
    admit_plan_is_sound table table-IsKeyed clicks (of_list ("web" ∷ [])) empty (("click", 4) ∷ [])
      (demand_sum table clicks) "click" _ clicks_are_admitted three_clicks
