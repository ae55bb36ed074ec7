-- ===== src/Examples/Protocols.antt =====
-- A protocol of a file, open then send then close, and plans that keep and break it.
use portos.Base.{◌≡◌, refl, not, none, List, [], ◌∷◌, ◌++◌, String, In, string_discrete, filter}
use portos.Base.Maps.{get}
use portos.Base.Sets.{StringSet, of_list, contains}
use portos.Coeffect.{Plan, seq, loop, end, ◌⨾◌}
use portos.Protocol.{
  Protocol, Transition-discrete, ok, err, step, step_all, rounds, reach, check_plan, check_from,
  check_sequence, project, check_plan_world_order,
}
use portos.Protocol.Paths.{PathOf, does, does_all, repeats, ends, follows, leaves, again}
use portos.Protocol.WorldOrder.{check_plan_sound, check_plan_world_order_sound}
use portos.Protocol.Refusals.{check_plan_complete}

abbrev file : Protocol
file = record {
  initial = "closed";
  transitions =
      (record { state = "closed"; verb = "open" }, "open")
      ∷ (record { state = "open"; verb = "send" }, "open")
      ∷ (record { state = "open"; verb = "close" }, "closed")
      ∷ [];
  scoped = of_list ("open" ∷ "send" ∷ "close" ∷ []);
}

abbrev good : Plan
good =
    seq
      (Plan.verb "file" "open" ⨾ loop 2 (Plan.verb "file" "send") ⨾ Plan.verb "file" "close" ⨾ end)

good_out : check_plan file good ≡ ok ("closed" ∷ "closed" ∷ "closed" ∷ [])
unfolding check_plan reach rounds step_all step Transition-discrete string_discrete get contains
good_out = refl

good_path : PathOf good (("open" ∷ []) ++ ((("send" ∷ []) ++ []) ++ (("close" ∷ []) ++ [])))
good_path = does_all (follows does (follows (repeats (again does leaves)) (follows does ends)))

check_plan_sound_example :
    (t : String) × (check_sequence file ("open" ∷ "send" ∷ "close" ∷ []) ≡ ok t)
    × In t ("closed" ∷ "closed" ∷ "closed" ∷ [])
check_plan_sound_example =
    check_plan_sound file good ("closed" ∷ "closed" ∷ "closed" ∷ []) _ good_out good_path

abbrev bad : Plan
bad = seq (Plan.verb "file" "close" ⨾ end)

bad_out : check_plan file bad ≡ err (record { verb = "close"; state = "closed"; at = none })
unfolding check_plan reach rounds step_all step Transition-discrete string_discrete get contains
bad_out = refl

check_plan_complete_example :
    (vs : List String) × PathOf bad vs × ((t : String) → check_sequence file vs ≡ ok t → ⊥)
check_plan_complete_example = check_plan_complete file bad _ bad_out

-- The plan opens, sends and closes; the send and the close are withheld.
abbrev withheld : StringSet
withheld = of_list ("send" ∷ "close" ∷ [])

world_out :
    check_plan_world_order file good withheld
    ≡ ok (
        "closed" ∷ "closed" ∷ "closed" ∷ "closed" ∷ "closed" ∷ "closed" ∷ "closed" ∷ "closed"
        ∷ "closed" ∷ [])
unfolding check_plan_world_order project check_plan reach rounds step_all step Transition-discrete
    string_discrete get contains
world_out = refl

open_close : check_sequence file (("open" ∷ []) ++ ("send" ∷ [])) ≡ ok "open"
unfolding check_sequence check_from step Transition-discrete string_discrete get contains
open_close = refl

check_plan_world_order_sound_example :
    (t : String) × (check_sequence file (
        filter (λ v. not (contains v withheld)) ("open" ∷ "send" ∷ "close" ∷ [])
        ++ filter (λ v. contains v withheld) ("open" ∷ "send" ∷ "close" ∷ []))
      ≡ ok t)
    × In t (
        "closed" ∷ "closed" ∷ "closed" ∷ "closed" ∷ "closed" ∷ "closed" ∷ "closed" ∷ "closed"
        ∷ "closed" ∷ [])
check_plan_world_order_sound_example =
    check_plan_world_order_sound file good withheld _ _ world_out good_path
