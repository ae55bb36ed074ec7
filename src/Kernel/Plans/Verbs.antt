-- ===== src/Kernel/Plans/Verbs.antt =====
-- Names of verbs, `family::verb`, and the capabilities that a consent mints for each family
-- (`split_verb` in crates/portos-kernel/src/plans/admission.rs, and the loop over `by_family`).
use Prim.Native.Char.{Char, code}
use portos.Base.{
  ℕ, Bool, ◌&&◌, Option, none, some, List, [], ◌∷◌, ◌++◌, String, string_discrete, ◌==◌,
  if◌then◌else◌,
}
use portos.Base.Maps.{Map, get, put}

abbrev pub is_separator : Char → Char → Bool
is_separator c d = code c == b':' && code d == b':'

-- What stands before the first `::`.
unfoldable pub before_first : String → String
before_first String.[] = ""
before_first (String.◌∷◌ c String.[]) = String.◌∷◌ c String.[]
before_first (String.◌∷◌ c (String.◌∷◌ d s)) =
    if is_separator c d then "" else String.◌∷◌ c (before_first (String.◌∷◌ d s))

-- What stands after the last `::`, if there is one.
unfoldable pub after_last : String → Option String
after_last String.[] = none
after_last (String.◌∷◌ c String.[]) = none
after_last (String.◌∷◌ c (String.◌∷◌ d s)) = elim (after_last (String.◌∷◌ d s)) [
  | some t ↦ some t
  | none ↦ if is_separator c d then some s else none
]

unfoldable pub split_verb : String → String × String
unfolding before_first after_last
split_verb verb = (before_first verb, elim (after_last verb) [ some t ↦ t | none ↦ verb ])

-- The verbs of a family with their counts: `entry(family).or_default()`.
abbrev pub Family : Type 0
Family = List String × Map String ℕ

abbrev pub or_default : Option Family → Family
or_default none = ([], [])
or_default (some f) = f

unfoldable pub by_family : Map String ℕ → Map String Family → Map String Family
by_family [] m = m
by_family ((verb, n) ∷ budget) m =
    let (family, short) = split_verb verb in
    let (verbs, counts) = or_default (get string_discrete family m) in
    by_family budget
      (put string_discrete family (verbs ++ short ∷ [], put string_discrete short n counts) m)
