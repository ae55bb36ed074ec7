-- ===== src/Base/Sets/Meets.antt =====
-- Intersections and differences of sets of texts.
use Prim.Native.String.{String}
use mathlib.Core.Path.{◌≡◌, refl}
use mathlib.Core.Logic.{◌↔◌}
use mathlib.Core.Bool.{Bool, not, ◌&&◌, Bool-set}
use mathlib.Core.List.{List, [], ◌∷◌}
use mathlib.Core.Quot
use mathlib.Core.Quot.{Quot, Quot-set}
use native.Mathlib.Omega.{arith}
use portos.Base.Lists.{filter}
use portos.Base.Sets.{StringSet, has, contains, of_list, Below}

pub has-filter :
    (p : String → Bool) (a : String) (xs : List String) → has a (filter p xs) ≡ (has a xs && p a)
has-filter p a [] = refl
has-filter p a (x ∷ xs) = ground (arith, has-filter p a xs)

-- The elements that pass a test.
unfoldable pub restrict : (String → Bool) → StringSet → StringSet
restrict p =
    Quot.lift Quot-set (λ xs. of_list (filter p xs))
      (λ xs ys h. Quot.sound (λ a. rw (has-filter p a xs, has-filter p a ys, h a) refl))

pub contains-restrict :
    (p : String → Bool) (a : String) (s : StringSet)
    → contains a (restrict p s) ≡ (contains a s && p a)
unfolding contains restrict
contains-restrict p a s =
    Quot.ind {β = λ s. contains a (restrict p s) ≡ (contains a s && p a)} (λ s. Bool-set _ _)
      (λ xs. has-filter p a xs) s

-- `BTreeSet::intersection` and `BTreeSet::difference`.
unfoldable pub intersection : StringSet → StringSet → StringSet
intersection s t = restrict (λ a. contains a t) s

unfoldable pub difference : StringSet → StringSet → StringSet
difference s t = restrict (λ a. not (contains a t)) s

-- What lies in an intersection lies in both sets.
pub Below-intersection : (s t u : StringSet) → Below s (intersection t u) ↔ (Below s t × Below s u)
unfolding intersection
Below-intersection s t u = (
  λ f. (
    λ a h. ground (arith, f a h, contains-restrict (λ a. contains a u) a t),
    λ a h. ground (arith, f a h, contains-restrict (λ a. contains a u) a t),
  ),
  λ (f, g) a h. ground (arith, f a h, g a h, contains-restrict (λ a. contains a u) a t),
)
