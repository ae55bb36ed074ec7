-- ===== src/Base/Sets.antt =====
-- Finite sets of texts (`BTreeSet<String>`). A set is a list up to membership, so that equality of
-- sets does not see order or repetition; the operations are used through their laws.
pub mod Meets
use Prim.Native.String.{String}
use mathlib.Core.Path.{◌≡◌, refl, sym, ap, ◌∙◌}
use mathlib.Core.Logic.{◌↔◌, ◌⊎◌, inl, inr}
use mathlib.Core.Bool.{Bool, true, false, ◌||◌, Bool-set}
use mathlib.Core.List.{List, [], ◌∷◌, ◌++◌}
use mathlib.Core.HLevel.{Π_prop, ×_prop}
use mathlib.Core.Quot
use mathlib.Core.Quot.{Quot, Quot-set}
use native.Mathlib.Omega.{arith}
use portos.Base.Tests.{test, →test, string_discrete, Bool-ext}
use portos.Base.Lists.{any, all, any-append}

abbrev pub has : String → List String → Bool
has a = any λ b. test (string_discrete a b)

abbrev pub SameElements : List String → List String → Type 0
SameElements xs ys = (a : String) → has a xs ≡ has a ys

abbrev pub StringSet : Type 0
StringSet = Quot SameElements

pub StringSet-set : IsSet StringSet
StringSet-set = Quot-set

unfoldable pub contains : String → StringSet → Bool
contains a = Quot.lift Bool-set (has a) (λ xs ys h. h a)

abbrev pub of_list : List String → StringSet
of_list xs = Quot.mk xs

abbrev pub empty : StringSet
empty = of_list []

pub has-append : (a : String) (xs ys : List String) → has a (xs ++ ys) ≡ (has a xs || has a ys)
has-append a xs ys = any-append _ xs ys

-- `BTreeSet::union`, one argument at a time.
unfoldable pub union_right : List String → StringSet → StringSet
union_right xs =
    Quot.lift Quot-set (λ ys. of_list (xs ++ ys))
      (λ ys zs h. Quot.sound (λ a. rw (has-append a xs ys, has-append a xs zs, h a)))

-- The proof that a quotient's elements determine it.
pub contains-ext : (s t : StringSet) → ((a : String) → contains a s ≡ contains a t) → s ≡ t
unfolding contains
contains-ext =
    Quot.ind (λ s. Π_prop λ t. Π_prop λ h. Quot-set s t)
      λ xs. Quot.ind (λ t. Π_prop λ h. Quot-set _ t) λ ys h. Quot.sound h

pub contains-union_right :
    (a : String) (xs : List String) (t : StringSet)
    → contains a (union_right xs t) ≡ (has a xs || contains a t)
unfolding contains union_right
contains-union_right a xs = Quot.ind (λ t. Bool-set _ _) (λ ys. has-append a xs ys)

unfoldable pub union : StringSet → StringSet → StringSet
unfolding union_right
union s t =
    Quot.lift Quot-set (λ xs. union_right xs t)
      (λ xs ys h. contains-ext _ _ (λ a.
        contains-union_right a xs t
        ∙ ap (λ b. b || contains a t) (h a)
        ∙ sym (contains-union_right a ys t)))
      s

pub contains-union :
    (a : String) (s t : StringSet) → contains a (union s t) ≡ (contains a s || contains a t)
unfolding contains union
contains-union a s t =
    Quot.ind {β = λ s. contains a (union s t) ≡ (contains a s || contains a t)} (λ s. Bool-set _ _)
      (λ xs. contains-union_right a xs t) s

pub contains-of_list : (a : String) (xs : List String) → contains a (of_list xs) ≡ has a xs
unfolding contains
contains-of_list a xs = refl

pub has_self : (a : String) (xs : List String) → has a (a ∷ xs) ≡ true
has_self a xs = rw (→test (string_discrete a a) refl)

-- `BTreeSet::insert`.
unfoldable pub insert : String → StringSet → StringSet
insert a s = union (of_list (a ∷ [])) s

-- `is_subset`: every element of the first set is in the second.
unfoldable pub all_in : List String → StringSet → Bool
all_in xs t = all (λ a. contains a t) xs

has-cons : (a x : String) (xs : List String) → has a (x ∷ xs) ≡ true → (a ≡ x) ⊎ (has a xs ≡ true)
has-cons a x xs h =
    elim (string_discrete a x) as (λ d. (test d || has a xs) ≡ true → (a ≡ x) ⊎ (has a xs ≡ true)) [
      | yes p ↦ λ _. inl p
      | no p ↦ λ q. inr q
    ]
      h

has_tail : (a x : String) (xs : List String) → has a xs ≡ true → has a (x ∷ xs) ≡ true
has_tail a x xs h = rw h (ground arith)

pub all_in_sound :
    (xs : List String) (t : StringSet)
    → all_in xs t ≡ true
    → (a : String) → has a xs ≡ true
    → contains a t ≡ true
unfolding all_in
all_in_sound [] t h a e = cc
all_in_sound (x ∷ xs) t h a e = elim (has-cons a x xs e) [
  | inl p ↦ rw p (ground arith)
  | inr q ↦ all_in_sound xs t (ground arith) a q
]

pub all_in_complete :
    (xs : List String) (t : StringSet)
    → ((a : String) → has a xs ≡ true → contains a t ≡ true)
    → all_in xs t ≡ true
unfolding all_in
all_in_complete [] t h = refl
all_in_complete (x ∷ xs) t h =
    ground (arith, h x (has_self x xs), all_in_complete xs t (λ a e. h a (has_tail a x xs e)))

pub all_in-resp :
    (xs ys : List String) (t : StringSet) → SameElements xs ys → all_in xs t ≡ all_in ys t
all_in-resp xs ys t h =
    Bool-ext _ _ (λ e. all_in_complete ys t (λ a m. all_in_sound xs t e a (rw (h a) m)))
      (λ e. all_in_complete xs t (λ a m. all_in_sound ys t e a (rw (← h a) m)))

unfoldable pub is_subset : StringSet → StringSet → Bool
unfolding all_in
is_subset s t = Quot.lift Bool-set (λ xs. all_in xs t) (λ xs ys h. all_in-resp xs ys t h) s

unfoldable pub is_empty : StringSet → Bool
is_empty s = is_subset s empty

abbrev pub Below : StringSet → StringSet → Type 0
Below s t = (a : String) → contains a s ≡ true → contains a t ≡ true

pub is_subset_iff : (s t : StringSet) → (is_subset s t ≡ true) ↔ Below s t
unfolding is_subset contains all_in
is_subset_iff s t =
    Quot.ind {β = λ s. (is_subset s t ≡ true) ↔ Below s t}
      (λ s. ×_prop (Π_prop λ _. Π_prop λ _. Π_prop λ _. Bool-set _ _) (Π_prop λ _. Bool-set _ _))
      (λ xs. (all_in_sound xs t, all_in_complete xs t)) s

pub contains-empty : (a : String) → contains a empty ≡ false
contains-empty a = contains-of_list a []

pub contains-insert :
    (a b : String) (s : StringSet)
    → contains a (insert b s) ≡ (test (string_discrete a b) || contains a s)
unfolding insert
contains-insert a b s =
    contains-union a (of_list (b ∷ [])) s ∙ rw (contains-of_list a (b ∷ [])) (ground arith)

pub contains-insert_self : (a : String) (s : StringSet) → contains a (insert a s) ≡ true
contains-insert_self a s = rw (contains-insert a a s, →test (string_discrete a a) refl)

pub union_comm : (s t : StringSet) → union s t ≡ union t s
union_comm s t =
    contains-ext _ _ λ a. rw (contains-union a s t, contains-union a t s) (ground arith)

pub union_assoc : (s t u : StringSet) → union (union s t) u ≡ union s (union t u)
union_assoc s t u = contains-ext _ _ λ a. simp contains-union (ground arith)

pub union_self : (s : StringSet) → union s s ≡ s
union_self s = contains-ext _ _ λ a. simp contains-union (ground arith)

pub union-empty : (s : StringSet) → union s empty ≡ s
union-empty s = contains-ext _ _ λ a. simp (contains-union, contains-empty) (ground arith)

pub Below-union_left : (s t : StringSet) → Below s (union s t)
Below-union_left s t a h = rw (contains-union a s t, h)

pub Below-union_right : (s t : StringSet) → Below t (union s t)
Below-union_right s t a h = rw (contains-union a s t, h) (ground arith)

pub union-Below : (s t u : StringSet) → Below s u → Below t u → Below (union s t) u
union-Below s t u f g a h = ground (arith, contains-union a s t, f a, g a)

pub Below-antisym : (s t : StringSet) → Below s t → Below t s → s ≡ t
Below-antisym s t f g = contains-ext s t λ a. Bool-ext _ _ (f a) (g a)

-- A set contained in another is absorbed by it.
pub union_of_Below : (s t : StringSet) → Below s t → union s t ≡ t
union_of_Below s t f = Below-antisym _ _ (union-Below s t t f (λ a h. h)) (Below-union_right s t)

pub not_in_empty : (a : String) → contains a empty ≡ true → ⊥
not_in_empty a e = cc (contains-empty a)

pub is_empty_iff : (s : StringSet) → (is_empty s ≡ true) ↔ (s ≡ empty)
unfolding is_empty
is_empty_iff s = (
  λ h. Below-antisym _ _ ((is_subset_iff s empty).0 h) (λ a e. absurd (not_in_empty a e)),
  λ h. rw h ((is_subset_iff empty empty).1 (λ a e. e)),
)
