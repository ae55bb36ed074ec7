-- ===== src/Ra/Ranges/Points.antt =====
-- How many spans of a list cover a point. Sorting and merging keep these numbers, and merging
-- fails exactly where some point is covered twice.
use portos.Base.{
  ℕ, suc, ◌+◌, ◌≤◌, ◌<◌, ◌≡◌, refl, subst, ◌∙◌, true, false, ◌&&◌, ◌⊎◌, inl, inr, Option, none,
  some, List, [], ◌∷◌, ◌++◌, arith, ltb, leb, ◌==◌, if◌then◌else◌, All,
}
use portos.Ra.Ranges.{Span, insert, sort, coalesce, merge_sorted, normalize, IsNormalFrom}

abbrev pub hit : ℕ → ℕ → ℕ → ℕ
hit p a b = if leb a p && ltb p b then 1 else 0

abbrev pub cover : ℕ → List Span → ℕ
cover p [] = 0
cover p ((a, b) ∷ r) = hit p a b + cover p r

pub cover-append : (p : ℕ) (xs ys : List Span) → cover p (xs ++ ys) ≡ cover p xs + cover p ys
cover-append p [] ys = omega arith
cover-append p ((a, b) ∷ xs) ys = omega (arith, cover-append p xs ys)

cover-insert : (p a b : ℕ) (r : List Span) → cover p (insert (a, b) r) ≡ hit p a b + cover p r
unfolding insert
cover-insert p a b [] = refl
cover-insert p a b ((c, d) ∷ r) = ground (arith, cover-insert p a b r)

pub cover-sort : (p : ℕ) (v : List Span) → cover p (sort v) ≡ cover p v
unfolding sort
cover-sort p [] = refl
cover-sort p ((a, b) ∷ v) = omega (arith, cover-insert p a b (sort v), cover-sort p v)

abbrev pub IsNonempty : Span → Type 0
IsNonempty (a, b) = a < b

-- Starts rise from `m`, and no span is empty.
abbrev RisesFrom : ℕ → List Span → Type 0
RisesFrom m [] = Unit
RisesFrom m ((a, b) ∷ r) = (m ≤ a) × (a < b) × RisesFrom a r

RisesFrom-mono : (m n : ℕ) (r : List Span) → n ≤ m → RisesFrom m r → RisesFrom n r
RisesFrom-mono m n [] l h = tt
RisesFrom-mono m n ((a, b) ∷ r) l h = (omega arith, h.1, h.2)

insert-RisesFrom :
    (m a b : ℕ) (r : List Span) → m ≤ a → a < b → RisesFrom m r → RisesFrom m (insert (a, b) r)
unfolding insert
insert-RisesFrom m a b [] l n h = (l, n, tt)
insert-RisesFrom m a b ((c, d) ∷ r) l n h = ground (arith, insert-RisesFrom c a b r, h.2)

sort-RisesFrom : (v : List Span) → All IsNonempty v → RisesFrom 0 (sort v)
unfolding sort
sort-RisesFrom [] h = tt
sort-RisesFrom ((a, b) ∷ v) h =
    insert-RisesFrom 0 a b (sort v) (omega arith) h.0 (sort-RisesFrom v h.1)

pub IsNormalFrom-mono : (m n : ℕ) (xs : List Span) → n ≤ m → IsNormalFrom m xs → IsNormalFrom n xs
IsNormalFrom-mono m n [] l h = tt
IsNormalFrom-mono m n ((a, b) ∷ xs) l h = (omega arith, h.1, h.2)

-- What merging a sorted list gives.
abbrev pub Outcome : (ℕ → ℕ) → ℕ → Option (List Span) → Type 0
Outcome f m none = (p : ℕ) × (2 ≤ f p)
Outcome f m (some out) = IsNormalFrom m out × ((p : ℕ) → cover p out ≡ f p)

merged-Outcome :
    (a b d : ℕ) (r : List Span) (o : Option (List Span))
    → a < b
    → b < d
    → Outcome (λ p. hit p a d + cover p r) a o
    → Outcome (λ p. hit p a b + (hit p b d + cover p r)) a o
merged-Outcome a b d r none l n h = (h.0, ground (arith, h.1))
merged-Outcome a b d r (some out) l n h = (h.0, λ p. ground (arith, h.1 p))

abbrev push : ℕ → ℕ → Option (List Span) → Option (List Span)
push a b none = none
push a b (some out) = some ((a, b) ∷ out)

pushed-Outcome :
    (a b c : ℕ) (f : ℕ → ℕ) (o : Option (List Span))
    → a < b
    → b < c
    → Outcome f c o
    → Outcome (λ p. hit p a b + f p) a (push a b o)
pushed-Outcome a b c f none l n h = (h.0, omega (arith, h.1))
pushed-Outcome a b c f (some out) l n h =
    ((omega arith, l, IsNormalFrom-mono c (suc b) out n h.0), λ p. omega (arith, h.1 p))

coalesce_step :
    (a b c d : ℕ) (r : List Span)
    → a ≤ c
    → a < b
    → c < d
    → Outcome (λ p. hit p a d + cover p r) a (coalesce a d r)
    → Outcome (λ p. hit p c d + cover p r) c (coalesce c d r)
    → Outcome (λ p. hit p a b + (hit p c d + cover p r)) a (coalesce a b ((c, d) ∷ r))
unfolding coalesce
coalesce_step a b c d r s l n hm hp = elim (order c b) [
  | inl less ↦ rw less.0 (c, ground arith)
  | inr (inl same) ↦
      rw (same.0, same.1)
        (subst (λ b. Outcome (λ p. hit p a b + (hit p c d + cover p r)) a (coalesce a d r)) same.2
          (merged-Outcome a c d r (coalesce a d r) (omega arith) n hm))
  | inr (inr more) ↦
      rw (more.0, more.1)
        (pushed-Outcome a b c (λ p. hit p c d + cover p r) (coalesce c d r) l more.2 hp)
]
  where
    order :
        (c b : ℕ)
        → ((ltb c b ≡ true) × (c < b))
          ⊎ ((ltb c b ≡ false) × ((c == b) ≡ true) × (c ≡ b)
              ⊎ ((ltb c b ≡ false) × ((c == b) ≡ false) × (b < c)))
    order c b = ground arith

coalesce-Outcome :
    (a b : ℕ) (r : List Span)
    → a < b
    → RisesFrom a r
    → Outcome (λ p. hit p a b + cover p r) a (coalesce a b r)
unfolding coalesce
coalesce-Outcome a b [] l h = ((omega arith, l, tt), λ p. refl)
coalesce-Outcome a b ((c, d) ∷ r) l h =
    coalesce_step a b c d r h.0 l h.1
      (coalesce-Outcome a d r (omega arith) (RisesFrom-mono c a r h.0 h.2))
      (coalesce-Outcome c d r h.1 h.2)

Outcome-ext :
    (f g : ℕ → ℕ) (m n : ℕ) (o : Option (List Span))
    → n ≤ m
    → ((p : ℕ) → f p ≡ g p)
    → Outcome f m o
    → Outcome g n o
Outcome-ext f g m n none l e h = (h.0, omega (arith, e h.0, h.1))
Outcome-ext f g m n (some out) l e h = (IsNormalFrom-mono m n out l h.0, λ p. h.1 p ∙ e p)

merge_sorted-Outcome :
    (m : ℕ) (v : List Span) → RisesFrom m v → Outcome (λ p. cover p v) m (merge_sorted v)
unfolding merge_sorted
merge_sorted-Outcome m [] h = (tt, λ p. refl)
merge_sorted-Outcome m ((a, b) ∷ r) h =
    Outcome-ext _ _ a m (coalesce a b r) h.0 (λ p. refl) (coalesce-Outcome a b r h.1 h.2)

-- `normalize` gives a normal form of the same points, or some point is covered twice.
pub normalize-Outcome :
    (v : List Span) → All IsNonempty v → Outcome (λ p. cover p v) 0 (normalize v)
unfolding normalize
normalize-Outcome v h =
    Outcome-ext _ _ 0 0 (merge_sorted (sort v)) (omega arith) (λ p. cover-sort p v)
      (merge_sorted-Outcome 0 (sort v) (sort-RisesFrom v h))
