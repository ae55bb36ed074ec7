-- ===== src/Coeffect/Budgets.antt =====
-- Budgets (`Budget`, crates/portos-rm/src/coeffect.rs): for each class of effects how often it is
-- used, an exact natural number. A class that is absent counts 0.
use portos.Base.{
  ℕ, ◌+◌, ◌*◌, ◌≤◌, ◌≡◌, ◌≢◌, refl, sym, ◌∙◌, subst, inl, inr, Bool, not, Option, none, some, [],
  ◌∷◌, all, find, String, string_discrete, test, leb, leb→le, ◌==◌, if◌then◌else◌, arith,
  Bool-cases,
}
use Prim.Native.Nat.{max}
use portos.Base.Maps.{Map, get, put, get-put_self, get-put_ne}

abbrev pub Budget : Type 0
Budget = Map String ℕ

-- `unwrap_or(Counting::ign())`.
abbrev pub or_zero : Option ℕ → ℕ
or_zero none = 0
or_zero (some n) = n

-- `Budget::get`.
unfoldable pub count_of : String → Budget → ℕ
count_of c m = or_zero (get string_discrete c m)

-- `Budget::normalized` drops the classes that count 0.
unfoldable pub normalized : Budget → Budget
normalized [] = []
normalized ((c, n) ∷ m) = if n == 0 then normalized m else (c, n) ∷ normalized m

abbrev pub no_budget : Budget
no_budget = []

-- `Budget::unit_n`.
unfoldable pub unit_n : String → ℕ → Budget
unfolding normalized
unit_n c n = normalized ((c, n) ∷ [])

-- The loop of `merge` and of `join`, with the operation on counts.
unfoldable pub combine : (ℕ → ℕ → ℕ) → Budget → Budget → Budget
combine f m [] = m
combine f m ((c, n) ∷ o) = combine f (put string_discrete c (f (count_of c m) n) m) o

unfoldable pub merge : Budget → Budget → Budget
unfolding combine normalized
merge m o = normalized (combine (λ a b. a + b) m o)

unfoldable pub join : Budget → Budget → Budget
unfolding combine normalized
join m o = normalized (combine max m o)

unfoldable pub scaled : ℕ → Budget → Budget
scaled k [] = []
scaled k ((c, n) ∷ m) = (c, k * n) ∷ scaled k m

-- `Budget::scale`.
unfoldable pub scale : ℕ → Budget → Budget
unfolding scaled normalized
scale k m = normalized (scaled k m)

unfoldable pub leq : Budget → Budget → Bool
leq m o = all (λ (e : String × ℕ). leb e.1 (count_of e.0 o)) m

abbrev pub exceeding : Option (String × ℕ) → Budget → Option (String × ℕ × ℕ)
exceeding none o = none
exceeding (some (c, n)) o = some (c, n, count_of c o)

-- `Budget::first_exceeding`.
unfoldable pub first_exceeding : Budget → Budget → Option (String × ℕ × ℕ)
first_exceeding m o = exceeding (find (λ (e : String × ℕ). not (leb e.1 (count_of e.0 o))) m) o

-- Each class stands once, as in a `BTreeMap`.
abbrev pub IsKeyed : Budget → Type 0
IsKeyed [] = Unit
IsKeyed ((c, n) ∷ m) = (get string_discrete c m ≡ none) × IsKeyed m

get-put_none :
    (c d : String) (n : ℕ) (m : Budget)
    → c ≢ d
    → get string_discrete c m ≡ none
    → get string_discrete c (put string_discrete d n m) ≡ none
get-put_none c d n m x e = get-put_ne string_discrete c d n m x ∙ e

put-IsKeyed : (c : String) (n : ℕ) (m : Budget) → IsKeyed m → IsKeyed (put string_discrete c n m)
unfolding put get
put-IsKeyed c n [] k = (refl, tt)
put-IsKeyed c n ((d, i) ∷ m) k =
    elim (string_discrete c d)
      as (λ t. IsKeyed (if test t then (c, n) ∷ m else (d, i) ∷ put string_discrete c n m)) [
        | yes e ↦ (subst (λ x. get string_discrete x m ≡ none) (sym e) k.0, k.1)
        | no e ↦ (get-put_none d c n m (λ q. e (sym q)) k.0, put-IsKeyed c n m k.1)
      ]

count_of-cons_self : (c : String) (n : ℕ) (m : Budget) → count_of c ((c, n) ∷ m) ≡ n
unfolding count_of get
count_of-cons_self c n m = ground (arith, string_discrete c c)

count_of-cons_ne :
    (c d : String) (n : ℕ) (m : Budget) → c ≢ d → count_of c ((d, n) ∷ m) ≡ count_of c m
unfolding count_of get
count_of-cons_ne c d n m x = ground arith

get-normalized :
    (c : String) (m : Budget)
    → get string_discrete c m ≡ none
    → get string_discrete c (normalized m) ≡ none
unfolding normalized get
get-normalized c [] e = refl
get-normalized c ((d, n) ∷ m) e = ground (arith, get-normalized c m)

pub normalized-IsKeyed : (m : Budget) → IsKeyed m → IsKeyed (normalized m)
unfolding normalized
normalized-IsKeyed [] k = tt
normalized-IsKeyed ((c, n) ∷ m) k = elim (Bool-cases (n == 0)) [
  | inl e ↦ rw e (normalized-IsKeyed m k.1)
  | inr e ↦ rw e (get-normalized c m k.0, normalized-IsKeyed m k.1)
]

-- Dropping zeros changes no count.
count_of-normalized :
    (c : String) (m : Budget) → IsKeyed m → count_of c (normalized m) ≡ count_of c m
unfolding count_of get normalized
count_of-normalized c [] k = refl
count_of-normalized c ((d, n) ∷ m) k =
    ground (arith, count_of-normalized c m k.1, k.0, get-normalized c m)

module _ (f : ℕ → ℕ → ℕ) where
  pub combine-IsKeyed : (m o : Budget) → IsKeyed m → IsKeyed (combine f m o)
  unfolding combine
  combine-IsKeyed m [] k = k
  combine-IsKeyed m ((d, n) ∷ o) k =
      combine-IsKeyed (put string_discrete d (f (count_of d m) n) m) o
        (put-IsKeyed d (f (count_of d m) n) m k)

  -- Two budgets are combined class by class.
  count_of-combine :
      (c : String) (m o : Budget)
      → ((n : ℕ) → f n 0 ≡ n)
      → IsKeyed o
      → count_of c (combine f m o) ≡ f (count_of c m) (count_of c o)
  unfolding combine count_of get
  count_of-combine c m [] z k = sym (z (count_of c m))
  count_of-combine c m ((d, n) ∷ o) z k =
      let next = put string_discrete d (f (count_of d m) n) m in
      count_of-combine c next o z k.1 ∙ by_class (string_discrete c d)
    where
      by_class :
          (t : Dec (c ≡ d))
          → f (count_of c (put string_discrete d (f (count_of d m) n) m)) (count_of c o)
            ≡ f (count_of c m) (or_zero (if test t then some n else get string_discrete c o))
      by_class (yes e) =
          rw (e, get-put_self string_discrete d (f (count_of d m) n) m, k.0)
            (z (f (count_of d m) n))
      by_class (no x) = rw (get-put_ne string_discrete c d (f (count_of d m) n) m x) refl

get-scaled :
    (c : String) (k : ℕ) (m : Budget)
    → get string_discrete c m ≡ none
    → get string_discrete c (scaled k m) ≡ none
unfolding scaled get
get-scaled c k [] e = refl
get-scaled c k ((d, n) ∷ m) e = ground (arith, get-scaled c k m)

scaled-IsKeyed : (k : ℕ) (m : Budget) → IsKeyed m → IsKeyed (scaled k m)
unfolding scaled
scaled-IsKeyed k [] h = tt
scaled-IsKeyed k ((d, n) ∷ m) h = (get-scaled d k m h.0, scaled-IsKeyed k m h.1)

count_of-scaled : (c : String) (k : ℕ) (m : Budget) → count_of c (scaled k m) ≡ k * count_of c m
unfolding scaled count_of get
count_of-scaled c k [] = omega arith
count_of-scaled c k ((d, n) ∷ m) =
    elim (string_discrete c d)
      as (λ t.
        or_zero (if test t then some (k * n) else get string_discrete c (scaled k m))
        ≡ k * or_zero (if test t then some n else get string_discrete c m)) [
          | yes e ↦ refl
          | no e ↦ count_of-scaled c k m
        ]

max_zero : (n : ℕ) → max n 0 ≡ n
max_zero n = omega arith

-- The counts of the operations, each on keyed budgets.
pub count_of-merge :
    (c : String) (m o : Budget)
    → IsKeyed m
    → IsKeyed o
    → count_of c (merge m o) ≡ count_of c m + count_of c o
unfolding merge
count_of-merge c m o h k =
    count_of-normalized c (combine (λ a b. a + b) m o) (combine-IsKeyed (λ a b. a + b) m o h)
    ∙ count_of-combine (λ a b. a + b) c m o (λ n. omega arith) k

pub count_of-join :
    (c : String) (m o : Budget)
    → IsKeyed m
    → IsKeyed o
    → count_of c (join m o) ≡ max (count_of c m) (count_of c o)
unfolding join
count_of-join c m o h k =
    count_of-normalized c (combine max m o) (combine-IsKeyed max m o h)
    ∙ count_of-combine max c m o max_zero k

pub count_of-scale :
    (c : String) (k : ℕ) (m : Budget) → IsKeyed m → count_of c (scale k m) ≡ k * count_of c m
unfolding scale
count_of-scale c k m h =
    count_of-normalized c (scaled k m) (scaled-IsKeyed k m h) ∙ count_of-scaled c k m

pub merge-IsKeyed : (m o : Budget) → IsKeyed m → IsKeyed (merge m o)
unfolding merge
merge-IsKeyed m o h = normalized-IsKeyed _ (combine-IsKeyed (λ a b. a + b) m o h)

pub join-IsKeyed : (m o : Budget) → IsKeyed m → IsKeyed (join m o)
unfolding join
join-IsKeyed m o h = normalized-IsKeyed _ (combine-IsKeyed max m o h)

pub scale-IsKeyed : (k : ℕ) (m : Budget) → IsKeyed m → IsKeyed (scale k m)
unfolding scale
scale-IsKeyed k m h = normalized-IsKeyed _ (scaled-IsKeyed k m h)

-- Where no class exceeds, every class is within its bound.
pub first_exceeding-none :
    (c : String) (m o : Budget) → first_exceeding m o ≡ none → count_of c m ≤ count_of c o
unfolding first_exceeding count_of get
first_exceeding-none c [] o e = omega arith
first_exceeding-none c ((d, n) ∷ m) o e = elim (Bool-cases (leb n (count_of d o))) [
  | inr x ↦ cc (rw x at e)
  | inl x ↦
      let rest = first_exceeding-none c m o (rw x at e) in
      elim (string_discrete c d)
        as (λ t. or_zero (if test t then some n else get string_discrete c m) ≤ count_of c o) [
          | yes q ↦ rw q (leb→le n (count_of d o) x)
          | no q ↦ rest
        ]
]
