-- ===== src/Coeffect/Demands/Paths.antt =====
-- The demand of a plan against its paths: what a path uses of a class of effects, its greatest value,
-- and the bounds that the two evaluations give.
use portos.Base.{ℕ, zero, suc, ◌+◌, ◌*◌, ◌≤◌, subst, String, arith, dec_le}
use Prim.Native.Nat.{max}
use portos.Coeffect.{Plan, seq, loop, branch, Plans, end, ◌⨾◌}
use portos.Coeffect.Budgets.{count_of, IsKeyed}
use portos.Coeffect.Demands.{Requires}

-- Every requirement that a table gives has each class once.
abbrev pub AllKeyed : (String → String → Requires) → Type 0
AllKeyed lookup = (h v : String) → IsKeyed (lookup h v).uses

module _ (lookup : String → String → Requires) (c : String) where
  -- What a path of a plan uses of the class: a loop goes through up to its bound of rounds.
  mutual
    pub data Spends : Plan → ℕ → Type 0 where
      does : {h v : String} → Spends (Plan.verb h v) (count_of c (lookup h v).uses)
      does_all : {qs : Plans} {n : ℕ} → SpendsAll qs n → Spends (seq qs) n
      repeats : {k n : ℕ} {b : Plan} → SpendsRounds b k n → Spends (loop k b) n
      goes_left : {a b : Plan} {n : ℕ} → Spends a n → Spends (branch a b) n
      goes_right : {a b : Plan} {n : ℕ} → Spends b n → Spends (branch a b) n

    pub data SpendsAll : Plans → ℕ → Type 0 where
      ends : SpendsAll end 0
      follows :
          {q : Plan} {qs : Plans} {n i : ℕ}
          → Spends q n
          → SpendsAll qs i
          → SpendsAll (q ⨾ qs) (n + i)

    pub data SpendsRounds : Plan → ℕ → ℕ → Type 0 where
      leaves : {b : Plan} {k : ℕ} → SpendsRounds b k 0
      again :
          {b : Plan} {k n i : ℕ} → Spends b n → SpendsRounds b k i → SpendsRounds b (suc k) (n + i)

  -- The greatest use of a path, and the use of all occurrences.
  unfoldable mutual
    pub worst : Plan → ℕ
    worst (Plan.verb h v) = count_of c (lookup h v).uses
    worst (seq qs) = worst_all qs
    worst (loop k b) = k * worst b
    worst (branch a b) = max (worst a) (worst b)

    pub worst_all : Plans → ℕ
    worst_all end = 0
    worst_all (q ⨾ qs) = worst q + worst_all qs

  unfoldable mutual
    pub total : Plan → ℕ
    total (Plan.verb h v) = count_of c (lookup h v).uses
    total (seq qs) = total_all qs
    total (loop k b) = k * total b
    total (branch a b) = total a + total b

    pub total_all : Plans → ℕ
    total_all end = 0
    total_all (q ⨾ qs) = total q + total_all qs

  mutual
    unfolding worst total

    pub worst-le-total : (q : Plan) → worst q ≤ total q
    worst-le-total (Plan.verb h v) = omega arith
    worst-le-total (seq qs) = worst_all-le-total qs
    worst-le-total (loop k b) = grind (arith, worst-le-total b)
    worst-le-total (branch a b) = omega (arith, worst-le-total a, worst-le-total b)

    worst_all-le-total : (qs : Plans) → worst_all qs ≤ total_all qs
    worst_all-le-total end = omega arith
    worst_all-le-total (q ⨾ qs) = omega (arith, worst-le-total q, worst_all-le-total qs)

  mutual
    unfolding worst

    pub Spends-worst : {q : Plan} {n : ℕ} → Spends q n → n ≤ worst q
    Spends-worst does = omega arith
    Spends-worst (does_all s) = SpendsAll-worst s
    Spends-worst (repeats s) = SpendsRounds-worst s
    Spends-worst (goes_left s) = omega (arith, Spends-worst s)
    Spends-worst (goes_right s) = omega (arith, Spends-worst s)

    SpendsAll-worst : {qs : Plans} {n : ℕ} → SpendsAll qs n → n ≤ worst_all qs
    SpendsAll-worst ends = omega arith
    SpendsAll-worst (follows s r) = omega (arith, Spends-worst s, SpendsAll-worst r)

    SpendsRounds-worst : {b : Plan} {k n : ℕ} → SpendsRounds b k n → n ≤ k * worst b
    SpendsRounds-worst leaves = omega arith
    SpendsRounds-worst (again s r) = omega (arith, Spends-worst s, SpendsRounds-worst r)

  all_rounds : (b : Plan) (k n : ℕ) → Spends b n → SpendsRounds b k (k * n)
  all_rounds b zero n s = subst (SpendsRounds b zero) (omega arith) leaves
  all_rounds b (suc k) n s =
      subst (SpendsRounds b (suc k)) (omega arith) (again s (all_rounds b k n s))

  mutual
    unfolding worst

    -- Some path uses the greatest value.
    pub worst-Spends : (q : Plan) → Spends q (worst q)
    worst-Spends (Plan.verb h v) = does
    worst-Spends (seq qs) = does_all (worst_all-Spends qs)
    worst-Spends (loop k b) = repeats (all_rounds b k (worst b) (worst-Spends b))
    worst-Spends (branch a b) = elim (dec_le (worst a) (worst b)) [
      | yes l ↦ subst (Spends (branch a b)) (omega (arith, l)) (goes_right (worst-Spends b))
      | no l ↦ subst (Spends (branch a b)) (omega (arith, l)) (goes_left (worst-Spends a))
    ]

    worst_all-Spends : (qs : Plans) → SpendsAll qs (worst_all qs)
    worst_all-Spends end = ends
    worst_all-Spends (q ⨾ qs) = follows (worst-Spends q) (worst_all-Spends qs)
