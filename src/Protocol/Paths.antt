-- ===== src/Protocol/Paths.antt =====
-- The paths of a plan, one verb after the other, and what the static check says of them.
use portos.Base.{ℕ, zero, suc, ◌≡◌, refl, sym, subst, List, [], ◌∷◌, ◌++◌, String, In}
use portos.Coeffect.{Plan, seq, loop, branch, Plans, end, ◌⨾◌}
use portos.Protocol.{
  ◌>>=◌, Protocol, Violation, Result, ok, err, step, step_all, rounds, reach, reach_all,
}

-- The paths of a plan: a loop goes through up to its bound of rounds, a branch takes one arm.
mutual
  pub data PathOf : Plan → List String → Type 0 where
    does : {h v : String} → PathOf (Plan.verb h v) (v ∷ [])
    does_all : {qs : Plans} {vs : List String} → PathsOf qs vs → PathOf (seq qs) vs
    repeats : {n : ℕ} {b : Plan} {vs : List String} → RoundsOf b n vs → PathOf (loop n b) vs
    goes_left : {a b : Plan} {vs : List String} → PathOf a vs → PathOf (branch a b) vs
    goes_right : {a b : Plan} {vs : List String} → PathOf b vs → PathOf (branch a b) vs

  pub data PathsOf : Plans → List String → Type 0 where
    ends : PathsOf end []
    follows :
        {q : Plan} {qs : Plans} {vs us : List String}
        → PathOf q vs
        → PathsOf qs us
        → PathsOf (q ⨾ qs) (vs ++ us)

  pub data RoundsOf : Plan → ℕ → List String → Type 0 where
    leaves : {b : Plan} {n : ℕ} → RoundsOf b n []
    again :
        {b : Plan} {n : ℕ} {vs us : List String}
        → PathOf b vs
        → RoundsOf b n us
        → RoundsOf b (suc n) (vs ++ us)

-- The automaton goes from a state to another by a sequence of verbs.
pub data Allows (p : Protocol) : String → List String → String → Type 0 where
  stays : {s : String} → Allows p s [] s
  steps :
      {s t u v : String} {vs : List String}
      → step p s v ≡ ok t
      → Allows p t vs u
      → Allows p s (v ∷ vs) u

pub Allows-append :
    (p : Protocol) {s t u : String} {vs us : List String}
    → Allows p s vs t
    → Allows p t us u
    → Allows p s (vs ++ us) u
Allows-append p stays b = b
Allows-append p (steps e a) b = steps e (Allows-append p a b)

pub >>=-ok {ℓ κ} :
    {A : Type ℓ} {B : Type κ} (m : Result Violation A) (f : A → Result Violation B) {b : B}
    → (m >>= f) ≡ ok b
    → (a : A) × (m ≡ ok a) × (f a ≡ ok b)
>>=-ok (ok a) f h = (a, refl, h)
>>=-ok (err e) f h = cc

pub ok-injective {ℓ κ} :
    {E : Type ℓ} {A : Type κ} {a b : A} → ◌≡◌ {A = Result E A} (ok a) (ok b) → a ≡ b
ok-injective e = cc

In-append_left {ℓ} : {A : Type ℓ} {x : A} {xs : List A} (ys : List A) → In x xs → In x (xs ++ ys)
In-append_left ys (In.here e) = In.here e
In-append_left ys (In.there i) = In.there (In-append_left ys i)

In-append_right {ℓ} : {A : Type ℓ} {x : A} (xs : List A) {ys : List A} → In x ys → In x (xs ++ ys)
In-append_right [] i = i
In-append_right (y ∷ xs) i = In.there (In-append_right xs i)

-- The state that a path leads to, among the states that the static check gives.
abbrev pub Lands : Protocol → List String → String → List String → Type 0
Lands p vs s out = (t : String) × Allows p s vs t × In t out

step_all-Lands :
    (p : Protocol) (v s : String) (states out : List String)
    → step_all p v states ≡ ok out
    → In s states
    → Lands p (v ∷ []) s out
unfolding step_all
step_all-Lands p v s [] out e i = elim i [ ]
step_all-Lands p v s (x ∷ xs) out e i =
    let (t, et, e1) = >>=-ok (step p x v) _ e in
    let (ts, ets, e2) = >>=-ok (step_all p v xs) _ e1 in
    subst (Lands p (v ∷ []) s) (ok-injective e2)
      (by_place t et ts (λ j. step_all-Lands p v s xs ts ets j) i)
  where
    by_place :
        (t : String)
        → step p x v ≡ ok t
        → (ts : List String) → (In s xs → Lands p (v ∷ []) s ts)
        → In s (x ∷ xs)
        → Lands p (v ∷ []) s (t ∷ ts)
    by_place t et ts f (In.here q) =
        (t, steps (subst (λ x. step p x v ≡ ok t) (sym q) et) stays, In.here refl)
    by_place t et ts f (In.there j) = let (u, a, k) = f j in (u, a, In.there k)

Lands-append :
    (p : Protocol) (vs us : List String) (s : String) {mid out : List String}
    → Lands p vs s mid
    → ((t : String) → In t mid → Lands p us t out)
    → Lands p (vs ++ us) s out
Lands-append p vs us s (t, a, i) f = let (u, b, j) = f t i in (u, Allows-append p a b, j)

Lands-mono :
    (p : Protocol) (vs : List String) (s : String) {xs ys : List String}
    → ((t : String) → In t xs → In t ys)
    → Lands p vs s xs
    → Lands p vs s ys
Lands-mono p vs s f (t, a, i) = (t, a, f t i)

rounds-keeps :
    (f : List String → Result Violation (List String)) (n : ℕ) (acc cur out : List String)
    → rounds f n acc cur ≡ ok out
    → (t : String) → In t acc
    → In t out
unfolding rounds
rounds-keeps f zero acc cur out e t i = subst (In t) (ok-injective e) i
rounds-keeps f (suc n) acc cur out e t i =
    let (next, _, e1) = >>=-ok (f cur) _ e in
    rounds-keeps f n (acc ++ next) next out e1 t (In-append_left next i)

rounds-next :
    (f : List String → Result Violation (List String)) (n : ℕ) (acc cur : List String)
    {out : List String}
    → rounds f (suc n) acc cur ≡ ok out
    → (next : List String) × (f cur ≡ ok next) × (rounds f n (acc ++ next) next ≡ ok out)
unfolding rounds
rounds-next f n acc cur e = >>=-ok (f cur) _ e

rounds-Lands :
    (p : Protocol) (b : Plan) (f : List String → Result Violation (List String)) (n : ℕ)
    (acc cur out : List String)
    → ((vs : List String) (xs ys : List String) (s : String)
        → f xs ≡ ok ys
        → In s xs
        → PathOf b vs
        → Lands p vs s ys)
    → ((t : String) → In t cur → In t acc)
    → rounds f n acc cur ≡ ok out
    → (vs : List String) (s : String) → In s cur
    → RoundsOf b n vs
    → Lands p vs s out
rounds-Lands p b f n acc cur out g c e vs s i leaves =
    (s, stays, rounds-keeps f n acc cur out e s (c s i))
rounds-Lands p b f (suc n) acc cur out g c e _ s i (again {vs = vs} {us = us} q r) =
    let (next, en, e1) = rounds-next f n acc cur e in
    Lands-append p vs us s (g vs cur next s en i q) (λ t j.
      rounds-Lands p b f n (acc ++ next) next out g (λ t k. In-append_right acc k) e1 us t j r)

mutual
  unfolding reach

  pub reach-Lands :
      (p : Protocol) (q : Plan) (states out vs : List String) (s : String)
      → reach p q states ≡ ok out
      → In s states
      → PathOf q vs
      → Lands p vs s out
  reach-Lands p (Plan.verb h v) states out _ s e i does = step_all-Lands p v s states out e i
  reach-Lands p (seq qs) states out vs s e i (does_all r) =
      reach_all-Lands p qs states out vs s e i r
  reach-Lands p (loop n b) states out vs s e i (repeats r) =
      rounds-Lands p b (λ cur. reach p b cur) n states states out
        (λ vs xs ys s e i r. reach-Lands p b xs ys vs s e i r) (λ t i. i) e vs s i r
  reach-Lands p (branch a b) states out vs s e i (goes_left r) =
      let (xs, ex, e1) = >>=-ok (reach p a states) _ e in
      let (ys, ey, e2) = >>=-ok (reach p b states) _ e1 in
      subst (Lands p vs s) (ok-injective e2)
        (Lands-mono p vs s (λ t i. In-append_left ys i) (reach-Lands p a states xs vs s ex i r))
  reach-Lands p (branch a b) states out vs s e i (goes_right r) =
      let (xs, ex, e1) = >>=-ok (reach p a states) _ e in
      let (ys, ey, e2) = >>=-ok (reach p b states) _ e1 in
      subst (Lands p vs s) (ok-injective e2)
        (Lands-mono p vs s (λ t i. In-append_right xs i) (reach-Lands p b states ys vs s ey i r))

  reach_all-Lands :
      (p : Protocol) (qs : Plans) (states out vs : List String) (s : String)
      → reach_all p qs states ≡ ok out
      → In s states
      → PathsOf qs vs
      → Lands p vs s out
  reach_all-Lands p end states out _ s e i ends = (s, stays, subst (In s) (ok-injective e) i)
  reach_all-Lands p (q ⨾ qs) states out _ s e i (follows {vs = vs} {us = us} r rs) =
      let (mid, em, e1) = >>=-ok (reach p q states) _ e in
      Lands-append p vs us s (reach-Lands p q states mid vs s em i r)
        (λ t j. reach_all-Lands p qs mid out us t e1 j rs)
