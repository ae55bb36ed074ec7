-- ===== src/Ledger/Requests/Visits.antt =====
-- How many visits the loop of `request_retirement` (crates/portos-rm/src/ledger/cleanup.rs) makes: it
-- follows a tree of children, whose ids are above those of their parents.
use portos.Base.{
  ℕ, zero, suc, ◌+◌, ◌*◌, ◌≤◌, ◌<◌, ◌≡◌, refl, inl, inr, Bool, true, false, ◌&&◌, Option, none,
  some, List, [], ◌∷◌, ◌++◌, All, arith, Bool-cases, test, length, if◌then◌else◌, ◌==◌,
  Option-cases, dec_le,
}
use portos.Identity.{HoldingId, HoldingHandle}
use portos.Time.{Lease, Lease-discrete}
use portos.Cleanup.{CleanupKey, is_active}
use portos.Ledger.{Holding}
use portos.Ledger.Order.{IsOrderedFrom}
use portos.Ledger.Requests.{bound_in, has_parent}

has_parent-some : (o : Option HoldingId) (id : HoldingId) → has_parent o id ≡ true → o ≡ some id
has_parent-some none id e = cc
has_parent-some (some p) id e = ground arith

All-from :
    (lo m : ℕ) (todo : List (HoldingHandle × CleanupKey))
    → lo ≤ m
    → All (λ s. m ≤ s.0.id) todo
    → All (λ s. lo ≤ s.0.id) todo
All-from lo m [] l a = tt
All-from lo m (s ∷ todo) l a = (omega (arith, l, a.0), All-from lo m todo l a.1)

-- How often an id stands in a list.
times : HoldingId → List HoldingId → ℕ
times p [] = 0
times p (i ∷ ids) = (if i == p then 1 else 0) + times p ids

times_none :
    (lo q : HoldingId) (ids : List HoldingId) → All (λ i. i < lo) ids → lo ≤ q → times q ids ≡ 0
unfolding times
times_none lo q [] a l = refl
times_none lo q (i ∷ ids) a l = ground (arith, a.0, times_none lo q ids a.1 l)

All-below :
    (lo m : ℕ) (ids : List HoldingId) → lo ≤ m → All (λ i. i < lo) ids → All (λ i. i < m) ids
All-below lo m [] l a = tt
All-below lo m (i ∷ ids) l a = (omega (arith, a.0, l), All-below lo m ids l a.1)

module _ {Q : Type 0} where
  -- A row that ends with its parent.
  abbrev pub bound_row : HoldingId → Holding Q → Bool
  bound_row id h =
      is_active h.state
      && has_parent h.parent id
      && test (Lease-discrete h.lease Lease.parent_bound)

  -- A row is bound only to an id below its own.
  bound_row-below :
      (lo next : ℕ) (id : HoldingId) (h : Holding Q) (hs : List (Holding Q))
      → IsOrderedFrom lo next (h ∷ hs)
      → bound_row id h ≡ true
      → id < h.id
  bound_row-below lo next id h hs o b = o.1 id (has_parent-some h.parent id (ground arith))

  -- How many visits a row takes, with its children among the rows that follow.
  pub tree_size : List (Holding Q) → HoldingId → ℕ
  tree_size [] id = 1
  tree_size (h ∷ hs) id =
      if bound_row id h then tree_size hs h.id + tree_size hs id else tree_size hs id

  abbrev pub visits : List (Holding Q) → List (HoldingHandle × CleanupKey) → ℕ
  visits hs [] = 0
  visits hs (s ∷ todo) = tree_size hs s.0.id + visits hs todo

  pub visits-append :
      (hs : List (Holding Q)) (xs ys : List (HoldingHandle × CleanupKey))
      → visits hs (xs ++ ys) ≡ visits hs xs + visits hs ys
  visits-append hs [] ys = omega arith
  visits-append hs (x ∷ xs) ys = omega (arith, visits-append hs xs ys)

  -- A row does not count for an id that is not below its own.
  size_past :
      (lo next : ℕ) (id : HoldingId) (h : Holding Q) (hs : List (Holding Q))
      → IsOrderedFrom lo next (h ∷ hs)
      → h.id ≤ id
      → tree_size (h ∷ hs) id ≡ tree_size hs id
  unfolding tree_size
  size_past lo next id h hs o l = elim (Bool-cases (bound_row id h)) [
    | inl e ↦ absurd (omega (arith, l, bound_row-below lo next id h hs o e))
    | inr e ↦ rw e refl
  ]

  visits_past :
      (lo next : ℕ) (h : Holding Q) (hs : List (Holding Q))
      → IsOrderedFrom lo next (h ∷ hs)
      → (todo : List (HoldingHandle × CleanupKey)) → All (λ s. suc h.id ≤ s.0.id) todo
      → visits (h ∷ hs) todo ≡ visits hs todo
  visits_past lo next h hs o [] a = refl
  visits_past lo next h hs o (s ∷ todo) a = omega (
    arith,
    size_past lo next s.0.id h hs o (omega (arith, a.0)),
    visits_past lo next h hs o todo a.1,
  )

  bound_in-above :
      (lo next : ℕ) (key : CleanupKey) (id : HoldingId) (hs : List (Holding Q))
      → IsOrderedFrom lo next hs
      → All (λ s. lo ≤ s.0.id) (bound_in key id hs)
  unfolding bound_in
  bound_in-above lo next key id [] o = tt
  bound_in-above lo next key id (h ∷ hs) o =
      let rest =
        All-from lo (suc h.id) (bound_in key id hs) (omega (arith, o.0))
          (bound_in-above (suc h.id) next key id hs o.2) in
      elim (Bool-cases (bound_row id h)) [ inl e ↦ rw e (o.0, rest) | inr e ↦ rw e rest ]

  -- A visit of an id is itself and the visits of its children.
  pub visits-bound_in :
      (lo next : ℕ) (key : CleanupKey) (id : HoldingId) (hs : List (Holding Q))
      → IsOrderedFrom lo next hs
      → suc (visits hs (bound_in key id hs)) ≡ tree_size hs id
  unfolding tree_size bound_in
  visits-bound_in lo next key id [] o = omega arith
  visits-bound_in lo next key id (h ∷ hs) o =
      let later = visits-bound_in (suc h.id) next key id hs o.2 in
      let past =
        visits_past lo next h hs o (bound_in key id hs)
          (bound_in-above (suc h.id) next key id hs o.2) in
      let self = size_past lo next h.id h hs o (omega arith) in
      elim (Bool-cases (bound_row id h)) [
        | inl e ↦ rw e (omega (arith, later, past, self))
        | inr e ↦ rw e (omega (arith, later, past))
      ]

  sizes : List (Holding Q) → List HoldingId → ℕ
  sizes hs [] = 0
  sizes hs (i ∷ ids) = tree_size hs i + sizes hs ids

  sizes-none :
      (h : Holding Q) (hs : List (Holding Q)) (ids : List HoldingId)
      → h.parent ≡ none
      → sizes (h ∷ hs) ids ≡ sizes hs ids
  unfolding sizes tree_size
  sizes-none h hs [] e = refl
  sizes-none h hs (i ∷ ids) e =
      let not_bound : bound_row i h ≡ false = rw e (ground arith) in
      rw (not_bound, sizes-none h hs ids e) refl

  sizes-some :
      (h : Holding Q) (hs : List (Holding Q)) (p : HoldingId) (ids : List HoldingId)
      → h.parent ≡ some p
      → sizes (h ∷ hs) ids ≤ sizes hs ids + times p ids * tree_size hs h.id
  unfolding sizes tree_size times
  sizes-some h hs p [] e = omega arith
  sizes-some h hs p (i ∷ ids) e =
      let rest = sizes-some h hs p ids e in
      elim (Bool-cases (i == p)) [
        | inl q ↦ elim (Bool-cases (bound_row i h)) [
          | inl b ↦ rw (b, q) (omega (arith, rest))
          | inr b ↦ rw (b, q) (omega (arith, rest))
        ]
        | inr q ↦
            let not_bound : bound_row i h ≡ false = rw e (ground (arith, q)) in
            rw (not_bound, q) (omega (arith, rest))
      ]

  sizes-step :
      (h : Holding Q) (hs : List (Holding Q)) (ids : List HoldingId)
      → ((p : HoldingId) → times p ids ≤ 1)
      → sizes (h ∷ hs) ids ≤ tree_size hs h.id + sizes hs ids
  sizes-step h hs ids t = elim (Option-cases h.parent) [
    | inl e ↦ omega (arith, sizes-none h hs ids e)
    | inr (p, e) ↦ at_most (times p ids) (tree_size hs h.id) _ _ (t p) (sizes-some h hs p ids e)
  ]
    where
      at_most : (k n a b : ℕ) → k ≤ 1 → a ≤ b + k * n → a ≤ n + b
      at_most zero n a b l h = omega arith
      at_most (suc zero) n a b l h = omega arith
      at_most (suc (suc k)) n a b l h = absurd (omega arith)

  -- Ids of which each stands once, all below the rows, take at most a visit each, and one for each row.
  sizes_bound :
      (lo next : ℕ) (hs : List (Holding Q)) (ids : List HoldingId)
      → IsOrderedFrom lo next hs
      → All (λ i. i < lo) ids
      → ((p : HoldingId) → times p ids ≤ 1)
      → sizes hs ids ≤ length ids + length hs
  unfolding sizes tree_size times
  sizes_bound lo next [] [] o a t = omega arith
  sizes_bound lo next [] (i ∷ ids) o a t =
      omega (arith, sizes_bound lo next [] ids o a.1 (λ p. omega (arith, t p)))
  sizes_bound lo next (h ∷ hs) ids o a t = omega (
    arith,
    sizes-step h hs ids t,
    sizes_bound (suc h.id) next hs (h.id ∷ ids) o.2
        (omega arith, All-below lo (suc h.id) ids (omega (arith, o.0)) a)
        (once h.id ids t (times_none lo h.id ids a o.0)),
  )
    where
      once :
          (j : HoldingId) (ids : List HoldingId)
          → ((p : HoldingId) → times p ids ≤ 1)
          → times j ids ≡ 0
          → (p : HoldingId) → times p (j ∷ ids) ≤ 1
      once j ids t z p = ground (arith, t p)

  pub size_bound :
      (lo next : ℕ) (id : HoldingId) (hs : List (Holding Q))
      → IsOrderedFrom lo next hs
      → tree_size hs id ≤ suc (length hs)
  unfolding tree_size sizes times
  size_bound lo next id [] o = omega arith
  size_bound lo next id (h ∷ hs) o = elim (dec_le h.id id) [
    | yes l ↦ omega (arith, size_past lo next id h hs o l, size_bound (suc h.id) next id hs o.2)
    | no l ↦ omega (
      arith,
      sizes_bound h.id next (h ∷ hs) (id ∷ []) (omega arith, o.1, o.2) (omega (arith, l), tt)
          (λ p. ground arith),
    )
  ]
