-- ===== src/Proto/Label.antt =====
-- Labels of data and of control (`Label`, crates/portos-proto/src/label.rs): a set of confidentiality
-- atoms and a set of taint atoms, ordered by inclusion and joined by union.
use portos.Base.{◌≡◌, ◌↔◌, ap₂, Bool, true, ◌&&◌, String, arith}
use portos.Base.Sets.{
  StringSet, union, insert, is_subset, is_empty, empty, Below, is_subset_iff, union_comm,
  union_assoc, union_self, union-Below, Below-union_left, Below-union_right, Below-antisym,
}

pub record Label : Type 0 where
  pub conf : StringSet
  pub integ : StringSet

abbrev pub public_trusted : Label
public_trusted = record { conf = empty; integ = empty }

abbrev pub with_integ : String → Label
with_integ atom = record { conf = empty; integ = insert atom empty }

abbrev pub with_conf : String → Label
with_conf atom = record { conf = insert atom empty; integ = empty }

unfoldable pub join : Label → Label → Label
join a b = record { conf = union a.conf b.conf; integ = union a.integ b.integ }

unfoldable pub leq : Label → Label → Bool
leq a b = is_subset a.conf b.conf && is_subset a.integ b.integ

unfoldable pub is_public_trusted : Label → Bool
is_public_trusted a = is_empty a.conf && is_empty a.integ

pub Label-ext : (a b : Label) → a.conf ≡ b.conf → a.integ ≡ b.integ → a ≡ b
Label-ext a b c i = ap₂ (λ c i. record { conf = c; integ = i }) c i

pub join_comm : (a b : Label) → join a b ≡ join b a
unfolding join
join_comm a b = Label-ext _ _ (union_comm a.conf b.conf) (union_comm a.integ b.integ)

pub join_assoc : (a b c : Label) → join (join a b) c ≡ join a (join b c)
unfolding join
join_assoc a b c =
    Label-ext _ _ (union_assoc a.conf b.conf c.conf) (union_assoc a.integ b.integ c.integ)

pub join_self : (a : Label) → join a a ≡ a
unfolding join
join_self a = Label-ext _ _ (union_self a.conf) (union_self a.integ)

pub leq_iff : (a b : Label) → (leq a b ≡ true) ↔ (Below a.conf b.conf × Below a.integ b.integ)
unfolding leq
leq_iff a b = (
  λ h. (
    (is_subset_iff a.conf b.conf).0 (ground arith),
    (is_subset_iff a.integ b.integ).0 (ground arith),
  ),
  λ (c, i). ground (arith, (is_subset_iff a.conf b.conf).1 c, (is_subset_iff a.integ b.integ).1 i),
)

pub leq-join_left : (a b : Label) → leq a (join a b) ≡ true
unfolding join
leq-join_left a b =
    (leq_iff a (join a b)).1 (Below-union_left a.conf b.conf, Below-union_left a.integ b.integ)

pub leq-join_right : (a b : Label) → leq b (join a b) ≡ true
unfolding join
leq-join_right a b =
    (leq_iff b (join a b)).1 (Below-union_right a.conf b.conf, Below-union_right a.integ b.integ)

pub leq_trans : (a b c : Label) → leq a b ≡ true → leq b c ≡ true → leq a c ≡ true
leq_trans a b c p q =
    let (f, g) = (leq_iff a b).0 p in
    let (h, i) = (leq_iff b c).0 q in (leq_iff a c).1 (λ x e. h x (f x e), λ x e. i x (g x e))

pub leq_refl : (a : Label) → leq a a ≡ true
leq_refl a = (leq_iff a a).1 (λ x e. e, λ x e. e)

join_least : (a b c : Label) → leq a c ≡ true → leq b c ≡ true → leq (join a b) c ≡ true
unfolding join
join_least a b c p q =
    let (f, g) = (leq_iff a c).0 p in
    let (h, i) = (leq_iff b c).0 q in
    (leq_iff (join a b) c).1
      (union-Below a.conf b.conf c.conf f h, union-Below a.integ b.integ c.integ g i)

-- The join of two labels is their least upper bound: it is below a label exactly when both are.
pub join_is_least :
    (a b c : Label) → (leq (join a b) c ≡ true) ↔ ((leq a c ≡ true) × (leq b c ≡ true))
join_is_least a b c = (
  λ h. (
    leq_trans a (join a b) c (leq-join_left a b) h,
    leq_trans b (join a b) c (leq-join_right a b) h,
  ),
  λ (p, q). join_least a b c p q,
)

-- The order of labels is antisymmetric: labels below each other are equal.
pub leq_antisym : (a b : Label) → leq a b ≡ true → leq b a ≡ true → a ≡ b
leq_antisym a b p q =
    let (f, g) = (leq_iff a b).0 p in
    let (h, i) = (leq_iff b a).0 q in
    Label-ext a b (Below-antisym a.conf b.conf f h) (Below-antisym a.integ b.integ g i)
