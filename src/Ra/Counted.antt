-- ===== src/Ra/Counted.antt =====
-- `Count`, bounded counts with an invalid overflow (crates/portos-rm/src/ra.rs).
use portos.Base.{
  ℕ, ◌+◌, ◌-◌, ◌<◌, ◌^◌, ◌≡◌, Bool, true, false, Option, none, some, arith, ltb, leb, ℕ_discrete,
  if◌then◌else◌,
}
use portos.Ra.{Ra, IsRa}

pub data Count : Type 0 where
  value : ℕ → Count
  invalid : Count

unfoldable pub Count-discrete : Discrete Count
Count-discrete = hlevel ℕ_discrete

-- `u64::MAX + 1`.
abbrev pub u64_mod : ℕ
u64_mod = 2 ^ 64

-- `u64::checked_add`.
abbrev pub checked_add : ℕ → ℕ → Option ℕ
checked_add a b = if ltb (a + b) u64_mod then some (a + b) else none

-- `Count::default`.
abbrev pub default : Count
default = Count.value 0

-- `Count::value`.
abbrev pub value_of : Count → Option ℕ
value_of (Count.value n) = some n
value_of Count.invalid = none

abbrev pub op : Count → Count → Count
op (Count.value a) (Count.value b) = elim (checked_add a b) [
  | some n ↦ Count.value n
  | none ↦ Count.invalid
]
op _ _ = Count.invalid

abbrev pub valid : Count → Bool
valid (Count.value _) = true
valid Count.invalid = false

abbrev pub pcore : Count → Option Count
pcore _ = some (Count.value 0)

abbrev pub included_in : Count → Count → Bool
included_in _ Count.invalid = true
included_in Count.invalid (Count.value _) = false
included_in (Count.value a) (Count.value b) = leb a b

abbrev pub count_ra : Ra Count
count_ra = record {
  op = op;
  valid = valid;
  pcore = pcore;
  included_in = included_in;
  same = Count-discrete;
}

-- What a `u64` holds.
abbrev pub IsMachine : Count → Type 0
IsMachine (Count.value n) = n < u64_mod
IsMachine Count.invalid = Unit

op-IsMachine : (a b : Count) → IsMachine (op a b)
op-IsMachine a b = ground arith

op_assoc : (a b c : Count) → op (op a b) c ≡ op a (op b c)
op_assoc a b c = ground arith

op_comm : (a b : Count) → op a b ≡ op b a
op_comm a b = ground arith

zero-op : (a : Count) → IsMachine a → op (Count.value 0) a ≡ a
zero-op a h = ground arith

-- The difference of two counts, if the first is below the second.
abbrev rest_of : Count → Count → Count
rest_of (Count.value a) (Count.value b) = Count.value (b - a)
rest_of _ _ = Count.invalid

incl-rest :
    (a b : Count)
    → IsMachine a
    → IsMachine b
    → included_in a b ≡ true
    → IsMachine (rest_of a b) × (b ≡ op a (rest_of a b))
incl-rest a b p q h = ground arith

included_in-op : (a c : Count) → included_in a (op a c) ≡ true
included_in-op a c = ground arith

pub count-IsRa : IsRa count_ra IsMachine
count-IsRa = record {
  closed = λ a b _ _. op-IsMachine a b;
  assoc = λ a b c _ _ _. op_assoc a b c;
  comm = λ a b _ _. op_comm a b;
  valid_op_l = λ a b p q h. ground arith;
  core_id = λ a c p h. ground (arith, zero-op a p);
  core_idem = λ a c p h. ground arith;
  core_mono = λ a b c p q h e. (Count.value 0, ground arith, ground arith);
  incl = λ a b p q h. let (m, e) = incl-rest a b p q h in (rest_of a b, m, e);
  incl_op = λ a c p q. included_in-op a c;
}
