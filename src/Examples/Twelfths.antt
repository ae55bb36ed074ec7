-- ===== src/Examples/Twelfths.antt =====
-- A stand-in for the rationals of num-rational: the natural multiples of a twelfth.
use Prim.Native.Nat.{◌/◌}
use portos.Base.{ℕ, ◌+◌, ◌-◌, ◌*◌, ◌≡◌, true, arith, ltb, leb, ℕ_discrete}
use portos.Ra.Fractions.{Rationals}

pub add_assoc : (a b c : ℕ) → a + b + c ≡ a + (b + c)
add_assoc a b c = omega arith

pub add_comm : (a b : ℕ) → a + b ≡ b + a
add_comm a b = omega arith

pub add-positive : (a b : ℕ) → ltb 0 a ≡ true → ltb 0 b ≡ true → ltb 0 (a + b) ≡ true
add-positive a b p q = ground arith

pub le_one-add : (a b : ℕ) → ltb 0 b ≡ true → leb (a + b) 12 ≡ true → leb a 12 ≡ true
le_one-add a b p q = ground arith

pub lt-add : (a b : ℕ) → ltb 0 b ≡ true → ltb a (a + b) ≡ true
lt-add a b p = ground arith

pub difference : (a b : ℕ) → ltb a b ≡ true → (c : ℕ) × (ltb 0 c ≡ true) × (b ≡ a + c)
difference a b h = (b - a, ground arith, ground arith)

abbrev pub twelfths : Rationals ℕ
twelfths = record {
  from_parts = λ n d. n * 12 / d;
  add = λ a b. a + b;
  is_positive = λ a. ltb 0 a;
  le_one = λ a. leb a 12;
  lt = λ a b. ltb a b;
  same = ℕ_discrete;
  add_assoc = add_assoc;
  add_comm = add_comm;
  add-positive = add-positive;
  le_one-add = le_one-add;
  lt-add = lt-add;
  difference = difference;
}
