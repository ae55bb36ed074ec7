-- ===== src/Proto/Wire.antt =====
-- Reading and writing bytes of a stream, and numbers in 4 bytes, as frames
-- (crates/portos-proto/src/frame.rs) and chunks (crates/portos-proto/src/chunk.rs) do. A stream is
-- the list of its bytes; a write to it does not fail.
use Prim.Native.Nat.{◌/◌, ◌%◌}
use portos.Base.{ℕ, zero, suc, ◌+◌, ◌*◌, ◌<◌, ◌≡◌, refl, ap, List, [], ◌∷◌, ◌++◌, length, arith}

pub data WireError : Type 0 where
  io json : WireError
  too_large : ℕ → WireError

infixl 5 ◌>>=◌
pub data Wire {ℓ} (A : Type ℓ) : Type ℓ where
  err : WireError → Wire A
  ok : A → Wire A

-- The operator `?` of the source.
abbrev pub ◌>>=◌ {κ μ} : {X : Type κ} {Y : Type μ} → Wire X → (X → Wire Y) → Wire Y
err why >>= next = err why
ok value >>= next = next value

-- `read_exact`: so many bytes, and the rest of the stream.
unfoldable pub read_exact : ℕ → List ℕ → Wire (List ℕ × List ℕ)
read_exact zero s = ok ([], s)
read_exact (suc n) [] = err io
read_exact (suc n) (b ∷ s) = do (bs, rest) ← read_exact n s; ok (b ∷ bs, rest)

-- A cast to `u32`, `to_le_bytes` and `from_le_bytes`.
abbrev pub as_u32 : ℕ → ℕ
as_u32 n = n % 4294967296

unfoldable pub to_le_bytes : ℕ → List ℕ
to_le_bytes n = n % 256 ∷ n / 256 % 256 ∷ n / 65536 % 256 ∷ n / 16777216 % 256 ∷ []

unfoldable pub from_le_bytes : List ℕ → ℕ
from_le_bytes [] = 0
from_le_bytes (b ∷ bs) = b + 256 * from_le_bytes bs

-- What a length prefix gives, and the rest of the stream.
unfoldable pub read_u32 : List ℕ → Wire (ℕ × List ℕ)
read_u32 s = do (bs, rest) ← read_exact 4 s; ok (from_le_bytes bs, rest)

pub read_exact-append : (bs rest : List ℕ) → read_exact (length bs) (bs ++ rest) ≡ ok (bs, rest)
unfolding read_exact
read_exact-append [] rest = refl
read_exact-append (b ∷ bs) rest = rw (read_exact-append bs rest)

pub read_u32-to_le_bytes :
    (n : ℕ) (rest : List ℕ) → n < 4294967296 → read_u32 (to_le_bytes n ++ rest) ≡ ok (n, rest)
unfolding read_u32 read_exact to_le_bytes from_le_bytes
read_u32-to_le_bytes n rest h = ap (λ m. ok (m, rest)) (omega arith)

-- A call that succeeds got a value from its first part.
pub >>=-eq-ok {κ μ} :
    {X : Type κ} {Y : Type μ} (first : Wire X) (next : X → Wire Y) {y : Y}
    → (first >>= next) ≡ ok y
    → (x : X) × (first ≡ ok x) × (next x ≡ ok y)
>>=-eq-ok (err why) next e = cc
>>=-eq-ok (ok x) next e = (x, refl, e)

pub ok-injective {ℓ} : {A : Type ℓ} {a b : A} → Wire.ok a ≡ ok b → a ≡ b
ok-injective e = cc

-- An exact read takes so many bytes from the stream.
pub length-read_exact :
    (n : ℕ) (s : List ℕ) {bs rest : List ℕ}
    → read_exact n s ≡ ok (bs, rest)
    → (length bs ≡ n) × (length s ≡ n + length rest)
unfolding read_exact
length-read_exact zero s e = (ground arith, ground arith)
length-read_exact (suc n) [] e = cc
length-read_exact (suc n) (b ∷ s) e =
    let ((bs, rest), p, q) = >>=-eq-ok (read_exact n s) _ e in
    let (h, k) = length-read_exact n s p in (ground arith, ground arith)

pub length-read_u32 :
    (s : List ℕ) {n : ℕ} {rest : List ℕ} → read_u32 s ≡ ok (n, rest) → length s ≡ 4 + length rest
unfolding read_u32
length-read_u32 s e =
    let ((bs, rest), p, q) = >>=-eq-ok (read_exact 4 s) _ e in
    let (h, k) = length-read_exact 4 s p in ground arith
