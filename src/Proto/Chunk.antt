-- ===== src/Proto/Chunk.antt =====
-- Streams of chunks (crates/portos-proto/src/chunk.rs). What the reader of a payload yields is a list
-- of pieces, one for each call, and an empty piece or none is its end.
pub mod Stream
pub mod Reading
use Prim.Native.Nat.{◌%◌}
use portos.Base.{
  ℕ, zero, suc, ◌+◌, ◌-◌, ◌*◌, ◌≡◌, refl, Bool, true, false, Option, none, some, List, [], ◌∷◌,
  ◌++◌, length, leb, ◌==◌, if◌then◌else◌,
}
use portos.Proto.Wire.{
  WireError, io, too_large, Wire, ok, err, ◌>>=◌, read_exact, as_u32, to_le_bytes, read_u32,
}

-- 4 MiB.
abbrev pub chunk_max : ℕ
chunk_max = 4194304

abbrev pub as_u64 : ℕ → ℕ
as_u64 n = n % 18446744073709551616

unfoldable pub write_chunk : List ℕ → List ℕ → Wire (List ℕ)
write_chunk bytes w =
    let len = as_u32 (length bytes) in
    if leb len chunk_max then ok (w ++ (to_le_bytes len ++ bytes)) else err (too_large len)

unfoldable pub finish : List ℕ → List ℕ
finish w = w ++ to_le_bytes 0

-- The chunk, or none at the terminator, and the rest of the stream.
unfoldable pub chunk_of : ℕ → List ℕ → Wire (Option (List ℕ) × List ℕ)
chunk_of len s = do
  (buf, rest) ← if leb len chunk_max then read_exact len s else err (too_large len)
  ok (some buf, rest)

unfoldable pub read_chunk : List ℕ → Wire (Option (List ℕ) × List ℕ)
unfolding chunk_of
read_chunk s = do (len, s1) ← read_u32 s; if len == 0 then ok (none, s1) else chunk_of len s1

unfoldable pub copy_into : List (List ℕ) → ℕ → List ℕ → Wire (ℕ × List ℕ)
copy_into [] total w = ok (total, finish w)
copy_into ([] ∷ ps) total w = ok (total, finish w)
copy_into ((b ∷ bs) ∷ ps) total w = do
  w1 ← write_chunk (b ∷ bs) w
  copy_into ps (as_u64 (total + length (b ∷ bs))) w1

unfoldable pub copy_into_chunks : List (List ℕ) → List ℕ → Wire (ℕ × List ℕ)
unfolding copy_into
copy_into_chunks pieces w = copy_into pieces 0 w

-- The loop of `copy_from_chunks`, on fuel: each chunk takes bytes of the stream.
abbrev pub Copied : Type 0
Copied = ℕ × List ℕ × List ℕ

unfoldable pub on_chunk :
    (List ℕ → ℕ → List ℕ → Wire Copied) → ℕ → List ℕ → Option (List ℕ) × List ℕ → Wire Copied
on_chunk next total out (none, rest) = ok (total, out, rest)
on_chunk next total out (some c, rest) = next rest (as_u64 (total + length c)) (out ++ c)

unfoldable pub copy_from : ℕ → List ℕ → ℕ → List ℕ → Wire Copied
unfolding on_chunk
copy_from zero s total out = err io
copy_from (suc fuel) s total out = do r ← read_chunk s; on_chunk (copy_from fuel) total out r

unfoldable pub copy_from_chunks : List ℕ → List ℕ → Wire Copied
unfolding copy_from
copy_from_chunks s out = copy_from (length s) s 0 out

-- `ChunkReader`.
pub record ChunkReader : Type 0 where
  pub inner : List ℕ
  pub buf : List ℕ
  pub pos : ℕ
  pub done : Bool

unfoldable pub new : List ℕ → ChunkReader
new s = record { inner = s; buf = []; pos = 0; done = false }

unfoldable pub take : ℕ → List ℕ → List ℕ
take n [] = []
take zero (x ∷ xs) = []
take (suc n) (x ∷ xs) = x ∷ take n xs

unfoldable pub drop : ℕ → List ℕ → List ℕ
drop n [] = []
drop zero (x ∷ xs) = x ∷ xs
drop (suc n) (x ∷ xs) = drop n xs

abbrev pub min : ℕ → ℕ → ℕ
min a b = if leb a b then a else b

-- What the buffer gives to a call with room for so many bytes.
unfoldable pub serve : ℕ → ChunkReader → List ℕ × ChunkReader
unfolding take drop
serve room r =
    let n = min (length r.buf - r.pos) room in
    (take n (drop r.pos r.buf), record r { pos = r.pos + n })

unfoldable pub refill : ℕ → ChunkReader → Option (List ℕ) × List ℕ → List ℕ × ChunkReader
unfolding serve
refill room r (none, rest) = ([], record r { inner = rest; done = true })
refill room r (some c, rest) = serve room (record r { inner = rest; buf = c; pos = 0 })

unfoldable pub read : ℕ → ChunkReader → Wire (List ℕ × ChunkReader)
unfolding serve refill
read room r =
    if leb (length r.buf) r.pos
    then if r.done then ok ([], r) else (read_chunk r.inner >>= λ c. ok (refill room r c))
    else ok (serve room r)

-- `drain`, on fuel.
abbrev pub to_end :
    (ChunkReader → Wire ChunkReader) → ChunkReader → Option (List ℕ) × List ℕ → Wire ChunkReader
to_end next r (none, rest) = ok (record r { inner = rest; done = true })
to_end next r (some c, rest) = next (record r { inner = rest })

unfoldable pub drain : ℕ → ChunkReader → Wire ChunkReader
drain zero r = err io
drain (suc fuel) r = if r.done then ok r else read_chunk r.inner >>= to_end (drain fuel) r
