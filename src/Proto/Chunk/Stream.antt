-- ===== src/Proto/Chunk/Stream.antt =====
-- Well-formed streams of chunks, and the copies to and from them.
use portos.Base.{
  ℕ, zero, suc, ◌+◌, ◌≤◌, ◌<◌, ◌≡◌, refl, sym, ap, ap₂, ◌∙◌, false, Option, none, some, ◌⊎◌, inl,
  inr, List, [], ◌∷◌, ◌++◌, append_assoc, append-nil, length, length-append, leb, le→leb, ◌==◌,
  arith, All, Bool-cases,
}
use portos.Proto.Wire.{
  too_large, ok, err, ◌>>=◌, read_exact, as_u32, to_le_bytes, read_u32, read_exact-append,
  read_u32-to_le_bytes, >>=-eq-ok, ok-injective, length-read_exact, length-read_u32,
}
use portos.Proto.Chunk.{
  chunk_max, as_u64, write_chunk, finish, chunk_of, read_chunk, copy_into, copy_into_chunks,
  on_chunk, copy_from, copy_from_chunks,
}

-- The stream `s` carries the payload `q`, and `rest` stands after its terminator. The number counts
-- its chunks.
pub data Carries : ℕ → List ℕ → List ℕ → List ℕ → Type 0 where
  ends : {s rest : List ℕ} → read_chunk s ≡ ok (none, rest) → Carries 0 s [] rest
  chunk :
      {k : ℕ} {s c s1 q rest : List ℕ}
      → read_chunk s ≡ ok (some c, s1)
      → Carries k s1 q rest
      → Carries (suc k) s (c ++ q) rest

abbrev pub concat : List (List ℕ) → List ℕ
concat [] = []
concat (p ∷ ps) = p ++ concat ps

-- A piece that a reader yields before its end: not empty, and not longer than a chunk may be.
abbrev pub IsPiece : List ℕ → Type 0
IsPiece p = (0 < length p) × (length p ≤ chunk_max)

chunk_bytes : List ℕ → List ℕ
chunk_bytes p = to_le_bytes (length p) ++ p

stream_of : List (List ℕ) → List ℕ
unfolding chunk_bytes
stream_of [] = to_le_bytes 0
stream_of (p ∷ ps) = chunk_bytes p ++ stream_of ps

pub positive_test : (n : ℕ) → 0 < n → (n == 0) ≡ false
positive_test n h = ground arith

chunk_of-append :
    (p rest : List ℕ) → length p ≤ chunk_max → chunk_of (length p) (p ++ rest) ≡ ok (some p, rest)
unfolding chunk_of
chunk_of-append p rest h = rw (le→leb (length p) chunk_max h, read_exact-append p rest)

read_chunk-chunk_bytes :
    (p rest : List ℕ) → IsPiece p → read_chunk (chunk_bytes p ++ rest) ≡ ok (some p, rest)
unfolding read_chunk chunk_bytes
read_chunk-chunk_bytes p rest (pos, le) =
    rw
      (
        append_assoc (to_le_bytes (length p)) p rest,
        read_u32-to_le_bytes (length p) (p ++ rest) (omega arith),
        positive_test (length p) pos,
      )
      (chunk_of-append p rest le)

read_chunk-terminator : (rest : List ℕ) → read_chunk (to_le_bytes 0 ++ rest) ≡ ok (none, rest)
unfolding read_chunk
read_chunk-terminator rest = rw (read_u32-to_le_bytes 0 rest (omega arith))

stream_of-Carries :
    (ps : List (List ℕ)) (rest : List ℕ)
    → All IsPiece ps
    → Carries (length ps) (stream_of ps ++ rest) (concat ps) rest
unfolding stream_of
stream_of-Carries [] rest h = ends (read_chunk-terminator rest)
stream_of-Carries (p ∷ ps) rest (h, hs) =
    chunk
      (ap read_chunk (append_assoc (chunk_bytes p) (stream_of ps) rest)
        ∙ read_chunk-chunk_bytes p (stream_of ps ++ rest) h)
      (stream_of-Carries ps rest hs)

write_chunk_lem : (p w : List ℕ) → IsPiece p → write_chunk p w ≡ ok (w ++ chunk_bytes p)
unfolding write_chunk chunk_bytes
write_chunk_lem p w (pos, le) =
    let same : as_u32 (length p) ≡ length p = omega arith in
    rw (same, le→leb (length p) chunk_max le)

-- The number that a copy of the payload returns.
abbrev pub counted : ℕ → List (List ℕ) → ℕ
counted total [] = total
counted total (p ∷ ps) = counted (as_u64 (total + length p)) ps

copy_into_lem :
    (ps : List (List ℕ)) (total : ℕ) (w : List ℕ)
    → All IsPiece ps
    → copy_into ps total w ≡ ok (counted total ps, w ++ stream_of ps)
unfolding copy_into finish stream_of
copy_into_lem [] total w h = refl
copy_into_lem ([] ∷ ps) total w h = absurd (omega (arith, h.0.0))
copy_into_lem ((b ∷ bs) ∷ ps) total w (h, hs) = rw (write_chunk_lem (b ∷ bs) w h) (
    copy_into_lem ps (as_u64 (total + length (b ∷ bs))) (w ++ chunk_bytes (b ∷ bs)) hs
    ∙ ap (λ x. ok (counted (as_u64 (total + length (b ∷ bs))) ps, x))
        (append_assoc w (chunk_bytes (b ∷ bs)) (stream_of ps)))

-- A chunk of so many bytes, and the stream after it.
chunk_of-ok :
    (n : ℕ) (s : List ℕ) (r : Option (List ℕ) × List ℕ)
    → chunk_of n s ≡ ok r
    → (buf : List ℕ) × (r.0 ≡ some buf) × (length buf ≡ n) × (length s ≡ n + length r.1)
unfolding chunk_of
chunk_of-ok n s r e = elim (Bool-cases (leb n chunk_max)) [
  | inl t ↦
      let e1 : (read_exact n s >>= λ (x : List ℕ × List ℕ). ok (some x.0, x.1)) ≡ ok r =
        rw t at e in
      let ((buf, rest), p, q) = >>=-eq-ok (read_exact n s) _ e1 in
      let (h, k) = length-read_exact n s p in
      let same = ok-injective q in
      (
        buf,
        sym (ap (λ x. x.0) same),
        h,
        k ∙ ap (λ (x : Option (List ℕ) × List ℕ). n + length x.1) same,
      )
  | inr f ↦ let bad : err (too_large n) ≡ ok r = rw f at e in cc
]

-- A chunk that is read has bytes, and what is read leaves less of the stream.
pub read_chunk-ok :
    (s : List ℕ) (r : Option (List ℕ) × List ℕ)
    → read_chunk s ≡ ok r
    → (length r.1 < length s) × ((r.0 ≡ none) ⊎ ((c : List ℕ) × (r.0 ≡ some c) × (0 < length c)))
unfolding read_chunk
read_chunk-ok s r e =
    let ((n, s1), p, q) = >>=-eq-ok (read_u32 s) _ e in
    let l = length-read_u32 s p in
    elim (Bool-cases (n == 0)) [
      | inl z ↦
          let q1 : ok (none, s1) ≡ ok r = rw z at q in
          let same = ok-injective q1 in
          let rest = ap (λ (x : Option (List ℕ) × List ℕ). length x.1) same in
          (omega arith, inl (sym (ap (λ x. x.0) same)))
      | inr z ↦
          let q1 : chunk_of n s1 ≡ ok r = rw z at q in
          let (c, h, k, m) = chunk_of-ok n s1 r q1 in (omega arith, inr (c, h, ground arith))
    ]

Carries-below : {k : ℕ} {s q rest : List ℕ} → Carries k s q rest → k < length s
Carries-below (ends {s = s} e) = omega (arith, (read_chunk-ok s _ e).0)
Carries-below (chunk {s = s} e c) = omega (arith, (read_chunk-ok s _ e).0, Carries-below c)

copy_from-Carries :
    (fuel : ℕ) {k : ℕ} {s q rest : List ℕ} (total : ℕ) (out : List ℕ)
    → Carries k s q rest
    → k < fuel
    → total < 18446744073709551616
    → copy_from fuel s total out ≡ ok (as_u64 (total + length q), out ++ q, rest)
unfolding copy_from on_chunk
copy_from-Carries zero total out c h t = absurd (omega arith)
copy_from-Carries (suc fuel) total out (ends {rest = rest} e) h t =
    rw (e, append-nil out) (ap (λ n. ok (n, out, rest)) (omega arith))
copy_from-Carries (suc fuel) total out (chunk {c = c} {s1 = s1} {q = q} {rest = rest} e r) h t =
    rw e (
      copy_from-Carries fuel (as_u64 (total + length c)) (out ++ c) r (omega arith) (omega arith)
      ∙ ap₂ (λ n xs. ok (n, xs, rest)) (omega (arith, length-append c q)) (append_assoc out c q))

counted_lem :
    (total : ℕ) (ps : List (List ℕ))
    → total < 18446744073709551616
    → counted total ps ≡ as_u64 (total + length (concat ps))
counted_lem total [] h = omega arith
counted_lem total (p ∷ ps) h =
    counted_lem (as_u64 (total + length p)) ps (omega arith)
    ∙ omega (arith, length-append p (concat ps))

-- Whatever pieces a reader yields, each within the size of a chunk, their chunks on a stream are
-- copied back to the payload: both copies return its length as a `u64`, and what stands on the stream
-- before and after is not touched.
pub copy_from-copy_into :
    (ps : List (List ℕ)) (before rest out : List ℕ)
    → All IsPiece ps
    → (chunks : List ℕ) × (copy_into_chunks ps before
        ≡ ok (as_u64 (length (concat ps)), before ++ chunks))
      × (copy_from_chunks (chunks ++ rest) out
          ≡ ok (as_u64 (length (concat ps)), out ++ concat ps, rest))
unfolding copy_into_chunks copy_from_chunks
copy_from-copy_into ps before rest out h =
    let c = stream_of-Carries ps rest h in
    (
      stream_of ps,
      copy_into_lem ps 0 before h
          ∙ ap (λ n. ok (n, before ++ stream_of ps)) (counted_lem 0 ps (omega arith) ∙ omega arith),
      copy_from-Carries (length (stream_of ps ++ rest)) 0 out c (Carries-below c) (omega arith)
          ∙ ap (λ n. ok (n, out ++ concat ps, rest)) (omega arith),
    )
