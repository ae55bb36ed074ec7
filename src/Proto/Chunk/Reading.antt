-- ===== src/Proto/Chunk/Reading.antt =====
-- `ChunkReader` (crates/portos-proto/src/chunk.rs) against the payload that its stream carries.
use portos.Base.{
  ℕ, zero, suc, ◌+◌, ◌-◌, ◌≤◌, ◌<◌, ◌≡◌, refl, sym, subst, ap, ◌∙◌, true, false, some, List, [],
  ◌∷◌, ◌++◌, append_assoc, append-nil, length, leb, leb→le, arith, Bool-cases, inl, inr,
}
use portos.Proto.Wire.{ok}
use portos.Proto.Chunk.{read_chunk, ChunkReader, take, drop, min, serve, refill, read}
use portos.Proto.Chunk.Stream.{Carries, ends, chunk, read_chunk-ok}

-- The payload that a reader has still to give, and what stands on the stream after it.
pub data Holds (r : ChunkReader) (p rest : List ℕ) : Type 0 where
  flows :
      {k : ℕ} {q : List ℕ}
      → r.done ≡ false
      → Carries k r.inner q rest
      → p ≡ drop r.pos r.buf ++ q
      → Holds r p rest
  ended : r.done ≡ true → r.inner ≡ rest → p ≡ drop r.pos r.buf → Holds r p rest

take-drop : (n : ℕ) (xs : List ℕ) → take n xs ++ drop n xs ≡ xs
unfolding take drop
take-drop zero [] = refl
take-drop (suc n) [] = refl
take-drop zero (x ∷ xs) = refl
take-drop (suc n) (x ∷ xs) = ap (λ ys. x ∷ ys) (take-drop n xs)

drop-add : (m n : ℕ) (xs : List ℕ) → drop (m + n) xs ≡ drop n (drop m xs)
unfolding drop
drop-add m n [] = refl
drop-add zero n (x ∷ xs) = ap (λ k. drop k (x ∷ xs)) (omega arith)
drop-add (suc m) n (x ∷ xs) =
    let e : suc m + n ≡ suc (m + n) = omega arith in ap (λ k. drop k (x ∷ xs)) e ∙ drop-add m n xs

drop-zero : (xs : List ℕ) → drop 0 xs ≡ xs
unfolding drop
drop-zero [] = refl
drop-zero (x ∷ xs) = refl

length-drop : (n : ℕ) (xs : List ℕ) → length (drop n xs) ≡ length xs - n
unfolding drop
length-drop zero [] = omega arith
length-drop (suc n) [] = omega arith
length-drop zero (x ∷ xs) = omega arith
length-drop (suc n) (x ∷ xs) = omega (arith, length-drop n xs)

drop_all : (n : ℕ) (xs : List ℕ) → length xs ≤ n → drop n xs ≡ []
unfolding drop
drop_all n [] h = refl
drop_all zero (x ∷ xs) h = absurd (omega arith)
drop_all (suc n) (x ∷ xs) h = drop_all n xs (omega arith)

take_some : (n : ℕ) (xs : List ℕ) → 0 < n → 0 < length xs → 0 < length (take n xs)
unfolding take
take_some n [] h k = absurd (omega arith)
take_some zero (x ∷ xs) h k = absurd (omega arith)
take_some (suc n) (x ∷ xs) h k = omega arith

-- A call gives bytes of the buffer, and as many are no longer in it.
serve_lem :
    (room : ℕ) (r : ChunkReader)
    → (drop r.pos r.buf ≡ (serve room r).0 ++ drop (serve room r).1.pos (serve room r).1.buf)
      × ((serve room r).1.inner ≡ r.inner)
      × ((serve room r).1.done ≡ r.done)
unfolding serve
serve_lem room r =
    let n = min (length r.buf - r.pos) room in
    (
      sym (
          ap (λ ys. take n (drop r.pos r.buf) ++ ys) (drop-add r.pos n r.buf)
          ∙ take-drop n (drop r.pos r.buf)),
      refl,
      refl,
    )

serve_some :
    (room : ℕ) (r : ChunkReader) → 0 < room → r.pos < length r.buf → 0 < length (serve room r).0
unfolding serve
serve_some room r h k =
    let n = min (length r.buf - r.pos) room in
    let some_n : 0 < n = ground arith in
    take_some n (drop r.pos r.buf) some_n (omega (arith, length-drop r.pos r.buf))

same_chunk : {c c' : List ℕ} → some c ≡ some c' → c ≡ c'
same_chunk e = cc

chunk_some : (s c s1 : List ℕ) → read_chunk s ≡ ok (some c, s1) → 0 < length c
chunk_some s c s1 e = elim (read_chunk-ok s (some c, s1) e).1 [
  | inl none_read ↦ absurd (cc)
  | inr (c', same, long) ↦ subst (λ xs. 0 < length xs) (sym (same_chunk same)) long
]

-- What a call of `read` does with the payload `p`: it gives its next bytes, and none only at its end.
abbrev pub Reads : ℕ → ChunkReader → List ℕ → List ℕ → Type 0
Reads room r p rest =
    (bs : List ℕ) × (r' : ChunkReader) × (p' : List ℕ) × (read room r ≡ ok (bs, r'))
    × (p ≡ bs ++ p')
    × Holds r' p' rest
    × (bs ≡ [] → p ≡ [])

not_empty {ℓ} : {X : Type ℓ} (bs : List ℕ) → 0 < length bs → bs ≡ [] → X
not_empty [] h e = absurd (omega arith)
not_empty (b ∷ bs) h e = absurd (cc)

-- A call that serves from a buffer with bytes left.
serve-Holds :
    (room : ℕ) (r : ChunkReader) (p rest : List ℕ)
    → Holds r p rest
    → (p' : List ℕ) × (p ≡ (serve room r).0 ++ p') × Holds (serve room r).1 p' rest
serve-Holds room r p rest (flows {k = k} {q = q} d c e) =
    let (s, i, n) = serve_lem room r in
    let r' = (serve room r).1 in
    (
      drop r'.pos r'.buf ++ q,
      e ∙ ap (λ ys. ys ++ q) s ∙ append_assoc (serve room r).0 (drop r'.pos r'.buf) q,
      flows {k = k} (n ∙ d) (subst (λ s. Carries k s q rest) (sym i) c) refl,
    )
serve-Holds room r p rest (ended d i e) =
    let (s, i', n) = serve_lem room r in
    let r' = (serve room r).1 in (drop r'.pos r'.buf, e ∙ s, ended (n ∙ d) (i' ∙ i) refl)

-- A call when the buffer has nothing left: it is the end, or the next chunk is read.
refill-Holds :
    (room : ℕ) (r : ChunkReader) (p rest : List ℕ)
    → 0 < room
    → leb (length r.buf) r.pos ≡ true
    → Holds r p rest
    → Reads room r p rest
unfolding read refill
refill-Holds room r p rest h out (ended d i e) =
    let none_left = e ∙ drop_all r.pos r.buf (leb→le _ _ out) in
    ([], r, p, rw (out, d), refl, ended d i e, λ _. none_left)
refill-Holds room r p rest h out (flows d (ends x) e) =
    let r' : ChunkReader = record r { inner = rest; done = true } in
    let none_left = e ∙ append-nil (drop r.pos r.buf) ∙ drop_all r.pos r.buf (leb→le _ _ out) in
    (
      [],
      r',
      p,
      rw (out, d, x),
      refl,
      ended refl refl (e ∙ append-nil (drop r.pos r.buf)),
      λ _. none_left,
    )
refill-Holds room r p rest h out (flows d (chunk {k = k} {c = c} {s1 = s1} {q = q} x v) e) =
    let r1 : ChunkReader = record r { inner = s1; buf = c; pos = 0 } in
    let here = e ∙ ap (λ ys. ys ++ (c ++ q)) (drop_all r.pos r.buf (leb→le _ _ out)) in
    let (p', e', v') =
      serve-Holds room r1 p rest
        (flows {k = k} d v (here ∙ ap (λ ys. ys ++ q) (sym (drop-zero c)))) in
    (
      (serve room r1).0,
      (serve room r1).1,
      p',
      rw (out, d, x),
      e',
      v',
      not_empty (serve room r1).0 (serve_some room r1 h (chunk_some r.inner c s1 x)),
    )

-- A reader that holds a payload gives it call by call, in order and whole: each call with room gives
-- the next bytes, and none only when the payload has ended; the stream after it is not touched.
pub read-Holds :
    (room : ℕ) (r : ChunkReader) (p rest : List ℕ) → 0 < room → Holds r p rest → Reads room r p rest
unfolding read
read-Holds room r p rest h v = elim (Bool-cases (leb (length r.buf) r.pos)) [
  | inl out ↦ refill-Holds room r p rest h out v
  | inr more ↦
      let (p', e, v') = serve-Holds room r p rest v in
      (
        (serve room r).0,
        (serve room r).1,
        p',
        rw more,
        e,
        v',
        not_empty (serve room r).0 (serve_some room r h (ground arith)),
      )
]
