-- ===== src/Examples/Streams.antt =====
-- Frames and chunks at concrete streams.
use portos.Base.{ℕ, ◌≡◌, refl, some, List, [], ◌∷◌, ◌++◌, length, Option, arith}
use portos.Proto.Wire.{ok, read_exact, read_u32, from_le_bytes}
use portos.Proto.Frame.{write_frame, read_frame, read_frame-write_frame}
use portos.Proto.Chunk.{as_u64, chunk_of, read_chunk, copy_into_chunks, copy_from_chunks, new, drop}
use portos.Proto.Chunk.Stream.{Carries, ends, chunk, concat, copy_from-copy_into}
use portos.Proto.Chunk.Reading.{Holds, flows, Reads, read-Holds}

-- A JSON value is its bytes here.
abbrev to_bytes : List ℕ → Option (List ℕ)
to_bytes v = some v

read_frame-write_frame_example :
    (frame : List ℕ) × (write_frame to_bytes to_bytes (1 ∷ 2 ∷ []) (9 ∷ [])
      ≡ ok ((9 ∷ []) ++ frame))
    × (read_frame to_bytes to_bytes (frame ++ 7 ∷ []) ≡ ok (1 ∷ 2 ∷ [], 7 ∷ []))
read_frame-write_frame_example =
    read_frame-write_frame to_bytes to_bytes (1 ∷ 2 ∷ []) (1 ∷ 2 ∷ []) (9 ∷ []) (7 ∷ []) refl refl
      (omega arith)

abbrev pieces : List (List ℕ)
pieces = (5 ∷ 6 ∷ []) ∷ (7 ∷ []) ∷ []

copy_from-copy_into_example :
    (chunks : List ℕ) × (copy_into_chunks pieces (9 ∷ [])
      ≡ ok (as_u64 (length (concat pieces)), (9 ∷ []) ++ chunks))
    × (copy_from_chunks (chunks ++ 8 ∷ []) []
        ≡ ok (as_u64 (length (concat pieces)), [] ++ concat pieces, 8 ∷ []))
copy_from-copy_into_example = copy_from-copy_into pieces (9 ∷ []) (8 ∷ []) [] (omega arith)

abbrev wire : List ℕ
wire = 2 ∷ 0 ∷ 0 ∷ 0 ∷ 5 ∷ 6 ∷ 0 ∷ 0 ∷ 0 ∷ 0 ∷ 8 ∷ []

wire-Carries : Carries 1 wire ((5 ∷ 6 ∷ []) ++ []) (8 ∷ [])
unfolding read_chunk read_u32 read_exact from_le_bytes chunk_of
wire-Carries = chunk {s1 = 0 ∷ 0 ∷ 0 ∷ 0 ∷ 8 ∷ []} refl (ends refl)

wire-Holds : Holds (new wire) (5 ∷ 6 ∷ []) (8 ∷ [])
unfolding new drop
wire-Holds = flows refl wire-Carries refl

read-Holds_example : Reads 1 (new wire) (5 ∷ 6 ∷ []) (8 ∷ [])
read-Holds_example = read-Holds 1 (new wire) (5 ∷ 6 ∷ []) (8 ∷ []) (omega arith) wire-Holds
