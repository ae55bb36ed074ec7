-- ===== src/Proto/Frame.antt =====
-- Frames of JSON (crates/portos-proto/src/frame.rs). `J` is the type of JSON values; `to_vec` and
-- `from_slice` are those of `serde_json`.
use portos.Base.{
  ℕ, ◌≤◌, ◌≡◌, Option, none, some, List, ◌++◌, append_assoc, length, leb, le→leb, if◌then◌else◌,
  arith,
}
use portos.Proto.Wire.{
  json, too_large, Wire, ok, err, ◌>>=◌, read_exact, as_u32, to_le_bytes, read_u32,
  read_exact-append, read_u32-to_le_bytes,
}

-- 8 MiB.
abbrev pub max_frame : ℕ
max_frame = 8388608

module _ {J : Type 0} (to_vec : J → Option (List ℕ)) (from_slice : List ℕ → Option J) where
  abbrev pub or_json : {A : Type 0} → Option A → Wire A
  or_json none = err json
  or_json (some a) = ok a

  unfoldable pub write_frame : J → List ℕ → Wire (List ℕ)
  write_frame payload w = do
    bytes ← or_json (to_vec payload)
    let len = as_u32 (length bytes)
    if leb len max_frame then ok (w ++ (to_le_bytes len ++ bytes)) else err (too_large len)

  unfoldable pub read_frame : List ℕ → Wire (J × List ℕ)
  read_frame s = do
    (len, s1) ← read_u32 s
    (buf, s2) ← if leb len max_frame then read_exact len s1 else err (too_large len)
    v ← or_json (from_slice buf)
    ok (v, s2)

  -- A value whose bytes fit a frame, and are read back to it by `serde_json`, is written, and what is
  -- written is read back to it from the stream, of which the rest is not touched.
  pub read_frame-write_frame :
      (v : J) (bytes before rest : List ℕ)
      → to_vec v ≡ some bytes
      → from_slice bytes ≡ some v
      → length bytes ≤ max_frame
      → (frame : List ℕ) × (write_frame v before ≡ ok (before ++ frame))
        × (read_frame (frame ++ rest) ≡ ok (v, rest))
  unfolding write_frame read_frame
  read_frame-write_frame v bytes before rest e d h =
      let fits = le→leb (length bytes) max_frame h in
      let same : as_u32 (length bytes) ≡ length bytes = omega arith in
      (
        to_le_bytes (length bytes) ++ bytes,
        rw (e, same, fits),
        rw (
          append_assoc (to_le_bytes (length bytes)) bytes rest,
          read_u32-to_le_bytes (length bytes) (bytes ++ rest) (omega arith),
          fits,
          read_exact-append bytes rest,
          d,
        ),
      )
