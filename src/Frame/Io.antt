-- ===== src/Frame/Io.antt =====
-- `FrameError`, `read_frame` and `write_frame`, over any `Read` and `Write`.
use mpx_cli.Prelude.{
  ℕ, ◌*◌, ◌^◌, [], ◌++◌, ltb, leb, if◌then◌else◌, length, take, drop, Bytes, to_be_bytes,
  from_be_bytes,
}

-- The kinds of `std::io::Error` that the code meets.
pub data IoError : Type 0 where
  unexpected_eof timed_out broken : IoError

pub data FrameError : Type 0 where
  io : IoError → FrameError
  too_large : ℕ → FrameError
  crypto malformed : FrameError

-- `Result<A, FrameError>`, or a panic, which no `?` turns into a value.
pub data Result {ℓ} (A : Type ℓ) : Type ℓ where
  ok : A → Result A
  err : FrameError → Result A
  panic : Result A

-- Code that works on a state `S`. What was done before an error stays done.
abbrev pub Io {ℓ} : Type 0 → Type ℓ → Type ℓ
Io S A = S → Result A × S

module _ {ℓ} {S : Type 0} {A : Type ℓ} where
  abbrev pub pure : A → Io S A
  pure a s = (ok a, s)

  abbrev pub fail : FrameError → Io S A
  fail e s = (err e, s)

  abbrev pub lift : Result A → Io S A
  lift r s = (r, s)

abbrev pub follow {ℓ κ} : {S : Type 0} {A : Type ℓ} {B : Type κ} → Result A → (A → Io S B) → Io S B
follow (ok a) f s = f a s
follow (err e) f s = (err e, s)
follow panic f s = (panic, s)

-- `?`
infixl 5 ◌>>=◌ ◌>>◌
abbrev pub ◌>>=◌ {ℓ κ} : {S : Type 0} {A : Type ℓ} {B : Type κ} → Io S A → (A → Io S B) → Io S B
◌>>=◌ m f s = let (r, s') = m s in follow r f s'

abbrev pub ◌>>◌ {κ} : {S : Type 0} {B : Type κ} → Io S (Unit {0}) → Io S B → Io S B
m >> k = m >>= λ _. k

-- `MAX_FRAME`
abbrev pub max_frame : ℕ
max_frame = 64 * 1024

-- The body of `read_frame` once the length is known.
unfoldable pub read_body : {S : Type 0} → (ℕ → Io S Bytes) → ℕ → Io S Bytes
read_body read_exact len = if ltb max_frame len then fail (too_large len) else read_exact len

-- `read_frame`, given the stream's `read_exact`.
unfoldable pub read_frame : {S : Type 0} → (ℕ → Io S Bytes) → Io S Bytes
unfolding read_body
read_frame read_exact = do len_bytes ← read_exact 4; read_body read_exact (from_be_bytes len_bytes)

-- `u32::try_from(len).unwrap().to_be_bytes()`
unfoldable pub frame_header : ℕ → Result Bytes
frame_header len = if ltb len (2 ^ 32) then ok (to_be_bytes 4 len) else panic

-- `write_frame`, given the stream's `write_all` and `flush`.
unfoldable pub write_frame :
    {S : Type 0} → (Bytes → Io S (Unit {0})) → Io S (Unit {0}) → Bytes → Io S (Unit {0})
unfolding frame_header
write_frame write_all flush frame = do
  header ← lift (frame_header (length frame))
  write_all header
  write_all frame
  flush

-- `read_exact` of a byte slice, and `write_all` and `flush` of a `Vec<u8>`.
abbrev pub slice_read_exact : ℕ → Io Bytes Bytes
slice_read_exact n s =
    if leb n (length s) then (ok (take n s), drop n s) else (err (io unexpected_eof), [])

abbrev pub vec_write_all : Bytes → Io Bytes (Unit {0})
vec_write_all bs s = (ok tt, s ++ bs)

abbrev pub vec_flush : Io Bytes (Unit {0})
vec_flush s = (ok tt, s)
