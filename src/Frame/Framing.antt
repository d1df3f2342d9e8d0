-- ===== src/Frame/Framing.antt =====
-- A written frame is read back, up to the limit on its length.
use mpx_cli.Prelude.{
  ℕ, ◌^◌, ◌≤◌, ◌<◌, ◌≡◌, refl, ap, ◌∙◌, ◌++◌, append_assoc, arith, le→ltb, lt→ltb, le→leb, length,
  length-append, take-append, drop-append, Bytes, to_be_bytes, from_be_bytes,
  from_be_bytes-to_be_bytes_four,
}
use mpx_cli.Frame.Io.{
  Io, ok, err, too_large, max_frame, read_body, read_frame, frame_header, write_frame,
  slice_read_exact, vec_write_all, vec_flush, follow,
}

-- `read_frame` on a byte slice, and what `write_frame` appends to a `Vec`.
abbrev pub read_slice : Io Bytes Bytes
read_slice = read_frame slice_read_exact

abbrev pub write_vec : Bytes → Io Bytes (Unit {0})
write_vec = write_frame vec_write_all vec_flush

slice_read_exact-append :
    (n : ℕ) (us vs : Bytes) → n ≡ length us → slice_read_exact n (us ++ vs) ≡ (ok us, vs)
slice_read_exact-append n us vs e = rw e (
    rw (le→leb (length us) (length (us ++ vs)) (omega (arith, length-append us vs)))
      (rw (take-append us vs, drop-append us vs) refl))

read_slice_header :
    (n : ℕ) (s : Bytes)
    → n < 2 ^ 32
    → read_slice (to_be_bytes 4 n ++ s) ≡ read_body slice_read_exact n s
unfolding read_frame
read_slice_header n s h =
    ap (λ r. follow r.0 (λ bs. read_body slice_read_exact (from_be_bytes bs)) r.1)
      (slice_read_exact-append 4 (to_be_bytes 4 n) s refl)
    ∙ ap (λ k. read_body slice_read_exact k s) (from_be_bytes-to_be_bytes_four n h)

-- A frame of at most `max_frame` bytes that `write_frame` wrote is read back whole by
-- `read_frame`, and the bytes behind it stay.
pub read_frame-write_frame :
    (frame out rest : Bytes)
    → length frame ≤ max_frame
    → (sent : Bytes) × (write_vec frame out ≡ (ok tt, out ++ sent))
      × (read_slice (sent ++ rest) ≡ (ok frame, rest))
unfolding write_frame frame_header
read_frame-write_frame frame out rest h = (
  to_be_bytes 4 (length frame) ++ frame,
  rw (lt→ltb (length frame) (2 ^ 32) (omega arith))
      (rw (append_assoc out (to_be_bytes 4 (length frame)) frame)),
  read_slice_header (length frame) (frame ++ rest) (omega arith)
      ∙ unfold read_body in
        rw (le→ltb max_frame (length frame) h)
          (slice_read_exact-append (length frame) frame rest refl),
)

-- A header that announces more than `max_frame` bytes is refused by `read_frame`, and nothing
-- behind it is read.
read_frame_too_large :
    (n : ℕ) (rest : Bytes)
    → max_frame < n
    → n < 2 ^ 32
    → read_slice (to_be_bytes 4 n ++ rest) ≡ (err (too_large n), rest)
unfolding read_body
read_frame_too_large n rest h k = read_slice_header n rest k ∙ rw (lt→ltb max_frame n h) refl
