-- ===== src/Server/Conn/Stream.antt =====
-- `read_by` of src/server.rs and `read_frame` of src/frame.rs: reads from segments with their
-- times, and reads from the bytes in a row.
use mpx_cli.Prelude.{
  ℕ, zero, suc, ◌+◌, ◌-◌, ◌≤◌, ◌<◌, ◌≡◌, refl, ap, sym, ◌∙◌, subst, Bool, List, [], ◌∷◌, ◌++◌,
  length, take, drop, All, arith, leb, leb→le, leb-false, ltb, if◌then◌else◌, Bytes, Bool-cases,
  inl, inr, length-append, from_be_bytes,
}
use Prim.Native.Nat.{max}
use mpx_cli.Frame.Io.{Result, ok, err, panic, max_frame, read_frame, read_body, slice_read_exact}
use mpx_cli.Frame.Framing.{read_slice}
use mpx_cli.Server.Conn.{
  Segment, segment_bytes, Conn, Received, prepend, unread, receive, read_exact, read_by,
}

-- The bytes of the segments in a row.
abbrev pub stream : List Segment → Bytes
stream [] = []
stream (s ∷ ss) = segment_bytes s ++ stream ss

-- Segments that arrive before the deadline.
abbrev pub IsTimely : ℕ → List Segment → Type 0
IsTimely deadline = All (λ s. s.arrives < deadline)

take-append_le : (n : ℕ) (us vs : Bytes) → n ≤ length us → take n (us ++ vs) ≡ take n us
take-append_le zero us vs h = refl
take-append_le (suc n) [] vs h = absurd (omega arith)
take-append_le (suc n) (u ∷ us) vs h = ap (◌∷◌ u) (take-append_le n us vs (omega arith))

drop-append_le : (n : ℕ) (us vs : Bytes) → n ≤ length us → drop n (us ++ vs) ≡ drop n us ++ vs
drop-append_le zero us vs h = refl
drop-append_le (suc n) [] vs h = absurd (omega arith)
drop-append_le (suc n) (u ∷ us) vs h = drop-append_le n us vs (omega arith)

take-append_gt : (n m : ℕ) (us vs : Bytes) → n ≡ length us + m → take n (us ++ vs) ≡ us ++ take m vs
take-append_gt n m [] vs e = ap (λ k. take k vs) (omega (arith, e))
take-append_gt zero m (u ∷ us) vs e = absurd (omega (arith, e))
take-append_gt (suc n) m (u ∷ us) vs e = ap (◌∷◌ u) (take-append_gt n m us vs (omega (arith, e)))

drop-append_gt : (n m : ℕ) (us vs : Bytes) → n ≡ length us + m → drop n (us ++ vs) ≡ drop m vs
drop-append_gt n m [] vs e = ap (λ k. drop k vs) (omega (arith, e))
drop-append_gt zero m (u ∷ us) vs e = absurd (omega (arith, e))
drop-append_gt (suc n) m (u ∷ us) vs e = drop-append_gt n m us vs (omega (arith, e))

-- A read of the first `n` bytes of a stream.
abbrev prepended : Bytes → Result Bytes → Result Bytes
prepended us (ok bs) = ok (us ++ bs)
prepended us (err e) = err e
prepended us panic = panic

record Reads (deadline n : ℕ) (bytes : Bytes) (r : Received) : Type 0 where
  result : r.0 ≡ ok (take n bytes)
  left : stream r.2 ≡ drop n bytes
  early : r.1 < deadline
  timely : IsTimely deadline r.2

stream-unread :
    (now : ℕ) (bs : Bytes) (rest : List Segment) → stream (unread now bs rest) ≡ bs ++ stream rest
stream-unread now [] rest = refl
stream-unread now (b ∷ bs) rest = refl

IsTimely-unread :
    (deadline now : ℕ) (bs : Bytes) (rest : List Segment)
    → now < deadline
    → IsTimely deadline rest
    → IsTimely deadline (unread now bs rest)
IsTimely-unread deadline now [] rest h k = k
IsTimely-unread deadline now (b ∷ bs) rest h k = (h, k)

-- In time, a read takes what the segment has.
receive-cons :
    (deadline : ℕ) (closed : Bool) (n now : ℕ) (s : Segment) (rest : List Segment)
    → now < deadline
    → s.arrives < deadline
    → let t = max now s.arrives in
      let bs = segment_bytes s in
      receive deadline closed (suc n) now (s ∷ rest) ≡ (
        if leb (suc n) (length bs)
        then (ok (take (suc n) bs), t, unread t (drop (suc n) bs) rest)
        else prepend bs (receive deadline closed (suc n - length bs) t rest))
unfolding receive
receive-cons deadline closed n now s rest h k = ground arith

prepend-Reads :
    (deadline n : ℕ) (us vs : Bytes) (r : Received)
    → length us ≤ n
    → Reads deadline (n - length us) vs r
    → Reads deadline n (us ++ vs) (prepend us r)
prepend-Reads deadline n us vs (ok bs, t, rest) h k = record {
  result =
      ap (prepended us) k.result
      ∙ ap ok (sym (take-append_gt n (n - length us) us vs (omega (arith, h))));
  left = k.left ∙ sym (drop-append_gt n (n - length us) us vs (omega (arith, h)));
  early = k.early;
  timely = k.timely;
}
prepend-Reads deadline n us vs (err e, t, rest) h k = absurd (cc (k.result))
prepend-Reads deadline n us vs (panic, t, rest) h k = absurd (cc (k.result))

receive-Reads :
    (deadline : ℕ) (closed : Bool) (n now : ℕ) (segments : List Segment)
    → now < deadline
    → IsTimely deadline segments
    → n ≤ length (stream segments)
    → Reads deadline n (stream segments) (receive deadline closed n now segments)
unfolding receive
receive-Reads deadline closed zero now [] h k l = record {
  result = refl;
  left = refl;
  early = h;
  timely = tt;
}
receive-Reads deadline closed (suc n) now [] h k l = absurd (omega arith)
receive-Reads deadline closed zero now (s ∷ rest) h k l = record {
  result = refl;
  left = refl;
  early = h;
  timely = k;
}
receive-Reads deadline closed (suc n) now (s ∷ rest) h k l =
    let t = max now s.arrives in
    let bs = segment_bytes s in
    let ih : suc n - length bs ≤ length (stream rest)
        → Reads deadline (suc n - length bs) (stream rest)
            (receive deadline closed (suc n - length bs) t rest) =
      receive-Reads deadline closed (suc n - length bs) t rest (omega (arith, k.0)) k.1 in
    subst (Reads deadline (suc n) (bs ++ stream rest))
      (sym (receive-cons deadline closed n now s rest h k.0))
      (elim (Bool-cases (leb (suc n) (length bs))) [
        | inl enough ↦ rw enough (record {
          result =
              ap ok
                (sym (take-append_le (suc n) bs (stream rest) (leb→le (suc n) (length bs) enough)));
          left =
              stream-unread t (drop (suc n) bs) rest
              ∙ sym (drop-append_le (suc n) bs (stream rest) (leb→le (suc n) (length bs) enough));
          early = omega (arith, k.0);
          timely = IsTimely-unread deadline t (drop (suc n) bs) rest (omega (arith, k.0)) k.1;
        })
        | inr short ↦ rw short (
            let less = leb-false (suc n) (length bs) short in
            prepend-Reads deadline (suc n) bs (stream rest) _ (omega (arith, less))
              (ih (omega (arith, l, length-append bs (stream rest)))))
      ])

-- A later deadline changes nothing.
receive-later :
    (limit deadline : ℕ) (closed : Bool) (n now : ℕ) (segments : List Segment)
    → limit ≤ deadline
    → now < limit
    → IsTimely limit segments
    → n ≤ length (stream segments)
    → receive deadline closed n now segments ≡ receive limit closed n now segments
unfolding receive
receive-later limit deadline closed zero now [] m h k l = refl
receive-later limit deadline closed (suc n) now [] m h k l = absurd (omega arith)
receive-later limit deadline closed zero now (s ∷ rest) m h k l = refl
receive-later limit deadline closed (suc n) now (s ∷ rest) m h k l =
    let t = max now s.arrives in
    let bs = segment_bytes s in
    let ih : suc n - length bs ≤ length (stream rest)
        → receive deadline closed (suc n - length bs) t rest
          ≡ receive limit closed (suc n - length bs) t rest =
      receive-later limit deadline closed (suc n - length bs) t rest m (omega (arith, k.0)) k.1 in
    receive-cons deadline closed n now s rest (omega (arith, m, h)) (omega (arith, m, k.0))
    ∙ elim (Bool-cases (leb (suc n) (length bs))) [
      | inl enough ↦ rw enough refl
      | inr short ↦
          let less = leb-false (suc n) (length bs) short in
          rw short (ap (prepend bs) (ih (omega (arith, l, length-append bs (stream rest)))))
    ]
    ∙ sym (receive-cons limit closed n now s rest h k.0)

-- `read_exact` on the connection and on the bytes in a row.
pub record Agrees (limit : ℕ) (r : Result Bytes × Conn) (p : Result Bytes × Bytes) : Type 0 where
  pub result : r.0 ≡ p.0
  pub left : stream r.1.inbound ≡ p.1
  pub early : r.1.now < limit
  pub timely : IsTimely limit r.1.inbound

module _ (limit deadline : ℕ) (le : limit ≤ deadline) where
  read_exact-Agrees :
      (n : ℕ) (c : Conn)
      → c.now < limit
      → IsTimely limit c.inbound
      → n ≤ length (stream c.inbound)
      → Agrees limit
          (read_exact deadline n c)
          (ok (take n (stream c.inbound)), drop n (stream c.inbound))
  unfolding read_exact
  read_exact-Agrees n c h k l =
      let r : Reads limit n (stream c.inbound) (receive deadline c.closed n c.now c.inbound) =
        subst (Reads limit n (stream c.inbound))
          (sym (receive-later limit deadline c.closed n c.now c.inbound le h k l))
          (receive-Reads limit c.closed n c.now c.inbound h k l) in
      record { result = r.result; left = r.left; early = r.early; timely = r.timely }

  read_body-Agrees :
      (n : ℕ) (c : Conn) (bs frame rest : Bytes)
      → c.now < limit
      → IsTimely limit c.inbound
      → stream c.inbound ≡ bs
      → read_body slice_read_exact n bs ≡ (ok frame, rest)
      → Agrees limit (read_body (read_exact deadline) n c) (ok frame, rest)
  unfolding read_body
  read_body-Agrees n c bs frame rest h k e q = elim (Bool-cases (ltb max_frame n)) [
    | inl big ↦ absurd (cc (rw big at q))
    | inr fits ↦ elim (Bool-cases (leb n (length bs))) [
      | inl enough ↦ rw fits (
          subst (Agrees limit (read_exact deadline n c))
            (ap (λ b. (ok (take n b), drop n b)) e ∙ rw enough at (rw fits at q))
            (read_exact-Agrees n c h k
              (subst (λ b. n ≤ length b) (sym e) (leb→le n (length bs) enough))))
      | inr short ↦ absurd (cc (rw short at (rw fits at q)))
    ]
  ]

  pub read_by-Agrees_early :
      (c : Conn) (frame rest : Bytes)
      → c.now < limit
      → IsTimely limit c.inbound
      → read_slice (stream c.inbound) ≡ (ok frame, rest)
      → Agrees limit (read_by deadline c) (ok frame, rest)
  unfolding read_by read_frame
  read_by-Agrees_early c frame rest h k q = elim (Bool-cases (leb 4 (length (stream c.inbound)))) [
    | inl enough ↦
        let r = read_exact-Agrees 4 c h k (leb→le 4 (length (stream c.inbound)) enough) in
        rw (r.result) (
          read_body-Agrees (from_be_bytes (take 4 (stream c.inbound))) _ (drop 4 (stream c.inbound))
            frame rest r.early r.timely r.left (rw enough at q))
    | inr short ↦ absurd (cc (rw short at q))
  ]

-- If all segments arrive before the deadline and the clock stands before it, and `read_frame`
-- reads a frame from the bytes in a row, then `read_by` reads the same frame from the
-- segments, leaves segments of the same bytes, and the clock still stands before the deadline.
pub read_by-Agrees :
    (deadline : ℕ) (c : Conn) (frame rest : Bytes)
    → c.now < deadline
    → IsTimely deadline c.inbound
    → read_slice (stream c.inbound) ≡ (ok frame, rest)
    → Agrees deadline (read_by deadline c) (ok frame, rest)
read_by-Agrees deadline = read_by-Agrees_early deadline deadline (omega arith)
