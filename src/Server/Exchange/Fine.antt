-- ===== src/Server/Exchange/Fine.antt =====
-- Steps of the handshake of src/server.rs that do not panic, and that leave the disk alone.
use mpx_cli.Prelude.{
  ℕ, ◌^◌, ◌<◌, ◌≡◌, Bool, true, false, Option, none, some, List, [], ◌∷◌, length, ltb, lt→ltb, leb,
  if◌then◌else◌, ◌==◌, Bytes,
}
use mpx_cli.Frame.Io.{
  Result, ok, err, panic, Io, pure, follow, ◌>>=◌, read_frame, read_body, write_frame, frame_header,
  max_frame,
}
use mpx_cli.Server.Conn.{
  Conn, Segment, receive, read_exact, read_by, write_to, write_all, write_step, Received, prepend,
  segment_bytes,
}
use Prim.Native.Nat.{max, ◌-◌}
use mpx_cli.Prelude.{from_be_bytes, to_be_bytes}
use mpx_cli.Server.Exchange

abbrev pub IsValue {ℓ} : {A : Type ℓ} → Result A → Type 0
IsValue (ok a) = Unit
IsValue (err e) = Unit
IsValue panic = ⊥

module _ (b : Conn) where
  -- As at the start, as far as enrolling goes.
  abbrev pub Like : Conn → Type 0
  Like c = (c.disk ≡ b.disk) × (c.faults ≡ b.faults)

  pub record Sound {ℓ} {A : Type ℓ} (m : Io Conn A) : Type ℓ where
    pub at : (c : Conn) → Like c → IsValue (m c).0

  pub record Fine {ℓ} {A : Type ℓ} (m : Io Conn A) : Type ℓ where
    pub at : (c : Conn) → Like c → IsValue (m c).0 × Like (m c).1

  module _ {ℓ} {A : Type ℓ} where
    pub Fine-pure : (a : A) → Fine (pure {S = Conn} a)
    Fine-pure a = record { at = λ c l. (tt, l) }

    pub Fine-required : (o : Option A) → Fine (Exchange.required o)
    Fine-required none = record { at = λ c l. (tt, l) }
    Fine-required (some a) = record { at = λ c l. (tt, l) }

    pub Sound-Fine : {m : Io Conn A} → Fine m → Sound m
    Sound-Fine f = record { at = λ c l. (f.at c l).0 }

  module _ {ℓ κ} {A : Type ℓ} {B : Type κ} where
    pub Sound-follow :
        (r : Result A) (f : A → Io Conn B) (c : Conn)
        → IsValue r
        → Like c
        → ((a : A) → Sound (f a))
        → IsValue (follow r f c).0
    Sound-follow (ok a) f c v l h = (h a).at c l
    Sound-follow (err e) f c v l h = tt
    Sound-follow panic f c v l h = v

    pub Sound-bind :
        (m : Io Conn A) (f : A → Io Conn B) → Fine m → ((a : A) → Sound (f a)) → Sound (m >>= f)
    Sound-bind m f g h = record {
      at = λ c l. let (v, k) = g.at c l in Sound-follow (m c).0 f (m c).1 v k h;
    }

    pub Fine-follow :
        (r : Result A) (f : A → Io Conn B) (c : Conn)
        → IsValue r
        → Like c
        → ((a : A) → Fine (f a))
        → IsValue (follow r f c).0 × Like (follow r f c).1
    Fine-follow (ok a) f c v l h = (h a).at c l
    Fine-follow (err e) f c v l h = (tt, l)
    Fine-follow panic f c v l h = absurd v

    pub Fine-bind :
        (m : Io Conn A) (f : A → Io Conn B) → Fine m → ((a : A) → Fine (f a)) → Fine (m >>= f)
    Fine-bind m f g h = record {
      at = λ c l. let (v, k) = g.at c l in Fine-follow (m c).0 f (m c).1 v k h;
    }

  if-IsValue :
      (c : Bool) (x y : Received) → IsValue x.0 → IsValue y.0 → IsValue (if c then x else y).0
  if-IsValue true x y p q = p
  if-IsValue false x y p q = q

  prepend-IsValue : (bs : Bytes) (r : Received) → IsValue r.0 → IsValue (prepend bs r).0
  prepend-IsValue bs (ok more, now, rest) v = tt
  prepend-IsValue bs (err e, now, rest) v = tt
  prepend-IsValue bs (panic, now, rest) v = v

  receive-IsValue :
      (deadline : ℕ) (closed : Bool) (n now : ℕ) (segments : List Segment)
      → IsValue (receive deadline closed n now segments).0
  unfolding receive
  receive-IsValue deadline closed n now [] =
      if-IsValue (n == 0) _ _ tt
        (if-IsValue (deadline - now == 0) _ _ tt (if-IsValue closed _ _ tt tt))
  receive-IsValue deadline closed n now (s ∷ rest) = if-IsValue (n == 0) _ _ tt (
      if-IsValue (deadline - now == 0) _ _ tt (
        if-IsValue (leb deadline s.arrives) _ _ tt (
          if-IsValue (leb n (length (segment_bytes s))) _ _ tt (
            prepend-IsValue (segment_bytes s) _ (
              receive-IsValue deadline closed (n - length (segment_bytes s)) (max now s.arrives)
                rest)))))

  pub Fine-read_exact : (deadline n : ℕ) → Fine (read_exact deadline n)
  unfolding read_exact
  Fine-read_exact deadline n = record {
    at = λ c l. (receive-IsValue deadline c.closed n c.now c.inbound, l);
  }

  pub Fine-if {ℓ} :
      {A : Type ℓ} (c : Bool) {m n : Io Conn A} → Fine m → Fine n → Fine (if c then m else n)
  Fine-if true p q = p
  Fine-if false p q = q

  pub Fine-read_by : (deadline : ℕ) → Fine (read_by deadline)
  unfolding read_by read_frame read_body
  Fine-read_by deadline = Fine-bind _ _ (Fine-read_exact deadline 4) (λ len.
      Fine-if (ltb max_frame (from_be_bytes len)) (record { at = λ c l. (tt, l) })
        (Fine-read_exact deadline (from_be_bytes len)))

  write_step-Fine :
      (bs : Bytes) (ws : List (Bool × ℕ)) (c : Conn)
      → Like c
      → IsValue (write_step bs ws c).0 × Like (write_step bs ws c).1
  unfolding write_step
  write_step-Fine bs [] c l = (tt, l)
  write_step-Fine bs ((true, time) ∷ ws) c l = (tt, l)
  write_step-Fine bs ((false, time) ∷ ws) c l = (tt, l)

  pub Fine-write_to : (frame : Bytes) → length frame < 2 ^ 32 → Fine (write_to frame)
  unfolding write_to write_frame write_all frame_header
  Fine-write_to frame h = rw (lt→ltb (length frame) (2 ^ 32) h) (
      Fine-bind _ _
        (record { at = λ c l. write_step-Fine (to_be_bytes 4 (length frame)) c.writes c l })
        (λ u.
          Fine-bind _ _ (record { at = λ c l. write_step-Fine frame c.writes c l })
            (λ u. Fine-pure tt)))
