-- ===== src/Server/Conn.antt =====
-- The connection that `exchange` works on, its clock, and the reads and writes with their limits.
-- Times are milliseconds. The clock moves while a read, a write or the operator is waited for.
pub mod Stream
use mpx_cli.Prelude.{
  ℕ, ◌+◌, ◌-◌, Bool, true, false, Option, List, [], ◌∷◌, ◌++◌, leb, ◌==◌, if◌then◌else◌, length,
  take, drop, min, Bytes,
}
use Prim.Native.Nat.{max}
use mpx_cli.Text.Utf8.{Text}
use mpx_cli.Frame.Io.{
  Result, ok, err, panic, io, timed_out, unexpected_eof, broken, Io, pure, read_frame, write_frame,
}
use mpx_cli.Frame.Channel.{Ciphers, Channel}
use mpx_cli.Frame.Value.{Cbor}
use mpx_cli.Authkeys.Disk
use mpx_cli.Authkeys.Disk.{Disk, Faults}

-- The crates that the handshake calls, and the text of a `std::io::Error`.
pub record Crates : Type 1 where
  pub ciphers : Ciphers
  pub cbor : Cbor
  pub diffie_hellman : Bytes → Bytes → Bytes
  pub was_contributory : Bytes → Bool
  pub Key : Type 0
  pub from_openssh : Text → Option Key
  pub algorithm : Key → Text
  pub to_openssh : Key → Option Text
  pub error_text : Disk.IoError → Text

-- Bytes that arrive together; there is at least one.
pub record Segment : Type 0 where
  pub arrives : ℕ
  pub head : ℕ
  pub tail : Bytes

abbrev pub segment_bytes : Segment → Bytes
segment_bytes s = s.head ∷ s.tail

pub record Conn : Type 0 where
  pub now : ℕ
  -- What the peer sends, and whether it hangs up afterwards or falls silent.
  pub inbound : List Segment
  pub closed : Bool
  -- What was written to the peer, and how each coming write goes: whether it succeeds, and how
  -- long it takes. Behind the end of the list writes succeed at once.
  pub sent : Bytes
  pub writes : List (Bool × ℕ)
  pub channel : Channel
  -- The operator's answer to the prompt, the time that it takes, and the devices asked about.
  pub answer : Bool
  pub answer_time : ℕ
  pub asked : List Text
  pub disk : Disk
  pub faults : Faults

-- `PREAUTH_TIMEOUT` and `POSTAUTH_TIMEOUT`
abbrev pub preauth_timeout : ℕ
preauth_timeout = 5000

abbrev pub postauth_timeout : ℕ
postauth_timeout = 120000

-- The result of a read, the clock and what is left to read.
abbrev pub Received : Type 0
Received = Result Bytes × ℕ × List Segment

abbrev pub prepend : Bytes → Received → Received
prepend bs (ok more, now, rest) = (ok (bs ++ more), now, rest)
prepend bs (err e, now, rest) = (err e, now, rest)
prepend bs (panic, now, rest) = (panic, now, rest)

-- What a segment leaves once `n` bytes of it are read.
abbrev pub unread : ℕ → Bytes → List Segment → List Segment
unread now [] rest = rest
unread now (b ∷ bs) rest = record { arrives = now; head = b; tail = bs } ∷ rest

-- `read_exact` over `Deadlined::read`: before every read the time that is left is computed anew, and
-- a read returns what one segment has, at most as much as is wanted.
unfoldable pub receive : ℕ → Bool → ℕ → ℕ → List Segment → Received
receive deadline closed n now [] =
    if n == 0
    then (ok [], now, [])
    else if deadline - now == 0
    then (err (io timed_out), now, [])
    else if closed
    then (err (io unexpected_eof), now, [])
    else (err (io timed_out), now + (deadline - now), [])
receive deadline closed n now (s ∷ rest) =
    let t = max now s.arrives in
    let more = receive deadline closed (n - length (segment_bytes s)) t rest in
    if n == 0
    then (ok [], now, s ∷ rest)
    else if deadline - now == 0
    then (err (io timed_out), now, s ∷ rest)
    else if leb deadline s.arrives
    then (err (io timed_out), now + (deadline - now), s ∷ rest)
    else if leb n (length (segment_bytes s))
    then (ok (take n (segment_bytes s)), t, unread t (drop n (segment_bytes s)) rest)
    else prepend (segment_bytes s) more

unfoldable pub read_exact : ℕ → ℕ → Io Conn Bytes
unfolding receive
read_exact deadline n c =
    let (r, t, rest) = receive deadline c.closed n c.now c.inbound in
    (r, record c { now = t; inbound = rest })

-- `read_by`
unfoldable pub read_by : ℕ → Io Conn Bytes
unfolding read_exact
read_by deadline = read_frame (read_exact deadline)

-- `write_all` on the stream.
unfoldable pub write_step : Bytes → List (Bool × ℕ) → Io Conn (Unit {0})
write_step bs [] c = (ok tt, record c { sent = c.sent ++ bs })
write_step bs ((true, time) ∷ rest) c =
    (ok tt, record c { sent = c.sent ++ bs; now = c.now + time; writes = rest })
write_step bs ((false, time) ∷ rest) c =
    (err (io broken), record c { now = c.now + time; writes = rest })

unfoldable pub write_all : Bytes → Io Conn (Unit {0})
unfolding write_step
write_all bs c = write_step bs c.writes c

-- `write_to`
unfoldable pub write_to : Bytes → Io Conn (Unit {0})
unfolding write_all
write_to = write_frame write_all (pure tt)

-- `phase_deadline`, for an offer that expires at `expiry`.
unfoldable pub phase_deadline : ℕ → ℕ → Io Conn ℕ
phase_deadline expiry budget c = (ok (min (c.now + budget) expiry), c)
