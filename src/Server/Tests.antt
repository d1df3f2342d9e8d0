-- ===== src/Server/Tests.antt =====
-- One bind, from the intro to the stored key, with crates that hide nothing.
use mpx_cli.Prelude.{
  inl, ◌⊎◌, inr, ◌+◌, ◌*◌, ◌≤◌, arith, ◌≡◌, refl, true, false, none, some, List, [], ◌∷◌, equal,
}
use mpx_cli.Text.Codes.{codes}
use mpx_cli.Frame.Value.{map_get, Value, integer, bytes, text, map, end, entry}
use mpx_cli.Authkeys.Disk.{absent}
use mpx_cli.Server.Conn.{Crates, Conn, Segment, read_by}
use mpx_cli.Server.Exchange.{SessionConfig, enrolled, exchange}
use mpx_cli.Server.Exchange.Verdict.{Verdict}
use mpx_cli.Server.Exchange.Safety.{exchange-Verdict}
use mpx_cli.Server.Exchange.Duration.{Ends, exchange-Ends}
use mpx_cli.Server.Exchange.{offer_body, done_body, comment_for, device_of}
use mpx_cli.Server.Exchange.Phone.{calm}
use mpx_cli.Server.Exchange.Protocol.{Willing, Agreed, by_token}
use mpx_cli.Server.Exchange.Enrolling.{Enrolled}
use mpx_cli.Server.Exchange.Honest.{says, exchange-Enrolled}
use mpx_cli.Server.Run.Stops.{idle, signaled, IsOver, run-IsOver}
use mpx_cli.Server.Conn.Stream.{stream, Agrees, read_by-Agrees}
use mpx_cli.Frame.Framing.{read_slice}
use mpx_cli.Server.Run.{Tick, Serving, connect, run}
use mpx_cli.Frame.Io.{ok}
use mpx_cli.Server.Sample.{crates, config, phone, tag-short, tagged, opens, caller}
use mpx_cli.Server.Run.Expiry.{IsBy, worst, run-IsBy}

abbrev at_start : Serving
at_start = record {
  now = 0;
  disk = record { dir = some 0o700; target = absent; scratch = absent };
  pin_failures = 0;
  pin_retired = false;
  told = [];
}

abbrev conn : Conn
conn = connect phone at_start

exchange-Verdict_example :
    Verdict crates config false conn
      (exchange crates config false conn).0
      (exchange crates config false conn).1
exchange-Verdict_example = exchange-Verdict crates config false conn

abbrev ticks : List Tick
ticks = record { signal = false; peer = some phone } ∷ []

-- The phone of the example does enroll.
enrolls :
    (exchange crates config false conn).0
    ≡ ok (enrolled (codes "Phone") (codes "multiplex:a1:phone") true)
unfolding exchange read_by equal mpx_cli.Server.Conn.phase_deadline mpx_cli.Frame.Io.read_frame
    mpx_cli.Frame.Value.map_get mpx_cli.Frame.Value.get_bytes mpx_cli.Frame.Value.get_text
    mpx_cli.Frame.Channel.open_c2s mpx_cli.Server.Conn.write_to mpx_cli.Frame.Io.write_frame
    mpx_cli.Frame.Channel.seal_s2c mpx_cli.Text.Fields.split_whitespace mpx_cli.Text.Fields.trim
    mpx_cli.Text.Fields.is_whitespace mpx_cli.Authkeys.ensure_line mpx_cli.Authkeys.read_existing
    mpx_cli.Authkeys.find_key mpx_cli.Text.Lines.lines mpx_cli.Authkeys.Disk.write_atomically
    mpx_cli.Server.Exchange.device_of mpx_cli.Util.Slug.device_slug mpx_cli.Authkeys.entry
    mpx_cli.Authkeys.terminated
enrolls = refl

exchange-Ends_example : Ends crates config conn false (exchange crates config false conn).1
exchange-Ends_example = exchange-Ends crates config conn false

-- Two idle rounds shortly before the expiry.
abbrev quiet : Tick
quiet = record { signal = false; peer = none }

abbrev near_the_end : Serving
near_the_end = record at_start { now = 59800 }

expiring :
    (signaled (quiet ∷ quiet ∷ []) ≡ true)
    ⊎ (config.deadline ≤ near_the_end.now + 100 * idle (quiet ∷ quiet ∷ []))
unfolding idle signaled
expiring = inr (omega arith)

run-IsOver_example : IsOver (run crates config (quiet ∷ quiet ∷ quiet ∷ []) near_the_end)
run-IsOver_example = run-IsOver crates config (quiet ∷ quiet ∷ []) quiet near_the_end expiring

-- The intro in two segments, the second of which holds the start of the next frame.
abbrev cut : Conn
cut = record conn {
  inbound =
      record { arrives = 10; head = 0; tail = 0 ∷ [] }
      ∷ record { arrives = 30; head = 0; tail = 1 ∷ 7 ∷ 0 ∷ [] }
      ∷ [];
}

framed_read : read_slice (stream cut.inbound) ≡ (ok (7 ∷ []), 0 ∷ [])
unfolding mpx_cli.Frame.Io.read_frame
framed_read = refl

read_by-Agrees_example : Agrees 5000 (read_by 5000 cut) (ok (7 ∷ []), 0 ∷ [])
read_by-Agrees_example =
    read_by-Agrees 5000 cut (7 ∷ []) (0 ∷ []) (omega arith) (omega arith, (omega arith, tt))
      framed_read

agreed : Agreed tagged config caller false
agreed = record { secret = refl; key = refl; credential = by_token refl refl }

honest : Willing tagged config caller conn
unfolding equal map_get mpx_cli.Frame.Io.read_frame mpx_cli.Frame.Channel.seal_c2s
    mpx_cli.Frame.Channel.seal_s2c mpx_cli.Text.Fields.split_whitespace mpx_cli.Text.Fields.trim
    mpx_cli.Text.Fields.is_whitespace mpx_cli.Text.Codes.contains mpx_cli.Authkeys.find_key
    mpx_cli.Text.Lines.lines
honest = record {
  intro_decodes = refl;
  hello_decodes = refl;
  enroll_decodes = refl;
  epub_size = refl;
  contributory = refl;
  limit = 5000;
  starts = omega arith;
  soon = omega arith;
  in_time = omega arith;
  timely = (omega arith, (omega arith, (omega arith, tt)));
  behind_intro = 0 ∷ 0 ∷ 0 ∷ 1 ∷ 2 ∷ 0 ∷ 0 ∷ 0 ∷ 1 ∷ 3 ∷ [];
  behind_hello = 0 ∷ 0 ∷ 0 ∷ 1 ∷ 3 ∷ [];
  behind_enroll = [];
  intro = refl;
  hello = refl;
  enroll = refl;
  key = caller.line;
  parsed = refl;
  ed25519 = refl;
  canonical = caller.line;
  printed = refl;
  key_type = codes "ssh-ed25519";
  key_b64 = codes "AA";
  rest = [];
  words = refl;
  content = [];
  holds = record { chars = tt; node = inl (refl, refl) };
  fresh = refl;
  offer_size = tag-short (offer_body tagged config);
  done_size =
      tag-short
        (done_body tagged config true (comment_for tagged config (device_of (some caller.device))));
}

exchange-Enrolled_example :
    Enrolled tagged config caller conn honest
      (says tagged config caller conn.sent)
      (exchange tagged config false (calm conn))
exchange-Enrolled_example = exchange-Enrolled tagged config caller opens conn false agreed honest

run-IsBy_example : IsBy (config.deadline + worst ticks) (run crates config ticks at_start)
run-IsBy_example = run-IsBy crates config ticks at_start (omega arith)
