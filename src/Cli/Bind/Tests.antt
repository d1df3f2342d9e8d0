-- ===== src/Cli/Bind/Tests.antt =====
-- A phone scans the code of a bind, and the key is revoked again.
use mpx_cli.Prelude.{
  ◌==◌, if◌then◌else◌, ℕ, ◌+◌, ◌≡◌, refl, ap, true, false, none, [], ◌∷◌, replicate, equal, arith,
  Bytes, inr,
}
use mpx_cli.Text.Utf8.{Text, as_bytes}
use mpx_cli.Text.Codes.{codes}
use mpx_cli.Text.Lines.{lines}
use mpx_cli.Text.Fields.{is_whitespace, trim}
use mpx_cli.Frame.Value.{map_get}
use mpx_cli.Authkeys.Enroll.{Holds, IsEntry}
use mpx_cli.Authkeys.Replace.{no_faults}
use mpx_cli.Authkeys.RoundTrip.{marker, has_id}
use mpx_cli.Authkeys.Kept.{seen, taken}
use mpx_cli.Authkeys.{entry}
use mpx_cli.Authkeys.Line.{marked_key, is_key_type}
use mpx_cli.Util.Hex.{hex, hex_digit}
use mpx_cli.Util.Slug.{device_slug}
use mpx_cli.Payload.Url.{from_url-to_url}
use mpx_cli.Payload.Valid.{IsValid, normal}
use mpx_cli.Server.Exchange.{offer_body, done_body, device_of}
use mpx_cli.Server.Exchange.Phone.{Phone, Opens}
use mpx_cli.Server.Exchange.Protocol.{Willing, comment_of_phone, device_of_phone}
use mpx_cli.Server.Run.{connect}
use mpx_cli.Server.Sample.{tagged, tag-short, caller, phone}
use mpx_cli.Cli.Machine.{BindArgs, Machine, Tty, random_id8}
use mpx_cli.Cli.Offline.{World}
use mpx_cli.Cli.Bind.{
  bind, bind_payload, session_config, at_start, exited, serving, listened, bind_on, finish,
}
use mpx_cli.Cli.Bind.Kept.{Kept, bind-Kept}
use mpx_cli.Cli.Bind.Scan.{Commutes, Scan, visited, Done, bind_enrolls}
use mpx_cli.Cancel.{Libc, fresh, install, receive}
use mpx_cli.Cancel.Latch.{any, caught, fatal}
use mpx_cli.Cli.Bind.Canceled.{Interval, polled, Survives, Canceled, bind-Canceled}
use mpx_cli.Cli.Bind.Undone.{unbind-bind}
use mpx_cli.Cli.{unbind}
use mpx_cli.Cli.Revert.{by_id, Reverts}
use mpx_cli.Cli.Sample.{machine, bind_args, world}

abbrev first : Bytes → ℕ
first [] = 0
first (b ∷ bs) = b

-- A Diffie-Hellman exchange over one byte.
abbrev meeting : Machine
meeting = record machine {
  crates = record tagged { diffie_hellman = λ a b. replicate 32 (first a + first b) };
}

abbrev yes_args : BindArgs
yes_args = record bind_args { yes = true }

meeting-Commutes : Commutes meeting
meeting-Commutes a b = ap (replicate 32) sum
  where
    sum : first a + first b ≡ first b + first a
    sum = omega arith

meeting-Opens : Opens meeting.crates.ciphers
meeting-Opens key n plain = refl

abbrev scanner : Phone
scanner = record caller { shared = replicate 32 8; spub = replicate 32 1 }

bind_payload-IsValid : IsValid (bind_payload meeting yes_args 4000)
unfolding as_bytes mpx_cli.Cli.parsed_addrs mpx_cli.Cli.Machine.test_env_bytes
bind_payload-IsValid = record {
  addrs = (refl, tt);
  port = omega arith;
  spub = refl;
  token = refl;
  name = ground arith;
  offline = tt;
}

-- Nobody can be asked, and nobody needs to be.
abbrev away : Tty
away = record { opens_out = false; opens_in = false; line = none }

scans : Scan meeting yes_args 4000 scanner
unfolding mpx_cli.Cli.Machine.test_env_bytes
scans = record {
  payload = normal (bind_payload meeting yes_args 4000);
  private = replicate 32 7;
  scanned =
      from_url-to_url meeting.base64 (bind_payload meeting yes_args 4000) bind_payload-IsValid;
  epub = refl;
  shared = refl;
  spub = refl;
  mode = refl;
  proof = refl;
}

world-Holds : Holds world.disk (codes "ssh-rsa A me")
world-Holds = record { chars = ground arith; node = inr (0o600, refl) }

willing :
    Willing meeting.crates
      (session_config meeting yes_args)
      scanner
      (connect phone (at_start meeting yes_args world))
unfolding equal map_get mpx_cli.Frame.Io.read_frame mpx_cli.Frame.Channel.seal_c2s
    mpx_cli.Frame.Channel.seal_s2c mpx_cli.Text.Fields.split_whitespace mpx_cli.Text.Fields.trim
    is_whitespace mpx_cli.Text.Codes.contains mpx_cli.Authkeys.find_key
    mpx_cli.Authkeys.Line.parse_line mpx_cli.Text.Lines.lines mpx_cli.Cli.clamped_expires
willing = record {
  intro_decodes = refl;
  hello_decodes = refl;
  enroll_decodes = refl;
  epub_size = refl;
  contributory = refl;
  limit = 5000;
  starts = omega arith;
  soon = omega arith;
  in_time = omega arith;
  timely = (omega arith, (omega arith, (omega arith, tt)));
  behind_intro = 0 ∷ 0 ∷ 0 ∷ 1 ∷ 2 ∷ 0 ∷ 0 ∷ 0 ∷ 1 ∷ 3 ∷ [];
  behind_hello = 0 ∷ 0 ∷ 0 ∷ 1 ∷ 3 ∷ [];
  behind_enroll = [];
  intro = refl;
  hello = refl;
  enroll = refl;
  key = scanner.line;
  parsed = refl;
  ed25519 = refl;
  canonical = scanner.line;
  printed = refl;
  key_type = codes "ssh-ed25519";
  key_b64 = codes "AA";
  rest = [];
  words = refl;
  content = codes "ssh-rsa A me";
  holds = world-Holds;
  fresh = refl;
  offer_size = tag-short (offer_body meeting.crates (session_config meeting yes_args));
  done_size = tag-short (
      done_body meeting.crates (session_config meeting yes_args) true
        (comment_of_phone meeting.crates (session_config meeting yes_args) scanner));
}

bind_enrolls_example :
    Done meeting yes_args scanner phone world willing
      (bind meeting yes_args (visited meeting yes_args phone away ∷ []) world)
bind_enrolls_example =
    bind_enrolls meeting yes_args scanner meeting-Opens phone away world willing [] meeting-Commutes
      refl refl bind_payload-IsValid scans refl

bind-Kept_example :
    Kept meeting yes_args
      (visited meeting yes_args phone away ∷ [])
      world
      (bind meeting yes_args (visited meeting yes_args phone away ∷ []) world)
bind-Kept_example = bind-Kept meeting yes_args (visited meeting yes_args phone away ∷ []) world

abbrev comment : Text
comment = codes "multiplex:bind:04040404:phone"

new_key-IsEntry : IsEntry (codes "ssh-ed25519") (codes "AA") comment
unfolding is_whitespace is_key_type entry
new_key-IsEntry = record {
  key_type = record {
    word = record { ink = ground arith; ne_nil = λ e. cc e };
    plain = ground arith;
    known = refl;
  };
  key_b64 = record { ink = ground arith; ne_nil = λ e. cc e };
  comment = record { ink = ground arith; ne_nil = λ e. cc e };
  line = ground arith;
  chars = ground arith;
}

willing-IsEntry : IsEntry willing.key_type willing.key_b64 (
    marker
      (random_id8 meeting yes_args)
      (device_slug (device_of_phone meeting.crates (session_config meeting yes_args) scanner)))
unfolding willing hex hex_digit device_slug device_of
willing-IsEntry = new_key-IsEntry

id_is_new : taken (has_id (random_id8 meeting yes_args)) (seen willing.content) ≡ []
unfolding willing lines is_whitespace marked_key trim mpx_cli.Authkeys.Line.parse_line
id_is_new = refl

unbind-bind_example :
    (w' : World) × (bind meeting yes_args (visited meeting yes_args phone away ∷ []) world
      ≡ exited 0 w')
    × Reverts willing.content (unbind no_faults (by_id (random_id8 meeting yes_args)) w'.disk)
unbind-bind_example =
    unbind-bind meeting yes_args scanner meeting-Opens phone away world willing [] meeting-Commutes
      refl refl bind_payload-IsValid scans refl willing-IsEntry id_is_new

-- The window changes its size, and SIGINT comes in the round behind that.
abbrev linux : Libc
linux = record {
  sigint = 2;
  sigterm = 15;
  signal_fails = λ s. false;
  kills = λ s. if s == 28 then false else true;
}

abbrev resized : Interval
resized = record { signals = 28 ∷ []; caller = none }

abbrev interrupted : Interval
interrupted = record { signals = 28 ∷ 2 ∷ []; caller = none }

still_serves :
    (w1 : World) × (bind machine bind_args (polled linux (resized ∷ []) (install linux fresh)) world
      ≡ serving w1)
unfolding bind listened bind_on finish polled install receive mpx_cli.Server.Run.run
    mpx_cli.Server.Run.step mpx_cli.Server.Run.accept mpx_cli.Cli.clamped_expires
still_serves = (_, refl)

survives : Survives linux (resized ∷ [])
unfolding any
survives = (refl, tt)

harmless : any (fatal linux) interrupted.signals ≡ false
unfolding any
harmless = refl

cancels : any (caught linux) interrupted.signals ≡ true
unfolding any
cancels = refl

bind-Canceled_example :
    Canceled machine bind_args still_serves.0 (
      bind machine bind_args
        (polled linux (resized ∷ interrupted ∷ []) (install linux fresh))
        world)
bind-Canceled_example =
    bind-Canceled machine bind_args linux (resized ∷ []) [] interrupted world survives harmless
      cancels still_serves.1
