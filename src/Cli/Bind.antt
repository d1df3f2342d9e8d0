-- ===== src/Cli/Bind.antt =====
-- src/main.rs: `bind`, over the rounds of the accept loop. What `confirm` itself prints is left out:
-- it goes to the terminal while a connection is served.
pub mod Kept
pub mod Canceled
pub mod Ends
pub mod Panics
pub mod Scan
pub mod Undone
mod Tests
use mpx_cli.Prelude.{
  ℕ, ◌+◌, ◌*◌, ◌/◌, ◌%◌, Bool, true, false, Option, none, some, List, [], ◌∷◌, ◌++◌, map, ◌⊎◌, inl,
  inr, if◌then◌else◌, is_some, unwrap_or, get_elem?, Bytes,
}
use mpx_cli.Text.Utf8.{Text}
use mpx_cli.Text.Codes.{codes}
use mpx_cli.Util.Console.{Printed, println, ok, note, warn, wait, decimal, padded}
use mpx_cli.Authkeys.Line.{marker_prefix}
use mpx_cli.Payload.{Payload}
use mpx_cli.Payload.Url.{to_url}
use mpx_cli.Announce
use mpx_cli.Announce.{AnnounceConfig, start, withdrawn_by}
use mpx_cli.Server.Exchange.{SessionConfig}
use mpx_cli.Server.Run
use mpx_cli.Server.Run.{BindOutcome, ServerEvent, Peer, Tick, Serving, Step, next, stop, crash}
use mpx_cli.Cli.Machine.{
  BindArgs, Machine, Listening, unavailable, listening, blocking, Tty, confirm_on_tty,
  spaced_digits, warn_about_test_hooks, console, name_of, user_of, addrs_of, hostkeys_of, path_of,
  random_id8, secret_of, token_of, pin_of, auto_yes,
}
use mpx_cli.Cli.Offline.{World, show, gives_up, publish, bind_offline}
use mpx_cli.Cli.{clamped_expires, parsed_addrs, marker_id8, exit_code}
use mpx_cli.Cli.Messages.{
  said_ok, warned, opening, expires_of, bind_panel, progress, outcome_lines, waiting_note,
}

-- A round of the accept loop: what a poll of the cancel flag returns, the peer, and the operator's terminal when the peer asks.
pub record Round : Type 0 where
  pub signal : Bool
  pub caller : Option (Peer × Tty)

-- How a run goes: it exits, it still serves when the rounds are over, or it panics.
pub data Ended : Type 0 where
  exited : ℕ → World → Ended
  serving : World → Ended
  panicked : Ended

module _ (machine : Machine) (args : BindArgs) where
  abbrev pub spub_of : Bytes
  spub_of = machine.public_key (secret_of machine args)

  -- The announcement: the line that is printed, and the name that is registered.
  abbrev announce_report : Text ⊎ Text → List Printed × Option Text
  announce_report (inr fullname) = (
    said_ok machine args (codes "announcing on your network — visible to Multiplex nearby") ∷ [],
    some fullname,
  )
  announce_report (inl err) = (
    warned machine args
          (codes "announce unavailable (" ++ (err ++ codes ") — QR, clipboard, and PIN still work"))
        ∷ [],
    none,
  )

  abbrev announce_config : ℕ → AnnounceConfig
  announce_config port = record {
    instance_name = name_of machine args;
    port = port;
    spub = spub_of;
    ssh_user = user_of machine args;
    ssh_port = args.ssh_port;
    first_fingerprint = get_elem? (hostkeys_of machine args) 0;
  }

  unfoldable pub announce : ℕ → List Printed × Option Text
  announce port =
      if args.no_announce
      then ([], none)
      else announce_report (start machine.daemon (announce_config port))

  abbrev pub bind_payload : ℕ → Payload
  bind_payload port = record {
    addrs = parsed_addrs machine.parse_addr (addrs_of machine args);
    port = port;
    spub = spub_of;
    token = token_of machine args;
    name = name_of machine args;
    offline = none;
  }

  -- The deadline is that many seconds from now; the clock shows milliseconds.
  abbrev pub session_config : SessionConfig
  session_config = record {
    secret = secret_of machine args;
    spub = spub_of;
    token = token_of machine args;
    pin = pin_of machine args;
    deadline = machine.clock + 1000 * (expires_of machine args);
    offer = record {
      name = name_of machine args;
      addrs = addrs_of machine args;
      user = user_of machine args;
      ssh_port = args.ssh_port;
      hostkeys = hostkeys_of machine args;
    };
    marker_id = marker_prefix ++ random_id8 machine args;
  }

  -- `confirm`
  abbrev pub answered : Peer × Tty → Peer
  answered (peer, tty) = record peer {
    answer = if auto_yes machine args then true else confirm_on_tty tty;
  }

  abbrev answered_if : Option (Peer × Tty) → Option Peer
  answered_if none = none
  answered_if (some caller) = some (answered caller)

  abbrev pub tick : Round → Tick
  tick round = record { signal = round.signal; peer = answered_if round.caller }

  -- `announcer.stop()`, where something was announced.
  abbrev pub stopped : Option Text → World → World
  stopped none w = w
  stopped (some fullname) w = record w {
    withdrawn = w.withdrawn ++ withdrawn_by (Announce.stop fullname);
  }

  abbrev pub served : Serving → World → World
  served s w = record w { disk = s.disk; shown = w.shown ++ progress machine args s.told }

  unfoldable pub finish : Option Text → World → Step → Ended
  finish announcer w (next s) = serving (served s w)
  finish announcer w (stop outcome s) =
      exited (exit_code outcome)
        (show (outcome_lines machine args outcome) (stopped announcer (served s w)))
  finish announcer w crash = panicked

  abbrev pub at_start : World → Serving
  at_start w = record {
    now = machine.clock;
    disk = w.disk;
    pin_failures = 0;
    pin_retired = false;
    told = [];
  }

  abbrev pub announced_as : Option Text → World → World
  announced_as none w = w
  announced_as (some fullname) w = record w { announced = w.announced ++ fullname ∷ [] }

  abbrev pub waits : Option Text → World → World
  waits announcer w =
      show
        (println []
          ∷ wait (console machine args) (codes "waiting for Multiplex…  (Ctrl-C cancels)")
          ∷ waiting_note machine args announcer)
        w

  -- What was done when the accept loop starts.
  abbrev pub ready_as : ℕ → Option Text → World → World
  ready_as port announcer w = waits announcer (
      publish machine args (to_url machine.base64 (bind_payload port)) (bind_panel machine args)
        (announced_as announcer w))

  -- The part behind the listener but for `cancel::install`, which Canceled applies, by whether that can be made non-blocking.
  unfoldable pub bind_on : Bool → ℕ → List Round → World → Ended
  bind_on nonblocking port rounds w =
      let (said, announcer) = announce port in
      let ready = ready_as port announcer (show said w) in
      finish announcer ready
        (Run.start machine.crates session_config nonblocking (map tick rounds) (at_start ready))

  unfoldable pub listened : Listening → List Round → World → Ended
  listened (unavailable err) rounds w =
      let (code, w') =
        gives_up machine args
          (codes "cannot listen on port " ++ (decimal args.listen_port ++ (codes ": " ++ err))) w in
      exited code w'
  listened (listening port) rounds w = bind_on true (unwrap_or port 0) rounds w
  listened (blocking port) rounds w = bind_on false (unwrap_or port 0) rounds w

  unfoldable pub bind : List Round → World → Ended
  bind rounds w =
      let opened = show (opening machine args) w in
      let (code, w') = bind_offline machine args opened in
      if args.offline
      then exited code w'
      else listened (machine.listen args.listen_port) rounds opened
