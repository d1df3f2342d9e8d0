-- ===== src/Server/Run.antt =====
-- `run`: the accept loop. Each round of it is a `Tick` of the environment: whether a cancel signal
-- has arrived by then, and the peer that `accept` returns, if any.
pub mod Enrolls
pub mod Expiry
pub mod Loop
pub mod Panics
pub mod Signals
pub mod Stops
use mpx_cli.Prelude.{
  ℕ, suc, ◌+◌, ◌-◌, ◌%◌, ◌^◌, Bool, true, false, Option, none, some, List, [], ◌∷◌, ◌++◌, leb,
  if◌then◌else◌,
}
use mpx_cli.Text.Utf8.{Text}
use mpx_cli.Frame.Io.{Result, ok, err, panic}
use mpx_cli.Frame.Channel.{Channel}
use mpx_cli.Authkeys.Disk.{Disk, Faults}
use mpx_cli.Server.Conn.{Crates, Conn, Segment}
use mpx_cli.Server.Exchange.{SessionConfig, ConnectionResult, handle}

-- `MAX_PIN_ATTEMPTS`
abbrev pub max_pin_attempts : ℕ
max_pin_attempts = 3

pub data BindOutcome : Type 0 where
  enrolled : Text → Text → Bool → BindOutcome
  expired declined canceled : BindOutcome

pub data ServerEvent : Type 0 where
  wrong_pin : ℕ → ServerEvent
  pin_retired : ServerEvent

-- A peer that connects, and how its operator and the disk behave meanwhile.
pub record Peer : Type 0 where
  pub inbound : List Segment
  pub closed : Bool
  pub writes : List (Bool × ℕ)
  pub answer : Bool
  pub answer_time : ℕ
  pub faults : Faults

pub record Tick : Type 0 where
  pub signal : Bool
  pub peer : Option Peer

-- The variables of `run`, the clock, the disk, and what `progress` was told.
pub record Serving : Type 0 where
  pub now : ℕ
  pub disk : Disk
  pub pin_failures : ℕ
  pub pin_retired : Bool
  pub told : List ServerEvent

pub data Step : Type 0 where
  next : Serving → Step
  stop : BindOutcome → Serving → Step
  crash : Step

-- No keys are set before the intro was read.
abbrev unkeyed : Channel
unkeyed = record { c2s = []; s2c = []; seq_c2s = 0; seq_s2c = 0 }

abbrev pub connect : Peer → Serving → Conn
connect p s = record {
  now = s.now;
  inbound = p.inbound;
  closed = p.closed;
  sent = [];
  writes = p.writes;
  channel = unkeyed;
  answer = p.answer;
  answer_time = p.answer_time;
  asked = [];
  disk = s.disk;
  faults = p.faults;
}

abbrev tell : ServerEvent → Serving → Serving
tell e s = record s { told = s.told ++ (e ∷ []) }

-- `ConnectionResult::PinFailure`; the counter is a `u32`.
unfoldable pub count_failure : Serving → Serving
count_failure s =
    let n = (s.pin_failures + 1) % 2 ^ 32 in
    let counted = record s { pin_failures = n } in
    if leb max_pin_attempts n
    then (if s.pin_retired
        then counted
        else tell ServerEvent.pin_retired (record counted { pin_retired = true }))
    else tell (wrong_pin (max_pin_attempts - n)) counted

-- The `match` on what `handle` returns.
unfoldable pub after_handle : Result ConnectionResult → Serving → Step
unfolding count_failure
after_handle (ok (ConnectionResult.enrolled device comment acknowledged)) s =
    stop (enrolled device comment acknowledged) s
after_handle (ok ConnectionResult.pin_failure) s = next (count_failure s)
after_handle (ok ConnectionResult.declined) s = stop declined s
after_handle (ok ConnectionResult.ignored) s = next s
after_handle (err e) s = next s
after_handle panic s = crash

module _ (crates : Crates) (config : SessionConfig) where
  unfoldable pub serve : Peer → Serving → Step
  unfolding after_handle
  serve p s =
      let (r, c) = handle crates config s.pin_retired (connect p s) in
      after_handle r (record s { now = c.now; disk = c.disk })

  -- The `match listener.accept()`.
  unfoldable pub accept : Option Peer → Serving → Step
  unfolding serve
  accept none s = next (record s { now = s.now + 100 })
  accept (some p) s = serve p s

  unfoldable pub step : Tick → Serving → Step
  unfolding accept
  step tick s =
      if tick.signal
      then stop canceled s
      else if leb config.deadline s.now
      then stop expired s
      else accept tick.peer s

  -- The `loop`, over the rounds that there are.
  unfoldable pub run : List Tick → Serving → Step
  unfolding step
  run [] s = next s
  run (tick ∷ ticks) s = elim (step tick s) [
    | next s' ↦ run ticks s'
    | stop outcome s' ↦ stop outcome s'
    | crash ↦ crash
  ]

  -- What stands before the loop: the `expect` of `set_nonblocking`, by whether that succeeds.
  abbrev pub start : Bool → List Tick → Serving → Step
  start true ticks s = run ticks s
  start false ticks s = crash
