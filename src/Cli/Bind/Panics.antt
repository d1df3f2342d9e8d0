-- ===== src/Cli/Bind/Panics.antt =====
-- `bind` of src/main.rs does not panic while it serves, and so it exits.
use mpx_cli.Prelude.{
  ℕ, ◌≡◌, refl, Bool, true, false, Option, none, some, List, [], ◌∷◌, ◌++◌, map, if◌then◌else◌,
  unwrap_or,
}
use mpx_cli.Text.Utf8.{Text}
use mpx_cli.Util.Console.{Printed}
use mpx_cli.Server.Exchange.Bodies.{Fits}
use mpx_cli.Server.Run.{Step, next, stop, crash, run}
use mpx_cli.Server.Run.Loop.{Counting}
use mpx_cli.Server.Run.Panics.{IsAlive, run-IsAlive}
use mpx_cli.Cli.Machine.{BindArgs, Machine, Listening, unavailable, listening, blocking}
use mpx_cli.Cli.Offline.{World, show, bind_offline}
use mpx_cli.Cli.Bind.{
  Round, Ended, exited, serving, panicked, session_config, tick, finish, at_start, announce,
  ready_as, bind_on, listened, bind,
}
use mpx_cli.Cli.Bind.Ends.{IsEnough, IsExited, bind-IsExited}
use mpx_cli.Cli.Messages.{opening}

abbrev IsUnharmed : Ended → Type 0
IsUnharmed (exited code w) = Unit
IsUnharmed (serving w) = Unit
IsUnharmed panicked = ⊥

-- It has an exit code.
abbrev pub Exits : Ended → Type 0
Exits r = (code : ℕ) × (w' : World) × (r ≡ exited code w')

exits : (r : Ended) → IsUnharmed r → IsExited r → Exits r
exits (exited code w) u e = (code, w, refl)
exits (serving w) u e = absurd e
exits panicked u e = absurd u

-- A socket that listens can be made non-blocking.
abbrev pub IsPollable : Listening → Type 0
IsPollable (unavailable err) = Unit
IsPollable (listening port) = Unit
IsPollable (blocking port) = ⊥

module _ (machine : Machine) (args : BindArgs) where
  finish-IsUnharmed :
      (announcer : Option Text) (w : World) (r : Step)
      → IsAlive r
      → IsUnharmed (finish machine args announcer w r)
  unfolding finish
  finish-IsUnharmed announcer w (next s) a = tt
  finish-IsUnharmed announcer w (stop outcome s) a = tt
  finish-IsUnharmed announcer w crash a = a

  -- The frames of the session, for what authorized_keys is in this world.
  abbrev pub FitsIn : World → Type 0
  FitsIn w = Fits machine.crates (session_config machine args) w.disk.target

  module _ (rounds : List Round) where
    bind_on-IsUnharmed :
        (port : ℕ) (w : World) → FitsIn w → IsUnharmed (bind_on machine args true port rounds w)
    unfolding bind_on
    bind_on-IsUnharmed port w fits =
        go (announce machine args port).0 (announce machine args port).1
      where
        go :
            (said : List Printed) (announcer : Option Text)
            → let ready = ready_as machine args port announcer (show said w) in
              IsUnharmed (
                finish machine args announcer ready (
                  run machine.crates
                    (session_config machine args)
                    (map (tick machine args) rounds)
                    (at_start machine args ready)))
        go said none = finish-IsUnharmed none _ _ (
            run-IsAlive machine.crates (session_config machine args)
              (map (tick machine args) rounds) _ Counting.none_yet fits)
        go said (some fullname) = finish-IsUnharmed (some fullname) _ _ (
            run-IsAlive machine.crates (session_config machine args)
              (map (tick machine args) rounds) _ Counting.none_yet fits)

    listened-IsUnharmed :
        (l : Listening) (w : World)
        → IsPollable l
        → FitsIn w
        → IsUnharmed (listened machine args l rounds w)
    unfolding listened
    listened-IsUnharmed (unavailable err) w pollable fits = tt
    listened-IsUnharmed (listening port) w pollable fits =
        bind_on-IsUnharmed (unwrap_or port 0) w fits
    listened-IsUnharmed (blocking port) w pollable fits = absurd pollable

    bind-IsUnharmed :
        (w : World)
        → IsPollable (machine.listen args.listen_port)
        → FitsIn w
        → IsUnharmed (bind machine args rounds w)
    unfolding bind
    bind-IsUnharmed w pollable fits = go args.offline
      where
        go :
            (offline : Bool)
            → let opened = show (opening machine args) w in
              let (code, w') = bind_offline machine args opened in
              IsUnharmed (
                if offline
                then exited code w'
                else listened machine args (machine.listen args.listen_port) rounds opened)
        go true = tt
        go false = listened-IsUnharmed (machine.listen args.listen_port) _ pollable fits

  -- After rounds of which one brought a signal, or of which 6,000 are idle, that is ten
  -- minutes, one more round is enough for `bind` to exit with a code, whatever expiry was
  -- asked for and whoever connected, if each frame that the session can write while
  -- authorized_keys is as it is has a length of 32 bits and the socket that it listens on
  -- can be made non-blocking: it neither serves on nor panics. Of a panic of the printing or
  -- of the random source nothing is said.
  pub bind-Exits :
      (rounds : List Round) (last : Round)
      → IsEnough machine args rounds
      → IsPollable (machine.listen args.listen_port)
      → (w : World) → FitsIn w
      → Exits (bind machine args (rounds ++ last ∷ []) w)
  bind-Exits rounds last enough pollable w fits =
      exits (bind machine args (rounds ++ last ∷ []) w)
        (bind-IsUnharmed (rounds ++ last ∷ []) w pollable fits)
        (bind-IsExited machine args rounds last enough w)
