-- ===== src/Cli/Bind/Ends.antt =====
-- How many rounds of the accept loop `bind` of src/main.rs can take.
use mpx_cli.Prelude.{
  ℕ, ◌+◌, ◌*◌, ◌≤◌, ◌≡◌, refl, ap, sym, subst, ◌⊎◌, inl, inr, Bool, true, false, Option, List, [],
  ◌∷◌, ◌++◌, map, arith, if◌then◌else◌, unwrap_or,
}
use mpx_cli.Text.Utf8.{Text}
use mpx_cli.Server.Run.{Step, next, stop, crash, run}
use mpx_cli.Server.Run.Stops.{idle, signaled, IsOver, run-IsOver}
use mpx_cli.Cli.{clamped_expires}
use mpx_cli.Cli.Machine.{BindArgs, Machine, Listening, unavailable, listening, blocking}
use mpx_cli.Cli.Offline.{World, show, bind_offline}
use mpx_cli.Cli.Bind.{
  Round, Ended, exited, serving, panicked, session_config, tick, finish, at_start, announce,
  ready_as, bind_on, listened, bind,
}
use mpx_cli.Cli.Messages.{opening}

abbrev pub IsExited : Ended → Type 0
IsExited (exited code w) = Unit
IsExited (serving w) = ⊥
IsExited panicked = Unit

clamped_expires-le : (n : ℕ) → clamped_expires n ≤ 600
unfolding clamped_expires
clamped_expires-le n = ground arith

module _ (machine : Machine) (args : BindArgs) where
  map-tick :
      (rounds : List Round) (last : Round)
      → map (tick machine args) (rounds ++ last ∷ [])
        ≡ map (tick machine args) rounds ++ tick machine args last ∷ []
  map-tick [] last = refl
  map-tick (r ∷ rounds) last = ap (◌∷◌ (tick machine args r)) (map-tick rounds last)

  finish-IsExited :
      (announcer : Option Text) (w : World) (r : Step)
      → IsOver r
      → IsExited (finish machine args announcer w r)
  unfolding finish
  finish-IsExited announcer w (next s) h = elim h [ ]
  finish-IsExited announcer w (stop outcome s) h = tt
  finish-IsExited announcer w crash h = tt

  -- Enough rounds for the loop: one with a signal, or the idle ones of ten minutes.
  abbrev pub IsEnough : List Round → Type 0
  IsEnough rounds =
      let ticks = map (tick machine args) rounds in (signaled ticks ≡ true) ⊎ (6000 ≤ idle ticks)

  module _ (rounds : List Round) (last : Round) (enough : IsEnough rounds) where
    stops_in_time :
        (w : World)
        → IsOver (
            run machine.crates
              (session_config machine args)
              (map (tick machine args) (rounds ++ last ∷ []))
              (at_start machine args w))
    stops_in_time w =
        subst
          (λ ticks.
            IsOver
              (run machine.crates (session_config machine args) ticks (at_start machine args w)))
          (sym (map-tick rounds last))
          (run-IsOver machine.crates (session_config machine args) (map (tick machine args) rounds)
            (tick machine args last) (at_start machine args w) due)
      where
        due :
            (signaled (map (tick machine args) rounds) ≡ true)
            ⊎ ((session_config machine args).deadline
                ≤ machine.clock + 100 * idle (map (tick machine args) rounds))
        due = elim enough [
          | inl loud ↦ inl loud
          | inr long ↦ inr (omega (arith, long, clamped_expires-le args.expires))
        ]

    listened-IsExited :
        (l : Listening) (w : World) → IsExited (listened machine args l (rounds ++ last ∷ []) w)
    unfolding listened bind_on finish
    listened-IsExited (unavailable err) w = tt
    listened-IsExited (listening port) w =
        let p = unwrap_or port 0 in
        let (said, announcer) = announce machine args p in
        let ready = ready_as machine args p announcer (show said w) in
        finish-IsExited announcer ready
          (run machine.crates (session_config machine args)
            (map (tick machine args) (rounds ++ last ∷ [])) (at_start machine args ready))
          (stops_in_time ready)
    listened-IsExited (blocking port) w = tt

    -- After rounds of which one brought a signal, or of which 6,000 are idle, that is ten
    -- minutes, one more round is enough for `bind` to be over, whatever expiry was asked
    -- for and whoever connected: it has exited or panicked.
    pub bind-IsExited : (w : World) → IsExited (bind machine args (rounds ++ last ∷ []) w)
    unfolding bind
    bind-IsExited w = go args.offline
      where
        go :
            (offline : Bool)
            → let opened = show (opening machine args) w in
              let (code, w') = bind_offline machine args opened in
              IsExited (
                if offline
                then exited code w'
                else listened machine args
                    (machine.listen args.listen_port)
                    (rounds ++ last ∷ [])
                    opened)
        go true = tt
        go false = listened-IsExited (machine.listen args.listen_port) _
