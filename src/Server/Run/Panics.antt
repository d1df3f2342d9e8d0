-- ===== src/Server/Run/Panics.antt =====
-- `run` of src/server.rs does not panic as long as the frames that it writes have a length of 32 bits.
use mpx_cli.Prelude.{
  sym, subst, Bool, true, false, Option, none, some, List, [], ◌∷◌, leb, if◌then◌else◌,
}
use mpx_cli.Frame.Io.{Result, ok, err, panic}
use mpx_cli.Server.Conn.{Crates}
use mpx_cli.Server.Exchange.{SessionConfig, ConnectionResult, exchange, handled, handle}
use mpx_cli.Server.Exchange.Fine.{IsValue}
use mpx_cli.Server.Exchange.Bodies.{Fits}
use mpx_cli.Server.Exchange.Panics.{exchange-IsValue}
use mpx_cli.Server.Run.Loop.{Counted, Left, step-Left}
use mpx_cli.Server.Run.{
  BindOutcome, Peer, Tick, Serving, Step, next, stop, crash, connect, after_handle, serve, accept,
  step, run,
}

abbrev pub IsAlive : Step → Type 0
IsAlive (next s) = Unit
IsAlive (stop outcome s) = Unit
IsAlive crash = ⊥

module _ (crates : Crates) (config : SessionConfig) where
  after_handle-IsAlive :
      (r : Result ConnectionResult) (s : Serving)
      → IsValue r
      → IsAlive (after_handle (handled crates config r) s)
  unfolding after_handle
  after_handle-IsAlive (ok (ConnectionResult.enrolled device comment acknowledged)) s v = tt
  after_handle-IsAlive (ok ConnectionResult.pin_failure) s v = tt
  after_handle-IsAlive (ok ConnectionResult.declined) s v = tt
  after_handle-IsAlive (ok ConnectionResult.ignored) s v = tt
  after_handle-IsAlive (err e) s v = tt
  after_handle-IsAlive panic s v = v

  step-IsAlive :
      (t : Tick) (s : Serving) → Fits crates config s.disk.target → IsAlive (step crates config t s)
  unfolding step accept serve handle
  step-IsAlive t s fits = go t.signal (leb config.deadline s.now) t.peer
    where
      go :
          (signal late : Bool) (peer : Option Peer)
          → IsAlive (
              if signal
              then stop BindOutcome.canceled s
              else if late
              then stop BindOutcome.expired s
              else accept crates config peer s)
      go true late peer = tt
      go false true peer = tt
      go false false none = tt
      go false false (some p) =
          after_handle-IsAlive (exchange crates config s.pin_retired (connect p s)).0 _
            (exchange-IsValue crates config (connect p s) fits s.pin_retired)

  pub run-IsAlive :
      (ticks : List Tick) (s : Serving)
      → Counted s
      → Fits crates config s.disk.target
      → IsAlive (run crates config ticks s)
  unfolding run
  run-IsAlive [] s k fits = tt
  run-IsAlive (t ∷ ticks) s k fits =
      go (λ s' k' f. run-IsAlive ticks s' k' f) (step crates config t s)
        (step-Left crates config t ticks s k) (step-IsAlive t s fits)
    where
      go :
          ((s' : Serving)
            → Counted s'
            → Fits crates config s'.disk.target
            → IsAlive (run crates config ticks s'))
          → (r : Step) → Left crates config (t ∷ ticks) s r
          → IsAlive r
          → IsAlive (elim r [
            | next s' ↦ run crates config ticks s'
            | stop outcome s' ↦ stop outcome s'
            | crash ↦ crash
          ])
      go rest (next s') l a = rest s' l.0 (subst (Fits crates config) (sym l.1) fits)
      go rest (stop outcome s') l a = tt
      go rest crash l a = a
