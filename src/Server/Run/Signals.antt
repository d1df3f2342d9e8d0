-- ===== src/Server/Run/Signals.antt =====
-- The accept loop of src/server.rs once a signal has come, after any rounds.
use mpx_cli.Prelude.{subst, ◌≡◌, ap, sym, true, Option, List, [], ◌∷◌, ◌++◌}
use mpx_cli.Server.Run.{BindOutcome, Peer, Tick, Serving, Step, next, stop, crash, step, run}
use mpx_cli.Server.Conn.{Crates}
use mpx_cli.Server.Exchange.{SessionConfig}

abbrev GoesOn : Step → Type 0
GoesOn (next s) = Unit
GoesOn (stop outcome s) = ⊥
GoesOn crash = ⊥

Step-next : {r : Step} {s : Serving} → r ≡ next s → GoesOn r
Step-next e = subst GoesOn (sym e) tt

module _ (crates : Crates) (config : SessionConfig) where
  run-append :
      (ts us : List Tick) (s : Serving) {s' : Serving}
      → run crates config ts s ≡ next s'
      → run crates config (ts ++ us) s ≡ run crates config us s'
  unfolding run
  run-append [] us s e = ap (run crates config us) (cc e)
  run-append (t ∷ ts) us s {s'} e = go (step crates config t s) (λ x. λ h. run-append ts us x h) e
    where
      go :
          (r : Step)
          → ((x : Serving)
              → run crates config ts x ≡ next s'
              → run crates config (ts ++ us) x ≡ run crates config us s')
          → elim r [
            | next x ↦ run crates config ts x
            | stop outcome x ↦ stop outcome x
            | crash ↦ crash
          ]
            ≡ next s'
          → elim r [
            | next x ↦ run crates config (ts ++ us) x
            | stop outcome x ↦ stop outcome x
            | crash ↦ crash
          ]
            ≡ run crates config us s'
      go (next x) ih e = ih x e
      go (stop outcome x) ih e = absurd (Step-next e)
      go crash ih e = absurd (Step-next e)

  -- A signal that has come by the next poll.
  pub run-signal :
      (ts us : List Tick) (peer : Option Peer) (s : Serving) {s' : Serving}
      → run crates config ts s ≡ next s'
      → run crates config (ts ++ record { signal = true; peer = peer } ∷ us) s
        ≡ stop BindOutcome.canceled s'
  unfolding run step
  run-signal ts us peer s e = run-append ts (record { signal = true; peer = peer } ∷ us) s e
