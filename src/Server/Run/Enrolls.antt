-- ===== src/Server/Run/Enrolls.antt =====
-- The accept loop of src/server.rs on a round in which a phone that keeps to the protocol connects.
use mpx_cli.Prelude.{◌<◌, ◌≡◌, refl, ap, ◌∙◌, true, false, some, List, [], ◌∷◌, arith}
use mpx_cli.Frame.Io.{ok}
use mpx_cli.Authkeys.Disk.{done}
use mpx_cli.Authkeys.Replace.{no_faults}
use mpx_cli.Authkeys.{added, ensure_line}
use mpx_cli.Server.Conn.{Crates, Conn}
use mpx_cli.Server.Exchange
use mpx_cli.Server.Exchange.Phone.{Phone, Opens}
use mpx_cli.Server.Exchange.Protocol.{Agreed, Willing, device_of_phone, comment_of_phone}
use mpx_cli.Server.Exchange.Honest.{exchange-Enrolled}
use mpx_cli.Server.Run.{
  BindOutcome, Peer, Tick, Serving, stop, connect, after_handle, serve, accept, step, run,
}
use mpx_cli.Prelude.{lt→leb}

-- Writes that go well, a yes, and a disk on which no call fails.
abbrev pub calm_peer : Peer → Peer
calm_peer p = record p { writes = []; answer = true; faults = no_faults }

abbrev pub visit : Peer → Tick
visit p = record { signal = false; peer = some (calm_peer p) }

module _ (crates : Crates) (config : Exchange.SessionConfig) where
  run-stop :
      (tick : Tick) (ticks : List Tick) (s : Serving) {outcome : BindOutcome} {s' : Serving}
      → step crates config tick s ≡ stop outcome s'
      → run crates config (tick ∷ ticks) s ≡ stop outcome s'
  unfolding run
  run-stop tick ticks s e = rw (e, run) refl

  serve-ok :
      (p : Peer) (s : Serving) {r : Exchange.ConnectionResult} {c' : Conn}
      → Exchange.exchange crates config s.pin_retired (connect p s) ≡ (ok r, c')
      → serve crates config p s ≡ after_handle (ok r) (record s { now = c'.now; disk = c'.disk })
  unfolding serve Exchange.handle
  serve-ok p s e =
      ap
        (λ x.
          after_handle (Exchange.handled crates config x.0)
            (record s { now = x.1.now; disk = x.1.disk }))
        e

  step-serve :
      (p : Peer) (s : Serving)
      → s.now < config.deadline
      → step crates config (visit p) s ≡ serve crates config (calm_peer p) s
  unfolding step accept
  step-serve p s h = rw (lt→leb config.deadline s.now h) refl

module _ (crates : Crates) (config : Exchange.SessionConfig) (phone : Phone) where
  -- A phone that the handshake enrolls, in a round of the loop that comes before the deadline, ends
  -- the loop, with the key on the disk.
  pub run_enrolls :
      (opens : Opens crates.ciphers) (p : Peer) (s : Serving) (ticks : List Tick)
      → Agreed crates config phone s.pin_retired
      → (h : Willing crates config phone (connect p s))
      → let comment = comment_of_phone crates config phone in
        (s' : Serving) × (run crates config (visit p ∷ ticks) s
          ≡ stop (BindOutcome.enrolled (device_of_phone crates config phone) comment true) s')
        × (ensure_line no_faults h.key_type h.key_b64 comment s.disk ≡ (done added, s'.disk))
        × (s'.told ≡ s.told)
  unfolding after_handle
  run_enrolls opens p s ticks g h =
      let (c', goes, stored, sent) =
        exchange-Enrolled crates config phone opens (connect p s) s.pin_retired g h in
      (
        record s { now = c'.now; disk = c'.disk },
        run-stop crates config (visit p) ticks s (
            step-serve crates config p s (omega (arith, h.starts, h.in_time))
            ∙ serve-ok crates config (calm_peer p) s goes),
        stored,
        refl,
      )
