-- ===== src/Cli/Bind/Canceled.antt =====
-- A cancel signal while `bind` of src/main.rs serves: src/cancel.rs and the polls of src/server.rs.
use mpx_cli.Prelude.{
  subst, ℕ, ◌≡◌, refl, ap, sym, ◌∙◌, Bool, true, false, ◌||◌, Option, none, some, List, [], ◌∷◌,
  ◌++◌, map, if◌then◌else◌, unwrap_or,
}
use mpx_cli.Server.Run.{Peer, Serving, Step, next, stop, crash, run}
use mpx_cli.Text.Utf8.{Text}
use mpx_cli.Server.Run.Signals.{run-signal}
use mpx_cli.Cancel.{Libc, Process, fresh, requested, install, receive}
use mpx_cli.Cancel.Latch.{any, caught, fatal, installed, installed_flag, receives}
use mpx_cli.Cli.Machine.{BindArgs, Machine, Listening, unavailable, listening, blocking, Tty}
use mpx_cli.Cli.Offline.{World, show, bind_offline}
use mpx_cli.Cli.Bind.{
  Round, Ended, exited, serving, panicked, session_config, tick, served, finish, at_start, announce,
  ready_as, bind_on, listened, bind,
}
use mpx_cli.Cli.Bind.Kept.{stopped-disk}
use mpx_cli.Cli.Messages.{opening}

-- Between two polls of the flag: the signals that arrive, and who connects at the second.
pub record Interval : Type 0 where
  pub signals : List ℕ
  pub caller : Option (Peer × Tty)

module _ (libc : Libc) where
  -- The rounds that the accept loop sees, as long as the process lives.
  unfoldable pub polled : List Interval → Process → List Round
  polled [] p = []
  polled (i ∷ is) p = elim (receive libc i.signals p) [
    | none ↦ []
    | some p' ↦ record { signal = requested p'; caller = i.caller } ∷ polled is p'
  ]

  -- No signal that still kills.
  abbrev pub Survives : List Interval → Type 0
  Survives [] = Unit
  Survives (i ∷ is) = (any (fatal libc) i.signals ≡ false) × Survives is

  polled-installed :
      (i : Interval) (is : List Interval) (b : Bool)
      → any (fatal libc) i.signals ≡ false
      → polled (i ∷ is) (installed libc b)
        ≡ record { signal = b || any (caught libc) i.signals; caller = i.caller }
          ∷ polled is (installed libc (b || any (caught libc) i.signals))
  unfolding polled
  polled-installed i is b lives =
      ap
        (λ o. elim o [
          | none ↦ []
          | some p' ↦ record { signal = requested p'; caller = i.caller } ∷ polled is p'
        ])
        (receives libc i.signals b
          ∙ ap (λ f. if f then none else some (installed libc (b || any (caught libc) i.signals)))
              lives)

  or_true : (b : Bool) {c : Bool} → c ≡ true → (b || c) ≡ true
  or_true true e = refl
  or_true false e = e

  polled-append :
      (before : List Interval) (i : Interval) (rest : List Interval) (b : Bool)
      → Survives before
      → any (fatal libc) i.signals ≡ false
      → any (caught libc) i.signals ≡ true
      → (later : List Round) × (polled (before ++ i ∷ rest) (installed libc b)
          ≡ polled before (installed libc b) ++ record { signal = true; caller = i.caller } ∷ later)
  unfolding polled
  polled-append [] i rest b lives last comes = (
    polled rest (installed libc (b || any (caught libc) i.signals)),
    polled-installed i rest b last
        ∙ ap
            (λ c.
              record { signal = c; caller = i.caller }
              ∷ polled rest (installed libc (b || any (caught libc) i.signals)))
            (or_true b comes),
  )
  polled-append (j ∷ before) i rest b lives last comes =
      let c = b || any (caught libc) j.signals in
      let (later, e) = polled-append before i rest c lives.1 last comes in
      (
        later,
        polled-installed j (before ++ i ∷ rest) b lives.0
            ∙ ap (◌∷◌ (record { signal = c; caller = j.caller })) e
            ∙ ap (λ rs. rs ++ record { signal = true; caller = i.caller } ∷ later)
                (sym (polled-installed j before b lives.0)),
      )

abbrev IsServing : Ended → Type 0
IsServing (exited code w) = ⊥
IsServing (serving w) = Unit
IsServing panicked = ⊥

serving-exited : {code : ℕ} {w w1 : World} → exited code w ≡ serving w1 → ⊥
serving-exited e = subst IsServing (sym e) tt

panicked-serving : {w1 : World} → panicked ≡ serving w1 → ⊥
panicked-serving e = subst IsServing (sym e) tt

module _ (machine : Machine) (args : BindArgs) where
  finish-serving :
      (announcer : Option Text) (w : World) (r : Step) {w1 : World}
      → finish machine args announcer w r ≡ serving w1
      → (s : Serving) × (r ≡ next s) × (served machine args s w ≡ w1)
  unfolding finish
  finish-serving announcer w (next s) e = (s, refl, cc e)
  finish-serving announcer w (stop outcome s) e = absurd (cc e)
  finish-serving announcer w crash e = absurd (cc e)

  map-append :
      (rs later : List Round) (r : Round)
      → map (tick machine args) (rs ++ r ∷ later)
        ≡ map (tick machine args) rs ++ tick machine args r ∷ map (tick machine args) later
  map-append [] later r = refl
  map-append (x ∷ rs) later r = ap (◌∷◌ (tick machine args x)) (map-append rs later r)

  -- The end after a cancel, from what the machine was like while `bind` still served.
  abbrev pub Canceled : World → Ended → Type 0
  Canceled w1 r = (w' : World) × (r ≡ exited 130 w') × (w'.disk ≡ w1.disk)

  module _ (rs later : List Round) (caller : Option (Peer × Tty)) where
    abbrev longer : List Round
    longer = rs ++ record { signal = true; caller = caller } ∷ later

    bind_on-signal :
        (port : ℕ) (w : World) {w1 : World}
        → bind_on machine args true port rs w ≡ serving w1
        → Canceled w1 (bind_on machine args true port longer w)
    unfolding bind_on finish
    bind_on-signal port w e =
        let announcer = (announce machine args port).1 in
        let ready = ready_as machine args port announcer (show (announce machine args port).0 w) in
        let config = session_config machine args in
        let start = at_start machine args ready in
        let (s, goes, same) =
          finish-serving announcer ready
            (run machine.crates config (map (tick machine args) rs) start) e in
        (
          _,
          ap (λ ts. finish machine args announcer ready (run machine.crates config ts start))
                (map-append rs later (record { signal = true; caller = caller }))
              ∙ ap (finish machine args announcer ready) (
                  run-signal machine.crates config (map (tick machine args) rs)
                    (map (tick machine args) later) _ start goes),
          stopped-disk machine args announcer (served machine args s ready)
              ∙ ap (λ (w : World). w.disk) same,
        )

    listened-signal :
        (l : Listening) (w : World) {w1 : World}
        → listened machine args l rs w ≡ serving w1
        → Canceled w1 (listened machine args l longer w)
    unfolding listened bind_on finish
    listened-signal (unavailable err) w e = absurd (serving-exited e)
    listened-signal (listening port) w e = bind_on-signal (unwrap_or port 0) w e
    listened-signal (blocking port) w e = absurd (panicked-serving e)

    bind-signal :
        (w : World) {w1 : World}
        → bind machine args rs w ≡ serving w1
        → Canceled w1 (bind machine args longer w)
    unfolding bind
    bind-signal w {w1} e = go args.offline e
      where
        go :
            (offline : Bool)
            → let opened = show (opening machine args) w in
              let (code, w') = bind_offline machine args opened in
              (if offline
                  then exited code w'
                  else listened machine args (machine.listen args.listen_port) rs opened)
                ≡ serving w1
              → Canceled w1 (
                  if offline
                  then exited code w'
                  else listened machine args (machine.listen args.listen_port) longer opened)
        go true e = absurd (serving-exited e)
        go false e = listened-signal (machine.listen args.listen_port) _ e

  -- If `bind` still serves after some rounds, none of whose signals kills, and before the
  -- next poll a signal comes that is handled and none that kills, then in that round `bind`
  -- exits with 130, with the disk as it was when it still served, whoever connects then and
  -- whatever would come later.
  pub bind-Canceled :
      (libc : Libc) (before rest : List Interval) (i : Interval) (w : World) {w1 : World}
      → Survives libc before
      → any (fatal libc) i.signals ≡ false
      → any (caught libc) i.signals ≡ true
      → bind machine args (polled libc before (install libc fresh)) w ≡ serving w1
      → Canceled w1 (bind machine args (polled libc (before ++ i ∷ rest) (install libc fresh)) w)
  bind-Canceled libc before rest i w {w1} lives last comes e =
      let (later, same) = polled-append libc before i rest false lives last comes in
      let clear : install libc fresh ≡ installed libc false =
        ap (λ b. installed libc b) (installed_flag libc) in
      let (w', goes, kept) =
        bind-signal (polled libc before (installed libc false)) later i.caller w
          (ap (λ p. bind machine args (polled libc before p) w) (sym clear) ∙ e) in
      (
        w',
        ap (λ p. bind machine args (polled libc (before ++ i ∷ rest) p) w) clear
            ∙ ap (λ rs. bind machine args rs w) same
            ∙ goes,
        kept,
      )
