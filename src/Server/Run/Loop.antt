-- ===== src/Server/Run/Loop.antt =====
-- The accept loop over any number of connections: what it counts, and what it leaves on the disk.
use mpx_cli.Prelude.{
  ℕ, ◌≡◌, refl, ap, ◌∙◌, Bool, true, false, Option, none, some, List, [], ◌∷◌, ◌++◌, leb,
  if◌then◌else◌, arith,
}
use mpx_cli.Text.Utf8.{Text}
use mpx_cli.Frame.Io.{Result, ok, err, panic}
use mpx_cli.Authkeys.Disk.{Disk}
use mpx_cli.Server.Conn.{Crates, Conn}
use mpx_cli.Server.Exchange.{SessionConfig, ConnectionResult, exchange, handled, handle}
use mpx_cli.Server.Exchange.Verdict.{Commit, Verdict}
use mpx_cli.Server.Exchange.Safety.{exchange-Verdict}
use mpx_cli.Server.Run.{
  BindOutcome, ServerEvent, wrong_pin, Peer, Tick, Serving, Step, next, stop, crash, connect,
  count_failure, after_handle, serve, accept, step, run,
}

-- The states of the counter, with the events that lead to each.
pub data Counting : ℕ → Bool → List ServerEvent → Type 0 where
  none_yet : Counting 0 false []
  one : Counting 1 false (wrong_pin 2 ∷ [])
  two : Counting 2 false (wrong_pin 2 ∷ wrong_pin 1 ∷ [])
  all_three : Counting 3 true (wrong_pin 2 ∷ wrong_pin 1 ∷ ServerEvent.pin_retired ∷ [])

abbrev pub Counted : Serving → Type 0
Counted s = Counting s.pin_failures s.pin_retired s.told

count_failure-Counted :
    (s : Serving) → s.pin_retired ≡ false → Counted s → Counted (count_failure s)
unfolding count_failure
count_failure-Counted s e k = go k e
  where
    go :
        {n : ℕ} {r : Bool} {told : List ServerEvent}
        → Counting n r told
        → r ≡ false
        → Counted (count_failure (record s { pin_failures = n; pin_retired = r; told = told }))
    go none_yet e = one
    go one e = two
    go two e = all_three
    go all_three e = ground arith

module _ (crates : Crates) (config : SessionConfig) where
  -- The connection that enrolled, where the loop stopped for that: in one of the rounds, to which
  -- the loop came from `s`, no cancel was requested and this peer connected, and from then on the
  -- connection was as `Commit` says.
  pub record Enrolled (ticks : List Tick) (device comment : Text) (acknowledged : Bool)
      (s s' : Serving) : Type 0 where
    pub earlier : List Tick
    pub tick : Tick
    pub later : List Tick
    pub rounds : ticks ≡ earlier ++ (tick ∷ later)
    pub reached : Serving
    pub goes_on : run crates config earlier s ≡ next reached
    pub undisturbed : tick.signal ≡ false
    pub peer : Peer
    pub connects : tick.peer ≡ some peer
    pub untouched : reached.disk.target ≡ s.disk.target
    pub after : Conn
    pub commit :
        Commit crates config reached.pin_retired device comment acknowledged
          (connect peer reached)
          after
    pub ended : s' ≡ record reached { now = after.now; disk = after.disk }

  -- What the loop leaves on the disk, by how it ends.
  abbrev pub Left : List Tick → Serving → Step → Type 0
  Left ticks s (next s') = Counted s' × (s'.disk.target ≡ s.disk.target)
  Left ticks s (stop (BindOutcome.enrolled device comment acknowledged) s') =
      Counted s' × Enrolled ticks device comment acknowledged s s'
  Left ticks s (stop BindOutcome.expired s') = Counted s' × (s'.disk.target ≡ s.disk.target)
  Left ticks s (stop BindOutcome.declined s') = Counted s' × (s'.disk.target ≡ s.disk.target)
  Left ticks s (stop BindOutcome.canceled s') = Counted s' × (s'.disk.target ≡ s.disk.target)
  Left ticks s crash = Unit

  count_failure-disk : (s : Serving) → (count_failure s).disk ≡ s.disk
  unfolding count_failure
  count_failure-disk s = ground arith

  run-none : (s : Serving) → run crates config [] s ≡ next s
  unfolding run
  run-none s = refl

  run-next :
      (t : Tick) (ticks : List Tick) (s s1 : Serving)
      → step crates config t s ≡ next s1
      → run crates config (t ∷ ticks) s ≡ run crates config ticks s1
  unfolding run
  run-next t ticks s s1 e =
      ap
        (λ r. elim r [
          | next s' ↦ run crates config ticks s'
          | stop outcome s' ↦ stop outcome s'
          | crash ↦ crash
        ])
        e

  module _ (t : Tick) (later : List Tick) (s : Serving) (counted : Counted s) where
    serve-Left :
        (p : Peer)
        → t.signal ≡ false
        → t.peer ≡ some p
        → Left (t ∷ later) s (serve crates config p s)
    unfolding serve after_handle handle
    serve-Left p quiet connects =
        go (exchange crates config s.pin_retired (connect p s)).0
          (exchange crates config s.pin_retired (connect p s)).1
          (exchange-Verdict crates config s.pin_retired (connect p s))
      where
        go :
            (r : Result ConnectionResult) (c : Conn)
            → Verdict crates config s.pin_retired (connect p s) r c
            → Left
                (t ∷ later)
                s
                (after_handle (handled crates config r) (record s { now = c.now; disk = c.disk }))
        go (ok (ConnectionResult.enrolled device comment acknowledged)) c v = (
          counted,
          record {
            earlier = [];
            tick = t;
            later = later;
            rounds = refl;
            reached = s;
            goes_on = run-none s;
            undisturbed = quiet;
            peer = p;
            connects = connects;
            untouched = refl;
            after = c;
            commit = v;
            ended = refl;
          },
        )
        go (ok ConnectionResult.pin_failure) c v =
            let s' = record s { now = c.now; disk = c.disk } in
            (
              count_failure-Counted s' v.1.fresh counted,
              ap (λ (d : Disk). d.target) (count_failure-disk s') ∙ v.0,
            )
        go (ok ConnectionResult.declined) c v = (counted, v.0)
        go (ok ConnectionResult.ignored) c v = (counted, v)
        go (err e) c v = (counted, v)
        go panic c v = tt

    pub step-Left : Left (t ∷ later) s (step crates config t s)
    unfolding step accept
    step-Left = go t.signal refl (leb config.deadline s.now) t.peer refl
      where
        go :
            (signal : Bool)
            → t.signal ≡ signal
            → (late : Bool) (peer : Option Peer) → t.peer ≡ peer
            → Left (t ∷ later) s (
                if signal
                then stop BindOutcome.canceled s
                else if late
                then stop BindOutcome.expired s
                else accept crates config peer s)
        go true e late peer c = (counted, refl)
        go false e true peer c = (counted, refl)
        go false e false none c = (counted, refl)
        go false e false (some p) c = serve-Left p e c

    -- A round that the loop goes on from, and then the rest.
    Left-trans :
        (s1 : Serving) (r : Step)
        → step crates config t s ≡ next s1
        → s1.disk.target ≡ s.disk.target
        → Left later s1 r
        → Left (t ∷ later) s r
    Left-trans s1 (next s') e same l = (l.0, l.1 ∙ same)
    Left-trans s1 (stop (BindOutcome.enrolled device comment acknowledged) s') e same l = (
      l.0,
      record {
        earlier = t ∷ l.1.earlier;
        tick = l.1.tick;
        later = l.1.later;
        rounds = ap (◌∷◌ t) l.1.rounds;
        reached = l.1.reached;
        goes_on = run-next t l.1.earlier s s1 e ∙ l.1.goes_on;
        undisturbed = l.1.undisturbed;
        peer = l.1.peer;
        connects = l.1.connects;
        untouched = l.1.untouched ∙ same;
        after = l.1.after;
        commit = l.1.commit;
        ended = l.1.ended;
      },
    )
    Left-trans s1 (stop BindOutcome.expired s') e same l = (l.0, l.1 ∙ same)
    Left-trans s1 (stop BindOutcome.declined s') e same l = (l.0, l.1 ∙ same)
    Left-trans s1 (stop BindOutcome.canceled s') e same l = (l.0, l.1 ∙ same)
    Left-trans s1 crash e same l = tt

  pub run-Left :
      (ticks : List Tick) (s : Serving) → Counted s → Left ticks s (run crates config ticks s)
  unfolding run
  run-Left [] s k = (k, refl)
  run-Left (t ∷ ticks) s k =
      go (λ s'. run-Left ticks s') (step crates config t s) refl (step-Left t ticks s k)
    where
      go :
          ((s' : Serving) → Counted s' → Left ticks s' (run crates config ticks s'))
          → (r : Step) → step crates config t s ≡ r
          → Left (t ∷ ticks) s r
          → Left (t ∷ ticks) s (elim r [
            | next s' ↦ run crates config ticks s'
            | stop outcome s' ↦ stop outcome s'
            | crash ↦ crash
          ])
      go rest (next s') e l = Left-trans t ticks s k s' _ e l.1 (rest s' l.0)
      go rest (stop outcome s') e l = l
      go rest crash e l = tt
