-- ===== src/Server/Run/Stops.antt =====
-- What ends the accept loop `run` of src/server.rs: the rounds, the clock and the deadline.
use mpx_cli.Prelude.{
  ℕ, ◌+◌, ◌*◌, ◌≤◌, ◌≡◌, refl, sym, subst, ◌⊎◌, inl, inr, Bool, true, false, ◌||◌, Option, none,
  some, List, [], ◌∷◌, ◌++◌, leb, le→leb, arith, if◌then◌else◌, is_some, Bool-cases,
}
use mpx_cli.Frame.Io.{Result, ok, err, panic}
use mpx_cli.Server.Conn.{Crates, Conn}
use mpx_cli.Server.Exchange.{SessionConfig, ConnectionResult, exchange, handled, handle}
use mpx_cli.Server.Exchange.Duration.{exchange-Ends}
use mpx_cli.Server.Run.{
  BindOutcome, Peer, Tick, Serving, Step, next, stop, crash, connect, count_failure, after_handle,
  serve, accept, step, run,
}

-- Whether a round goes on, and what the clock shows then.
abbrev GoesOn : (Serving → Type 0) → Step → Type 0
GoesOn P (next s) = P s
GoesOn P (stop outcome s) = Unit
GoesOn P crash = Unit

abbrev pub IsOver : Step → Type 0
IsOver (next s) = ⊥
IsOver (stop outcome s) = Unit
IsOver crash = Unit

-- The rounds in which nobody connects.
unfoldable pub idle : List Tick → ℕ
idle [] = 0
idle (t ∷ ts) = let rest = idle ts in if is_some t.peer then rest else rest + 1

-- Whether a signal has come in one of the rounds.
unfoldable pub signaled : List Tick → Bool
signaled [] = false
signaled (t ∷ ts) = t.signal || signaled ts

module _ (crates : Crates) (config : SessionConfig) where
  exchange-later : (ret : Bool) (c : Conn) → c.now ≤ (exchange crates config ret c).1.now
  exchange-later ret c = elim (exchange-Ends crates config c ret) [
    | inl t ↦ t.later
    | inr (credential, t) ↦ t.later
  ]

  count_failure-now : (s : Serving) → (count_failure s).now ≡ s.now
  unfolding count_failure
  count_failure-now s = ground arith

  after_handle-now :
      (r : Result ConnectionResult) (s : Serving) → GoesOn (λ s'. s'.now ≡ s.now) (after_handle r s)
  unfolding after_handle
  after_handle-now (ok (ConnectionResult.enrolled device comment acknowledged)) s = tt
  after_handle-now (ok ConnectionResult.pin_failure) s = count_failure-now s
  after_handle-now (ok ConnectionResult.declined) s = tt
  after_handle-now (ok ConnectionResult.ignored) s = refl
  after_handle-now (err e) s = refl
  after_handle-now panic s = tt

  GoesOn-map :
      (P Q : Serving → Type 0) (r : Step) → ((s : Serving) → P s → Q s) → GoesOn P r → GoesOn Q r
  GoesOn-map P Q (next s) f h = f s h
  GoesOn-map P Q (stop outcome s) f h = tt
  GoesOn-map P Q crash f h = tt

  -- A round goes on only before the deadline and without a signal, and an idle one takes 100 ms.
  step-now :
      (t : Tick) (s : Serving)
      → GoesOn
          (λ s'.
            (t.signal ≡ false)
            × (leb config.deadline s.now ≡ false)
            × (s.now + 100 * idle (t ∷ []) ≤ s'.now))
          (step crates config t s)
  unfolding step accept serve handle idle
  step-now t s = go t.signal (leb config.deadline s.now) t.peer
    where
      go :
          (signal late : Bool) (peer : Option Peer)
          → GoesOn
              (λ s'.
                (signal ≡ false)
                × (late ≡ false)
                × (s.now + 100 * (if is_some peer then 0 else 0 + 1) ≤ s'.now))
              (if signal
                then stop BindOutcome.canceled s
                else if late
                then stop BindOutcome.expired s
                else accept crates config peer s)
      go true late peer = tt
      go false true peer = tt
      go false false none = (refl, refl, omega arith)
      go false false (some p) =
          let after = exchange crates config s.pin_retired (connect p s) in
          let s'' = record s { now = after.1.now; disk = after.1.disk } in
          GoesOn-map (λ s'. s'.now ≡ after.1.now) _
            (after_handle (handled crates config after.0) s'')
            (λ s' e. (refl, refl, omega (arith, e, exchange-later s.pin_retired (connect p s))))
            (after_handle-now (handled crates config after.0) s'')

  -- A run that goes on saw no signal, and its clock shows the time of the idle rounds.
  run-now :
      (ts : List Tick) (s : Serving)
      → GoesOn
          (λ s'. (signaled ts ≡ false) × (s.now + 100 * idle ts ≤ s'.now))
          (run crates config ts s)
  unfolding run signaled idle
  run-now [] s = (refl, omega arith)
  run-now (t ∷ ts) s = go (λ s'. run-now ts s') (step crates config t s) (step-now t s)
    where
      go :
          ((s' : Serving)
            → GoesOn
                (λ s''. (signaled ts ≡ false) × (s'.now + 100 * idle ts ≤ s''.now))
                (run crates config ts s'))
          → (r : Step)
          → GoesOn
              (λ s'.
                (t.signal ≡ false)
                × (leb config.deadline s.now ≡ false)
                × (s.now + 100 * idle (t ∷ []) ≤ s'.now))
              r
          → GoesOn
              (λ s''.
                ((t.signal || signaled ts) ≡ false)
                × (s.now + 100 * (if is_some t.peer then idle ts else idle ts + 1) ≤ s''.now))
              (elim r [
                | next s' ↦ run crates config ts s'
                | stop outcome s' ↦ stop outcome s'
                | crash ↦ crash
              ])
      go rest (next s') (quiet, early, later) =
          GoesOn-map (λ s''. (signaled ts ≡ false) × (s'.now + 100 * idle ts ≤ s''.now)) _
            (run crates config ts s')
            (λ s'' k. (
              rw quiet (k.0),
              elim (Bool-cases (is_some t.peer)) [
                | inl some_peer ↦ rw some_peer (omega (arith, k.1, rw some_peer at later))
                | inr nobody ↦ rw nobody (omega (arith, k.1, rw nobody at later))
              ],
            ))
            (rest s')
      go rest (stop outcome s') h = tt
      go rest crash h = tt

  -- One more round.
  abbrev onward : Tick → Step → Step
  onward last (next s) = run crates config (last ∷ []) s
  onward last (stop outcome s) = stop outcome s
  onward last crash = crash

  run-append :
      (ts : List Tick) (last : Tick) (s : Serving)
      → run crates config (ts ++ last ∷ []) s ≡ onward last (run crates config ts s)
  unfolding run
  run-append [] last s = refl
  run-append (t ∷ ts) last s = go (λ s'. run-append ts last s') (step crates config t s)
    where
      go :
          ((s' : Serving)
            → run crates config (ts ++ last ∷ []) s' ≡ onward last (run crates config ts s'))
          → (r : Step)
          → (elim r [
            | next s' ↦ run crates config (ts ++ last ∷ []) s'
            | stop outcome s' ↦ stop outcome s'
            | crash ↦ crash
          ])
            ≡ onward last (elim r [
              | next s' ↦ run crates config ts s'
              | stop outcome s' ↦ stop outcome s'
              | crash ↦ crash
            ])
      go rest (next s') = rest s'
      go rest (stop outcome s') = refl
      go rest crash = refl

  run-late :
      (last : Tick) (s : Serving)
      → config.deadline ≤ s.now
      → IsOver (run crates config (last ∷ []) s)
  unfolding run step
  run-late last s late =
      go last.signal (leb config.deadline s.now) (le→leb config.deadline s.now late)
    where
      go :
          (signal due : Bool)
          → due ≡ true
          → IsOver
              (elim (if signal
                then stop BindOutcome.canceled s
                else if due
                then stop BindOutcome.expired s
                else accept crates config last.peer s) [
                  | next s' ↦ next s'
                  | stop outcome s' ↦ stop outcome s'
                  | crash ↦ crash
                ])
      go true due e = tt
      go false true e = tt
      go false false e = absurd (cc e)

  -- After rounds of which one brought a signal, or whose idle ones alone, at 100 ms each,
  -- take the clock to the deadline, one more round is enough for the loop to be over: it has
  -- an outcome or a panic, whoever connected in the other rounds.
  pub run-IsOver :
      (ts : List Tick) (last : Tick) (s : Serving)
      → (signaled ts ≡ true) ⊎ (config.deadline ≤ s.now + 100 * idle ts)
      → IsOver (run crates config (ts ++ last ∷ []) s)
  run-IsOver ts last s h =
      subst IsOver (sym (run-append ts last s)) (go (run crates config ts s) (run-now ts s))
    where
      go :
          (r : Step)
          → GoesOn (λ s'. (signaled ts ≡ false) × (s.now + 100 * idle ts ≤ s'.now)) r
          → IsOver (onward last r)
      go (next s') (quiet, later) = elim h [
        | inl loud ↦ absurd (cc (loud, quiet))
        | inr due ↦ run-late last s' (omega (arith, due, later))
      ]
      go (stop outcome s') k = tt
      go crash k = tt
