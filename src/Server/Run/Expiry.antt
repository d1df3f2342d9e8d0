-- ===== src/Server/Run/Expiry.antt =====
-- How long `run` of src/server.rs can outlast the expiry of its offer.
use mpx_cli.Prelude.{
  ℕ, ◌+◌, ◌≤◌, ◌≡◌, ◌⊎◌, inl, inr, Bool, true, false, Option, none, some, List, [], ◌∷◌, leb,
  leb-false, arith, if◌then◌else◌, Bool-cases,
}
use Prim.Native.Nat.{max}
use mpx_cli.Frame.Io.{Result, ok, err, panic}
use mpx_cli.Server.Conn.{Crates, Conn}
use mpx_cli.Server.Exchange.{SessionConfig, ConnectionResult, exchange, handled, handle}
use mpx_cli.Server.Exchange.Timed.{total}
use mpx_cli.Server.Exchange.Duration.{exchange-Ends}
use mpx_cli.Server.Run.{
  BindOutcome, Peer, Tick, Serving, Step, next, stop, crash, connect, count_failure, after_handle,
  serve, accept, step, run,
}

-- What a round takes beside the waits that end at a deadline: the pause of an idle one, or the writes
-- to the peer and the operator's answer.
abbrev pub cost : Option Peer → ℕ
cost none = 100
cost (some p) = total p.writes + p.answer_time

abbrev pub worst : List Tick → ℕ
worst [] = 0
worst (t ∷ ts) = max (cost t.peer) (worst ts)

-- What the clock shows at the end; of a panic nothing is said.
abbrev pub IsBy : ℕ → Step → Type 0
IsBy limit (next s) = s.now ≤ limit
IsBy limit (stop outcome s) = s.now ≤ limit
IsBy limit crash = Unit

count_failure-IsBy : (s : Serving) → (count_failure s).now ≡ s.now
unfolding count_failure
count_failure-IsBy s = ground arith

after_handle-IsBy :
    (limit : ℕ) (r : Result ConnectionResult) (s : Serving)
    → s.now ≤ limit
    → IsBy limit (after_handle r s)
unfolding after_handle
after_handle-IsBy limit (ok (ConnectionResult.enrolled device comment acknowledged)) s h = h
after_handle-IsBy limit (ok ConnectionResult.pin_failure) s h =
    omega (arith, h, count_failure-IsBy s)
after_handle-IsBy limit (ok ConnectionResult.declined) s h = h
after_handle-IsBy limit (ok ConnectionResult.ignored) s h = h
after_handle-IsBy limit (err e) s h = h
after_handle-IsBy limit panic s h = tt

module _ (crates : Crates) (config : SessionConfig) where
  exchange_within :
      (ret : Bool) (c : Conn)
      → (exchange crates config ret c).1.now
        ≤ max config.deadline c.now + (total c.writes + c.answer_time)
  exchange_within ret c = elim (exchange-Ends crates config c ret) [
    | inl t ↦ omega (arith, t.bound)
    | inr (credential, t) ↦ omega (arith, t.bound)
  ]

  accept-IsBy :
      (peer : Option Peer) (s : Serving)
      → s.now ≤ config.deadline
      → IsBy (config.deadline + cost peer) (accept crates config peer s)
  unfolding accept serve handle
  accept-IsBy none s h = omega (arith, h)
  accept-IsBy (some p) s h =
      let after = exchange crates config s.pin_retired (connect p s) in
      after_handle-IsBy (config.deadline + cost (some p)) (handled crates config after.0)
        (record s { now = after.1.now; disk = after.1.disk })
        (omega (arith, h, exchange_within s.pin_retired (connect p s)))

  step-IsBy :
      (t : Tick) (s : Serving) (limit : ℕ)
      → s.now ≤ limit
      → config.deadline + cost t.peer ≤ limit
      → IsBy limit (step crates config t s)
  unfolding step
  step-IsBy t s limit h k = go t.signal (Bool-cases (leb config.deadline s.now))
    where
      weaken : (r : Step) → IsBy (config.deadline + cost t.peer) r → IsBy limit r
      weaken (next s) b = omega (arith, b, k)
      weaken (stop outcome s) b = omega (arith, b, k)
      weaken crash b = tt

      go :
          (signal : Bool)
          → (leb config.deadline s.now ≡ true) ⊎ (leb config.deadline s.now ≡ false)
          → IsBy limit (
              if signal
              then stop BindOutcome.canceled s
              else if leb config.deadline s.now
              then stop BindOutcome.expired s
              else accept crates config t.peer s)
      go true late = h
      go false (inl e) = rw e h
      go false (inr e) = rw e (
          weaken (accept crates config t.peer s)
            (accept-IsBy t.peer s (omega (arith, leb-false config.deadline s.now e))))

  run_within :
      (ts : List Tick) (s : Serving) (limit : ℕ)
      → s.now ≤ limit
      → config.deadline + worst ts ≤ limit
      → IsBy limit (run crates config ts s)
  unfolding run
  run_within [] s limit h k = h
  run_within (t ∷ ts) s limit h k =
      go (λ s' b. run_within ts s' limit b (omega (arith, k))) (step crates config t s)
        (step-IsBy t s limit h (omega (arith, k)))
    where
      go :
          ((s' : Serving) → s'.now ≤ limit → IsBy limit (run crates config ts s'))
          → (r : Step) → IsBy limit r
          → IsBy limit (elim r [
            | next s' ↦ run crates config ts s'
            | stop outcome s' ↦ stop outcome s'
            | crash ↦ crash
          ])
      go later (next s') b = later s' b
      go later (stop outcome s') b = b
      go later crash b = tt

  -- If the clock has not passed the deadline, then, whoever connects and whatever signals
  -- come, where the loop stops or goes on after these rounds the clock shows at most the
  -- deadline and the longest of: the pause of an idle round, and for each connection the
  -- time that its writes and the operator's answer take together. Of a panic nothing is
  -- said.
  pub run-IsBy :
      (ts : List Tick) (s : Serving)
      → s.now ≤ config.deadline
      → IsBy (config.deadline + worst ts) (run crates config ts s)
  run-IsBy ts s h = run_within ts s (config.deadline + worst ts) (omega (arith, h)) (omega arith)
