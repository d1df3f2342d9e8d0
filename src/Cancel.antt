-- ===== src/Cancel.antt =====
-- src/cancel.rs: the flag that a cancel signal raises. libc and the kernel behind it are parameters:
-- the numbers of the two signals, which calls of `signal` fail, and which signals kill by default.
pub mod Latch
mod Tests
use mpx_cli.Prelude.{
  ℕ, Bool, true, false, ◌||◌, Option, none, some, List, [], ◌∷◌, ◌==◌, if◌then◌else◌,
}

pub record Libc : Type 0 where
  pub sigint : ℕ
  pub sigterm : ℕ
  pub signal_fails : ℕ → Bool
  pub kills : ℕ → Bool

-- What the kernel does with a signal.
pub data Disposition : Type 0 where
  by_default : Disposition
  handler : Disposition

-- The static `CANCELED`, and the dispositions.
pub record Process : Type 0 where
  pub canceled : Bool
  pub disposition : ℕ → Disposition

abbrev pub fresh : Process
fresh = record { canceled = false; disposition = λ s. by_default }

-- `handle`: the store.
abbrev pub handle : Process → Process
handle p = record p { canceled = true }

-- `requested`: the load.
abbrev pub requested : Process → Bool
requested p = p.canceled

module _ (libc : Libc) where
  -- One call of `libc::signal`, whose result `install` does not look at.
  abbrev pub signal : ℕ → Process → Process
  signal s p =
      if libc.signal_fails s
      then p
      else record p { disposition = λ n. if n == s then handler else p.disposition n }

  -- The loop of `install`.
  unfoldable pub install_each : List ℕ → Process → Process
  install_each [] p = p
  install_each (s ∷ ss) p = install_each ss (signal s p)

  unfoldable pub install : Process → Process
  unfolding install_each
  install p = install_each (libc.sigint ∷ libc.sigterm ∷ []) p

  abbrev pub dispose : Disposition → ℕ → Process → Option Process
  dispose by_default s p = if libc.kills s then none else some p
  dispose handler s p = some (handle p)

  -- A signal arrives: what is left of the process.
  abbrev pub deliver : ℕ → Process → Option Process
  deliver s p = dispose (p.disposition s) s p

  unfoldable pub receive : List ℕ → Process → Option Process
  receive [] p = some p
  receive (s ∷ ss) p = elim (deliver s p) [ none ↦ none | some p' ↦ receive ss p' ]
