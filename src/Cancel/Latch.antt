-- ===== src/Cancel/Latch.antt =====
-- What the handlers of src/cancel.rs make of any sequence of signals.
use mpx_cli.Prelude.{
  ℕ, ◌≡◌, refl, ap, ◌∙◌, Bool, true, false, not, ◌&&◌, ◌||◌, none, some, List, [], ◌∷◌, ◌==◌,
  if◌then◌else◌, arith,
}
use mpx_cli.Cancel.{Libc, by_default, handler, Process, fresh, install, dispose, deliver, receive}

unfoldable pub any : (ℕ → Bool) → List ℕ → Bool
any f [] = false
any f (s ∷ ss) = f s || any f ss

module _ (libc : Libc) where
  -- The signals that are handled once `install` has run, and those that still kill.
  abbrev pub caught : ℕ → Bool
  caught s =
      s == libc.sigint && not (libc.signal_fails libc.sigint)
      || s == libc.sigterm && not (libc.signal_fails libc.sigterm)

  abbrev pub fatal : ℕ → Bool
  fatal s = not (caught s) && libc.kills s

  installed_at :
      (s : ℕ) → (install libc fresh).disposition s ≡ (if caught s then handler else by_default)
  unfolding install
  installed_at s = ground arith

  pub installed_flag : (install libc fresh).canceled ≡ false
  unfolding install
  installed_flag = ground arith

  -- The flag stands at `b`, and the handlers are installed.
  abbrev pub installed : Bool → Process
  installed b = record (install libc fresh) { canceled = b }

  deliver-installed :
      (s : ℕ) (b : Bool)
      → deliver libc s (installed b) ≡ (if fatal s then none else some (installed (b || caught s)))
  deliver-installed s b =
      ap (λ d. dispose libc d s (installed b)) (installed_at s) ∙ go (caught s) b
    where
      go :
          (c b : Bool)
          → dispose libc (if c then handler else by_default) s (installed b)
            ≡ (if not c && libc.kills s then none else some (installed (b || c)))
      go true true = refl
      go true false = refl
      go false true = refl
      go false false = refl

  or_assoc : (a b c : Bool) → (a || b) || c ≡ a || (b || c)
  or_assoc true b c = refl
  or_assoc false b c = refl

  pub receives :
      (ss : List ℕ) (b : Bool)
      → receive libc ss (installed b)
        ≡ (if any fatal ss then none else some (installed (b || any caught ss)))
  unfolding receive any
  receives [] b = ground arith
  receives (s ∷ ss) b =
      ap (λ o. elim o [ none ↦ none | some p ↦ receive libc ss p ]) (deliver-installed s b)
      ∙ go (receives ss (b || caught s)) (fatal s)
    where
      go :
          receive libc ss (installed (b || caught s))
            ≡ (if any fatal ss then none else some (installed ((b || caught s) || any caught ss)))
          → (f : Bool)
          → elim (if f then none else some (installed (b || caught s))) [
            | none ↦ none
            | some p ↦ receive libc ss p
          ]
            ≡ (if f || any fatal ss
                then none
                else some (installed (b || (caught s || any caught ss))))
      go later true = refl
      go later false =
          later
          ∙ ap (λ c. if any fatal ss then none else some (installed c))
              (or_assoc b (caught s) (any caught ss))

  -- After `install` in a new process, any sequence of signals ends the process if one of
  -- them kills by default and has no handler. Otherwise it lives, and the flag is raised
  -- exactly if one of the signals was SIGINT or SIGTERM with its handler installed.
  pub receive-install :
      (ss : List ℕ)
      → receive libc ss (install libc fresh) ≡ (
          if any fatal ss
          then none
          else some (record (install libc fresh) { canceled = any caught ss }))
  receive-install ss =
      ap (receive libc ss) (ap (λ b. installed b) installed_flag) ∙ receives ss false
