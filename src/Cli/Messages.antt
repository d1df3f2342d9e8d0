-- ===== src/Cli/Messages.antt =====
-- src/main.rs: what `bind` prints.
use mpx_cli.Prelude.{ℕ, ◌/◌, ◌%◌, Bool, true, false, Option, none, some, List, [], ◌∷◌, ◌++◌}
use mpx_cli.Text.Utf8.{Text}
use mpx_cli.Text.Codes.{codes}
use mpx_cli.Util.Console.{Printed, println, ok, note, warn, decimal, padded}
use mpx_cli.Server.Run
use mpx_cli.Server.Run.{BindOutcome, ServerEvent, Peer, Tick, Serving, Step, next, stop, crash, run}
use mpx_cli.Cli.Machine.{
  BindArgs, Machine, spaced_digits, warn_about_test_hooks, console, name_of, user_of, addrs_of,
  hostkeys_of, path_of, pin_of,
}
use mpx_cli.Cli.{clamped_expires, marker_id8}

-- `join(", ")`
unfoldable pub commas : List Text → Text
commas [] = []
commas (s ∷ []) = s
commas (s ∷ t ∷ rest) = s ++ (codes ", " ++ commas (t ∷ rest))

abbrev summary : List Text → Text
summary [] = codes "no LAN address"
summary (a ∷ addrs) = commas (a ∷ addrs)

module _ (machine : Machine) (args : BindArgs) where
  abbrev pub said_ok : Text → Printed
  said_ok = ok (console machine args)

  abbrev pub warned : Text → Printed
  warned = warn (console machine args)

  abbrev pub noted : Text → Printed
  noted = note (console machine args)

  abbrev hostkeys_line : List Text → Printed
  hostkeys_line (key ∷ keys) = said_ok (codes "host keys read — " ++ key)
  hostkeys_line [] = warned (
      codes "no host keys under "
      ++ (args.hostkeys_dir ++ codes " — the app will connect unpinned"))

  abbrev pub opening : List Printed
  opening =
      warn_about_test_hooks (console machine args)
      ++ (println (
            codes "● multiplex bind · "
            ++ (name_of machine args
                ++ (codes " ("
                    ++ (summary (addrs_of machine args)
                        ++ (codes " · ssh :"
                            ++ (decimal args.ssh_port
                                ++ (codes " · user " ++ (user_of machine args ++ codes ")"))))))))
          ∷ hostkeys_line (hostkeys_of machine args)
          ∷ [])

  abbrev pub expires_of : ℕ
  expires_of = clamped_expires args.expires

  abbrev pub bind_panel : List Text
  bind_panel =
      []
      ∷ codes "scan with Multiplex on iPhone"
      ∷ codes "or iPad, or confirm the PIN"
      ∷ codes "it discovers on your network:"
      ∷ []
      ∷ (codes "PIN  " ++ spaced_digits (pin_of machine args))
      ∷ []
      ∷ (codes "expires in "
          ++ (decimal (expires_of / 60)
              ++ (codes ":" ++ (padded 2 (expires_of % 60) ++ codes " · single use"))))
      ∷ []

  -- `progress`
  abbrev event_lines : ServerEvent → List Printed
  event_lines (Run.wrong_pin remaining) =
      warned (codes "wrong PIN (" ++ (decimal remaining ++ codes " tries left)")) ∷ []
  event_lines ServerEvent.pin_retired =
      warned (codes "too many wrong PINs — PIN entry is off for this offer")
      ∷ noted (codes "  the QR still works; re-run `mpx bind` for a fresh PIN")
      ∷ []

  unfoldable pub progress : List ServerEvent → List Printed
  progress [] = []
  progress (e ∷ es) = event_lines e ++ progress es

  -- The `match outcome`.
  abbrev unacknowledged : Text → Bool → List Printed
  unacknowledged comment true = []
  unacknowledged comment false =
      warned (codes "the device never acknowledged it — if this wasn't your device,")
      ∷ warned (codes "  remove it with `mpx unbind " ++ (marker_id8 comment ++ codes "`"))
      ∷ []

  unfoldable pub outcome_lines : BindOutcome → List Printed
  outcome_lines (BindOutcome.enrolled device comment acknowledged) =
      (said_ok (
          codes "key enrolled → "
          ++ (path_of machine args ++ (codes " (" ++ (comment ++ codes ")"))))
        ∷ unacknowledged comment acknowledged)
      ++ said_ok (codes "bound. Multiplex has " ++ (name_of machine args ++ codes " on the wall."))
        ∷ []
  outcome_lines BindOutcome.expired =
      warned (codes "offer expired with no bind — run `mpx bind` again") ∷ []
  outcome_lines BindOutcome.declined = noted (codes "declined — nothing was enrolled") ∷ []
  outcome_lines BindOutcome.canceled = noted (codes "canceled — nothing was enrolled") ∷ []

  abbrev pub waiting_note : Option Text → List Printed
  waiting_note none = []
  waiting_note (some fullname) =
      noted (
        codes "this terminal confirms the bind — if Multiplex reports success and nothing "
        ++ (codes "appears here,\n"
            ++ (codes "  it enrolled somewhere else: Ctrl-C, delete that host in the "
                ++ codes "app, and prefer the QR.")))
      ∷ []
