-- ===== src/Cli/Bind/Kept.antt =====
-- The exit code of `bind` of src/main.rs, authorized_keys behind it, and the announcement.
use mpx_cli.Prelude.{
  ℕ, ◌≡◌, refl, ap, sym, ◌∙◌, ◌⊎◌, inl, inr, Bool, true, false, Option, none, some, List, [], ◌∷◌,
  ◌++◌, append-nil, map, if◌then◌else◌, unwrap_or,
}
use mpx_cli.Text.Utf8.{Text}
use mpx_cli.Util.Console.{Printed}
use mpx_cli.Authkeys.Disk.{Disk, done}
use mpx_cli.Authkeys.{AddOutcome, ensure_line}
use mpx_cli.Server.Run.{BindOutcome, Serving, Step, next, stop, crash, run}
use mpx_cli.Server.Run.Loop.{Counting, Left, Enrolled, run-Left}
use mpx_cli.Cli.Machine.{BindArgs, Machine, Listening, unavailable, listening, blocking}
use mpx_cli.Cli.Offline.{World, show, offline_comment, bind_offline}
use mpx_cli.Cli.{exit_code}
use mpx_cli.Cli.Bind.{
  Round, Ended, exited, serving, panicked, session_config, tick, finish, at_start, announced_as,
  announce, ready_as, bind_on, listened, bind, stopped, served,
}
use mpx_cli.Cli.Messages.{opening}
use mpx_cli.Cli.Offline.Offered.{Offered, gave_up, offered, bind_offline-Offered}

module _ (machine : Machine) (args : BindArgs) where
  -- What an exit code of `bind` says, over these rounds of the accept loop.
  pub data Meaning (rounds : List Round) (w : World) : ℕ → World → Type 0 where
    kept :
        {code : ℕ} {w' : World}
        → (code ≡ 1) ⊎ ((code ≡ 2) ⊎ (code ≡ 130))
        → w'.disk.target ≡ w.disk.target
        → Meaning rounds w code w'
    enrolled_offline :
        {w' : World} (key_type key_b64 : Text) (outcome : AddOutcome)
        → args.offline ≡ true
        → ensure_line machine.faults key_type key_b64 (offline_comment machine args) w.disk
          ≡ (done outcome, w'.disk)
        → Meaning rounds w 0 w'
    enrolled_online :
        {w' : World} (device comment : Text) (acknowledged : Bool) (s' : Serving)
        → args.offline ≡ false
        → s'.disk ≡ w'.disk
        → Enrolled machine.crates
            (session_config machine args)
            (map (tick machine args) rounds)
            device
            comment
            acknowledged
            (at_start machine args w)
            s'
        → Meaning rounds w 0 w'

  -- Whatever was announced meanwhile was withdrawn.
  abbrev pub Balanced : World → World → Type 0
  Balanced w w' =
      (names : List Text) × (w'.announced ≡ w.announced ++ names)
      × (w'.withdrawn ≡ w.withdrawn ++ names)

  abbrev pub Kept : List Round → World → Ended → Type 0
  Kept rounds w (exited code w') = Meaning rounds w code w' × Balanced w w'
  Kept rounds w (serving w') = w'.disk.target ≡ w.disk.target
  Kept rounds w panicked = Unit

  offline-Kept :
      (rounds : List Round) (w : World) (code : ℕ) (w' : World)
      → args.offline ≡ true
      → Offered machine args w (code, w')
      → Kept rounds w (exited code w')
  offline-Kept rounds w code w' e (gave_up k) = (
    kept (inl refl) k.target,
    ([], k.announced ∙ sym (append-nil _), k.withdrawn ∙ sym (append-nil _)),
  )
  offline-Kept rounds w code w' e (offered t k outcome stored a b) =
      (enrolled_offline t k outcome e stored, ([], a ∙ sym (append-nil _), b ∙ sym (append-nil _)))

  stopped-Balanced :
      (announcer : Option Text) (w w' : World)
      → w'.announced ≡ (announced_as machine args announcer w).announced
      → w'.withdrawn ≡ w.withdrawn
      → Balanced w (stopped machine args announcer w')
  stopped-Balanced none w w' a b = ([], a ∙ sym (append-nil _), b ∙ sym (append-nil _))
  stopped-Balanced (some fullname) w w' a b =
      (fullname ∷ [], a, ap (λ names. names ++ fullname ∷ []) b)

  pub stopped-disk :
      (announcer : Option Text) (w : World) → (stopped machine args announcer w).disk ≡ w.disk
  stopped-disk none w = refl
  stopped-disk (some fullname) w = refl

  module _ (online : args.offline ≡ false) (rounds : List Round) where
    abbrev LeftOf : World → Step → Type 0
    LeftOf w r =
        Left machine.crates (session_config machine args) (map (tick machine args) rounds)
          (at_start machine args w) r

    meant :
        (outcome : BindOutcome) (s : Serving) (w w' : World)
        → w'.disk ≡ s.disk
        → LeftOf w (stop outcome s)
        → Meaning rounds w (exit_code outcome) w'
    meant (BindOutcome.enrolled device comment acknowledged) s w w' e l =
        enrolled_online device comment acknowledged s online (sym e) l.1
    meant BindOutcome.expired s w w' e l =
        kept (inr (inl refl)) (ap (λ (d : Disk). d.target) e ∙ l.1)
    meant BindOutcome.declined s w w' e l = kept (inl refl) (ap (λ (d : Disk). d.target) e ∙ l.1)
    meant BindOutcome.canceled s w w' e l =
        kept (inr (inr refl)) (ap (λ (d : Disk). d.target) e ∙ l.1)

    -- The loop ended, with an announcer, on a world that differs in what was announced.
    finish-Kept :
        (announcer : Option Text) (w ready : World) (r : Step)
        → ready.announced ≡ (announced_as machine args announcer w).announced
        → ready.withdrawn ≡ w.withdrawn
        → LeftOf w r
        → Kept rounds w (finish machine args announcer ready r)
    unfolding finish
    finish-Kept announcer w ready (next s) a b l = l.1
    finish-Kept announcer w ready crash a b l = tt
    finish-Kept announcer w ready (stop outcome s) a b l = (
      meant outcome s w _ (stopped-disk announcer (served machine args s ready)) l,
      stopped-Balanced announcer w (served machine args s ready) a b,
    )

    bind_on-Kept : (port : ℕ) (w : World) → Kept rounds w (bind_on machine args true port rounds w)
    unfolding bind_on
    bind_on-Kept port w = go (announce machine args port).0 (announce machine args port).1
      where
        left : LeftOf w (
            run machine.crates
              (session_config machine args)
              (map (tick machine args) rounds)
              (at_start machine args w))
        left =
            run-Left machine.crates (session_config machine args) (map (tick machine args) rounds) _
              Counting.none_yet

        go :
            (said : List Printed) (announcer : Option Text)
            → let ready = ready_as machine args port announcer (show said w) in
              Kept rounds w (
                finish machine args announcer ready (
                  run machine.crates
                    (session_config machine args)
                    (map (tick machine args) rounds)
                    (at_start machine args ready)))
        go said none = finish-Kept none w _ _ refl refl left
        go said (some fullname) = finish-Kept (some fullname) w _ _ refl refl left

    listened-Kept : (l : Listening) (w : World) → Kept rounds w (listened machine args l rounds w)
    unfolding listened bind_on finish
    listened-Kept (unavailable err) w =
        (kept (inl refl) refl, ([], sym (append-nil _), sym (append-nil _)))
    listened-Kept (listening port) w = bind_on-Kept (unwrap_or port 0) w
    listened-Kept (blocking port) w = tt

  -- What is printed first changes nothing else.
  Meaning-show :
      (rounds : List Round) (lines : List Printed) (w : World) {code : ℕ} {w' : World}
      → Meaning rounds (show lines w) code w'
      → Meaning rounds w code w'
  Meaning-show rounds lines w (kept c e) = kept c e
  Meaning-show rounds lines w (enrolled_offline t k outcome e stored) =
      enrolled_offline t k outcome e stored
  Meaning-show rounds lines w (enrolled_online device comment good s' e d enrolled) =
      enrolled_online device comment good s' e d enrolled

  Kept-show :
      (rounds : List Round) (lines : List Printed) (w : World) (x : Ended)
      → Kept rounds (show lines w) x
      → Kept rounds w x
  Kept-show rounds lines w (exited code w') k = (Meaning-show rounds lines w k.0, k.1)
  Kept-show rounds lines w (serving w') k = k
  Kept-show rounds lines w panicked k = tt

  -- If `bind` exits, then its code is 1, 2 or 130 and authorized_keys is as it was, or it is
  -- 0 and a key was enrolled: offline, where `ensure_line` succeeded and left that disk; or
  -- online, where in one of the rounds, to which the loop came from its start without a
  -- change of the file, a peer connected that sent a proof that counts then, it asked for
  -- the key that was stored, the operator said yes to its device before the deadline, and
  -- the disk is what that connection left. In each case what was announced meanwhile was
  -- withdrawn. While it serves, the file is as it was. Of a panic nothing is said.
  pub bind-Kept : (rounds : List Round) (w : World) → Kept rounds w (bind machine args rounds w)
  unfolding bind
  bind-Kept rounds w =
      go (show (opening machine args) w) (Kept-show rounds (opening machine args) w) args.offline
        refl
    where
      go :
          (opened : World)
          → ((x : Ended) → Kept rounds opened x → Kept rounds w x)
          → (offline : Bool) → args.offline ≡ offline
          → let (code, w') = bind_offline machine args opened in
            Kept rounds w (
              if offline
              then exited code w'
              else listened machine args (machine.listen args.listen_port) rounds opened)
      go opened k true e =
          k (exited (bind_offline machine args opened).0 (bind_offline machine args opened).1) (
            offline-Kept rounds opened (bind_offline machine args opened).0
              (bind_offline machine args opened).1 e (bind_offline-Offered machine args opened))
      go opened k false e =
          k (listened machine args (machine.listen args.listen_port) rounds opened)
            (listened-Kept e rounds (machine.listen args.listen_port) opened)
