-- ===== src/Cli/Bind/Scan.antt =====
-- `bind` of src/main.rs with a phone that scans the code that it shows.
use mpx_cli.Prelude.{
  ℕ, ◌≡◌, refl, ap, sym, ◌∙◌, true, false, Option, none, some, List, ◌∷◌, map, if◌then◌else◌,
  unwrap_or, Bytes,
}
use mpx_cli.Text.Utf8.{Text}
use mpx_cli.Text.Codes.{codes}
use mpx_cli.Util.Console.{Printed}
use mpx_cli.Authkeys.Disk.{done}
use mpx_cli.Authkeys.Replace.{no_faults}
use mpx_cli.Authkeys.{added, ensure_line}
use mpx_cli.Payload.{Payload}
use mpx_cli.Payload.Url.{to_url, from_url, from_url-to_url}
use mpx_cli.Payload.Valid.{IsValid, normal}
use mpx_cli.Server.Exchange.Phone.{Phone, Opens}
use mpx_cli.Server.Exchange.Protocol.{by_token, Agreed, Willing, comment_of_phone}
use mpx_cli.Server.Run.{Peer, connect, run}
use mpx_cli.Server.Run.Enrolls.{calm_peer, visit, run_enrolls}
use mpx_cli.Cli.Machine.{BindArgs, Machine, listening, Tty, confirm_on_tty, secret_of, auto_yes}
use mpx_cli.Cli.Offline.{World, show, bind_offline}
use mpx_cli.Cli.Bind.{
  Round, Ended, exited, bind_payload, session_config, tick, served, finish, at_start, announce,
  ready_as, bind_on, listened, bind,
}
use mpx_cli.Cli.Bind.Kept.{stopped-disk}
use mpx_cli.Cli.Messages.{opening}

-- Both sides of a Diffie-Hellman exchange come to the same secret.
abbrev pub Commutes : Machine → Type 0
Commutes machine =
    (a b : Bytes)
    → machine.crates.diffie_hellman a (machine.public_key b)
      ≡ machine.crates.diffie_hellman b (machine.public_key a)

module _ (machine : Machine) (args : BindArgs) where
  -- A phone with a private key of its own that goes by what the shown URL says.
  pub record Scan (port : ℕ) (phone : Phone) : Type 0 where
    pub payload : Payload
    pub private : Bytes
    pub scanned :
        from_url machine.base64 (to_url machine.base64 (bind_payload machine args port))
        ≡ some payload
    pub epub : phone.epub ≡ machine.public_key private
    pub shared : phone.shared ≡ machine.crates.diffie_hellman private payload.spub
    pub spub : phone.spub ≡ payload.spub
    pub mode : phone.mode ≡ codes "token"
    pub proof : phone.proof ≡ payload.token

  -- What a scanned payload keeps of the session.
  scanned-key :
      {port : ℕ} {phone : Phone}
      → IsValid (bind_payload machine args port)
      → (h : Scan port phone) → some h.payload ≡ some (normal (bind_payload machine args port))
  scanned-key {port} v h =
      sym h.scanned ∙ from_url-to_url machine.base64 (bind_payload machine args port) v

  some-key : {p q : Payload} → some p ≡ some q → (p.spub ≡ q.spub) × (p.token ≡ q.token)
  some-key {p} {q} e =
      let same : p ≡ q = cc e in
      (ap (λ (p : Payload). p.spub) same, ap (λ (p : Payload). p.token) same)

  Scan-Agreed :
      {port : ℕ} {phone : Phone}
      → Commutes machine
      → IsValid (bind_payload machine args port)
      → Scan port phone
      → Agreed machine.crates (session_config machine args) phone false
  Scan-Agreed commutes v h =
      let (spub, token) = some-key (scanned-key v h) in
      record {
        secret =
            h.shared
            ∙ ap (machine.crates.diffie_hellman h.private) spub
            ∙ commutes h.private (secret_of machine args)
            ∙ ap (machine.crates.diffie_hellman (secret_of machine args)) (sym h.epub);
        key = h.spub ∙ spub;
        credential = by_token h.mode (h.proof ∙ token);
      }

  -- A round in which the phone connects, with the operator at the terminal.
  abbrev pub visited : Peer → Tty → Round
  visited p tty = record { signal = false; caller = some (calm_peer p, tty) }

  abbrev pub SaysYes : Tty → Type 0
  SaysYes tty = (if auto_yes machine args then true else confirm_on_tty tty) ≡ true

  tick-visited : (p : Peer) (tty : Tty) → SaysYes tty → tick machine args (visited p tty) ≡ visit p
  tick-visited p tty agrees =
      ap
        (λ answer. record {
          signal = false;
          peer = some (record (calm_peer p) { answer = answer });
        })
        agrees

  bind-listened :
      {port : Option ℕ}
      → args.offline ≡ false
      → machine.listen args.listen_port ≡ listening port
      → (rounds : List Round) (w : World)
      → bind machine args rounds w
        ≡ bind_on machine args true (unwrap_or port 0) rounds (show (opening machine args) w)
  unfolding bind listened
  bind-listened online listens rounds w =
      let opened = show (opening machine args) w in
      let (code, w') = bind_offline machine args opened in
      ap
        (λ offline.
          if offline
          then exited code w'
          else listened machine args (machine.listen args.listen_port) rounds opened)
        online
      ∙ ap (λ l. listened machine args l rounds opened) listens

  module _ (phone : Phone) where
    -- The exit, and the line that is there afterwards.
    abbrev pub Done :
        (p : Peer) (w : World)
        → Willing machine.crates
            (session_config machine args)
            phone
            (connect p (at_start machine args w))
        → Ended
        → Type 0
    Done p w h r =
        (w' : World) × (r ≡ exited 0 w')
        × (ensure_line no_faults h.key_type h.key_b64
              (comment_of_phone machine.crates (session_config machine args) phone) w.disk
            ≡ (done added, w'.disk))

    module _ (opens : Opens machine.crates.ciphers) (p : Peer) (tty : Tty) (w : World) where
      module _
          (h : Willing machine.crates
            (session_config machine args)
            phone
            (connect p (at_start machine args w))) where
        finishes :
            (announcer : Option Text) (ready : World) (rounds : List Round)
            → ready.disk ≡ w.disk
            → Agreed machine.crates (session_config machine args) phone false
            → SaysYes tty
            → Done p w h (
                finish machine args announcer ready (
                  run machine.crates
                    (session_config machine args)
                    (map (tick machine args) (visited p tty ∷ rounds))
                    (at_start machine args ready)))
        unfolding finish
        finishes announcer ready rounds d g agrees =
            let config = session_config machine args in
            let later = map (tick machine args) rounds in
            let start = at_start machine args w in
            let (s', goes, stored, told) =
              run_enrolls machine.crates config phone opens p start later g h in
            let same : run machine.crates config (tick machine args (visited p tty) ∷ later)
                  (at_start machine args ready)
                ≡ run machine.crates config (visit p ∷ later) start =
              ap (λ t. run machine.crates config (t ∷ later) (at_start machine args ready))
                (tick-visited p tty agrees)
              ∙ ap (λ d. run machine.crates config (visit p ∷ later) (record start { disk = d }))
                  d in
            (
              _,
              ap (finish machine args announcer ready) (same ∙ goes),
              stored
                  ∙ ap (λ d. (done added, d))
                      (sym (stopped-disk machine args announcer (served machine args s' ready))),
            )

        bind_on-Done :
            (port : ℕ) (rounds : List Round)
            → Agreed machine.crates (session_config machine args) phone false
            → SaysYes tty
            → (w' : World) → w'.disk ≡ w.disk
            → Done p w h (bind_on machine args true port (visited p tty ∷ rounds) w')
        unfolding bind_on
        bind_on-Done port rounds g agrees w' d =
            go (announce machine args port).0 (announce machine args port).1
          where
            go :
                (said : List Printed) (announcer : Option Text)
                → let ready = ready_as machine args port announcer (show said w') in
                  Done p w h (
                    finish machine args announcer ready (
                      run machine.crates
                        (session_config machine args)
                        (map (tick machine args) (visited p tty ∷ rounds))
                        (at_start machine args ready)))
            go said none = finishes none _ rounds d g agrees
            go said (some fullname) = finishes (some fullname) _ rounds d g agrees

        -- If opening inverts sealing, both sides of a key exchange come to one secret,
        -- `bind` is not offline and can listen, its payload has the right sizes, and
        -- in its first round a phone connects that goes by what `from_url` reads from
        -- the shown URL and keeps to the protocol, with its messages in time and a new
        -- good key, then on a connection whose writes go well, with an operator who
        -- says yes and a disk on which no call fails, `bind` exits with 0, and the
        -- disk is what `ensure_line` makes of the one before, where it adds the key
        -- under the comment of the bind and the device.
        pub bind_enrolls :
            {port : Option ℕ} (rounds : List Round)
            → Commutes machine
            → args.offline ≡ false
            → machine.listen args.listen_port ≡ listening port
            → IsValid (bind_payload machine args (unwrap_or port 0))
            → Scan (unwrap_or port 0) phone
            → SaysYes tty
            → Done p w h (bind machine args (visited p tty ∷ rounds) w)
        bind_enrolls {port} rounds commutes online listens v scan agrees =
            let (w', goes, stored) =
              bind_on-Done (unwrap_or port 0) rounds (Scan-Agreed commutes v scan) agrees
                (show (opening machine args) w) refl in
            (w', bind-listened online listens (visited p tty ∷ rounds) w ∙ goes, stored)
