-- ===== src/Server/Exchange/Honest.antt =====
-- `exchange` of src/server.rs with a phone that keeps to the protocol, step by step.
use mpx_cli.Prelude.{
  ℕ, ◌+◌, ◌≤◌, ◌<◌, ◌≡◌, refl, ap, sym, ◌∙◌, Bool, true, not, none, [], ◌++◌, arith, if◌then◌else◌,
  ◌==◌, min, equal, equal_refl, false, Bytes,
}
use mpx_cli.Text.Utf8.{Text}
use mpx_cli.Text.Codes.{codes}
use mpx_cli.Frame.Io.{ok, Io, pure, ◌>>=◌}
use mpx_cli.Frame.Framing.{read_slice}
use mpx_cli.Text.Utf8
use mpx_cli.Frame.Channel.{derive, pin_proof}
use mpx_cli.Frame.Value.{Value, get_text, get_bytes}
use mpx_cli.Authkeys.Replace.{no_faults}
use mpx_cli.Server.Conn.{Crates, Conn, read_by, phase_deadline, preauth_timeout}
use mpx_cli.Server.Conn.Stream.{stream, IsTimely}
use mpx_cli.Server.Exchange
use mpx_cli.Server.Exchange.Phone.{
  Phone, intro_of, hello_of, Opens, calm, framed, chain, read_by-Got, phase_of, intro_version,
  intro_epub, intro_mode, hello_proof,
}
use mpx_cli.Server.Exchange.Protocol.{
  start, hello_sealed, offer_sealed, done_sealed, Credential, by_token, by_pin, Agreed, Willing,
}
use mpx_cli.Server.Exchange.Enrolling.{
  decode-to_bytes, open_frame-seals, Enrolled, Enrolled-by, admits,
}

module _ (crates : Crates) (config : Exchange.SessionConfig) where
  -- The steps of `hello`, from each message on.
  module _ (mode : Text) (epub : Bytes) (ret : Bool) where
    abbrev proved_at : Value → Io Conn Exchange.ConnectionResult
    proved_at message = Exchange.required (get_bytes message (codes "proof")) >>= λ proof.
        Exchange.authorize crates config mode proof epub ret >>= Exchange.admit crates config

    abbrev hello_at : Bytes → Io Conn Exchange.ConnectionResult
    hello_at sealed = Exchange.open_frame crates config sealed >>= λ plain.
        Exchange.decode crates config plain >>= proved_at

  module _ (phone : Phone) where
    pin_or_token : equal (codes "pin") (codes "token") ≡ false
    unfolding equal
    pin_or_token = refl

    authorize-Credential :
        {ret : Bool}
        → Credential crates config phone ret
        → (d : Conn)
        → Exchange.authorize crates config phone.mode phone.proof phone.epub ret d ≡ (ok none, d)
    unfolding Exchange.authorize
    authorize-Credential (by_token m p) d =
        rw (m, p) (rw (equal_refl (codes "token")) (rw (equal_refl config.token) refl))
    authorize-Credential (by_pin m p) d =
        rw (m, p)
          (rw pin_or_token (
            rw (equal_refl (codes "pin")) (
              rw
                (equal_refl
                  (pin_proof crates.ciphers (Utf8.as_bytes config.pin) phone.epub config.spub))
                refl)))

    -- What the program has sent in the end.
    abbrev pub says : Bytes → Bytes
    says sent =
        sent
        ++ framed (offer_sealed crates config phone).0
        ++ framed (done_sealed crates config phone).0

    module _ (opens : Opens crates.ciphers) (c : Conn) (ret : Bool) where
      module _ (g : Agreed crates config phone ret) (h : Willing crates config phone c) where
        -- From HELLO on.
        says_hello :
            (deadline : ℕ) (d : Conn)
            → h.limit ≤ deadline
            → d.disk ≡ c.disk
            → d.answer_time ≡ c.answer_time
            → d.writes ≡ []
            → d.faults ≡ no_faults
            → d.answer ≡ true
            → c.now ≤ d.now
            → d.now < h.limit
            → IsTimely h.limit d.inbound
            → stream d.inbound ≡ h.behind_intro
            → Enrolled crates config phone c h
                (says d.sent)
                (Exchange.hello crates config deadline phone.mode phone.epub phone.shared ret d)
        unfolding Exchange.hello Exchange.set_channel
        says_hello deadline d le disk time w f a since early timely left =
            let msg = hello_of phone in
            let d0 = record d {
              channel = derive crates.ciphers phone.shared phone.epub config.spub;
            } in
            let d1 = record d { channel = start crates config phone } in
            let same : d0 ≡ d1 =
              ap (λ k. record d { channel = derive crates.ciphers phone.shared phone.epub k })
                (sym g.key) in
            let got =
              read_by-Got h.limit deadline le d1 (hello_sealed crates config phone).0 h.behind_hello
                early timely (ap read_slice left ∙ h.hello) in
            let d2 = record d1 { now = got.now; inbound = got.inbound } in
            let d3 = record d2 { channel = (hello_sealed crates config phone).1 } in
            rw h.contributory (
              Enrolled-by crates config phone c h refl
                (ap (read_by deadline >>= hello_at phone.mode phone.epub ret) same
                  ∙ chain (read_by deadline) (hello_at phone.mode phone.epub ret) got.read
                  ∙ chain (Exchange.open_frame crates config (hello_sealed crates config phone).0)
                      (λ plain.
                        Exchange.decode crates config plain >>= proved_at phone.mode phone.epub ret)
                      (open_frame-seals crates config opens msg d2)
                  ∙ chain (Exchange.decode crates config (crates.cbor.to_bytes msg))
                      (proved_at phone.mode phone.epub ret)
                      (decode-to_bytes crates config msg h.hello_decodes d3)
                  ∙ chain (Exchange.required (get_bytes msg (codes "proof")))
                      (λ proof.
                        Exchange.authorize crates config phone.mode proof phone.epub ret
                        >>= Exchange.admit crates config)
                      (ap (λ o. Exchange.required o d3) (hello_proof phone))
                  ∙ chain (Exchange.authorize crates config phone.mode phone.proof phone.epub ret)
                      (Exchange.admit crates config) (authorize-Credential g.credential d3))
                (admits crates config phone c h opens d3 disk time w f a refl
                  (omega (arith, since, got.later)) got.early got.timely got.left))

        greets :
            (deadline : ℕ) (d : Conn)
            → Exchange.greet crates config deadline (intro_of phone) ret d
              ≡ Exchange.hello crates config deadline phone.mode phone.epub phone.shared ret d
        unfolding Exchange.greet
        greets deadline d =
            let msg = intro_of phone in
            let dh = crates.diffie_hellman config.secret in
            ap
              (λ (v : ℕ).
                (if not (v == 1)
                    then pure Exchange.ignored
                    else Exchange.required (Exchange.array_32 (get_bytes msg (codes "epub")))
                      >>= λ epub. Exchange.required (get_text msg (codes "mode")) >>= λ mode.
                          Exchange.hello crates config deadline mode epub (dh epub) ret)
                  d)
              (intro_version phone)
            ∙ chain (Exchange.required (Exchange.array_32 (get_bytes msg (codes "epub"))))
                (λ epub. Exchange.required (get_text msg (codes "mode")) >>= λ mode.
                  Exchange.hello crates config deadline mode epub (dh epub) ret)
                (ap (λ o. Exchange.required o d) (intro_epub phone h.epub_size))
            ∙ chain (Exchange.required (get_text msg (codes "mode")))
                (λ mode. Exchange.hello crates config deadline mode phone.epub (dh phone.epub) ret)
                (ap (λ o. Exchange.required o d) (intro_mode phone))
            ∙ ap
                (λ shared. Exchange.hello crates config deadline phone.mode phone.epub shared ret d)
                (sym g.secret)

        -- If opening inverts sealing, the phone takes the same secret and the same key
        -- of the session as the program and presents the token, or the PIN of an offer
        -- whose PIN is not retired, it sends the messages of the protocol and seals
        -- them in its turn, the codec reads them back, they all arrive within five
        -- seconds, the offer lasts long enough for the operator's answer, the key is a
        -- good one that no line of the file holds, and the frames that the program
        -- writes have a length of 32 bits, then on a connection whose writes go well,
        -- with an operator who says yes and a disk on which no call fails, `exchange`
        -- adds the key and returns that it enrolled the device and was heard, and what
        -- it has sent is the sealed OFFER and the sealed acknowledgment, each behind
        -- its length.
        pub exchange-Enrolled :
            Enrolled crates config phone c h
              (says c.sent)
              (Exchange.exchange crates config ret (calm c))
        unfolding Exchange.exchange
        exchange-Enrolled =
            let d = calm c in
            let msg = intro_of phone in
            let deadline = min (c.now + preauth_timeout) config.deadline in
            let le : h.limit ≤ deadline = omega (arith, h.soon, h.in_time) in
            let got =
              read_by-Got h.limit deadline le d (crates.cbor.to_bytes msg) h.behind_intro h.starts
                h.timely h.intro in
            let d1 = record d { now = got.now; inbound = got.inbound } in
            Enrolled-by crates config phone c h refl
              (chain (phase_deadline config.deadline preauth_timeout)
                  (λ preauth. read_by preauth >>= λ frame.
                    Exchange.decode crates config frame >>= λ intro.
                    Exchange.greet crates config preauth intro ret)
                  (phase_of config.deadline preauth_timeout d)
                ∙ chain (read_by deadline)
                    (λ frame. Exchange.decode crates config frame >>= λ intro.
                      Exchange.greet crates config deadline intro ret)
                    got.read
                ∙ chain (Exchange.decode crates config (crates.cbor.to_bytes msg))
                    (λ intro. Exchange.greet crates config deadline intro ret)
                    (decode-to_bytes crates config msg h.intro_decodes d1)
                ∙ greets deadline d1)
              (says_hello deadline d1 le refl refl refl refl refl got.later got.early got.timely
                got.left)
