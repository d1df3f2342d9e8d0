-- ===== src/Server/Exchange/Safety.antt =====
-- The end of a connection of src/server.rs, judged: its second phase, and the whole.
use mpx_cli.Prelude.{refl, subst, sym, Bool, Option, none, some, Bytes}
use mpx_cli.Text.Utf8.{Text}
use mpx_cli.Text.Codes.{codes}
use mpx_cli.Text.Fields.{trim}
use mpx_cli.Frame.Io.{ok}
use mpx_cli.Frame.Value.{get_text}
use mpx_cli.Server.Conn.{Crates, Conn, preauth_timeout, postauth_timeout}
use mpx_cli.Server.Exchange.Quiet
use mpx_cli.Server.Exchange.Quiet.{Same, Same-refl, Same-trans}
use mpx_cli.Server.Exchange.Heard.{until, greeted, Hello, Proved, offered, asking}
use mpx_cli.Server.Exchange.Granted.{Granted}
use mpx_cli.Server.Exchange.Walk.{Walk, walk-exchange}
use mpx_cli.Server.Exchange.Verdict.{Verdict, target-Same}
use mpx_cli.Server.Exchange
use mpx_cli.Server.Exchange.Commit.{
  Judged, Judged-bind, Judged-required, Judged-deadline, accept_key-Judged,
}

module _ (crates : Crates) (config : Exchange.SessionConfig) (ret : Bool) where
  module _ (b : Conn) where
    -- The second phase, of a peer that sent a proof that counts.
    let_on-Judged :
        {mode : Text} {epub proof sealed : Bytes}
        → Hello crates config b mode epub proof sealed
        → Proved crates config ret mode epub proof
        → Same b (greeted crates config b epub sealed)
        → Judged crates config ret b
            (Exchange.admit crates config none)
            (greeted crates config b epub sealed)
    unfolding Exchange.admit Exchange.open_frame Exchange.decode
    let_on-Judged {mode} {epub} {proof} {sealed} said proved s =
        let d = greeted crates config b epub sealed in
        Judged-deadline crates config ret b d postauth_timeout _ (
          Judged-bind crates config ret b d _ _ s
            (Quiet.Quiet-send crates config (Exchange.offer_body crates config))
            (λ u sent s.
              Judged-bind crates config ret b (offered crates config d) _ _ s
                (Quiet.Quiet-read_by (until crates config d postauth_timeout))
                (λ request read s.
                  Judged-bind crates config ret b _ (Exchange.open_frame crates config request) _ s
                    (Quiet.Quiet-open_frame crates config request)
                    (λ plain opened s.
                      Judged-required crates config ret b _ (crates.cbor.from_bytes plain) _
                        (target-Same s)
                        (λ enroll decoded.
                          Judged-required crates config ret b _ (get_text enroll (codes "pubkey")) _
                            (target-Same s)
                            (λ line line_said.
                              accept_key-Judged crates config ret
                                (Exchange.device_of (get_text enroll (codes "device")))
                                (crates.from_openssh (trim line)) b (asking crates config d request)
                                s
                                (λ key parsed. record {
                                  credential = record {
                                    mode = mode;
                                    epub = epub;
                                    proof = proof;
                                    sealed = sealed;
                                    said = said;
                                    proved = proved;
                                  };
                                  sealed = request;
                                  asks = record {
                                    sent = sent;
                                    enroll_read = read;
                                    plain = plain;
                                    enroll_opened = opened;
                                    enroll = enroll;
                                    enroll_decoded = decoded;
                                    line = line;
                                    line_said = line_said;
                                    device_said = refl;
                                    parsed = parsed;
                                  };
                                  at = refl;
                                })))))))

    admit-Judged :
        (v : Option Exchange.ConnectionResult) {mode : Text} {epub proof sealed : Bytes} {c : Conn}
        → Hello crates config b mode epub proof sealed
        → Same b (greeted crates config b epub sealed)
        → Same b c
        → Granted crates config ret mode proof epub (greeted crates config b epub sealed) (ok v) c
        → Judged crates config ret b (Exchange.admit crates config v) c
    unfolding Exchange.admit
    admit-Judged none said d s (proved, e) =
        subst (Judged crates config ret b (Exchange.admit crates config none)) (sym e)
          (let_on-Judged said proved d)
    admit-Judged (some Exchange.ignored) said d s g = target-Same s
    admit-Judged (some Exchange.pin_failure) {mode} {epub} {proof} {sealed} said d s g = (
      target-Same s,
      record {
        epub = epub;
        proof = proof;
        sealed = sealed;
        said = subst (λ m. Hello crates config b m epub proof sealed) g.0 said;
        fresh = g.1;
        wrong = g.2;
      },
    )
    admit-Judged (some Exchange.declined) said d s g = absurd g
    admit-Judged (some (Exchange.enrolled _ _ _)) said d s g = absurd g

    abbrev judging : Walk crates config ret b
    judging = record {
      R = Same b;
      G = Verdict crates config ret b;
      begins = Same-refl b;
      fails = λ e s. target-Same s;
      panics = λ s. tt;
      ignores = target-Same;
      reads = λ {c} s.
          Same-trans s ((Quiet.Quiet-read_by (until crates config b preauth_timeout)).at c);
      opens = λ sealed s. record {
        disk = s.disk;
        faults = s.faults;
        answer = s.answer;
        asked = s.asked;
      };
      rekeys =
          λ ch s. record { disk = s.disk; faults = s.faults; answer = s.answer; asked = s.asked };
      authorizes = λ mode proof epub {c} s.
          Same-trans s ((Quiet.Quiet-authorize crates config mode proof epub ret).at c);
      admits = λ v said d s g. admit-Judged v said d s g;
    }

    -- If a connection enrolls a key, then its peer sent a proof in HELLO that is the
    -- token, or the proof of the PIN while that is not retired, and it asked for this key,
    -- an ed25519 one, under the name of this device in ENROLL; the operator was asked
    -- about that device before the expiry and said yes; when the answer was there the
    -- clock stood before the expiry still; and the disk is what `ensure_line` made of it
    -- with the fields of that key, with the comment that is reported and sent back. A
    -- wrong PIN is reported only where the peer sent a wrong proof of a PIN that is not
    -- retired, and a decline only where the peer sent a proof that counts and the operator
    -- says no. In these two cases, where the peer is ignored and on every error the file
    -- is as it was. Of a panic nothing is said.
    pub exchange-Verdict :
        Verdict crates config ret b
          (Exchange.exchange crates config ret b).0
          (Exchange.exchange crates config ret b).1
    exchange-Verdict = walk-exchange crates config ret b judging
