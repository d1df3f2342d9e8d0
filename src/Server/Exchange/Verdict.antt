-- ===== src/Server/Exchange/Verdict.antt =====
-- What each result of `exchange` of src/server.rs is to say of authorized_keys, of the peer and of
-- the operator.
use mpx_cli.Prelude.{◌<◌, ◌≡◌, refl, ap, ◌∙◌, Bool, true, false, some, List, ◌∷◌}
use mpx_cli.Text.Utf8.{Text}
use mpx_cli.Frame.Io.{Result, ok, err, panic, pure, follow}
use mpx_cli.Text.Codes.{codes}
use mpx_cli.Text.Fields.{split_whitespace}
use mpx_cli.Authkeys.Disk.{Disk, done}
use mpx_cli.Authkeys.{AddOutcome, added, already_present, ensure_line}
use mpx_cli.Server.Conn.{Crates, Conn}
use mpx_cli.Server.Exchange.Quiet
use mpx_cli.Server.Exchange.Quiet.{
  Same, Same-refl, Same-trans, Quiet, Quiet-bind, Quiet-required, Quiet-ignore, Quiet-is_ok,
  Quiet-pure,
}
use mpx_cli.Server.Exchange.Heard.{Credential, Mistaken, Request, after_answer}
use mpx_cli.Server.Exchange

abbrev pub comment_of : AddOutcome → Text → Text
comment_of added comment = comment
comment_of (already_present existing) comment = existing

pub target-Same : {c d : Conn} → Same c d → d.disk.target ≡ c.disk.target
target-Same s = ap (λ (x : Disk). x.target) s.disk

module _ (crates : Crates) (config : Exchange.SessionConfig) where
  -- A key stored: the peer has a credential and asks for the key, an ed25519 one, under the name of
  -- the device; the operator is asked about that device before the expiry and says yes; the clock
  -- stands before the expiry still; `ensure_line` stores the two fields of the key, and the peer
  -- is told the comment that is reported.
  pub record Commit (pin_retired : Bool) (device comment : Text) (acknowledged : Bool) (c c' : Conn)
      : Type 0 where
    pub key : crates.Key
    pub asking : Conn
    pub request : Request crates config pin_retired c device key asking
    pub ed25519 : Exchange.contains (codes "ed25519") (crates.algorithm key) ≡ true
    pub asked_in_time : asking.now < config.deadline
    pub answer : c.answer ≡ true
    pub asked : asking.asked ≡ c.asked
    pub in_time : (after_answer crates config device asking).now < config.deadline
    pub canonical : Text
    pub printed : crates.to_openssh key ≡ some canonical
    pub key_type : Text
    pub key_b64 : Text
    pub rest : List Text
    pub fields : split_whitespace canonical ≡ key_type ∷ key_b64 ∷ rest
    pub outcome : AddOutcome
    pub disk : Disk
    pub stored :
        ensure_line c.faults key_type key_b64 (Exchange.comment_for crates config device) c.disk
        ≡ (done outcome, disk)
    pub reported : comment ≡ comment_of outcome (Exchange.comment_for crates config device)
    pub told :
        Exchange.is_ok
          (Exchange.send_done crates config true comment)
          (record (after_answer crates config device asking) { disk = disk })
        ≡ (ok acknowledged, c')
    pub kept : c'.disk ≡ disk

  -- What each result of a connection says of the file.
  abbrev pub Verdict : Bool → Conn → Result Exchange.ConnectionResult → Conn → Type 0
  Verdict pin_retired c (ok (Exchange.enrolled device comment acknowledged)) c' =
      Commit pin_retired device comment acknowledged c c'
  Verdict pin_retired c (ok Exchange.pin_failure) c' =
      (c'.disk.target ≡ c.disk.target) × Mistaken crates config pin_retired c
  Verdict pin_retired c (ok Exchange.declined) c' =
      (c'.disk.target ≡ c.disk.target) × (c.answer ≡ false) × Credential crates config pin_retired c
  Verdict pin_retired c (ok Exchange.ignored) c' = c'.disk.target ≡ c.disk.target
  Verdict pin_retired c (err e) c' = c'.disk.target ≡ c.disk.target
  Verdict pin_retired c panic c' = Unit

  module _ (ret : Bool) where
    -- A refusal: the message is sent, and whatever becomes of it the result is the given one.
    pub refuse-Verdict :
        (b c : Conn) (message : Text) (result : Exchange.ConnectionResult)
        → c.disk.target ≡ b.disk.target
        → ((d : Conn) → d.disk.target ≡ b.disk.target → Verdict ret b (ok result) d)
        → let after = Exchange.refuse crates config message result c in
          Verdict ret b after.0 after.1
    unfolding Exchange.refuse
    refuse-Verdict b c message result e k =
        go (Exchange.send_done crates config false message c).0
          ((Quiet.Quiet-send_done crates config false message).at c)
      where
        go :
            (x : Result (Unit {0})) {d : Conn}
            → Same c d
            → Verdict ret b
                (follow (Exchange.dropped x) (λ u. pure result) d).0
                (follow (Exchange.dropped x) (λ u. pure result) d).1
        go (ok u) {d} s = k d (target-Same s ∙ e)
        go (err x) {d} s = k d (target-Same s ∙ e)
        go panic s = tt

    -- The receipt: once the key is stored, the key is enrolled whatever becomes of it.
    pub acknowledge-Verdict :
        (b c : Conn) (device comment : Text)
        → ((good : Bool) (c' : Conn)
            → c'.disk ≡ c.disk
            → Exchange.is_ok (Exchange.send_done crates config true comment) c ≡ (ok good, c')
            → Commit ret device comment good b c')
        → let after = Exchange.acknowledge crates config device comment c in
          Verdict ret b after.0 after.1
    unfolding Exchange.acknowledge
    acknowledge-Verdict b c device comment k =
        go (Exchange.send_done crates config true comment c).0
          (Exchange.send_done crates config true comment c).1 refl
          ((Quiet.Quiet-send_done crates config true comment).at c)
      where
        go :
            (x : Result (Unit {0})) (d : Conn)
            → Exchange.send_done crates config true comment c ≡ (x, d)
            → Same c d
            → Verdict ret b
                (follow (Exchange.succeeded x) (λ a. pure (Exchange.enrolled device comment a)) d).0
                (follow (Exchange.succeeded x) (λ a. pure (Exchange.enrolled device comment a)) d).1
        go (ok u) d e s = k true d s.disk (ap (λ p. (Exchange.succeeded p.0, p.1)) e)
        go (err x) d e s = k false d s.disk (ap (λ p. (Exchange.succeeded p.0, p.1)) e)
        go panic d e s = tt
