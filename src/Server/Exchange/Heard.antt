-- ===== src/Server/Exchange/Heard.antt =====
-- What a peer has said by the phases of `exchange` of src/server.rs, read off the bytes that it
-- sends: its INTRO and HELLO with the proof in it, and the ENROLL after them. The states of the
-- connection are written out step by step from the one at its start.
use mpx_cli.Prelude.{ℕ, ◌+◌, ◌≡◌, ◌≢◌, Bool, true, false, some, [], ◌∷◌, ◌++◌, min, Bytes}
use mpx_cli.Text.Utf8
use mpx_cli.Text.Utf8.{Text}
use mpx_cli.Text.Codes.{codes}
use mpx_cli.Text.Fields.{trim}
use mpx_cli.Frame.Io.{ok}
use mpx_cli.Frame.Channel.{derive, pin_proof, open_c2s}
use mpx_cli.Frame.Value.{Value, map_get, get_text, get_bytes}
use mpx_cli.Server.Conn.{Crates, Conn, read_by, preauth_timeout, postauth_timeout}
use mpx_cli.Server.Exchange

module _ (crates : Crates) (config : Exchange.SessionConfig) where
  -- The end of a phase that begins at `c` and has that many milliseconds.
  abbrev pub until : Conn → ℕ → ℕ
  until c budget = min (c.now + budget) config.deadline

  abbrev pub read_at : ℕ → Conn → Conn
  read_at deadline c = (read_by deadline c).1

  abbrev pub opened_at : Bytes → Conn → Conn
  opened_at sealed c = record c { channel = (open_c2s crates.ciphers c.channel sealed).1 }

  -- From the start of a connection: behind INTRO, with the keys for the peer's public one.
  abbrev pub keyed : Conn → Bytes → Conn
  keyed b epub = record (read_at (until b preauth_timeout) b) {
    channel = derive crates.ciphers (crates.diffie_hellman config.secret epub) epub config.spub;
  }

  -- And behind HELLO.
  abbrev pub greeted : Conn → Bytes → Bytes → Conn
  greeted b epub sealed = opened_at sealed (read_at (until b preauth_timeout) (keyed b epub))

  -- The peer of a connection that starts as `b` names the mode and its public key in the INTRO and
  -- sends the proof in the HELLO, sealed, both before the first phase ends.
  pub record Hello (b : Conn) (mode : Text) (epub proof sealed : Bytes) : Type 0 where
    pub intro_frame : Bytes
    pub intro_read : (read_by (until b preauth_timeout) b).0 ≡ ok intro_frame
    pub intro : Value
    pub intro_decoded : crates.cbor.from_bytes intro_frame ≡ some intro
    pub version_said : Exchange.version_of (map_get intro (codes "v")) ≡ 1
    pub epub_said : Exchange.array_32 (get_bytes intro (codes "epub")) ≡ some epub
    pub mode_said : get_text intro (codes "mode") ≡ some mode
    pub contributory : crates.was_contributory (crates.diffie_hellman config.secret epub) ≡ true
    pub hello_read : (read_by (until b preauth_timeout) (keyed b epub)).0 ≡ ok sealed
    pub plain : Bytes
    pub hello_opened :
        (open_c2s crates.ciphers
          (read_at (until b preauth_timeout) (keyed b epub)).channel
          sealed).0
        ≡ ok plain
    pub hello : Value
    pub hello_decoded : crates.cbor.from_bytes plain ≡ some hello
    pub proof_said : get_bytes hello (codes "proof") ≡ some proof

  -- A proof that counts: the token, or the proof of the PIN while that is not retired.
  pub data Proved (pin_retired : Bool) (mode : Text) (epub proof : Bytes) : Type 0 where
    by_token : mode ≡ codes "token" → proof ≡ config.token → Proved pin_retired mode epub proof
    by_pin :
        mode ≡ codes "pin"
        → pin_retired ≡ false
        → proof ≡ pin_proof crates.ciphers (Utf8.as_bytes config.pin) epub config.spub
        → Proved pin_retired mode epub proof

  -- The peer of a connection sent a proof that counts.
  pub record Credential (pin_retired : Bool) (b : Conn) : Type 0 where
    pub mode : Text
    pub epub : Bytes
    pub proof : Bytes
    pub sealed : Bytes
    pub said : Hello b mode epub proof sealed
    pub proved : Proved pin_retired mode epub proof

  -- The peer sent a proof of the PIN that is wrong, while the PIN was not retired.
  pub record Mistaken (pin_retired : Bool) (b : Conn) : Type 0 where
    pub epub : Bytes
    pub proof : Bytes
    pub sealed : Bytes
    pub said : Hello b (codes "pin") epub proof sealed
    pub fresh : pin_retired ≡ false
    pub wrong : proof ≢ pin_proof crates.ciphers (Utf8.as_bytes config.pin) epub config.spub

  -- Behind the OFFER, for a peer that was let on at `d`, and behind its ENROLL.
  abbrev pub offered : Conn → Conn
  offered d = (Exchange.send crates config (Exchange.offer_body crates config) d).1

  abbrev pub asking : Conn → Bytes → Conn
  asking d sealed = opened_at sealed (read_at (until d postauth_timeout) (offered d))

  -- That peer was sent the OFFER and asks for a key under the name of a device, before the second
  -- phase ends.
  pub record Asks (d : Conn) (device : Text) (key : crates.Key) (sealed : Bytes) : Type 0 where
    pub sent : (Exchange.send crates config (Exchange.offer_body crates config) d).0 ≡ ok tt
    pub enroll_read : (read_by (until d postauth_timeout) (offered d)).0 ≡ ok sealed
    pub plain : Bytes
    pub enroll_opened :
        (open_c2s crates.ciphers (read_at (until d postauth_timeout) (offered d)).channel sealed).0
        ≡ ok plain
    pub enroll : Value
    pub enroll_decoded : crates.cbor.from_bytes plain ≡ some enroll
    pub line : Text
    pub line_said : get_text enroll (codes "pubkey") ≡ some line
    pub device_said : device ≡ Exchange.device_of (get_text enroll (codes "device"))
    pub parsed : crates.from_openssh (trim line) ≡ some key

  -- The peer of a connection that starts as `b` has a credential and asks, at the state `e`.
  pub record Request (pin_retired : Bool) (b : Conn) (device : Text) (key : crates.Key) (e : Conn)
      : Type 0 where
    pub credential : Credential pin_retired b
    pub sealed : Bytes
    pub asks : Asks (greeted b credential.epub credential.sealed) device key sealed
    pub at : e ≡ asking (greeted b credential.epub credential.sealed) sealed

  -- Behind the operator's answer.
  abbrev pub after_answer : Text → Conn → Conn
  after_answer device e = record e { now = e.now + e.answer_time; asked = e.asked ++ (device ∷ []) }
