-- ===== src/Server/Exchange/Protocol.antt =====
-- The handshake as a phone sees it that keeps to the protocol: its messages, sealed in turn.
use mpx_cli.Prelude.{
  ℕ, ◌+◌, ◌^◌, ◌≤◌, ◌<◌, ◌≡◌, Bool, true, false, none, some, List, ◌∷◌, length, Bytes,
}
use mpx_cli.Text.Utf8
use mpx_cli.Text.Utf8.{Text}
use mpx_cli.Text.Codes.{codes}
use mpx_cli.Text.Lines.{lines}
use mpx_cli.Text.Fields.{trim, split_whitespace}
use mpx_cli.Frame.Io.{ok}
use mpx_cli.Frame.Framing.{read_slice}
use mpx_cli.Frame.Channel.{Channel, derive, pin_proof, seal_c2s, open_s2c}
use mpx_cli.Frame.Value.{Value}
use mpx_cli.Authkeys.Enroll.{Holds}
use mpx_cli.Authkeys.{find_key}
use mpx_cli.Server.Conn.{Crates, Conn, preauth_timeout}
use mpx_cli.Server.Conn.Stream.{stream, IsTimely}
use mpx_cli.Server.Exchange
use mpx_cli.Server.Exchange.Phone.{Phone, intro_of, hello_of, enroll_of, sealed_by}

module _ (crates : Crates) where
  -- The bytes of a message, sealed by the phone.
  abbrev pub phone_seals : Channel → Value → Bytes × Channel
  phone_seals ch message = seal_c2s crates.ciphers ch (crates.cbor.to_bytes message)

  -- The codec reads the message back that it wrote.
  abbrev pub Decodes : Value → Type 0
  Decodes v = crates.cbor.from_bytes (crates.cbor.to_bytes v) ≡ some v

module _ (crates : Crates) (config : Exchange.SessionConfig) (phone : Phone) where
  -- The channel at the start, and what is sealed in turn by the phone, the program, the phone and
  -- the program.
  abbrev pub start : Channel
  start = derive crates.ciphers phone.shared phone.epub phone.spub

  abbrev pub hello_sealed : Bytes × Channel
  hello_sealed = phone_seals crates start (hello_of phone)

  abbrev pub offer_sealed : Bytes × Channel
  offer_sealed = sealed_by crates config hello_sealed.1 (Exchange.offer_body crates config)

  abbrev pub enroll_sealed : Bytes × Channel
  enroll_sealed =
      phone_seals crates (open_s2c crates.ciphers hello_sealed.1 offer_sealed.0).1 (enroll_of phone)

  abbrev pub device_of_phone : Text
  device_of_phone = Exchange.device_of (some phone.device)

  abbrev pub comment_of_phone : Text
  comment_of_phone = Exchange.comment_for crates config device_of_phone

  abbrev pub done_sealed : Bytes × Channel
  done_sealed =
      sealed_by crates config enroll_sealed.1
        (Exchange.done_body crates config true comment_of_phone)

  -- What a phone presents that scanned the code, or that was told the PIN.
  pub data Credential : Bool → Type 0 where
    by_token :
        {retired : Bool}
        → phone.mode ≡ codes "token"
        → phone.proof ≡ config.token
        → Credential retired
    by_pin :
        phone.mode ≡ codes "pin"
        → phone.proof ≡ pin_proof crates.ciphers (Utf8.as_bytes config.pin) phone.epub config.spub
        → Credential false

  -- The phone takes the same secret and the same key of the session as the program, and presents
  -- a credential that the program still takes.
  pub record Agreed (retired : Bool) : Type 0 where
    pub secret : phone.shared ≡ crates.diffie_hellman config.secret phone.epub
    pub key : phone.spub ≡ config.spub
    pub credential : Credential retired

  -- The messages arrive in time, and the key is a good one that is new.
  pub record Willing (c : Conn) : Type 0 where
    pub intro_decodes : Decodes crates (intro_of phone)
    pub hello_decodes : Decodes crates (hello_of phone)
    pub enroll_decodes : Decodes crates (enroll_of phone)
    pub epub_size : length phone.epub ≡ 32
    pub contributory : crates.was_contributory phone.shared ≡ true
    pub limit : ℕ
    pub starts : c.now < limit
    pub soon : limit ≤ c.now + preauth_timeout
    pub in_time : limit + c.answer_time ≤ config.deadline
    pub timely : IsTimely limit c.inbound
    pub behind_intro : Bytes
    pub behind_hello : Bytes
    pub behind_enroll : Bytes
    pub intro :
        read_slice (stream c.inbound) ≡ (ok (crates.cbor.to_bytes (intro_of phone)), behind_intro)
    pub hello : read_slice behind_intro ≡ (ok hello_sealed.0, behind_hello)
    pub enroll : read_slice behind_hello ≡ (ok enroll_sealed.0, behind_enroll)
    pub key : crates.Key
    pub parsed : crates.from_openssh (trim phone.line) ≡ some key
    pub ed25519 : Exchange.contains (codes "ed25519") (crates.algorithm key) ≡ true
    pub canonical : Text
    pub printed : crates.to_openssh key ≡ some canonical
    pub key_type : Text
    pub key_b64 : Text
    pub rest : List Text
    pub words : split_whitespace canonical ≡ key_type ∷ key_b64 ∷ rest
    pub content : Text
    pub holds : Holds c.disk content
    pub fresh : find_key key_b64 (lines content) ≡ none
    pub offer_size : length offer_sealed.0 < 2 ^ 32
    pub done_size : length done_sealed.0 < 2 ^ 32
