-- ===== src/Server/Exchange.antt =====
-- `exchange`: INTRO, HELLO, OFFER, ENROLL and DONE on one connection, phase by phase.
mod Terms
pub mod Quiet
pub mod Timed
pub mod Quick
pub mod Heard
pub mod Verdict
pub mod Commit
pub mod Granted
pub mod Walk
pub mod Safety
pub mod Duration
pub mod Bodies
pub mod Fine
pub mod Panics
pub mod Phone
pub mod Protocol
pub mod Enrolling
pub mod Honest
unfoldable pub use Terms.*
use mpx_cli.Prelude.{
  ℕ, ◌+◌, ◌^◌, Bool, true, false, not, ◌&&◌, ◌||◌, Option, none, some, List, [], ◌∷◌, ◌++◌, ltb,
  leb, ◌==◌, if◌then◌else◌, length, take, equal, unwrap_or, Bytes,
}
use mpx_cli.Text.Utf8.{Text}
use mpx_cli.Text.Utf8
use mpx_cli.Text.Codes.{codes, starts_with}
use mpx_cli.Text.Fields.{trim, split_whitespace}
use mpx_cli.Util.Slug.{device_slug}
use mpx_cli.Frame.Io.{
  Result, ok, err, panic, FrameError, malformed, Io, pure, fail, lift, ◌>>=◌, ◌>>◌,
}
use mpx_cli.Frame.Channel.{Channel, derive, pin_proof, seal_s2c, open_c2s}
use mpx_cli.Frame.Value.{
  Value, integer, text, bool, array, map, Items, Entries, end, entry, map_get, get_text, get_bytes,
  text_items,
}
use mpx_cli.Authkeys.Disk.{Outcome, done, failed}
use mpx_cli.Authkeys.{AddOutcome, added, already_present, ensure_line}
use mpx_cli.Server.Conn.{
  Crates, Conn, preauth_timeout, postauth_timeout, read_by, write_to, phase_deadline,
}

pub text_entry : Text → Value → Entries → Entries
text_entry key v rest = entry (text key) v rest

module _ (crates : Crates) (config : SessionConfig) where
  open crates use {ciphers, cbor}

  -- `frame::decode(..)?`
  pub decode : Bytes → Io Conn Value
  decode bs = required (cbor.from_bytes bs)

  -- `channel.open_c2s(..)?`
  pub open_frame : Bytes → Io Conn Bytes
  open_frame sealed c =
      let (r, ch) = open_c2s ciphers c.channel sealed in (r, record c { channel = ch })

  -- `channel.seal_s2c(&frame::encode(..))`, written to the peer.
  pub send : Value → Io Conn (Unit {0})
  send body c =
      let (sealed, ch) = seal_s2c ciphers c.channel (cbor.to_bytes body) in
      write_to sealed (record c { channel = ch })

  -- `send_done`
  unfoldable pub done_body : Bool → Text → Value
  done_body true comment =
      map
        (entry (text (codes "ok")) (bool true) (entry (text (codes "comment")) (text comment) end))
  done_body false message =
      map (entry (text (codes "ok")) (bool false) (entry (text (codes "err")) (text message) end))

  pub send_done : Bool → Text → Io Conn (Unit {0})
  unfolding send done_body
  send_done good s = send (done_body good s)

  -- `let _ = send_done(.., Err(message)); return Ok(result)`
  pub refuse {ℓ} : {A : Type ℓ} → Text → A → Io Conn A
  unfolding send_done
  refuse message result = do ignore (send_done false message); pure result

  -- The `match mode.as_str()`: `none` lets the peer go on, and a result ends the connection.
  pub authorize : Text → Bytes → Bytes → Bool → Io Conn (Option ConnectionResult)
  unfolding refuse
  authorize mode proof epub pin_retired =
      if equal mode (codes "token")
      then pure (if equal proof config.token then none else some ignored)
      else if equal mode (codes "pin")
      then (if pin_retired
          then refuse (codes "pin retired for this offer") (some ignored)
          else if equal proof (pin_proof ciphers (Utf8.as_bytes config.pin) epub config.spub)
          then pure none
          else refuse (codes "wrong pin") (some pin_failure))
      else pure (some ignored)

  -- The OFFER.
  unfoldable pub offer_body : Value
  offer_body = map (
      entry (text (codes "name")) (text config.offer.name) (
        entry (text (codes "addrs")) (array (text_items config.offer.addrs)) (
          entry (text (codes "ssh"))
            (map (
              entry (text (codes "user")) (text config.offer.user) (
                entry (text (codes "port")) (integer config.offer.ssh_port) (
                  entry (text (codes "hostkeys")) (array (text_items config.offer.hostkeys)) end))))
            end)))

  -- `confirm(&device)`: the operator takes the time that it takes.
  pub confirm : Text → Io Conn Bool
  confirm device c =
      (ok c.answer, record c { now = c.now + c.answer_time; asked = c.asked ++ (device ∷ []) })

  pub expired : Io Conn Bool
  expired c = (ok (leb config.deadline c.now), c)

  -- The two words of the canonical key.
  pub key_fields : List Text → Io Conn (Text × Text)
  key_fields [] = fail malformed
  key_fields (t ∷ []) = fail malformed
  key_fields (t ∷ k ∷ rest) = pure (t, k)

  unfoldable pub comment_for : Text → Text
  comment_for device = config.marker_id ++ (b':' ∷ device_slug device)

  pub store_key : Text → Text → Text → Io Conn (Outcome AddOutcome)
  store_key t k comment c =
      let (r, d) = ensure_line c.faults t k comment c.disk in (ok r, record c { disk = d })

  pub acknowledge : Text → Text → Io Conn ConnectionResult
  unfolding send_done
  acknowledge device comment = do
    acknowledged ← is_ok (send_done true comment)
    pure (enrolled device comment acknowledged)

  -- The comment that is reported, or the refusal of a file that could not be written.
  pub after_store : Text → Text → Outcome AddOutcome → Io Conn ConnectionResult
  unfolding acknowledge refuse
  after_store device comment (done added) = acknowledge device comment
  after_store device comment (done (already_present existing)) = acknowledge device existing
  after_store device comment (failed e) =
      refuse (codes "could not write authorized_keys: " ++ crates.error_text e) ignored

  -- From the canonical form of the key to the end.
  pub enroll_key : Text → crates.Key → Io Conn ConnectionResult
  unfolding key_fields store_key after_store comment_for
  enroll_key device key = do
    canonical ← required (crates.to_openssh key)
    fields ← key_fields (split_whitespace canonical)
    stored ← store_key fields.0 fields.1 (comment_for device)
    after_store device (comment_for device) stored

  pub last_check : Text → crates.Key → Bool → Io Conn ConnectionResult
  unfolding enroll_key refuse
  last_check device key true = refuse (codes "offer expired") ignored
  last_check device key false = enroll_key device key

  pub answered : Text → crates.Key → Bool → Io Conn ConnectionResult
  unfolding last_check refuse expired
  answered device key false = refuse (codes "declined on the host") declined
  answered device key true = do late ← expired; last_check device key late

  pub first_check : Text → crates.Key → Bool → Io Conn ConnectionResult
  unfolding answered refuse confirm
  first_check device key true = refuse (codes "offer expired") ignored
  first_check device key false = do yes_no ← confirm device; answered device key yes_no

  pub accept_key : Text → Option crates.Key → Io Conn ConnectionResult
  unfolding first_check refuse expired contains
  accept_key device none = refuse (codes "unparseable public key") ignored
  accept_key device (some key) =
      if not (contains (codes "ed25519") (crates.algorithm key))
      then refuse (codes "only ed25519 keys are accepted") ignored
      else do late ← expired; first_check device key late

  -- OFFER and ENROLL, for a peer that is let on.
  pub admit : Option ConnectionResult → Io Conn ConnectionResult
  unfolding accept_key decode open_frame send offer_body
  admit (some result) = pure result
  admit none = do
    postauth ← phase_deadline config.deadline postauth_timeout
    send offer_body
    sealed ← read_by postauth
    plain ← open_frame sealed
    enroll ← decode plain
    pubkey_line ← required (get_text enroll (codes "pubkey"))
    accept_key (device_of (get_text enroll (codes "device")))
        (crates.from_openssh (trim pubkey_line))

  pub set_channel : Channel → Io Conn (Unit {0})
  set_channel ch c = (ok tt, record c { channel = ch })

  -- HELLO, once the shared secret is known.
  pub hello : ℕ → Text → Bytes → Bytes → Bool → Io Conn ConnectionResult
  unfolding admit authorize decode open_frame set_channel
  hello preauth mode epub shared pin_retired =
      if not (crates.was_contributory shared) then pure ignored else do
        set_channel (derive ciphers shared epub config.spub)
        sealed ← read_by preauth
        plain ← open_frame sealed
        message ← decode plain
        proof ← required (get_bytes message (codes "proof"))
        verdict ← authorize mode proof epub pin_retired
        admit verdict

  -- INTRO.
  pub greet : ℕ → Value → Bool → Io Conn ConnectionResult
  unfolding hello
  greet preauth intro pin_retired =
      if not (version_of (map_get intro (codes "v")) == 1) then pure ignored else do
        epub ← required (array_32 (get_bytes intro (codes "epub")))
        mode ← required (get_text intro (codes "mode"))
        hello preauth mode epub (crates.diffie_hellman config.secret epub) pin_retired

  unfoldable pub exchange : Bool → Io Conn ConnectionResult
  unfolding greet decode
  exchange pin_retired = do
    preauth ← phase_deadline config.deadline preauth_timeout
    frame ← read_by preauth
    intro ← decode frame
    greet preauth intro pin_retired

  abbrev pub handled : Result ConnectionResult → Result ConnectionResult
  handled (ok r) = ok r
  handled (err e) = ok ignored
  handled panic = panic

  -- `handle`
  unfoldable pub handle : Bool → Io Conn ConnectionResult
  unfolding exchange
  handle pin_retired c = let (r, c') = exchange pin_retired c in (handled r, c')
