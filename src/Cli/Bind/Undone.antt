-- ===== src/Cli/Bind/Undone.antt =====
-- `mpx unbind` of the key that a phone had `mpx bind` enroll: both commands of src/main.rs.
use mpx_cli.Prelude.{ℕ, ◌≡◌, subst, false, Option, List, [], ◌∷◌, append_assoc, unwrap_or}
use mpx_cli.Text.Utf8.{Text}
use mpx_cli.Util.Slug.{device_slug}
use mpx_cli.Authkeys.Disk.{done}
use mpx_cli.Authkeys.Line.{marker_prefix}
use mpx_cli.Authkeys.Replace.{no_faults}
use mpx_cli.Authkeys.Enroll.{IsEntry}
use mpx_cli.Authkeys.Kept.{seen, taken}
use mpx_cli.Authkeys.RoundTrip.{marker, has_id}
use mpx_cli.Authkeys.{added, ensure_line}
use mpx_cli.Payload.Valid.{IsValid}
use mpx_cli.Server.Exchange.{comment_for}
use mpx_cli.Server.Exchange.Phone.{Phone, Opens}
use mpx_cli.Server.Exchange.Protocol.{Willing, device_of_phone, comment_of_phone}
use mpx_cli.Server.Run.{Peer, connect}
use mpx_cli.Cli.Machine.{BindArgs, Machine, listening, Tty, random_id8}
use mpx_cli.Cli.Offline.{World}
use mpx_cli.Cli.Bind.{Round, exited, bind_payload, session_config, at_start, bind}
use mpx_cli.Cli.Bind.Scan.{Commutes, Scan, visited, SaysYes, bind_enrolls}
use mpx_cli.Cli.{unbind}
use mpx_cli.Cli.Revert.{by_id, hex-NoColon, Reverts, unbind-ensure_line}

module _ (machine : Machine) (args : BindArgs) (phone : Phone) where
  abbrev slug_of_phone : Text
  slug_of_phone = device_slug (device_of_phone machine.crates (session_config machine args) phone)

  abbrev marker_of_phone : Text
  marker_of_phone = marker (random_id8 machine args) slug_of_phone

  comment-marker :
      comment_of_phone machine.crates (session_config machine args) phone ≡ marker_of_phone
  unfolding comment_for
  comment-marker = append_assoc marker_prefix (random_id8 machine args) _

  module _ (opens : Opens machine.crates.ciphers) (p : Peer) (tty : Tty) (w : World)
      (h : Willing machine.crates
        (session_config machine args)
        phone
        (connect p (at_start machine args w))) where
    -- If opening inverts sealing, both sides of a key exchange come to one secret, `bind`
    -- is not offline and can listen, its payload has the right sizes, in its first round a
    -- phone connects that goes by what `from_url` reads from the shown URL and keeps to
    -- the protocol, with its messages in time and a new good key, the connection's writes
    -- go well, the operator says yes, no call on the disk fails, the key and its comment
    -- are well-formed, and no key of the file bears the id of this bind, then `bind` exits
    -- with 0, and `unbind` by that id exits with 0 too and leaves a file with the lines
    -- that it had before both, each with the same text but for white space at its ends and
    -- the same mark.
    pub unbind-bind :
        {port : Option ℕ} (rounds : List Round)
        → Commutes machine
        → args.offline ≡ false
        → machine.listen args.listen_port ≡ listening port
        → IsValid (bind_payload machine args (unwrap_or port 0))
        → Scan machine args (unwrap_or port 0) phone
        → SaysYes machine args tty
        → IsEntry h.key_type h.key_b64 (
            marker
              (random_id8 machine args)
              (device_slug (device_of_phone machine.crates (session_config machine args) phone)))
        → taken (has_id (random_id8 machine args)) (seen h.content) ≡ []
        → (w' : World) × (bind machine args (visited machine args p tty ∷ rounds) w ≡ exited 0 w')
          × Reverts h.content (unbind no_faults (by_id (random_id8 machine args)) w'.disk)
    unbind-bind rounds commutes online listens v scan agrees entry none_before =
        let (w', goes, stored) =
          bind_enrolls machine args phone opens p tty w h rounds commutes online listens v scan
            agrees in
        (
          w',
          goes,
          unbind-ensure_line w.disk w'.disk h.content h.key_type h.key_b64 (random_id8 machine args)
              slug_of_phone h.holds entry (hex-NoColon machine.random_id)
              (subst
                (λ c. ensure_line no_faults h.key_type h.key_b64 c w.disk ≡ (done added, w'.disk))
                comment-marker stored)
              none_before,
        )
