-- ===== src/Cli/Offline.antt =====
-- src/main.rs: `bind_offline`, which enrolls a key that is made here and publishes its seed.
pub mod Offered
pub mod Seed
use mpx_cli.Prelude.{
  ℕ, Bool, Option, none, some, List, [], ◌∷◌, ◌++◌, ◌⊎◌, inl, inr, replicate, Bytes,
}
use mpx_cli.Text.Utf8.{Text}
use mpx_cli.Text.Codes.{codes}
use mpx_cli.Text.Fields.{split_whitespace}
use mpx_cli.Qr.{render}
use mpx_cli.Util.Console.{Printed, ok, warn}
use mpx_cli.Util.Slug.{device_slug}
use mpx_cli.Authkeys.Disk.{Disk, Outcome, done, failed}
use mpx_cli.Authkeys.Line.{marker_prefix}
use mpx_cli.Authkeys.{AddOutcome, ensure_line}
use mpx_cli.Payload.{Payload}
use mpx_cli.Payload.Url.{to_url}
use mpx_cli.Hostinfo.Keys.{ed25519_host_key_digest}
use mpx_cli.Clip.{Delivery}
use mpx_cli.Cli.Publish.{publish_payload}
use mpx_cli.Cli.Machine.{
  BindArgs, Generated, Machine, console, name_of, user_of, addrs_of, path_of, random_id8,
}
use mpx_cli.Cli.{parsed_addrs}

-- What a run of the program changes: the disk, what is printed and handed over for a clipboard, and
-- the services that were announced and withdrawn.
pub record World : Type 0 where
  pub disk : Disk
  pub shown : List Printed
  pub deliveries : List Delivery
  pub announced : List Text
  pub withdrawn : List Text

abbrev pub show : List Printed → World → World
show lines w = record w { shown = w.shown ++ lines }

module _ (machine : Machine) (args : BindArgs) where
  abbrev pub gives_up : Text → World → ℕ × World
  gives_up msg w = (1, show (warn (console machine args) msg ∷ []) w)

  abbrev pub publish : Text → List Text → World → World
  publish url panel w =
      let (lines, deliveries) =
        publish_payload (console machine args) machine.clip (render machine.qr) url args.copy
          args.no_qr panel in
      record w { shown = w.shown ++ lines; deliveries = w.deliveries ++ deliveries }

  abbrev pub offline_payload : Bytes → Payload
  offline_payload seed = record {
    addrs = parsed_addrs machine.parse_addr (addrs_of machine args);
    port = 0;
    spub = replicate 32 0;
    token = replicate 16 0;
    name = name_of machine args;
    offline = some (record {
      ssh_user = user_of machine args;
      ssh_port = args.ssh_port;
      seed = seed;
      authorized_keys = args.authorized_keys;
      hostkey_sha256 = ed25519_host_key_digest machine.keys (machine.directory args.hostkeys_dir);
    });
  }

  abbrev pub offline_panel : List Text
  offline_panel =
      []
      ∷ codes "scan or paste this in Multiplex."
      ∷ codes "It works over SSH alone — no"
      ∷ codes "local network needed."
      ∷ []
      ∷ codes "The app replaces this key with"
      ∷ codes "one of its own as soon as it"
      ∷ codes "connects."
      ∷ []

  abbrev pub offline_url : Bytes → Text
  offline_url seed = to_url machine.base64 (offline_payload seed)

  abbrev pub offline_comment : Text
  offline_comment =
      marker_prefix
      ++ (random_id8 machine args ++ (codes ":" ++ device_slug (name_of machine args)))

  -- The part behind `ensure_line`.
  unfoldable pub installed : Bytes → Outcome AddOutcome → World → ℕ × World
  installed seed (failed e) w =
      gives_up
        (codes "could not write "
          ++ (path_of machine args ++ (codes ": " ++ machine.crates.error_text e)))
        w
  installed seed (done outcome) w =
      let console = console machine args in
      let said =
        ok console (
          codes "keypair generated · public key installed → "
          ++ (path_of machine args ++ (codes " (" ++ (offline_comment ++ codes ")"))))
        ∷ warn console (
            codes
              "this payload CONTAINS a private key — treat the QR and clipboard like a password")
        ∷ [] in
      (0, publish (offline_url seed) offline_panel (show said w))

  abbrev pub install : Bytes → Text → Text → World → ℕ × World
  install seed key_type key_b64 w =
      let (r, d) = ensure_line machine.faults key_type key_b64 offline_comment w.disk in
      installed seed r (record w { disk = d })

  unfoldable pub with_fields : Bytes → List Text → World → ℕ × World
  with_fields seed (key_type ∷ key_b64 ∷ rest) w = install seed key_type key_b64 w
  with_fields seed (key_type ∷ []) w = gives_up (codes "keygen produced an unreadable public key") w
  with_fields seed [] w = gives_up (codes "keygen produced an unreadable public key") w

  unfoldable pub with_seed : Text → Option Bytes → World → ℕ × World
  with_seed public none w = gives_up (codes "keygen produced a non-ed25519 key") w
  with_seed public (some seed) w = with_fields seed (split_whitespace public) w

  unfoldable pub with_public : Option Bytes → Text ⊎ Text → World → ℕ × World
  with_public seed (inl err) w = gives_up (codes "keygen failed: " ++ err) w
  with_public seed (inr public) w = with_seed public seed w

  unfoldable pub with_key : Text ⊎ Generated → World → ℕ × World
  with_key (inl err) w = gives_up (codes "keygen failed: " ++ err) w
  with_key (inr key) w = with_public key.seed key.to_openssh w

  unfoldable pub bind_offline : World → ℕ × World
  bind_offline w = with_key machine.generate w
