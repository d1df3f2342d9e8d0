-- ===== src/Announce.antt =====
-- src/announce.rs: `Announcer::start`, over the mDNS crate, and the public facts that it announces.
use mpx_cli.Prelude.{ℕ, Option, none, some, List, [], ◌∷◌, ◌++◌, ◌⊎◌, inl, inr, Bytes}
use mpx_cli.Text.Utf8.{Text}
use mpx_cli.Text.Codes.{codes}
use mpx_cli.Util.Console.{decimal}

abbrev pub service_type : Text
service_type = codes "_multiplex-bind._tcp.local."

pub record AnnounceConfig : Type 0 where
  pub instance_name : Text
  pub port : ℕ
  pub spub : Bytes
  pub ssh_user : Text
  pub ssh_port : ℕ
  pub first_fingerprint : Option Text

abbrev pub Property : Type 0
Property = Text × Text

-- What `ServiceInfo::new` is given.
pub record Service : Type 0 where
  pub type_name : Text
  pub instance_name : Text
  pub host : Text
  pub port : ℕ
  pub properties : List Property

-- The mDNS crate: the error of making a daemon, a service's full name or the error of its
-- description, and the error of registering it. `b64url` is the base64 crate's.
pub record Daemon : Type 0 where
  pub broken : Option Text
  pub describe : Service → Text ⊎ Text
  pub register : Service → Option Text
  pub b64url : Bytes → Text

abbrev fingerprint_property : Option Text → List Property
fingerprint_property none = []
fingerprint_property (some fp) = (codes "fp", fp) ∷ []

module _ (daemon : Daemon) where
  -- The TXT record.
  unfoldable pub txt : AnnounceConfig → List Property
  txt config =
      ((codes "v", codes "1")
        ∷ (codes "name", config.instance_name)
        ∷ (codes "spub", daemon.b64url config.spub)
        ∷ (codes "user", config.ssh_user)
        ∷ (codes "sshport", decimal config.ssh_port)
        ∷ [])
      ++ fingerprint_property config.first_fingerprint

  abbrev pub service_info : AnnounceConfig → Service
  service_info config = record {
    type_name = service_type;
    instance_name = config.instance_name;
    host = config.instance_name ++ codes ".local.";
    port = config.port;
    properties = txt config;
  }

  abbrev registered : Text → Option Text → Text ⊎ Text
  registered fullname none = inr fullname
  registered fullname (some e) = inl e

  abbrev described : Service → Text ⊎ Text → Text ⊎ Text
  described info (inl e) = inl e
  described info (inr fullname) = registered fullname (daemon.register info)

  abbrev made : AnnounceConfig → Option Text → Text ⊎ Text
  made config (some e) = inl e
  made config none = described (service_info config) (daemon.describe (service_info config))

  -- `Announcer::start`: an error, or the full name that is registered.
  unfoldable pub start : AnnounceConfig → Text ⊎ Text
  start config = made config daemon.broken

-- What `stop` asks of the daemon, in its order; errors are dropped. The wait is in milliseconds.
pub data Call : Type 0 where
  unregister : Text → Call
  sleep : ℕ → Call
  shutdown : Call

-- `Announcer::stop`
abbrev pub stop : Text → List Call
stop fullname = unregister fullname ∷ sleep 120 ∷ shutdown ∷ []

-- The services that the calls withdraw.
abbrev pub withdrawn_by : List Call → List Text
withdrawn_by [] = []
withdrawn_by (unregister fullname ∷ calls) = fullname ∷ withdrawn_by calls
withdrawn_by (sleep ms ∷ calls) = withdrawn_by calls
withdrawn_by (shutdown ∷ calls) = withdrawn_by calls
