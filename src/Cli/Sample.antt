-- ===== src/Cli/Sample.antt =====
-- A machine for the tests, with crates that hide nothing.
use mpx_cli.Prelude.{true, none, [], ◌∷◌, inr, replicate, Bytes}
use mpx_cli.Text.Utf8.{Text}
use mpx_cli.Frame.Value.{end, map}
use mpx_cli.Payload.{v4}
use mpx_cli.Payload.Url.{Base64}
use mpx_cli.Server.Conn.{Crates}
use mpx_cli.Cli.Machine.{BindArgs, Machine, listening}
use mpx_cli.Cli.Offline.{World}
use mpx_cli.Prelude.{refl, false, some}
use mpx_cli.Text.Utf8.{as_bytes}
use mpx_cli.Text.Codes.{codes}
use mpx_cli.Authkeys.Disk.{Disk, file, absent}
use mpx_cli.Authkeys.Replace.{no_faults}

abbrev pub disk : Disk
disk = record {
  dir = some 0o700;
  target = file (as_bytes (codes "ssh-rsa A me")) 0o600;
  scratch = absent;
}

abbrev pub art : Text
art = codes "abc\ndef\nghi"

abbrev pub crates : Crates
crates = record {
  ciphers = record {
    hkdf = λ s k i n. k;
    encrypt = λ k n plain. plain;
    decrypt = λ k n sealed. some sealed;
  };
  cbor = record { to_bytes = λ v. []; from_bytes = λ bs. some (map end) };
  diffie_hellman = λ secret epub. secret;
  was_contributory = λ shared. true;
  Key = Text;
  from_openssh = λ s. some s;
  algorithm = λ k. codes "ssh-ed25519";
  to_openssh = λ k. some k;
  error_text = λ e. codes "no";
}

abbrev pub base64 : Base64
base64 = record { to_text = λ bs. bs; from_text = λ s. some s; from_text-to_text = λ bs. refl }

abbrev pub public : Text
public = codes "ssh-ed25519 AA"

abbrev pub seed : Bytes
seed = replicate 32 5

abbrev pub machine : Machine
machine = record {
  crates = crates;
  keys = record {
    PublicKey = Text;
    from_openssh = λ s. some s;
    algorithm = λ k. codes "ssh-ed25519";
    shown_fingerprint = λ k. codes "SHA256:x";
    digest = λ k. replicate 32 9;
  };
  base64 = base64;
  qr = record {
    Code = Text;
    with_error_correction_level = λ bs level. some bs;
    build = λ code style. art;
  };
  clip = record {
    env = λ name. none;
    macos = false;
    path = none;
    has_file = λ dir binary. false;
    spawn = λ program arguments. none;
    tty = record { opens = false; writes = false };
    b64std = λ bs. bs;
  };
  daemon = record {
    broken = none;
    describe = λ service. inr service.instance_name;
    register = λ service. none;
    b64url = λ bs. bs;
  };
  is_terminal = true;
  hostname = some (codes "box.local");
  interfaces = none;
  show_addr = λ addr. codes "10.0.0.7";
  parse_addr = λ s. some (v4 (10 ∷ 0 ∷ 0 ∷ 7 ∷ []));
  directory = λ path. record { entries = none; read_to_string = λ name. none };
  home = some (codes "/root");
  public_key = λ secret. secret;
  random_secret = replicate 32 1;
  random_token = replicate 16 2;
  random_pin = replicate 4 3;
  random_id = replicate 4 4;
  generate = inr (record { to_openssh = inr public; seed = some seed });
  listen = λ port. listening (some 4000);
  clock = 0;
  faults = no_faults;
}

abbrev pub bind_args : BindArgs
bind_args = record {
  offline = false;
  no_qr = false;
  copy = false;
  no_announce = false;
  yes = false;
  name = some (codes "box");
  user = some (codes "me");
  ssh_port = 22;
  addrs = codes "10.0.0.7" ∷ [];
  expires = 60;
  listen_port = 0;
  authorized_keys = none;
  hostkeys_dir = codes "ssh";
}

abbrev pub world : World
world = record { disk = disk; shown = []; deliveries = []; announced = []; withdrawn = [] }
