-- ===== src/Server/Sample.antt =====
-- A phone and a session for the tests, with crates that hide nothing.
use mpx_cli.Prelude.{
  is_some, length, ◌<◌, ◌^◌, arith, refl, ℕ, true, false, Option, none, some, [], ◌∷◌, replicate,
  Bytes, equal, if◌then◌else◌,
}
use mpx_cli.Text.Utf8.{Text}
use mpx_cli.Text.Codes.{codes}
use mpx_cli.Frame.Value.{map_get, Value, integer, bytes, text, map, end, entry}
use mpx_cli.Authkeys.Replace.{no_faults}
use mpx_cli.Server.Conn.{Crates, Segment}
use mpx_cli.Server.Exchange.{SessionConfig}
use mpx_cli.Server.Exchange.Phone.{Phone, Opens}
use mpx_cli.Server.Run.{Peer}

-- The three messages of the phone, named by one byte each.
abbrev pub intro : Value
intro = map (
    entry (text (codes "v")) (integer 1) (
      entry (text (codes "epub")) (bytes (replicate 32 7))
        (entry (text (codes "mode")) (text (codes "token")) end)))

abbrev pub hello : Value
hello = map (entry (text (codes "proof")) (bytes (replicate 16 2)) end)

abbrev pub enroll : Value
enroll = map (
    entry (text (codes "pubkey")) (text (codes "ssh-ed25519 AA"))
      (entry (text (codes "device")) (text (codes "Phone")) end))

abbrev pub message : Bytes → Option Value
message bs =
    if equal bs (1 ∷ [])
    then some intro
    else if equal bs (2 ∷ [])
    then some hello
    else if equal bs (3 ∷ [])
    then some enroll
    else none

abbrev pub crates : Crates
crates = record {
  ciphers = record {
    hkdf = λ s k i n. k;
    encrypt = λ k n plain. plain;
    decrypt = λ k n sealed. some sealed;
  };
  cbor = record { to_bytes = λ v. 0 ∷ []; from_bytes = message };
  diffie_hellman = λ secret epub. secret;
  was_contributory = λ shared. true;
  Key = Text;
  from_openssh = λ s. some s;
  algorithm = λ k. codes "ssh-ed25519";
  to_openssh = λ k. some k;
  error_text = λ e. codes "no";
}

abbrev pub config : SessionConfig
config = record {
  secret = replicate 32 1;
  spub = replicate 32 3;
  token = replicate 16 2;
  pin = codes "123456";
  deadline = 60000;
  offer = record {
    name = codes "host";
    addrs = [];
    user = codes "me";
    ssh_port = 22;
    hostkeys = [];
  };
  marker_id = codes "multiplex:a1";
}

abbrev pub framed : ℕ → Segment
framed m = record { arrives = 10; head = 0; tail = 0 ∷ 0 ∷ 1 ∷ m ∷ [] }

abbrev pub phone : Peer
phone = record {
  inbound = framed 1 ∷ framed 2 ∷ framed 3 ∷ [];
  closed = false;
  writes = [];
  answer = true;
  answer_time = 3000;
  faults = no_faults;
}

-- A codec that tells the three messages of the phone apart.
abbrev pub tag : Value → Bytes
tag v =
    if is_some (map_get v (codes "v"))
    then 1 ∷ []
    else if is_some (map_get v (codes "proof"))
    then 2 ∷ []
    else if is_some (map_get v (codes "pubkey"))
    then 3 ∷ []
    else 0 ∷ []

pub tag-short : (v : Value) → length (tag v) < 2 ^ 32
tag-short v = ground arith

abbrev pub tagged : Crates
tagged = record crates { cbor = record { to_bytes = tag; from_bytes = message } }

pub opens : Opens tagged.ciphers
opens key n plain = refl

abbrev pub caller : Phone
caller = record {
  epub = replicate 32 7;
  shared = config.secret;
  spub = config.spub;
  mode = codes "token";
  proof = config.token;
  line = codes "ssh-ed25519 AA";
  device = codes "Phone";
}
