-- ===== src/Vectors.antt =====
-- src/examples/gen_vectors.rs: the test vectors that the app is checked against. What the program
-- prints is the `Json` of it; how serde lays that out is left to the crate.
pub mod Rng
pub mod Frames
pub mod Agree
mod Tests
use mpx_cli.Prelude.{ℕ, Option, none, some, List, [], ◌∷◌, replicate, Bytes, ◌>>=◌}
use mpx_cli.Text.Utf8
use mpx_cli.Text.Utf8.{Text}
use mpx_cli.Text.Codes.{codes}
use mpx_cli.Util.Hex.{hex}
use mpx_cli.Frame.Channel.{pin_proof}
use mpx_cli.Payload.{Payload, IpAddr, encode}
use mpx_cli.Payload.Url.{Base64, to_url}
use mpx_cli.Server.Conn.{Crates}
use Rng.{fill_bytes}
use Frames.{
  session_seed, eph_seed, token, pin, device, offer_name, offer_addrs, offer_user, offer_port,
  offer_hostkeys, FrameSet, frames,
}

-- The crates that the program calls: those of the handshake, base64, the public key of a secret, the
-- parser of addresses, and the generator of an SSH key, which draws its bytes from `fill_bytes`.
pub record Toolbox : Type 1 where
  pub crates : Crates
  pub base64 : Base64
  pub public_key : Bytes → Bytes
  pub parse_addr : Text → Option IpAddr
  pub generate : (ℕ → ℕ → Bytes × ℕ) → ℕ → Option Text

-- What `json!` is given.
pub data Field : Type 0 where
  string : Text → Field
  number : ℕ → Field
  strings : List Text → Field

pub data Entry : Type 0 where
  plain : Text → Entry
  section : List (Text × Field) → Entry

abbrev pub Json : Type 0
Json = List (Text × Entry)

-- What the program has computed before it prints.
pub record Vectors : Type 0 where
  pub record_of : Payload
  pub offline : Payload
  pub enroll_pub : Text
  pub spub : Bytes
  pub epub : Bytes
  pub shared : Bytes
  pub frames_of : FrameSet

module _ (tools : Toolbox) where
  open tools use {crates, base64, public_key, parse_addr}

  abbrev pub spub_of : Bytes
  spub_of = public_key session_seed

  abbrev pub epub_of : Bytes
  epub_of = public_key eph_seed

  abbrev pub shared_of : Bytes
  shared_of = crates.diffie_hellman eph_seed spub_of

  -- `record`
  abbrev pub record_with : List IpAddr → Payload
  record_with addrs = record {
    addrs = addrs;
    port = 41337;
    spub = spub_of;
    token = token;
    name = codes "devbox";
    offline = none;
  }

  -- `offline`
  abbrev pub offline_with : Payload → Payload
  offline_with p = record p {
    port = 0;
    spub = replicate 32 0;
    token = replicate 16 0;
    offline = some (record {
      ssh_user = codes "jhen";
      ssh_port = 2222;
      seed = replicate 32 0x55;
      authorized_keys = none;
      hostkey_sha256 = some (replicate 32 0x66);
    });
  }

  -- The seed of the generator: "mpx-bind".
  abbrev pub rng_seed : ℕ
  rng_seed = 0x6D70782D62696E64

  -- `main` up to the point where it prints; each `unwrap` may panic.
  unfoldable pub vectors : Option Vectors
  vectors = do
    first ← parse_addr (codes "192.168.1.24")
    second ← parse_addr (codes "10.0.5.2")
    enroll_pub ← tools.generate fill_bytes rng_seed
    made ← frames crates shared_of epub_of spub_of enroll_pub
    some (record {
      record_of = record_with (first ∷ second ∷ []);
      offline = offline_with (record_with (first ∷ second ∷ []));
      enroll_pub = enroll_pub;
      spub = spub_of;
      epub = epub_of;
      shared = shared_of;
      frames_of = made;
    })

  abbrev hexed : Bytes → Field
  hexed bs = string (hex bs)

  -- The `json!`, whose inputs are fixed.
  unfoldable pub json : Vectors → Json
  json v =
      (codes "spec", plain (codes "bind-v1"))
      ∷ (
        codes "inputs",
        section (
            (codes "session_seed_hex", hexed session_seed)
            ∷ (codes "eph_seed_hex", hexed eph_seed)
            ∷ (codes "token_hex", hexed token)
            ∷ (codes "pin", string pin)
            ∷ (codes "enroll_pubkey", string v.enroll_pub)
            ∷ (codes "device", string device)
            ∷ []),
      )
      ∷ (
        codes "record",
        section (
            (codes "name", string offer_name)
            ∷ (codes "addrs", strings offer_addrs)
            ∷ (codes "port", number v.record_of.port)
            ∷ (codes "ssh_user", string offer_user)
            ∷ (codes "ssh_port", number offer_port)
            ∷ (codes "hostkeys", strings offer_hostkeys)
            ∷ []),
      )
      ∷ (
        codes "derived",
        section (
            (codes "spub_hex", hexed v.spub)
            ∷ (codes "epub_hex", hexed v.epub)
            ∷ (codes "shared_hex", hexed v.shared)
            ∷ (
              codes "pin_proof_hex",
              hexed (pin_proof crates.ciphers (Utf8.as_bytes pin) v.epub v.spub),
            )
            ∷ []),
      )
      ∷ (
        codes "payload",
        section (
            (codes "url", string (to_url base64 v.record_of))
            ∷ (codes "bytes_hex", hexed (encode v.record_of))
            ∷ []),
      )
      ∷ (
        codes "payload_offline",
        section (
            (codes "url", string (to_url base64 v.offline))
            ∷ (codes "bytes_hex", hexed (encode v.offline))
            ∷ (codes "seed_hex", hexed (replicate 32 0x55))
            ∷ (codes "hostkey_sha256_hex", hexed (replicate 32 0x66))
            ∷ []),
      )
      ∷ (
        codes "frames",
        section (
            (codes "intro_hex", hexed v.frames_of.intro_bytes)
            ∷ (codes "hello_sealed_hex", hexed v.frames_of.hello_sealed)
            ∷ (codes "offer_sealed_hex", hexed v.frames_of.offer_sealed)
            ∷ (codes "enroll_sealed_hex", hexed v.frames_of.enroll_sealed)
            ∷ (codes "done_sealed_hex", hexed v.frames_of.done_sealed)
            ∷ []),
      )
      ∷ []

  -- `main`: what is printed, unless it panics.
  abbrev printed : Option Vectors → Option Json
  printed none = none
  printed (some v) = some (json v)

  unfoldable pub main : Option Json
  main = printed vectors
