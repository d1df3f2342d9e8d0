-- ===== src/Vectors/Frames.antt =====
-- The inputs and the frames of src/examples/gen_vectors.rs.
use mpx_cli.Prelude.{ℕ, Bool, Option, none, some, List, [], ◌∷◌, replicate, Bytes, ◌>>=◌}
use mpx_cli.Text.Utf8.{Text}
use mpx_cli.Text.Codes.{codes}
use mpx_cli.Frame.Io.{Result, ok, err, panic}
use mpx_cli.Frame.Channel.{Channel, derive, seal_c2s, seal_s2c, open_c2s}
use mpx_cli.Frame.Value.{Value, integer, bytes, text, bool, array, map, end, entry, text_items}
use mpx_cli.Server.Conn.{Crates}

abbrev pub session_seed : Bytes
session_seed = replicate 32 0x11

abbrev pub eph_seed : Bytes
eph_seed = replicate 32 0x22

abbrev pub token : Bytes
token = replicate 16 0x33

abbrev pub pin : Text
pin = codes "482163"

abbrev pub device : Text
device = codes "Jhen's Vision Pro"

abbrev pub offer_name : Text
offer_name = codes "devbox"

abbrev pub offer_addrs : List Text
offer_addrs = codes "192.168.1.24" ∷ codes "10.0.5.2" ∷ []

abbrev pub offer_user : Text
offer_user = codes "jhen"

abbrev pub offer_port : ℕ
offer_port = 2222

abbrev pub offer_hostkeys : List Text
offer_hostkeys = codes "ssh-ed25519 SHA256:8LKW2AiTswwLnvmMmLGyU5DjLYPGwCauTAdSSlpFy1Y" ∷ []

abbrev pub done_comment : Text
done_comment = codes "multiplex:bind:9f3a1c2e:jhen-s-vision-pro"

pub record FrameSet : Type 0 where
  pub intro_bytes : Bytes
  pub hello_sealed : Bytes
  pub offer_sealed : Bytes
  pub enroll_sealed : Bytes
  pub done_sealed : Bytes

-- The messages.
abbrev pub intro : Bytes → Value
intro epub = map (
    entry (text (codes "v")) (integer 1) (
      entry (text (codes "epub")) (bytes epub)
        (entry (text (codes "mode")) (text (codes "token")) end)))

abbrev pub hello : Value
hello = map (entry (text (codes "proof")) (bytes token) end)

abbrev pub offer : Value
offer = map (
    entry (text (codes "name")) (text offer_name) (
      entry (text (codes "addrs")) (array (text_items offer_addrs)) (
        entry (text (codes "ssh"))
          (map (
            entry (text (codes "user")) (text offer_user) (
              entry (text (codes "port")) (integer offer_port)
                (entry (text (codes "hostkeys")) (array (text_items offer_hostkeys)) end))))
          end)))

abbrev pub enroll : Text → Value
enroll enroll_pub = map (
    entry (text (codes "pubkey")) (text enroll_pub)
      (entry (text (codes "device")) (text device) end))

abbrev pub done : Value
done = map (
    entry (text (codes "ok")) (bool Bool.true)
      (entry (text (codes "comment")) (text done_comment) end))

-- The channel behind `open_c2s(..).unwrap()`.
abbrev pub unwrapped : Result Bytes × Channel → Option Channel
unwrapped (ok plain, ch) = some ch
unwrapped (err e, ch) = none
unwrapped (panic, ch) = none

module _ (crates : Crates) (shared epub spub : Bytes) (enroll_pub : Text) where
  open crates use {ciphers, cbor}

  -- `client` and `server` at first
  abbrev pub derived : Channel
  derived = derive ciphers shared epub spub

  abbrev pub client_hello : Bytes × Channel
  client_hello = seal_c2s ciphers derived (cbor.to_bytes hello)

  abbrev pub client_enroll : Bytes × Channel
  client_enroll = seal_c2s ciphers client_hello.1 (cbor.to_bytes (enroll enroll_pub))

  abbrev pub server_offer : Channel → Bytes × Channel
  server_offer server = seal_s2c ciphers server (cbor.to_bytes offer)

  abbrev pub server_done : Channel → Bytes × Channel
  server_done server = seal_s2c ciphers server (cbor.to_bytes done)

  unfoldable pub frames : Option FrameSet
  frames = do
    opened ← unwrapped (open_c2s ciphers derived client_hello.0)
    enrolled ← unwrapped (open_c2s ciphers (server_offer opened).1 client_enroll.0)
    some (record {
      intro_bytes = cbor.to_bytes (intro epub);
      hello_sealed = client_hello.0;
      offer_sealed = (server_offer opened).0;
      enroll_sealed = client_enroll.0;
      done_sealed = (server_done enrolled).0;
    })
