-- ===== src/Vectors/Tests.antt =====
-- The vectors with crates that hide nothing, fed to a session.
use mpx_cli.Prelude.{
  ℕ, ◌+◌, ◌≡◌, refl, true, false, Option, none, some, [], ◌∷◌, ◌++◌, replicate, equal, arith, Bytes,
  inl, if◌then◌else◌,
}
use mpx_cli.Text.Utf8.{Text}
use mpx_cli.Text.Codes.{codes}
use mpx_cli.Frame.Value.{Value, map_get}
use mpx_cli.Authkeys.Disk.{absent}
use mpx_cli.Payload.{v4}
use mpx_cli.Server.Conn.{Conn}
use mpx_cli.Server.Exchange.{exchange, offer_body, done_body}
use mpx_cli.Server.Exchange.Phone.{Opens, calm, framed}
use mpx_cli.Server.Exchange.Protocol.{Willing, comment_of_phone}
use mpx_cli.Server.Exchange.Enrolling.{Enrolled}
use mpx_cli.Server.Run.{connect}
use mpx_cli.Server.Sample.{tagged, tag, tag-short, phone}
use mpx_cli.Cli.Sample.{base64}
use mpx_cli.Vectors.{Toolbox, Vectors, vectors}
use mpx_cli.Vectors.Frames.{intro, hello, enroll, frames}
use mpx_cli.Vectors.Agree.{session, client, of_protocol, vectors-Enrolled}

abbrev first : Bytes → ℕ
first [] = 0
first (b ∷ bs) = b

abbrev key_text : Text
key_text = codes "ssh-ed25519 AA"

abbrev message : Bytes → Option Value
message bs =
    if equal bs (1 ∷ [])
    then some (intro (replicate 32 0x22))
    else if equal bs (2 ∷ [])
    then some hello
    else if equal bs (3 ∷ [])
    then some (enroll key_text)
    else none

abbrev tools : Toolbox
tools = record {
  crates = record tagged {
    cbor = record { to_bytes = tag; from_bytes = message };
    diffie_hellman = λ a b. replicate 32 (first a + first b);
  };
  base64 = base64;
  public_key = λ secret. secret;
  parse_addr = λ s. some (v4 (10 ∷ 0 ∷ 0 ∷ 7 ∷ []));
  generate = λ fill seed. some key_text;
}

computed : (v : Vectors) × (vectors tools ≡ some v)
unfolding vectors frames mpx_cli.Frame.Channel.open_c2s mpx_cli.Frame.Channel.seal_c2s
    mpx_cli.Frame.Channel.seal_s2c
computed = (_, refl)

tools-Opens : Opens tools.crates.ciphers
tools-Opens key n plain = refl

abbrev conn : Conn
conn = connect phone (record {
  now = 0;
  disk = record { dir = some 0o700; target = absent; scratch = absent };
  pin_failures = 0;
  pin_retired = false;
  told = [];
})

willing : Willing tools.crates (session tools 60000) (client tools computed.0.enroll_pub) conn
unfolding computed vectors frames equal map_get mpx_cli.Frame.Io.read_frame
    mpx_cli.Frame.Channel.seal_c2s mpx_cli.Frame.Channel.seal_s2c mpx_cli.Frame.Channel.open_c2s
    mpx_cli.Text.Fields.split_whitespace mpx_cli.Text.Fields.trim mpx_cli.Text.Fields.is_whitespace
    mpx_cli.Text.Codes.contains mpx_cli.Authkeys.find_key mpx_cli.Text.Lines.lines
willing = record {
  intro_decodes = refl;
  hello_decodes = refl;
  enroll_decodes = refl;
  epub_size = refl;
  contributory = refl;
  limit = 5000;
  starts = omega arith;
  soon = omega arith;
  in_time = omega arith;
  timely = (omega arith, (omega arith, (omega arith, tt)));
  behind_intro = 0 ∷ 0 ∷ 0 ∷ 1 ∷ 2 ∷ 0 ∷ 0 ∷ 0 ∷ 1 ∷ 3 ∷ [];
  behind_hello = 0 ∷ 0 ∷ 0 ∷ 1 ∷ 3 ∷ [];
  behind_enroll = [];
  intro = refl;
  hello = refl;
  enroll = refl;
  key = key_text;
  parsed = refl;
  ed25519 = refl;
  canonical = key_text;
  printed = refl;
  key_type = codes "ssh-ed25519";
  key_b64 = codes "AA";
  rest = [];
  words = refl;
  content = [];
  holds = record { chars = tt; node = inl (refl, refl) };
  fresh = refl;
  offer_size = tag-short (offer_body tools.crates (session tools 60000));
  done_size = tag-short (
      done_body tools.crates (session tools 60000) true
        (comment_of_phone tools.crates (session tools 60000) (client tools computed.0.enroll_pub)));
}

vectors-Enrolled_example :
    (computed.0.frames_of ≡ of_protocol tools tools-Opens 60000 computed.0.enroll_pub)
    × Enrolled tools.crates
        (session tools 60000)
        (client tools computed.0.enroll_pub)
        conn
        willing
        (conn.sent
          ++ framed computed.0.frames_of.offer_sealed
          ++ framed computed.0.frames_of.done_sealed)
        (exchange tools.crates (session tools 60000) false (calm conn))
vectors-Enrolled_example =
    vectors-Enrolled tools computed.0 60000 conn computed.1 tools-Opens refl willing
