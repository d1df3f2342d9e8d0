-- ===== src/Payload.antt =====
-- src/payload.rs: the bind payload, the one string that the QR code and the clipboard carry.
-- A `String` is its code points, an IP address its octets, and the fixed arrays are byte lists.
pub mod Name
pub mod Reader
pub mod Valid
mod Reads
mod Fields
pub mod RoundTrip
pub mod Url
mod Tests
use mpx_cli.Prelude.{
  ℕ, zero, suc, ◌+◌, ◌%◌, min, Bool, true, false, Option, none, some, List, [], ◌∷◌, ◌++◌, ltb, leb,
  ◌==◌, if◌then◌else◌, length, take, Bytes, to_be_bytes, is_some, unwrap_or,
}
use mpx_cli.Text.Utf8.{Text, as_bytes, from_utf8}
use Name.{truncated_name}
use Reader.{Parse, pure, fail, lift, ◌>>=◌, u8, u16, take as take_bytes}

abbrev pub version : ℕ
version = 2

abbrev pub max_addrs : ℕ
max_addrs = 3

-- `FLAG_OFFLINE`; a flag test is `flags & FLAG_OFFLINE != 0`, the lowest bit.
abbrev pub flag_offline : ℕ
flag_offline = 1

pub data IpAddr : Type 0 where
  v4 : Bytes → IpAddr
  v6 : Bytes → IpAddr

pub record OfflineKey : Type 0 where
  pub ssh_user : Text
  pub ssh_port : ℕ
  pub seed : Bytes
  pub authorized_keys : Option Text
  pub hostkey_sha256 : Option Bytes

pub record Payload : Type 0 where
  pub addrs : List IpAddr
  pub port : ℕ
  pub spub : Bytes
  pub token : Bytes
  pub name : Text
  pub offline : Option OfflineKey

-- One candidate address: its family, then its octets.
pub encode_addr : IpAddr → Bytes
encode_addr (v4 octets) = 4 ∷ octets
encode_addr (v6 octets) = 6 ∷ octets

pub encode_addrs : List IpAddr → Bytes
unfolding encode_addr
encode_addrs [] = []
encode_addrs (a ∷ addrs) = encode_addr a ++ encode_addrs addrs

-- A field behind its length, which is cut at 255 bytes.
pub encode_text : Text → Bytes
encode_text s = let bs = as_bytes s in let n = min (length bs) 255 in (n % 256) ∷ take n bs

pub encode_digest : Option Bytes → Bytes
encode_digest none = 0 ∷ []
encode_digest (some digest) = 32 ∷ digest

pub encode_offline : Option OfflineKey → Bytes
unfolding encode_text encode_digest
encode_offline none = []
encode_offline (some k) =
    encode_text k.ssh_user
    ++ (to_be_bytes 2 k.ssh_port
        ++ (k.seed
            ++ (encode_text (unwrap_or k.authorized_keys []) ++ encode_digest k.hostkey_sha256)))

pub encode_name : Bytes → Bytes
encode_name name = (length name % 256) ∷ name

-- `Payload::encode`
unfoldable pub encode : Payload → Bytes
unfolding encode_addrs encode_offline encode_name
encode p =
    let addrs = take max_addrs p.addrs in
    (version ∷ (if is_some p.offline then flag_offline else 0) ∷ [])
    ++ (p.spub
        ++ (p.token
            ++ (to_be_bytes 2 p.port
                ++ ((length addrs % 256 ∷ encode_addrs addrs)
                    ++ (encode_name (truncated_name p.name) ++ encode_offline p.offline)))))

-- The body of the loop over the addresses.
pub decode_octets : ℕ → Parse IpAddr
decode_octets family =
    if family == 4
    then (do octets ← take_bytes 4; pure (v4 octets))
    else if family == 6
    then (do octets ← take_bytes 16; pure (v6 octets))
    else fail

pub decode_addr : Parse IpAddr
unfolding decode_octets
decode_addr = do family ← u8; decode_octets family

-- `for _ in 0..count`
pub decode_addrs : ℕ → Parse (List IpAddr)
unfolding decode_addr
decode_addrs zero = pure []
decode_addrs (suc count) = do a ← decode_addr; addrs ← decode_addrs count; pure (a ∷ addrs)

-- A text behind its length.
pub decode_text : Parse Text
decode_text = do n ← u8; bs ← take_bytes n; lift (from_utf8 bs)

pub decode_digest_of : ℕ → Parse (Option Bytes)
decode_digest_of n =
    if n == 0
    then pure none
    else if n == 32
    then (do digest ← take_bytes 32; pure (some digest))
    else fail

pub decode_digest : Parse (Option Bytes)
unfolding decode_digest_of
decode_digest = do n ← u8; decode_digest_of n

abbrev pub none_if_empty : Text → Option Text
none_if_empty [] = none
none_if_empty (c ∷ s) = some (c ∷ s)

pub decode_key : Parse OfflineKey
unfolding decode_text decode_digest
decode_key = do
  ssh_user ← decode_text
  ssh_port ← u16
  seed ← take_bytes 32
  path ← decode_text
  hostkey_sha256 ← decode_digest
  pure (record {
    ssh_user = ssh_user;
    ssh_port = ssh_port;
    seed = seed;
    authorized_keys = none_if_empty path;
    hostkey_sha256 = hostkey_sha256;
  })

pub decode_offline : ℕ → Parse (Option OfflineKey)
unfolding decode_key
decode_offline flags = if flags % 2 == 0 then pure none else do k ← decode_key; pure (some k)

-- The part of `decode` behind the version and the flags.
pub decode_count : ℕ → Parse (List IpAddr)
unfolding decode_addrs
decode_count count = if ltb max_addrs count then fail else decode_addrs count

pub decode_body : ℕ → Parse Payload
unfolding decode_count decode_text decode_offline
decode_body flags = do
  spub ← take_bytes 32
  token ← take_bytes 16
  port ← u16
  count ← u8
  addrs ← decode_count count
  name ← decode_text
  offline ← decode_offline flags
  pure (record {
    addrs = addrs;
    port = port;
    spub = spub;
    token = token;
    name = name;
    offline = offline;
  })

pub decode_version : ℕ → Parse Payload
unfolding decode_body
decode_version v = if v == version then (do flags ← u8; decode_body flags) else fail

pub decode_all : Parse Payload
unfolding decode_version
decode_all = do v ← u8; decode_version v

-- `Payload::decode`. Bytes behind the last field are not looked at.
unfoldable pub decode : Bytes → Option Payload
unfolding decode_all
decode bytes = elim (decode_all (record { bytes = bytes; index = 0 })) [
  | none ↦ none
  | some (p, r) ↦ some p
]
