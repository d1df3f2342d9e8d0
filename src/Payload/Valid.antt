-- ===== src/Payload/Valid.antt =====
-- The payloads that the Rust types allow, and what the wire format keeps of one.
use mpx_cli.Prelude.{
  ◌^◌, ◌≤◌, ◌<◌, ◌≡◌, Option, none, some, [], length, take, All, Bytes, unwrap_or,
}
use mpx_cli.Text.Utf8.{Text, IsChar, as_bytes}
use mpx_cli.Payload.Name.{max_name, fitting}
use mpx_cli.Payload.{IpAddr, v4, v6, OfflineKey, Payload, max_addrs, none_if_empty}

-- The octets of an address, as the Rust type has them.
abbrev pub IsAddr : IpAddr → Type 0
IsAddr (v4 octets) = length octets ≡ 4
IsAddr (v6 octets) = length octets ≡ 16

-- A text whose UTF-8 fits a one-byte length.
pub record IsShort (s : Text) : Type 0 where
  pub chars : All IsChar s
  pub short : length (as_bytes s) ≤ 255

abbrev pub IsDigest : Option Bytes → Type 0
IsDigest none = Unit
IsDigest (some digest) = length digest ≡ 32

pub record IsKey (k : OfflineKey) : Type 0 where
  pub user : IsShort k.ssh_user
  pub ssh_port : k.ssh_port < 2 ^ 16
  pub seed : length k.seed ≡ 32
  pub path : IsShort (unwrap_or k.authorized_keys [])
  pub digest : IsDigest k.hostkey_sha256

abbrev pub IsOffline : Option OfflineKey → Type 0
IsOffline none = Unit
IsOffline (some k) = IsKey k

-- What the Rust types guarantee, and that the offline texts need no cut.
pub record IsValid (p : Payload) : Type 0 where
  pub addrs : All IsAddr p.addrs
  pub port : p.port < 2 ^ 16
  pub spub : length p.spub ≡ 32
  pub token : length p.token ≡ 16
  pub name : All IsChar p.name
  pub offline : IsOffline p.offline

abbrev pub normal_key : OfflineKey → OfflineKey
normal_key k = record k { authorized_keys = none_if_empty (unwrap_or k.authorized_keys []) }

abbrev pub normal_offline : Option OfflineKey → Option OfflineKey
normal_offline none = none
normal_offline (some k) = some (normal_key k)

-- What a payload keeps: three addresses, a name of at most 32 bytes, and no empty path.
abbrev pub normal : Payload → Payload
normal p = record p {
  addrs = take max_addrs p.addrs;
  name = fitting max_name p.name;
  offline = normal_offline p.offline;
}
