-- ===== src/Hostinfo.antt =====
-- src/hostinfo.rs: `local_addrs`, the addresses that an offer names. An address stays its octets
-- here: its text, which the code compares and returns, determines it.
pub mod Keys
pub mod Reachable
mod Tests
use mpx_cli.Prelude.{
  ℕ, Bool, true, false, ◌&&◌, ◌||◌, Option, none, some, List, [], ◌∷◌, ◌++◌, leb, ◌==◌,
  if◌then◌else◌, take, equal, replicate, Bytes,
}
use mpx_cli.Payload.{IpAddr, v4, v6}

abbrev first : Bytes → ℕ
first [] = 0
first (a ∷ rest) = a

abbrev second : Bytes → ℕ
second [] = 0
second (a ∷ rest) = first rest

-- `IpAddr::is_loopback`
abbrev pub is_loopback : IpAddr → Bool
is_loopback (v4 octets) = first octets == 127
is_loopback (v6 octets) = equal octets (replicate 15 0 ++ 1 ∷ [])

-- `Ipv4Addr::is_link_local`, and the test for fe80::/10.
abbrev pub is_link_local : IpAddr → Bool
is_link_local (v4 octets) = (first octets == 169) && (second octets == 254)
is_link_local (v6 octets) =
    (first octets == 0xfe) && (leb 0x80 (second octets) && leb (second octets) 0xbf)

-- `Ipv4Addr::is_private`
abbrev pub is_private : Bytes → Bool
is_private octets =
    (first octets == 10)
    || ((first octets == 172) && (leb 16 (second octets) && leb (second octets) 31)
        || (first octets == 192) && (second octets == 168))

-- The three vectors of the loop.
pub record Found : Type 0 where
  pub v4_private : List IpAddr
  pub v4_public : List IpAddr
  pub v6_addrs : List IpAddr

abbrev pub place : IpAddr → Found → Found
place (v4 octets) f =
    if is_private octets
    then record f { v4_private = v4 octets ∷ f.v4_private }
    else record f { v4_public = v4 octets ∷ f.v4_public }
place (v6 octets) f = record f { v6_addrs = v6 octets ∷ f.v6_addrs }

-- The loop over the interfaces.
unfoldable pub collect : List IpAddr → Found
collect [] = record { v4_private = []; v4_public = []; v6_addrs = [] }
collect (ip ∷ rest) =
    let found = collect rest in
    if is_loopback ip then found else if is_link_local ip then found else place ip found

abbrev pub same_addr : IpAddr → IpAddr → Bool
same_addr (v4 a) (v4 b) = equal a b
same_addr (v6 a) (v6 b) = equal a b
same_addr _ _ = false

-- `Vec::dedup`: of equal neighbours the first stays.
unfoldable pub dedup_behind : IpAddr → List IpAddr → List IpAddr
dedup_behind kept [] = []
dedup_behind kept (ip ∷ rest) =
    if same_addr kept ip then dedup_behind kept rest else ip ∷ dedup_behind ip rest

abbrev pub dedup : List IpAddr → List IpAddr
dedup [] = []
dedup (ip ∷ rest) = ip ∷ dedup_behind ip rest

abbrev pub ordered : Found → List IpAddr
ordered f = f.v4_private ++ (f.v4_public ++ f.v6_addrs)

-- `local_addrs`, on what the crate lists, if it can.
unfoldable pub local_addrs : Option (List IpAddr) → List IpAddr
local_addrs none = []
local_addrs (some interfaces) = take 6 (dedup (ordered (collect interfaces)))
