-- ===== src/Hostinfo/Tests.antt =====
-- A machine with a loopback, a public and a private address.
use mpx_cli.Prelude.{◌≤◌, ◌≡◌, refl, some, List, [], ◌∷◌, length, All, equal, Option}
use mpx_cli.Payload.{IpAddr, v4}
use mpx_cli.Hostinfo.{local_addrs, collect, dedup_behind}
use mpx_cli.Hostinfo.Reachable.{IsReachable, local_addrs-IsReachable}

abbrev interfaces : Option (List IpAddr)
interfaces =
    some (v4 (127 ∷ 0 ∷ 0 ∷ 1 ∷ []) ∷ v4 (8 ∷ 8 ∷ 8 ∷ 8 ∷ []) ∷ v4 (10 ∷ 0 ∷ 0 ∷ 7 ∷ []) ∷ [])

private_first : local_addrs interfaces ≡ v4 (10 ∷ 0 ∷ 0 ∷ 7 ∷ []) ∷ v4 (8 ∷ 8 ∷ 8 ∷ 8 ∷ []) ∷ []
unfolding local_addrs collect dedup_behind equal
private_first = refl

local_addrs-IsReachable_example :
    (length (local_addrs interfaces) ≤ 6) × All IsReachable (local_addrs interfaces)
local_addrs-IsReachable_example = local_addrs-IsReachable interfaces
