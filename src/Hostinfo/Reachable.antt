-- ===== src/Hostinfo/Reachable.antt =====
-- An offer names only addresses that another machine can dial.
use mpx_cli.Prelude.{
  ◌≤◌, ◌≡◌, Bool, true, false, Option, none, some, List, [], ◌∷◌, ◌++◌, if◌then◌else◌, arith,
  length, length-take, All, All-append, All-take, Bool-cases, inl, inr,
}
use mpx_cli.Payload.{IpAddr, v4, v6}
use mpx_cli.Hostinfo.{
  is_loopback, is_link_local, is_private, Found, place, collect, same_addr, dedup_behind, dedup,
  ordered, local_addrs,
}

abbrev pub IsReachable : IpAddr → Type 0
IsReachable ip = (is_loopback ip ≡ false) × (is_link_local ip ≡ false)

abbrev AllFound : Found → Type 0
AllFound f =
    All IsReachable f.v4_private × (All IsReachable f.v4_public × All IsReachable f.v6_addrs)

place-AllFound : (ip : IpAddr) (f : Found) → IsReachable ip → AllFound f → AllFound (place ip f)
place-AllFound (v4 octets) f h k = go (is_private octets)
  where
    go :
        (b : Bool)
        → AllFound (
            if b
            then record f { v4_private = v4 octets ∷ f.v4_private }
            else record f { v4_public = v4 octets ∷ f.v4_public })
    go true = ((h, k.0), k.1)
    go false = (k.0, ((h, k.1.0), k.1.1))
place-AllFound (v6 octets) f h k = (k.0, (k.1.0, (h, k.1.1)))

collect-AllFound : (ips : List IpAddr) → AllFound (collect ips)
unfolding collect
collect-AllFound [] = (tt, (tt, tt))
collect-AllFound (ip ∷ rest) =
    let found = collect-AllFound rest in
    elim (Bool-cases (is_loopback ip)) [
      | inl loop ↦ rw loop found
      | inr outer ↦ rw outer (elim (Bool-cases (is_link_local ip)) [
        | inl link ↦ rw link found
        | inr wide ↦ rw wide (place-AllFound ip (collect rest) (outer, wide) found)
      ])
    ]

All-dedup_behind :
    (kept : IpAddr) (ips : List IpAddr)
    → All IsReachable ips
    → All IsReachable (dedup_behind kept ips)
unfolding dedup_behind
All-dedup_behind kept [] h = tt
All-dedup_behind kept (ip ∷ rest) h = elim (Bool-cases (same_addr kept ip)) [
  | inl same ↦ rw same (All-dedup_behind kept rest h.1)
  | inr fresh ↦ rw fresh (h.0, All-dedup_behind ip rest h.1)
]

All-dedup : (ips : List IpAddr) → All IsReachable ips → All IsReachable (dedup ips)
All-dedup [] h = tt
All-dedup (ip ∷ rest) h = (h.0, All-dedup_behind ip rest h.1)

-- Whatever the interfaces are, `local_addrs` names at most six addresses, none of which is a
-- loopback or a link-local address.
pub local_addrs-IsReachable :
    (interfaces : Option (List IpAddr))
    → (length (local_addrs interfaces) ≤ 6) × All IsReachable (local_addrs interfaces)
unfolding local_addrs
local_addrs-IsReachable none = (omega arith, tt)
local_addrs-IsReachable (some ips) =
    let f = collect ips in
    let h = collect-AllFound ips in
    (
      omega (arith, length-take 6 (dedup (ordered f))),
      All-take IsReachable 6 (dedup (ordered f)) (
          All-dedup (ordered f) (
            All-append IsReachable f.v4_private (f.v4_public ++ f.v6_addrs) h.0
              (All-append IsReachable f.v4_public f.v6_addrs h.1.0 h.1.1))),
    )
