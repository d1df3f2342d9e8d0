-- ===== src/Payload/RoundTrip.antt =====
-- What `decode` makes of the output of `encode`, whole or cut short.
use mpx_cli.Prelude.{
  ℕ, ◌+◌, ◌^◌, ◌≤◌, ◌<◌, min, ◌≡◌, ap, Option, none, some, List, [], ◌∷◌, ◌++◌, arith, ◌%◌, ◌*◌,
  length, take, length-take, length-append, All, All-take, Bytes, to_be_bytes, unwrap_or,
}
use mpx_cli.Text.Utf8.{Text, as_bytes}
use mpx_cli.Payload.Name.{max_name, fitting, truncated_name, truncated_name_lem, length-fitting}
use mpx_cli.Payload.{
  IpAddr, v4, v6, OfflineKey, Payload, max_addrs, encode_addr, encode_addrs, encode_text,
  encode_digest, encode_offline, encode_name, encode, decode,
}
use mpx_cli.Payload.Fields.{encode-Reads}
use mpx_cli.Payload.Valid.{IsAddr, IsDigest, IsOffline, IsValid, normal}

length-encode_addrs :
    (addrs : List IpAddr) → All IsAddr addrs → length (encode_addrs addrs) ≤ 17 * length addrs
unfolding encode_addrs encode_addr
length-encode_addrs [] h = omega arith
length-encode_addrs (v4 o ∷ addrs) h =
    omega (arith, length-append o (encode_addrs addrs), length-encode_addrs addrs h.1, h.0)
length-encode_addrs (v6 o ∷ addrs) h =
    omega (arith, length-append o (encode_addrs addrs), length-encode_addrs addrs h.1, h.0)

length-encode_text : (s : Text) → length (encode_text s) ≤ 256
unfolding encode_text
length-encode_text s = omega (arith, length-take (min (length (as_bytes s)) 255) (as_bytes s))

length-encode_digest : (d : Option Bytes) → IsDigest d → length (encode_digest d) ≤ 33
unfolding encode_digest
length-encode_digest none h = omega arith
length-encode_digest (some d) h = omega arith

pub length-encode_offline : (o : Option OfflineKey) → IsOffline o → length (encode_offline o) ≤ 579
unfolding encode_offline encode_digest
length-encode_offline none h = omega arith
length-encode_offline (some k) h =
    let user = encode_text k.ssh_user in
    let path = encode_text (unwrap_or k.authorized_keys []) in
    let digest = encode_digest k.hostkey_sha256 in
    omega (
      arith,
      length-append user (to_be_bytes 2 k.ssh_port ++ (k.seed ++ (path ++ digest))),
      length-append k.seed (path ++ digest),
      length-append path digest,
      length-encode_text k.ssh_user,
      length-encode_text (unwrap_or k.authorized_keys []),
      h.seed,
      length-encode_digest k.hostkey_sha256 h.digest,
    )

-- For a payload of the right sizes, `encode` writes 54 bytes and those of its first three
-- addresses, of the part of its name that fits 32 bytes, and of its offline part.
pub length-encode :
    (p : Payload)
    → IsValid p
    → length (encode p)
      ≡ 54
        + length (encode_addrs (take max_addrs p.addrs))
        + length (as_bytes (fitting max_name p.name))
        + length (encode_offline p.offline)
unfolding encode encode_name
length-encode p h =
    let addrs = encode_addrs (take max_addrs p.addrs) in
    let name = truncated_name p.name in
    let offline = encode_offline p.offline in
    omega (
      arith,
      length-append p.spub (
          p.token
          ++ (to_be_bytes 2 p.port
              ++ ((length (take max_addrs p.addrs) % 256 ∷ addrs)
                  ++ ((length name % 256 ∷ name) ++ offline)))),
      length-append p.token (
          to_be_bytes 2 p.port
          ++ ((length (take max_addrs p.addrs) % 256 ∷ addrs)
              ++ ((length name % 256 ∷ name) ++ offline))),
      length-append addrs ((length name % 256 ∷ name) ++ offline),
      length-append name offline,
      h.spub,
      h.token,
      ap (length {A = ℕ}) (truncated_name_lem p.name),
    )

length-encode_le : (p : Payload) → IsValid p → length (encode p) ≤ 716
length-encode_le p h = omega (
  arith,
  length-encode p h,
  length-encode_offline p.offline h.offline,
  length-fitting max_name p.name,
  length-take max_addrs p.addrs,
  length-encode_addrs (take max_addrs p.addrs) (All-take IsAddr max_addrs p.addrs h.addrs),
)

-- For a payload of the right sizes, `decode` reads back from what `encode` wrote, whatever
-- fewer than 2^63 bytes follow it, the payload with its first three addresses, the part of the
-- name that fits 32 bytes, and no empty path.
pub decode-encode :
    (p : Payload) (rest : Bytes)
    → IsValid p
    → length rest < 2 ^ 63
    → decode (encode p ++ rest) ≡ some (normal p)
unfolding decode
decode-encode p rest h short =
    let size = length-encode_le p h in
    rw ((encode-Reads p h).complete [] rest (omega (arith, length-append (encode p) rest)), decode)

-- If what `encode` wrote of a payload of the right sizes is cut anywhere before its end, then
-- the part that is left does not decode.
pub decode-encode_cut :
    (p : Payload) (kept lost : Bytes)
    → IsValid p
    → encode p ≡ kept ++ lost
    → 0 < length lost
    → decode kept ≡ none
unfolding decode
decode-encode_cut p kept lost h split more =
    let size = length-encode_le p h in
    rw (
      (encode-Reads p h).cut [] kept lost
          (omega (arith, length-append kept lost, ap (length {A = ℕ}) split)) split more,
      decode,
    )
