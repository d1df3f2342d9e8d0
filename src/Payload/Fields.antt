-- ===== src/Payload/Fields.antt =====
-- Each field of `encode`, and the action of `decode` that reads it back.
use mpx_cli.Prelude.{
  ℕ, ◌≤◌, min, ◌≡◌, refl, sym, Option, none, some, List, [], ◌∷◌, append-nil, arith, ◌%◌, ap₂,
  if◌then◌else◌, le→ltb, length, take, take_all, length-take, All, All-take, Bytes, unwrap_or,
  is_some,
}
use mpx_cli.Text.Utf8.{Text, IsChar, as_bytes, from_utf8, from_utf8-as_bytes}
use mpx_cli.Payload.Name.{
  max_name, fitting, truncated_name, truncated_name_lem, All-fitting, length-fitting,
}
use mpx_cli.Payload.Reader.{lift, u8, u16, take as take_bytes}
use mpx_cli.Payload.Reads.{
  Reads, Reads-take, Reads-pure, Reads-lift, Reads-bind, Reads-wrap, Reads-u8, Reads-u16,
}
use mpx_cli.Payload.{
  IpAddr, v4, v6, OfflineKey, Payload, max_addrs, encode_addr, encode_addrs, encode_text,
  encode_digest, encode_offline, encode_name, encode, decode_octets, decode_addr, decode_addrs,
  decode_text, decode_digest_of, decode_digest, decode_key, decode_offline, decode_count,
  decode_body, decode_version, decode_all,
}
use mpx_cli.Payload.Valid.{
  IsAddr, IsShort, IsDigest, IsKey, IsOffline, IsValid, normal_key, normal_offline, normal,
}

decode_addr-Reads : (a : IpAddr) → IsAddr a → Reads decode_addr (encode_addr a) a
unfolding decode_addr encode_addr
decode_addr-Reads (v4 octets) h =
    Reads-bind u8 decode_octets (Reads-u8 4)
      (Reads-wrap (take_bytes 4) v4 (Reads-take octets 4 (sym h)))
decode_addr-Reads (v6 octets) h =
    Reads-bind u8 decode_octets (Reads-u8 6)
      (Reads-wrap (take_bytes 16) v6 (Reads-take octets 16 (sym h)))

decode_addrs-Reads :
    (addrs : List IpAddr)
    → All IsAddr addrs
    → Reads (decode_addrs (length addrs)) (encode_addrs addrs) addrs
unfolding decode_addrs encode_addrs
decode_addrs-Reads [] h = Reads-pure []
decode_addrs-Reads (a ∷ addrs) h =
    Reads-bind decode_addr _ (decode_addr-Reads a h.0)
      (Reads-wrap (decode_addrs (length addrs)) (◌∷◌ a) (decode_addrs-Reads addrs h.1))

decode_text-Reads :
    (s : Text)
    → All IsChar s
    → length (as_bytes s) ≤ 255
    → Reads decode_text (length (as_bytes s) ∷ as_bytes s) s
unfolding decode_text
decode_text-Reads s chars short = Reads-bind u8 _ (Reads-u8 (length (as_bytes s))) (
    rw append-nil at (
      Reads-bind (take_bytes (length (as_bytes s))) (λ bs. lift (from_utf8 bs))
        (Reads-take (as_bytes s) (length (as_bytes s)) refl)
        (Reads-lift _ s (from_utf8-as_bytes s chars))))

encode_text_short :
    (s : Text) → length (as_bytes s) ≤ 255 → encode_text s ≡ length (as_bytes s) ∷ as_bytes s
unfolding encode_text
encode_text_short s h =
    let e : min (length (as_bytes s)) 255 ≡ length (as_bytes s) = omega arith in
    rw e (ap₂ ◌∷◌ (omega arith) (take_all (length (as_bytes s)) (as_bytes s) (omega arith)))

encode_text-Reads : (s : Text) → IsShort s → Reads decode_text (encode_text s) s
encode_text-Reads s h = rw (encode_text_short s h.short) (decode_text-Reads s h.chars h.short)

decode_digest-Reads : (d : Option Bytes) → IsDigest d → Reads decode_digest (encode_digest d) d
unfolding decode_digest encode_digest
decode_digest-Reads none h = Reads-bind u8 decode_digest_of (Reads-u8 0) (Reads-pure none)
decode_digest-Reads (some d) h =
    Reads-bind u8 decode_digest_of (Reads-u8 32)
      (Reads-wrap (take_bytes 32) some (Reads-take d 32 (sym h)))

decode_key-Reads :
    (k : OfflineKey)
    → IsKey k
    → Reads (decode_offline 1) (encode_offline (some k)) (some (normal_key k))
unfolding decode_offline decode_key encode_offline
decode_key-Reads k h = Reads-wrap decode_key some (
    Reads-bind decode_text _ (encode_text-Reads k.ssh_user h.user) (
      Reads-bind u16 _ (Reads-u16 k.ssh_port h.ssh_port) (
        Reads-bind (take_bytes 32) _ (Reads-take k.seed 32 (sym h.seed)) (
          Reads-bind decode_text _ (encode_text-Reads (unwrap_or k.authorized_keys []) h.path)
            (Reads-wrap decode_digest _ (decode_digest-Reads k.hostkey_sha256 h.digest))))))

decode_offline-Reads :
    (o : Option OfflineKey)
    → IsOffline o
    → Reads (decode_offline (if is_some o then 1 else 0)) (encode_offline o) (normal_offline o)
decode_offline-Reads none h = unfold decode_offline encode_offline in Reads-pure none
decode_offline-Reads (some k) h = decode_key-Reads k h

encode_name-Reads :
    (s : Text)
    → All IsChar s
    → Reads decode_text (encode_name (truncated_name s)) (fitting max_name s)
unfolding encode_name
encode_name-Reads s h =
    let short = length-fitting max_name s in
    let e : length (as_bytes (fitting max_name s)) % 256 ≡ length (as_bytes (fitting max_name s)) =
      omega arith in
    rw (truncated_name_lem s)
      (rw e (decode_text-Reads (fitting max_name s) (All-fitting max_name s h) (omega arith)))

decode_count-Reads :
    (addrs : List IpAddr)
    → All IsAddr addrs
    → length addrs ≤ max_addrs
    → Reads (decode_count (length addrs % 256)) (encode_addrs addrs) addrs
unfolding decode_count
decode_count-Reads addrs h short =
    let e : length addrs % 256 ≡ length addrs = omega arith in
    rw e (rw (le→ltb max_addrs (length addrs) short) (decode_addrs-Reads addrs h))

-- The whole payload, field by field.
pub encode-Reads : (p : Payload) → IsValid p → Reads decode_all (encode p) (normal p)
unfolding encode decode_all decode_version decode_body
encode-Reads p h =
    let addrs = take max_addrs p.addrs in
    let flags : ℕ = if is_some p.offline then 1 else 0 in
    Reads-bind u8 decode_version (Reads-u8 2) (
      Reads-bind u8 decode_body (Reads-u8 flags) (
        Reads-bind (take_bytes 32) _ (Reads-take p.spub 32 (sym h.spub)) (
          Reads-bind (take_bytes 16) _ (Reads-take p.token 16 (sym h.token)) (
            Reads-bind u16 _ (Reads-u16 p.port h.port) (
              Reads-bind u8 _ (Reads-u8 (length addrs % 256)) (
                Reads-bind (decode_count (length addrs % 256)) _
                  (decode_count-Reads addrs (All-take IsAddr max_addrs p.addrs h.addrs)
                    (omega (arith, length-take max_addrs p.addrs)))
                  (Reads-bind decode_text _ (encode_name-Reads p.name h.name) (
                    Reads-wrap (decode_offline flags) _
                      (decode_offline-Reads p.offline h.offline)))))))))
