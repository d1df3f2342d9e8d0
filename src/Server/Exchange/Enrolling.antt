-- ===== src/Server/Exchange/Enrolling.antt =====
-- `admit` of src/server.rs with a phone that keeps to the protocol: OFFER, ENROLL and DONE.
use mpx_cli.Prelude.{
  ℕ, ◌+◌, ◌^◌, ◌≤◌, ◌<◌, ◌≡◌, ap, ap₂, sym, subst, ◌∙◌, true, none, [], ◌∷◌, ◌++◌, arith, min,
  length, Bytes,
}
use mpx_cli.Text.Codes.{codes}
use mpx_cli.Text.Fields.{trim}
use mpx_cli.Frame.Io.{Result, ok, Io, ◌>>=◌}
use mpx_cli.Frame.Framing.{read_slice}
use mpx_cli.Frame.Channel.{open_s2c}
use mpx_cli.Frame.Value.{Value, get_text}
use mpx_cli.Authkeys.Disk.{done}
use mpx_cli.Authkeys.Replace.{no_faults}
use mpx_cli.Authkeys.Enroll.{Holds}
use mpx_cli.Authkeys.{added, ensure_line}
use mpx_cli.Server.Conn.{Crates, Conn, read_by, phase_deadline, postauth_timeout}
use mpx_cli.Server.Conn.Stream.{stream, IsTimely}
use mpx_cli.Server.Exchange
use mpx_cli.Server.Exchange.Phone.{
  Phone, enroll_of, Opens, sealed_by, framed, chain, read_by-Got, phase_of, open_c2s-seal_c2s,
  open_s2c-seal_s2c, enroll_pubkey, enroll_device, send-calm, enroll_new_key, accept_in_time,
}
use mpx_cli.Server.Exchange.Protocol.{
  phone_seals, Decodes, hello_sealed, offer_sealed, enroll_sealed, done_sealed, device_of_phone,
  comment_of_phone, Willing,
}

module _ (crates : Crates) (config : Exchange.SessionConfig) where
  -- The steps of `admit`, from each message on.
  abbrev enroll_at : Value → Io Conn Exchange.ConnectionResult
  enroll_at enroll = Exchange.required (get_text enroll (codes "pubkey")) >>= λ line.
      Exchange.accept_key crates config (Exchange.device_of (get_text enroll (codes "device")))
        (crates.from_openssh (trim line))

  abbrev decoded_at : Bytes → Io Conn Exchange.ConnectionResult
  decoded_at plain = Exchange.decode crates config plain >>= enroll_at

  abbrev opened_at : Bytes → Io Conn Exchange.ConnectionResult
  opened_at sealed = Exchange.open_frame crates config sealed >>= decoded_at

  abbrev offered_at : ℕ → Io Conn Exchange.ConnectionResult
  offered_at postauth = Exchange.send crates config (Exchange.offer_body crates config) >>= λ u.
      read_by postauth >>= opened_at

  pub decode-to_bytes :
      (v : Value)
      → Decodes crates v
      → (d : Conn) → Exchange.decode crates config (crates.cbor.to_bytes v) d ≡ (ok v, d)
  unfolding Exchange.decode
  decode-to_bytes v decodes d = ap (λ o. Exchange.required o d) decodes

  pub open_frame-seals :
      (opens : Opens crates.ciphers) (v : Value) (d : Conn)
      → Exchange.open_frame crates config (phone_seals crates d.channel v).0 d
        ≡ (ok (crates.cbor.to_bytes v), record d { channel = (phone_seals crates d.channel v).1 })
  unfolding Exchange.open_frame
  open_frame-seals opens v d =
      ap (λ r. (r.0, record d { channel = r.1 }))
        (open_c2s-seal_c2s crates.ciphers opens d.channel (crates.cbor.to_bytes v))

  module _ (phone : Phone) (opens : Opens crates.ciphers) where
    pub phone_channel :
        (open_s2c crates.ciphers
          (hello_sealed crates config phone).1
          (offer_sealed crates config phone).0).1
        ≡ (offer_sealed crates config phone).1
    phone_channel =
        ap (λ r. r.1)
          (open_s2c-seal_s2c crates.ciphers opens (hello_sealed crates config phone).1
            (crates.cbor.to_bytes (Exchange.offer_body crates config)))

  module _ (phone : Phone) (c : Conn) (h : Willing crates config phone c) where
    -- The key is added, and the program has sent `sent`.
    abbrev pub Enrolled : Bytes → Result Exchange.ConnectionResult × Conn → Type 0
    Enrolled sent r =
        (c' : Conn) × (r ≡ (
          ok (
              Exchange.enrolled (device_of_phone crates config phone)
                (comment_of_phone crates config phone) true),
          c',
        ))
        × (ensure_line no_faults h.key_type h.key_b64 (comment_of_phone crates config phone) c.disk
            ≡ (done added, c'.disk))
        × (c'.sent ≡ sent)

    pub Enrolled-by :
        {sent sent' : Bytes} {r r' : Result Exchange.ConnectionResult × Conn}
        → sent' ≡ sent
        → r ≡ r'
        → Enrolled sent' r'
        → Enrolled sent r
    Enrolled-by q e (c', goes, stored, wrote) = (c', e ∙ goes, stored, wrote ∙ q)

    module _ (opens : Opens crates.ciphers) where
      -- From ENROLL on.
      enrolls :
          (d : Conn)
          → d.channel ≡ (offer_sealed crates config phone).1
          → d.writes ≡ []
          → d.faults ≡ no_faults
          → d.answer ≡ true
          → d.disk ≡ c.disk
          → d.now + d.answer_time < config.deadline
          → Enrolled
              (d.sent ++ framed (done_sealed crates config phone).0)
              (opened_at (enroll_sealed crates config phone).0 d)
      enrolls d ch w f a disk late =
          let msg = enroll_of phone in
          let opened : Exchange.open_frame crates config (enroll_sealed crates config phone).0 d ≡ (
            ok (crates.cbor.to_bytes msg),
            record d { channel = (enroll_sealed crates config phone).1 },
          ) =
            subst
              (λ k. Exchange.open_frame crates config (phone_seals crates k msg).0 d ≡ (
                ok (crates.cbor.to_bytes msg),
                record d { channel = (phone_seals crates k msg).1 },
              ))
              (ch ∙ sym (phone_channel phone opens)) (open_frame-seals opens msg d) in
          let d1 = record d { channel = (enroll_sealed crates config phone).1 } in
          let name = device_of_phone crates config phone in
          let d2 = record d1 { now = d.now + d.answer_time; asked = d.asked ++ (name ∷ []) } in
          let (c', goes, stored, sent) =
            enroll_new_key crates config name h.key h.canonical h.key_type h.key_b64 h.rest
              h.content d2 h.printed h.words w f (subst (λ x. Holds x h.content) (sym disk) h.holds)
              h.fresh h.done_size in
          (
            c',
            chain (Exchange.open_frame crates config (enroll_sealed crates config phone).0)
                  decoded_at opened
                ∙ chain (Exchange.decode crates config (crates.cbor.to_bytes msg)) enroll_at
                    (decode-to_bytes msg h.enroll_decodes d1)
                ∙ chain (Exchange.required (get_text msg (codes "pubkey")))
                    (λ line.
                      Exchange.accept_key crates config
                        (Exchange.device_of (get_text msg (codes "device")))
                        (crates.from_openssh (trim line)))
                    (ap (λ o. Exchange.required o d1) (enroll_pubkey phone))
                ∙ ap₂ (λ dv k. Exchange.accept_key crates config dv k d1)
                    (ap Exchange.device_of (enroll_device phone)) h.parsed
                ∙ accept_in_time crates config name h.key d1 h.ed25519 a late
                ∙ goes,
            subst
                (λ x.
                  ensure_line no_faults h.key_type h.key_b64 (comment_of_phone crates config phone)
                    x
                  ≡ (done added, c'.disk))
                disk stored,
            sent,
          )

      -- From OFFER on.
      pub admits :
          (d : Conn)
          → d.disk ≡ c.disk
          → d.answer_time ≡ c.answer_time
          → d.writes ≡ []
          → d.faults ≡ no_faults
          → d.answer ≡ true
          → d.channel ≡ (hello_sealed crates config phone).1
          → c.now ≤ d.now
          → d.now < h.limit
          → IsTimely h.limit d.inbound
          → stream d.inbound ≡ h.behind_hello
          → Enrolled
              (d.sent
                ++ framed (offer_sealed crates config phone).0
                ++ framed (done_sealed crates config phone).0)
              (Exchange.admit crates config none d)
      unfolding Exchange.admit
      admits d disk time w f a ch since early timely left =
          let deadline = min (d.now + postauth_timeout) config.deadline in
          let offer = Exchange.offer_body crates config in
          let frame = (sealed_by crates config d.channel offer).0 in
          let same : frame ≡ (offer_sealed crates config phone).0 =
            ap (λ k. (sealed_by crates config k offer).0) ch in
          let written =
            send-calm crates config d offer w
              (subst (λ b. length b < 2 ^ 32) (sym same) h.offer_size) in
          let d1 = record d {
            channel = (sealed_by crates config d.channel offer).1;
            sent = d.sent ++ framed frame;
          } in
          let got =
            read_by-Got h.limit deadline (omega (arith, h.soon, h.in_time, since)) d1
              (enroll_sealed crates config phone).0 h.behind_enroll early timely
              (ap read_slice left ∙ h.enroll) in
          let d2 = record d1 { now = got.now; inbound = got.inbound } in
          Enrolled-by
            (ap (λ b. d.sent ++ framed b ++ framed (done_sealed crates config phone).0) same)
            (chain (phase_deadline config.deadline postauth_timeout) offered_at
                (phase_of config.deadline postauth_timeout d)
              ∙ chain (Exchange.send crates config offer) (λ u. read_by deadline >>= opened_at)
                  written
              ∙ chain (read_by deadline) opened_at got.read)
            (enrolls d2 (ap (λ k. (sealed_by crates config k offer).1) ch) w f a disk
              (omega (arith, got.early, time, h.in_time)))
