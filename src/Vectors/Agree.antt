-- ===== src/Vectors/Agree.antt =====
-- The frames that src/examples/gen_vectors.rs writes by hand, and those of src/server.rs.
use mpx_cli.Prelude.{
  ℕ, ◌≡◌, refl, ap, sym, ◌∙◌, subst, true, false, Option, some, List, ◌++◌, Bytes, ◌>>=◌,
  >>=-eq-some,
}
use mpx_cli.Text.Utf8.{Text}
use mpx_cli.Text.Codes.{codes}
use mpx_cli.Frame.Channel.{Channel, open_c2s, seal_c2s, seal_s2c}
use mpx_cli.Util.Slug.{device_slug}
use mpx_cli.Server.Conn.{Conn}
use mpx_cli.Server.Exchange
use mpx_cli.Server.Exchange.Phone.{Phone, Opens, intro_of, open_c2s-seal_c2s, calm, framed}
use mpx_cli.Server.Exchange.Protocol.{
  hello_sealed, offer_sealed, enroll_sealed, done_sealed, by_token, Willing,
}
use mpx_cli.Server.Exchange.Enrolling.{phone_channel, Enrolled}
use mpx_cli.Server.Exchange.Honest.{exchange-Enrolled}
use mpx_cli.Payload.{IpAddr}
use mpx_cli.Vectors.Rng.{fill_bytes}
use mpx_cli.Vectors.{
  Toolbox, Vectors, record_with, offline_with, rng_seed, spub_of, epub_of, shared_of, vectors,
}
use mpx_cli.Vectors.Frames.{
  session_seed, eph_seed, token, pin, device, offer_name, offer_addrs, offer_user, offer_port,
  offer_hostkeys, FrameSet, hello, offer, enroll, done, unwrapped, derived, client_enroll, frames,
}

module _ (tools : Toolbox) where
  open tools use {crates}

  -- The session of the vectors, with any expiry.
  abbrev pub session : ℕ → Exchange.SessionConfig
  session deadline = record {
    secret = session_seed;
    spub = spub_of tools;
    token = token;
    pin = pin;
    deadline = deadline;
    offer = record {
      name = offer_name;
      addrs = offer_addrs;
      user = offer_user;
      ssh_port = offer_port;
      hostkeys = offer_hostkeys;
    };
    marker_id = codes "multiplex:bind:9f3a1c2e";
  }

  -- Its phone.
  abbrev pub client : Text → Phone
  client enroll_pub = record {
    epub = epub_of tools;
    shared = shared_of tools;
    spub = spub_of tools;
    mode = codes "token";
    proof = token;
    line = enroll_pub;
    device = device;
  }

  module _ (opens : Opens crates.ciphers) (deadline : ℕ) (enroll_pub : Text) where
    -- The frames of the protocol.
    abbrev pub of_protocol : FrameSet
    of_protocol = record {
      intro_bytes = crates.cbor.to_bytes (intro_of (client enroll_pub));
      hello_sealed = (hello_sealed crates (session deadline) (client enroll_pub)).0;
      offer_sealed = (offer_sealed crates (session deadline) (client enroll_pub)).0;
      enroll_sealed = (enroll_sealed crates (session deadline) (client enroll_pub)).0;
      done_sealed = (done_sealed crates (session deadline) (client enroll_pub)).0;
    }

    offer-offer_body : offer ≡ Exchange.offer_body crates (session deadline)
    unfolding Exchange.offer_body
    offer-offer_body = refl

    done-done_body :
        done
        ≡ Exchange.done_body crates
            (session deadline)
            true
            (Exchange.comment_for crates (session deadline) (Exchange.device_of (some device)))
    unfolding Exchange.done_body Exchange.comment_for Exchange.device_of device_slug
    done-done_body = refl

    abbrev cfg : Exchange.SessionConfig
    cfg = session deadline

    abbrev hello_at : Bytes × Channel
    hello_at = hello_sealed crates cfg (client enroll_pub)

    abbrev offer_at : Bytes × Channel
    offer_at = offer_sealed crates cfg (client enroll_pub)

    abbrev enroll_at : Bytes × Channel
    enroll_at = enroll_sealed crates cfg (client enroll_pub)

    -- What is sealed on the way to the program does not depend on what was opened.
    enrolled_by_client :
        client_enroll crates (shared_of tools) (epub_of tools) (spub_of tools) enroll_pub ≡ (
          (seal_c2s crates.ciphers offer_at.1 (crates.cbor.to_bytes (enroll enroll_pub))).0,
          (client_enroll crates (shared_of tools) (epub_of tools) (spub_of tools) enroll_pub).1,
        )
    unfolding seal_c2s seal_s2c
    enrolled_by_client = refl

    sealed_by_phone :
        seal_c2s crates.ciphers offer_at.1 (crates.cbor.to_bytes (enroll enroll_pub)) ≡ enroll_at
    sealed_by_phone =
        ap (λ ch. seal_c2s crates.ciphers ch (crates.cbor.to_bytes (enroll enroll_pub)))
          (sym (phone_channel crates cfg (client enroll_pub) opens))

    second_opened :
        unwrapped (
          open_c2s crates.ciphers offer_at.1
            (client_enroll crates (shared_of tools) (epub_of tools) (spub_of tools) enroll_pub).0)
        ≡ some enroll_at.1
    second_opened =
        ap (λ sealed. unwrapped (open_c2s crates.ciphers offer_at.1 sealed))
          (ap (λ r. r.0) enrolled_by_client)
        ∙ ap unwrapped (
            open_c2s-seal_c2s crates.ciphers opens offer_at.1
              (crates.cbor.to_bytes (enroll enroll_pub)))
        ∙ ap (λ r. some r.1) sealed_by_phone

    -- The frames, from the two openings on.
    abbrev framed_with : Bytes × Channel → Bytes → Bytes → FrameSet
    framed_with sent enrolled acknowledged = record {
      intro_bytes = crates.cbor.to_bytes (intro_of (client enroll_pub));
      hello_sealed = hello_at.0;
      offer_sealed = sent.0;
      enroll_sealed = enrolled;
      done_sealed = acknowledged;
    }

    abbrev enrolled_frame : Bytes
    enrolled_frame =
        (client_enroll crates (shared_of tools) (epub_of tools) (spub_of tools) enroll_pub).0

    abbrev rest_of : Option Channel → Bytes × Channel → Option FrameSet
    rest_of o sent = o >>= λ ch.
        some (
          framed_with sent enrolled_frame
            (seal_s2c crates.ciphers ch (crates.cbor.to_bytes done)).0)

    frames_lem :
        frames crates (shared_of tools) (epub_of tools) (spub_of tools) enroll_pub
        ≡ some of_protocol
    unfolding frames
    frames_lem =
        ap
          (λ o. o >>= λ ch.
            rest_of
              (unwrapped (
                open_c2s crates.ciphers (seal_s2c crates.ciphers ch (crates.cbor.to_bytes offer)).1
                  enrolled_frame))
              (seal_s2c crates.ciphers ch (crates.cbor.to_bytes offer)))
          (ap unwrapped (
            open_c2s-seal_c2s crates.ciphers opens
              (derived crates (shared_of tools) (epub_of tools) (spub_of tools) enroll_pub)
              (crates.cbor.to_bytes hello)))
        ∙ ap
            (λ body.
              let sent = seal_s2c crates.ciphers hello_at.1 (crates.cbor.to_bytes body) in
              rest_of (unwrapped (open_c2s crates.ciphers sent.1 enrolled_frame)) sent)
            offer-offer_body
        ∙ ap (λ o. rest_of o offer_at) second_opened
        ∙ ap
            (λ body. some (
              framed_with offer_at enrolled_frame
                (seal_s2c crates.ciphers enroll_at.1 (crates.cbor.to_bytes body)).0))
            done-done_body
        ∙ ap
            (λ frame.
              some (framed_with offer_at frame (done_sealed crates cfg (client enroll_pub)).0))
            (ap (λ r. r.0) enrolled_by_client ∙ ap (λ r. r.0) sealed_by_phone)

  frames-some :
      {made : FrameSet} {enroll_pub : Text} {rest : List IpAddr} (v : Vectors)
      → frames crates (shared_of tools) (epub_of tools) (spub_of tools) enroll_pub ≡ some made
      → some (record {
        record_of = record_with tools rest;
        offline = offline_with tools (record_with tools rest);
        enroll_pub = enroll_pub;
        spub = spub_of tools;
        epub = epub_of tools;
        shared = shared_of tools;
        frames_of = made;
      })
        ≡ some v
      → frames crates (shared_of tools) (epub_of tools) (spub_of tools) v.enroll_pub
        ≡ some v.frames_of
  frames-some v e same = cc (e, same)

  vectors-frames :
      (v : Vectors)
      → vectors tools ≡ some v
      → (opens : Opens crates.ciphers) (deadline : ℕ)
      → v.frames_of ≡ of_protocol opens deadline v.enroll_pub
  unfolding vectors
  vectors-frames v made opens deadline =
      let (first, e1, more1) = >>=-eq-some (tools.parse_addr (codes "192.168.1.24")) _ made in
      let (second, e2, more2) = >>=-eq-some (tools.parse_addr (codes "10.0.5.2")) _ more1 in
      let (enroll_pub, e3, more3) =
        >>=-eq-some (tools.generate fill_bytes (rng_seed tools)) _ more2 in
      let (fs, e4, same) =
        >>=-eq-some (frames crates (shared_of tools) (epub_of tools) (spub_of tools) enroll_pub) _
          more3 in
      let written = frames-some v e4 same in
      let agreed = frames_lem opens deadline v.enroll_pub in cc (written, agreed)

  -- If the generator does not panic, opening inverts sealing, and both sides of the key
  -- exchange of the two seeds come to one secret, then its frames are those of the protocol
  -- between its phone and its session; and on a connection that brings the phone's frames in
  -- time, with the codec, the key and the disk as for any phone that keeps to the protocol,
  -- `exchange` adds the key, and what it sends is the OFFER and the acknowledgment of the
  -- vectors, each behind its length.
  pub vectors-Enrolled :
      (v : Vectors) (deadline : ℕ) (c : Conn)
      → vectors tools ≡ some v
      → (opens : Opens crates.ciphers)
      → crates.diffie_hellman eph_seed (tools.public_key session_seed)
        ≡ crates.diffie_hellman session_seed (tools.public_key eph_seed)
      → (h : Willing crates (session deadline) (client v.enroll_pub) c)
      → (v.frames_of ≡ of_protocol opens deadline v.enroll_pub)
        × Enrolled crates
            (session deadline)
            (client v.enroll_pub)
            c
            h
            (c.sent ++ framed v.frames_of.offer_sealed ++ framed v.frames_of.done_sealed)
            (Exchange.exchange crates (session deadline) false (calm c))
  vectors-Enrolled v deadline c made opens commutes h =
      let same = vectors-frames v made opens deadline in
      (
        same,
        subst
            (λ (fs : FrameSet).
              Enrolled crates (session deadline) (client v.enroll_pub) c h
                (c.sent ++ framed fs.offer_sealed ++ framed fs.done_sealed)
                (Exchange.exchange crates (session deadline) false (calm c)))
            (sym same)
            (exchange-Enrolled crates (session deadline) (client v.enroll_pub) opens c false
              (record { secret = commutes; key = refl; credential = by_token refl refl }) h),
      )
