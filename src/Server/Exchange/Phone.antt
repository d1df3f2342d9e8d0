-- ===== src/Server/Exchange/Phone.antt =====
-- What a phone says that keeps to the protocol, and the steps of the handshake that go well.
use mpx_cli.Prelude.{
  ℕ, ◌+◌, ◌^◌, ◌≤◌, ◌<◌, ◌≡◌, refl, ap, ◌∙◌, inl, inr, true, none, some, append_assoc, List, [],
  ◌∷◌, ◌++◌, arith, lt→leb, min, length, equal, lt→ltb, to_be_bytes, Bytes,
}
use mpx_cli.Text.Utf8.{Text}
use mpx_cli.Text.Codes.{codes}
use mpx_cli.Text.Lines.{lines}
use mpx_cli.Text.Fields.{split_whitespace}
use mpx_cli.Frame.Io.{
  Result, ok, Io, pure, follow, ◌>>=◌, read_frame, read_body, write_frame, frame_header,
}
use mpx_cli.Frame.Framing.{read_slice}
use mpx_cli.Frame.Channel.{Ciphers, Channel, nonce, seal_c2s, seal_s2c, open_c2s, open_s2c}
use mpx_cli.Frame.Value.{Value, integer, bytes, text, map, end, entry, map_get, get_text, get_bytes}
use mpx_cli.Authkeys.Disk.{done}
use mpx_cli.Authkeys.Replace.{no_faults}
use mpx_cli.Authkeys.Enroll.{Holds, ensure_line-no_faults}
use mpx_cli.Authkeys.{added, find_key, ensure_line}
use mpx_cli.Server.Conn.{
  Crates, Conn, Segment, read_exact, read_by, write_to, write_all, write_step, phase_deadline,
}
use mpx_cli.Server.Conn.Stream.{stream, IsTimely, read_by-Agrees_early}
use mpx_cli.Server.Exchange
use mpx_cli.Server.Exchange.Quick.{Quick-read_by}

-- One step of a chain.
pub chain {ℓ κ} :
    {A : Type ℓ} {B : Type κ} (m : Io Conn A) (f : A → Io Conn B) {c d : Conn} {a : A}
    → m c ≡ (ok a, d)
    → (m >>= f) c ≡ f a d
chain m f e = ap (λ r. follow r.0 f r.1) e

-- A read of a frame, in time.
pub record Got (limit : ℕ) (c : Conn) (frame rest : Bytes) (r : Result Bytes × Conn) : Type 0 where
  pub now : ℕ
  pub inbound : List Segment
  pub later : c.now ≤ now
  pub read : r ≡ (ok frame, record c { now = now; inbound = inbound })
  pub left : stream inbound ≡ rest
  pub early : now < limit
  pub timely : IsTimely limit inbound

read_by-shape :
    (deadline : ℕ) (c : Conn)
    → (read_by deadline c).1
      ≡ record c { now = (read_by deadline c).1.now; inbound = (read_by deadline c).1.inbound }
unfolding read_by read_frame read_body read_exact
read_by-shape deadline c = ground arith

pub phase_of :
    (expiry budget : ℕ) (c : Conn)
    → phase_deadline expiry budget c ≡ (ok (min (c.now + budget) expiry), c)
unfolding phase_deadline
phase_of expiry budget c = refl

module _ (limit deadline : ℕ) (le : limit ≤ deadline) where
  pub read_by-Got :
      (c : Conn) (frame rest : Bytes)
      → c.now < limit
      → IsTimely limit c.inbound
      → read_slice (stream c.inbound) ≡ (ok frame, rest)
      → Got limit c frame rest (read_by deadline c)
  read_by-Got c frame rest h k q =
      let r = read_by-Agrees_early limit deadline le c frame rest h k q in
      record {
        now = (read_by deadline c).1.now;
        inbound = (read_by deadline c).1.inbound;
        later = ((Quick-read_by deadline deadline (omega arith)).at c).later;
        read =
            ap (λ x. (x, (read_by deadline c).1)) r.result
            ∙ ap (λ d. (ok frame, d)) (read_by-shape deadline c);
        left = r.left;
        early = r.early;
        timely = r.timely;
      }

-- Opening inverts sealing.
abbrev pub Opens : Ciphers → Type 0
Opens ciphers =
    (key n plain : Bytes) → ciphers.decrypt key n (ciphers.encrypt key n plain) ≡ some plain

pub open_c2s-seal_c2s :
    (ciphers : Ciphers) (opens : Opens ciphers) (ch : Channel) (plain : Bytes)
    → open_c2s ciphers ch (seal_c2s ciphers ch plain).0 ≡ (ok plain, (seal_c2s ciphers ch plain).1)
unfolding open_c2s seal_c2s
open_c2s-seal_c2s ciphers opens ch plain = rw (opens ch.c2s (nonce ch.seq_c2s) plain, open_c2s) refl

pub open_s2c-seal_s2c :
    (ciphers : Ciphers) (opens : Opens ciphers) (ch : Channel) (plain : Bytes)
    → open_s2c ciphers ch (seal_s2c ciphers ch plain).0 ≡ (ok plain, (seal_s2c ciphers ch plain).1)
unfolding open_s2c seal_s2c
open_s2c-seal_s2c ciphers opens ch plain = rw (opens ch.s2c (nonce ch.seq_s2c) plain, open_s2c) refl

-- A phone: its ephemeral key, what it takes the secret and the key of the session for, the
-- credential that it presents, and the key that it asks to be enrolled.
pub record Phone : Type 0 where
  pub epub : Bytes
  pub shared : Bytes
  pub spub : Bytes
  pub mode : Text
  pub proof : Bytes
  pub line : Text
  pub device : Text

-- What it says.
abbrev pub intro_of : Phone → Value
intro_of p = map (
    entry (text (codes "v")) (integer 1)
      (entry (text (codes "epub")) (bytes p.epub) (entry (text (codes "mode")) (text p.mode) end)))

abbrev pub hello_of : Phone → Value
hello_of p = map (entry (text (codes "proof")) (bytes p.proof) end)

abbrev pub enroll_of : Phone → Value
enroll_of p = map (
    entry (text (codes "pubkey")) (text p.line) (entry (text (codes "device")) (text p.device) end))

module _ (p : Phone) where
  pub intro_version : Exchange.version_of (map_get (intro_of p) (codes "v")) ≡ 1
  unfolding map_get equal
  intro_version = refl

  pub intro_epub :
      length p.epub ≡ 32 → Exchange.array_32 (get_bytes (intro_of p) (codes "epub")) ≡ some p.epub
  unfolding get_bytes map_get equal
  intro_epub h = rw h refl

  pub intro_mode : get_text (intro_of p) (codes "mode") ≡ some p.mode
  unfolding get_text map_get equal
  intro_mode = refl

  pub hello_proof : get_bytes (hello_of p) (codes "proof") ≡ some p.proof
  unfolding get_bytes map_get equal
  hello_proof = refl

  pub enroll_pubkey : get_text (enroll_of p) (codes "pubkey") ≡ some p.line
  unfolding get_text map_get equal
  enroll_pubkey = refl

  pub enroll_device : get_text (enroll_of p) (codes "device") ≡ some p.device
  unfolding get_text map_get equal
  enroll_device = refl

-- A frame as it is written.
abbrev pub framed : Bytes → Bytes
framed frame = to_be_bytes 4 (length frame) ++ frame

-- A connection whose writes go well, with an operator who says yes, and a disk on which no call fails.
abbrev pub calm : Conn → Conn
calm c = record c { writes = []; answer = true; faults = no_faults }

module _ (crates : Crates) (config : Exchange.SessionConfig) where
  -- The frame that `send` writes, and the channel behind it.
  abbrev pub sealed_by : Channel → Value → Bytes × Channel
  sealed_by ch body = seal_s2c crates.ciphers ch (crates.cbor.to_bytes body)

  pub send-calm :
      (c : Conn) (body : Value)
      → c.writes ≡ []
      → length (sealed_by c.channel body).0 < 2 ^ 32
      → Exchange.send crates config body c ≡ (
        ok tt,
        record c {
          channel = (sealed_by c.channel body).1;
          sent = c.sent ++ framed (sealed_by c.channel body).0;
        },
      )
  unfolding Exchange.send write_to write_frame write_all write_step frame_header
  send-calm c body w h =
      let frame = (sealed_by c.channel body).0 in
      rw (lt→ltb (length frame) (2 ^ 32) h) (
        rw w (
          ap
            (λ sent. (
              ok tt,
              record c { writes = []; channel = (sealed_by c.channel body).1; sent = sent },
            ))
            (append_assoc c.sent (to_be_bytes 4 (length frame)) frame)))

  -- A new key, from its canonical form to the acknowledgment.
  pub enroll_new_key :
      (device : Text) (key : crates.Key) (canonical t k : Text) (rest : List Text) (s : Text)
      (d : Conn)
      → crates.to_openssh key ≡ some canonical
      → split_whitespace canonical ≡ t ∷ k ∷ rest
      → d.writes ≡ []
      → d.faults ≡ no_faults
      → Holds d.disk s
      → find_key k (lines s) ≡ none
      → (let comment = Exchange.comment_for crates config device in
          length (sealed_by d.channel (Exchange.done_body crates config true comment)).0 < 2 ^ 32)
      → let comment = Exchange.comment_for crates config device in
        (c' : Conn) × (Exchange.enroll_key crates config device key d
          ≡ (ok (Exchange.enrolled device comment true), c'))
        × (ensure_line no_faults t k comment d.disk ≡ (done added, c'.disk))
        × (c'.sent
            ≡ d.sent
              ++ framed (sealed_by d.channel (Exchange.done_body crates config true comment)).0)
  unfolding Exchange.enroll_key Exchange.key_fields Exchange.store_key Exchange.after_store
      Exchange.acknowledge Exchange.send_done
  enroll_new_key device key canonical t k rest s d a b w f h fresh size =
      let comment = Exchange.comment_for crates config device in
      elim (ensure_line-no_faults d.disk s t k comment h) [
        | inl (c', found, e) ↦ absurd (cc (found, fresh))
        | inr (d', e) ↦
            let written =
              send-calm (record d { disk = d' }) (Exchange.done_body crates config true comment) w
                size in
            (
              record d {
                disk = d';
                channel = (sealed_by d.channel (Exchange.done_body crates config true comment)).1;
                sent =
                    d.sent
                    ++ framed
                        (sealed_by d.channel (Exchange.done_body crates config true comment)).0;
              },
              chain (Exchange.required (crates.to_openssh key)) _
                    (ap (λ o. Exchange.required o d) a)
                  ∙ chain (Exchange.key_fields crates config (split_whitespace canonical)) _
                      (ap (λ fs. Exchange.key_fields crates config fs d) b)
                  ∙ chain (Exchange.store_key crates config t k comment)
                      (λ stored. Exchange.after_store crates config device comment stored)
                      (ap (λ r. (ok r.0, record d { disk = r.1 }))
                        (ap (λ fs. ensure_line fs t k comment d.disk) f ∙ e))
                  ∙ chain (Exchange.is_ok (Exchange.send_done crates config true comment))
                      (λ good. pure (Exchange.enrolled device comment good))
                      (ap (λ r. (Exchange.succeeded r.0, r.1)) written),
              e,
              refl,
            )
      ]

  pub accept_in_time :
      (device : Text) (key : crates.Key) (d : Conn)
      → Exchange.contains (codes "ed25519") (crates.algorithm key) ≡ true
      → d.answer ≡ true
      → d.now + d.answer_time < config.deadline
      → Exchange.accept_key crates config device (some key) d
        ≡ Exchange.enroll_key crates config device key
            (record d { now = d.now + d.answer_time; asked = d.asked ++ (device ∷ []) })
  unfolding Exchange.accept_key Exchange.first_check Exchange.confirm Exchange.answered
      Exchange.last_check Exchange.expired
  accept_in_time device key d a b h = rw a (
      rw (lt→leb config.deadline d.now (omega (arith, h)))
        (rw b (rw (lt→leb config.deadline (d.now + d.answer_time) h) refl)))
