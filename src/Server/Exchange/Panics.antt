-- ===== src/Server/Exchange/Panics.antt =====
-- What `exchange` of src/server.rs can panic on: a frame whose length no `u32` holds.
use mpx_cli.Prelude.{
  ℕ, ◌≤◌, ◌≡◌, refl, ap, sym, ◌∙◌, Bool, true, false, not, Option, none, some, List, [], ◌∷◌,
  length, arith, if◌then◌else◌, equal, ◌==◌, Bytes,
}
use mpx_cli.Text.Utf8
use mpx_cli.Text.Utf8.{Text}
use mpx_cli.Text.Codes.{codes}
use mpx_cli.Text.Fields.{trim, split_whitespace}
use mpx_cli.Frame.Io.{crypto, Result, ok, err, Io, ◌>>=◌}
use mpx_cli.Frame.Channel.{Channel, bump, pin_proof, nonce, open_c2s}
use mpx_cli.Frame.Value.{Value, map_get, get_text, get_bytes}
use mpx_cli.Authkeys.Disk.{Outcome, done, failed}
use mpx_cli.Authkeys.{AddOutcome, added, already_present, ensure_line}
use mpx_cli.Server.Conn.{postauth_timeout, preauth_timeout, Crates, Conn, phase_deadline}
use mpx_cli.Server.Exchange
use mpx_cli.Server.Exchange.Fine.{
  IsValue, Sound, Fine, Fine-pure, Fine-required, Sound-Fine, Sound-bind, Fine-if, Fine-read_by,
}
use mpx_cli.Server.Exchange.Bodies.{
  Fits, offered, refused, unwritten, acknowledged, known, Fine-send, Fine-refuse, Fine-acknowledge,
}

module _ (crates : Crates) (config : Exchange.SessionConfig) (b : Conn)
    (fits : Fits crates config b.disk.target) where
  after_store-IsValue :
      (t k device : Text) (o : Outcome AddOutcome) (c : Conn)
      → (ensure_line b.faults t k (Exchange.comment_for crates config device) b.disk).0 ≡ o
      → IsValue
          (Exchange.after_store crates config device
            (Exchange.comment_for crates config device)
            o
            c).0
  unfolding Exchange.after_store
  after_store-IsValue t k device (done added) c e =
      ((Fine-acknowledge crates config b fits c device _ (acknowledged device)).at c (refl, refl)).0
  after_store-IsValue t k device (done (already_present old)) c e =
      ((Fine-acknowledge crates config b fits c device old
          (known b.faults b.disk t k _ old refl e)).at
        c (refl, refl)).0
  after_store-IsValue t k device (failed e) c same =
      ((Fine-refuse crates config b fits c _ Exchange.ignored (unwritten e)).at c (refl, refl)).0

  store-Sound :
      (t k device : Text)
      → Sound b (
          Exchange.store_key crates config t k (Exchange.comment_for crates config device)
          >>= Exchange.after_store crates config device (Exchange.comment_for crates config device))
  unfolding Exchange.store_key
  store-Sound t k device = record {
    at = λ c l.
        let comment = Exchange.comment_for crates config device in
        let r = ensure_line c.faults t k comment c.disk in
        after_store-IsValue t k device r.0 (record c { disk = r.1 })
          (ap (λ fs. (ensure_line fs t k comment b.disk).0) (sym l.1)
            ∙ ap (λ d. (ensure_line c.faults t k comment d).0) (sym l.0));
  }

  Fine-key_fields : (words : List Text) → Fine b (Exchange.key_fields crates config words)
  unfolding Exchange.key_fields
  Fine-key_fields [] = record { at = λ c l. (tt, l) }
  Fine-key_fields (t ∷ []) = record { at = λ c l. (tt, l) }
  Fine-key_fields (t ∷ k ∷ rest) = record { at = λ c l. (tt, l) }

  enroll_key-Sound :
      (device : Text) (key : crates.Key) → Sound b (Exchange.enroll_key crates config device key)
  unfolding Exchange.enroll_key
  enroll_key-Sound device key =
      Sound-bind b _ _ (Fine-required b (crates.to_openssh key)) (λ canonical.
        Sound-bind b _ _ (Fine-key_fields (split_whitespace canonical))
          (λ fields. store-Sound fields.0 fields.1 device))

  refuse-Sound {ℓ} :
      {A : Type ℓ} (message : Text) (result : A)
      → length message ≤ 64
      → Sound b (Exchange.refuse crates config message result)
  refuse-Sound message result short =
      Sound-Fine b (Fine-refuse crates config b fits b message result (refused message short))

  Fine-expired : Fine b (Exchange.expired crates config)
  unfolding Exchange.expired
  Fine-expired = record { at = λ c l. (tt, l) }

  Fine-confirm : (device : Text) → Fine b (Exchange.confirm crates config device)
  unfolding Exchange.confirm
  Fine-confirm device = record { at = λ c l. (tt, l) }

  Fine-phase_deadline : (expiry budget : ℕ) → Fine b (phase_deadline expiry budget)
  unfolding phase_deadline
  Fine-phase_deadline expiry budget = record { at = λ c l. (tt, l) }

  Fine-set_channel : (ch : Channel) → Fine b (Exchange.set_channel crates config ch)
  unfolding Exchange.set_channel
  Fine-set_channel ch = record { at = λ c l. (tt, l) }

  last_check-Sound :
      (device : Text) (key : crates.Key) (late : Bool)
      → Sound b (Exchange.last_check crates config device key late)
  unfolding Exchange.last_check
  last_check-Sound device key true = refuse-Sound _ _ (omega arith)
  last_check-Sound device key false = enroll_key-Sound device key

  answered-Sound :
      (device : Text) (key : crates.Key) (yes_no : Bool)
      → Sound b (Exchange.answered crates config device key yes_no)
  unfolding Exchange.answered
  answered-Sound device key false = refuse-Sound _ _ (omega arith)
  answered-Sound device key true = Sound-bind b _ _ Fine-expired (last_check-Sound device key)

  first_check-Sound :
      (device : Text) (key : crates.Key) (late : Bool)
      → Sound b (Exchange.first_check crates config device key late)
  unfolding Exchange.first_check
  first_check-Sound device key true = refuse-Sound _ _ (omega arith)
  first_check-Sound device key false =
      Sound-bind b _ _ (Fine-confirm device) (answered-Sound device key)

  Sound-if {ℓ} :
      {A : Type ℓ} (c : Bool) {m n : Io Conn A}
      → Sound b m
      → Sound b n
      → Sound b (if c then m else n)
  Sound-if true p q = p
  Sound-if false p q = q

  accept_key-Sound :
      (device : Text) (key : Option crates.Key)
      → Sound b (Exchange.accept_key crates config device key)
  unfolding Exchange.accept_key
  accept_key-Sound device none = refuse-Sound _ _ (omega arith)
  accept_key-Sound device (some key) =
      Sound-if (not (Exchange.contains (codes "ed25519") (crates.algorithm key)))
        (refuse-Sound _ _ (omega arith))
        (Sound-bind b _ _ Fine-expired (first_check-Sound device key))

  Fine-decode : (bs : Bytes) → Fine b (Exchange.decode crates config bs)
  unfolding Exchange.decode
  Fine-decode bs = Fine-required b (crates.cbor.from_bytes bs)

  open_c2s-IsValue : (ch : Channel) (sealed : Bytes) → IsValue (open_c2s crates.ciphers ch sealed).0
  unfolding open_c2s
  open_c2s-IsValue ch sealed = go (crates.ciphers.decrypt ch.c2s (nonce ch.seq_c2s) sealed)
    where
      go :
          (o : Option Bytes)
          → IsValue
              (elim o as (λ x. Result Bytes × Channel) [
                | none ↦ (err crypto, ch)
                | some plain ↦ (ok plain, record ch { seq_c2s = bump ch.seq_c2s })
              ]).0
      go none = tt
      go (some plain) = tt

  Fine-open_frame : (sealed : Bytes) → Fine b (Exchange.open_frame crates config sealed)
  unfolding Exchange.open_frame
  Fine-open_frame sealed = record { at = λ c l. (open_c2s-IsValue c.channel sealed, l) }

  admit-Sound : (v : Option Exchange.ConnectionResult) → Sound b (Exchange.admit crates config v)
  unfolding Exchange.admit
  admit-Sound (some result) = Sound-Fine b (Fine-pure b result)
  admit-Sound none =
      Sound-bind b _ _ (Fine-phase_deadline config.deadline postauth_timeout) (λ postauth.
        Sound-bind b _ _ (Fine-send crates config b fits b _ offered) (λ u.
          Sound-bind b _ _ (Fine-read_by b postauth) (λ sealed.
            Sound-bind b _ _ (Fine-open_frame sealed) (λ plain.
              Sound-bind b _ _ (Fine-decode plain) (λ enroll.
                Sound-bind b _ _ (Fine-required b (get_text enroll (codes "pubkey")))
                  (λ line. accept_key-Sound _ (crates.from_openssh (trim line))))))))

  Fine-authorize :
      (mode : Text) (proof epub : Bytes) (ret : Bool)
      → Fine b (Exchange.authorize crates config mode proof epub ret)
  unfolding Exchange.authorize
  Fine-authorize mode proof epub ret = Fine-if b (equal mode (codes "token")) (Fine-pure b _) (
      Fine-if b (equal mode (codes "pin"))
        (Fine-if b ret (Fine-refuse crates config b fits b _ _ (refused _ (omega arith))) (
          Fine-if b
            (equal proof (pin_proof crates.ciphers (Utf8.as_bytes config.pin) epub config.spub))
            (Fine-pure b _) (Fine-refuse crates config b fits b _ _ (refused _ (omega arith)))))
        (Fine-pure b _))

  hello-Sound :
      (preauth : ℕ) (mode : Text) (epub shared : Bytes) (ret : Bool)
      → Sound b (Exchange.hello crates config preauth mode epub shared ret)
  unfolding Exchange.hello
  hello-Sound preauth mode epub shared ret =
      Sound-if (not (crates.was_contributory shared)) (Sound-Fine b (Fine-pure b _)) (
        Sound-bind b _ _ (Fine-set_channel _) (λ u.
          Sound-bind b _ _ (Fine-read_by b preauth) (λ sealed.
            Sound-bind b _ _ (Fine-open_frame sealed) (λ plain.
              Sound-bind b _ _ (Fine-decode plain) (λ message.
                Sound-bind b _ _ (Fine-required b (get_bytes message (codes "proof")))
                  (λ proof. Sound-bind b _ _ (Fine-authorize mode proof epub ret) admit-Sound))))))

  greet-Sound :
      (preauth : ℕ) (intro : Value) (ret : Bool)
      → Sound b (Exchange.greet crates config preauth intro ret)
  unfolding Exchange.greet
  greet-Sound preauth intro ret =
      Sound-if (not (Exchange.version_of (map_get intro (codes "v")) == 1))
        (Sound-Fine b (Fine-pure b _))
        (Sound-bind b _ _ (Fine-required b (Exchange.array_32 (get_bytes intro (codes "epub"))))
          (λ epub.
            Sound-bind b _ _ (Fine-required b (get_text intro (codes "mode")))
              (λ mode. hello-Sound preauth mode epub _ ret)))

  -- If each frame that can be written here has a length of 32 bits, then `exchange` returns a result
  -- or an error.
  pub exchange-IsValue : (ret : Bool) → IsValue (Exchange.exchange crates config ret b).0
  unfolding Exchange.exchange
  exchange-IsValue ret =
      let whole = Sound-bind b _ _ (Fine-phase_deadline config.deadline preauth_timeout) (λ preauth.
        Sound-bind b _ _ (Fine-read_by b preauth) (λ frame.
          Sound-bind b _ _ (Fine-decode frame) (λ intro. greet-Sound preauth intro ret))) in
      whole.at b (refl, refl)
