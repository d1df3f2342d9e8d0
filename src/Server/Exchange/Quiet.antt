-- ===== src/Server/Exchange/Quiet.antt =====
-- Steps of the handshake that touch neither the disk nor the operator.
use mpx_cli.Prelude.{
  ℕ, ◌≡◌, refl, ◌∙◌, Bool, true, false, Option, none, some, arith, if◌then◌else◌, Bytes,
}
use mpx_cli.Text.Utf8.{Text}
use mpx_cli.Frame.Io.{
  Result, ok, err, panic, FrameError, Io, pure, fail, lift, follow, ◌>>=◌, read_frame, write_frame,
  read_body,
}
use mpx_cli.Frame.Channel.{Channel, seal_s2c}
use mpx_cli.Frame.Value.{Value}
use mpx_cli.Server.Conn.{
  Crates, Conn, read_exact, read_by, write_step, write_all, write_to, phase_deadline,
}
use mpx_cli.Server.Exchange.{
  SessionConfig, required, ignore, is_ok, decode, open_frame, send, send_done, done_body, refuse,
  authorize, set_channel,
}

-- What such a step leaves alone.
pub record Same (c c' : Conn) : Type 0 where
  pub disk : c'.disk ≡ c.disk
  pub faults : c'.faults ≡ c.faults
  pub answer : c'.answer ≡ c.answer
  pub asked : c'.asked ≡ c.asked

pub Same-refl : (c : Conn) → Same c c
Same-refl c = record { disk = refl; faults = refl; answer = refl; asked = refl }

pub Same-trans : {c d e : Conn} → Same c d → Same d e → Same c e
Same-trans p q = record {
  disk = q.disk ∙ p.disk;
  faults = q.faults ∙ p.faults;
  answer = q.answer ∙ p.answer;
  asked = q.asked ∙ p.asked;
}

pub record Quiet {ℓ} {A : Type ℓ} (m : Io Conn A) : Type ℓ where
  pub at : (c : Conn) → Same c (m c).1

module _ {ℓ} {A : Type ℓ} where
  pub Quiet-pure : (a : A) → Quiet (pure {S = Conn} a)
  Quiet-pure a = record { at = λ c. Same-refl c }

  pub Quiet-fail : (e : FrameError) → Quiet (fail {S = Conn} {A = A} e)
  Quiet-fail e = record { at = λ c. Same-refl c }

  pub Quiet-lift : (r : Result A) → Quiet (lift {S = Conn} r)
  Quiet-lift r = record { at = λ c. Same-refl c }

  pub Quiet-required : (o : Option A) → Quiet (required o)
  Quiet-required none = record { at = λ c. Same-refl c }
  Quiet-required (some a) = record { at = λ c. Same-refl c }

  pub Quiet-if : (b : Bool) (m n : Io Conn A) → Quiet m → Quiet n → Quiet (if b then m else n)
  Quiet-if true m n p q = p
  Quiet-if false m n p q = q

module _ {ℓ κ} {A : Type ℓ} {B : Type κ} where
  Quiet-follow : (r : Result A) (f : A → Io Conn B) → ((a : A) → Quiet (f a)) → Quiet (follow r f)
  Quiet-follow (ok a) f h = record { at = λ c. (h a).at c }
  Quiet-follow (err e) f h = record { at = λ c. Same-refl c }
  Quiet-follow panic f h = record { at = λ c. Same-refl c }

  pub Quiet-bind :
      (m : Io Conn A) (f : A → Io Conn B) → Quiet m → ((a : A) → Quiet (f a)) → Quiet (m >>= f)
  Quiet-bind m f p h = record {
    at = λ c. Same-trans (p.at c) ((Quiet-follow (m c).0 f h).at (m c).1);
  }

ruleset quiet_rules = (Quiet-pure, Quiet-fail, Quiet-lift, Quiet-required, Quiet-if, Quiet-bind)

Quiet-read_exact : (deadline n : ℕ) → Quiet (read_exact deadline n)
unfolding read_exact
Quiet-read_exact deadline n = record {
  at = λ c. record { disk = refl; faults = refl; answer = refl; asked = refl };
}

pub Quiet-read_by : (deadline : ℕ) → Quiet (read_by deadline)
unfolding read_by read_frame read_body
Quiet-read_by deadline = search (quiet_rules, Quiet-read_exact deadline)

Quiet-write_all : (bs : Bytes) → Quiet (write_all bs)
unfolding write_all write_step
Quiet-write_all bs = record { at = λ c. ground arith }

pub Quiet-write_to : (frame : Bytes) → Quiet (write_to frame)
unfolding write_to write_frame
Quiet-write_to frame = search (quiet_rules, Quiet-write_all)

pub Quiet-ignore : (m : Io Conn (Unit {0})) → Quiet m → Quiet (ignore m)
Quiet-ignore m p = record { at = λ c. p.at c }

pub Quiet-is_ok : (m : Io Conn (Unit {0})) → Quiet m → Quiet (is_ok m)
Quiet-is_ok m p = record { at = λ c. p.at c }

pub Quiet-phase_deadline : (expiry budget : ℕ) → Quiet (phase_deadline expiry budget)
unfolding phase_deadline
Quiet-phase_deadline expiry budget = record { at = λ c. Same-refl c }

module _ (crates : Crates) (config : SessionConfig) where
  pub Quiet-decode : (bs : Bytes) → Quiet (decode crates config bs)
  unfolding decode
  Quiet-decode bs = search quiet_rules

  pub Quiet-open_frame : (sealed : Bytes) → Quiet (open_frame crates config sealed)
  unfolding open_frame
  Quiet-open_frame sealed = record {
    at = λ c. record { disk = refl; faults = refl; answer = refl; asked = refl };
  }

  pub Quiet-send : (body : Value) → Quiet (send crates config body)
  unfolding send
  Quiet-send body = record {
    at = λ c.
        let s = seal_s2c crates.ciphers c.channel (crates.cbor.to_bytes body) in
        Same-trans
          (let q : Same c (record c { channel = s.1 }) = record {
            disk = refl;
            faults = refl;
            answer = refl;
            asked = refl;
          } in
            q)
          ((Quiet-write_to s.0).at (record c { channel = s.1 }));
  }

  pub Quiet-send_done : (good : Bool) (s : Text) → Quiet (send_done crates config good s)
  unfolding send_done
  Quiet-send_done good s = Quiet-send (done_body crates config good s)

  pub Quiet-refuse {ℓ} :
      {A : Type ℓ} (message : Text) (result : A) → Quiet (refuse crates config message result)
  unfolding refuse
  Quiet-refuse message result =
      Quiet-bind _ _ (Quiet-ignore _ (Quiet-send_done false message)) (λ u. Quiet-pure result)

  pub Quiet-set_channel : (ch : Channel) → Quiet (set_channel crates config ch)
  unfolding set_channel
  Quiet-set_channel ch = record {
    at = λ c. record { disk = refl; faults = refl; answer = refl; asked = refl };
  }

  pub Quiet-authorize :
      (mode : Text) (proof epub : Bytes) (pin_retired : Bool)
      → Quiet (authorize crates config mode proof epub pin_retired)
  unfolding authorize
  Quiet-authorize mode proof epub pin_retired = search (quiet_rules, Quiet-refuse)
