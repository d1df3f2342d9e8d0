-- ===== src/Server/Exchange/Walk.antt =====
-- Through the first phase of `exchange` of src/server.rs, INTRO and HELLO, for any property of how a
-- connection ends: what is to be shown of each step, and that the whole has the property then.
use mpx_cli.Prelude.{
  ℕ, ◌≡◌, refl, subst, Bool, true, false, not, Option, none, some, if◌then◌else◌, ◌==◌, ==_iff,
  Bytes,
}
use mpx_cli.Text.Utf8.{Text}
use mpx_cli.Text.Codes.{codes}
use mpx_cli.Frame.Io.{Result, ok, err, panic, FrameError, malformed, Io, pure, follow, ◌>>=◌, ◌>>◌}
use mpx_cli.Frame.Channel.{Channel, derive}
use mpx_cli.Frame.Value.{Value, get_text, get_bytes, map_get}
use mpx_cli.Server.Conn.{Crates, Conn, read_by, phase_deadline, preauth_timeout}
use mpx_cli.Server.Exchange.Heard.{until, read_at, opened_at, keyed, greeted, Hello}
use mpx_cli.Server.Exchange.Granted.{Granted, authorize-Granted}
use mpx_cli.Server.Exchange

module _ (crates : Crates) (config : Exchange.SessionConfig) (ret : Bool) (b : Conn) where
  -- What holds of the states of the first phase of a connection from `b`, and of its end.
  pub record Walk : Type 1 where
    pub R : Conn → Type 0
    pub G : Result Exchange.ConnectionResult → Conn → Type 0
    pub begins : R b
    pub fails : (e : FrameError) {c : Conn} → R c → G (err e) c
    pub panics : {c : Conn} → R c → G panic c
    pub ignores : {c : Conn} → R c → G (ok Exchange.ignored) c
    pub reads :
        {c : Conn} → R c → R (read_at crates config (until crates config b preauth_timeout) c)
    pub opens : (sealed : Bytes) {c : Conn} → R c → R (opened_at crates config sealed c)
    pub rekeys : (ch : Channel) {c : Conn} → R c → R (record c { channel = ch })
    pub authorizes :
        (mode : Text) (proof epub : Bytes) {c : Conn}
        → R c
        → R (Exchange.authorize crates config mode proof epub ret c).1
    pub admits :
        (v : Option Exchange.ConnectionResult) {mode : Text} {epub proof sealed : Bytes} {c : Conn}
        → Hello crates config b mode epub proof sealed
        → R (greeted crates config b epub sealed)
        → R c
        → Granted crates config ret mode proof epub (greeted crates config b epub sealed) (ok v) c
        → G (Exchange.admit crates config v c).0 (Exchange.admit crates config v c).1

  module _ (walk : Walk) where
    abbrev Goes : Io Conn Exchange.ConnectionResult → Conn → Type 0
    Goes m d = walk.G (m d).0 (m d).1

    G-bind {ℓ} :
        {A : Type ℓ} (d : Conn) (m : Io Conn A) (f : A → Io Conn Exchange.ConnectionResult)
        → walk.R (m d).1
        → ((a : A) → (m d).0 ≡ ok a → walk.R (m d).1 → Goes (f a) (m d).1)
        → Goes (m >>= f) d
    G-bind {A} d m f t h = go (m d).0 refl
      where
        go : (r : Result A) → (m d).0 ≡ r → walk.G (follow r f (m d).1).0 (follow r f (m d).1).1
        go (ok a) p = h a p t
        go (err x) p = walk.fails x t
        go panic p = walk.panics t

    G-required {ℓ} :
        {A : Type ℓ} (d : Conn) (o : Option A) (f : A → Io Conn Exchange.ConnectionResult)
        → walk.R d
        → ((a : A) → o ≡ some a → Goes (f a) d)
        → Goes (Exchange.required o >>= f) d
    G-required d none f s h = walk.fails malformed s
    G-required d (some a) f s h = h a refl

    G-deadline :
        (d : Conn) (budget : ℕ) (f : ℕ → Io Conn Exchange.ConnectionResult)
        → Goes (f (until crates config d budget)) d
        → Goes (phase_deadline config.deadline budget >>= f) d
    unfolding phase_deadline
    G-deadline d budget f j = j

    G-set_channel :
        (d : Conn) (ch : Channel) (m : Io Conn Exchange.ConnectionResult)
        → Goes m (record d { channel = ch })
        → Goes (Exchange.set_channel crates config ch >> m) d
    unfolding Exchange.set_channel
    G-set_channel d ch m j = j

    -- The first phase behind INTRO.
    module _ (frame : Bytes) (intro : Value)
        (read : (read_by (until crates config b preauth_timeout) b).0 ≡ ok frame)
        (decoded : crates.cbor.from_bytes frame ≡ some intro)
        (same : walk.R (read_at crates config (until crates config b preauth_timeout) b)) where
      abbrev preauth : ℕ
      preauth = until crates config b preauth_timeout

      abbrev behind_intro : Conn
      behind_intro = read_at crates config preauth b

      -- HELLO, once the keys are set.
      abbrev verified : Text → Bytes → Io Conn Exchange.ConnectionResult
      verified mode epub = read_by preauth >>= λ sealed.
          Exchange.open_frame crates config sealed >>= λ plain.
          Exchange.decode crates config plain >>= λ message.
          Exchange.required (get_bytes message (codes "proof")) >>= λ proof.
          Exchange.authorize crates config mode proof epub ret >>= λ verdict.
          Exchange.admit crates config verdict

      module _ (mode : Text) (epub : Bytes)
          (version : Exchange.version_of (map_get intro (codes "v")) ≡ 1)
          (epub_said : Exchange.array_32 (get_bytes intro (codes "epub")) ≡ some epub)
          (mode_said : get_text intro (codes "mode") ≡ some mode) where
        abbrev shared : Bytes
        shared = crates.diffie_hellman config.secret epub

        verified-G :
            crates.was_contributory shared ≡ true
            → Goes (verified mode epub) (keyed crates config b epub)
        unfolding Exchange.open_frame Exchange.decode
        verified-G contributory =
            G-bind (keyed crates config b epub) (read_by preauth) _
              (walk.reads (walk.rekeys (derive crates.ciphers shared epub config.spub) same))
              (λ sealed hello_read s.
                G-bind _ (Exchange.open_frame crates config sealed) _ (walk.opens sealed s)
                  (λ plain opened s.
                    G-required _ (crates.cbor.from_bytes plain) _ s (λ hello hello_decoded.
                      G-required _ (get_bytes hello (codes "proof")) _ s (λ proof proof_said.
                        let said : Hello crates config b mode epub proof sealed = record {
                          intro_frame = frame;
                          intro_read = read;
                          intro = intro;
                          intro_decoded = decoded;
                          version_said = version;
                          epub_said = epub_said;
                          mode_said = mode_said;
                          contributory = contributory;
                          hello_read = hello_read;
                          plain = plain;
                          hello_opened = opened;
                          hello = hello;
                          hello_decoded = hello_decoded;
                          proof_said = proof_said;
                        } in
                        let d = greeted crates config b epub sealed in
                        G-bind d (Exchange.authorize crates config mode proof epub ret) _
                          (walk.authorizes mode proof epub s)
                          (λ v p t. walk.admits v said s t (
                            subst
                              (λ r.
                                Granted crates config ret mode proof epub d r
                                  (Exchange.authorize crates config mode proof epub ret d).1)
                              p (authorize-Granted crates config ret mode proof epub d)))))))

        hello-G : Goes (Exchange.hello crates config preauth mode epub shared ret) behind_intro
        unfolding Exchange.hello
        hello-G = go (crates.was_contributory shared) refl
          where
            go :
                (strong : Bool)
                → crates.was_contributory shared ≡ strong
                → Goes
                    (if not strong
                      then pure Exchange.ignored
                      else (Exchange.set_channel crates config
                            (derive crates.ciphers shared epub config.spub)
                          >> verified mode epub))
                    behind_intro
            go false p = walk.ignores same
            go true p = G-set_channel behind_intro _ (verified mode epub) (verified-G p)

      greet-G : Goes (Exchange.greet crates config preauth intro ret) behind_intro
      unfolding Exchange.greet
      greet-G =
          go (Exchange.version_of (map_get intro (codes "v")) == 1)
            (==_iff (Exchange.version_of (map_get intro (codes "v"))) 1).0
        where
          go :
              (current : Bool)
              → (current ≡ true → Exchange.version_of (map_get intro (codes "v")) ≡ 1)
              → Goes
                  (if not current
                    then pure Exchange.ignored
                    else (Exchange.required (Exchange.array_32 (get_bytes intro (codes "epub")))
                        >>= λ epub. Exchange.required (get_text intro (codes "mode")) >>= λ mode.
                            Exchange.hello crates config preauth mode epub
                              (crates.diffie_hellman config.secret epub)
                              ret))
                  behind_intro
          go false p = walk.ignores same
          go true p =
              G-required behind_intro (Exchange.array_32 (get_bytes intro (codes "epub"))) _ same
                (λ epub epub_said.
                  G-required behind_intro (get_text intro (codes "mode")) _ same
                    (λ mode mode_said. hello-G mode epub (p refl) epub_said mode_said))

    pub walk-exchange : Goes (Exchange.exchange crates config ret) b
    unfolding Exchange.exchange Exchange.decode
    walk-exchange =
        let preauth = until crates config b preauth_timeout in
        G-deadline b preauth_timeout _ (
          G-bind b (read_by preauth) _ (walk.reads walk.begins) (λ frame read s.
            G-required (read_at crates config preauth b) (crates.cbor.from_bytes frame) _ s
              (λ intro decoded. greet-G frame intro read decoded s)))
