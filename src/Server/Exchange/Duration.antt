-- ===== src/Server/Exchange/Duration.antt =====
-- The time that a connection takes in `exchange` of src/server.rs: what a stranger gets, and what
-- a peer with a credential gets.
use mpx_cli.Prelude.{
  ℕ, ◌+◌, ◌≤◌, ◌≡◌, refl, ◌⊎◌, inl, inr, Bool, true, false, not, Option, none, some, [], ◌∷◌, ◌++◌,
  arith, if◌then◌else◌, leb, min, Bytes,
}
use Prim.Native.Nat.{max}
use mpx_cli.Text.Utf8.{Text}
use mpx_cli.Text.Codes.{codes}
use mpx_cli.Text.Fields.{trim}
use mpx_cli.Frame.Io.{Result, ok, err, panic, Io, follow, ◌>>=◌}
use mpx_cli.Frame.Value.{get_text}
use mpx_cli.Server.Conn.{Crates, Conn, phase_deadline, preauth_timeout, postauth_timeout}
use mpx_cli.Server.Exchange
use mpx_cli.Server.Exchange.Heard.{greeted, Hello, Credential}
use mpx_cli.Server.Exchange.Granted.{Granted}
use mpx_cli.Server.Exchange.Walk.{Walk, walk-exchange}
use mpx_cli.Server.Exchange.Timed.{total, Timed, Timed-refl, Timed-trans, Quick, Quick-required}
use mpx_cli.Server.Exchange.Quick.{
  Quick-phase_deadline, Quick-read_by, Quick-open_frame, Quick-decode, Quick-set_channel,
  Quick-send, Quick-refuse, Quick-authorize, Quick-answered,
}

-- A step during which the operator may have been asked.
pub record Slow (limit : ℕ) (c c' : Conn) : Type 0 where
  pub later : c.now ≤ c'.now
  pub bound : c'.now + total c'.writes ≤ max limit c.now + total c.writes + c.answer_time

Timed-Slow : (limit : ℕ) {c d : Conn} → Timed limit c d → Slow limit c d
Timed-Slow limit t = record { later = t.later; bound = omega (arith, t.bound) }

Timed-weaken : (k limit : ℕ) {c d : Conn} → k ≤ limit → Timed k c d → Timed limit c d
Timed-weaken k limit h t = record {
  later = t.later;
  writes = t.writes;
  bound = omega (arith, t.bound, h);
  answer_time = t.answer_time;
}

phase_deadline-le :
    (expiry budget a : ℕ) (c : Conn)
    → (phase_deadline expiry budget c).0 ≡ ok a
    → (a ≤ expiry) × (a ≤ c.now + budget)
unfolding phase_deadline
phase_deadline-le expiry budget a c e = ground arith

module _ (crates : Crates) (config : Exchange.SessionConfig) where
  -- The steps from the parsed key on, for a peer that is let on.
  module _ (b : Conn) where
    abbrev Slowly : Io Conn Exchange.ConnectionResult → Conn → Type 0
    Slowly m d = Slow config.deadline b (m d).1

    of_brief_step :
        {d : Conn} (m : Io Conn Exchange.ConnectionResult)
        → Timed config.deadline b d
        → Quick config.deadline m
        → Slowly m d
    of_brief_step {d} m t q = Timed-Slow config.deadline (Timed-trans config.deadline t (q.at d))

    first_check-Slow :
        (device : Text) (key : crates.Key) (late : Bool) (d : Conn)
        → Timed config.deadline b d
        → Slowly (Exchange.first_check crates config device key late) d
    unfolding Exchange.first_check Exchange.confirm
    first_check-Slow device key true d t =
        of_brief_step _ t (Quick-refuse config.deadline crates config _ _)
    first_check-Slow device key false d t =
        let d' = record d { now = d.now + d.answer_time; asked = d.asked ++ (device ∷ []) } in
        let q = (Quick-answered config.deadline crates config device key d.answer).at d' in
        record {
          later = omega (arith, t.later, q.later);
          bound = omega (arith, t.bound, t.writes, q.bound, t.answer_time);
        }

    accept_key-Slow :
        (device : Text) (key : Option crates.Key) (d : Conn)
        → Timed config.deadline b d
        → Slowly (Exchange.accept_key crates config device key) d
    unfolding Exchange.accept_key Exchange.expired
    accept_key-Slow device none d t =
        of_brief_step _ t (Quick-refuse config.deadline crates config _ _)
    accept_key-Slow device (some key) d t =
        go (not (Exchange.contains (codes "ed25519") (crates.algorithm key)))
      where
        go :
            (foreign : Bool)
            → Slowly
                (if foreign
                  then Exchange.refuse crates config
                      (codes "only ed25519 keys are accepted")
                      Exchange.ignored
                  else Exchange.expired crates config >>= λ late.
                      Exchange.first_check crates config device key late)
                d
        go true = of_brief_step _ t (Quick-refuse config.deadline crates config _ _)
        go false = first_check-Slow device key (leb config.deadline d.now) d t

    -- A bind whose first half keeps a relation that is enough for the end.
    bind-keeps {ℓ} :
        {A : Type ℓ} (R G : Conn → Type 0) (m : Io Conn A)
        (f : A → Io Conn Exchange.ConnectionResult) (d : Conn)
        → ((e : Conn) → R e → G e)
        → R (m d).1
        → ((a : A) (e : Conn) → (m d).0 ≡ ok a → R e → G (f a e).1)
        → G ((m >>= f) d).1
    bind-keeps {A} R G m f d stop r h = go (m d).0 refl (m d).1 r
      where
        go : (x : Result A) → (m d).0 ≡ x → (e : Conn) → R e → G (follow x f e).1
        go (ok a) p e k = h a e p k
        go (err x) p e k = stop e k
        go panic p e k = stop e k

    Slow-bind {ℓ} :
        {A : Type ℓ} (m : Io Conn A) (f : A → Io Conn Exchange.ConnectionResult) (d : Conn)
        → Timed config.deadline b d
        → Quick config.deadline m
        → ((a : A) (e : Conn) → (m d).0 ≡ ok a → Timed config.deadline b e → Slowly (f a) e)
        → Slowly (m >>= f) d
    Slow-bind m f d t q =
        bind-keeps (Timed config.deadline b) (Slow config.deadline b) m f d
          (λ e. Timed-Slow config.deadline) (Timed-trans config.deadline t (q.at d))

    -- What a stranger gets, and what a peer with a credential gets.
    module _ (ret : Bool) where
      abbrev patience : ℕ
      patience = min (b.now + preauth_timeout) config.deadline

      abbrev pub Ends : Conn → Type 0
      Ends e =
          Timed (min (b.now + preauth_timeout) config.deadline) b e
          ⊎ (Credential crates config ret b × Slow config.deadline b e)

      admit-Ends :
          (v : Option Exchange.ConnectionResult) {mode : Text} {epub proof sealed : Bytes}
          {d : Conn}
          → Hello crates config b mode epub proof sealed
          → Timed patience b d
          → Granted crates config ret mode proof epub (greeted crates config b epub sealed) (ok v) d
          → Ends (Exchange.admit crates config v d).1
      unfolding Exchange.admit
      admit-Ends none {mode} {epub} {proof} {sealed} {d} said t g = inr (
        record {
          mode = mode;
          epub = epub;
          proof = proof;
          sealed = sealed;
          said = said;
          proved = g.0;
        },
        Slow-bind _ _ d (Timed-weaken patience config.deadline (omega arith) t)
            (Quick-phase_deadline config.deadline config.deadline postauth_timeout)
            (λ postauth e p t.
              Slow-bind _ _ e t
                (Quick-send config.deadline crates config (Exchange.offer_body crates config))
                (λ u e q t.
                  Slow-bind _ _ e t
                    (Quick-read_by config.deadline postauth
                      (phase_deadline-le config.deadline postauth_timeout postauth d p).0)
                    (λ sealed e p t.
                      Slow-bind _ _ e t (Quick-open_frame config.deadline crates config sealed)
                        (λ plain e p t.
                          Slow-bind _ _ e t (Quick-decode config.deadline crates config plain)
                            (λ enroll e p t.
                              Slow-bind _ _ e t
                                (Quick-required config.deadline (get_text enroll (codes "pubkey")))
                                (λ line e p t.
                                  accept_key-Slow _ (crates.from_openssh (trim line)) e t)))))),
      )
      admit-Ends (some result) said t g = inl t

      timing : Walk crates config ret b
      unfolding Exchange.open_frame Exchange.set_channel
      timing = record {
        R = Timed patience b;
        G = λ r. Ends;
        begins = Timed-refl patience b;
        fails = λ e t. inl t;
        panics = inl;
        ignores = inl;
        reads =
            λ {c} t. Timed-trans patience t ((Quick-read_by patience patience (omega arith)).at c);
        opens = λ sealed {c} t.
            Timed-trans patience t ((Quick-open_frame patience crates config sealed).at c);
        rekeys =
            λ ch {c} t. Timed-trans patience t ((Quick-set_channel patience crates config ch).at c);
        authorizes = λ mode proof epub {c} t.
            Timed-trans patience t
              ((Quick-authorize patience crates config mode proof epub ret).at c);
        admits = λ v said s t g. admit-Ends v said t g;
      }

      -- Any connection is of one of two kinds. Either it ends, but for the time that its
      -- writes take, at the latest where it began, five seconds after that, or at the
      -- expiry, whichever of the last two is first. Or the peer sent a proof that
      -- counts, the token or that of a PIN that is not retired, and the connection ends
      -- at the latest at the expiry, or where it began if that is later, but for the
      -- time that its writes and the operator's answer take.
      pub exchange-Ends : Ends (Exchange.exchange crates config ret b).1
      unfolding timing
      exchange-Ends = walk-exchange crates config ret b timing
