-- ===== src/Server/Exchange/Granted.antt =====
-- What `authorize`, the `match mode.as_str()` of src/server.rs, presupposes where it lets a peer on
-- and where it counts a wrong PIN.
use mpx_cli.Prelude.{
  ◌≡◌, ◌≢◌, refl, Bool, true, false, Option, none, some, if◌then◌else◌, equal, equal_iff, Bytes,
}
use mpx_cli.Text.Utf8
use mpx_cli.Text.Utf8.{Text}
use mpx_cli.Text.Codes.{codes}
use mpx_cli.Frame.Io.{Result, ok, err, panic, Io, pure, follow}
use mpx_cli.Frame.Channel.{pin_proof}
use mpx_cli.Server.Conn.{Crates, Conn}
use mpx_cli.Server.Exchange.Heard.{Proved, by_token, by_pin}
use mpx_cli.Server.Exchange

module _ (crates : Crates) (config : Exchange.SessionConfig) (ret : Bool) where
  -- What the answer of `authorize` at `d` presupposes of the mode, the public key and the proof.
  module _ (mode : Text) (proof epub : Bytes) (d : Conn) where
    abbrev Wrong : Type 0
    Wrong =
        (mode ≡ codes "pin")
        × (ret ≡ false)
        × (proof ≢ pin_proof crates.ciphers (Utf8.as_bytes config.pin) epub config.spub)

    abbrev pub Granted : Result (Option Exchange.ConnectionResult) → Conn → Type 0
    Granted (ok none) c = Proved crates config ret mode epub proof × (c ≡ d)
    Granted (ok (some Exchange.ignored)) c = Unit
    Granted (ok (some Exchange.pin_failure)) c = Wrong
    Granted (ok (some Exchange.declined)) c = ⊥
    Granted (ok (some (Exchange.enrolled device comment acknowledged))) c = ⊥
    Granted (err e) c = Unit
    Granted panic c = Unit

    abbrev Grants : Io Conn (Option Exchange.ConnectionResult) → Type 0
    Grants m = Granted (m d).0 (m d).1

    Granted-if :
        (t : Bool) (m n : Io Conn (Option Exchange.ConnectionResult))
        → (t ≡ true → Grants m)
        → (t ≡ false → Grants n)
        → Grants (if t then m else n)
    Granted-if true m n p q = p refl
    Granted-if false m n p q = q refl

    Granted-test :
        (t : Bool)
        → (t ≡ true → Proved crates config ret mode epub proof)
        → Grants (pure (if t then none else some Exchange.ignored))
    Granted-test true p = (p refl, refl)
    Granted-test false p = tt

    Granted-refuse :
        (message : Text) (v : Exchange.ConnectionResult)
        → ((c : Conn) → Granted (ok (some v)) c)
        → Grants (Exchange.refuse crates config message (some v))
    unfolding Exchange.refuse
    Granted-refuse message v g =
        go (Exchange.send_done crates config false message d).0
          (Exchange.send_done crates config false message d).1
      where
        go :
            (x : Result (Unit {0})) (c : Conn)
            → Granted
                (follow (Exchange.dropped x) (λ u. pure (some v)) c).0
                (follow (Exchange.dropped x) (λ u. pure (some v)) c).1
        go (ok u) c = g c
        go (err x) c = g c
        go panic c = tt

    pub authorize-Granted : Grants (Exchange.authorize crates config mode proof epub ret)
    unfolding Exchange.authorize
    authorize-Granted =
        let pinned = pin_proof crates.ciphers (Utf8.as_bytes config.pin) epub config.spub in
        Granted-if (equal mode (codes "token")) _ _
          (λ t.
            Granted-test (equal proof config.token)
              (λ p. by_token ((equal_iff mode _).0 t) ((equal_iff proof config.token).0 p)))
          (λ f.
            Granted-if (equal mode (codes "pin")) _ _
              (λ t.
                Granted-if ret _ _ (λ retired. Granted-refuse _ Exchange.ignored (λ c. tt))
                  (λ fresh.
                    Granted-if (equal proof pinned) _ _
                      (λ p. (by_pin ((equal_iff mode _).0 t) fresh ((equal_iff proof _).0 p), refl))
                      (λ p. Granted-refuse _ Exchange.pin_failure (λ c. (
                        (equal_iff mode _).0 t,
                        fresh,
                        λ same. cc (p, (equal_iff proof pinned).1 same),
                      )))))
              (λ g. tt))
