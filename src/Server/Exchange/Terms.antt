-- ===== src/Server/Exchange/Terms.antt =====
-- What the handshake is about: the offer, the session, the results, and the texts it looks at.
use mpx_cli.Prelude.{
  ℕ, ◌^◌, Bool, true, false, ◌&&◌, ◌||◌, Option, none, some, List, [], ◌∷◌, ltb, leb, ◌==◌,
  if◌then◌else◌, length, take, unwrap_or, Bytes,
}
use mpx_cli.Text.Utf8.{Text}
unfoldable pub use mpx_cli.Text.Codes.{contains}
use mpx_cli.Frame.Io.{Result, ok, err, panic, malformed, Io, pure, fail}
use mpx_cli.Frame.Value.{Value, integer}
use mpx_cli.Server.Conn.{Conn}

pub record OfferRecord : Type 0 where
  pub name : Text
  pub addrs : List Text
  pub user : Text
  pub ssh_port : ℕ
  pub hostkeys : List Text

-- `SessionConfig`; the path of authorized_keys is the disk of the connection.
pub record SessionConfig : Type 0 where
  pub secret : Bytes
  pub spub : Bytes
  pub token : Bytes
  pub pin : Text
  pub deadline : ℕ
  pub offer : OfferRecord
  pub marker_id : Text

pub data ConnectionResult : Type 0 where
  enrolled : Text → Text → Bool → ConnectionResult
  pin_failure declined ignored : ConnectionResult

-- `Option::ok_or(FrameError::Malformed)?`
abbrev pub required {ℓ} : {A : Type ℓ} → Option A → Io Conn A
required none = fail malformed
required (some a) = pure a

-- `let _ = ..`: an error is dropped, a panic is not.
abbrev pub dropped : Result (Unit {0}) → Result (Unit {0})
dropped (ok u) = ok tt
dropped (err e) = ok tt
dropped panic = panic

abbrev pub ignore : Io Conn (Unit {0}) → Io Conn (Unit {0})
ignore m c = let (r, c') = m c in (dropped r, c')

-- `.is_ok()`
abbrev pub succeeded : Result (Unit {0}) → Result Bool
succeeded (ok u) = ok true
succeeded (err e) = ok false
succeeded panic = panic

abbrev pub is_ok : Io Conn (Unit {0}) → Io Conn Bool
is_ok m c = let (r, c') = m c in (succeeded r, c')

-- `<[u8; 32]>::try_from(bytes).ok()`
abbrev pub array_32 : Option Bytes → Option Bytes
array_32 none = none
array_32 (some bs) = if length bs == 32 then some bs else none

-- The `version` of the intro.
abbrev pub version_of : Option Value → ℕ
version_of (some (integer n)) = if ltb n (2 ^ 64) then n else 0
version_of _ = 0

-- `char::is_control`
abbrev pub is_control : ℕ → Bool
is_control c = leb c 31 || leb 127 c && leb c 159

-- `.filter(|c| !c.is_control())`
unfoldable pub shown : Text → Text
shown [] = []
shown (c ∷ s) = let rest = shown s in if is_control c then rest else c ∷ rest

-- The name that the operator is shown.
unfoldable pub device_of : Option Text → Text
unfolding shown
device_of raw = take 64 (shown (unwrap_or raw []))
