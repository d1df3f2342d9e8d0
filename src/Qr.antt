-- ===== src/Qr.antt =====
-- src/qr.rs: the QR code in the terminal. The crate that encodes and draws it is a parameter.
use mpx_cli.Prelude.{ℕ, Bool, true, Option, some, List, [], ◌∷◌, length, Bytes, ◌>>=◌}
use Prim.Native.Nat.{max}
use mpx_cli.Text.Utf8.{Text, as_bytes}
use mpx_cli.Text.Lines.{lines}

-- Error correction: `EcLevel::L` and the higher ones.
pub data EcLevel : Type 0 where
  level_l level_m level_q level_h : EcLevel

pub data Dense1x2 : Type 0 where
  dark light : Dense1x2

-- What the renderer is told.
pub record Style : Type 0 where
  pub dark_color : Dense1x2
  pub light_color : Dense1x2
  pub quiet_zone : Bool

pub record QrCrate : Type 1 where
  pub Code : Type 0
  pub with_error_correction_level : Bytes → EcLevel → Option Code
  pub build : Code → Style → Text

-- `render`: the modules that are dark on paper are drawn in the terminal's foreground, and the other way round.
unfoldable pub render : QrCrate → Text → Option Text
render qr payload = do
  code ← qr.with_error_correction_level (as_bytes payload) level_l
  some (qr.build code (record { dark_color = light; light_color = dark; quiet_zone = true }))

-- The largest `chars().count()`, or 0.
unfoldable pub widest : List Text → ℕ
widest [] = 0
widest (l ∷ ls) = max (length l) (widest ls)

-- `qr::width`
unfoldable pub width : Text → ℕ
unfolding widest
width art = widest (lines art)
