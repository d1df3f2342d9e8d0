-- ===== src/Util/Console.antt =====
-- src/util.rs: the messages to the operator, and the environment variables and numbers in them.
use mpx_cli.Prelude.{
  ℕ, zero, suc, ◌+◌, ◌-◌, ◌/◌, ◌%◌, Bool, not, ◌&&◌, Option, none, some, [], ◌∷◌, ◌++◌, ltb,
  if◌then◌else◌, is_some, length, replicate,
}
use mpx_cli.Text.Utf8.{Text}
use mpx_cli.Text.Codes.{codes}

-- The value of a variable: text, or bytes that are none.
pub data EnvValue : Type 0 where
  unicode : Text → EnvValue
  other_bytes : EnvValue

abbrev pub Env : Type 0
Env = Text → Option EnvValue

-- `std::env::var(..).ok()`
abbrev text_of : Option EnvValue → Option Text
text_of (some (unicode s)) = some s
text_of (some other_bytes) = none
text_of none = none

abbrev pub var : Env → Text → Option Text
var env name = text_of (env name)

-- `std::env::var_os(..).is_some()`
abbrev pub is_set : Env → Text → Bool
is_set env name = is_some (env name)

-- A line on the standard output, or on the standard error.
pub data Printed : Type 0 where
  println : Text → Printed
  eprintln : Text → Printed

pub record Console : Type 0 where
  pub is_terminal : Bool
  pub env : Env

-- `styled`
unfoldable pub styled : Console → Bool
styled console = console.is_terminal && not (is_set console.env (codes "NO_COLOR"))

-- `\x1b`
abbrev pub esc : ℕ
esc = 0x1b

-- `msg` behind a sign, in a color where there is one.
abbrev pub in_color : Text → Text → Text
in_color color s = esc ∷ (codes "[" ++ (color ++ (codes "m" ++ (s ++ (esc ∷ codes "[0m")))))

unfoldable pub ok : Console → Text → Printed
ok console msg =
    if styled console
    then println (in_color (codes "32") (codes "✓") ++ (codes " " ++ msg))
    else println (codes "+ " ++ msg)

unfoldable pub note : Console → Text → Printed
note console msg = if styled console then println (in_color (codes "2") msg) else println msg

unfoldable pub warn : Console → Text → Printed
warn console msg =
    if styled console
    then eprintln (in_color (codes "33") (codes "!") ++ (codes " " ++ msg))
    else eprintln (codes "! " ++ msg)

unfoldable pub wait : Console → Text → Printed
wait console msg =
    if styled console
    then println (in_color (codes "33") (codes "◌") ++ (codes " " ++ msg))
    else println (codes "~ " ++ msg)

-- `{}` of a number with at most that many digits; a `u64` has twenty at most.
unfoldable pub digits : ℕ → ℕ → Text
digits zero n = []
digits (suc k) n =
    let front = digits k (n / 10) in
    if ltb n 10 then (b'0' + n) ∷ [] else front ++ ((b'0' + n % 10) ∷ [])

unfoldable pub decimal : ℕ → Text
unfolding digits
decimal n = digits 20 n

-- `{:0w$}` of a number, for a width of `w`.
unfoldable pub padded : ℕ → ℕ → Text
unfolding decimal
padded w n = replicate (w - length (decimal n)) b'0' ++ decimal n
