-- ===== src/Util/Hex.antt =====
-- `hex` and `hex_decode`.
use mpx_cli.Prelude.{
  ℕ, ◌+◌, ◌-◌, ◌*◌, ◌/◌, ◌%◌, ◌&&◌, Option, none, some, [], ◌∷◌, leb, ltb, ◌==◌, if◌then◌else◌,
  length, Bytes, ◌>>=◌,
}
use mpx_cli.Text.Utf8.{Text, as_bytes}

-- One digit of `{:02x}`.
unfoldable pub hex_digit : ℕ → ℕ
hex_digit n = if ltb n 10 then b'0' + n else b'a' + (n - 10)

unfoldable pub hex : Bytes → Text
unfolding hex_digit
hex [] = []
hex (b ∷ bs) = hex_digit (b / 16) ∷ hex_digit (b % 16) ∷ hex bs

-- `char::from(byte).to_digit(16)`
unfoldable pub to_digit : ℕ → Option ℕ
to_digit c =
    if leb b'0' c && leb c b'9'
    then some (c - b'0')
    else if leb b'a' c && leb c b'f'
    then some (c - b'a' + 10)
    else if leb b'A' c && leb c b'F'
    then some (c - b'A' + 10)
    else none

unfoldable pub pair : ℕ → ℕ → Option ℕ
unfolding to_digit
pair a b = do hi ← to_digit a; lo ← to_digit b; some ((hi * 16 + lo) % 256)

-- `chunks_exact(2).map(..).collect()`
unfoldable pub pairs : Bytes → Option Bytes
unfolding pair
pairs [] = some []
pairs (a ∷ []) = some []
pairs (a ∷ b ∷ bs) = do d ← pair a b; rest ← pairs bs; some (d ∷ rest)

unfoldable pub hex_decode : Text → Option Bytes
unfolding pairs as_bytes
hex_decode s = let bytes = as_bytes s in if length bytes % 2 == 0 then pairs bytes else none
