-- ===== src/Util/RoundTrip.antt =====
-- `hex_decode` reads what `hex` wrote.
use mpx_cli.Prelude.{
  ℕ, ◌*◌, ◌/◌, ◌%◌, ◌<◌, ◌≡◌, refl, ap, true, some, [], ◌∷◌, arith, lt→ltb, ◌==◌, length, All,
  Bytes, IsByte,
}
use mpx_cli.Text.Utf8.{Text, as_bytes}
use mpx_cli.Text.Utf8
use mpx_cli.Util.Hex.{hex_digit, hex, to_digit, pair, pairs, hex_decode}

to_digit-hex_digit : (n : ℕ) → n < 16 → to_digit (hex_digit n) ≡ some n
unfolding to_digit hex_digit
to_digit-hex_digit n h = ground arith

hex_digit-ascii : (n : ℕ) → n < 16 → hex_digit n < 128
unfolding hex_digit
hex_digit-ascii n h = ground arith

pair-hex : (b : ℕ) → b < 256 → pair (hex_digit (b / 16)) (hex_digit (b % 16)) ≡ some b
unfolding pair
pair-hex b h =
    rw (to_digit-hex_digit (b / 16) (omega arith), to_digit-hex_digit (b % 16) (omega arith))
      (ap some (omega arith))

pairs-hex : (input : Bytes) → All IsByte input → pairs (hex input) ≡ some input
unfolding pairs hex
pairs-hex [] h = refl
pairs-hex (b ∷ bs) h = rw (pair-hex b h.0, pairs-hex bs h.1) refl

as_bytes_ascii : (c : ℕ) (s : Text) → c < 128 → as_bytes (c ∷ s) ≡ c ∷ as_bytes s
unfolding as_bytes Utf8.utf8_char
as_bytes_ascii c s h = rw (lt→ltb c 128 h) refl

as_bytes-hex : (input : Bytes) → All IsByte input → as_bytes (hex input) ≡ hex input
unfolding hex as_bytes
as_bytes-hex [] h = refl
as_bytes-hex (b ∷ bs) h =
    rw
      (
        as_bytes_ascii (hex_digit (b / 16)) (hex_digit (b % 16) ∷ hex bs)
            (hex_digit-ascii (b / 16) (omega arith)),
        as_bytes_ascii (hex_digit (b % 16)) (hex bs) (hex_digit-ascii (b % 16) (omega arith)),
        as_bytes-hex bs h.1,
      )
      refl

length-hex : (input : Bytes) → length (hex input) ≡ 2 * length input
unfolding hex
length-hex [] = refl
length-hex (b ∷ bs) = omega (arith, length-hex bs)

-- `hex_decode` of what `hex` made of bytes returns these bytes.
pub hex_decode-hex : (input : Bytes) → All IsByte input → hex_decode (hex input) ≡ some input
unfolding hex_decode
hex_decode-hex input h = rw (as_bytes-hex input h, length-hex input, even) (pairs-hex input h)
  where
    even : (2 * length input % 2 == 0) ≡ true
    even = ground arith
