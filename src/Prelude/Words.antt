-- ===== src/Prelude/Words.antt =====
-- Big-endian words: `to_be_bytes` and `from_be_bytes`.
use Prim.Native.Nat.{ℕ, zero, suc, ◌+◌, ◌*◌, ◌/◌, ◌%◌, ◌^◌, ◌<◌}
use mathlib.Core.Path.{◌≡◌, refl, ap}
use mathlib.Core.List.{[], ◌∷◌}
use native.Mathlib.Omega.{arith}
use mpx_cli.Prelude.Lists.{Bytes, length}

-- The `n` bytes of a word, the highest first.
abbrev pub to_be_bytes : ℕ → ℕ → Bytes
to_be_bytes zero x = []
to_be_bytes (suc n) x = (x / 256 ^ n % 256) ∷ to_be_bytes n x

abbrev pub from_be_bytes : Bytes → ℕ
from_be_bytes [] = 0
from_be_bytes (b ∷ bs) = b * 256 ^ length bs + from_be_bytes bs

abbrev pub IsByte : ℕ → Type 0
IsByte b = b < 256

pub length-to_be_bytes : (n x : ℕ) → length (to_be_bytes n x) ≡ n
length-to_be_bytes zero x = refl
length-to_be_bytes (suc n) x = ap suc (length-to_be_bytes n x)

pub from_be_bytes-to_be_bytes_two : (x : ℕ) → x < 2 ^ 16 → from_be_bytes (to_be_bytes 2 x) ≡ x
from_be_bytes-to_be_bytes_two x h = omega arith

pub from_be_bytes-to_be_bytes_four : (x : ℕ) → x < 2 ^ 32 → from_be_bytes (to_be_bytes 4 x) ≡ x
from_be_bytes-to_be_bytes_four x h = omega arith

pub from_be_bytes-to_be_bytes_eight : (x : ℕ) → x < 2 ^ 64 → from_be_bytes (to_be_bytes 8 x) ≡ x
from_be_bytes-to_be_bytes_eight x h = omega arith

pub from_be_bytes_two : (a b : ℕ) → IsByte a → IsByte b → from_be_bytes (a ∷ b ∷ []) < 2 ^ 16
from_be_bytes_two a b h k = omega arith
