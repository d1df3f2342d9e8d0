-- ===== src/Vectors/Rng.antt =====
-- `FixedRng` of src/examples/gen_vectors.rs, xorshift64*. Its state is a `u64`, and each function
-- returns the state behind what it draws.
use mpx_cli.Prelude.{
  ℕ, zero, suc, ◌*◌, ◌/◌, ◌%◌, ◌^◌, [], ◌∷◌, ◌++◌, ◌==◌, if◌then◌else◌, take, Bytes,
}
use Prim.Native.Nat.{bit_xor}

-- `to_le_bytes`
unfoldable pub to_le_bytes : ℕ → ℕ → Bytes
to_le_bytes zero x = []
to_le_bytes (suc n) x = (x % 256) ∷ to_le_bytes n (x / 256)

-- `x ^= x >> n` and `x ^= x << n`
abbrev pub xor_right : ℕ → ℕ → ℕ
xor_right n x = bit_xor x (x / 2 ^ n)

abbrev pub xor_left : ℕ → ℕ → ℕ
xor_left n x = bit_xor x (x * 2 ^ n % 2 ^ 64)

unfoldable pub next_u64 : ℕ → ℕ × ℕ
next_u64 state =
    let x = xor_right 27 (xor_left 25 (xor_right 12 state)) in (x * 0x2545F4914F6CDD1D % 2 ^ 64, x)

unfoldable pub next_u32 : ℕ → ℕ × ℕ
unfolding next_u64
next_u32 state = let (x, state') = next_u64 state in (x % 2 ^ 32, state')

-- One chunk of `fill_bytes`, of at most eight bytes.
unfoldable pub fill_chunk : ℕ → ℕ → Bytes × ℕ
fill_chunk n state = let (x, state') = next_u64 state in (take n (to_le_bytes 8 x), state')

-- The full chunks, and the last one, which may be shorter.
unfoldable pub fill_chunks : ℕ → ℕ → ℕ → Bytes × ℕ
unfolding fill_chunk
fill_chunks zero rest state = if rest == 0 then ([], state) else fill_chunk rest state
fill_chunks (suc n) rest state =
    let (bs, state') = fill_chunk 8 state in
    let (more, state'') = fill_chunks n rest state' in (bs ++ more, state'')

unfoldable pub fill_bytes : ℕ → ℕ → Bytes × ℕ
unfolding fill_chunks
fill_bytes n state = fill_chunks (n / 8) (n % 8) state
