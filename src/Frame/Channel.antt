-- ===== src/Frame/Channel.antt =====
-- `Channel`: one key and one sequence counter for each direction. HKDF and the AEAD are crates.
use mpx_cli.Prelude.{
  ℕ, ◌+◌, ◌%◌, ◌^◌, Option, none, some, ◌++◌, take, drop, Bytes, replicate, to_be_bytes,
}
use mpx_cli.Text.Codes.{codes}
use mpx_cli.Frame.Io.{Result, ok, err, crypto}

-- HKDF-SHA256 (salt, input key, info, length) and ChaCha20-Poly1305 (key, nonce, text).
pub record Ciphers : Type 0 where
  pub hkdf : Bytes → Bytes → Bytes → ℕ → Bytes
  pub encrypt : Bytes → Bytes → Bytes → Bytes
  pub decrypt : Bytes → Bytes → Bytes → Option Bytes

-- `SALT` and `PIN_INFO`
abbrev pub salt : Bytes
salt = codes "multiplex-bind-v1"

abbrev pub pin_info : Bytes
pin_info = codes "multiplex-bind-pin"

pub record Channel : Type 0 where
  pub c2s : Bytes
  pub s2c : Bytes
  pub seq_c2s : ℕ
  pub seq_s2c : ℕ

-- A `u64` counter, which wraps in a release build.
abbrev pub bump : ℕ → ℕ
bump seq = (seq + 1) % 2 ^ 64

-- `Channel::nonce`
unfoldable pub nonce : ℕ → Bytes
nonce seq = replicate 4 0 ++ to_be_bytes 8 seq

module _ (ciphers : Ciphers) where
  open ciphers use {hkdf, encrypt, decrypt}

  -- `Channel::derive`
  unfoldable pub derive : Bytes → Bytes → Bytes → Channel
  derive shared epub spub =
      let okm = hkdf salt shared (epub ++ spub) 64 in
      record { c2s = take 32 okm; s2c = drop 32 okm; seq_c2s = 0; seq_s2c = 0 }

  -- `pin_proof`
  unfoldable pub pin_proof : Bytes → Bytes → Bytes → Bytes
  pin_proof pin epub spub = hkdf (epub ++ spub) pin pin_info 32

  unfoldable pub seal_s2c : Channel → Bytes → Bytes × Channel
  unfolding nonce
  seal_s2c ch plain =
      (encrypt ch.s2c (nonce ch.seq_s2c) plain, record ch { seq_s2c = bump ch.seq_s2c })

  unfoldable pub seal_c2s : Channel → Bytes → Bytes × Channel
  unfolding nonce
  seal_c2s ch plain =
      (encrypt ch.c2s (nonce ch.seq_c2s) plain, record ch { seq_c2s = bump ch.seq_c2s })

  -- A frame that fails to open leaves the counter where it was.
  unfoldable pub open_c2s : Channel → Bytes → Result Bytes × Channel
  unfolding nonce
  open_c2s ch sealed = elim (decrypt ch.c2s (nonce ch.seq_c2s) sealed) [
    | none ↦ (err crypto, ch)
    | some plain ↦ (ok plain, record ch { seq_c2s = bump ch.seq_c2s })
  ]

  unfoldable pub open_s2c : Channel → Bytes → Result Bytes × Channel
  unfolding nonce
  open_s2c ch sealed = elim (decrypt ch.s2c (nonce ch.seq_s2c) sealed) [
    | none ↦ (err crypto, ch)
    | some plain ↦ (ok plain, record ch { seq_s2c = bump ch.seq_s2c })
  ]
