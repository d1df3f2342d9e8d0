-- ===== src/Frame/Session.antt =====
-- Both ends of a channel stay in step, and a frame that is sent again does not open.
use mpx_cli.Prelude.{
  ℕ, ◌^◌, ◌<◌, ◌≡◌, ◌≢◌, refl, ap, sym, ◌∙◌, some, List, [], ◌∷◌, drop, Bytes, arith, from_be_bytes,
  from_be_bytes-to_be_bytes_eight, Option-cases, inl, inr,
}
use mpx_cli.Frame.Io.{Result, ok, err, crypto}
use mpx_cli.Frame.Channel.{Ciphers, Channel, bump, nonce, seal_s2c, seal_c2s, open_c2s, open_s2c}

-- What the code relies on in the AEAD: opening inverts sealing, nothing opens that was not sealed
-- so, and one key never gives one ciphertext under two nonces.
pub record IsAead (ciphers : Ciphers) : Type 0 where
  pub decrypt-encrypt :
      (key n plain : Bytes) → ciphers.decrypt key n (ciphers.encrypt key n plain) ≡ some plain
  pub authentic :
      (key n sealed plain : Bytes)
      → ciphers.decrypt key n sealed ≡ some plain
      → sealed ≡ ciphers.encrypt key n plain
  pub nonce_apart :
      (key n n' plain plain' : Bytes)
      → ciphers.encrypt key n plain ≡ ciphers.encrypt key n' plain'
      → n ≡ n'

-- The nonces of two counters differ.
nonce_injective : (i j : ℕ) → i < 2 ^ 64 → j < 2 ^ 64 → nonce i ≡ nonce j → i ≡ j
unfolding nonce
nonce_injective i j hi hj e =
    sym (from_be_bytes-to_be_bytes_eight i hi)
    ∙ ap (λ bs. from_be_bytes (drop 4 bs)) e
    ∙ from_be_bytes-to_be_bytes_eight j hj

-- Who sends the next message.
pub data Sender : Type 0 where
  client server : Sender

-- A conversation: each message is sealed by its sender and opened by the other side.
pub record Pair : Type 0 where
  pub client_end : Channel
  pub server_end : Channel

module _ (ciphers : Ciphers) where
  pub transmit : Sender → Bytes → Pair → Result Bytes × Pair
  transmit client plain p =
      let (sealed, c) = seal_c2s ciphers p.client_end plain in
      let (opened, s) = open_c2s ciphers p.server_end sealed in
      (opened, record { client_end = c; server_end = s })
  transmit server plain p =
      let (sealed, s) = seal_s2c ciphers p.server_end plain in
      let (opened, c) = open_s2c ciphers p.client_end sealed in
      (opened, record { client_end = c; server_end = s })

  pub converse : List (Sender × Bytes) → Pair → List (Result Bytes)
  converse [] p = []
  converse ((who, plain) ∷ rest) p =
      let (opened, q) = transmit who plain p in opened ∷ converse rest q

  pub plain_results : List (Sender × Bytes) → List (Result Bytes)
  plain_results [] = []
  plain_results ((who, plain) ∷ rest) = ok plain ∷ plain_results rest

  module _
      (decrypt-encrypt : (key n plain : Bytes)
        → ciphers.decrypt key n (ciphers.encrypt key n plain) ≡ some plain) where
    transmit_sync :
        (who : Sender) (plain : Bytes) (c : Channel)
        → (d : Channel) × (transmit who plain (record { client_end = c; server_end = c })
            ≡ (ok plain, record { client_end = d; server_end = d }))
    unfolding transmit seal_c2s open_c2s seal_s2c open_s2c
    transmit_sync client plain c = (
      record c { seq_c2s = bump c.seq_c2s },
      ground (arith, decrypt-encrypt c.c2s (nonce c.seq_c2s) plain),
    )
    transmit_sync server plain c = (
      record c { seq_s2c = bump c.seq_s2c },
      ground (arith, decrypt-encrypt c.s2c (nonce c.seq_s2c) plain),
    )

    -- If decryption undoes encryption, then from equal states of both ends each side reads
    -- every message that the other sealed, whatever is said in whatever order.
    pub converse_lem :
        (messages : List (Sender × Bytes)) (c : Channel)
        → converse messages (record { client_end = c; server_end = c }) ≡ plain_results messages
    unfolding converse plain_results
    converse_lem [] c = refl
    converse_lem ((who, plain) ∷ rest) c =
        let (d, e) = transmit_sync who plain c in
        ap (λ (r : Result Bytes × Pair). r.0 ∷ converse rest r.1) e
        ∙ ap (◌∷◌ (ok plain)) (converse_lem rest d)

  module _ (aead : IsAead ciphers) where
    -- With a cipher that is an AEAD, a frame that was sealed at one count is refused at
    -- another count of the same key, and the channel stays as it is.
    pub open_c2s_replay :
        (c s : Channel) (plain : Bytes)
        → c.c2s ≡ s.c2s
        → c.seq_c2s < 2 ^ 64
        → s.seq_c2s < 2 ^ 64
        → c.seq_c2s ≢ s.seq_c2s
        → open_c2s ciphers s (seal_c2s ciphers c plain).0 ≡ (err crypto, s)
    unfolding seal_c2s open_c2s
    open_c2s_replay c s plain same hc hs differ =
        elim (Option-cases (
          ciphers.decrypt s.c2s (nonce s.seq_c2s)
            (ciphers.encrypt c.c2s (nonce c.seq_c2s) plain))) [
              | inl e ↦ rw (e, open_c2s)
              | inr (p, e) ↦ absurd (
                  differ (
                    nonce_injective c.seq_c2s s.seq_c2s hc hs (
                      aead.nonce_apart s.c2s (nonce c.seq_c2s) (nonce s.seq_c2s) plain p (
                        ap (λ k. ciphers.encrypt k (nonce c.seq_c2s) plain) (sym same)
                        ∙ aead.authentic s.c2s (nonce s.seq_c2s) _ p e))))
            ]
