-- ===== src/Frame/Tests.antt =====
-- The framing and the channel at concrete inputs, with a cipher that shows everything.
use mpx_cli.Prelude.{
  ◌≡◌, refl, ap, sym, ◌∙◌, List, [], ◌∷◌, ◌++◌, length, take, take-append, arith, Bytes,
}
use mpx_cli.Text.Codes.{strip_prefix, strip_prefix-append, strip_prefix-eq-some}
use mpx_cli.Frame.Io.{ok, err, crypto}
use mpx_cli.Frame.Framing.{read_slice, write_vec, read_frame-write_frame}
use mpx_cli.Frame.Channel.{Ciphers, Channel, seal_c2s, open_c2s}
use mpx_cli.Frame.Session.{
  IsAead, Sender, client, server, converse, plain_results, converse_lem, open_c2s_replay,
}

abbrev header : Bytes → Bytes
header n = length n ∷ n

abbrev open_ciphers : Ciphers
open_ciphers = record {
  hkdf = λ s k i n. k;
  encrypt = λ key n plain. header n ++ plain;
  decrypt = λ key n sealed. strip_prefix (header n) sealed;
}

abbrev nonce_of : Bytes → Bytes
nonce_of [] = []
nonce_of (l ∷ rest) = take l rest

open_ciphers-IsAead : IsAead open_ciphers
open_ciphers-IsAead = record {
  decrypt-encrypt = λ key n plain. strip_prefix-append (header n) plain;
  authentic = λ key n sealed plain e. strip_prefix-eq-some (header n) sealed plain e;
  nonce_apart =
      λ key n n' plain plain' e. sym (take-append n plain) ∙ ap nonce_of e ∙ take-append n' plain';
}

abbrev at_start : Channel
at_start = record { c2s = 1 ∷ []; s2c = 2 ∷ []; seq_c2s = 0; seq_s2c = 0 }

abbrev later : Channel
later = record { c2s = 1 ∷ []; s2c = 2 ∷ []; seq_c2s = 1; seq_s2c = 0 }

abbrev talk : List (Sender × Bytes)
talk = (client, 5 ∷ []) ∷ (server, 6 ∷ 7 ∷ []) ∷ (client, 8 ∷ []) ∷ []

converse_lem_example :
    converse open_ciphers talk (record { client_end = at_start; server_end = at_start })
    ≡ plain_results open_ciphers talk
converse_lem_example = converse_lem open_ciphers open_ciphers-IsAead.decrypt-encrypt talk at_start

open_c2s_replay_example :
    open_c2s open_ciphers later (seal_c2s open_ciphers at_start (5 ∷ [])).0 ≡ (err crypto, later)
open_c2s_replay_example =
    open_c2s_replay open_ciphers open_ciphers-IsAead at_start later (5 ∷ []) refl (omega arith)
      (omega arith) (λ e. omega (arith, e))

read_frame-write_frame_example :
    (sent : Bytes) × (write_vec (3 ∷ 4 ∷ []) [] ≡ (ok tt, [] ++ sent))
    × (read_slice (sent ++ 9 ∷ []) ≡ (ok (3 ∷ 4 ∷ []), 9 ∷ []))
read_frame-write_frame_example = read_frame-write_frame (3 ∷ 4 ∷ []) [] (9 ∷ []) (omega arith)
