-- ===== src/Payload/Tests.antt =====
-- The payload theorems at concrete payloads.
use mpx_cli.Prelude.{
  ℕ, suc, ◌⊎◌, ◌<◌, ◌≤◌, ◌≡◌, refl, none, some, List, [], ◌∷◌, ◌++◌, length, take, drop, inl,
  replicate, arith, Bytes,
}
use mpx_cli.Text.Utf8.{as_bytes, utf8_char}
use mpx_cli.Text.Codes.{codes}
use mpx_cli.Payload.{v4, OfflineKey, Payload, encode, encode_addr, encode_addrs, decode}
use mpx_cli.Payload.Name.{max_name, fitting, truncated_name, truncated_name_longest}
use mpx_cli.Payload.Valid.{IsValid, IsKey, normal}
use mpx_cli.Payload.RoundTrip.{decode-encode, decode-encode_cut}
use mpx_cli.Payload.Url.{Base64}

abbrev offline : OfflineKey
offline = record {
  ssh_user = codes "me";
  ssh_port = 22;
  seed = replicate 32 9;
  authorized_keys = none;
  hostkey_sha256 = some (replicate 32 5);
}

abbrev sample : Payload
sample = record {
  addrs = v4 (10 ∷ 0 ∷ 0 ∷ 7 ∷ []) ∷ [];
  port = 4022;
  spub = replicate 32 1;
  token = replicate 16 2;
  name = codes "pi";
  offline = some offline;
}

offline-IsKey : IsKey offline
unfolding as_bytes utf8_char
offline-IsKey = record {
  user = record { chars = (inl (omega arith), (inl (omega arith), tt)); short = omega arith };
  ssh_port = omega arith;
  seed = refl;
  path = record { chars = tt; short = omega arith };
  digest = refl;
}

sample-IsValid : IsValid sample
sample-IsValid = record {
  addrs = (refl, tt);
  port = omega arith;
  spub = refl;
  token = refl;
  name = (inl (omega arith), (inl (omega arith), tt));
  offline = offline-IsKey;
}

decode-encode_example : decode (encode sample ++ 0 ∷ []) ≡ some (normal sample)
decode-encode_example = decode-encode sample (0 ∷ []) sample-IsValid (omega arith)

abbrev kept : Bytes
kept = 2 ∷ 1 ∷ 1 ∷ []

abbrev lost : Bytes
lost = drop 3 (encode sample)

sample-split : encode sample ≡ kept ++ lost
unfolding encode encode_addrs encode_addr
sample-split = refl

lost-length : 0 < length lost
unfolding encode encode_addrs encode_addr
lost-length = omega arith

decode-encode_cut_example : decode kept ≡ none
decode-encode_cut_example =
    decode-encode_cut sample kept lost sample-IsValid sample-split lost-length

-- An alphabet that stands for itself.
abbrev plain_base64 : Base64
plain_base64 = record {
  to_text = λ bs. bs;
  from_text = λ s. some s;
  from_text-to_text = λ bs. refl;
}

-- A name whose eleventh character would end behind the limit.
abbrev long_name : List ℕ
long_name = replicate 12 0x20ac

truncated_name_longest_example :
    let count = length (fitting max_name long_name) in
    (truncated_name long_name ≡ as_bytes (take count long_name))
    × (length (truncated_name long_name) ≤ max_name)
    × ((truncated_name long_name ≡ as_bytes long_name)
        ⊎ (max_name < length (as_bytes (take (suc count) long_name))))
truncated_name_longest_example = truncated_name_longest long_name
