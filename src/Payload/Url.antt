-- ===== src/Payload/Url.antt =====
-- `to_url` and `from_url`, over the base64url codec of the `base64` crate.
use mpx_cli.Prelude.{◌≡◌, Option, some, [], ◌++◌, append-nil, arith, Bytes, ◌>>=◌, >>=-eq-some}
use mpx_cli.Text.Utf8.{Text}
use mpx_cli.Text.Codes.{codes, strip_prefix, strip_prefix-append, strip_prefix-eq-some}
use mpx_cli.Payload.Valid.{IsValid, normal}
use mpx_cli.Payload.RoundTrip.{decode-encode}
use mpx_cli.Payload.{Payload, encode, decode}

-- `URL_SAFE_NO_PAD`: what the source relies on is that decoding inverts encoding.
pub record Base64 : Type 0 where
  pub to_text : Bytes → Text
  pub from_text : Text → Option Bytes
  pub from_text-to_text : (bs : Bytes) → from_text (to_text bs) ≡ some bs

abbrev pub url_prefix : Text
url_prefix = codes "multiplex://b/"

module _ (base64 : Base64) where
  -- `Payload::to_url`
  unfoldable pub to_url : Payload → Text
  to_url p = url_prefix ++ base64.to_text (encode p)

  -- `Payload::from_url`
  unfoldable pub from_url : Text → Option Payload
  from_url url = do
    coded ← strip_prefix url_prefix url
    bytes ← base64.from_text coded
    decode bytes

  -- For a payload of the right sizes, `from_url` reads back from its URL what `decode` reads
  -- back from its bytes.
  pub from_url-to_url : (p : Payload) → IsValid p → from_url (to_url p) ≡ some (normal p)
  unfolding from_url to_url
  from_url-to_url p h =
      rw (strip_prefix-append url_prefix (base64.to_text (encode p)), ◌>>=◌)
        (rw (base64.from_text-to_text (encode p), ◌>>=◌)
          (rw append-nil at (decode-encode p [] h (omega arith))))

  -- If `from_url` accepts a URL, then it has the prefix, and its rest is the base64 of bytes
  -- that decode to the payload.
  pub from_url-eq-some :
      (url : Text) {p : Payload}
      → from_url url ≡ some p
      → (coded : Text) × (bytes : Bytes) × (url ≡ url_prefix ++ coded)
        × (base64.from_text coded ≡ some bytes)
        × (decode bytes ≡ some p)
  unfolding from_url
  from_url-eq-some url h =
      let (coded, stripped, more) = >>=-eq-some (strip_prefix url_prefix url) _ h in
      let (bytes, decoded, accepted) = >>=-eq-some (base64.from_text coded) decode more in
      (coded, bytes, strip_prefix-eq-some url_prefix url coded stripped, decoded, accepted)
