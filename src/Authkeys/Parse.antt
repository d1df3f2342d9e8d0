-- ===== src/Authkeys/Parse.antt =====
-- `parse_line` on the lines that mpx writes, and on lines with an options field in front.
use mpx_cli.Prelude.{
  ℕ, ◌≡◌, ◌≢◌, refl, ap, ◌∙◌, Bool, true, false, some, [], ◌∷◌, ◌++◌, arith, ◌==◌, All,
}
use mpx_cli.Text.Utf8.{Text}
use mpx_cli.Text.Fields.{
  is_whitespace, starts_word, trim_start, trim_end, trim, split_whitespace, join,
}
use mpx_cli.Text.Words.{
  IsInk, IsWord, is_whitespace_space, is_whitespace_quote, trim_words, trim_end_word,
  trim_end-append, trim_start_space, split_whitespace_word, split_whitespace-append,
}
use mpx_cli.Authkeys.Line.{is_key_type, first_field, skip_options, key_line, is_comment, parse_line}
use mpx_cli.Authkeys.{entry}

-- A field that a scan for options runs through: no white space and no quotes.
abbrev pub IsPlain : ℕ → Type 0
IsPlain c = IsInk c × ((c == b'"') ≡ false)

-- A key type, as sshd and `is_key_type` know them.
pub record IsKeyType (t : Text) : Type 0 where
  pub word : IsWord t
  pub plain : All IsPlain t
  pub known : is_key_type t ≡ true

first_field_plain :
    (t s : Text) → All IsPlain t → first_field false false (t ++ (b' ' ∷ s)) ≡ some (t, b' ' ∷ s)
unfolding first_field
first_field_plain [] s h = rw is_whitespace_space refl
first_field_plain (c ∷ t) s h = ground (arith, first_field_plain t s h.1)

skip_options_key : (t s : Text) → IsKeyType t → skip_options (t ++ (b' ' ∷ s)) ≡ t ++ (b' ' ∷ s)
unfolding skip_options
skip_options_key t s h = rw (first_field_plain t s h.plain) (rw (h.known) refl)

split_entry :
    (t k c : Text)
    → IsWord t
    → IsWord k
    → IsWord c
    → key_line (split_whitespace (entry t k c))
      ≡ some (record { key_type = t; key_b64 = k; comment = c })
unfolding entry join
split_entry t k c ht hk hc =
    rw
      (
        split_whitespace-append t (k ++ (b' ' ∷ c)) ht,
        split_whitespace-append k c hk,
        split_whitespace_word c hc,
      )
      refl

cons_ne_nil : (c : ℕ) (s : Text) → ◌≢◌ {A = Text} (c ∷ s) []
cons_ne_nil c s e = cc

trim_end_cons : (c : ℕ) (s : Text) → trim_end s ≡ s → s ≢ [] → trim_end (c ∷ s) ≡ c ∷ s
trim_end_cons c s e h = trim_end-append (c ∷ []) s e h

-- The line that mpx writes ends with its comment.
trim_end_tail :
    (k c : Text) → IsWord c → trim_end (b' ' ∷ (k ++ (b' ' ∷ c))) ≡ b' ' ∷ (k ++ (b' ' ∷ c))
trim_end_tail k c h =
    trim_end-append (b' ' ∷ k) (b' ' ∷ c) (trim_end_cons b' ' c (trim_end_word c h) h.ne_nil)
      (cons_ne_nil b' ' c)

pub trim-entry : (t k c : Text) → IsWord t → IsWord c → trim (entry t k c) ≡ entry t k c
unfolding entry
trim-entry t k c ht hc = trim_words t _ ht (trim_end_tail k c hc) (cons_ne_nil b' ' _)

is_comment_key : (t s : Text) → IsKeyType t → is_comment (t ++ s) ≡ false
unfolding is_key_type
is_comment_key [] s h = absurd (h.word.ne_nil refl)
is_comment_key (c ∷ t) s h = ground (arith, h.known)

-- The line that `ensure_line` writes of a key type, a key word and a comment word is read back
-- by `parse_line` as these three.
pub parse_line-entry :
    (t k c : Text)
    → IsKeyType t
    → IsWord k
    → IsWord c
    → parse_line (entry t k c) ≡ some (record { key_type = t; key_b64 = k; comment = c })
unfolding parse_line
parse_line-entry t k c ht hk hc = rw (trim-entry t k c ht.word hc) (
    unfold entry in
    rw (is_comment_key t (b' ' ∷ (k ++ (b' ' ∷ c))) ht)
      (rw (skip_options_key t (k ++ (b' ' ∷ c)) ht) (split_entry t k c ht.word hk hc)))

-- What quoting leaves of a text: `Quoting q s` says that `s`, begun inside quotes if `q`, ends
-- outside of them and shows no white space there. A backslash hides one character inside quotes.
pub data Quoting : Bool → Text → Type 0 where
  done : Quoting false []
  plain : (c : ℕ) {s : Text} → IsPlain c → Quoting false s → Quoting false (c ∷ s)
  opening : (c : ℕ) {s : Text} → c ≡ b'"' → Quoting true s → Quoting false (c ∷ s)
  inside :
      (c : ℕ) {s : Text}
      → (c == b'"') ≡ false
      → (c == b'\\') ≡ false
      → Quoting true s
      → Quoting true (c ∷ s)
  escape : (b c : ℕ) {s : Text} → b ≡ b'\\' → Quoting true s → Quoting true (b ∷ c ∷ s)
  closing : (c : ℕ) {s : Text} → c ≡ b'"' → Quoting false s → Quoting true (c ∷ s)

first_field-Quoting :
    {q : Bool} {o : Text} (s : Text)
    → Quoting q o
    → first_field q false (o ++ (b' ' ∷ s)) ≡ some (o, b' ' ∷ s)
unfolding first_field
first_field-Quoting s done = rw is_whitespace_space refl
first_field-Quoting s (plain c h r) = ground (arith, first_field-Quoting s r)
first_field-Quoting s (opening c e r) = ground (arith, first_field-Quoting s r, is_whitespace_quote)
first_field-Quoting s (inside c h k r) = ground (arith, first_field-Quoting s r)
first_field-Quoting s (escape b c e r) = ground (arith, first_field-Quoting s r)
first_field-Quoting s (closing c e r) = ground (arith, first_field-Quoting s r)

-- An options field: what stands before the key and is no key type itself.
pub record IsOptions (o : Text) : Type 0 where
  pub quoting : Quoting false o
  pub no_key : is_key_type o ≡ false
  pub no_comment : is_comment o ≡ false
  pub inked : starts_word is_whitespace o ≡ true

is_comment-append : (o s : Text) → is_comment o ≡ false → is_comment (o ++ s) ≡ false
is_comment-append [] s h = cc
is_comment-append (c ∷ o) s h = h

trim_start-append : (o s : Text) → starts_word is_whitespace o ≡ true → trim_start (o ++ s) ≡ o ++ s
unfolding trim_start
trim_start-append [] s h = cc
trim_start-append (c ∷ o) s h = ground arith

trim_options :
    (o t k c : Text)
    → IsOptions o
    → IsKeyType t
    → IsWord c
    → trim (o ++ (b' ' ∷ entry t k c)) ≡ o ++ (b' ' ∷ entry t k c)
unfolding trim entry
trim_options o t k c ho ht hc =
    let tail = trim_end-append (b' ' ∷ t) _ (trim_end_tail k c hc) (cons_ne_nil b' ' _) in
    ap trim_start
      (trim_end-append o (b' ' ∷ (t ++ (b' ' ∷ (k ++ (b' ' ∷ c))))) tail (cons_ne_nil b' ' _))
    ∙ trim_start-append o _ ho.inked

trim_start-entry : (t k c : Text) → IsWord t → trim_start (b' ' ∷ entry t k c) ≡ entry t k c
unfolding entry
trim_start-entry t k c h = trim_start_space t (b' ' ∷ (k ++ (b' ' ∷ c))) h

-- An options field, whatever its quotes hide, is skipped by `parse_line`: behind it the key
-- type, the key and the comment are found.
pub parse_line-options :
    (o t k c : Text)
    → IsOptions o
    → IsKeyType t
    → IsWord k
    → IsWord c
    → parse_line (o ++ (b' ' ∷ entry t k c))
      ≡ some (record { key_type = t; key_b64 = k; comment = c })
unfolding parse_line skip_options
parse_line-options o t k c ho ht hk hc = rw (trim_options o t k c ho ht hc) (
    rw (is_comment-append o (b' ' ∷ entry t k c) ho.no_comment) (
      rw (first_field-Quoting (entry t k c) ho.quoting)
        (rw (ho.no_key) (rw (trim_start-entry t k c ht.word) (split_entry t k c ht.word hk hc)))))
